-- ===== src/Container/Termination.antt =====
-- A resolution of backend/framework/container.go ends: a stack holds each identifier once.
use bridra.Common.{
  ℕ, zero, suc, ◌+◌, ◌<◌, ◌≤◌, ◌≡◌, refl, ap, inl, inr, Bool, true, false, not, ◌&&◌, none, some,
  List, [], ◌∷◌, ◌++◌, map, length, keep_if, if◌then◌else◌, arith, Bool-cases, Option-cases, eq_iff,
  Result, ok, err,
}
use bridra.Container.Service.{
  ServiceId, same_id, IdMap, find, Container, Program, return, ask, Lifetime, singleton, transient,
  scoped, Binding, Error,
}
use bridra.Container.Resolution.{
  Frame, Instances, stack_from, Outcome, interpret, resolve_binding, resolve, inner_ids,
  keep_singleton, keep_scoped, is_scoped, has_singleton,
}

-- Whether no frame of a stack has the identifier.
abbrev is_off : List Frame → ServiceId → Bool
is_off [] id = true
is_off (frame ∷ frames) id = not (same_id frame.id id) && is_off frames id

-- How many of the identifiers the stack does not hold.
abbrev room : List Frame → List ServiceId → ℕ
room stack ids = length (keep_if (is_off stack) ids)

stack_from-none :
    (id : ServiceId) (stack : List Frame) → stack_from id stack ≡ none → is_off stack id ≡ true
unfolding stack_from
stack_from-none id [] h = refl
stack_from-none id (frame ∷ frames) h = ground (arith, stack_from-none id frames)

is_off-push :
    (stack : List Frame) (frame : Frame) (id : ServiceId)
    → is_off (stack ++ frame ∷ []) id ≡ (is_off stack id && not (same_id frame.id id))
is_off-push [] frame id = ground arith
is_off-push (f ∷ stack) frame id = ground (arith, is_off-push stack frame id)

-- A stronger test keeps no more, and fewer where it refuses one that the other keeps.
room_mono :
    (stack : List Frame) (frame : Frame) (ids : List ServiceId)
    → room (stack ++ frame ∷ []) ids ≤ room stack ids
unfolding keep_if
room_mono stack frame [] = omega arith
room_mono stack frame (id ∷ ids) =
    ground (arith, is_off-push stack frame id, room_mono stack frame ids)

pub same_id→eq : (a b : ServiceId) → same_id a b ≡ true → a ≡ b
same_id→eq a b h = same_fields a b (ground (arith, h, eq_iff a.name b.name)) (ground (arith, h))
  where
    same_fields : (a b : ServiceId) → a.name ≡ b.name → a.value_type ≡ b.value_type → a ≡ b
    same_fields a b e f = cc

abbrev keys : {A : Type 0} → IdMap A → List ServiceId
keys entries = map (λ e. e.0) entries

room_shrinks :
    {A : Type 0} (entries : IdMap A) (stack : List Frame) (frame : Frame) (a : A)
    → find frame.id entries ≡ some a
    → is_off stack frame.id ≡ true
    → room (stack ++ frame ∷ []) (keys entries) < room stack (keys entries)
unfolding find keep_if
room_shrinks [] stack frame a h off = absurd (ground (arith, h))
room_shrinks ((key, v) ∷ entries) stack frame a h off = elim (Bool-cases (same_id frame.id key)) [
  | inl e ↦
      let here = ap (is_off stack) (same_id→eq frame.id key e) in
      ground
        (arith, e, off, here, is_off-push stack frame key, room_mono stack frame (keys entries))
  | inr e ↦
      let later = room_shrinks entries stack frame a (ground (arith, e, h)) off in
      ground (arith, e, is_off-push stack frame key, later)
]

room-append :
    (stack : List Frame) (xs ys : List ServiceId)
    → room stack (xs ++ ys) ≡ room stack xs + room stack ys
unfolding keep_if
room-append stack [] ys = omega arith
room-append stack (x ∷ xs) ys = ground (arith, room-append stack xs ys)

module _ {V : Type 0} where
  abbrev pub Ends : Outcome V → Type 0
  Ends o = (r : Result Error V × Instances V) × (o ≡ some r)

  interpret-Ends :
      (resolver : ServiceId → Instances V → Outcome V) (program : Program V) (w : Instances V)
      → ((id : ServiceId) (w : Instances V) → Ends (resolver id w))
      → Ends (interpret resolver program w)
  unfolding interpret
  interpret-Ends resolver (return r) w h = ((r, w), refl)
  interpret-Ends resolver (ask id continue) w h =
      let ((r, w'), e) = h id w in rw (e, interpret) (interpret-Ends resolver (continue r) w' h)

  keep_singleton-Ends : (id : ServiceId) (o : Outcome V) → Ends o → Ends (keep_singleton id o)
  keep_singleton-Ends id none h = absurd (ground (arith, h.1))
  keep_singleton-Ends id (some (ok v, w)) h = (_, refl)
  keep_singleton-Ends id (some (err e, w)) h = (_, refl)

  keep_scoped-Ends : (id : ServiceId) (o : Outcome V) → Ends o → Ends (keep_scoped id o)
  keep_scoped-Ends id none h = absurd (ground (arith, h.1))
  keep_scoped-Ends id (some (ok v, w)) h = (_, refl)
  keep_scoped-Ends id (some (err e, w)) h = (_, refl)

  resolve_binding-Ends :
      (resolver : ServiceId → Instances V → Outcome V) (id : ServiceId) (lifetime : Lifetime)
      (factory : Program V) (w : Instances V)
      → ((id : ServiceId) (w : Instances V) → Ends (resolver id w))
      → Ends (resolve_binding resolver id lifetime factory w)
  unfolding resolve_binding
  resolve_binding-Ends resolver id transient factory w h = interpret-Ends resolver factory w h
  resolve_binding-Ends resolver id scoped factory w h = elim (Option-cases w.scope) [
    | inl e ↦ rw (e, resolve_binding) (_, refl)
    | inr (entries, e) ↦ elim (Option-cases (find id entries)) [
      | inr (v, f) ↦ rw (e, f, resolve_binding) (_, refl)
      | inl f ↦
          rw (e, f, resolve_binding) (keep_scoped-Ends id _ (interpret-Ends resolver factory w h))
    ]
  ]
  resolve_binding-Ends resolver id singleton factory w h =
      elim (Option-cases (find id w.singletons)) [
        | inr (v, e) ↦ rw (e, resolve_binding) (_, refl)
        | inl e ↦
            rw (e, resolve_binding) (keep_singleton-Ends id _ (interpret-Ends resolver factory w h))
      ]

  if-Ends : (b : Bool) (x y : Outcome V) → Ends x → Ends y → Ends (if b then x else y)
  if-Ends true x y h k = h
  if-Ends false x y h k = k

  module _ (c : Container V) where
    alias_shrinks :
        (stack : List Frame) (frame : Frame) (target : ServiceId)
        → find frame.id c.aliases ≡ some target
        → is_off stack frame.id ≡ true
        → room (stack ++ frame ∷ []) (inner_ids c) < room stack (inner_ids c)
    alias_shrinks stack frame target e off = omega (
      arith,
      room-append stack (keys c.aliases) (keys c.bindings),
      room-append (stack ++ frame ∷ []) (keys c.aliases) (keys c.bindings),
      room_shrinks c.aliases stack frame target e off,
      room_mono stack frame (keys c.bindings),
    )

    binding_shrinks :
        (stack : List Frame) (frame : Frame) (binding : Binding V)
        → find frame.id c.bindings ≡ some binding
        → is_off stack frame.id ≡ true
        → room (stack ++ frame ∷ []) (inner_ids c) < room stack (inner_ids c)
    binding_shrinks stack frame binding e off = omega (
      arith,
      room-append stack (keys c.aliases) (keys c.bindings),
      room-append (stack ++ frame ∷ []) (keys c.aliases) (keys c.bindings),
      room_shrinks c.bindings stack frame binding e off,
      room_mono stack frame (keys c.aliases),
    )

    resolve_within :
        (fuel : ℕ) (stack : List Frame) (id : ServiceId) (w : Instances V)
        → room stack (inner_ids c) < fuel
        → Ends (resolve c fuel stack id w)
    unfolding resolve
    resolve_within zero stack id w h = absurd (omega (arith, h))
    resolve_within (suc fuel) stack id w h = elim (Option-cases (stack_from id stack)) [
      | inr (frames, e) ↦ rw (e, resolve) (_, refl)
      | inl e ↦ elim (Option-cases (find id c.services)) [
        | inr (service, f) ↦ rw (e, f, resolve) (_, refl)
        | inl f ↦ elim (Option-cases (find id c.aliases)) [
          | inr (target, g) ↦
              let frame : Frame = record { id = id; lifetime = none } in
              rw (e, f, g, resolve)
                (resolve_within fuel (stack ++ frame ∷ []) target w (
                  omega
                    (arith, h, alias_shrinks stack frame target g (stack_from-none id stack e))))
          | inl g ↦ elim (Option-cases (find id c.bindings)) [
            | inl k ↦ rw (e, f, g, k, resolve) (_, refl)
            | inr (binding, k) ↦
                rw (e, f, g, k, resolve)
                  (if-Ends (is_scoped binding.lifetime && has_singleton stack) _ _ (_, refl)
                    (resolve_binding-Ends _ id binding.lifetime binding.factory w (λ next w'.
                      let frame : Frame = record { id = id; lifetime = some binding.lifetime } in
                      resolve_within fuel (stack ++ frame ∷ []) next w' (
                        omega (
                          arith,
                          h,
                          binding_shrinks stack frame binding k (stack_from-none id stack e),
                        )))))
          ]
        ]
      ]
    ]

    room_empty : (ids : List ServiceId) → room [] ids ≤ length ids
    unfolding keep_if
    room_empty [] = omega arith
    room_empty (id ∷ ids) = omega (arith, room_empty ids)

    -- Whatever the aliases, the bindings and their factories, a resolution that starts with an empty
    -- stack ends with a service or an error when it may nest once more than there are aliases and
    -- bindings.
    pub resolve-Ends :
        (fuel : ℕ) (id : ServiceId) (w : Instances V)
        → length (inner_ids c) < fuel
        → Ends (resolve c fuel [] id w)
    resolve-Ends fuel id w h =
        resolve_within fuel [] id w (omega (arith, h, room_empty (inner_ids c)))
