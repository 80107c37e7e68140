-- ===== src/Container/Isolation.antt =====
-- The scope plays no part in the resolution of a singleton in backend/framework/container.go.
use bridra.Common.{
  ℕ, zero, suc, ◌≡◌, refl, ap, ◌∙◌, inl, inr, Bool, true, false, ◌&&◌, Option, none, some, List, [],
  ◌∷◌, ◌++◌, if◌then◌else◌, arith, Bool-cases, Option-cases, ok, err,
}
use bridra.Container.Service.{
  ServiceId, IdMap, find, Container, Program, return, ask, Lifetime, singleton, transient, scoped,
}
use bridra.Container.Resolution.{
  Frame, Instances, stack_from, push, Outcome, interpret, resolve_binding, resolve, keep_singleton,
  is_scoped, has_singleton,
}

module _ {V : Type 0} (scope : Option (IdMap V)) where
  abbrev pub in_scope : Instances V → Instances V
  in_scope w = record w { scope = scope }

  -- An outcome with its instances put into the scope.
  abbrev pub outcome_in_scope : Outcome V → Outcome V
  outcome_in_scope none = none
  outcome_in_scope (some (r, w)) = some (r, in_scope w)

  -- The resolver does the same in either scope, and leaves the scope.
  abbrev IsScopeFree : (Instances V → Outcome V) → Type 0
  IsScopeFree run = (w : Instances V) → run (in_scope w) ≡ outcome_in_scope (run w)

  interpret-IsScopeFree :
      (resolver : ServiceId → Instances V → Outcome V) (program : Program V)
      → ((id : ServiceId) → IsScopeFree (resolver id))
      → IsScopeFree (interpret resolver program)
  unfolding interpret
  interpret-IsScopeFree resolver (return r) h w = refl
  interpret-IsScopeFree resolver (ask id continue) h w = elim (Option-cases (resolver id w)) [
    | inl e ↦ rw (h id w, e, interpret) refl
    | inr ((r, w'), e) ↦
        rw (h id w, e, interpret) (interpret-IsScopeFree resolver (continue r) h w')
  ]

  keep_singleton-in_scope :
      (id : ServiceId) (o : Outcome V)
      → keep_singleton id (outcome_in_scope o) ≡ outcome_in_scope (keep_singleton id o)
  keep_singleton-in_scope id none = refl
  keep_singleton-in_scope id (some (ok v, w)) = refl
  keep_singleton-in_scope id (some (err e, w)) = refl

  resolve_binding-IsScopeFree :
      (resolver : ServiceId → Instances V → Outcome V) (id : ServiceId) (lifetime : Lifetime)
      (factory : Program V)
      → is_scoped lifetime ≡ false
      → ((id : ServiceId) → IsScopeFree (resolver id))
      → IsScopeFree (resolve_binding resolver id lifetime factory)
  unfolding resolve_binding
  resolve_binding-IsScopeFree resolver id transient factory free h w =
      interpret-IsScopeFree resolver factory h w
  resolve_binding-IsScopeFree resolver id scoped factory free h w = absurd (ground (arith, free))
  resolve_binding-IsScopeFree resolver id singleton factory free h w =
      elim (Option-cases (find id w.singletons)) [
        | inr (v, e) ↦ rw (e, resolve_binding) refl
        | inl e ↦
            rw (e, resolve_binding)
              (ap (keep_singleton id) (interpret-IsScopeFree resolver factory h w)
                ∙ keep_singleton-in_scope id (interpret resolver factory w))
      ]

  has_singleton-push :
      (stack : List Frame) (frame : Frame)
      → has_singleton stack ≡ true
      → has_singleton (stack ++ frame ∷ []) ≡ true
  unfolding has_singleton
  has_singleton-push [] frame h = absurd (ground (arith, h))
  has_singleton-push (f ∷ stack) frame h = ground (arith, h, has_singleton-push stack frame)

  guarded :
      (a b : Bool) (p q x y : Outcome V)
      → a ≡ false
      → x ≡ outcome_in_scope y
      → (if a && b then p else x) ≡ outcome_in_scope (if a && b then q else y)
  guarded true b p q x y off same = absurd (ground (arith, off))
  guarded false b p q x y off same = same

  module _ (c : Container V) where
    resolve-IsScopeFree :
        (fuel : ℕ) (stack : List Frame) (id : ServiceId)
        → has_singleton stack ≡ true
        → IsScopeFree (resolve c fuel stack id)
    unfolding resolve
    resolve-IsScopeFree zero stack id under w = refl
    resolve-IsScopeFree (suc fuel) stack id under w = elim (Option-cases (stack_from id stack)) [
      | inr (frames, e) ↦ rw (e, resolve) refl
      | inl e ↦ elim (Option-cases (find id c.services)) [
        | inr (service, f) ↦ rw (e, f, resolve) refl
        | inl f ↦ elim (Option-cases (find id c.aliases)) [
          | inr (target, g) ↦
              rw (e, f, g, resolve)
                (resolve-IsScopeFree fuel (push id none stack) target
                  (has_singleton-push stack (record { id = id; lifetime = none }) under) w)
          | inl g ↦ elim (Option-cases (find id c.bindings)) [
            | inl k ↦ rw (e, f, g, k, resolve) refl
            | inr (binding, k) ↦ elim (Bool-cases (is_scoped binding.lifetime)) [
              | inl s ↦ rw (e, f, g, k, resolve) (simp (s, under))
              | inr s ↦
                  rw (e, f, g, k, resolve)
                    (guarded (is_scoped binding.lifetime) (has_singleton stack) _ _ _ _ s (
                      resolve_binding-IsScopeFree _ id binding.lifetime binding.factory s
                        (λ next.
                          resolve-IsScopeFree fuel (push id (some binding.lifetime) stack) next (
                            has_singleton-push stack
                              (record { id = id; lifetime = some binding.lifetime }) under))
                        w))
            ]
          ]
        ]
      ]
    ]

    -- A singleton is resolved the same in every scope and in none, and the scope is left as it was: its
    -- result, and the singletons that are made for it, do not depend on the scope of the request.
    pub singleton_ignores_scope :
        (fuel : ℕ) (id : ServiceId) (factory : Program V) (w : Instances V)
        → find id c.services ≡ none
        → find id c.aliases ≡ none
        → find id c.bindings ≡ some (record { lifetime = singleton; factory = factory })
        → resolve c fuel [] id (in_scope w) ≡ outcome_in_scope (resolve c fuel [] id w)
    unfolding resolve stack_from has_singleton
    singleton_ignores_scope zero id factory w no_service no_alias bound = refl
    singleton_ignores_scope (suc fuel) id factory w no_service no_alias bound =
        rw (no_service, no_alias, bound, resolve)
          (resolve_binding-IsScopeFree _ id singleton factory refl
            (λ next. resolve-IsScopeFree fuel (push id (some singleton) []) next refl) w)
