-- ===== src/Container/Singletons.antt =====
-- The instances of singletons in backend/framework/container.go.
use mathlib.Core.Path.{subst}
use mathlib.Core.Option.{some-injective}
use bridra.Common.{
  ℕ, zero, suc, ◌≡◌, refl, sym, ap, ◌∙◌, inl, inr, Bool, true, false, ◌&&◌, Option, none, some,
  List, [], ◌∷◌, if◌then◌else◌, arith, Bool-cases, Option-cases, Result, ok, err, eq_iff,
}
use bridra.Container.Service.{
  ServiceId, same_id, IdMap, find, Container, Program, return, ask, Lifetime, singleton, transient,
  scoped, Error,
}
use bridra.Container.Termination.{same_id→eq}
use bridra.Container.Resolution.{
  Frame, Instances, stack_from, push, Outcome, interpret, resolve_binding, resolve, keep_singleton,
  keep_scoped, is_scoped, has_singleton,
}

module _ {V : Type 0} where
  -- No instance of a singleton is lost or replaced.
  abbrev pub Grown : Instances V → Instances V → Type 0
  Grown w w' =
      (id : ServiceId) (v : V) → find id w.singletons ≡ some v → find id w'.singletons ≡ some v

  abbrev Keeps : Instances V → Outcome V → Type 0
  Keeps w none = Unit
  Keeps w (some (r, w')) = Grown w w'

  Keeps-trans : (w w' : Instances V) (o : Outcome V) → Grown w w' → Keeps w' o → Keeps w o
  Keeps-trans w w' none h k = tt
  Keeps-trans w w' (some (r, w'')) h k = λ id v e. k id v (h id v e)

  interpret-Keeps :
      (resolver : ServiceId → Instances V → Outcome V) (program : Program V) (w : Instances V)
      → ((id : ServiceId) (w : Instances V) → Keeps w (resolver id w))
      → Keeps w (interpret resolver program w)
  unfolding interpret
  interpret-Keeps resolver (return r) w h = λ id v e. e
  interpret-Keeps resolver (ask id continue) w h =
      through (resolver id w) (h id w) (λ r w'. interpret-Keeps resolver (continue r) w' h)
    where
      through :
          (o : Outcome V)
          → Keeps w o
          → ((r : Result Error V) (w' : Instances V)
              → Keeps w' (interpret resolver (continue r) w'))
          → Keeps w (elim o [ none ↦ none | some (r, w') ↦ interpret resolver (continue r) w' ])
      through none k later = tt
      through (some (r, w')) k later = Keeps-trans w w' _ k (later r w')

  some-ne-none : (u : V) → ◌≡◌ {A = Option V} (some u) none → ⊥
  some-ne-none u h = cc

  keep_singleton-Keeps :
      (id : ServiceId) (w : Instances V) (o : Outcome V)
      → find id w.singletons ≡ none
      → Keeps w o
      → Keeps w (keep_singleton id o)
  unfolding find
  keep_singleton-Keeps id w none h k = tt
  keep_singleton-Keeps id w (some (err e, w')) h k = k
  keep_singleton-Keeps id w (some (ok v, w')) h k = λ key u e. elim (Bool-cases (same_id key id)) [
    | inl m ↦
        absurd (some-ne-none u (sym e ∙ ap (λ i. find i w.singletons) (same_id→eq key id m) ∙ h))
    | inr m ↦ rw (m, find) (k key u e)
  ]

  keep_scoped-Keeps :
      (id : ServiceId) (w : Instances V) (o : Outcome V) → Keeps w o → Keeps w (keep_scoped id o)
  keep_scoped-Keeps id w none k = tt
  keep_scoped-Keeps id w (some (err e, w')) k = k
  keep_scoped-Keeps id w (some (ok v, w')) k = k

  resolve_binding-Keeps :
      (resolver : ServiceId → Instances V → Outcome V) (id : ServiceId) (lifetime : Lifetime)
      (factory : Program V) (w : Instances V)
      → ((id : ServiceId) (w : Instances V) → Keeps w (resolver id w))
      → Keeps w (resolve_binding resolver id lifetime factory w)
  unfolding resolve_binding
  resolve_binding-Keeps resolver id transient factory w h = interpret-Keeps resolver factory w h
  resolve_binding-Keeps resolver id scoped factory w h = elim (Option-cases w.scope) [
    | inl e ↦ rw (e, resolve_binding) (λ key u f. f)
    | inr (entries, e) ↦ elim (Option-cases (find id entries)) [
      | inr (v, f) ↦ rw (e, f, resolve_binding) (λ key u g. g)
      | inl f ↦
          rw (e, f, resolve_binding)
            (keep_scoped-Keeps id w _ (interpret-Keeps resolver factory w h))
    ]
  ]
  resolve_binding-Keeps resolver id singleton factory w h =
      elim (Option-cases (find id w.singletons)) [
        | inr (v, e) ↦ rw (e, resolve_binding) (λ key u g. g)
        | inl e ↦
            rw (e, resolve_binding)
              (keep_singleton-Keeps id w _ e (interpret-Keeps resolver factory w h))
      ]

  if-Keeps :
      (w : Instances V) (b : Bool) (x y : Outcome V)
      → Keeps w x
      → Keeps w y
      → Keeps w (if b then x else y)
  if-Keeps w true x y h k = h
  if-Keeps w false x y h k = k

  module _ (c : Container V) where
    resolve-Keeps :
        (fuel : ℕ) (stack : List Frame) (id : ServiceId) (w : Instances V)
        → Keeps w (resolve c fuel stack id w)
    unfolding resolve
    resolve-Keeps zero stack id w = tt
    resolve-Keeps (suc fuel) stack id w = elim (Option-cases (stack_from id stack)) [
      | inr (frames, e) ↦ rw (e, resolve) (λ key u g. g)
      | inl e ↦ elim (Option-cases (find id c.services)) [
        | inr (service, f) ↦ rw (e, f, resolve) (λ key u g. g)
        | inl f ↦ elim (Option-cases (find id c.aliases)) [
          | inr (target, g) ↦
              rw (e, f, g, resolve) (resolve-Keeps fuel (push id none stack) target w)
          | inl g ↦ elim (Option-cases (find id c.bindings)) [
            | inl k ↦ rw (e, f, g, k, resolve) (λ key u m. m)
            | inr (binding, k) ↦
                rw (e, f, g, k, resolve)
                  (if-Keeps w (is_scoped binding.lifetime && has_singleton stack) _ _ (λ key u m. m)
                    (resolve_binding-Keeps _ id binding.lifetime binding.factory w
                      (resolve-Keeps fuel (push id (some binding.lifetime) stack))))
          ]
        ]
      ]
    ]

    -- The instances after resolutions one after the other, each in a scope of its own or in none; none
    -- where one runs out of fuel.
    unfoldable pub serve :
        ℕ → List (Option (IdMap V) × ServiceId) → Instances V → Option (Instances V)
    serve fuel [] w = some w
    serve fuel ((scope, id) ∷ later) w = elim (resolve c fuel [] id (record w { scope = scope })) [
      | none ↦ none
      | some (r, w') ↦ serve fuel later w'
    ]

    serve-Grown :
        (fuel : ℕ) (requests : List (Option (IdMap V) × ServiceId)) (w w' : Instances V)
        → serve fuel requests w ≡ some w'
        → Grown w w'
    unfolding serve
    serve-Grown fuel [] w w' h = subst (Grown w) (some-injective _ _ h) (λ key u g. g)
    serve-Grown fuel ((scope, id) ∷ later) w w' h =
        elim (Option-cases (resolve c fuel [] id (record w { scope = scope }))) [
          | inl e ↦ absurd (ground (arith, rw (e, serve) at h))
          | inr ((r, w1), e) ↦
              let first : Grown w w1 =
                subst (Keeps w) e (resolve-Keeps fuel [] id (record w { scope = scope })) in
              let rest = serve-Grown fuel later w1 w' (rw (e, serve) at h) in
              λ key u g. rest key u (first key u g)
        ]

same_id_refl : (id : ServiceId) → same_id id id ≡ true
same_id_refl id = ground (arith, eq_iff id.name id.name)

module _ {V : Type 0} where
  abbrev singletons_of : Outcome V → IdMap V
  singletons_of none = []
  singletons_of (some (r, w)) = w.singletons

  abbrev value_of : Outcome V → Option V
  value_of (some (ok v, w)) = some v
  value_of _ = none

module _ {V : Type 0} (c : Container V) (id : ServiceId) (factory : Program V)
    (no_service : find id c.services ≡ none) (no_alias : find id c.aliases ≡ none)
    (bound : find id c.bindings ≡ some (record { lifetime = singleton; factory = factory })) where
  resolve_cached :
      (fuel : ℕ) (w : Instances V) (v : V)
      → find id w.singletons ≡ some v
      → resolve c (suc fuel) [] id w ≡ some (ok v, w)
  unfolding resolve resolve_binding stack_from
  resolve_cached fuel w v e =
      rw (no_service, no_alias, bound, resolve) (rw (e, resolve_binding) refl)

  kept_singleton :
      (o : Outcome V) (v : V) (w : Instances V)
      → keep_singleton id o ≡ some (ok v, w)
      → find id w.singletons ≡ some v
  unfolding find
  kept_singleton none v w h = absurd (ground (arith, h))
  kept_singleton (some (err e, w')) v w h = absurd (ground (arith, h))
  kept_singleton (some (ok u, w')) v w h =
      ap (find id) (sym (ap singletons_of h)) ∙ rw (same_id_refl id, find) (ap value_of h)

  resolve_keeps :
      (fuel : ℕ) (w w' : Instances V) (v : V)
      → resolve c fuel [] id w ≡ some (ok v, w')
      → find id w'.singletons ≡ some v
  unfolding resolve resolve_binding stack_from
  resolve_keeps zero w w' v h = absurd (ground (arith, h))
  resolve_keeps (suc fuel) w w' v h = elim (Option-cases (find id w.singletons)) [
    | inr (u, e) ↦
        let twice = sym (resolve_cached fuel w u e) ∙ h in
        ap (λ o. find id (singletons_of o)) (sym twice) ∙ e ∙ ap value_of twice
    | inl e ↦
        kept_singleton (interpret (resolve c fuel (push id (some singleton) [])) factory w) v w'
          (rw (e, resolve_binding) at (rw (no_service, no_alias, bound, resolve) at h))
  ]

  -- Once a resolution of a singleton, in any scope, has given an instance, every later resolution of
  -- it gives the same instance and changes nothing, whatever was resolved in between and in whatever
  -- scopes.
  pub singleton_made_once :
      (fuel : ℕ) (w w1 w2 : Instances V) (v : V) (requests : List (Option (IdMap V) × ServiceId))
      (scope : Option (IdMap V)) (later_fuel : ℕ)
      → resolve c fuel [] id w ≡ some (ok v, w1)
      → serve c fuel requests w1 ≡ some w2
      → resolve c (suc later_fuel) [] id (record w2 { scope = scope })
        ≡ some (ok v, record w2 { scope = scope })
  singleton_made_once fuel w w1 w2 v requests scope later_fuel first between =
      resolve_cached later_fuel (record w2 { scope = scope }) v
        (serve-Grown c fuel requests w1 w2 between id v (resolve_keeps fuel w w1 v first))
