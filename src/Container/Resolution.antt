-- ===== src/Container/Resolution.antt =====
-- How backend/framework/container.go resolves a service: along a stack of the identifiers under
-- resolution, with the instances of singletons and of the scope as its state.
use bridra.Common.{
  ℕ, zero, suc, Bool, true, false, not, ◌&&◌, ◌||◌, Option, none, some, List, [], ◌∷◌, ◌++◌, map,
  if◌then◌else◌, Result, ok, err,
}
use bridra.Container.Service.{
  ServiceId, same_id, is_valid, invalid_service_key, invalid_type, Lifetime, singleton, transient,
  scoped, Error, not_found, scope_required, scoped_from_singleton, circular_dependency, Program,
  return, ask, IdMap, find, Container,
}

-- resolutionFrame; an alias has no lifetime.
pub record Frame : Type 0 where
  pub id : ServiceId
  pub lifetime : Option Lifetime

-- The instances that bindings hold, and those of the resolution's scope, if it has one.
pub record Instances (V : Type 0) : Type 0 where
  pub singletons : IdMap V
  pub scope : Option (IdMap V)

-- The frames from the one with the identifier on: resolution.stackIndex.
unfoldable pub stack_from : ServiceId → List Frame → Option (List Frame)
stack_from id [] = none
stack_from id (frame ∷ frames) =
    let later = stack_from id frames in if same_id frame.id id then some (frame ∷ frames) else later

abbrev is_singleton : Option Lifetime → Bool
is_singleton (some singleton) = true
is_singleton _ = false

-- resolution.hasLifetime(LifetimeSingleton)
unfoldable pub has_singleton : List Frame → Bool
has_singleton [] = false
has_singleton (frame ∷ frames) =
    let later = has_singleton frames in is_singleton frame.lifetime || later

abbrev pub is_scoped : Lifetime → Bool
is_scoped scoped = true
is_scoped _ = false

abbrev pub push : ServiceId → Option Lifetime → List Frame → List Frame
push id lifetime stack = stack ++ record { id = id; lifetime = lifetime } ∷ []

-- A result with the instances after it; none where the fuel runs out.
abbrev pub Outcome : Type 0 → Type 0
Outcome V = Option (Result Error V × Instances V)

module _ {V : Type 0} where
  -- A factory with its Resolver.
  unfoldable pub interpret :
      (ServiceId → Instances V → Outcome V) → Program V → Instances V → Outcome V
  interpret resolve (return r) w = some (r, w)
  interpret resolve (ask id continue) w = elim (resolve id w) [
    | none ↦ none
    | some (r, w') ↦ interpret resolve (continue r) w'
  ]

  -- What a singleton and a scoped binding keep of a factory's result.
  abbrev pub keep_singleton : ServiceId → Outcome V → Outcome V
  keep_singleton id none = none
  keep_singleton id (some (ok v, w)) = some (ok v, record w { singletons = (id, v) ∷ w.singletons })
  keep_singleton id (some (err e, w)) = some (err e, w)

  abbrev pub add_scoped : ServiceId → V → Option (IdMap V) → Option (IdMap V)
  add_scoped id v none = none
  add_scoped id v (some entries) = some ((id, v) ∷ entries)

  abbrev pub keep_scoped : ServiceId → Outcome V → Outcome V
  keep_scoped id none = none
  keep_scoped id (some (ok v, w)) = some (ok v, record w { scope = add_scoped id v w.scope })
  keep_scoped id (some (err e, w)) = some (err e, w)

  -- serviceBinding.resolve
  unfoldable pub resolve_binding :
      (ServiceId → Instances V → Outcome V)
      → ServiceId
      → Lifetime
      → Program V
      → Instances V
      → Outcome V
  resolve_binding resolve id transient factory w = interpret resolve factory w
  resolve_binding resolve id scoped factory w = elim w.scope [
    | none ↦ some (err scope_required, w)
    | some entries ↦ elim (find id entries) [
      | some v ↦ some (ok v, w)
      | none ↦ keep_scoped id (interpret resolve factory w)
    ]
  ]
  resolve_binding resolve id singleton factory w = elim (find id w.singletons) [
    | some v ↦ some (ok v, w)
    | none ↦ keep_singleton id (interpret resolve factory w)
  ]

  module _ (c : Container V) where
    -- resolution.resolve, with fuel for the depth of its stack
    unfoldable pub resolve : ℕ → List Frame → ServiceId → Instances V → Outcome V
    resolve zero stack id w = none
    resolve (suc fuel) stack id w = elim (stack_from id stack) [
      | some frames ↦
          some (err (circular_dependency (map (λ frame. frame.id.name) frames ++ id.name ∷ [])), w)
      | none ↦ elim (find id c.services) [
        | some service ↦ some (ok service, w)
        | none ↦ elim (find id c.aliases) [
          | some target ↦ resolve fuel (push id none stack) target w
          | none ↦ elim (find id c.bindings) [
            | none ↦ some (err not_found, w)
            | some binding ↦
                if is_scoped binding.lifetime && has_singleton stack
                then some (err scoped_from_singleton, w)
                else resolve_binding (resolve fuel (push id (some binding.lifetime) stack)) id
                    binding.lifetime binding.factory w
          ]
        ]
      ]
    ]

    -- Resolve, by a Container or by a Scope, where `has_type` is the type assertion.
    unfoldable pub resolve_service : (V → ℕ → Bool) → ℕ → ServiceId → Instances V → Outcome V
    resolve_service has_type fuel id w =
        if not (is_valid id)
        then some (err invalid_service_key, w)
        else elim (resolve fuel [] id w) [
          | none ↦ none
          | some (err e, w') ↦ some (err e, w')
          | some (ok v, w') ↦
              if has_type v id.value_type then some (ok v, w') else some (err invalid_type, w')
        ]

-- The identifiers that lead further: those of aliases and of bindings.
abbrev pub inner_ids : {V : Type 0} → Container V → List ServiceId
inner_ids c = map (λ e. e.0) c.aliases ++ map (λ e. e.0) c.bindings
