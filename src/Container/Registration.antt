-- ===== src/Container/Registration.antt =====
-- Registering services in backend/framework/container.go.
use mathlib.Core.Path.{subst}
use bridra.Common.{
  ℕ, ◌≡◌, refl, sym, ap, ◌∙◌, inl, inr, Bool, true, false, not, ◌||◌, List, [], ◌∷◌, if◌then◌else◌,
  arith, Bool-cases, Result, ok, err,
}
use bridra.Container.Service.{
  ServiceId, same_id, is_valid, IdMap, find, Container, Binding, Error, registered, instance_of,
  bind, alias_to,
}
use bridra.Container.Termination.{same_id→eq}

find-cons :
    {A : Type 0} (id new : ServiceId) (a : A) (entries : IdMap A)
    → same_id id new ≡ false
    → find id ((new, a) ∷ entries) ≡ find id entries
unfolding find
find-cons id new a entries h = rw (h, find) refl

module _ {V : Type 0} where
  -- What is registered under an identifier stays what it is.
  pub record Extends (c c' : Container V) (id : ServiceId) : Type 0 where
    pub same_service : find id c'.services ≡ find id c.services
    pub same_binding : find id c'.bindings ≡ find id c.bindings
    pub same_alias : find id c'.aliases ≡ find id c.aliases

  distinct :
      (c : Container V) (id new : ServiceId)
      → registered id c ≡ true
      → registered new c ≡ false
      → same_id id new ≡ false
  distinct c id new h k = elim (Bool-cases (same_id id new)) [
    | inr e ↦ e
    | inl e ↦
        let clash = sym h ∙ ap (λ i. registered i c) (same_id→eq id new e) ∙ k in
        absurd (ground (arith, clash))
  ]

  ok-cong : (a b : Container V) → ◌≡◌ {A = Result Error (Container V)} (ok a) (ok b) → a ≡ b
  ok-cong a b h = cc

  past_guard :
      (b : Bool) (e : Error) (x : Result Error (Container V)) (c' : Container V)
      → (if b then err e else x) ≡ ok c'
      → (b ≡ false) × (x ≡ ok c')
  past_guard true e x c' h = absurd (ground (arith, h))
  past_guard false e x c' h = (refl, h)

  -- Registering keeps what another identifier is registered as.
  instance_of-Extends :
      (new : ServiceId) (v : V) (c c' : Container V) (id : ServiceId)
      → registered id c ≡ true
      → instance_of new v c ≡ ok c'
      → Extends c c' id
  unfolding instance_of
  instance_of-Extends new v c c' id known h =
      let valid = past_guard (not (is_valid new)) _ _ c' h in
      let (fresh, made) = past_guard (registered new c) _ _ c' valid.1 in
      subst (λ c'. Extends c c' id) (ok-cong _ _ made)
        (record {
          same_service = find-cons id new v c.services (distinct c id new known fresh);
          same_binding = refl;
          same_alias = refl;
        })

  bind-Extends :
      (new : ServiceId) (binding : Binding V) (c c' : Container V) (id : ServiceId)
      → registered id c ≡ true
      → bind new binding c ≡ ok c'
      → Extends c c' id
  unfolding bind
  bind-Extends new binding c c' id known h =
      let valid = past_guard (not (is_valid new)) _ _ c' h in
      let (fresh, made) = past_guard (registered new c) _ _ c' valid.1 in
      subst (λ c'. Extends c c' id) (ok-cong _ _ made)
        (record {
          same_service = refl;
          same_binding = find-cons id new binding c.bindings (distinct c id new known fresh);
          same_alias = refl;
        })

  alias_to-Extends :
      (assignable : ℕ → ℕ → Bool) (new target : ServiceId) (c c' : Container V) (id : ServiceId)
      → registered id c ≡ true
      → alias_to assignable new target c ≡ ok c'
      → Extends c c' id
  unfolding alias_to
  alias_to-Extends assignable new target c c' id known h =
      let valid = past_guard (not (is_valid new) || not (is_valid target)) _ _ c' h in
      let typed =
        past_guard (same_id new target || not (assignable target.value_type new.value_type)) _ _ c'
          valid.1 in
      let (fresh, aimed) = past_guard (registered new c) _ _ c' typed.1 in
      let made = past_guard (not (registered target c)) _ _ c' aimed in
      subst (λ c'. Extends c c' id) (ok-cong _ _ made.1)
        (record {
          same_service = refl;
          same_binding = refl;
          same_alias = find-cons id new target c.aliases (distinct c id new known fresh);
        })

pub data Registration (V : Type 0) : Type 0 where
  an_instance : ServiceId → V → Registration V
  a_binding : ServiceId → Binding V → Registration V
  an_alias : ServiceId → ServiceId → Registration V

module _ {V : Type 0} (assignable : ℕ → ℕ → Bool) where
  abbrev pub register : Registration V → Container V → Result Error (Container V)
  register (an_instance id v) c = instance_of id v c
  register (a_binding id binding) c = bind id binding c
  register (an_alias id target) c = alias_to assignable id target c

  -- The container after a registration; one that fails leaves it.
  abbrev pub after : Result Error (Container V) → Container V → Container V
  after (ok c') c = c'
  after (err e) c = c

  unfoldable pub register_all : List (Registration V) → Container V → Container V
  register_all [] c = c
  register_all (r ∷ rs) c = register_all rs (after (register r c) c)

  register-Extends :
      (r : Registration V) (c c' : Container V) (id : ServiceId)
      → registered id c ≡ true
      → register r c ≡ ok c'
      → Extends c c' id
  register-Extends (an_instance new v) c c' id = instance_of-Extends new v c c' id
  register-Extends (a_binding new binding) c c' id = bind-Extends new binding c c' id
  register-Extends (an_alias new target) c c' id = alias_to-Extends assignable new target c c' id

  Extends-refl : (c : Container V) (id : ServiceId) → Extends c c id
  Extends-refl c id = record { same_service = refl; same_binding = refl; same_alias = refl }

  after-Extends :
      (o : Result Error (Container V)) (c : Container V) (id : ServiceId)
      → ((c' : Container V) → o ≡ ok c' → Extends c c' id)
      → Extends c (after o c) id
  after-Extends (ok c') c id h = h c' refl
  after-Extends (err e) c id h = Extends-refl c id

  Extends-registered :
      (c c' : Container V) (id : ServiceId)
      → Extends c c' id
      → registered id c ≡ true
      → registered id c' ≡ true
  unfolding registered
  Extends-registered c c' id x h = ground (arith, x.same_service, x.same_binding, x.same_alias, h)

  -- Whatever is registered next, what an identifier is registered as, a value, a binding or an alias,
  -- stays what it is.
  pub registered_stays :
      (rs : List (Registration V)) (c : Container V) (id : ServiceId)
      → registered id c ≡ true
      → Extends c (register_all rs c) id
  unfolding register_all
  registered_stays [] c id h = Extends-refl c id
  registered_stays (r ∷ rs) c id h =
      let first = after-Extends (register r c) c id (λ c' e. register-Extends r c c' id h e) in
      let rest =
        registered_stays rs (after (register r c) c) id
          (Extends-registered c (after (register r c) c) id first h) in
      record {
        same_service = rest.same_service ∙ first.same_service;
        same_binding = rest.same_binding ∙ first.same_binding;
        same_alias = rest.same_alias ∙ first.same_alias;
      }
