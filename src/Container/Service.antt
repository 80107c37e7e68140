-- ===== src/Container/Service.antt =====
-- The container of backend/framework/container.go and the operations that register services. The
-- services are values of any type `V`, and a Go type is a number.
use bridra.Common.{
  ℕ, Bool, true, false, not, ◌&&◌, ◌||◌, Option, none, some, List, [], ◌∷◌, String, ◌==◌, ◌=s=◌,
  if◌then◌else◌, Result, ok, err,
}

-- serviceID
pub record ServiceId : Type 0 where
  pub name : String
  pub value_type : ℕ

abbrev pub same_id : ServiceId → ServiceId → Bool
same_id a b = (a.name =s= b.name) && a.value_type == b.value_type

-- ServiceKey.id: a key that NewServiceKey made has a name and a type, and the zero key has neither.
abbrev pub is_valid : ServiceId → Bool
is_valid id = not (id.name =s= "")

pub data Lifetime : Type 0 where
  singleton transient scoped : Lifetime

-- The errors by their sentinels; `factory_failed` is any other error of a factory.
pub data Error : Type 0 where
  invalid_service_key invalid_service_alias already_registered not_found : Error
  scope_required scoped_from_singleton invalid_type : Error
  circular_dependency : List String → Error
  factory_failed : ℕ → Error

-- A factory: it asks its Resolver for services, one after the other, and returns.
pub data Program (V : Type 0) : Type 0 where
  return : Result Error V → Program V
  ask : ServiceId → (Result Error V → Program V) → Program V

-- serviceBinding, without its instance
pub record Binding (V : Type 0) : Type 0 where
  pub lifetime : Lifetime
  pub factory : Program V

abbrev pub IdMap : Type 0 → Type 0
IdMap A = List (ServiceId × A)

module _ {A : Type 0} where
  unfoldable pub find : ServiceId → IdMap A → Option A
  find id [] = none
  find id ((key, a) ∷ rest) = let later = find id rest in if same_id id key then some a else later

  abbrev pub has : ServiceId → IdMap A → Bool
  has id entries = elim (find id entries) [ some a ↦ true | none ↦ false ]

-- Container
pub record Container (V : Type 0) : Type 0 where
  pub services : IdMap V
  pub bindings : IdMap (Binding V)
  pub aliases : IdMap ServiceId

abbrev pub new_container : {V : Type 0} → Container V
new_container = record { services = []; bindings = []; aliases = [] }

module _ {V : Type 0} where
  -- Container.registered
  unfoldable pub registered : ServiceId → Container V → Bool
  registered id c = has id c.services || has id c.bindings || has id c.aliases

  -- Instance
  unfoldable pub instance_of : ServiceId → V → Container V → Result Error (Container V)
  instance_of id service c =
      if not (is_valid id)
      then err invalid_service_key
      else if registered id c
      then err already_registered
      else ok (record c { services = (id, service) ∷ c.services })

  -- bind
  unfoldable pub bind : ServiceId → Binding V → Container V → Result Error (Container V)
  bind id binding c =
      if not (is_valid id)
      then err invalid_service_key
      else if registered id c
      then err already_registered
      else ok (record c { bindings = (id, binding) ∷ c.bindings })

  -- Alias; `assignable` is reflect's AssignableTo.
  unfoldable pub alias_to :
      (ℕ → ℕ → Bool) → ServiceId → ServiceId → Container V → Result Error (Container V)
  alias_to assignable alias target c =
      if not (is_valid alias) || not (is_valid target)
      then err invalid_service_key
      else if same_id alias target || not (assignable target.value_type alias.value_type)
      then err invalid_service_alias
      else if registered alias c
      then err already_registered
      else if not (registered target c)
      then err not_found
      else ok (record c { aliases = (alias, target) ∷ c.aliases })

  -- HasService
  abbrev pub has_service : ServiceId → Container V → Bool
  has_service id c = is_valid id && registered id c
