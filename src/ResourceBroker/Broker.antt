-- ===== src/ResourceBroker/Broker.antt =====
-- The state of a ResourceBroker and what its methods do under its mutex,
-- backend/framework/resource_broker.go. A lease is known by a number.
use bridra.Common.{
  ℕ, ◌+◌, ◌-◌, ◌^◌, Bool, true, false, not, ◌||◌, Option, none, some, List, [], ◌∷◌, leb, ltb, ◌==◌,
  if◌then◌else◌, Result, ok, err, length, ℤ, pos, negsuc,
}
use bridra.Common.Texts.{Text, same_text}
use bridra.Common.Ordering.{find_by}
use bridra.ResourceBroker.Capability.{valid_resource_capability, belongs_to_broker}

-- The errors by their sentinels; `joined` is errors.Join.
pub data Error : Type 0 where
  bookmark_unavailable bookmark_invalid bookmark_too_large bookmark_stale : Error
  bookmark_resolve bookmark_access broker_options broker_closed grant_limit : Error
  capability_invalid capability_not_found capability_create lease_invalid lease_release : Error
  joined : Error → Error → Error

-- ResourceBookmarkScope
pub data Scope : Type 0 where
  ephemeral persistent : Scope
  other_scope : Text → Scope

abbrev pub valid_resource_bookmark_scope : Scope → Bool
valid_resource_bookmark_scope ephemeral = true
valid_resource_bookmark_scope persistent = true
valid_resource_bookmark_scope (other_scope name) = false

-- resourceLeaseEntry, with its key
pub record LeaseEntry : Type 0 where
  pub capability : Text
  pub lease : ℕ
  pub path : Text

abbrev pub capability_key : LeaseEntry → Text
capability_key entry = entry.capability

-- ResourceBroker, without its resolver and key; `active` is the count of its WaitGroup.
pub record Broker : Type 0 where
  pub max_bookmark_bytes : ℕ
  pub max_active_grants : ℕ
  pub leases : List LeaseEntry
  pub pending : ℕ
  pub active : ℕ
  pub closed : Bool

-- ResourceBrokerOptions: an int may be negative.
pub record BrokerOptions : Type 0 where
  pub max_bookmark_bytes : ℤ
  pub max_active_grants : ℤ

abbrev pub or_default : ℤ → ℕ → Option ℕ
or_default (pos n) value = some (if n == 0 then value else n)
or_default (negsuc n) value = none

abbrev pub broker_of : Option ℕ → Option ℕ → Result Error Broker
broker_of (some bytes) (some grants) = ok (record {
  max_bookmark_bytes = bytes;
  max_active_grants = grants;
  leases = [];
  pending = 0;
  active = 0;
  closed = false;
})
broker_of _ _ = err broker_options

-- NewResourceBroker, with a resolver; `random` says whether rand.Read gave the key.
unfoldable pub new_resource_broker : Bool → BrokerOptions → Result Error Broker
new_resource_broker random options =
    elim (broker_of (or_default options.max_bookmark_bytes (2 ^ 20))
      (or_default options.max_active_grants 64)) [
        | err e ↦ err e
        | ok broker ↦ if random then ok broker else err capability_create
      ]

-- delete(leases, capability)
unfoldable pub remove_lease : Text → List LeaseEntry → List LeaseEntry
remove_lease capability [] = []
remove_lease capability (e ∷ rest) =
    let others = e ∷ remove_lease capability rest in
    if same_text e.capability capability then rest else others

-- leases[capability] = entry
unfoldable pub set_lease : LeaseEntry → List LeaseEntry → List LeaseEntry
set_lease entry leases = entry ∷ remove_lease entry.capability leases

-- beginGrant
unfoldable pub begin_grant : Broker → Result Error Broker
begin_grant b =
    if b.closed
    then err broker_closed
    else if leb b.max_active_grants (length b.leases + b.pending)
    then err grant_limit
    else ok (record b { pending = b.pending + 1; active = b.active + 1 })

-- finishGrant
unfoldable pub finish_grant : Broker → Broker
finish_grant b = record b { pending = b.pending - 1; active = b.active - 1 }

-- Grant, to the end of beginGrant; a bookmark is its number of bytes.
unfoldable pub start_grant : ℕ → Scope → Broker → Result Error Broker
start_grant bookmark scope b =
    if (bookmark == 0) || not (valid_resource_bookmark_scope scope)
    then err bookmark_invalid
    else if ltb b.max_bookmark_bytes bookmark
    then err bookmark_too_large
    else begin_grant b

-- ResolvePath
unfoldable pub resolve_path : Text → Broker → Result Error Text
resolve_path capability b =
    if not (valid_resource_capability capability)
    then err capability_invalid
    else if b.closed
    then err broker_closed
    else elim (find_by capability_key capability b.leases) [
      | none ↦ err capability_not_found
      | some entry ↦ ok entry.path
    ]

-- How Release leaves its critical section: with an answer, or with a lease to be released.
pub data Taken : Type 0 where
  answered : Option Error → Taken
  taken : ℕ → Broker → Taken

module _ (mac : List ℕ → List ℕ) where
  abbrev pub missing_answer : Text → Option Error
  missing_answer capability =
      if belongs_to_broker mac capability then none else some capability_not_found

  -- Release, to the end of its critical section
  unfoldable pub start_release : Text → Broker → Taken
  start_release capability b =
      if not (valid_resource_capability capability)
      then answered (some capability_invalid)
      else if b.closed
      then answered (some broker_closed)
      else elim (find_by capability_key capability b.leases) [
        | none ↦ answered (missing_answer capability)
        | some entry ↦
            taken entry.lease
              (record b { leases = remove_lease capability b.leases; active = b.active + 1 })
      ]
