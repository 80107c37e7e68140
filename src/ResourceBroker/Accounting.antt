-- ===== src/ResourceBroker/Accounting.antt =====
-- Every lease that a resolver gave is held at one place, backend/framework/resource_broker.go.
use bridra.Common.{
  ℕ, zero, suc, ◌+◌, ◌≡◌, refl, ap, none, some, List, [], ◌∷◌, arith, Bool-cases, inl, inr, all,
}
use bridra.Common.Texts.{Text, same_text, is_space}
use bridra.Common.Ordering.{find_by}
use bridra.Common.Sums.{sum, sum-append, one, count}
use bridra.ResourceBroker.Broker.{
  LeaseEntry, capability_key, Broker, set_lease, remove_lease, finish_grant,
}
use bridra.ResourceBroker.Calls.{
  Call, resolving, holding, storing, dropping, finishing, releasing, Answer, refused, nil_lease,
  given, random, let_go, nothing, advance, move_at, Closing, draining, lease_of,
}

-- The times that a call holds a lease.
unfoldable pub held : ℕ → Call → ℕ
held l (holding lease attempts path) = one l lease
held l (storing lease path capability) = one l lease
held l (dropping lease e) = one l lease
held l (releasing lease) = one l lease
held l _ = 0

-- The times that the broker holds a lease.
unfoldable pub kept : ℕ → Broker → ℕ
kept l b = sum (λ e. one l (lease_of e)) b.leases

-- The leases that Close has yet to release.
unfoldable pub remaining : ℕ → Closing → ℕ
remaining l (draining leases failed) = count l leases
remaining l _ = 0

-- A capability that is about to be stored is none that is active: nonces do not repeat.
abbrev pub IsNew : Broker → Call → Type 0
IsNew b (storing lease path capability) = find_by capability_key capability b.leases ≡ none
IsNew b _ = Unit

abbrev pub IsNewAt : ℕ → Broker → List Call → Type 0
IsNewAt n b [] = Unit
IsNewAt zero b (call ∷ calls) = IsNew b call
IsNewAt (suc n) b (call ∷ calls) = IsNewAt n b calls

remove_lease_missing :
    (capability : Text) (leases : List LeaseEntry)
    → find_by capability_key capability leases ≡ none
    → remove_lease capability leases ≡ leases
unfolding find_by remove_lease
remove_lease_missing capability [] h = refl
remove_lease_missing capability (e ∷ rest) h =
    ground (arith, h, remove_lease_missing capability rest)

pub sum-remove_lease :
    (f : LeaseEntry → ℕ) (capability : Text) (entry : LeaseEntry) (leases : List LeaseEntry)
    → find_by capability_key capability leases ≡ some entry
    → sum f leases ≡ f entry + sum f (remove_lease capability leases)
unfolding find_by remove_lease sum
sum-remove_lease f capability entry [] h = absurd (ground (arith, h))
sum-remove_lease f capability entry (e ∷ rest) h =
    elim (Bool-cases (same_text e.capability capability)) [
      | inl hit ↦ ground (arith, hit, h)
      | inr miss ↦
          rw (miss, remove_lease, sum)
            (omega (arith, sum-remove_lease f capability entry rest (ground (arith, miss, h))))
    ]

pub sum-set_lease :
    (f : LeaseEntry → ℕ) (entry : LeaseEntry) (leases : List LeaseEntry)
    → find_by capability_key entry.capability leases ≡ none
    → sum f (set_lease entry leases) ≡ f entry + sum f leases
unfolding set_lease sum
sum-set_lease f entry leases h =
    ap (λ x. f entry + sum f x) (remove_lease_missing entry.capability leases h)

module _ (mac : List ℕ → List ℕ) (l : ℕ) where
  -- One step of a call moves leases from one place to another.
  advance-held :
      (b : Broker) (call : Call) (answer : Answer)
      → IsNew b call
      → count l (advance mac b call answer).resolved + (held l call + kept l b)
        ≡ count l (advance mac b call answer).released
          + (sum (held l) (advance mac b call answer).calls
              + kept l (advance mac b call answer).broker)
  unfolding advance held kept sum finish_grant
  advance-held b resolving (refused e) h = omega arith
  advance-held b resolving nil_lease h = omega arith
  advance-held b resolving (given lease path) h = elim (Bool-cases (all is_space path)) [
    | inl e ↦ rw (e, held) (omega arith)
    | inr e ↦ rw (e, held) (omega arith)
  ]
  advance-held b resolving (random r) h = omega arith
  advance-held b resolving (let_go well) h = omega arith
  advance-held b resolving nothing h = omega arith
  advance-held b (holding lease zero path) answer h = omega arith
  advance-held b (holding lease (suc attempts) path) (random none) h = omega arith
  advance-held b (holding lease (suc attempts) path) (random (some nonce)) h = ground arith
  advance-held b (holding lease (suc attempts) path) (refused e) h = omega arith
  advance-held b (holding lease (suc attempts) path) nil_lease h = omega arith
  advance-held b (holding lease (suc attempts) path) (given other at) h = omega arith
  advance-held b (holding lease (suc attempts) path) (let_go well) h = omega arith
  advance-held b (holding lease (suc attempts) path) nothing h = omega arith
  advance-held b (storing lease path capability) answer h = elim (Bool-cases b.closed) [
    | inl e ↦ rw (e, advance) (omega arith)
    | inr e ↦
        rw (e, advance)
          (omega (
            arith,
            sum-set_lease (λ x. one l (lease_of x))
                (record { capability = capability; lease = lease; path = path }) b.leases h,
          ))
  ]
  advance-held b (dropping lease e) (let_go well) h = omega arith
  advance-held b (dropping lease e) (refused f) h = omega arith
  advance-held b (dropping lease e) nil_lease h = omega arith
  advance-held b (dropping lease e) (given other at) h = omega arith
  advance-held b (dropping lease e) (random r) h = omega arith
  advance-held b (dropping lease e) nothing h = omega arith
  advance-held b (finishing result) answer h = omega arith
  advance-held b (releasing lease) (let_go well) h = omega arith
  advance-held b (releasing lease) (refused f) h = omega arith
  advance-held b (releasing lease) nil_lease h = omega arith
  advance-held b (releasing lease) (given other at) h = omega arith
  advance-held b (releasing lease) (random r) h = omega arith
  advance-held b (releasing lease) nothing h = omega arith

  pub move_at-held :
      (n : ℕ) (answer : Answer) (b : Broker) (calls : List Call)
      → IsNewAt n b calls
      → count l (move_at mac n answer b calls).resolved + (sum (held l) calls + kept l b)
        ≡ count l (move_at mac n answer b calls).released
          + (sum (held l) (move_at mac n answer b calls).calls
              + kept l (move_at mac n answer b calls).broker)
  unfolding move_at sum
  move_at-held n answer b [] h = omega arith
  move_at-held zero answer b (call ∷ calls) h = omega (
    arith,
    advance-held b call answer h,
    sum-append (held l) (advance mac b call answer).calls calls,
  )
  move_at-held (suc n) answer b (call ∷ calls) h = omega (arith, move_at-held n answer b calls h)
