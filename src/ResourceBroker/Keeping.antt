-- ===== src/ResourceBroker/Keeping.antt =====
-- What one step of a call keeps of the counts of a ResourceBroker,
-- backend/framework/resource_broker.go.
use bridra.Common.{
  ℕ, zero, suc, ◌+◌, ◌≤◌, ◌≡◌, refl, true, false, Option, none, some, List, [], ◌∷◌, arith,
  Bool-cases, inl, inr, ◌⊎◌, length, length-append,
}
use bridra.Common.Texts.{Text}
use bridra.Common.Ordering.{find_by}
use bridra.Common.Sums.{sum, sum-append}
use bridra.ResourceBroker.Broker.{
  Error, LeaseEntry, capability_key, Broker, set_lease, remove_lease, finish_grant, start_release,
  Taken, answered, taken,
}
use bridra.ResourceBroker.Calls.{
  Call, resolving, holding, storing, dropping, finishing, releasing, Answer, refused, nil_lease,
  given, random, let_go, Moved, advance, move_at, Closing, not_called, waiting, draining, State,
}

-- Whether a call is a Grant.
unfoldable pub granting : Call → ℕ
granting (releasing lease) = 0
granting _ = 1

-- Whether a call is a Grant that has not stored its lease or given it up.
unfoldable pub unstored : Call → ℕ
unstored (releasing lease) = 0
unstored (finishing result) = 0
unstored _ = 1

-- Close has been called where the broker is closed; once it has waited, no lease and no call is left.
abbrev pub Fits : Closing → Broker → Type 0
Fits not_called b = b.closed ≡ false
Fits waiting b = b.closed ≡ true
Fits (draining leases failed) b = (b.closed ≡ true) × ((b.leases ≡ []) × (b.active ≡ 0))

pub record IsSound (s : State) : Type 0 where
  pub pending_is : s.broker.pending ≡ sum granting s.calls
  pub active_is : s.broker.active ≡ length s.calls
  pub bounded : length s.broker.leases + sum unstored s.calls ≤ s.broker.max_active_grants
  pub fits : Fits s.closing s.broker

-- What a move changes, of the broker and its calls.
pub record Keeps (b : Broker) (calls : List Call) (m : Moved) : Type 0 where
  pub same_pending : m.broker.pending + sum granting calls ≡ b.pending + sum granting m.calls
  pub same_active : m.broker.active + length calls ≡ b.active + length m.calls
  pub no_more : length m.broker.leases + sum unstored m.calls ≤ length b.leases + sum unstored calls
  pub same_max : m.broker.max_active_grants ≡ b.max_active_grants
  pub same_closed : m.broker.closed ≡ b.closed

pub length-remove_lease :
    (capability : Text) (leases : List LeaseEntry)
    → length (remove_lease capability leases) ≤ length leases
unfolding remove_lease
length-remove_lease capability [] = omega arith
length-remove_lease capability (e ∷ rest) = ground (arith, length-remove_lease capability rest)

length-set_lease :
    (entry : LeaseEntry) (leases : List LeaseEntry)
    → length (set_lease entry leases) ≤ length leases + 1
unfolding set_lease
length-set_lease entry leases = omega (arith, length-remove_lease entry.capability leases)

turns :
    (b : Broker) (call call' : Call) (resolved released : List ℕ)
    → granting call' ≡ granting call
    → unstored call' ≤ unstored call
    → Keeps b
        (call ∷ [])
        (record { broker = b; calls = call' ∷ []; resolved = resolved; released = released })
unfolding sum
turns b call call' resolved released g u = record {
  same_pending = omega (arith, g);
  same_active = refl;
  no_more = omega (arith, u);
  same_max = refl;
  same_closed = refl;
}

pub Taken-cases :
    (t : Taken)
    → ((e : Option Error) × (t ≡ answered e)) ⊎ ((lease : ℕ) × ((b : Broker) × (t ≡ taken lease b)))
Taken-cases (answered e) = inl (e, refl)
Taken-cases (taken lease b) = inr (lease, (b, refl))

-- A Release that goes on has taken an active lease out of an open broker.
pub record Takes (capability : Text) (b : Broker) (lease : ℕ) (b' : Broker) : Type 0 where
  pub entry : LeaseEntry
  pub found : find_by capability_key capability b.leases ≡ some entry
  pub still_open : b.closed ≡ false
  pub same_lease : entry.lease ≡ lease
  pub after : record b { leases = remove_lease capability b.leases; active = b.active + 1 } ≡ b'

pub start_release-Takes :
    (mac : List ℕ → List ℕ) (capability : Text) (b b' : Broker) (lease : ℕ)
    → start_release mac capability b ≡ taken lease b'
    → Takes capability b lease b'
unfolding start_release
start_release-Takes mac capability b b' lease h = ground arith

module _ (mac : List ℕ → List ℕ) where
  advance-Keeps :
      (b : Broker) (call : Call) (answer : Answer)
      → granting call ≤ b.pending
      → 1 ≤ b.active
      → Keeps b (call ∷ []) (advance mac b call answer)
  unfolding advance granting unstored sum finish_grant
  advance-Keeps b resolving (refused e) h k = turns b _ _ _ _ refl (omega arith)
  advance-Keeps b resolving nil_lease h k = turns b _ _ _ _ refl (omega arith)
  advance-Keeps b resolving (given lease path) h k = ground arith
  advance-Keeps b resolving _ h k = turns b _ _ _ _ refl (omega arith)
  advance-Keeps b (holding lease zero path) answer h k = turns b _ _ _ _ refl (omega arith)
  advance-Keeps b (holding lease (suc attempts) path) (random (some nonce)) h k = ground arith
  advance-Keeps b (holding lease (suc attempts) path) (random none) h k =
      turns b _ _ _ _ refl (omega arith)
  advance-Keeps b (holding lease (suc attempts) path) _ h k = turns b _ _ _ _ refl (omega arith)
  advance-Keeps b (storing lease path capability) answer h k = elim (Bool-cases b.closed) [
    | inl e ↦ rw (e, advance) (turns (record b { closed = true }) _ _ _ _ refl (omega arith))
    | inr e ↦
        let entry : LeaseEntry = record { capability = capability; lease = lease; path = path } in
        rw (e, advance)
          (record {
            same_pending = omega arith;
            same_active = refl;
            no_more = omega (arith, length-set_lease entry b.leases);
            same_max = refl;
            same_closed = refl;
          })
  ]
  advance-Keeps b (dropping lease e) (let_go well) h k = turns b _ _ _ _ refl (omega arith)
  advance-Keeps b (dropping lease e) _ h k = turns b _ _ _ _ refl (omega arith)
  advance-Keeps b (finishing result) answer h k = ground arith
  advance-Keeps b (releasing lease) (let_go well) h k = ground arith
  advance-Keeps b (releasing lease) _ h k = turns b _ _ _ _ refl (omega arith)

  pub move_at-Keeps :
      (n : ℕ) (answer : Answer) (b : Broker) (calls : List Call)
      → sum granting calls ≤ b.pending
      → length calls ≤ b.active
      → Keeps b calls (move_at mac n answer b calls)
  unfolding move_at sum
  move_at-Keeps n answer b [] h k = ground arith
  move_at-Keeps zero answer b (call ∷ calls) h k =
      let m = advance mac b call answer in
      let kept = advance-Keeps b call answer (omega (arith, h)) (omega (arith, k)) in
      record {
        same_pending = omega (arith, kept.same_pending, sum-append granting m.calls calls);
        same_active = omega (arith, kept.same_active, length-append m.calls calls);
        no_more = omega (arith, kept.no_more, sum-append unstored m.calls calls);
        same_max = kept.same_max;
        same_closed = kept.same_closed;
      }
  move_at-Keeps (suc n) answer b (call ∷ calls) h k =
      let kept = move_at-Keeps n answer b calls (omega (arith, h)) (omega (arith, k)) in
      record {
        same_pending = omega (arith, kept.same_pending);
        same_active = omega (arith, kept.same_active);
        no_more = omega (arith, kept.no_more);
        same_max = kept.same_max;
        same_closed = kept.same_closed;
      }
