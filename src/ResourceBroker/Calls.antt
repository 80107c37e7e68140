-- ===== src/ResourceBroker/Calls.antt =====
-- Calls in flight on a ResourceBroker and their interleavings, backend/framework/resource_broker.go.
-- A step is one critical section, or one answer from the resolver, the random source or a lease.
use bridra.Common.{
  ℕ, zero, suc, ◌-◌, Bool, true, false, Option, none, some, List, [], ◌∷◌, ◌++◌, ◌==◌,
  if◌then◌else◌, Result, ok, err, all, map,
}
use bridra.Common.Texts.{Text, is_space}
use bridra.Common.Ordering.{find_by}
use bridra.ResourceBroker.Capability.{capability_of, is_some}
use bridra.ResourceBroker.Broker.{
  Error, bookmark_unavailable, bookmark_invalid, bookmark_too_large, bookmark_stale,
  bookmark_resolve, bookmark_access, lease_invalid, lease_release, capability_create, broker_closed,
  joined, Scope, LeaseEntry, capability_key, Broker, set_lease, finish_grant, start_grant,
  start_release, Taken, answered, taken,
}

-- Where a call stands. A Grant: before the resolver answers, with a lease and attempts at a capability
-- left, with a capability, about to release a lease that it cannot keep, before finishGrant. A
-- Release: about to release its lease.
pub data Call : Type 0 where
  resolving : Call
  holding : ℕ → ℕ → Text → Call
  storing : ℕ → Text → Text → Call
  dropping : ℕ → Error → Call
  finishing : Result Error Text → Call
  releasing : ℕ → Call

-- What the resolver, the random source and a lease answer. An error is the stable one it wraps.
pub data Answer : Type 0 where
  refused : Option Error → Answer
  nil_lease : Answer
  given : ℕ → Text → Answer
  random : Option (List ℕ) → Answer
  let_go : Bool → Answer
  nothing : Answer

-- sanitizeResourceBookmarkError, from the first sentinel of the package that the error wraps
unfoldable pub sanitize : Option Error → Error
sanitize (some bookmark_unavailable) = bookmark_unavailable
sanitize (some bookmark_invalid) = bookmark_invalid
sanitize (some bookmark_too_large) = bookmark_too_large
sanitize (some bookmark_stale) = bookmark_stale
sanitize (some bookmark_access) = bookmark_access
sanitize _ = bookmark_resolve

-- errors.Join(e, releaseResourceLease(lease))
abbrev pub join_release : Error → Bool → Error
join_release e true = e
join_release e false = joined e lease_release

-- What a step makes of one call: the broker, the call's place (empty where it returned), and the
-- leases that the resolver gave and whose Release was called.
pub record Moved : Type 0 where
  pub broker : Broker
  pub calls : List Call
  pub resolved : List ℕ
  pub released : List ℕ

abbrev pub stays : Broker → List Call → Moved
stays b calls = record { broker = b; calls = calls; resolved = []; released = [] }

module _ (mac : List ℕ → List ℕ) where
  -- One attempt of createCapability
  abbrev pub attempt : Broker → ℕ → ℕ → Text → List ℕ → Call
  attempt b lease attempts path nonce =
      if is_some (find_by capability_key (capability_of mac nonce) b.leases)
      then holding lease attempts path
      else storing lease path (capability_of mac nonce)

  -- Grant and Release from one step to the next
  unfoldable pub advance : Broker → Call → Answer → Moved
  advance b resolving (refused e) = stays b (finishing (err (sanitize e)) ∷ [])
  advance b resolving nil_lease = stays b (finishing (err lease_invalid) ∷ [])
  advance b resolving (given lease path) = record {
    broker = b;
    calls = (if all is_space path then dropping lease lease_invalid else holding lease 4 path) ∷ [];
    resolved = lease ∷ [];
    released = [];
  }
  advance b (holding lease zero path) _ = stays b (dropping lease capability_create ∷ [])
  advance b (holding lease (suc attempts) path) (random none) =
      stays b (dropping lease capability_create ∷ [])
  advance b (holding lease (suc attempts) path) (random (some nonce)) =
      stays b (attempt b lease attempts path nonce ∷ [])
  advance b (storing lease path capability) _ =
      if b.closed
      then stays b (dropping lease broker_closed ∷ [])
      else stays
          (record b {
            leases =
                set_lease (record { capability = capability; lease = lease; path = path }) b.leases;
          })
          (finishing (ok capability) ∷ [])
  advance b (dropping lease e) (let_go well) = record {
    broker = b;
    calls = finishing (err (join_release e well)) ∷ [];
    resolved = [];
    released = lease ∷ [];
  }
  advance b (finishing result) _ = stays (finish_grant b) []
  advance b (releasing lease) (let_go well) = record {
    broker = record b { active = b.active - 1 };
    calls = [];
    resolved = [];
    released = lease ∷ [];
  }
  advance b call _ = stays b (call ∷ [])

  -- A step of the call at a place of the list
  unfoldable pub move_at : ℕ → Answer → Broker → List Call → Moved
  move_at n answer b [] = stays b []
  move_at zero answer b (call ∷ calls) =
      let moved = advance b call answer in record moved { calls = moved.calls ++ calls }
  move_at (suc n) answer b (call ∷ calls) =
      let moved = move_at n answer b calls in record moved { calls = call ∷ moved.calls }

-- Where Close stands: not called, waiting for the active calls, with the leases it has yet to release
-- and whether a release failed.
pub data Closing : Type 0 where
  not_called waiting : Closing
  draining : List ℕ → Bool → Closing

-- The broker, the calls in flight, Close, and the leases resolved and released so far.
pub record State : Type 0 where
  pub broker : Broker
  pub calls : List Call
  pub closing : Closing
  pub resolved : List ℕ
  pub released : List ℕ

-- What happens next.
pub data Event : Type 0 where
  grants : ℕ → Scope → Event
  releases : Text → Event
  moves : ℕ → Answer → Event
  closes drains : Event
  releases_next : Bool → Event

abbrev pub lease_of : LeaseEntry → ℕ
lease_of entry = entry.lease

-- Close, from active.Wait to the end of the critical section after it
unfoldable pub drain : Broker → Closing → Broker × Closing
drain b waiting =
    if b.active == 0
    then (record b { leases = [] }, draining (map lease_of b.leases) false)
    else (b, waiting)
drain b closing = (b, closing)

-- Close, releasing the leases that remained: those still to be released, and the one that is.
unfoldable pub release_next : Bool → Closing → Closing × List ℕ
release_next well (draining (lease ∷ rest) failed) =
    (draining rest (if well then failed else true), lease ∷ [])
release_next well closing = (closing, [])

-- Close, to its first unlock
unfoldable pub start_close : Broker → Closing → Broker × Closing
start_close b closing = if b.closed then (b, closing) else (record b { closed = true }, waiting)

abbrev pub started : State → Result Error Broker → State
started s (err e) = s
started s (ok b) = record s { broker = b; calls = resolving ∷ s.calls }

abbrev pub started_release : State → Taken → State
started_release s (answered e) = s
started_release s (taken lease b) = record s { broker = b; calls = releasing lease ∷ s.calls }

module _ (mac : List ℕ → List ℕ) where
  unfoldable pub step : Event → State → State
  step (grants bookmark scope) s = started s (start_grant bookmark scope s.broker)
  step (releases capability) s = started_release s (start_release mac capability s.broker)
  step (moves n answer) s =
      let moved = move_at mac n answer s.broker s.calls in
      record s {
        broker = moved.broker;
        calls = moved.calls;
        resolved = moved.resolved ++ s.resolved;
        released = moved.released ++ s.released;
      }
  step closes s =
      let (b, closing) = start_close s.broker s.closing in
      record s { broker = b; closing = closing }
  step drains s =
      let (b, closing) = drain s.broker s.closing in record s { broker = b; closing = closing }
  step (releases_next well) s =
      let (closing, gone) = release_next well s.closing in
      record s { closing = closing; released = gone ++ s.released }

  unfoldable pub run : List Event → State → State
  run [] s = s
  run (e ∷ es) s = run es (step e s)

abbrev pub fresh_state : Broker → State
fresh_state b = record {
  broker = b;
  calls = [];
  closing = not_called;
  resolved = [];
  released = [];
}
