-- ===== src/ResourceBroker/Balance.antt =====
-- No lease is lost and none is released twice, under every interleaving, backend/framework/resource_broker.go.
use bridra.Common.{
  ℕ, ◌+◌, ◌≡◌, refl, sym, ap, ◌∙◌, ◌≤◌, Bool, true, false, List, [], ◌∷◌, ◌==◌, arith, Bool-cases,
  inl, inr, Result, ok, err, map, length,
}
use bridra.Common.Texts.{Text}
use bridra.Common.Sums.{sum, sum-append, one, count}
use bridra.ResourceBroker.Broker.{
  Error, Scope, BrokerOptions, new_resource_broker, LeaseEntry, Broker, remove_lease, start_grant,
  begin_grant, start_release, Taken, answered, taken,
}
use bridra.ResourceBroker.Keeping.{Fits, IsSound, Takes, start_release-Takes}
use bridra.ResourceBroker.Soundness.{step-IsSound, run-IsSound}
use bridra.ResourceBroker.Accounting.{
  held, kept, remaining, IsNewAt, sum-remove_lease, move_at-held,
}
use bridra.ResourceBroker.Calls.{
  Call, move_at, Closing, not_called, waiting, draining, State, Event, grants, releases, moves,
  closes, drains, releases_next, lease_of, drain, release_next, start_close, started,
  started_release, step, run, fresh_state,
}

-- A broker as it is made: without leases and calls, and open.
record IsUnused (b : Broker) : Type 0 where
  no_leases : b.leases ≡ []
  no_pending : b.pending ≡ 0
  no_active : b.active ≡ 0
  is_open : b.closed ≡ false

new_resource_broker-IsUnused :
    (options : BrokerOptions) (b : Broker) → new_resource_broker true options ≡ ok b → IsUnused b
unfolding new_resource_broker
new_resource_broker-IsUnused options b h = ground arith

pub fresh-IsSound :
    (options : BrokerOptions) (b : Broker)
    → new_resource_broker true options ≡ ok b
    → IsSound (fresh_state b)
unfolding sum
fresh-IsSound options b h =
    let unused = new_resource_broker-IsUnused options b h in
    record {
      pending_is = unused.no_pending;
      active_is = unused.no_active;
      bounded = rw unused.no_leases (omega arith);
      fits = unused.is_open;
    }

module _ (l : ℕ) where
  -- The times a lease is held by a call, by the broker or by Close.
  unfoldable pub in_hand : State → ℕ
  in_hand s = sum (held l) s.calls + kept l s.broker + remaining l s.closing

  -- What was resolved is what was released and what is in hand.
  abbrev pub Balanced : State → Type 0
  Balanced s = count l s.resolved ≡ count l s.released + in_hand s

  start_grant-kept :
      (bookmark : ℕ) (scope : Scope) (b b' : Broker)
      → start_grant bookmark scope b ≡ ok b'
      → kept l b' ≡ kept l b
  unfolding start_grant begin_grant kept
  start_grant-kept bookmark scope b b' h = ground arith

  start_grant-Balanced :
      (s : State) (r : Result Error Broker)
      → ((b' : Broker) → r ≡ ok b' → kept l b' ≡ kept l s.broker)
      → Balanced s
      → Balanced (started s r)
  unfolding in_hand sum held
  start_grant-Balanced s (err e) h balance = balance
  start_grant-Balanced s (ok b) h balance = omega (arith, balance, h b refl)

  Takes-kept :
      (capability : Text) (b b' : Broker) (lease : ℕ)
      → Takes capability b lease b'
      → kept l b ≡ one l lease + kept l b'
  unfolding kept
  Takes-kept capability b b' lease takes =
      sum-remove_lease (λ e. one l (lease_of e)) capability takes.entry b.leases takes.found
      ∙ ap (λ n. one l n + sum (λ e. one l (lease_of e)) (remove_lease capability b.leases))
          takes.same_lease
      ∙ ap (λ x. one l lease + sum (λ e. one l (lease_of e)) x.leases) takes.after

  start_release-Balanced :
      (s : State) (t : Taken)
      → ((lease : ℕ) (b' : Broker) → t ≡ taken lease b' → kept l s.broker ≡ one l lease + kept l b')
      → Balanced s
      → Balanced (started_release s t)
  unfolding in_hand sum held
  start_release-Balanced s (answered e) h balance = balance
  start_release-Balanced s (taken lease b) h balance = omega (arith, balance, h lease b refl)

  open-remaining :
      (closing : Closing) (b : Broker) → b.closed ≡ false → Fits closing b → remaining l closing ≡ 0
  unfolding remaining
  open-remaining not_called b h fits = refl
  open-remaining waiting b h fits = refl
  open-remaining (draining leases failed) b h fits = absurd (ground (arith, h, fits.0))

  start_close-same :
      (b : Broker) (closing : Closing)
      → Fits closing b
      → kept l (start_close b closing).0 + remaining l (start_close b closing).1
        ≡ kept l b + remaining l closing
  unfolding start_close kept remaining
  start_close-same b closing fits = elim (Bool-cases b.closed) [
    | inl e ↦ rw (e, start_close) refl
    | inr e ↦ rw (e, start_close) (omega (arith, open-remaining closing b e fits))
  ]

  count-leases :
      (leases : List LeaseEntry)
      → count l (map lease_of leases) ≡ sum (λ e. one l (lease_of e)) leases
  unfolding sum
  count-leases [] = refl
  count-leases (e ∷ leases) = omega (arith, count-leases leases)

  drain-same :
      (b : Broker) (closing : Closing)
      → kept l (drain b closing).0 + remaining l (drain b closing).1
        ≡ kept l b + remaining l closing
  unfolding drain kept remaining sum
  drain-same b not_called = refl
  drain-same b (draining leases failed) = refl
  drain-same b waiting = elim (Bool-cases (b.active == 0)) [
    | inr e ↦ rw (e, drain) refl
    | inl e ↦ rw (e, drain) (omega (arith, count-leases b.leases))
  ]

  release_next-same :
      (well : Bool) (closing : Closing)
      → count l (release_next well closing).1 + remaining l (release_next well closing).0
        ≡ remaining l closing
  unfolding release_next remaining sum
  release_next-same well not_called = refl
  release_next-same well waiting = refl
  release_next-same well (draining [] failed) = refl
  release_next-same well (draining (lease ∷ rest) failed) = omega arith

abbrev pub IsNewEvent : Event → State → Type 0
IsNewEvent (moves n answer) s = IsNewAt n s.broker s.calls
IsNewEvent _ s = Unit

-- No capability is made a second time while it is active.
abbrev pub NeverRepeats : (List ℕ → List ℕ) → List Event → State → Type 0
NeverRepeats mac [] s = Unit
NeverRepeats mac (e ∷ es) s = IsNewEvent e s × NeverRepeats mac es (step mac e s)

module _ (mac : List ℕ → List ℕ) (l : ℕ) where
  step-Balanced :
      (e : Event) (s : State)
      → IsNewEvent e s
      → IsSound s
      → Balanced l s
      → Balanced l (step mac e s)
  unfolding step in_hand
  step-Balanced (grants bookmark scope) s new sound balance =
      start_grant-Balanced l s (start_grant bookmark scope s.broker)
        (λ b' h. start_grant-kept l bookmark scope s.broker b' h) balance
  step-Balanced (releases capability) s new sound balance =
      start_release-Balanced l s (start_release mac capability s.broker)
        (λ lease b' h.
          Takes-kept l capability s.broker b' lease
            (start_release-Takes mac capability s.broker b' lease h))
        balance
  step-Balanced (moves n answer) s new sound balance =
      let m = move_at mac n answer s.broker s.calls in
      omega (
        arith,
        balance,
        move_at-held mac l n answer s.broker s.calls new,
        sum-append (one l) m.resolved s.resolved,
        sum-append (one l) m.released s.released,
      )
  step-Balanced closes s new sound balance =
      omega (arith, balance, start_close-same l s.broker s.closing sound.fits)
  step-Balanced drains s new sound balance = omega (arith, balance, drain-same l s.broker s.closing)
  step-Balanced (releases_next well) s new sound balance = omega (
    arith,
    balance,
    release_next-same l well s.closing,
    sum-append (one l) (release_next well s.closing).1 s.released,
  )

  run-Balanced :
      (es : List Event) (s : State)
      → NeverRepeats mac es s
      → IsSound s
      → Balanced l s
      → Balanced l (run mac es s)
  unfolding run
  run-Balanced [] s new sound balance = balance
  run-Balanced (e ∷ es) s new sound balance =
      run-Balanced es (step mac e s) new.1 (step-IsSound mac e s sound)
        (step-Balanced e s new.0 sound balance)

  -- From a new broker, under every interleaving in which no capability repeats while it is active, the
  -- times that a lease was resolved are the times that it was released and those that a call, the
  -- broker or Close has it in hand: no lease is lost, and none is released that is not held.
  pub leases_accounted :
      (options : BrokerOptions) (b : Broker) (es : List Event)
      → new_resource_broker true options ≡ ok b
      → NeverRepeats mac es (fresh_state b)
      → Balanced l (run mac es (fresh_state b))
  unfolding in_hand sum kept remaining
  leases_accounted options b es h new =
      run-Balanced es (fresh_state b) new (fresh-IsSound options b h)
        (rw (new_resource_broker-IsUnused options b h).no_leases (omega arith))

  Fits-drained :
      (closing : Closing) (b : Broker) (failed : Bool)
      → closing ≡ draining [] failed
      → Fits closing b
      → (b.leases ≡ []) × ((b.active ≡ 0) × (remaining l closing ≡ 0))
  unfolding remaining sum
  Fits-drained not_called b failed h fits = absurd (ground (arith, h))
  Fits-drained waiting b failed h fits = absurd (ground (arith, h))
  Fits-drained (draining (lease ∷ rest) other) b failed h fits = absurd (ground (arith, h))
  Fits-drained (draining [] other) b failed h fits = (fits.1.0, (fits.1.1, refl))

  none_held : (calls : List Call) → length calls ≡ 0 → sum (held l) calls ≡ 0
  unfolding sum
  none_held [] h = refl
  none_held (call ∷ calls) h = absurd (omega (arith, h))

  all_released :
      (s : State) (failed : Bool)
      → s.closing ≡ draining [] failed
      → IsSound s
      → Balanced l s
      → count l s.resolved ≡ count l s.released
  unfolding in_hand kept sum
  all_released s failed h sound balance =
      let drained = Fits-drained s.closing s.broker failed h sound.fits in
      let nothing_kept : sum (λ e. one l (lease_of e)) s.broker.leases ≡ 0 =
        ap (sum (λ e. one l (lease_of e))) drained.0 in
      let nothing_held = none_held s.calls (sym sound.active_is ∙ drained.1.0) in
      omega (arith, balance, nothing_kept, nothing_held, drained.1.1)

  -- From a new broker, under every interleaving of Grant, Release and Close in which no capability
  -- repeats while it is active: once Close has released what remained, every lease has been released
  -- as often as it was resolved.
  pub close_releases_all :
      (options : BrokerOptions) (b : Broker) (es : List Event) (failed : Bool)
      → new_resource_broker true options ≡ ok b
      → NeverRepeats mac es (fresh_state b)
      → (run mac es (fresh_state b)).closing ≡ draining [] failed
      → count l (run mac es (fresh_state b)).resolved
        ≡ count l (run mac es (fresh_state b)).released
  close_releases_all options b es failed h new closed =
      all_released (run mac es (fresh_state b)) failed closed
        (run-IsSound mac es (fresh_state b) (fresh-IsSound options b h))
        (leases_accounted options b es h new)

-- From a new broker, under every interleaving of Grant, Release and Close, there are never more active
-- leases than MaxActiveGrants.
pub leases_bounded :
    (mac : List ℕ → List ℕ) (options : BrokerOptions) (b : Broker) (es : List Event)
    → new_resource_broker true options ≡ ok b
    → length (run mac es (fresh_state b)).broker.leases
      ≤ (run mac es (fresh_state b)).broker.max_active_grants
leases_bounded mac options b es h =
    let sound = run-IsSound mac es (fresh_state b) (fresh-IsSound options b h) in
    omega (arith, sound.bounded)
