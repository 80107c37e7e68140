-- ===== src/ResourceBroker/Soundness.antt =====
-- The counts of a ResourceBroker and its limit, under every interleaving of its calls,
-- backend/framework/resource_broker.go.
use bridra.Common.{
  ℕ, ◌+◌, ◌≤◌, ◌≡◌, ◌∙◌, subst, Bool, false, List, [], ◌∷◌, ◌++◌, leb, ltb, arith, inl, inr, ok,
  past, ok-injective, length, Result-cases,
}
use bridra.Common.Texts.{Text}
use bridra.Common.Sums.{sum}
use bridra.ResourceBroker.Broker.{Scope, Broker, start_grant, begin_grant, start_release}
use bridra.ResourceBroker.Keeping.{
  granting, unstored, Fits, IsSound, move_at-Keeps, Takes, Taken-cases, start_release-Takes,
  length-remove_lease,
}
use bridra.ResourceBroker.Calls.{
  Call, resolving, holding, storing, dropping, finishing, releasing, Answer, move_at, Closing,
  not_called, waiting, draining, State, Event, grants, releases, moves, closes, drains,
  releases_next, drain, release_next, start_close, step, run,
}

module _ (mac : List ℕ → List ℕ) where
  move_at-Fits :
      (n : ℕ) (answer : Answer) (closing : Closing) (b : Broker) (calls : List Call)
      → b.active ≡ length calls
      → (move_at mac n answer b calls).broker.closed ≡ b.closed
      → Fits closing b
      → Fits closing (move_at mac n answer b calls).broker
  unfolding move_at
  move_at-Fits n answer not_called b calls h same fits = same ∙ fits
  move_at-Fits n answer waiting b calls h same fits = same ∙ fits
  move_at-Fits n answer (draining leases failed) b [] h same fits = fits
  move_at-Fits n answer (draining leases failed) b (call ∷ calls) h same fits =
      absurd (omega (arith, h, fits.1.1))

  move_at-IsSound :
      (n : ℕ) (answer : Answer) (s : State) → IsSound s → IsSound (step mac (moves n answer) s)
  unfolding step
  move_at-IsSound n answer s sound =
      let m = move_at mac n answer s.broker s.calls in
      let kept =
        move_at-Keeps mac n answer s.broker s.calls (omega (arith, sound.pending_is))
          (omega (arith, sound.active_is)) in
      record {
        pending_is = omega (arith, kept.same_pending, sound.pending_is);
        active_is = omega (arith, kept.same_active, sound.active_is);
        bounded = omega (arith, kept.no_more, kept.same_max, sound.bounded);
        fits =
            move_at-Fits n answer s.closing s.broker s.calls sound.active_is kept.same_closed
              sound.fits;
      }

  unstored-granting : (calls : List Call) → sum unstored calls ≤ sum granting calls
  unfolding sum unstored granting
  unstored-granting [] = omega arith
  unstored-granting (resolving ∷ calls) = omega (arith, unstored-granting calls)
  unstored-granting (holding lease n path ∷ calls) = omega (arith, unstored-granting calls)
  unstored-granting (storing lease path c ∷ calls) = omega (arith, unstored-granting calls)
  unstored-granting (dropping lease e ∷ calls) = omega (arith, unstored-granting calls)
  unstored-granting (finishing r ∷ calls) = omega (arith, unstored-granting calls)
  unstored-granting (releasing lease ∷ calls) = omega (arith, unstored-granting calls)

  -- An open broker, with Close not called.
  Fits-open :
      (closing : Closing) (b b' : Broker)
      → b.closed ≡ false
      → b'.closed ≡ false
      → Fits closing b
      → Fits closing b'
  Fits-open not_called b b' h k fits = k
  Fits-open waiting b b' h k fits = absurd (ground (arith, h, fits))
  Fits-open (draining leases failed) b b' h k fits = absurd (ground (arith, h, fits.0))

  begin_grant-IsSound :
      (s : State) (b : Broker)
      → begin_grant s.broker ≡ ok b
      → IsSound s
      → IsSound (record s { broker = b; calls = resolving ∷ s.calls })
  unfolding begin_grant sum granting unstored
  begin_grant-IsSound s b h sound =
      let open_still = past s.broker.closed _ _ b h in
      let room =
        past (leb s.broker.max_active_grants (length s.broker.leases + s.broker.pending)) _ _ b
          open_still.1 in
      let below : length s.broker.leases + s.broker.pending + 1 ≤ s.broker.max_active_grants =
        ground (arith, room.0) in
      subst (λ b. IsSound (record s { broker = b; calls = resolving ∷ s.calls }))
        (ok-injective _ b room.1)
        (record {
          pending_is = omega (arith, sound.pending_is);
          active_is = omega (arith, sound.active_is);
          bounded = omega (arith, below, unstored-granting s.calls, sound.pending_is);
          fits = Fits-open s.closing s.broker _ open_still.0 open_still.0 sound.fits;
        })

  start_grant-IsSound :
      (bookmark : ℕ) (scope : Scope) (s : State)
      → IsSound s
      → IsSound (step mac (grants bookmark scope) s)
  unfolding step start_grant
  start_grant-IsSound bookmark scope s sound =
      elim (Result-cases (start_grant bookmark scope s.broker)) [
        | inr (e, h) ↦ rw (h, step) sound
        | inl (b, h) ↦
            let filled = past _ _ _ b h in
            let fits = past (ltb s.broker.max_bookmark_bytes bookmark) _ _ b filled.1 in
            rw (h, step) (begin_grant-IsSound s b fits.1 sound)
      ]

  started_release-IsSound :
      (capability : Text) (s : State) (lease : ℕ) (b : Broker)
      → Takes capability s.broker lease b
      → IsSound s
      → IsSound (record s { broker = b; calls = releasing lease ∷ s.calls })
  unfolding sum granting unstored
  started_release-IsSound capability s lease b takes sound =
      subst (λ b. IsSound (record s { broker = b; calls = releasing lease ∷ s.calls })) takes.after
        (record {
          pending_is = omega (arith, sound.pending_is);
          active_is = omega (arith, sound.active_is);
          bounded = omega (arith, sound.bounded, length-remove_lease capability s.broker.leases);
          fits = Fits-open s.closing s.broker _ takes.still_open takes.still_open sound.fits;
        })

  start_release-IsSound :
      (capability : Text) (s : State) → IsSound s → IsSound (step mac (releases capability) s)
  unfolding step
  start_release-IsSound capability s sound =
      elim (Taken-cases (start_release mac capability s.broker)) [
        | inl (e, h) ↦ rw (h, step) sound
        | inr (lease, (b, h)) ↦
            rw (h, step)
              (started_release-IsSound capability s lease b
                (start_release-Takes mac capability s.broker b lease h) sound)
      ]

  -- The state with a broker and Close as they are left.
  abbrev with_closing : State → Broker × Closing → State
  with_closing s left = record s { broker = left.0; closing = left.1 }

  closes-IsSound : (s : State) → IsSound s → IsSound (step mac closes s)
  unfolding step start_close
  closes-IsSound s sound = ground arith

  drain-IsSound :
      (s : State) (closing : Closing)
      → IsSound (record s { closing = closing })
      → IsSound (with_closing s (drain s.broker closing))
  unfolding drain
  drain-IsSound s not_called sound = sound
  drain-IsSound s (draining leases failed) sound = sound
  drain-IsSound s waiting sound = ground arith

  relabel-IsSound :
      (s : State) (closing : Closing) (gone : List ℕ)
      → Fits closing s.broker
      → IsSound s
      → IsSound (record s { closing = closing; released = gone ++ s.released })
  relabel-IsSound s closing gone fits sound = record {
    pending_is = sound.pending_is;
    active_is = sound.active_is;
    bounded = sound.bounded;
    fits = fits;
  }

  release_next-Fits :
      (well : Bool) (closing : Closing) (b : Broker)
      → Fits closing b
      → Fits (release_next well closing).0 b
  unfolding release_next
  release_next-Fits well not_called b fits = fits
  release_next-Fits well waiting b fits = fits
  release_next-Fits well (draining [] failed) b fits = fits
  release_next-Fits well (draining (lease ∷ rest) failed) b fits = fits

  pub step-IsSound : (e : Event) (s : State) → IsSound s → IsSound (step mac e s)
  unfolding step
  step-IsSound (grants bookmark scope) s sound = start_grant-IsSound bookmark scope s sound
  step-IsSound (releases capability) s sound = start_release-IsSound capability s sound
  step-IsSound (moves n answer) s sound = move_at-IsSound n answer s sound
  step-IsSound closes s sound = closes-IsSound s sound
  step-IsSound drains s sound = drain-IsSound s s.closing sound
  step-IsSound (releases_next well) s sound =
      relabel-IsSound s (release_next well s.closing).0 (release_next well s.closing).1
        (release_next-Fits well s.closing s.broker sound.fits) sound

  -- Under every interleaving of Grant, Release and Close: the counts of grants and of calls are right,
  -- the active leases together with those that grants may still store are no more than the limit, the
  -- broker is closed where Close has been called, and no lease and no call is left once Close has
  -- waited.
  pub run-IsSound : (es : List Event) (s : State) → IsSound s → IsSound (run mac es s)
  unfolding run
  run-IsSound [] s sound = sound
  run-IsSound (e ∷ es) s sound = run-IsSound es (step mac e s) (step-IsSound e s sound)
