-- ===== src/Subscription/Waking.antt =====
-- Which calls close the channel that a reader of backend/framework/subscription_buffer.go waits on.
use mathlib.Core.Path.{subst}
use bridra.Common.{
  All, ℕ, ◌^◌, ◌<◌, ◌≡◌, refl, sym, ◌⊎◌, inl, inr, true, false, Option, List, [], ◌∷◌, arith,
}
use bridra.Common.Texts.{Text}
use bridra.Subscription.Buffer.{
  Bytes, SubscriptionBuffer, Position, wait, round, close, is_closed, is_among,
}
use bridra.Subscription.History.{publish-cases}
use bridra.Subscription.Run.{Call, publish_call, close_call, IsServing, step, run, step-IsServing}

not-is_among : (n : ℕ) (cs : List ℕ) → All (λ c. c < n) cs → is_among n cs ≡ false
not-is_among n [] h = refl
not-is_among n (c ∷ cs) (first, rest) = ground (arith, first, not-is_among n cs rest)

module _ {T : Type 0} (encode : T → Option Bytes) where
  is_closed-step :
      (channel : ℕ) (call : Call T) (history : List Bytes) (b : SubscriptionBuffer)
      → b.sequence < 2 ^ 64
      → is_closed channel b ≡ true
      → is_closed channel (step encode (history, b) call).1 ≡ true
  unfolding step close
  is_closed-step channel (publish_call value) history b bound h =
      elim (publish-cases encode value b bound) [
        | inl (e, same) ↦ rw (step, same) h
        | inr done ↦
            let closes : is_among channel (b.changed ∷ b.closed_channels) ≡ true =
              ground (arith, h) in
            rw (step, done.outcome) closes
      ]
  is_closed-step channel close_call history b bound h = ground arith

  -- A call leaves a waiting reader's buffer as it is, or closes the channel that the reader waits on.
  step-wakes :
      (call : Call T) (history : List Bytes) (b : SubscriptionBuffer)
      → b.sequence < 2 ^ 64
      → b.closed ≡ false
      → (step encode (history, b) call ≡ (history, b))
        ⊎ (is_closed b.changed (step encode (history, b) call).1 ≡ true)
  unfolding step close
  step-wakes (publish_call value) history b bound opened =
      elim (publish-cases encode value b bound) [
        | inl (e, same) ↦ inl (rw (step, same) refl)
        | inr done ↦
            let closes : is_among b.changed (b.changed ∷ b.closed_channels) ≡ true = ground arith in
            inr (rw (step, done.outcome) closes)
      ]
  step-wakes close_call history b bound opened = inr (ground arith)

  run-is_closed :
      (epoch : Text) (capacity channel : ℕ) (calls : List (Call T)) (history : List Bytes)
      (b : SubscriptionBuffer)
      → IsServing epoch capacity history b
      → is_closed channel b ≡ true
      → is_closed channel (run encode (history, b) calls).1 ≡ true
  unfolding run
  run-is_closed epoch capacity channel [] history b s h = h
  run-is_closed epoch capacity channel (call ∷ calls) history b s h =
      run-is_closed epoch capacity channel calls (step encode (history, b) call).0
        (step encode (history, b) call).1 (step-IsServing encode epoch capacity call history b s)
        (is_closed-step channel call history b (omega (arith, s.retained.counted, s.retained.below))
          h)

  pub run-wakes :
      (epoch : Text) (capacity : ℕ) (calls : List (Call T)) (history : List Bytes)
      (b : SubscriptionBuffer)
      → IsServing epoch capacity history b
      → b.closed ≡ false
      → (run encode (history, b) calls ≡ (history, b))
        ⊎ (is_closed b.changed (run encode (history, b) calls).1 ≡ true)
  unfolding run
  run-wakes epoch capacity [] history b s opened = inl refl
  run-wakes epoch capacity (call ∷ calls) history b s opened =
      elim (step-wakes call history b (omega (arith, s.retained.counted, s.retained.below))
        opened) [
          | inl same ↦
              subst
                (λ state.
                  (run encode state calls ≡ (history, b))
                  ⊎ (is_closed b.changed (run encode state calls).1 ≡ true))
                (sym same) (run-wakes epoch capacity calls history b s opened)
          | inr closes ↦ inr (
              run-is_closed epoch capacity b.changed calls (step encode (history, b) call).0
                (step encode (history, b) call).1
                (step-IsServing encode epoch capacity call history b s) closes)
        ]

-- A round that waits has found the buffer open, and waits on its current channel.
pub round-wait :
    {T : Type 0} (decode : Bytes → Option T) (p : Position) (b : SubscriptionBuffer) (channel : ℕ)
    → round decode p b ≡ wait channel
    → (b.closed ≡ false) × (channel ≡ b.changed)
unfolding round
round-wait decode p b channel h = ground arith

-- The channel of a buffer that serves and is not closed is open.
pub serving-open :
    (epoch : Text) (capacity : ℕ) (history : List Bytes) (b : SubscriptionBuffer)
    → IsServing epoch capacity history b
    → b.closed ≡ false
    → is_closed b.changed b ≡ false
serving-open epoch capacity history b s opened = elim s.open_channel [
  | inl below ↦ not-is_among b.changed b.closed_channels below
  | inr closed ↦ absurd (ground (arith, opened, closed))
]
