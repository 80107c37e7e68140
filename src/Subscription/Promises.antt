-- ===== src/Subscription/Promises.antt =====
-- What backend/framework/subscription_buffer.go and subscription.go promise to a subscriber, whatever
-- is published meanwhile.
use mathlib.Core.Path.{subst}
use mathlib.Core.List.{append_assoc, append-nil}
use bridra.Common.{
  ℕ, ◌^◌, ◌<◌, ◌≡◌, ◌↔◌, refl, sym, ap, ◌∙◌, ◌⊎◌, inl, inr, true, false, Option, none, some, List,
  [], ◌∷◌, ◌++◌, ltb, Result, ok, err, length, All,
}
use bridra.Common.Texts.{Text}
use bridra.Subscription.Buffer.{
  Bytes, Error, SubscriptionBuffer, SubscriptionBufferOptions, SubscriptionItem, Position,
  following, Round, return, wait, round, rounds, next, cursor_text, read_cursor, is_closed,
  new_subscription_buffer,
}
use bridra.Subscription.Cursors.{IsColonFree, read-cursor_text, read_cursor_sound}
use bridra.Subscription.History.{extended}
use bridra.Subscription.Replay.{answer, round-following}
use bridra.Subscription.Run.{
  Call, publish_call, close_call, step, run, IsServing, run-IsServing, new_buffer-IsServing,
}
use bridra.Subscription.Waking.{run-wakes, round-wait, serving-open}
use bridra.Subscription.Produce.{
  SubscriptionOptions, Turn, produce, produce_subscription, max_cursor_bytes, is_negative,
}
use bridra.Subscription.Delivery.{
  IsPast, Follows, produce-Follows, if-Follows, next-following, Round-cases,
}
use bridra.Common.Entries.{All-map}

-- A text is read as the position after `n` just where it is the text that the buffer writes for the
-- number `n` of 64 bits, for an epoch without a separator.
pub read_cursor_iff :
    (epoch text : Text) (n : ℕ)
    → IsColonFree epoch
    → (read_cursor epoch text ≡ ok (following n)) ↔ ((text ≡ cursor_text epoch n) × (n < 2 ^ 64))
read_cursor_iff epoch text n free = (
  read_cursor_sound epoch text n,
  λ h. ap (read_cursor epoch) h.0 ∙ read-cursor_text epoch n free h.1,
)

-- What Next has returned after one round, if it has.
abbrev pub returned : {T : Type 0} → Round T → Option (Result Error (SubscriptionItem T))
returned (return a) = some a
returned (wait channel) = none

module _ {T : Type 0} (encode : T → Option Bytes) where
  run-append :
      (state : List Bytes × SubscriptionBuffer) (before after : List (Call T))
      → run encode state (before ++ after) ≡ run encode (run encode state before) after
  unfolding run
  run-append state [] after = refl
  run-append state (call ∷ before) after = run-append (step encode state call) before after

  extended-grows :
      (r : Result Error Text) (v : Option Bytes) (history : List Bytes)
      → (more : List Bytes) × (history ++ more ≡ extended r v history)
  extended-grows (ok c) (some v) history = (v ∷ [], refl)
  extended-grows (ok c) none history = ([], append-nil history)
  extended-grows (err e) v history = ([], append-nil history)

  step-grows :
      (call : Call T) (history : List Bytes) (b : SubscriptionBuffer)
      → (more : List Bytes) × (history ++ more ≡ (step encode (history, b) call).0)
  unfolding step
  step-grows (publish_call value) history b = extended-grows _ _ history
  step-grows close_call history b = ([], append-nil history)

  run-grows :
      (calls : List (Call T)) (history : List Bytes) (b : SubscriptionBuffer)
      → (more : List Bytes) × (history ++ more ≡ (run encode (history, b) calls).0)
  unfolding run
  run-grows [] history b = ([], append-nil history)
  run-grows (call ∷ calls) history b =
      let (first, e) = step-grows call history b in
      let (rest, f) =
        run-grows calls (step encode (history, b) call).0 (step encode (history, b) call).1 in
      (first ++ rest, sym (append_assoc history first rest) ∙ ap (λ l. l ++ rest) e ∙ f)

module _ {T : Type 0} (encode : T → Option Bytes) (decode : Bytes → Option T)
    (options : SubscriptionBufferOptions) (random : Option Bytes) (fresh : SubscriptionBuffer)
    (made : new_subscription_buffer options random ≡ ok fresh) (calls : List (Call T)) where
  abbrev pub state : List Bytes × SubscriptionBuffer
  state = run encode ([], fresh) calls

  pub serving :
      (some_calls : List (Call T))
      → IsServing fresh.epoch fresh.capacity
          (run encode ([], fresh) some_calls).0
          (run encode ([], fresh) some_calls).1
  serving some_calls =
      run-IsServing encode fresh.epoch fresh.capacity some_calls [] fresh
        (new_buffer-IsServing options random fresh made).0

  rounds_once :
      (p : Position) (b : SubscriptionBuffer)
      → rounds decode p ((false, b) ∷ []) ≡ returned (round decode p b)
  unfolding rounds
  rounds_once p b = elim (Round-cases decode (round decode p b)) [
    | inl (a, e) ↦ rw (e, rounds) refl
    | inr (c, e) ↦ rw (e, rounds) refl
  ]

  -- After any calls of Publish and Close on a new buffer, Next with the cursor of any number below
  -- 2 ^ 64 answers in one round what the history of successful Publish calls gives at that place: the
  -- next value with the next cursor, an error for a cursor ahead of the history or out of reach of
  -- the capacity, the end of a closed buffer, or a wait.
  pub next_answers :
      (n : ℕ)
      → n < 2 ^ 64
      → next decode fresh.epoch (cursor_text fresh.epoch n) ((false, state.1) ∷ [])
        ≡ returned (answer decode state.0 n state.1)
  next_answers n bound =
      let s = serving calls in
      next-following decode fresh.epoch (new_buffer-IsServing options random fresh made).1
        fresh.capacity state.0 s.retained.below n ((false, state.1) ∷ []) bound
      ∙ rounds_once (following n) state.1
      ∙ ap returned (round-following state.0 state.1 s.retained decode n)

  -- The buffer is as it was after some first part of the calls.
  abbrev pub IsStateOf : SubscriptionBuffer → Type 0
  IsStateOf b =
      (before : List (Call T)) × (after : List (Call T)) × (before ++ after ≡ calls)
      × ((run encode ([], fresh) before).1 ≡ b)

  IsStateOf-IsPast :
      (b : SubscriptionBuffer) → IsStateOf b → IsPast fresh.epoch fresh.capacity state.0 b
  IsStateOf-IsPast b (before, after, whole, e) =
      let first = run encode ([], fresh) before in
      let (more, f) = run-grows encode after first.0 first.1 in
      record {
        history = first.0;
        later = more;
        grown =
            f
            ∙ ap (λ s. s.0) (sym (run-append encode ([], fresh) before after))
            ∙ ap (λ l. (run encode ([], fresh) l).0) whole;
        serving = subst (IsServing fresh.epoch fresh.capacity first.0) e (serving before);
      }

  -- While values are published into a new buffer, ProduceSubscription resumed with the cursor of `n`
  -- sends the values of the history from place `n` on, each once and in order with its cursor, and
  -- heartbeats that repeat the last cursor: whatever states of the buffer its reads meet, and however
  -- its turns end.
  pub produce_subscription_contiguous :
      (n : ℕ) (request : SubscriptionOptions) (turns : List Turn)
      → n < 2 ^ 64
      → request.after_cursor ≡ cursor_text fresh.epoch n
      → All (λ turn. All (λ s. IsStateOf s.1) turn.seen) turns
      → Follows decode fresh.epoch state.0 n
          (produce_subscription decode fresh.epoch request turns).0
  unfolding produce_subscription
  produce_subscription_contiguous n request turns bound resumed seen =
      let free = (new_buffer-IsServing options random fresh made).1 in
      let short = (serving calls).retained.below in
      let past =
        All-map (λ turn states. All-map (λ s h. IsStateOf-IsPast s.1 h) turn.seen states) turns
          seen in
      let sent =
        subst (λ c. Follows decode fresh.epoch state.0 n (produce decode fresh.epoch c turns).0)
          (sym resumed)
          (produce-Follows decode fresh.epoch free fresh.capacity state.0 short n turns bound
            past) in
      let keeps = if-Follows decode fresh.epoch free fresh.capacity state.0 short n in
      keeps (is_negative request.heartbeat_interval) _ _ tt
        (keeps (ltb max_cursor_bytes (length request.after_cursor)) _ _ tt sent)

  -- A reader that waits after a round on the buffer waits on a channel that is open, and is not left
  -- behind: after any further calls the buffer is as the reader saw it, or that channel is closed.
  pub waiting_reader_wakes :
      (p : Position) (channel : ℕ) (later : List (Call T))
      → round decode p state.1 ≡ wait channel
      → (is_closed channel state.1 ≡ false)
        × ((run encode state later ≡ state) ⊎ (is_closed channel (run encode state later).1 ≡ true))
  waiting_reader_wakes p channel later h =
      let found = round-wait decode p state.1 channel h in
      subst
        (λ c.
          (is_closed c state.1 ≡ false)
          × ((run encode state later ≡ state) ⊎ (is_closed c (run encode state later).1 ≡ true)))
        (sym found.1)
        (
          serving-open fresh.epoch fresh.capacity state.0 state.1 (serving calls) found.0,
          run-wakes encode fresh.epoch fresh.capacity later state.0 state.1 (serving calls) found.0,
        )
