-- ===== src/Subscription/Draining.antt =====
-- A subscriber of backend/framework/subscription.go receives all that a closed buffer still holds.
use mathlib.Core.Path.{subst}
use mathlib.Core.Option.{some-injective}
use bridra.Common.{
  ℕ, zero, suc, ◌+◌, ◌^◌, ◌<◌, ◌≤◌, ◌≡◌, ◌≢◌, refl, sym, ap, ◌∙◌, inl, inr, true, false, Option,
  none, some, List, [], ◌∷◌, ltb, Result, ok, err, length, length-append, get_elem?, All, arith,
  Bool-cases,
}
use bridra.Common.Texts.{Text, same_text, same_text→eq}
use bridra.Common.Decimal.{format_uint, format_digits, length-format_digits}
use bridra.Subscription.Buffer.{
  Bytes, Error, Position, oldest, read_cursor, SubscriptionBuffer, SubscriptionBufferOptions,
  following, return, next, cursor_text, deliver, new_subscription_buffer, end_of_file, colon,
}
use bridra.Subscription.Cursors.{IsColonFree, read-cursor_text}
use bridra.Subscription.Replay.{answer}
use bridra.Subscription.Run.{Call, run, new_buffer-IsServing}
use bridra.Subscription.Produce.{Turn, Frame, Failure, produce, is_bad_cursor}
use bridra.Subscription.Delivery.{get_elem?_bound}
use bridra.Subscription.Promises.{next_answers, serving, returned}

-- A turn that reads the buffer once and sends.
abbrev pub undisturbed : SubscriptionBuffer → Turn
undisturbed b = record {
  seen = (false, b) ∷ [];
  timed_out = false;
  stream_ended = false;
  sent = true;
}

abbrev pub turns_at : ℕ → SubscriptionBuffer → List Turn
turns_at zero b = []
turns_at (suc k) b = undisturbed b ∷ turns_at k b

abbrev read_as : Position → Result Error Position
read_as p = ok p

length-cursor_text : (epoch : Text) (n : ℕ) → length (cursor_text epoch n) ≤ length epoch + 21
unfolding cursor_text format_uint
length-cursor_text epoch n =
    omega (arith, length-append epoch (colon ∷ format_digits 20 n), length-format_digits 20 n)

position_of : (m n : ℕ) → read_as (following m) ≡ read_as (following n) → m ≡ n
position_of m n h = cc

oldest-ne-following : (n : ℕ) → read_as oldest ≢ read_as (following n)
oldest-ne-following n h = cc

-- The buffer's next cursor differs from its last one and is neither empty nor too long.
next_cursor_good :
    (epoch : Text) (n : ℕ)
    → IsColonFree epoch
    → n + 1 < 2 ^ 64
    → length epoch ≤ 4000
    → is_bad_cursor (cursor_text epoch n) (cursor_text epoch (n + 1)) ≡ false
unfolding is_bad_cursor read_cursor
next_cursor_good epoch n free bound short =
    elim (Bool-cases (same_text (cursor_text epoch (n + 1)) (cursor_text epoch n))) [
      | inl e ↦
          let read_twice =
            sym (read-cursor_text epoch (n + 1) free bound)
            ∙ ap (read_cursor epoch)
                (same_text→eq (cursor_text epoch (n + 1)) (cursor_text epoch n) e)
            ∙ read-cursor_text epoch n free (omega (arith, bound)) in
          absurd (omega (arith, position_of (n + 1) n read_twice))
      | inr e ↦ elim (Bool-cases (same_text (cursor_text epoch (n + 1)) [])) [
        | inl f ↦
            let read_empty =
              sym (read-cursor_text epoch (n + 1) free bound)
              ∙ ap (read_cursor epoch) (same_text→eq (cursor_text epoch (n + 1)) [] f) in
            absurd (oldest-ne-following (n + 1) (sym read_empty))
        | inr f ↦ ground (arith, e, f, length-cursor_text epoch (n + 1), short)
      ]
    ]

get_elem?_end : (history : List Bytes) → get_elem? history (length history) ≡ none
get_elem?_end [] = refl
get_elem?_end (v ∷ history) = get_elem?_end history

module _ {T : Type 0} (decode : Bytes → Option T) (history : List Bytes)
    (b : SubscriptionBuffer) where
  answer_delivers :
      (n : ℕ) (v : Bytes) (x : T)
      → length history ≤ n + b.capacity
      → get_elem? history n ≡ some v
      → decode v ≡ some x
      → answer decode history n b
        ≡ return (ok (record { cursor = cursor_text b.epoch (n + 1); value = x }))
  unfolding answer
  answer_delivers n v x reach e f =
      let low : ltb (length history) n ≡ false = ground (arith, get_elem?_bound history n v e) in
      let far : ltb (n + b.capacity) (length history) ≡ false = ground (arith, reach) in
      rw (low, far, e, answer) (rw (f, deliver) refl)

  answer_ends :
      b.closed ≡ true → answer decode history (length history) b ≡ return (err end_of_file)
  unfolding answer
  answer_ends closed =
      let low : ltb (length history) (length history) ≡ false = ground arith in
      let far : ltb (length history + b.capacity) (length history) ≡ false = ground arith in
      rw (low, far, get_elem?_end history, answer) (simp closed)

get_elem?_within :
    (history : List Bytes) (n : ℕ)
    → n < length history
    → (v : Bytes) × (get_elem? history n ≡ some v)
get_elem?_within [] n h = absurd (omega (arith, h))
get_elem?_within (v ∷ history) zero h = (v, refl)
get_elem?_within (v ∷ history) (suc n) h = get_elem?_within history n (omega (arith, h))

All-get_elem? :
    (P : Bytes → Type 0) (history : List Bytes) (n : ℕ) (v : Bytes)
    → All P history
    → get_elem? history n ≡ some v
    → P v
All-get_elem? P [] n v h e = absurd (ground (arith, e))
All-get_elem? P (x ∷ history) zero v h e = subst P (some-injective _ _ e) h.0
All-get_elem? P (x ∷ history) (suc n) v h e = All-get_elem? P history n v h.1 e

module _ {T : Type 0} (encode : T → Option Bytes) (decode : Bytes → Option T)
    (options : SubscriptionBufferOptions) (random : Option Bytes) (fresh : SubscriptionBuffer)
    (made : new_subscription_buffer options random ≡ ok fresh) (calls : List (Call T)) where
  abbrev history : List Bytes
  history = (run encode ([], fresh) calls).0

  abbrev buffer : SubscriptionBuffer
  buffer = (run encode ([], fresh) calls).1

  -- ProduceSubscription from a cursor over the buffer as the calls left it.
  abbrev pub drained : ℕ → ℕ → List (Frame T) × Option (Result Failure (Unit {0}))
  drained n turns = produce decode fresh.epoch (cursor_text fresh.epoch n) (turns_at turns buffer)

  module _ (closed : buffer.closed ≡ true) (short : length fresh.epoch ≤ 4000)
      (decodable : All (λ v. (x : T) × (decode v ≡ some x)) history) where
    next_at_end :
        next decode fresh.epoch (cursor_text fresh.epoch (length history)) ((false, buffer) ∷ [])
        ≡ some (err end_of_file)
    next_at_end =
        next_answers encode decode options random fresh made calls (length history)
          (serving encode decode options random fresh made calls calls).retained.below
        ∙ ap returned (answer_ends decode history buffer closed)

    next_within :
        (n : ℕ)
        → n < length history
        → length history ≤ n + fresh.capacity
        → (x : T) × (next decode fresh.epoch (cursor_text fresh.epoch n) ((false, buffer) ∷ [])
            ≡ some (ok (record { cursor = cursor_text fresh.epoch (n + 1); value = x })))
    next_within n inside reach =
        let s = serving encode decode options random fresh made calls calls in
        let (v, e) = get_elem?_within history n inside in
        let (x, f) = All-get_elem? (λ v. (x : T) × (decode v ≡ some x)) history n v decodable e in
        (
          x,
          next_answers encode decode options random fresh made calls n
                (omega (arith, inside, s.retained.below))
              ∙ ap returned (
                  answer_delivers decode history buffer n v x
                    (omega (arith, reach, s.same_capacity)) e f
                  ∙ ap (λ t. return (ok (record { cursor = cursor_text t (n + 1); value = x })))
                      s.same_epoch),
        )

    -- From a cursor `left` values behind the end of a closed buffer's history, which the buffer still
    -- reaches, ProduceSubscription sends `left` frames in as many turns and ends without an error in
    -- the turn after them, where every stored value can be decoded and every send succeeds.
    pub produce_drains :
        (left n : ℕ)
        → n + left ≡ length history
        → length history ≤ n + fresh.capacity
        → ((drained n (suc left)).1 ≡ some (ok tt)) × (length (drained n (suc left)).0 ≡ left)
    unfolding produce
    produce_drains zero n total reach =
        let at_end : length history ≡ n = omega (arith, total) in
        let e =
          subst
            (λ k.
              next decode fresh.epoch (cursor_text fresh.epoch k) ((false, buffer) ∷ [])
              ≡ some (err end_of_file))
            at_end next_at_end in
        rw (e, produce) (refl, refl)
    produce_drains (suc left) n total reach =
        let (x, e) = next_within n (omega (arith, total)) reach in
        let below = (serving encode decode options random fresh made calls calls).retained.below in
        let good =
          next_cursor_good fresh.epoch n (new_buffer-IsServing options random fresh made).1
            (omega (arith, total, below)) short in
        let rest = produce_drains left (n + 1) (omega (arith, total)) (omega (arith, reach)) in
        rw (e, produce, good) (rest.0, ap suc rest.1)
