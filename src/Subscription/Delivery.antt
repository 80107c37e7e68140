-- ===== src/Subscription/Delivery.antt =====
-- What reaches a subscriber of backend/framework/subscription.go while values are published.
use mathlib.Core.Path.{subst}
use mathlib.Core.Option.{some-injective}
use bridra.Common.{
  ℕ, ◌+◌, ◌^◌, ◌<◌, ◌≡◌, refl, sym, ap, ◌∙◌, ◌⊎◌, inl, inr, Bool, true, false, not, Option, some,
  List, [], ◌∷◌, ◌++◌, if◌then◌else◌, Result, ok, err, length, get_elem?, All, arith, Option-cases,
  suc, zero,
}
use bridra.Common.Texts.{Text}
use bridra.Subscription.Buffer.{
  Bytes, Error, SubscriptionBuffer, SubscriptionItem, following, Round, return, wait, round, rounds,
  next, cursor_text,
}
use bridra.Subscription.Cursors.{IsColonFree, read-cursor_text}
use bridra.Subscription.Replay.{answer, round-following}
use bridra.Subscription.Run.{IsServing}
use bridra.Subscription.Produce.{
  Frame, heartbeat, data_frame, Turn, Failure, produce, is_end, is_timeout, is_bad_cursor,
}

get_elem?-grows :
    (h more : List Bytes) (n : ℕ) (v : Bytes)
    → get_elem? h n ≡ some v
    → get_elem? (h ++ more) n ≡ some v
get_elem?-grows [] more n v e = absurd (ground (arith, e))
get_elem?-grows (x ∷ h) more zero v e = e
get_elem?-grows (x ∷ h) more (suc n) v e = get_elem?-grows h more n v e

pub get_elem?_bound : (h : List Bytes) (n : ℕ) (v : Bytes) → get_elem? h n ≡ some v → n < length h
get_elem?_bound [] n v e = absurd (ground (arith, e))
get_elem?_bound (x ∷ h) zero v e = omega arith
get_elem?_bound (x ∷ h) (suc n) v e = omega (arith, get_elem?_bound h n v e)

-- A buffer as it was when the history was shorter.
pub record IsPast (epoch : Text) (capacity : ℕ) (whole : List Bytes) (b : SubscriptionBuffer)
    : Type 0 where
  pub history : List Bytes
  pub later : List Bytes
  pub grown : history ++ later ≡ whole
  pub serving : IsServing epoch capacity history b

module _ {T : Type 0} (decode : Bytes → Option T) where
  -- An event that the history gives at place `n`.
  pub record IsEventAt (epoch : Text) (history : List Bytes) (n : ℕ) (item : SubscriptionItem T)
      : Type 0 where
    pub bytes : Bytes
    pub placed : get_elem? history n ≡ some bytes
    pub decoded : decode bytes ≡ some item.value
    pub numbered_cursor : item.cursor ≡ cursor_text epoch (n + 1)

  pub Round-cases :
      (r : Round T)
      → ((a : Result Error (SubscriptionItem T)) × (r ≡ return a)) ⊎ ((c : ℕ) × (r ≡ wait c))
  Round-cases (return a) = inl (a, refl)
  Round-cases (wait c) = inr (c, refl)

  answer-IsEventAt :
      (history : List Bytes) (n : ℕ) (b : SubscriptionBuffer) (item : SubscriptionItem T)
      → answer decode history n b ≡ return (ok item)
      → IsEventAt b.epoch history n item
  unfolding answer
  answer-IsEventAt history n b item h = ground arith

  -- What the loop of Next returns is the event after its position.
  rounds-IsEventAt :
      (epoch : Text) (capacity : ℕ) (whole : List Bytes) (n : ℕ) (item : SubscriptionItem T)
      (seen : List (Bool × SubscriptionBuffer))
      → All (λ s. IsPast epoch capacity whole s.1) seen
      → rounds decode (following n) seen ≡ some (ok item)
      → IsEventAt epoch whole n item
  unfolding rounds
  rounds-IsEventAt epoch capacity whole n item [] past h = absurd (ground (arith, h))
  rounds-IsEventAt epoch capacity whole n item ((true, b) ∷ seen) past h =
      absurd (ground (arith, h))
  rounds-IsEventAt epoch capacity whole n item ((false, b) ∷ seen) past h =
      elim (Round-cases (round decode (following n) b)) [
        | inr (channel, e) ↦
            rounds-IsEventAt epoch capacity whole n item seen past.1 (rw (e, rounds) at h)
        | inl (result, e) ↦
            let answered : answer decode past.0.history n b ≡ return (ok item) =
              sym (round-following past.0.history b past.0.serving.retained decode n)
              ∙ e
              ∙ ap return (some-injective _ _ (rw (e, rounds) at h)) in
            let here = answer-IsEventAt past.0.history n b item answered in
            record {
              bytes = here.bytes;
              placed =
                  subst (λ l. get_elem? l n ≡ some here.bytes) past.0.grown
                    (get_elem?-grows past.0.history past.0.later n here.bytes here.placed);
              decoded = here.decoded;
              numbered_cursor =
                  here.numbered_cursor ∙ ap (λ t. cursor_text t (n + 1)) past.0.serving.same_epoch;
            }
      ]

  -- Frames that a subscriber who has seen the first `n` events may get: each data frame holds the
  -- event that follows, and a heartbeat repeats the last cursor.
  abbrev pub Follows : Text → List Bytes → ℕ → List (Frame T) → Type 0
  Follows epoch history n [] = Unit
  Follows epoch history n (heartbeat cursor ∷ frames) =
      (cursor ≡ cursor_text epoch n) × Follows epoch history n frames
  Follows epoch history n (data_frame cursor value ∷ frames) =
      IsEventAt epoch history n (record { cursor = cursor; value = value })
      × Follows epoch history (n + 1) frames

  module _ (epoch : Text) (free : IsColonFree epoch) (capacity : ℕ) (whole : List Bytes)
      (short : length whole < 2 ^ 64) where
    abbrev AllPast : List Turn → Type 0
    AllPast = All (λ turn. All (λ s. IsPast epoch capacity whole s.1) turn.seen)

    pub next-following :
        (n : ℕ) (seen : List (Bool × SubscriptionBuffer))
        → n < 2 ^ 64
        → next decode epoch (cursor_text epoch n) seen ≡ rounds decode (following n) seen
    unfolding next
    next-following n seen bound = rw (read-cursor_text epoch n free bound, next) refl

    next-IsEventAt :
        (n : ℕ) (seen : List (Bool × SubscriptionBuffer)) (item : SubscriptionItem T)
        → n < 2 ^ 64
        → All (λ s. IsPast epoch capacity whole s.1) seen
        → next decode epoch (cursor_text epoch n) seen ≡ some (ok item)
        → IsEventAt epoch whole n item
    next-IsEventAt n seen item bound past h =
        rounds-IsEventAt epoch capacity whole n item seen past
          (sym (next-following n seen bound) ∙ h)

    pub if-Follows :
        (n : ℕ) (b : Bool) (x y : List (Frame T) × Option (Result Failure (Unit {0})))
        → Follows epoch whole n x.0
        → Follows epoch whole n y.0
        → Follows epoch whole n (if b then x else y).0
    if-Follows n true x y h k = h
    if-Follows n false x y h k = k

    pub produce-Follows :
        (n : ℕ) (turns : List Turn)
        → n < 2 ^ 64
        → AllPast turns
        → Follows epoch whole n (produce decode epoch (cursor_text epoch n) turns).0
    unfolding produce
    produce-Follows n [] bound past = tt
    produce-Follows n (turn ∷ turns) bound past =
        elim (Option-cases (next decode epoch (cursor_text epoch n) turn.seen)) [
          | inl e ↦ rw (e, produce) tt
          | inr (err x, e) ↦
              rw (e, produce)
                (if-Follows n turn.stream_ended _ _ tt (
                  if-Follows n (is_end x) _ _ tt (
                    if-Follows n (not (is_timeout x turn.timed_out)) _ _ tt (
                      if-Follows n turn.sent _ _ (refl, produce-Follows n turns bound past.1) tt))))
          | inr (ok item, e) ↦
              let here = next-IsEventAt n turn.seen item bound past.0 e in
              let room : n + 1 < 2 ^ 64 =
                omega (arith, short, get_elem?_bound whole n here.bytes here.placed) in
              let rest =
                subst (λ c. Follows epoch whole (n + 1) (produce decode epoch c turns).0)
                  (sym here.numbered_cursor) (produce-Follows (n + 1) turns room past.1) in
              rw (e, produce)
                (if-Follows n turn.stream_ended _ _ tt (
                  if-Follows n (is_bad_cursor (cursor_text epoch n) item.cursor) _ _ tt
                    (if-Follows n turn.sent _ _ (here, rest) tt)))
        ]
