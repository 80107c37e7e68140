-- ===== src/Subscription/Run.antt =====
-- Sequences of Publish and Close on a buffer of backend/framework/subscription_buffer.go.
use mathlib.Core.Path.{subst}
use bridra.Common.{
  if_cases, ◌+◌, All, ℕ, ◌*◌, ◌<◌, ◌≤◌, ◌≡◌, refl, sym, ap, ◌∙◌, ◌⊎◌, inl, inr, true, false, Option,
  some, List, [], ◌∷◌, Result, ok, arith, Option-cases, ℤ, pos, negsuc,
}
use bridra.Common.Decimal.{hex}
use bridra.Common.Texts.{Text}
use bridra.Subscription.Buffer.{
  Bytes, Error, SubscriptionBuffer, SubscriptionBufferOptions, publish, close,
  new_subscription_buffer, max_request_bytes, option_value,
}
use bridra.Subscription.Cursors.{IsColonFree, hex-IsColonFree}
use bridra.Subscription.History.{Retains, extended, publish-Retains, publish-cases}

pub data Call (T : Type 0) : Type 0 where
  publish_call : T → Call T
  close_call : Call T

-- A buffer that is not closed has closed only channels made before its current one.
abbrev pub HasOpenChannel : SubscriptionBuffer → Type 0
HasOpenChannel b = All (λ c. c < b.changed) b.closed_channels ⊎ (b.closed ≡ true)

All-below_suc : (n : ℕ) (cs : List ℕ) → All (λ c. c < n) cs → All (λ c. c < n + 1) cs
All-below_suc n [] h = tt
All-below_suc n (c ∷ cs) (first, rest) = (omega (arith, first), All-below_suc n cs rest)

-- What a sequence of calls keeps: the buffer retains the end of the history, under its epoch and
-- within its capacity.
pub record IsServing (epoch : Text) (capacity : ℕ) (history : List Bytes) (b : SubscriptionBuffer)
    : Type 0 where
  pub retained : Retains history b
  pub same_epoch : b.epoch ≡ epoch
  pub same_capacity : b.capacity ≡ capacity
  pub open_channel : HasOpenChannel b

module _ {T : Type 0} (encode : T → Option Bytes) where
  -- The history, and the buffer, after a call.
  unfoldable pub step : List Bytes × SubscriptionBuffer → Call T → List Bytes × SubscriptionBuffer
  step (history, b) (publish_call value) =
      (extended (publish encode value b).0 (encode value) history, (publish encode value b).1)
  step (history, b) close_call = (history, close b)

  unfoldable pub run :
      List Bytes × SubscriptionBuffer → List (Call T) → List Bytes × SubscriptionBuffer
  run state [] = state
  run state (call ∷ calls) = run (step state call) calls

  module _ (epoch : Text) (capacity : ℕ) where
    pub step-IsServing :
        (call : Call T) (history : List Bytes) (b : SubscriptionBuffer)
        → IsServing epoch capacity history b
        → IsServing epoch capacity (step (history, b) call).0 (step (history, b) call).1
    unfolding step close
    step-IsServing (publish_call value) history b s =
        elim (publish-cases encode value b (omega (arith, s.retained.counted, s.retained.below))) [
          | inl (e, same) ↦ rw (step, same) s
          | inr done ↦ record {
            retained = publish-Retains encode history value b s.retained;
            same_epoch = ap (λ o. o.1.epoch) done.outcome ∙ s.same_epoch;
            same_capacity = ap (λ o. o.1.capacity) done.outcome ∙ s.same_capacity;
            open_channel =
                subst (λ o. HasOpenChannel o.1) (sym done.outcome)
                  (elim s.open_channel [
                    | inl below ↦ inl (omega arith, All-below_suc b.changed b.closed_channels below)
                    | inr closed ↦ absurd (ground (arith, done.opened, closed))
                  ]);
          }
        ]
    step-IsServing close_call history b s =
        if_cases (IsServing epoch capacity history) b.closed (λ closed. s)
          λ opened. record {
            retained = record {
              dropped = s.retained.dropped;
              kept = s.retained.kept;
              divided = s.retained.divided;
              records_numbered = s.retained.records_numbered;
              counted = s.retained.counted;
              within = s.retained.within;
              full = s.retained.full;
              positive = s.retained.positive;
              below = s.retained.below;
            };
            same_epoch = s.same_epoch;
            same_capacity = s.same_capacity;
            open_channel = inr refl;
          }

    pub run-IsServing :
        (calls : List (Call T)) (history : List Bytes) (b : SubscriptionBuffer)
        → IsServing epoch capacity history b
        → IsServing epoch capacity (run (history, b) calls).0 (run (history, b) calls).1
    unfolding run
    run-IsServing [] history b s = s
    run-IsServing (call ∷ calls) history b s =
        run-IsServing calls (step (history, b) call).0 (step (history, b) call).1
          (step-IsServing call history b s)

abbrev initial : Bytes → ℕ → ℕ → SubscriptionBuffer
initial bytes capacity max_event_bytes = record {
  epoch = hex bytes;
  capacity = capacity;
  max_event_bytes = max_event_bytes;
  sequence = 0;
  records = [];
  changed = 0;
  closed_channels = [];
  closed = false;
}

initial-IsServing :
    (bytes : Bytes) (capacity max_event_bytes : ℕ)
    → 1 ≤ capacity
    → IsServing (hex bytes) capacity [] (initial bytes capacity max_event_bytes)
initial-IsServing bytes capacity max_event_bytes h = record {
  retained = record {
    dropped = [];
    kept = [];
    divided = refl;
    records_numbered = refl;
    counted = refl;
    within = omega arith;
    full = inl refl;
    positive = h;
    below = omega arith;
  };
  same_epoch = refl;
  same_capacity = refl;
  open_channel = inl tt;
}

option_value_positive :
    (chosen : ℤ) (standard limit n : ℕ) → option_value chosen standard limit ≡ some n → 1 ≤ n
option_value_positive (negsuc k) standard limit n h = absurd (ground (arith, h))
option_value_positive (pos k) standard limit n h = ground (arith, h)

ok-injective :
    (a b : SubscriptionBuffer) → ◌≡◌ {A = Result Error SubscriptionBuffer} (ok a) (ok b) → a ≡ b
ok-injective a b h = cc

-- A new buffer serves the empty history, and its epoch has no separator.
pub new_buffer-IsServing :
    (options : SubscriptionBufferOptions) (random : Option Bytes) (b : SubscriptionBuffer)
    → new_subscription_buffer options random ≡ ok b
    → IsServing b.epoch b.capacity [] b × IsColonFree b.epoch
unfolding new_subscription_buffer
new_buffer-IsServing options random b h =
    elim (Option-cases (option_value options.capacity 256 4096)) [
      | inl e ↦ absurd (ground (arith, rw (e, new_subscription_buffer) at h))
      | inr (c, e) ↦
          elim (Option-cases (option_value options.max_event_bytes (64 * 1024) max_request_bytes)) [
            | inl f ↦ absurd (ground (arith, rw (e, f, new_subscription_buffer) at h))
            | inr (m, f) ↦ elim (Option-cases random) [
              | inl g ↦ absurd (ground (arith, rw (e, f, g, new_subscription_buffer) at h))
              | inr (bytes, g) ↦
                  let fresh = initial bytes c m in
                  let same : fresh ≡ b =
                    ok-injective _ _ (rw (e, f, g, new_subscription_buffer) at h) in
                  subst (λ b. IsServing b.epoch b.capacity [] b × IsColonFree b.epoch) same
                    (
                      initial-IsServing bytes c m
                          (option_value_positive options.capacity 256 4096 c e),
                      hex-IsColonFree bytes,
                    )
            ]
          ]
    ]
