-- ===== src/Subscription/Examples.antt =====
-- A buffer of backend/framework/subscription_buffer.go that holds two values, with three published.
use bridra.Common.{
  false, ℕ, ◌^◌, ◌<◌, ◌≡◌, ◌↔◌, refl, ◌⊎◌, true, false, Option, none, some, List, [], ◌∷◌, ok, pos,
  arith, length,
}
use bridra.Common.Decimal.{hex, hex_digit}
use bridra.Subscription.Buffer.{
  Bytes, SubscriptionBuffer, SubscriptionBufferOptions, following, round, next, publish,
  cursor_text, read_cursor, is_closed, new_subscription_buffer, refusal, find_after, close,
}
use bridra.Subscription.Replay.{answer}
use bridra.Subscription.Run.{Call, publish_call, close_call, step, run}
use bridra.Subscription.Produce.{SubscriptionOptions, Turn, produce, produce_subscription}
use bridra.Subscription.Delivery.{Follows}
use bridra.Subscription.Draining.{drained, turns_at, produce_drains}
use bridra.Subscription.Promises.{
  read_cursor_iff, next_answers, produce_subscription_contiguous, waiting_reader_wakes,
}

abbrev encode : ℕ → Option Bytes
encode v = some (v ∷ [])

abbrev decode : Bytes → Option ℕ
decode (v ∷ []) = some v
decode _ = none

abbrev options : SubscriptionBufferOptions
options = record { capacity = pos 2; max_event_bytes = pos 16 }

abbrev fresh : SubscriptionBuffer
fresh = record {
  epoch = 48 ∷ 55 ∷ 102 ∷ 102 ∷ [];
  capacity = 2;
  max_event_bytes = 16;
  sequence = 0;
  records = [];
  changed = 0;
  closed_channels = [];
  closed = false;
}

made : new_subscription_buffer options (some (7 ∷ 255 ∷ [])) ≡ ok fresh
unfolding new_subscription_buffer hex hex_digit
made = refl

abbrev three : List (Call ℕ)
three = publish_call 10 ∷ publish_call 20 ∷ publish_call 30 ∷ []

abbrev buffer : SubscriptionBuffer
buffer = (run encode ([], fresh) three).1

abbrev shown : List Bytes
shown = (10 ∷ []) ∷ (20 ∷ []) ∷ (30 ∷ []) ∷ []

read_cursor_iff_example :
    (read_cursor fresh.epoch (cursor_text fresh.epoch 42) ≡ ok (following 42))
    ↔ ((cursor_text fresh.epoch 42 ≡ cursor_text fresh.epoch 42) × (42 < 2 ^ 64))
read_cursor_iff_example =
    read_cursor_iff fresh.epoch (cursor_text fresh.epoch 42) 42 (refl, (refl, (refl, (refl, tt))))

-- The second value is delivered under the cursor of 2.
next_answers_example :
    next decode fresh.epoch (cursor_text fresh.epoch 1) ((false, buffer) ∷ [])
    ≡ some (ok (record { cursor = cursor_text fresh.epoch 2; value = 20 }))
unfolding run step publish answer
next_answers_example =
    next_answers encode decode options (some (7 ∷ 255 ∷ [])) fresh made three 1 (omega arith)

abbrev turn_at : SubscriptionBuffer → Turn
turn_at b = record { seen = (false, b) ∷ []; timed_out = false; stream_ended = false; sent = true }

abbrev earlier : SubscriptionBuffer
earlier = (run encode ([], fresh) (publish_call 10 ∷ publish_call 20 ∷ [])).1

abbrev request : SubscriptionOptions
request = record { after_cursor = cursor_text fresh.epoch 1; heartbeat_interval = pos 0 }

produce_subscription_contiguous_example :
    Follows decode fresh.epoch shown 1
      (produce_subscription decode fresh.epoch request (turn_at earlier ∷ turn_at buffer ∷ [])).0
unfolding run step publish
produce_subscription_contiguous_example =
    produce_subscription_contiguous encode decode options (some (7 ∷ 255 ∷ [])) fresh made three 1
      request (turn_at earlier ∷ turn_at buffer ∷ []) (omega arith) refl
      (
        ((publish_call 10 ∷ publish_call 20 ∷ [], publish_call 30 ∷ [], refl, refl), tt),
        (((three, [], refl, refl), tt), tt),
      )

waiting_reader_wakes_example :
    (is_closed 3 (run encode ([], fresh) three).1 ≡ false)
    × ((run encode (run encode ([], fresh) three) (close_call ∷ []) ≡ run encode ([], fresh) three)
        ⊎ (is_closed 3 (run encode (run encode ([], fresh) three) (close_call ∷ [])).1 ≡ true))
unfolding run step publish round refusal find_after
waiting_reader_wakes_example =
    waiting_reader_wakes encode decode options (some (7 ∷ 255 ∷ [])) fresh made three (following 3)
      3 (close_call ∷ []) refl

abbrev finished : List (Call ℕ)
finished = publish_call 10 ∷ publish_call 20 ∷ publish_call 30 ∷ close_call ∷ []

-- From the cursor of 1, the two values that remain are sent in two turns.
produce_drains_example :
    ((produce decode fresh.epoch
        (cursor_text fresh.epoch 1)
        (turns_at 3 (run encode ([], fresh) finished).1)).1
      ≡ some (ok tt))
    × (length (drained encode decode options (some (7 ∷ 255 ∷ [])) fresh made finished 1 3).0 ≡ 2)
unfolding run step publish close
produce_drains_example =
    produce_drains encode decode options (some (7 ∷ 255 ∷ [])) fresh made finished refl
      (omega arith) ((10, refl), ((20, refl), ((30, refl), tt))) 2 1 refl (omega arith)
