-- ===== src/Subscription/Produce.antt =====
-- ProduceSubscription of backend/framework/subscription.go, over a SubscriptionBuffer as its source.
use bridra.Common.{
  ℕ, ℤ, pos, negsuc, Bool, true, false, not, ◌||◌, Option, none, some, List, [], ◌∷◌, ltb,
  if◌then◌else◌, length, Result, ok, err,
}
use bridra.Common.Texts.{Text, same_text}
use bridra.Subscription.Buffer.{Bytes, Error, SubscriptionBuffer, context_done, end_of_file, next}

-- SubscriptionOptions
pub record SubscriptionOptions : Type 0 where
  pub after_cursor : Text
  pub heartbeat_interval : ℤ

pub data Frame (T : Type 0) : Type 0 where
  heartbeat : Text → Frame T
  data_frame : Text → T → Frame T

pub data Failure : Type 0 where
  invalid_subscription cursor_too_long cursor_not_advanced : Failure
  stream_done send_failed : Failure
  source_failed : Error → Failure

-- What one turn of the loop meets: what the read finds in its rounds, whether its own timeout ran
-- out, whether the stream's context is done after it, and whether a frame could be sent.
pub record Turn : Type 0 where
  pub seen : List (Bool × SubscriptionBuffer)
  pub timed_out : Bool
  pub stream_ended : Bool
  pub sent : Bool

abbrev pub max_cursor_bytes : ℕ
max_cursor_bytes = 4096

-- errors.Is(err, io.EOF)
abbrev pub is_end : Error → Bool
is_end end_of_file = true
is_end _ = false

-- errors.Is(err, context.DeadlineExceeded) && timedOut
abbrev pub is_timeout : Error → Bool → Bool
is_timeout context_done timed_out = timed_out
is_timeout _ timed_out = false

-- item.Cursor == "" || item.Cursor == cursor || len(item.Cursor) > 4096
unfoldable pub is_bad_cursor : Text → Text → Bool
unfolding same_text
is_bad_cursor cursor new =
    same_text new [] || same_text new cursor || ltb max_cursor_bytes (length new)

abbrev pub is_negative : ℤ → Bool
is_negative (pos n) = false
is_negative (negsuc n) = true

module _ {T : Type 0} (decode : Bytes → Option T) (epoch : Text) where
  -- The frames that the loop sends in a sequence of turns, and how it ends; it has not ended where
  -- the turns run out or a read still waits.
  unfoldable pub produce : Text → List Turn → List (Frame T) × Option (Result Failure (Unit {0}))
  unfolding next
  produce cursor [] = ([], none)
  produce cursor (turn ∷ turns) = elim (next decode epoch cursor turn.seen) [
    | none ↦ ([], none)
    | some (err e) ↦
        let after_heartbeat = produce cursor turns in
        if turn.stream_ended
        then ([], some (err stream_done))
        else if is_end e
        then ([], some (ok tt))
        else if not (is_timeout e turn.timed_out)
        then ([], some (err (source_failed e)))
        else if turn.sent
        then (heartbeat cursor ∷ after_heartbeat.0, after_heartbeat.1)
        else ([], some (err send_failed))
    | some (ok item) ↦
        let after_item = produce item.cursor turns in
        if turn.stream_ended
        then ([], some (err stream_done))
        else if is_bad_cursor cursor item.cursor
        then ([], some (err cursor_not_advanced))
        else if turn.sent
        then (data_frame item.cursor item.value ∷ after_item.0, after_item.1)
        else ([], some (err send_failed))
  ]

  -- ProduceSubscription
  unfoldable pub produce_subscription :
      SubscriptionOptions → List Turn → List (Frame T) × Option (Result Failure (Unit {0}))
  unfolding produce
  produce_subscription options turns =
      if is_negative options.heartbeat_interval
      then ([], some (err invalid_subscription))
      else if ltb max_cursor_bytes (length options.after_cursor)
      then ([], some (err cursor_too_long))
      else produce options.after_cursor turns
