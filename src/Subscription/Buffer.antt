-- ===== src/Subscription/Buffer.antt =====
-- The buffer of backend/framework/subscription_buffer.go, its cursors and its operations. A text is
-- the list of its bytes, as Go measures and cuts it, an encoded value the list of its bytes, and a channel the number of
-- channels that the buffer made before it. The buffer's record also holds the channels that were closed.
use bridra.Common.{
  ℕ, ℤ, pos, negsuc, ◌+◌, ◌-◌, ◌*◌, ◌^◌, ◌%◌, Bool, true, false, not, ◌||◌, Option, none, some,
  List, [], ◌∷◌, ◌++◌, ltb, ◌==◌, if◌then◌else◌, length, Result, ok, err,
}
use bridra.Common.Texts.{Text, cut, same_text}
use bridra.Common.Decimal.{format_uint, parse_uint, hex}

abbrev pub Bytes : Type 0
Bytes = List ℕ

pub data Error : Type 0 where
  options_invalid random_failed : Error
  encode_failed event_too_large closed_buffer sequence_exhausted : Error
  cursor_invalid cursor_expired decode_failed context_done end_of_file : Error

abbrev pub max_request_bytes : ℕ
max_request_bytes = 4 * 1024 * 1024

pub record SubscriptionBufferOptions : Type 0 where
  pub capacity : ℤ
  pub max_event_bytes : ℤ

-- subscriptionRecord
pub record SubscriptionRecord : Type 0 where
  pub sequence : ℕ
  pub value : Bytes

-- SubscriptionBuffer, with the effects of its calls of close on channels in `closed_channels`.
pub record SubscriptionBuffer : Type 0 where
  pub epoch : Text
  pub capacity : ℕ
  pub max_event_bytes : ℕ
  pub sequence : ℕ
  pub records : List SubscriptionRecord
  pub changed : ℕ
  pub closed_channels : List ℕ
  pub closed : Bool

pub record SubscriptionItem (T : Type 0) : Type 0 where
  pub cursor : Text
  pub value : T

-- An option after its default is filled in, if it is from 1 to the limit.
abbrev pub option_value : ℤ → ℕ → ℕ → Option ℕ
option_value (negsuc n) standard limit = none
option_value (pos n) standard limit =
    let chosen = if n == 0 then standard else n in
    if ltb chosen 1 || ltb limit chosen then none else some chosen

-- NewSubscriptionBuffer; the 16 bytes of the random source, or none where it fails.
unfoldable pub new_subscription_buffer :
    SubscriptionBufferOptions → Option Bytes → Result Error SubscriptionBuffer
unfolding hex
new_subscription_buffer options random = elim (option_value options.capacity 256 4096) [
  | none ↦ err options_invalid
  | some capacity ↦ elim (option_value options.max_event_bytes (64 * 1024) max_request_bytes) [
    | none ↦ err options_invalid
    | some max_event_bytes ↦ elim random [
      | none ↦ err random_failed
      | some epoch ↦ ok (record {
        epoch = hex epoch;
        capacity = capacity;
        max_event_bytes = max_event_bytes;
        sequence = 0;
        records = [];
        changed = 0;
        closed_channels = [];
        closed = false;
      })
    ]
  ]
]

-- The byte `:`
abbrev pub colon : ℕ
colon = 58

-- SubscriptionBuffer.cursor
unfoldable pub cursor_text : Text → ℕ → Text
cursor_text epoch sequence = epoch ++ colon ∷ format_uint sequence

-- SubscriptionBuffer.Cursor
abbrev pub current_cursor : SubscriptionBuffer → Text
current_cursor b = cursor_text b.epoch b.sequence

-- copy(records, records[1:]), then the last element is assigned.
abbrev pub shift_in : SubscriptionRecord → List SubscriptionRecord → List SubscriptionRecord
shift_in new [] = new ∷ []
shift_in new (old ∷ rest) = rest ++ new ∷ []

-- The records after the record of the next event.
abbrev pub retain : SubscriptionRecord → SubscriptionBuffer → List SubscriptionRecord
retain new b =
    if length b.records == b.capacity then shift_in new b.records else b.records ++ new ∷ []

module _ {T : Type 0} (encode : T → Option Bytes) where
  -- SubscriptionBuffer.Publish
  unfoldable pub publish : T → SubscriptionBuffer → Result Error Text × SubscriptionBuffer
  publish value b = elim (encode value) [
    | none ↦ (err encode_failed, b)
    | some encoded ↦
        if ltb b.max_event_bytes (length encoded)
        then (err event_too_large, b)
        else if b.closed
        then (err closed_buffer, b)
        else if b.sequence == 2 ^ 64 - 1
        then (err sequence_exhausted, b)
        else let next = (b.sequence + 1) % 2 ^ 64 in
          (
            ok (cursor_text b.epoch next),
            record b {
              sequence = next;
              records = retain (record { sequence = next; value = encoded }) b;
              changed = b.changed + 1;
              closed_channels = b.changed ∷ b.closed_channels;
            },
          )
  ]

-- SubscriptionBuffer.Close
unfoldable pub close : SubscriptionBuffer → SubscriptionBuffer
close b =
    if b.closed
    then b
    else record b { closed = true; closed_channels = b.changed ∷ b.closed_channels }

-- Whether a channel is among those that were closed, so that a receive on it returns.
abbrev pub is_among : ℕ → List ℕ → Bool
is_among channel [] = false
is_among channel (c ∷ cs) = c == channel || is_among channel cs

abbrev pub is_closed : ℕ → SubscriptionBuffer → Bool
is_closed channel b = is_among channel b.closed_channels

-- Where Next resumes: at the oldest record, or after a sequence number.
pub data Position : Type 0 where
  oldest : Position
  following : ℕ → Position

-- What Next makes of its argument, before its loop.
unfoldable pub read_cursor : Text → Text → Result Error Position
unfolding cut same_text
read_cursor epoch [] = ok oldest
read_cursor epoch (c ∷ cs) = elim (cut colon (c ∷ cs)) [
  | none ↦ err cursor_invalid
  | some (before, suffix) ↦ elim (parse_uint suffix) [
    | none ↦ err cursor_invalid
    | some parsed ↦
        if not (same_text (format_uint parsed) suffix)
        then err cursor_invalid
        else if not (same_text before epoch)
        then err cursor_expired
        else ok (following parsed)
  ]
]

-- The first record after a position.
unfoldable pub find_after : Position → List SubscriptionRecord → Option SubscriptionRecord
find_after position [] = none
find_after oldest (r ∷ rs) = some r
find_after (following n) (r ∷ rs) =
    let rest = find_after (following n) rs in if ltb n r.sequence then some r else rest

-- Whether a position is out of reach, with the error that Next answers; the records' sequence
-- numbers are at least 1, and the uint64 subtraction wraps around below that.
unfoldable pub refusal : Position → SubscriptionBuffer → Option Error
refusal oldest b = none
refusal (following n) b = if ltb b.sequence n then some cursor_invalid else elim b.records [
  | [] ↦ none
  | r ∷ rs ↦ if ltb n ((r.sequence + (2 ^ 64 - 1)) % 2 ^ 64) then some cursor_expired else none
]

-- One round of the loop of Next: it returns, or it waits on a channel.
pub data Round (T : Type 0) : Type 0 where
  return : Result Error (SubscriptionItem T) → Round T
  wait : ℕ → Round T

module _ {T : Type 0} (decode : Bytes → Option T) where
  abbrev pub deliver : Text → SubscriptionRecord → Result Error (SubscriptionItem T)
  deliver epoch r = elim (decode r.value) [
    | none ↦ err decode_failed
    | some value ↦ ok (record { cursor = cursor_text epoch r.sequence; value = value })
  ]

  unfoldable pub round : Position → SubscriptionBuffer → Round T
  unfolding refusal find_after
  round position b = elim (refusal position b) [
    | some e ↦ return (err e)
    | none ↦ elim (find_after position b.records) [
      | some r ↦ return (deliver b.epoch r)
      | none ↦ if b.closed then return (err end_of_file) else wait b.changed
    ]
  ]

  -- The loop of Next over what it finds in each round: whether the context is done, and the buffer.
  -- It has not returned where it still waits after them.
  unfoldable pub rounds :
      Position → List (Bool × SubscriptionBuffer) → Option (Result Error (SubscriptionItem T))
  unfolding round
  rounds position [] = none
  rounds position ((true, b) ∷ later) = some (err context_done)
  rounds position ((false, b) ∷ later) = elim (round position b) [
    | return answer ↦ some answer
    | wait channel ↦ rounds position later
  ]

  -- SubscriptionBuffer.Next
  unfoldable pub next :
      Text → Text → List (Bool × SubscriptionBuffer) → Option (Result Error (SubscriptionItem T))
  unfolding rounds read_cursor
  next epoch after seen = elim (read_cursor epoch after) [
    | err e ↦ some (err e)
    | ok position ↦ rounds position seen
  ]
