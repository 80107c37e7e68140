-- ===== src/Subscription/Replay.antt =====
-- What Next of backend/framework/subscription_buffer.go answers, told from the history of all
-- published values alone.
use bridra.Common.{
  ℕ, zero, suc, ◌+◌, ◌-◌, ◌^◌, ◌%◌, ◌<◌, ◌≤◌, ◌≡◌, refl, sym, ap, ◌∙◌, ◌⊎◌, inl, inr, false, Option,
  none, some, List, [], ◌∷◌, ◌++◌, ltb, if◌then◌else◌, length, length-append, get_elem?, Bool-cases,
  arith, err,
}
use bridra.Subscription.Buffer.{
  Bytes, Error, SubscriptionRecord, SubscriptionBuffer, cursor_invalid, cursor_expired, end_of_file,
  Position, oldest, following, find_after, refusal, Round, return, wait, deliver, round,
}
use bridra.Subscription.History.{numbered, Retains}

-- The answer for a position after the first `n` values of the history: the next value while the
-- buffer has room for all that came since, and else an error, the end, or a wait.
module _ {T : Type 0} (decode : Bytes → Option T) where
  unfoldable pub answer : List Bytes → ℕ → SubscriptionBuffer → Round T
  answer history n b =
      if ltb (length history) n
      then return (err cursor_invalid)
      else if ltb (n + b.capacity) (length history)
      then return (err cursor_expired)
      else elim (get_elem? history n) [
        | some v ↦ return (deliver decode b.epoch (record { sequence = n + 1; value = v }))
        | none ↦ if b.closed then return (err end_of_file) else wait b.changed
      ]

abbrev as_record : ℕ → Option Bytes → Option SubscriptionRecord
as_record n none = none
as_record n (some v) = some (record { sequence = n; value = v })

at_first : (n first : ℕ) → first ≡ n + 1 → 0 ≡ n + 1 - first
at_first n first h = omega (arith, h)

past_first : (n first : ℕ) → first + 1 ≤ n + 1 → suc (n + 1 - (first + 1)) ≡ n + 1 - first
past_first n first h = omega (arith, h)

-- Among records numbered from at most `n + 1`, the first after `n` is the one numbered `n + 1`.
find_after-numbered :
    (n first : ℕ) (vs : List Bytes)
    → first ≤ n + 1
    → find_after (following n) (numbered first vs)
      ≡ as_record (n + 1) (get_elem? vs (n + 1 - first))
unfolding find_after
find_after-numbered n first [] h = refl
find_after-numbered n first (v ∷ vs) h = elim (Bool-cases (ltb n first)) [
  | inl e ↦
      let here : first ≡ n + 1 = ground (arith, e, h) in
      rw (e, find_after)
        (ap (λ k. as_record k (some v)) here
          ∙ ap (λ i. as_record (n + 1) (get_elem? (v ∷ vs) i)) (at_first n first here))
  | inr e ↦
      let later : first + 1 ≤ n + 1 = ground (arith, e) in
      rw (e, find_after)
        (find_after-numbered n (first + 1) vs later
          ∙ ap (λ i. as_record (n + 1) (get_elem? (v ∷ vs) i)) (past_first n first later))
]

get_elem?-append :
    (dropped kept : List Bytes) (n : ℕ)
    → length dropped ≤ n
    → get_elem? (dropped ++ kept) n ≡ get_elem? kept (n - length dropped)
get_elem?-append [] kept n h = ap (get_elem? kept) (omega arith)
get_elem?-append (d ∷ ds) kept zero h = absurd (omega (arith, h))
get_elem?-append (d ∷ ds) kept (suc n) h =
    get_elem?-append ds kept n (omega (arith, h)) ∙ ap (get_elem? kept) (omega arith)

from :
    (k : ℕ) (vs : List Bytes)
    → find_after oldest (numbered (k + 1) vs) ≡ find_after (following k) (numbered (k + 1) vs)
unfolding find_after
from k [] = refl
from k (v ∷ vs) = ground arith

module _ (history : List Bytes) (b : SubscriptionBuffer) (h : Retains history b) where
  find_after-history :
      (n : ℕ)
      → length h.dropped ≤ n
      → find_after (following n) b.records ≡ as_record (n + 1) (get_elem? history n)
  find_after-history n enough =
      ap (find_after (following n)) h.records_numbered
      ∙ find_after-numbered n (length h.dropped + 1) h.kept (omega (arith, enough))
      ∙ ap (as_record (n + 1)) (
          ap (get_elem? h.kept) (omega arith)
          ∙ sym (get_elem?-append h.dropped h.kept n enough)
          ∙ ap (λ l. get_elem? l n) (sym h.divided))

  filled : (length h.dropped ≡ 0) ⊎ (length h.kept ≡ b.capacity)
  filled = elim h.full [ inl e ↦ inl (ap length e) | inr e ↦ inr e ]

  whole : length history ≡ length h.dropped + length h.kept
  whole = ap length h.divided ∙ length-append h.dropped h.kept

  -- The first record's number tells how much of the history the buffer has dropped.
  first_test :
      (n : ℕ) (v : Bytes) (vs : List Bytes)
      → h.kept ≡ v ∷ vs
      → ltb n ((length h.dropped + 1 + (2 ^ 64 - 1)) % 2 ^ 64)
        ≡ ltb (n + b.capacity) (length history)
  first_test n v vs e =
      let f = filled in
      let w = whole in
      let bound : length h.dropped < 2 ^ 64 - 1 = omega (arith, w, h.below, ap length e) in
      let exact : (length h.dropped + 1 + (2 ^ 64 - 1)) % 2 ^ 64 ≡ length h.dropped =
        omega (arith, bound) in
      rw exact (ground (arith, f, w, h.within))

  unreached : (n : ℕ) → h.kept ≡ [] → ltb (n + b.capacity) (length history) ≡ false
  unreached n e = let f = filled in let w = whole in ground (arith, f, w, ap length e, h.positive)

abbrev verdict : ℕ → ℕ → List SubscriptionRecord → Option Error
verdict n sequence records = if ltb sequence n then some cursor_invalid else elim records [
  | [] ↦ none
  | r ∷ rs ↦ if ltb n ((r.sequence + (2 ^ 64 - 1)) % 2 ^ 64) then some cursor_expired else none
]

abbrev verdict_of : List Bytes → ℕ → ℕ → Option Error
verdict_of history capacity n =
    if ltb (length history) n
    then some cursor_invalid
    else if ltb (n + capacity) (length history)
    then some cursor_expired
    else none

module _ (history : List Bytes) (b : SubscriptionBuffer) (h : Retains history b) where
  verdict-history :
      (n : ℕ) (kept : List Bytes)
      → h.kept ≡ kept
      → verdict n (length history) (numbered (length h.dropped + 1) kept)
        ≡ verdict_of history b.capacity n
  verdict-history n [] e = rw (unreached history b h n e) refl
  verdict-history n (v ∷ vs) e = rw (first_test history b h n v vs e) refl

  refusal-history : (n : ℕ) → refusal (following n) b ≡ verdict_of history b.capacity n
  unfolding refusal
  refusal-history n =
      ap (λ s. verdict n s b.records) h.counted
      ∙ ap (verdict n (length history)) h.records_numbered
      ∙ verdict-history n h.kept refl

  module _ {T : Type 0} (decode : Bytes → Option T) where
    abbrev delivered : Option SubscriptionRecord → Round T
    delivered (some r) = return (deliver decode b.epoch r)
    delivered none = if b.closed then return (err end_of_file) else wait b.changed

    abbrev answered : Option Error → Option SubscriptionRecord → Round T
    answered (some e) found = return (err e)
    answered none found = delivered found

    round-answered :
        (p : Position) → round decode p b ≡ answered (refusal p b) (find_after p b.records)
    unfolding round
    round-answered p = ground arith

    delivered-answer :
        (n : ℕ)
        → answered (verdict_of history b.capacity n) (as_record (n + 1) (get_elem? history n))
          ≡ answer decode history n b
    unfolding answer
    delivered-answer n = ground arith

    -- What is found counts only for a position within reach.
    found-history :
        (n : ℕ)
        → answered (verdict_of history b.capacity n) (find_after (following n) b.records)
          ≡ answered (verdict_of history b.capacity n) (as_record (n + 1) (get_elem? history n))
    found-history n = elim (Bool-cases (ltb (length history) n)) [
      | inl e ↦ rw e refl
      | inr e ↦ elim (Bool-cases (ltb (n + b.capacity) (length history))) [
        | inl f ↦ rw (e, f) refl
        | inr f ↦
            let a = filled history b h in
            let w = whole history b h in
            rw (e, f) (ap delivered (find_after-history history b h n (ground (arith, f, a, w))))
      ]
    ]

    -- Next for a position after `n` answers as the history says.
    pub round-following : (n : ℕ) → round decode (following n) b ≡ answer decode history n b
    round-following n =
        round-answered (following n)
        ∙ ap (λ o. answered o (find_after (following n) b.records)) (refusal-history n)
        ∙ found-history n
        ∙ delivered-answer n

    first_dropped : length h.dropped ≡ length history - b.capacity
    first_dropped =
        let a = filled history b h in let w = whole history b h in ground (arith, a, w, h.within)

    oldest_found : find_after oldest b.records ≡ find_after (following (length h.dropped)) b.records
    oldest_found =
        ap (find_after oldest) h.records_numbered
        ∙ from (length h.dropped) h.kept
        ∙ ap (find_after (following (length h.dropped))) (sym h.records_numbered)

    nothing_refused : verdict_of history b.capacity (length h.dropped) ≡ none
    nothing_refused =
        let a = filled history b h in let w = whole history b h in ground (arith, a, w, h.within)
