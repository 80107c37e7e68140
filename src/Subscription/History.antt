-- ===== src/Subscription/History.antt =====
-- What the buffer of backend/framework/subscription_buffer.go retains, against the history of all
-- values that were published into it.
use mathlib.Core.List.{append_assoc}
use bridra.Common.{
  ℕ, ◌+◌, ◌-◌, ◌^◌, ◌%◌, ◌<◌, ◌≤◌, ◌≡◌, refl, sym, ap, ◌∙◌, ◌⊎◌, inl, inr, true, false, Option,
  some, List, [], ◌∷◌, ◌++◌, ltb, ◌==◌, if◌then◌else◌, length, length-append, Bool-cases,
  Option-cases, arith, Result, ok, err,
}
use bridra.Common.Texts.{Text}
use bridra.Subscription.Buffer.{
  Bytes, Error, SubscriptionRecord, SubscriptionBuffer, retain, shift_in, publish, cursor_text,
  encode_failed, event_too_large, closed_buffer, sequence_exhausted,
}

-- Values as records numbered from `n`.
abbrev pub numbered : ℕ → List Bytes → List SubscriptionRecord
numbered n [] = []
numbered n (v ∷ vs) = record { sequence = n; value = v } ∷ numbered (n + 1) vs

pub length-numbered : (n : ℕ) (vs : List Bytes) → length (numbered n vs) ≡ length vs
length-numbered n [] = refl
length-numbered n (v ∷ vs) = omega (arith, length-numbered (n + 1) vs)

numbered-snoc :
    (n : ℕ) (vs : List Bytes) (v : Bytes)
    → numbered n (vs ++ v ∷ [])
      ≡ numbered n vs ++ record { sequence = n + length vs; value = v } ∷ []
numbered-snoc n [] v = ap (λ k. record { sequence = k; value = v } ∷ []) (omega arith)
numbered-snoc n (u ∷ vs) v =
    ap (λ rs. record { sequence = n; value = u } ∷ rs)
      (numbered-snoc (n + 1) vs v
        ∙ ap (λ k. numbered (n + 1) vs ++ record { sequence = k; value = v } ∷ []) (omega arith))

numbered_one_more :
    (n j : ℕ) (vs : List Bytes) (v : Bytes)
    → j ≡ n + length vs
    → numbered n vs ++ record { sequence = j; value = v } ∷ [] ≡ numbered n (vs ++ v ∷ [])
numbered_one_more n j vs v e =
    ap (λ k. numbered n vs ++ record { sequence = k; value = v } ∷ []) e
    ∙ sym (numbered-snoc n vs v)

abbrev numbered_from : List Bytes → List Bytes → List SubscriptionRecord
numbered_from dropped kept = numbered (length dropped + 1) kept

-- At capacity the first record makes room.
shift_in-Divided :
    (dropped : List Bytes) (x : Bytes) (rest : List Bytes) (v : Bytes) (k : ℕ)
    → k ≡ length dropped + length (x ∷ rest) + 1
    → shift_in (record { sequence = k; value = v }) (numbered_from dropped (x ∷ rest))
      ≡ numbered_from (dropped ++ x ∷ []) (rest ++ v ∷ [])
shift_in-Divided dropped x rest v k e =
    numbered_one_more (length dropped + 1 + 1) k rest v (omega (arith, e))
    ∙ ap (λ n. numbered n (rest ++ v ∷ [])) (omega (arith, length-append dropped (x ∷ [])))

regroup :
    (dropped : List Bytes) (x : Bytes) (rest : List Bytes) (v : Bytes)
    → (dropped ++ x ∷ rest) ++ v ∷ [] ≡ (dropped ++ x ∷ []) ++ (rest ++ v ∷ [])
regroup [] x rest v = refl
regroup (d ∷ ds) x rest v = ap (λ l. d ∷ l) (regroup ds x rest v)

-- The buffer holds the last values of the history, as many as it has room for, numbered by their
-- places in the history.
pub record Retains (history : List Bytes) (b : SubscriptionBuffer) : Type 0 where
  pub dropped : List Bytes
  pub kept : List Bytes
  pub divided : history ≡ dropped ++ kept
  pub records_numbered : b.records ≡ numbered (length dropped + 1) kept
  pub counted : b.sequence ≡ length history
  pub within : length kept ≤ b.capacity
  pub full : (dropped ≡ []) ⊎ (length kept ≡ b.capacity)
  pub positive : 1 ≤ b.capacity
  pub below : length history < 2 ^ 64

-- The history after a Publish: it grows when the Publish succeeds.
abbrev pub extended : Result Error Text → Option Bytes → List Bytes → List Bytes
extended (ok cursor) (some v) history = history ++ v ∷ []
extended _ _ history = history

retain_shifts :
    (b : SubscriptionBuffer) (dropped : List Bytes) (x : Bytes) (rest : List Bytes) (v : Bytes)
    (k : ℕ)
    → b.records ≡ numbered_from dropped (x ∷ rest)
    → length (x ∷ rest) ≡ b.capacity
    → k ≡ length dropped + length (x ∷ rest) + 1
    → retain (record { sequence = k; value = v }) b
      ≡ numbered_from (dropped ++ x ∷ []) (rest ++ v ∷ [])
retain_shifts b dropped x rest v k rs c e =
    let new : SubscriptionRecord = record { sequence = k; value = v } in
    let test : (length b.records == b.capacity) ≡ true =
      ground (arith, ap length rs, length-numbered (length dropped + 1) (x ∷ rest)) in
    ap (λ t. if t then shift_in new b.records else b.records ++ new ∷ []) test
    ∙ ap (shift_in new) rs
    ∙ shift_in-Divided dropped x rest v k e

retain_adds :
    (b : SubscriptionBuffer) (dropped kept : List Bytes) (v : Bytes) (k : ℕ)
    → b.records ≡ numbered_from dropped kept
    → length kept < b.capacity
    → k ≡ length dropped + length kept + 1
    → retain (record { sequence = k; value = v }) b ≡ numbered_from dropped (kept ++ v ∷ [])
retain_adds b dropped kept v k rs c e =
    let new : SubscriptionRecord = record { sequence = k; value = v } in
    let test : (length b.records == b.capacity) ≡ false =
      ground (arith, ap length rs, length-numbered (length dropped + 1) kept) in
    ap (λ t. if t then shift_in new b.records else b.records ++ new ∷ []) test
    ∙ ap (λ rs. rs ++ new ∷ []) rs
    ∙ numbered_one_more (length dropped + 1) k kept v (omega (arith, e))

first_of : (vs : List Bytes) → 1 ≤ length vs → (x : Bytes) × (rest : List Bytes) × (vs ≡ x ∷ rest)
first_of [] h = absurd (omega (arith, h))
first_of (x ∷ rest) h = (x, rest, refl)

-- The buffer after a value of at most the size limit is published into it.
abbrev with_value : Bytes → ℕ → SubscriptionBuffer → SubscriptionBuffer
with_value v channel b = record b {
  sequence = b.sequence + 1;
  records = retain (record { sequence = b.sequence + 1; value = v }) b;
  changed = channel;
  closed_channels = b.changed ∷ b.closed_channels;
}

Retains-shifted :
    (history : List Bytes) (b : SubscriptionBuffer) (v : Bytes) (channel : ℕ)
    (h : Retains history b) (x : Bytes) (rest : List Bytes)
    → h.kept ≡ x ∷ rest
    → length h.kept ≡ b.capacity
    → length history + 1 < 2 ^ 64
    → Retains (history ++ v ∷ []) (with_value v channel b)
Retains-shifted history b v channel h x rest e c room = record {
  dropped = h.dropped ++ x ∷ [];
  kept = rest ++ v ∷ [];
  divided =
      ap (λ l. l ++ v ∷ []) (h.divided ∙ ap (λ l. h.dropped ++ l) e) ∙ regroup h.dropped x rest v;
  records_numbered =
      retain_shifts b h.dropped x rest v (b.sequence + 1)
        (h.records_numbered ∙ ap (numbered_from h.dropped) e) (ap length (sym e) ∙ c)
        (omega
          (arith, h.counted, ap length h.divided, length-append h.dropped h.kept, ap length e));
  counted = omega (arith, h.counted, length-append history (v ∷ []));
  within = omega (arith, length-append rest (v ∷ []), ap length e, c);
  full = inr (omega (arith, length-append rest (v ∷ []), ap length e, c));
  positive = h.positive;
  below = omega (arith, length-append history (v ∷ []), room);
}

Retains-added :
    (history : List Bytes) (b : SubscriptionBuffer) (v : Bytes) (channel : ℕ)
    (h : Retains history b)
    → length h.kept < b.capacity
    → length history + 1 < 2 ^ 64
    → Retains (history ++ v ∷ []) (with_value v channel b)
Retains-added history b v channel h c room = record {
  dropped = h.dropped;
  kept = h.kept ++ v ∷ [];
  divided = ap (λ l. l ++ v ∷ []) h.divided ∙ append_assoc h.dropped h.kept (v ∷ []);
  records_numbered =
      retain_adds b h.dropped h.kept v (b.sequence + 1) h.records_numbered c
        (omega (arith, h.counted, ap length h.divided, length-append h.dropped h.kept));
  counted = omega (arith, h.counted, length-append history (v ∷ []));
  within = omega (arith, length-append h.kept (v ∷ []), c);
  full = elim h.full [ inl e ↦ inl e | inr e ↦ absurd (omega (arith, e, c)) ];
  positive = h.positive;
  below = omega (arith, length-append history (v ∷ []), room);
}

-- Where the buffer is full, it holds a first value, since it has room for one.
with_value-Retains :
    (history : List Bytes) (b : SubscriptionBuffer) (v : Bytes) (channel : ℕ)
    → Retains history b
    → length history + 1 < 2 ^ 64
    → Retains (history ++ v ∷ []) (with_value v channel b)
with_value-Retains history b v channel h room = elim (Bool-cases (ltb (length h.kept) b.capacity)) [
  | inl e ↦ Retains-added history b v channel h (ground (arith, e)) room
  | inr e ↦
      let (x, rest, f) = first_of h.kept (ground (arith, e, h.positive)) in
      Retains-shifted history b v channel h x rest f (ground (arith, e, h.within)) room
]

module _ {T : Type 0} (encode : T → Option Bytes) where
  -- What a Publish that succeeds found and did.
  pub record Published (value : T) (b : SubscriptionBuffer) : Type 0 where
    pub encoded : Bytes
    pub encodes : encode value ≡ some encoded
    pub fits : length encoded ≤ b.max_event_bytes
    pub opened : b.closed ≡ false
    pub counts : b.sequence + 1 < 2 ^ 64
    pub outcome :
        publish encode value b
        ≡ (ok (cursor_text b.epoch (b.sequence + 1)), with_value encoded (b.changed + 1) b)

  -- Otherwise a Publish fails and leaves the buffer as it is.
  pub publish-cases :
      (value : T) (b : SubscriptionBuffer)
      → b.sequence < 2 ^ 64
      → ((e : Error) × (publish encode value b ≡ (err e, b))) ⊎ Published value b
  unfolding publish
  publish-cases value b bound = elim (Option-cases (encode value)) [
    | inl e ↦ inl (encode_failed, rw (e, publish) refl)
    | inr (v, e) ↦ elim (Bool-cases (ltb b.max_event_bytes (length v))) [
      | inl large ↦ inl (event_too_large, simp (publish, e, large))
      | inr fits ↦ elim (Bool-cases b.closed) [
        | inl closed ↦ inl (closed_buffer, simp (publish, e, fits, closed))
        | inr opened ↦ elim (Bool-cases (b.sequence == 2 ^ 64 - 1)) [
          | inl last ↦ inl (sequence_exhausted, simp (publish, e, fits, opened, last))
          | inr more ↦
              let exact : (b.sequence + 1) % 2 ^ 64 ≡ b.sequence + 1 =
                ground (arith, more, bound) in
              inr (record {
                encoded = v;
                encodes = e;
                fits = ground (arith, fits);
                opened = opened;
                counts = ground (arith, more, bound);
                outcome = simp (publish, e, fits, opened, more, exact);
              })
        ]
      ]
    ]
  ]

  -- A Publish that succeeds adds its value to the history, and one that fails leaves the buffer.
  pub publish-Retains :
      (history : List Bytes) (value : T) (b : SubscriptionBuffer)
      → Retains history b
      → Retains
          (extended (publish encode value b).0 (encode value) history)
          (publish encode value b).1
  publish-Retains history value b h =
      elim (publish-cases value b (omega (arith, h.counted, h.below))) [
        | inl (e, same) ↦ rw same h
        | inr done ↦
            rw (done.outcome, done.encodes)
              (with_value-Retains history b done.encoded (b.changed + 1) h
                (omega (arith, h.counted, done.counts)))
      ]
