-- ===== src/Subscription/Cursors.antt =====
-- The cursors of backend/framework/subscription_buffer.go, written and read.
use bridra.Common.{
  ℕ, ◌^◌, ◌<◌, ◌≡◌, refl, sym, ◌∙◌, inl, inr, some, List, [], ◌∷◌, ◌++◌, not, ◌==◌, Bool-cases,
  Option-cases, arith, ok, err, if◌then◌else◌,
}
use bridra.Common.Texts.{Text, cut, same_text, same_text_refl, same_text→eq}
use bridra.Common.Separators.{IsFree, cut-append}
use bridra.Common.Decimal.{
  format_uint, parse_uint, hex, hex_digit, parse-format_uint, parse_uint_bound,
}
use bridra.Subscription.Buffer.{
  cursor_invalid, cursor_expired, colon, cursor_text, following, read_cursor,
}

-- No code of the text is the separator.
abbrev pub IsColonFree : Text → Type 0
IsColonFree = IsFree colon

pub hex-IsColonFree : (bytes : List ℕ) → IsColonFree (hex bytes)
unfolding hex hex_digit
hex-IsColonFree [] = tt
hex-IsColonFree (b ∷ bs) = (ground arith, (ground arith, hex-IsColonFree bs))

cut_sound :
    (t before suffix : Text) → cut colon t ≡ some (before, suffix) → t ≡ before ++ colon ∷ suffix
unfolding cut
cut_sound [] before suffix h = absurd (ground arith)
cut_sound (c ∷ cs) before suffix h = elim (Bool-cases (c == colon)) [
  | inl e ↦ ground (arith, e)
  | inr e ↦ elim (Option-cases (cut colon cs)) [
    | inl f ↦ absurd (ground (arith, e, f))
    | inr ((b, a), f) ↦ ground (arith, e, f, cut_sound cs b a f)
  ]
]

-- What Next makes of a text that has a separator and a number after it.
read_cursor-cut :
    (epoch t before suffix : Text) (n : ℕ)
    → cut colon t ≡ some (before, suffix)
    → parse_uint suffix ≡ some n
    → read_cursor epoch t ≡ (
        if not (same_text (format_uint n) suffix)
        then err cursor_invalid
        else if not (same_text before epoch)
        then err cursor_expired
        else ok (following n))
unfolding read_cursor cut
read_cursor-cut epoch [] before suffix n h k = absurd (ground arith)
read_cursor-cut epoch (c ∷ cs) before suffix n h k = rw (h, k, read_cursor) refl

-- A cursor that the buffer writes is read back.
pub read-cursor_text :
    (epoch : Text) (n : ℕ)
    → IsColonFree epoch
    → n < 2 ^ 64
    → read_cursor epoch (cursor_text epoch n) ≡ ok (following n)
unfolding cursor_text
read-cursor_text epoch n free bound =
    read_cursor-cut epoch (cursor_text epoch n) epoch (format_uint n) n
      (cut-append colon epoch (format_uint n) free) (parse-format_uint n bound)
    ∙ rw (same_text_refl (format_uint n), same_text_refl epoch) refl

-- What is read as a position after `n` is the one text that the buffer writes for `n`.
pub read_cursor_sound :
    (epoch t : Text) (n : ℕ)
    → read_cursor epoch t ≡ ok (following n)
    → (t ≡ cursor_text epoch n) × (n < 2 ^ 64)
unfolding read_cursor cursor_text cut
read_cursor_sound epoch [] n h = absurd (ground arith)
read_cursor_sound epoch (c ∷ cs) n h = elim (Option-cases (cut colon (c ∷ cs))) [
  | inl e ↦ absurd (ground (arith, e))
  | inr ((before, suffix), e) ↦ elim (Option-cases (parse_uint suffix)) [
    | inl f ↦ absurd (ground (arith, e, f))
    | inr (m, f) ↦
        let accepted = sym (read_cursor-cut epoch (c ∷ cs) before suffix m e f) ∙ h in
        let shape = cut_sound (c ∷ cs) before suffix e in
        let bound = parse_uint_bound suffix m f in
        ground (arith, same_text→eq (format_uint m) suffix, same_text→eq before epoch)
  ]
]
