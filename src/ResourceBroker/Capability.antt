-- ===== src/ResourceBroker/Capability.antt =====
-- Capabilities of backend/framework/resource_broker.go: the hexadecimal text of a random nonce and its
-- authentication code. `mac` is the HMAC-SHA256 under the broker's key, cut to 16 bytes.
use bridra.Common.{
  ℕ, zero, suc, ◌+◌, ◌*◌, ◌-◌, ◌/◌, ◌%◌, ◌<◌, ◌≡◌, refl, ap, Bool, true, false, ◌&&◌, Option, none,
  some, List, [], ◌∷◌, ◌++◌, leb, ◌==◌, if◌then◌else◌, length, arith, All,
}
use bridra.Common.Texts.{Text, same_text}
use bridra.Common.Decimal.{hex, hex_digit}

abbrev pub nonce_bytes : ℕ
nonce_bytes = 32

abbrev pub mac_bytes : ℕ
mac_bytes = 16

abbrev pub capability_bytes : ℕ
capability_bytes = nonce_bytes + mac_bytes

-- A hexadecimal digit, of either case, as encoding/hex reads it
unfoldable pub digit_of : ℕ → Option ℕ
digit_of c =
    if leb 48 c && leb c 57
    then some (c - 48)
    else if leb 97 c && leb c 102
    then some (c - 87)
    else if leb 65 c && leb c 70
    then some (c - 55)
    else none

abbrev pub add_byte : Option ℕ → Option ℕ → Option (List ℕ) → Option (List ℕ)
add_byte (some high) (some low) (some rest) = some ((high * 16 + low) ∷ rest)
add_byte _ _ _ = none

-- hex.DecodeString
unfoldable pub decode_hex : Text → Option (List ℕ)
decode_hex [] = some []
decode_hex (c ∷ []) = none
decode_hex (c ∷ d ∷ rest) = add_byte (digit_of c) (digit_of d) (decode_hex rest)

abbrev pub is_some {ℓ} : {A : Type ℓ} → Option A → Bool
is_some none = false
is_some (some a) = true

-- validResourceCapability
unfoldable pub valid_resource_capability : Text → Bool
valid_resource_capability capability =
    (length capability == capability_bytes * 2) && is_some (decode_hex capability)

-- value[:n] and value[n:]
unfoldable pub take_bytes : ℕ → List ℕ → List ℕ
take_bytes zero bs = []
take_bytes (suc n) [] = []
take_bytes (suc n) (b ∷ bs) = b ∷ take_bytes n bs

unfoldable pub drop_bytes : ℕ → List ℕ → List ℕ
drop_bytes zero bs = bs
drop_bytes (suc n) [] = []
drop_bytes (suc n) (b ∷ bs) = drop_bytes n bs

module _ (mac : List ℕ → List ℕ) where
  -- createCapability, from a nonce
  unfoldable pub capability_of : List ℕ → Text
  capability_of nonce = hex (nonce ++ mac nonce)

  -- capabilityBelongsToBroker, from the decoded value
  unfoldable pub is_authentic : List ℕ → Bool
  is_authentic value =
      (length value == capability_bytes)
      && same_text (drop_bytes nonce_bytes value) (mac (take_bytes nonce_bytes value))

  -- capabilityBelongsToBroker
  unfoldable pub belongs_to_broker : Text → Bool
  belongs_to_broker capability = elim (decode_hex capability) [
    | none ↦ false
    | some value ↦ is_authentic value
  ]

digit_of-hex_digit : (d : ℕ) → d < 16 → digit_of (hex_digit d) ≡ some d
unfolding digit_of hex_digit
digit_of-hex_digit d h = ground (arith, h)

-- Bytes are read back from their hexadecimal text.
pub decode_hex-hex : (bs : List ℕ) → All (λ b. b < 256) bs → decode_hex (hex bs) ≡ some bs
unfolding decode_hex hex
decode_hex-hex [] h = refl
decode_hex-hex (b ∷ bs) h =
    let whole : b / 16 * 16 + b % 16 ≡ b = omega arith in
    rw
      (
        digit_of-hex_digit (b / 16) (omega (arith, h.0)),
        digit_of-hex_digit (b % 16) (omega arith),
        decode_hex-hex bs h.1,
        decode_hex,
      )
      (ap (λ n. some (n ∷ bs)) whole)

pub length-hex : (bs : List ℕ) → length (hex bs) ≡ length bs * 2
unfolding hex
length-hex [] = refl
length-hex (b ∷ bs) = omega (arith, length-hex bs)

pub take_bytes-append : (n : ℕ) (xs ys : List ℕ) → length xs ≡ n → take_bytes n (xs ++ ys) ≡ xs
unfolding take_bytes
take_bytes-append zero [] ys h = refl
take_bytes-append zero (x ∷ xs) ys h = absurd (omega (arith, h))
take_bytes-append (suc n) [] ys h = absurd (omega (arith, h))
take_bytes-append (suc n) (x ∷ xs) ys h =
    ap (λ l. x ∷ l) (take_bytes-append n xs ys (omega (arith, h)))

pub drop_bytes-append : (n : ℕ) (xs ys : List ℕ) → length xs ≡ n → drop_bytes n (xs ++ ys) ≡ ys
unfolding drop_bytes
drop_bytes-append zero [] ys h = refl
drop_bytes-append zero (x ∷ xs) ys h = absurd (omega (arith, h))
drop_bytes-append (suc n) [] ys h = absurd (omega (arith, h))
drop_bytes-append (suc n) (x ∷ xs) ys h = drop_bytes-append n xs ys (omega (arith, h))
