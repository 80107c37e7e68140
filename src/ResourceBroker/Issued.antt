-- ===== src/ResourceBroker/Issued.antt =====
-- Releasing a capability again, backend/framework/resource_broker.go.
use bridra.Common.{
  ℕ, ◌<◌, ◌≡◌, refl, true, false, none, some, List, [], ◌∷◌, ◌++◌, arith, All, length,
  length-append,
}
use bridra.Common.Texts.{same_text_refl}
use bridra.Common.Ordering.{find_by}
use bridra.ResourceBroker.Capability.{
  capability_of, belongs_to_broker, is_authentic, valid_resource_capability, decode_hex,
  decode_hex-hex, length-hex, take_bytes-append, drop_bytes-append, nonce_bytes, mac_bytes,
}
use bridra.ResourceBroker.Broker.{Broker, capability_key, start_release, answered}

abbrev AreBytes : List ℕ → Type 0
AreBytes = All λ b. b < 256

AreBytes-append : (xs ys : List ℕ) → AreBytes xs → AreBytes ys → AreBytes (xs ++ ys)
AreBytes-append [] ys h k = k
AreBytes-append (x ∷ xs) ys h k = (h.0, AreBytes-append xs ys h.1 k)

module _ (mac : List ℕ → List ℕ) (nonce : List ℕ) (nonce_length : length nonce ≡ nonce_bytes)
    (mac_length : length (mac nonce) ≡ mac_bytes) (bytes : AreBytes nonce)
    (mac_are_bytes : AreBytes (mac nonce)) where
  decode_capability : decode_hex (capability_of mac nonce) ≡ some (nonce ++ mac nonce)
  unfolding capability_of
  decode_capability =
      decode_hex-hex (nonce ++ mac nonce) (AreBytes-append nonce (mac nonce) bytes mac_are_bytes)

  authentic : is_authentic mac (nonce ++ mac nonce) ≡ true
  unfolding is_authentic
  authentic =
      rw
        (
          take_bytes-append nonce_bytes nonce (mac nonce) nonce_length,
          drop_bytes-append nonce_bytes nonce (mac nonce) nonce_length,
          same_text_refl (mac nonce),
          length-append nonce (mac nonce),
          nonce_length,
          mac_length,
        )
        refl

  capability_length : length (capability_of mac nonce) ≡ 96
  unfolding capability_of
  capability_length = omega (
    arith,
    length-hex (nonce ++ mac nonce),
    length-append nonce (mac nonce),
    nonce_length,
    mac_length,
  )

  capability_valid : valid_resource_capability (capability_of mac nonce) ≡ true
  unfolding valid_resource_capability
  capability_valid = rw (decode_capability, capability_length) refl

  belongs : belongs_to_broker mac (capability_of mac nonce) ≡ true
  unfolding belongs_to_broker
  belongs = rw (decode_capability, belongs_to_broker) authentic

  -- A capability that the broker made, from 32 bytes of the random source, and that is not active is
  -- released without an error and without a change, where the broker is open and its code has 16
  -- bytes.
  pub release_issued :
      (b : Broker)
      → b.closed ≡ false
      → find_by capability_key (capability_of mac nonce) b.leases ≡ none
      → start_release mac (capability_of mac nonce) b ≡ answered none
  unfolding start_release
  release_issued b open_still inactive =
      rw (capability_valid, open_still, inactive, start_release) (rw belongs refl)
