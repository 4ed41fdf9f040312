-- ===== src/Text/Hex/RoundTrip.antt =====
-- `hex_encode` followed by the decoders.
use near_escrow.Shared.Tests.{
  ℕ, ◌*◌, ◌/◌, ◌%◌, ◌<◌, ◌≡◌, refl, true, false, nat_eq, some, [], ◌∷◌, arith,
}
use near_escrow.Shared.Lists.{length}
use near_escrow.Shared.Outcome.{ok}
use near_escrow.Text.Bytes.{Text}
use near_escrow.Text.Hex.{
  hex_digit, hex_encode, digit_value, byte_of_pair, starts_char, decode_pairs, is_even,
  hex_decode_safe, hex_decode,
}

-- Every entry is a byte.
abbrev pub AreBytes : Text → Type 0
AreBytes [] = Unit
AreBytes (b ∷ bytes) = (b < 256) × AreBytes bytes

digit_value-hex_digit : (d : ℕ) → d < 16 → digit_value (hex_digit d) ≡ some d
unfolding digit_value hex_digit
digit_value-hex_digit d h = ground arith

hex_digit-ne-plus : (d : ℕ) → d < 16 → nat_eq (hex_digit d) b'+' ≡ false
unfolding hex_digit
hex_digit-ne-plus d h = ground arith

hex_digit-lt : (d : ℕ) → d < 16 → hex_digit d < 128
unfolding hex_digit
hex_digit-lt d h = ground arith

byte_of_pair-hex_digit :
    (b : ℕ) → b < 256 → byte_of_pair (hex_digit (b / 16)) (hex_digit (b % 16)) ≡ some b
unfolding byte_of_pair
byte_of_pair-hex_digit b h = ground (
  arith,
  hex_digit-ne-plus (b / 16),
  digit_value-hex_digit (b / 16) (omega arith),
  digit_value-hex_digit (b % 16) (omega arith),
)

pub length-hex_encode : (bytes : Text) → length (hex_encode bytes) ≡ 2 * length bytes
unfolding hex_encode
length-hex_encode [] = refl
length-hex_encode (b ∷ bytes) = omega (arith, length-hex_encode bytes)

is_even-hex_encode : (bytes : Text) → is_even (hex_encode bytes) ≡ true
unfolding is_even hex_encode
is_even-hex_encode [] = refl
is_even-hex_encode (b ∷ bytes) = is_even-hex_encode bytes

starts_char-hex_encode : (bytes : Text) → AreBytes bytes → starts_char (hex_encode bytes) ≡ true
unfolding starts_char hex_encode
starts_char-hex_encode [] h = refl
starts_char-hex_encode (b ∷ bytes) h = ground (arith, hex_digit-lt (b / 16) (omega arith))

decode_pairs-hex_encode :
    (bytes : Text) → AreBytes bytes → decode_pairs (hex_encode bytes) ≡ ok (some bytes)
unfolding decode_pairs hex_encode
decode_pairs-hex_encode [] h = refl
decode_pairs-hex_encode (b ∷ bytes) h =
    rw (starts_char-hex_encode bytes h.1, byte_of_pair-hex_digit b h.0)
      (rw (decode_pairs-hex_encode bytes h.1))

-- For a list of bytes, the decoder returns exactly the bytes that were encoded, without a panic.
pub hex_decode_safe-hex_encode :
    (bytes : Text) → AreBytes bytes → hex_decode_safe (hex_encode bytes) ≡ ok (some bytes)
unfolding hex_decode_safe
hex_decode_safe-hex_encode bytes h = rw (is_even-hex_encode bytes) (decode_pairs-hex_encode bytes h)

-- Decoding what was encoded gives the bytes back.
pub hex_decode-hex_encode :
    (bytes : Text) → AreBytes bytes → hex_decode (hex_encode bytes) ≡ some bytes
unfolding hex_decode
hex_decode-hex_encode bytes h = rw (hex_decode_safe-hex_encode bytes h, hex_decode)
