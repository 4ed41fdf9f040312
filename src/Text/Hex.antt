-- ===== src/Text/Hex.antt =====
-- Hexadecimal notation: `hex_encode`, `hex_decode` and `hex_decode_safe` of src/lib.rs, with the
-- standard library's `u8::from_str_radix` on the two bytes that they hand it.
pub mod RoundTrip
use near_escrow.Shared.Tests.{
  ℕ, ◌+◌, ◌-◌, ◌*◌, ◌/◌, ◌%◌, Bool, true, false, ◌&&◌, not, Option, none, some, List, [], ◌∷◌, ltb,
  leb, nat_eq, if◌then◌else◌,
}
use near_escrow.Shared.Outcome.{Outcome, ok, panic, assert, ◌>>=◌, ◌>>◌}
use near_escrow.Text.Bytes.{Text}

-- One lower-case digit, as `{:02x}` prints it.
hex_digit : ℕ → ℕ
hex_digit d = if ltb d 10 then b'0' + d else b'a' + (d - 10)

unfoldable pub hex_encode : Text → Text
unfolding hex_digit
hex_encode [] = []
hex_encode (b ∷ bytes) = hex_digit (b / 16) ∷ hex_digit (b % 16) ∷ hex_encode bytes

-- `char::to_digit(16)`: both cases are read.
digit_value : ℕ → Option ℕ
digit_value c =
    if leb b'0' c && leb c b'9'
    then some (c - b'0')
    else if leb b'a' c && leb c b'f'
    then some (c - b'a' + 10)
    else if leb b'A' c && leb c b'F'
    then some (c - b'A' + 10)
    else none

-- `u8::from_str_radix(s, 16)` on a text of two bytes: a leading `+` is skipped.
unfoldable pub byte_of_pair : ℕ → ℕ → Option ℕ
unfolding digit_value
byte_of_pair a b = if nat_eq a b'+' then digit_value b else elim (digit_value a) [
  | none ↦ none
  | some hi ↦ elim (digit_value b) [ none ↦ none | some lo ↦ some (hi * 16 + lo) ]
]

pub data SliceError : Type 0 where
  -- `hex[i..i + 2]` ends inside a multi-byte character.
  char_boundary : SliceError

-- A position is a character boundary if no continuation byte follows it.
unfoldable pub starts_char : Text → Bool
starts_char [] = true
starts_char (b ∷ _) = not (leb 128 b && ltb b 192)

push_byte : ℕ → Option Text → Option Text
push_byte b none = none
push_byte b (some bytes) = some (b ∷ bytes)

-- The loop of `hex_decode_safe`; a text of odd length is refused before the first slice.
decode_pairs : Text → Outcome SliceError (Option Text)
unfolding starts_char byte_of_pair push_byte
decode_pairs [] = ok (some [])
decode_pairs (_ ∷ []) = ok none
decode_pairs (a ∷ b ∷ rest) =
    let later = decode_pairs rest in
    do
      assert (starts_char rest) char_boundary
      elim (byte_of_pair a b) [
        | none ↦ ok none
        | some byte ↦ elim later [ ok bytes ↦ ok (push_byte byte bytes) | panic e ↦ panic e ]
      ]

is_even : Text → Bool
is_even [] = true
is_even (_ ∷ []) = false
is_even (_ ∷ _ ∷ rest) = is_even rest

-- `none` on a text that is no hexadecimal; it still panics where a slice cuts a character.
unfoldable pub hex_decode_safe : Text → Outcome SliceError (Option Text)
unfolding decode_pairs is_even
hex_decode_safe hex = if is_even hex then decode_pairs hex else ok none

-- `hex_decode` reads the same pairs and panics on each failure.
unfoldable pub hex_decode : Text → Option Text
unfolding hex_decode_safe
hex_decode hex = elim (hex_decode_safe hex) [ ok decoded ↦ decoded | panic _ ↦ none ]
