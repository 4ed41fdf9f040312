-- ===== src/Verifier/Base58.antt =====
-- `bs58_encode` of verifier-service/src/submitter.rs: base 58 by repeated division of the bytes.
pub mod Value
use near_escrow.Shared.Tests.{
  ℕ, zero, suc, ◌+◌, ◌*◌, ◌/◌, ◌%◌, Bool, true, false, ◌&&◌, Option, none, some, List, [], ◌∷◌,
  ◌++◌, map, nat_eq, if◌then◌else◌, unwrap_or,
}
use mathlib.Core.List.{reverse}
use near_escrow.Shared.Lists.{get_elem?}
use near_escrow.Text.Bytes.{Text, ascii}

abbrev pub alphabet : Text
alphabet = ascii "123456789ABCDEFGHJKLMNPQRSTUVWXYZabcdefghijkmnopqrstuvwxyz"

unfoldable pub all_zero : Text → Bool
all_zero [] = true
all_zero (b ∷ bytes) = nat_eq b 0 && all_zero bytes

-- The inner loop: one division of the bytes by 58, with the remainder so far. The quotient of a
-- byte is cut to a byte.
unfoldable pub divide : ℕ → Text → Text × ℕ
divide carry [] = ([], carry)
divide carry (b ∷ bytes) =
    let val = carry * 256 + b in
    let (later, last) = divide (val % 58) bytes in ((val / 58) % 256 ∷ later, last)

-- The outer loop: the remainders in the order in which they are pushed. `none` is a lack of fuel.
unfoldable pub remainders : ℕ → Text → Option (List ℕ)
remainders zero bytes = if all_zero bytes then some [] else none
remainders (suc fuel) bytes =
    let (quotient, r) = divide 0 bytes in
    let rest = remainders fuel quotient in
    if all_zero bytes then some [] else elim rest [ none ↦ none | some rs ↦ some (r ∷ rs) ]

abbrev pub digit_char : ℕ → ℕ
digit_char d = unwrap_or (get_elem? alphabet d) 0

-- A `1` for each leading zero.
unfoldable pub leading_ones : Text → Text
leading_ones [] = []
leading_ones (b ∷ bytes) = if nat_eq b 0 then b'1' ∷ leading_ones bytes else []

-- Two rounds for a byte, since 58 * 58 is more than 256.
unfoldable pub rounds : Text → ℕ
rounds [] = 0
rounds (_ ∷ bytes) = suc (suc (rounds bytes))

unfoldable pub bs58_encode : Text → Option Text
bs58_encode bytes = elim (remainders (rounds bytes) bytes) [
  | none ↦ none
  | some rs ↦ some (reverse (map digit_char rs ++ leading_ones bytes))
]
