-- ===== src/Verifier/Base58/Value.antt =====
-- `bs58_encode` against the numbers that its input and its output stand for.
use near_escrow.Shared.Tests.{
  ℕ, zero, suc, ◌+◌, ◌*◌, ◌/◌, ◌%◌, ◌^◌, ◌<◌, ◌≤◌, ◌≡◌, refl, ap, ◌∙◌, sym, inl, inr, Bool, true,
  ◌&&◌, some, List, [], ◌∷◌, ◌++◌, map, arith, nat_eq, Bool-cases, if◌then◌else◌, unwrap_or,
}
use mathlib.Core.List.{reverse, reverse-append}
use native.Mathlib.Nat.{pow-suc, mul-le-mul_right}
use near_escrow.Shared.Lists.{length, get_elem?}
use near_escrow.Text.Bytes.{Text}
use near_escrow.Text.Hex.RoundTrip.{AreBytes}
use near_escrow.Verifier.Base58.{
  alphabet, all_zero, divide, remainders, digit_char, leading_ones, rounds, bs58_encode,
}

-- The number that bytes stand for, the highest first, behind a number read before them.
unfoldable pub bytes_value : ℕ → Text → ℕ
bytes_value acc [] = acc
bytes_value acc (b ∷ bytes) = bytes_value (acc * 256 + b) bytes

-- The place of a character in the alphabet.
unfoldable pub position : ℕ → Text → ℕ
position c [] = 0
position c (d ∷ rest) = if nat_eq c d then 0 else suc (position c rest)

abbrev pub digit_of : ℕ → ℕ
digit_of c = position c alphabet

-- The number that a base 58 text stands for, read from the left.
unfoldable pub base58_value : ℕ → Text → ℕ
base58_value acc [] = acc
base58_value acc (c ∷ s) = base58_value (acc * 58 + digit_of c) s

-- One division: quotient and remainder of the number that the bytes stand for.
divide_lem :
    (acc carry : ℕ) (bytes : Text)
    → carry < 58
    → AreBytes bytes
    → (bytes_value acc (divide carry bytes).0 * 58 + (divide carry bytes).1
        ≡ bytes_value (acc * 58 + carry) bytes)
      × ((divide carry bytes).1 < 58)
      × AreBytes (divide carry bytes).0
unfolding divide bytes_value
divide_lem acc carry [] small bs = (refl, small, tt)
divide_lem acc carry (b ∷ bytes) small bs =
    let val = carry * 256 + b in
    let q = (val / 58) % 256 in
    let (value, below, fine) = divide_lem (acc * 256 + q) (val % 58) bytes (omega arith) bs.1 in
    let same : (acc * 256 + q) * 58 + val % 58 ≡ (acc * 58 + carry) * 256 + b =
      omega (arith, bs.0) in
    (value ∙ ap (λ n. bytes_value n bytes) same, below, (omega arith, fine))

bytes_value-le : (acc : ℕ) (bytes : Text) → acc ≤ bytes_value acc bytes
unfolding bytes_value
bytes_value-le acc [] = omega arith
bytes_value-le acc (b ∷ bytes) = omega (arith, bytes_value-le (acc * 256 + b) bytes)

-- A number below 1 is that of zeros alone.
all_zero-bytes_value : (bytes : Text) → bytes_value 0 bytes < 1 → all_zero bytes ≡ true
unfolding bytes_value all_zero
all_zero-bytes_value [] h = refl
all_zero-bytes_value (zero ∷ bytes) h = all_zero-bytes_value bytes h
all_zero-bytes_value (suc b ∷ bytes) h =
    absurd (omega (arith, bytes_value-le (0 * 256 + suc b) bytes))

bytes_value-all_zero : (bytes : Text) → all_zero bytes ≡ true → bytes_value 0 bytes ≡ 0
unfolding bytes_value all_zero
bytes_value-all_zero [] h = refl
bytes_value-all_zero (zero ∷ bytes) h = bytes_value-all_zero bytes h
bytes_value-all_zero (suc b ∷ bytes) h = ground arith

-- Two rounds cover a byte.
bytes_value-lt :
    (acc : ℕ) (bytes : Text)
    → AreBytes bytes
    → bytes_value acc bytes < (acc + 1) * 58 ^ rounds bytes
unfolding bytes_value rounds
bytes_value-lt acc [] h = omega arith
bytes_value-lt acc (b ∷ bytes) h =
    let p = 58 ^ rounds bytes in
    let square : 58 ^ suc (suc (rounds bytes)) ≡ 3364 * p =
      omega (arith, pow-suc 58 (suc (rounds bytes)), pow-suc 58 (rounds bytes)) in
    let wide : (acc * 256 + b + 1) * p ≤ ((acc + 1) * 3364) * p =
      mul-le-mul_right p (omega (arith, h.0)) in
    rw square (grind (arith, bytes_value-lt (acc * 256 + b) bytes h.1, wide))

-- The number that the remainders stand for, the lowest first.
abbrev low_value : List ℕ → ℕ
low_value [] = 0
low_value (r ∷ rs) = r + 58 * low_value rs

abbrev AreDigits : List ℕ → Type 0
AreDigits [] = Unit
AreDigits (r ∷ rs) = (r < 58) × AreDigits rs

-- With fuel for its number the outer loop ends, and its remainders stand for that number.
remainders_total :
    (fuel : ℕ) (bytes : Text)
    → AreBytes bytes
    → bytes_value 0 bytes < 58 ^ fuel
    → (rs : List ℕ) × (remainders fuel bytes ≡ some rs)
      × (low_value rs ≡ bytes_value 0 bytes)
      × AreDigits rs
unfolding remainders
remainders_total zero bytes bs h =
    let zeros = all_zero-bytes_value bytes h in
    ([], rw zeros, sym (bytes_value-all_zero bytes zeros), tt)
remainders_total (suc fuel) bytes bs h = elim (Bool-cases (all_zero bytes)) [
  | inl zeros ↦ ([], rw zeros, sym (bytes_value-all_zero bytes zeros), tt)
  | inr more ↦
      let (value, below, fine) = divide_lem 0 0 bytes (omega arith) bs in
      let (rs, ends, sum, digits) =
        remainders_total fuel (divide 0 bytes).0 fine (omega (arith, value, h, pow-suc 58 fuel)) in
      ((divide 0 bytes).1 ∷ rs, rw (more, ends), omega (arith, value, sum), (below, digits))
]

base58_value-append :
    (acc : ℕ) (s t : Text) → base58_value acc (s ++ t) ≡ base58_value (base58_value acc s) t
unfolding base58_value
base58_value-append acc [] t = refl
base58_value-append acc (c ∷ s) t = base58_value-append (acc * 58 + digit_of c) s t

abbrev low_text : Text → ℕ
low_text [] = 0
low_text (c ∷ s) = digit_of c + 58 * low_text s

base58_value-reverse : (s : Text) → base58_value 0 (reverse s) ≡ low_text s
unfolding base58_value
base58_value-reverse [] = refl
base58_value-reverse (c ∷ s) = rw (reverse-append (c ∷ []) s) (
    rw (base58_value-append 0 (reverse s) (reverse (c ∷ [])))
      (omega (arith, base58_value-reverse s)))

low_text-leading_ones : (bytes : Text) → low_text (leading_ones bytes) ≡ 0
unfolding leading_ones position
low_text-leading_ones [] = refl
low_text-leading_ones (b ∷ bytes) = ground (arith, low_text-leading_ones bytes)

-- Every character of a text stands in the alphabet where it stands in the text, from place i on.
in_place : ℕ → Text → Bool
in_place i [] = true
in_place i (c ∷ rest) = nat_eq (digit_of c) i && in_place (i + 1) rest

in_place-alphabet : in_place 0 alphabet ≡ true
unfolding in_place position
in_place-alphabet = refl

digit_of-get_elem? :
    (i d : ℕ) (chars : Text)
    → in_place i chars ≡ true
    → d < length chars
    → digit_of (unwrap_or (get_elem? chars d) 0) ≡ i + d
unfolding in_place
digit_of-get_elem? i d [] placed inside = ground arith
digit_of-get_elem? i zero (c ∷ rest) placed inside = ground arith
digit_of-get_elem? i (suc d) (c ∷ rest) placed inside =
    let later = digit_of-get_elem? (i + 1) d rest (ground arith) (omega arith) in
    omega (arith, later)

digit_of-digit_char : (d : ℕ) → d < 58 → digit_of (digit_char d) ≡ d
digit_of-digit_char d h =
    let there = digit_of-get_elem? 0 d alphabet in_place-alphabet h in omega (arith, there)

low_text-digits :
    (rs : List ℕ) (t : Text)
    → AreDigits rs
    → low_text t ≡ 0
    → low_text (map digit_char rs ++ t) ≡ low_value rs
low_text-digits [] t ds h = h
low_text-digits (r ∷ rs) t ds h =
    omega (arith, low_text-digits rs t ds.1 h, digit_of-digit_char r ds.0)

bs58_encode-remainders :
    (bytes : Text) {rs : List ℕ}
    → remainders (rounds bytes) bytes ≡ some rs
    → bs58_encode bytes ≡ some (reverse (map digit_char rs ++ leading_ones bytes))
unfolding bs58_encode
bs58_encode-remainders bytes ends = rw (ends, bs58_encode)

-- The encoding of bytes ends within its rounds, and its text, read in base 58, stands for the
-- number that the bytes stand for.
pub bs58_encode-value :
    (bytes : Text)
    → AreBytes bytes
    → (text : Text) × (bs58_encode bytes ≡ some text) × (base58_value 0 text ≡ bytes_value 0 bytes)
bs58_encode-value bytes bs =
    let (rs, ends, sum, digits) =
      remainders_total (rounds bytes) bytes bs (omega (arith, bytes_value-lt 0 bytes bs)) in
    let text = map digit_char rs ++ leading_ones bytes in
    (
      reverse text,
      bs58_encode-remainders bytes ends,
      base58_value-reverse text
          ∙ low_text-digits rs (leading_ones bytes) digits (low_text-leading_ones bytes)
          ∙ sum,
    )
