-- ===== src/Verifier/Nostr/ReadBack.antt =====
-- The numerals that the tags hold, as `to_string` writes and `str::parse` reads them.
use near_escrow.Shared.Tests.{
  ℕ, zero, suc, ◌+◌, ◌-◌, ◌*◌, ◌/◌, ◌%◌, ◌^◌, ◌<◌, ◌≡◌, ◌∙◌, ap, refl, false, some, [], ◌∷◌, ◌++◌,
  arith, tests, inl, inr, Bool-cases, ltb,
}
use native.Mathlib.Nat.{pow-suc}
use near_escrow.Shared.Lists.{is_empty}
use near_escrow.Text.Bytes.{Text}
use near_escrow.Text.Decimal.{digits, decimal}
use near_escrow.Verifier.Nostr.{parse_digits, parse_unsigned}

parse_digits-append :
    (bound acc v : ℕ) (s t : Text)
    → parse_digits bound acc s ≡ some v
    → parse_digits bound acc (s ++ t) ≡ parse_digits bound v t
unfolding parse_digits
parse_digits-append bound acc v [] t h = ground (arith, h)
parse_digits-append bound acc v (c ∷ s) t h =
    ground (arith, parse_digits-append bound (acc * 10 + (c - b'0')) v s t)

parse_digits-one :
    (bound acc d : ℕ)
    → d < 10
    → acc * 10 + d < bound
    → parse_digits bound acc ((b'0' + d) ∷ []) ≡ some (acc * 10 + d)
unfolding parse_digits
parse_digits-one bound acc d small below = ground arith

parse_digits-digits :
    (bound fuel n : ℕ) → n < 10 ^ fuel → n < bound → parse_digits bound 0 (digits fuel n) ≡ some n
unfolding parse_digits digits
parse_digits-digits bound zero n h below = ap some (omega arith)
parse_digits-digits bound (suc fuel) n h below = elim (Bool-cases (ltb n 10)) [
  | inl small ↦
      rw small
        (parse_digits-one bound 0 n (ground (arith, small)) (omega arith) ∙ ap some (omega arith))
  | inr large ↦
      let front =
        parse_digits-digits bound fuel (n / 10) (omega (tests, pow-suc 10 fuel)) (omega arith) in
      let last = parse_digits-one bound (n / 10) (n % 10) (omega arith) (omega arith) in
      rw
        (
          large,
          parse_digits-append bound 0 (n / 10) (digits fuel (n / 10)) ((b'0' + n % 10) ∷ []) front,
        )
        (last ∙ ap some (omega arith))
]

-- A text that parses digit by digit has no sign, so `str::parse` reads it so.
parse_unsigned-digits :
    (bound n : ℕ) (s : Text)
    → is_empty s ≡ false
    → parse_digits bound 0 s ≡ some n
    → parse_unsigned bound s ≡ some n
unfolding parse_unsigned parse_digits
parse_unsigned-digits bound n [] some_text h = ground arith
parse_unsigned-digits bound n (c ∷ []) some_text h = ground arith
parse_unsigned-digits bound n (c ∷ d ∷ s) some_text h = ground arith

is_empty-append : (s : Text) (c : ℕ) → is_empty (s ++ c ∷ []) ≡ false
is_empty-append [] c = refl
is_empty-append (_ ∷ _) c = refl

digits-not_empty : (fuel n : ℕ) → is_empty (digits (suc fuel) n) ≡ false
unfolding digits
digits-not_empty fuel n = elim (Bool-cases (ltb n 10)) [
  | inl small ↦ rw small refl
  | inr large ↦ rw large (is_empty-append (digits fuel (n / 10)) (b'0' + n % 10))
]

decimal-not_empty : (n : ℕ) → is_empty (decimal n) ≡ false
unfolding decimal
decimal-not_empty n = digits-not_empty 39 n

-- A number below the bound, and below 10 ^ 40, is read back from its decimal notation.
pub parse_unsigned-decimal :
    (bound n : ℕ) → n < 10 ^ 40 → n < bound → parse_unsigned bound (decimal n) ≡ some n
unfolding decimal
parse_unsigned-decimal bound n h below =
    parse_unsigned-digits bound n (decimal n) (decimal-not_empty n)
      (parse_digits-digits bound 40 n h below)
