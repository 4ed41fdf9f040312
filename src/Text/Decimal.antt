-- ===== src/Text/Decimal.antt =====
-- Decimal notation, `{}` of an unsigned integer, and the joining of texts by `:` that every
-- signed message of the contract uses.
use near_escrow.Shared.Tests.{
  ℕ, zero, suc, ◌+◌, ◌-◌, ◌*◌, ◌/◌, ◌%◌, ◌^◌, ◌<◌, ◌≡◌, refl, ap, sym, ◌∙◌, [], ◌∷◌, ◌++◌, arith,
  tests, inl, inr, Bool-cases, ltb, if◌then◌else◌,
}
use native.Mathlib.Nat.{pow-suc}
use near_escrow.Text.Bytes.{Text}

-- The digits of a number, the last one printed last. Forty digits hold every `u128`.
unfoldable pub digits : ℕ → ℕ → Text
digits zero n = []
digits (suc fuel) n =
    let front = digits fuel (n / 10) in
    if ltb n 10 then (b'0' + n) ∷ [] else front ++ (b'0' + n % 10) ∷ []

unfoldable pub decimal : ℕ → Text
unfolding digits
decimal = digits 40

-- `format!("{}:{}", s, t)`
unfoldable pub join : Text → Text → Text
join s t = s ++ b':' ∷ t

value_from : ℕ → Text → ℕ
value_from acc [] = acc
value_from acc (c ∷ s) = value_from (acc * 10 + (c - b'0')) s

value_from-append :
    (acc : ℕ) (s t : Text) → value_from acc (s ++ t) ≡ value_from (value_from acc s) t
unfolding value_from
value_from-append acc [] t = refl
value_from-append acc (c ∷ s) t = value_from-append (acc * 10 + (c - b'0')) s t

value-digits : (fuel n : ℕ) → n < 10 ^ fuel → value_from 0 (digits fuel n) ≡ n
unfolding value_from digits
value-digits zero n h = omega arith
value-digits (suc fuel) n h = elim (Bool-cases (ltb n 10)) [
  | inl small ↦ rw small (omega arith)
  | inr large ↦
      rw (large, value_from-append 0 (digits fuel (n / 10)) ((b'0' + n % 10) ∷ []))
        (rw (value-digits fuel (n / 10) (omega (tests, pow-suc 10 fuel))) (omega arith))
]

-- Numbers below 2 ^ 128 that print alike are equal.
pub decimal_injective : (m n : ℕ) → m < 10 ^ 40 → n < 10 ^ 40 → decimal m ≡ decimal n → m ≡ n
unfolding decimal
decimal_injective m n hm hn e =
    sym (value-digits 40 m hm) ∙ ap (value_from 0) e ∙ value-digits 40 n hn

append_cancel : (s t u : Text) → s ++ t ≡ s ++ u → t ≡ u
append_cancel [] t u e = e
append_cancel (c ∷ s) t u e = append_cancel s t u (cc)

-- Where a text joined with two numbers below 10 ^ 40 gives the same text, the numbers are equal.
pub join-decimal_injective :
    (s : Text) (m n : ℕ)
    → m < 10 ^ 40
    → n < 10 ^ 40
    → join s (decimal m) ≡ join s (decimal n)
    → m ≡ n
unfolding join
join-decimal_injective s m n hm hn e = decimal_injective m n hm hn (
    append_cancel (b':' ∷ []) (decimal m) (decimal n)
      (append_cancel s (b':' ∷ decimal m) (b':' ∷ decimal n) e))
