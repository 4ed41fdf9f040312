-- ===== src/Text/Bytes.antt =====
-- A Rust `String`, `AccountId` or byte vector as the list of its bytes.
use Prim.Native.Char.{code}
use Prim.Native.String.{String}
use near_escrow.Shared.Tests.{
  ℕ, ◌≡◌, refl, ◌↔◌, Bool, true, false, Option, none, some, List, [], ◌∷◌, arith, nat_eq,
  if◌then◌else◌,
}

abbrev pub Text : Type 0
Text = List ℕ

-- The bytes of an ASCII literal.
abbrev pub ascii : String → Text
ascii String.[] = []
ascii (String.◌∷◌ c s) = code c ∷ ascii s

infix 50 ◌==◌
unfoldable pub ◌==◌ : Text → Text → Bool
[] == [] = true
[] == (_ ∷ _) = false
(_ ∷ _) == [] = false
(a ∷ s) == (b ∷ t) = if nat_eq a b then s == t else false

-- The part of `s` behind the prefix, if `s` starts with it.
unfoldable pub strip_prefix : Text → Text → Option Text
strip_prefix [] s = some s
strip_prefix (_ ∷ _) [] = none
strip_prefix (c ∷ p) (d ∷ s) = if nat_eq c d then strip_prefix p s else none

pub ==→eq : (s t : Text) → (s == t) ≡ true → s ≡ t
unfolding ◌==◌
==→eq [] [] h = refl
==→eq [] (_ ∷ _) h = cc
==→eq (_ ∷ _) [] h = cc
==→eq (a ∷ s) (b ∷ t) h = ground (arith, ==→eq s t)

pub ==_refl : (s : Text) → (s == s) ≡ true
unfolding ◌==◌
==_refl [] = refl
==_refl (a ∷ s) = ground (arith, ==_refl s)

pub ==_iff : (s t : Text) → ((s == t) ≡ true) ↔ (s ≡ t)
==_iff s t = (==→eq s t, λ e. rw e (==_refl t))
