-- ===== src/Shared/Maps.antt =====
-- A key-value map keyed by texts, as an association list in order of insertion. The contract's
-- `UnorderedMap`s are such maps: `insert` overwrites, and a missing key reads as `none`. The
-- SDK's removal moves the last entry into the gap; here the others keep their order.
pub mod Distinct
use near_escrow.Shared.Tests.{
  ◌≡◌, refl, Bool, true, false, Option, none, some, List, [], ◌∷◌, arith, Bool-cases, inl, inr,
  if◌then◌else◌,
}
use near_escrow.Text.Bytes.{Text, ◌==◌, ==_iff, ==_refl}

abbrev pub Map {ℓ} : Type ℓ → Type ℓ
Map V = List (Text × V)

module _ {ℓ} {V : Type ℓ} where
  unfoldable pub lookup : Text → Map V → Option V
  lookup k [] = none
  lookup k ((j, v) ∷ m) = if j == k then some v else lookup k m

  unfoldable pub insert : Text → V → Map V → Map V
  insert k v [] = (k, v) ∷ []
  insert k v ((j, w) ∷ m) = if j == k then (k, v) ∷ m else (j, w) ∷ insert k v m

  unfoldable pub remove : Text → Map V → Map V
  remove k [] = []
  remove k ((j, w) ∷ m) = if j == k then remove k m else (j, w) ∷ remove k m

  abbrev pub contains_key : Text → Map V → Bool
  contains_key k m = elim (lookup k m) [ none ↦ false | some _ ↦ true ]

  pub lookup-insert :
      (stored asked : Text) (value : V) (rest : Map V)
      → lookup asked (insert stored value rest)
        ≡ (if stored == asked then some value else lookup asked rest)
  unfolding insert lookup
  lookup-insert stored asked value [] = refl
  lookup-insert stored asked value ((key, present) ∷ rest) = ground (
    arith,
    lookup-insert stored asked value rest,
    ==_iff key stored,
    ==_iff key asked,
    ==_iff stored asked,
  )

  pub lookup-insert_self : (k : Text) (v : V) (m : Map V) → lookup k (insert k v m) ≡ some v
  lookup-insert_self k v m = simp (lookup-insert, ==_refl)

  pub lookup-remove :
      (k j : Text) (m : Map V) → lookup j (remove k m) ≡ (if k == j then none else lookup j m)
  unfolding lookup remove
  lookup-remove k j [] = ground arith
  lookup-remove k j ((i, w) ∷ m) =
      ground (arith, ==_iff k j, ==_iff i k, ==_iff i j, lookup-remove k j m)

  -- A second store under a key replaces the first.
  pub insert-insert : (k : Text) (v w : V) (m : Map V) → insert k v (insert k w m) ≡ insert k v m
  unfolding insert
  insert-insert k v w [] = rw (==_refl k)
  insert-insert k v w ((j, u) ∷ m) = elim (Bool-cases (j == k)) [
    | inl same ↦ rw (same, ==_refl k)
    | inr other ↦ rw other (rw (other, insert-insert k v w m))
  ]
