-- ===== src/Shared/Maps/Distinct.antt =====
-- Maps in which no key stands twice, as in every map that the operations build.
use near_escrow.Shared.Tests.{◌≡◌, refl, none, [], ◌∷◌, arith}
use near_escrow.Text.Bytes.{Text, ==_iff}
use near_escrow.Shared.Maps.{Map, lookup, insert, remove, lookup-insert, lookup-remove}

module _ {ℓ} {V : Type ℓ} where
  abbrev pub Distinct : Map V → Type ℓ
  Distinct [] = Unit
  Distinct ((k, _) ∷ m) = (lookup k m ≡ none) × Distinct m

  pub Distinct-insert : (k : Text) (v : V) (m : Map V) → Distinct m → Distinct (insert k v m)
  unfolding insert lookup
  Distinct-insert k v [] d = (refl, tt)
  Distinct-insert k v ((j, w) ∷ m) d =
      ground (arith, Distinct-insert k v m d.1, lookup-insert k j v m, ==_iff j k, ==_iff k j)

  pub Distinct-remove : (k : Text) (m : Map V) → Distinct m → Distinct (remove k m)
  unfolding remove
  Distinct-remove k [] d = tt
  Distinct-remove k ((j, w) ∷ m) d = ground (arith, Distinct-remove k m d.1, lookup-remove k j m)
