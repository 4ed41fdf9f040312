-- ===== src/Shared/Outcome.antt =====
-- The result of a call. A panic aborts the receipt: the runtime then drops every change of state
-- and every scheduled promise, so no state comes back with it.
use near_escrow.Shared.Tests.{◌⊎◌, inl, inr, ◌≡◌, refl, Bool, true, false, Option, none, some}

pub data Outcome {ℓ κ} (P : Type κ) (A : Type ℓ) : Type (ℓ ⊔ κ) where
  ok : A → Outcome P A
  panic : P → Outcome P A

infixl 5 ◌>>=◌ ◌>>◌
abbrev pub ◌>>=◌ {ℓ κ μ} :
    {P : Type κ} {A : Type ℓ} {B : Type μ} → Outcome P A → (A → Outcome P B) → Outcome P B
ok a >>= f = f a
panic e >>= f = panic e

abbrev pub ◌>>◌ {ℓ κ} : {P : Type κ} {B : Type ℓ} → Outcome P (Unit {0}) → Outcome P B → Outcome P B
m >> k = m >>= λ _. k

module _ {κ} {P : Type κ} where
  -- `assert!(test, message)`
  abbrev pub assert : Bool → P → Outcome P (Unit {0})
  assert true _ = ok tt
  assert false e = panic e

  -- `option.expect(message)`
  abbrev pub expect {ℓ} : {A : Type ℓ} → Option A → P → Outcome P A
  expect none e = panic e
  expect (some a) _ = ok a

pub ok_injective {ℓ κ} :
    {P : Type κ} {A : Type ℓ} {a b : A} → ◌≡◌ {A = Outcome P A} (ok a) (ok b) → a ≡ b
ok_injective e = cc

pub Outcome-cases {ℓ κ} :
    {P : Type κ} {A : Type ℓ} (m : Outcome P A) → ((a : A) × (m ≡ ok a)) ⊎ ((e : P) × (m ≡ panic e))
Outcome-cases (ok a) = inl (a, refl)
Outcome-cases (panic e) = inr (e, refl)
