-- ===== src/Escrow/Balances/Accounts.antt =====
-- The balances as accounts of one worker and one token, under credits and debits.
use near_escrow.Shared.Tests.{
  ℕ, ◌+◌, ◌-◌, ◌≤◌, ◌<◌, ◌≡◌, refl, ◌≢◌, inl, inr, Bool, [], ◌∷◌, arith, Bool-cases, leb, u128_mod,
  false, unwrap_or, lt→ltb, ◌&&◌, if◌then◌else◌,
}
use near_escrow.Shared.Lists.{length}
use near_escrow.Shared.Maps.{Map, lookup, insert, lookup-insert}
use near_escrow.Shared.Outcome.{ok, panic}
use near_escrow.Text.Bytes.{Text, ◌==◌, ==_iff, ==_refl}
use near_escrow.Text.Decimal.{join}
use near_escrow.Escrow.Host.{Panic}
use near_escrow.Escrow.Balances.{balance_key, credit_balance, debit_balance}

-- What a worker holds of a token; a missing entry is zero.
unfoldable pub holding : Map ℕ → Text → Text → ℕ
holding balances worker_pubkey token =
    unwrap_or (lookup (balance_key worker_pubkey token) balances) 0

-- A worker's key, as `register_worker` takes it: 64 bytes.
abbrev pub IsKey : Text → Type 0
IsKey w = length w ≡ 64

join_split : (s s' t t' : Text) → length s ≡ length s' → join s t ≡ join s' t' → (s ≡ s') × (t ≡ t')
unfolding join
join_split [] [] t t' h e = (refl, cc)
join_split [] (c ∷ s') t t' h e = absurd (omega arith)
join_split (c ∷ s) [] t t' h e = absurd (omega arith)
join_split (c ∷ s) (c' ∷ s') t t' h e =
    let (p, q) = join_split s s' t t' (omega arith) (cc) in (cc, q)

-- Two balances share a key only if they are of one worker and one token.
pub balance_key_injective :
    (w w' t t' : Text)
    → IsKey w
    → IsKey w'
    → balance_key w t ≡ balance_key w' t'
    → (w ≡ w') × (t ≡ t')
unfolding balance_key
balance_key_injective w w' t t' h h' e = join_split w w' t t' (omega arith) e

-- Of one worker, whatever the key, two balances share a key only if they are of one token.
pub key-same_token : (w t t' : Text) → t ≢ t' → (balance_key w t == balance_key w t') ≡ false
unfolding balance_key
key-same_token w t t' other = elim (Bool-cases (balance_key w t == balance_key w t')) [
  | inl e ↦ absurd (other (join_split w w t t' refl ((==_iff _ _).0 e)).1)
  | inr e ↦ e
]

-- The Boolean test that two accounts are one.
abbrev pub same_account : Text → Text → Text → Text → Bool
same_account w t w' t' = (w == w') && (t == t')

pub key-same_account :
    (w t w' t' : Text)
    → IsKey w
    → IsKey w'
    → (balance_key w t == balance_key w' t') ≡ same_account w t w' t'
key-same_account w t w' t' h h' = elim (Bool-cases (balance_key w t == balance_key w' t')) [
  | inl e ↦ rw (
    e,
    (==_iff w w').1 (balance_key_injective w w' t t' h h' ((==_iff _ _).0 e)).0,
    (==_iff t t').1 (balance_key_injective w w' t t' h h' ((==_iff _ _).0 e)).1,
  )
  | inr e ↦ elim (Bool-cases (same_account w t w' t')) [
    | inl both ↦ ground (arith, ==_iff w w', ==_iff t t', ==_refl (balance_key w t))
    | inr differ ↦ rw (e, differ)
  ]
]

-- With worker keys of 64 bytes, a credit that stays below 2 ^ 128 adds its amount to its
-- account, and leaves what every other account holds as it was.
pub holding-credit_balance :
    (balances : Map ℕ) (w t w' t' : Text) (amount : ℕ)
    → IsKey w
    → IsKey w'
    → holding balances w t + amount < u128_mod
    → holding (credit_balance balances w t amount) w' t'
      ≡ (if same_account w t w' t' then holding balances w t + amount else holding balances w' t')
unfolding holding credit_balance
holding-credit_balance balances w t w' t' amount h h' fits =
    rw (lookup-insert, key-same_account w t w' t' h h', lt→ltb _ _ fits)
      (elim (Bool-cases (same_account w t w' t')) [ inl e ↦ rw e | inr e ↦ rw e ])

-- With worker keys of 64 bytes, a debit that goes through was covered; it takes its amount
-- from its account, and leaves what every other account holds as it was.
pub holding-debit_balance :
    (balances : Map ℕ) (w t w' t' : Text) (amount : ℕ) {after : Map ℕ}
    → IsKey w
    → IsKey w'
    → debit_balance balances w t amount ≡ ok after
    → (amount ≤ holding balances w t)
      × (holding after w' t' ≡ (
          if same_account w t w' t' then holding balances w t - amount else holding balances w' t'))
unfolding holding debit_balance
holding-debit_balance balances w t w' t' amount h h' e = ground (
  arith,
  lookup-insert (balance_key w t) (balance_key w' t') (holding balances w t - amount) balances,
  key-same_account w t w' t' h h',
)

-- A debit panics exactly when the account does not cover it.
pub debit_balance-panic :
    (balances : Map ℕ) (w t : Text) (amount : ℕ)
    → debit_balance balances w t amount ≡ (
        if leb amount (holding balances w t)
        then ok (insert (balance_key w t) (holding balances w t - amount) balances)
        else panic Panic.insufficient_balance)
unfolding holding debit_balance
debit_balance-panic balances w t amount = ground arith

-- The sum of all internal balances.
abbrev pub deposits : Map ℕ → ℕ
deposits [] = 0
deposits ((_, v) ∷ m) = v + deposits m

pub deposits-insert :
    (k : Text) (v : ℕ) (m : Map ℕ)
    → deposits (insert k v m) + unwrap_or (lookup k m) 0 ≡ deposits m + v
unfolding insert lookup
deposits-insert k v [] = omega arith
deposits-insert k v ((j, w) ∷ m) = ground (arith, deposits-insert k v m)

-- A debit followed by a credit of the same amount, as on a repeated submission, restores the
-- holdings of every account.
pub debit-credit_restores :
    (balances : Map ℕ) (w t w' t' : Text) (amount : ℕ) {after : Map ℕ}
    → IsKey w
    → IsKey w'
    → holding balances w t < u128_mod
    → debit_balance balances w t amount ≡ ok after
    → holding (credit_balance after w t amount) w' t' ≡ holding balances w' t'
debit-credit_restores balances w t w' t' amount {after} h h' fits e =
    let own = holding-debit_balance balances w t w t amount h h e in
    let other = holding-debit_balance balances w t w' t' amount h h' e in
    ground (
      arith,
      own,
      other,
      ==_refl w,
      ==_refl t,
      ==_iff w w',
      ==_iff t t',
      holding-credit_balance after w t w' t' amount h h',
    )
