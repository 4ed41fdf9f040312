-- ===== src/Escrow/Balances/Ledger.antt =====
-- The internal balances as an abstract ledger: a number for each account, without keys and
-- without an order of entries.
use near_escrow.Shared.Tests.{
  ℕ, ◌-◌, ◌≡◌, inl, inr, Bool, Option, none, some, List, [], ◌∷◌, Bool-cases, leb, u128_mod,
  saturating_add, if◌then◌else◌,
}
use near_escrow.Shared.Maps.{Map, insert, lookup-insert}
use near_escrow.Shared.Outcome.{ok, panic, ◌>>=◌}
use near_escrow.Text.Bytes.{Text}
use near_escrow.Escrow.Host.{Tx}
use near_escrow.Escrow.Balances.{balance_key, credit_balance, debit_balance}
use near_escrow.Escrow.Balances.Accounts.{IsKey, holding, same_account, key-same_account}

-- A worker's account in one token, with a key of 64 bytes.
pub record Account : Type 0 where
  pub worker : Text
  pub token : Text
  pub sized : IsKey worker

pub data Posting : Type 0 where
  credit debit : (account : Account) (amount : ℕ) → Posting

-- The postings on the contract's map, up to the first that panics.
unfoldable pub post : Posting → Map ℕ → Tx (Map ℕ)
post (credit a amount) m = ok (credit_balance m a.worker a.token amount)
post (debit a amount) m = debit_balance m a.worker a.token amount

unfoldable pub post_all : List Posting → Map ℕ → Tx (Map ℕ)
post_all [] m = ok m
post_all (p ∷ rest) m = post p m >>= post_all rest

abbrev pub Ledger : Type 0
Ledger = Account → ℕ

abbrev pub is_account : Account → Account → Bool
is_account a b = same_account a.worker a.token b.worker b.token

-- One account of the ledger set to a number.
abbrev pub write : Account → ℕ → Ledger → Ledger
write a n l b = if is_account a b then n else l b

-- The same postings on the ledger: a credit saturates, a debit must be covered.
unfoldable pub enter : Posting → Ledger → Option Ledger
enter (credit a amount) l = some (write a (saturating_add u128_mod (l a) amount) l)
enter (debit a amount) l = if leb amount (l a) then some (write a (l a - amount) l) else none

unfoldable pub enter_all : List Posting → Ledger → Option Ledger
enter_all [] l = some l
enter_all (p ∷ rest) l = elim (enter p l) [ none ↦ none | some l' ↦ enter_all rest l' ]

-- The map holds for every account what the ledger says.
abbrev pub Represents : Map ℕ → Ledger → Type 0
Represents m l = (a : Account) → holding m a.worker a.token ≡ l a

-- Both go through, with the map representing the ledger, or both are refused.
abbrev pub Agree : Tx (Map ℕ) → Option Ledger → Type 0
Agree (ok m) (some l) = Represents m l
Agree (panic _) none = Unit
Agree _ _ = ⊥

write-Represents :
    (m : Map ℕ) (l : Ledger) (a : Account) (n : ℕ)
    → Represents m l
    → Represents (insert (balance_key a.worker a.token) n m) (write a n l)
unfolding holding
write-Represents m l a n r b =
    rw (lookup-insert, key-same_account a.worker a.token b.worker b.token a.sized b.sized)
      (elim (Bool-cases (is_account a b)) [ inl same ↦ rw same | inr other ↦ rw other (r b) ])

post-Agree : (p : Posting) (m : Map ℕ) (l : Ledger) → Represents m l → Agree (post p m) (enter p l)
unfolding post enter credit_balance debit_balance holding
post-Agree (credit a amount) m l r =
    rw (← r a)
      (write-Represents m l a (saturating_add u128_mod (holding m a.worker a.token) amount) r)
post-Agree (debit a amount) m l r = elim (Bool-cases (leb amount (holding m a.worker a.token))) [
  | inl covered ↦
      rw (← r a, covered) (write-Represents m l a (holding m a.worker a.token - amount) r)
  | inr short ↦ rw (← r a, short) tt
]

-- Where both agree, what follows on both sides agrees.
Agree-follow :
    (o : Tx (Map ℕ)) (o' : Option Ledger) (f : Map ℕ → Tx (Map ℕ)) (g : Ledger → Option Ledger)
    → Agree o o'
    → ((m : Map ℕ) (l : Ledger) → Represents m l → Agree (f m) (g l))
    → Agree (o >>= f) (elim o' [ none ↦ none | some l ↦ g l ])
Agree-follow (ok m) (some l) f g r next = next m l r
Agree-follow (panic e) none f g r next = tt
Agree-follow (ok m) none f g r next = absurd r
Agree-follow (panic e) (some l) f g r next = absurd r

-- Any sequence of credits and debits, of accounts whose worker keys have 64 bytes, does on the
-- contract's map what it does on the ledger that the map represents: it is refused where the ledger refuses it, and else leaves a map that
-- represents the resulting ledger.
pub post_all-Agree :
    (postings : List Posting) (m : Map ℕ) (l : Ledger)
    → Represents m l
    → Agree (post_all postings m) (enter_all postings l)
unfolding post_all enter_all
post_all-Agree [] m l r = r
post_all-Agree (p ∷ rest) m l r =
    Agree-follow (post p m) (enter p l) (post_all rest) (enter_all rest) (post-Agree p m l r)
      (post_all-Agree rest)
