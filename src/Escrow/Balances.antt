-- ===== src/Escrow/Balances.antt =====
-- The internal balances of the workers: `balance_key`, `credit_balance`, `debit_balance` and
-- `get_worker_balance`.
pub mod Accounts
pub mod Ledger
use near_escrow.Shared.Tests.{
  ℕ, ◌-◌, Option, none, some, List, leb, u128_mod, saturating_add, unwrap_or,
}
use near_escrow.Shared.Maps.{Map, lookup, insert}
use near_escrow.Shared.Outcome.{ok, assert, ◌>>=◌, ◌>>◌}
use near_escrow.Text.Bytes.{Text, ascii}
use near_escrow.Text.Decimal.{join}
use near_escrow.Escrow.Host.{Tx, Panic}

-- `NEAR_TOKEN_ID`
abbrev pub near_token_id : Text
near_token_id = ascii "near"

unfoldable pub balance_key : Text → Text → Text
unfolding join
balance_key worker_pubkey token = join worker_pubkey token

unfoldable pub credit_balance : Map ℕ → Text → Text → ℕ → Map ℕ
credit_balance balances worker_pubkey token amount =
    let key = balance_key worker_pubkey token in
    let current = unwrap_or (lookup key balances) 0 in
    insert key (saturating_add u128_mod current amount) balances

unfoldable pub debit_balance : Map ℕ → Text → Text → ℕ → Tx (Map ℕ)
debit_balance balances worker_pubkey token amount =
    let key = balance_key worker_pubkey token in
    let current = unwrap_or (lookup key balances) 0 in
    do
      assert (leb amount current) Panic.insufficient_balance
      ok (insert key (current - amount) balances)

-- `get_worker_balance`
unfoldable pub get_worker_balance : Map ℕ → Text → Option Text → ℕ
get_worker_balance balances worker_pubkey token =
    unwrap_or (lookup (balance_key worker_pubkey (unwrap_or token near_token_id)) balances) 0
