-- ===== src/Escrow/Wallet.antt =====
-- The workers' internal wallet: registration, deposits, signed withdrawals and links, and the
-- owner's pause of a worker.
pub mod Pays
pub mod Replay
use near_escrow.Shared.Tests.{
  ℕ, Bool, true, Option, none, some, ◌∷◌, ltb, not, nat_eq, if◌then◌else◌, is_none, is_some,
  u64_mod, saturating_add,
}
use near_escrow.Shared.Lists.{length, is_empty}
use near_escrow.Shared.Maps.{lookup, insert, remove}
use near_escrow.Shared.Outcome.{ok, assert, expect, ◌>>=◌, ◌>>◌}
use near_escrow.Text.Bytes.{Text, ◌==◌}
use near_escrow.Escrow.Types.{WorkerAccount}
use near_escrow.Escrow.Host.{Env, Tx, Panic, Promise, transfer, ft_transfer}
use near_escrow.Escrow.State.{Contract, schedule}
use near_escrow.Escrow.Balances.{near_token_id, credit_balance, debit_balance}
use near_escrow.Escrow.Signature.{verify_worker_signature, withdraw_message, link_message}
use near_escrow.Escrow.Admin.{only_owner}

abbrev pub fresh_account : Text → WorkerAccount
fresh_account nostr_pubkey = record {
  nostr_pubkey = nostr_pubkey;
  near_account_id = none;
  nonce = 0;
}

-- `worker.nonce.saturating_add(1)`
abbrev pub next_nonce : WorkerAccount → WorkerAccount
next_nonce worker = record worker { nonce = saturating_add u64_mod worker.nonce 1 }

abbrev pub assert_not_paused : Text → Contract → Tx (Unit {0})
assert_not_paused worker_pubkey s =
    assert (is_none (lookup worker_pubkey s.paused_workers)) Panic.worker_paused

unfoldable pub register_worker : Env → Text → Contract → Tx Contract
register_worker env nostr_pubkey s = do
  only_owner env s
  assert (not (is_empty nostr_pubkey)) Panic.pubkey_required
  assert (nat_eq (length nostr_pubkey) 64) Panic.pubkey_length
  assert (is_none (lookup nostr_pubkey s.workers)) Panic.already_registered
  assert_not_paused nostr_pubkey s
  ok (record s { workers = insert nostr_pubkey (fresh_account nostr_pubkey) s.workers })

unfoldable pub deposit_to_worker : Env → Text → Contract → Tx Contract
deposit_to_worker env worker_pubkey s = do
  let amount = env.attached_deposit
  assert (ltb 0 amount) Panic.no_deposit
  assert (is_some (lookup worker_pubkey s.workers)) Panic.not_registered
  assert_not_paused worker_pubkey s
  ok (record s { balances = credit_balance s.balances worker_pubkey near_token_id amount })

-- The transfer that a withdrawal schedules.
payout_promise : Env → Text → ℕ → Text → Tx Promise
payout_promise env token amount to = if token == near_token_id then ok (transfer to amount) else do
  assert (env.is_account_id token) Panic.bad_token_account
  ok (ft_transfer (record { token = token; receiver = to; amount = amount }))

unfoldable pub withdraw : Env → Text → Text → ℕ → Text → Text → Contract → Tx Contract
unfolding payout_promise
withdraw env worker_pubkey token amount to signature s = do
  assert_not_paused worker_pubkey s
  worker ← expect (lookup worker_pubkey s.workers) Panic.not_registered
  verify_worker_signature env worker_pubkey (withdraw_message env token amount to worker.nonce)
      signature
  balances ← debit_balance s.balances worker_pubkey token amount
  promise ← payout_promise env token amount to
  ok (
      schedule promise (record s {
        balances = balances;
        workers = insert worker_pubkey (next_nonce worker) s.workers;
      }))

unfoldable pub link_near_account : Env → Text → Text → Text → Contract → Tx Contract
link_near_account env worker_pubkey near_account_id signature s = do
  worker ← expect (lookup worker_pubkey s.workers) Panic.not_registered
  verify_worker_signature env worker_pubkey (link_message near_account_id worker.nonce) signature
  let linked = record (next_nonce worker) { near_account_id = some near_account_id }
  ok (record s { workers = insert worker_pubkey linked s.workers })

unfoldable pub pause_worker : Env → Text → Contract → Tx Contract
pause_worker env worker_pubkey s = do
  only_owner env s
  assert (is_some (lookup worker_pubkey s.workers)) Panic.not_registered
  ok (record s { paused_workers = insert worker_pubkey true s.paused_workers })

unfoldable pub unpause_worker : Env → Text → Contract → Tx Contract
unpause_worker env worker_pubkey s = do
  only_owner env s
  ok (record s { paused_workers = remove worker_pubkey s.paused_workers })
