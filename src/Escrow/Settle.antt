-- ===== src/Escrow/Settle.antt =====
-- Settlement: `_settle_escrow`, `_settle_callback_internal`, `_apply_pending_credits`,
-- `settle_callback` and `retry_settlement`.
pub mod Again
pub mod Credit
pub mod Money
pub mod Once
pub mod Retries
use near_escrow.Shared.Tests.{
  ℕ, ◌+◌, ◌-◌, ◌%◌, Bool, true, false, Option, none, some, List, [], ◌∷◌, ◌++◌, leb, ltb, nat_eq,
  not, ◌&&◌, ◌||◌, if◌then◌else◌, is_none, is_some, u8_mod, add_u64,
}
use near_escrow.Shared.Lists.{is_empty}
use near_escrow.Shared.Maps.{Map, lookup, insert}
use near_escrow.Shared.Outcome.{ok, panic, assert, expect, ◌>>=◌, ◌>>◌}
use near_escrow.Text.Bytes.{Text, ◌==◌}
use near_escrow.Escrow.Types.{
  EscrowStatus, verifying, claimed, refunded, cancelled, settlement_failed, same_status,
  SettlementTarget, claim, refund, full_refund, Escrow,
}
use near_escrow.Escrow.Host.{
  PromiseResult, successful, failed, Env, FtTransfer, Promise, transfer, settle_batch, Tx, Panic,
}
use near_escrow.Escrow.Stats.{transition_stats}
use near_escrow.Escrow.State.{Contract, put_escrow, schedule}
use near_escrow.Escrow.Balances.{near_token_id, credit_balance}

-- `MAX_SETTLEMENT_RETRIES`
abbrev pub max_settlement_retries : ℕ
max_settlement_retries = 5

abbrev pub ft_to : Escrow → Text → ℕ → FtTransfer
ft_to e receiver amount = record { token = e.token; receiver = receiver; amount = amount }

-- `if vfee > 0 { transfers.push(ft_transfer_promise(&token, self.owner, vfee)) }`
abbrev pub fee_transfers : Contract → Escrow → List FtTransfer
fee_transfers s e = if ltb 0 e.verifier_fee then ft_to e s.owner e.verifier_fee ∷ [] else []

-- `_apply_pending_credits` on the token payout, then on the stake.
credit_pending : Option ℕ → Text → Text → Map ℕ → Map ℕ
credit_pending none worker token balances = balances
credit_pending (some amount) worker token balances = credit_balance balances worker token amount

unfoldable pub apply_pending_credits : Escrow → Contract → Escrow × Contract
unfolding credit_pending
apply_pending_credits e s = elim e.worker_pubkey [
  | none ↦ (e, s)
  | some wpk ↦ (
    record e { pending_payout = none; pending_stake_refund = none },
    record s {
      balances =
          credit_pending e.pending_stake_refund wpk near_token_id
            (credit_pending e.pending_payout wpk e.token s.balances);
    },
  )
]

abbrev pub final_status : SettlementTarget → EscrowStatus
final_status claim = claimed
final_status refund = refunded
final_status full_refund = refunded

-- `_settle_callback_internal`
unfoldable pub settle_callback_internal : Text → Contract → Tx Contract
settle_callback_internal job_id s = do
  e ← expect (lookup job_id s.escrows) Panic.escrow_not_found
  target ← expect e.settlement_target Panic.no_settlement_target
  let (e', s') = apply_pending_credits e s
  let settled = record e' {
    status = final_status target;
    settlement_target = none;
    worker_stake = none;
  }
  ok (
      put_escrow job_id settled (
        schedule (transfer e.agent s.storage_deposit_yocto)
          (record s' { stats = transition_stats s'.stats e.status (final_status target) })))

-- The transfers as one batch, with `settle_callback` behind it.
abbrev pub start_batch : List FtTransfer → Text → Contract → Contract
start_batch transfers job_id s = schedule (settle_batch transfers job_id) s

-- The path of an escrow with a worker key: credits to the internal balance wait for the callback.
unfoldable pub settle_wallet : SettlementTarget → Text → Escrow → Contract → Tx Contract
settle_wallet claim job_id e s = do
  let payout = e.amount - e.verifier_fee
  assert (ltb 0 payout) Panic.payout_zero
  let pending = record e { pending_payout = some payout; pending_stake_refund = e.worker_stake }
  let stored = put_escrow job_id pending s
  if is_empty (fee_transfers s e)
      then settle_callback_internal job_id stored
      else ok (start_batch (fee_transfers s e) job_id stored)
settle_wallet refund job_id e s = do
  let returned = e.amount - e.verifier_fee
  assert (ltb 0 returned) Panic.refund_zero
  let pending = record e { pending_payout = none; pending_stake_refund = e.worker_stake }
  ok (
      start_batch (ft_to e e.agent returned ∷ fee_transfers s e) job_id
        (put_escrow job_id pending s))
settle_wallet full_refund job_id e s = do
  assert (ltb 0 e.amount) Panic.nothing_to_refund
  let pending = record e { pending_payout = none; pending_stake_refund = e.worker_stake }
  ok (start_batch (ft_to e e.agent e.amount ∷ []) job_id (put_escrow job_id pending s))

-- The legacy path pays the worker's NEAR account; it does not store the escrow.
unfoldable pub settle_legacy : SettlementTarget → Text → Escrow → Contract → Tx Contract
settle_legacy claim job_id e s = do
  worker ← expect e.worker Panic.no_worker
  let payout = e.amount - e.verifier_fee
  assert (ltb 0 payout) Panic.payout_zero
  ok (start_batch (ft_to e worker payout ∷ fee_transfers s e) job_id s)
settle_legacy refund job_id e s = do
  let returned = e.amount - e.verifier_fee
  assert (ltb 0 returned) Panic.refund_zero
  ok (start_batch (ft_to e e.agent returned ∷ fee_transfers s e) job_id s)
settle_legacy full_refund job_id e s = do
  assert (ltb 0 e.amount) Panic.nothing_to_refund
  ok (start_batch (ft_to e e.agent e.amount ∷ []) job_id s)

-- `_settle_escrow`
unfoldable pub settle_escrow : Text → Contract → Tx Contract
settle_escrow job_id s = do
  e ← expect (lookup job_id s.escrows) Panic.escrow_not_found
  target ← expect e.settlement_target Panic.no_settlement_target
  if is_some e.worker_pubkey
      then settle_wallet target job_id e s
      else settle_legacy target job_id e s

-- `#[private]`: only the contract itself may call.
abbrev pub assert_private : Env → Tx (Unit {0})
assert_private env = assert (env.predecessor == env.current_account) Panic.private_method

unfoldable pub all_ok : List PromiseResult → Bool
all_ok [] = true
all_ok (successful _ ∷ results) = all_ok results
all_ok (failed ∷ results) = false

-- On the legacy path the stake goes back to the worker's NEAR account.
unfoldable pub stake_back : Escrow → Contract → Contract
stake_back e s = elim e.worker_pubkey [
  | some _ ↦ s
  | none ↦ elim e.worker_stake [
    | none ↦ s
    | some stake ↦ elim e.worker [ none ↦ s | some worker ↦ schedule (transfer worker stake) s ]
  ]
]

-- The branch of `settle_callback` in which every transfer succeeded.
unfoldable pub settle_success : SettlementTarget → Text → Escrow → Contract → Contract
unfolding stake_back
settle_success target job_id e s =
    let (e', s') = apply_pending_credits e s in
    let settled = record e' {
      status = final_status target;
      settlement_target = none;
      worker_stake = none;
    } in
    put_escrow job_id settled (
      stake_back e (
        schedule (transfer e.agent s.storage_deposit_yocto)
          (record s' { stats = transition_stats s'.stats e.status (final_status target) })))

-- The branch in which a transfer failed: pending credits stay for a retry.
unfoldable pub settle_failure : Text → Escrow → Contract → Contract
settle_failure job_id e s =
    put_escrow job_id (record e { status = settlement_failed })
      (record s { stats = transition_stats s.stats e.status settlement_failed })

unfoldable pub settle_callback : Env → Text → Contract → Tx Contract
settle_callback env job_id s = do
  assert_private env
  assert (not (is_empty env.promise_results)) Panic.callback_only
  e ← expect (lookup job_id s.escrows) Panic.escrow_not_found
  target ← expect e.settlement_target Panic.no_settlement_target
  ok (
      if all_ok env.promise_results
      then settle_success target job_id e s
      else settle_failure job_id e s)

abbrev pub is_retryable : Escrow → Bool
is_retryable e =
    same_status e.status settlement_failed
    || (same_status e.status verifying && is_some e.settlement_target)
    || (same_status e.status cancelled && is_some e.settlement_target)

-- `created_at + timeout_ms`, which wraps in a release build.
abbrev pub expires_at : Escrow → ℕ
expires_at e = add_u64 e.created_at e.timeout_ms

-- Past the limit of retries the escrow is cancelled and keeps its target.
unfoldable pub give_up : Text → Escrow → Contract → Contract
give_up job_id e s = schedule (transfer e.agent s.storage_deposit_yocto) (
    put_escrow job_id (record e { status = cancelled })
      (record s { stats = transition_stats s.stats settlement_failed cancelled }))

unfoldable pub retry_settlement : Env → Text → Contract → Tx Contract
retry_settlement env job_id s = do
  e ← expect (lookup job_id s.escrows) Panic.escrow_not_found
  assert (is_retryable e) Panic.not_retryable
  assert (is_some e.settlement_target) Panic.no_settlement_target
  let retried = record e { retry_count = (e.retry_count + 1) % u8_mod }
  if ltb max_settlement_retries retried.retry_count then ok (give_up job_id retried s) else do
    assert (env.predecessor == s.owner || ltb (expires_at e) env.block_timestamp_ms)
        Panic.retry_before_expiry
    settle_escrow job_id (put_escrow job_id retried s)
