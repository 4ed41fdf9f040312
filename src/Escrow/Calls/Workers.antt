-- ===== src/Escrow/Calls/Workers.antt =====
-- The calls that leave the workers' accounts and the owner's settings alone.
use near_escrow.Shared.Tests.{
  ℕ, refl, ◌-◌, ◌+◌, ◌%◌, u8_mod, ◌≡◌, ap, ◌∙◌, inl, inr, some, arith, is_some, Bool-cases,
  Option-cases,
}
use near_escrow.Shared.Lists.{is_empty}
use near_escrow.Shared.Maps.{lookup}
use near_escrow.Shared.Outcome.{ok}
use near_escrow.Escrow.Calls.Keeps.{kept}
use near_escrow.Text.Bytes.{Text}
use near_escrow.Escrow.Types.{
  SettlementTarget, claim, refund, full_refund, EscrowStatus, pending_funding, opened, EscrowMode,
  standard, competitive, Escrow,
}
use near_escrow.Escrow.Host.{Env, PromiseResult, successful, failed}
use near_escrow.Escrow.State.{Contract, put_escrow}
use near_escrow.Escrow.Settle.{
  fee_transfers, apply_pending_credits, settle_callback_internal, settle_wallet, settle_legacy,
  settle_escrow, settle_success, settle_failure, settle_callback, give_up, retry_settlement,
}
use near_escrow.Escrow.Verdict.{
  release_stake, full_refund_without_verdict, decide, settle_verdict, verification_callback,
}
use near_escrow.Escrow.Submit.{
  start_verification, submit_competitive, submit_standard, submit_by_mode, submit_result,
  submit_competitive_for, submit_by_mode_for,
}
use near_escrow.Escrow.Compete.{designate_winner}
use near_escrow.Escrow.Cancel.{cancel_unfunded, start_full_refund, cancel_by_status, cancel}
use near_escrow.Escrow.Invariant.Pay.{settle_escrow_returns}
use near_escrow.Escrow.Invariant.Relay.{submit_standard_for_returns, designate_winner_returns}
use near_escrow.Escrow.Invariant.Judge.{verification_callback_returns}

settle_internal-kept :
    (job_id : Text) (s : Contract) {s' : Contract}
    → settle_callback_internal job_id s ≡ ok s'
    → kept s' ≡ kept s
unfolding settle_callback_internal apply_pending_credits
settle_internal-kept job_id s h = ground arith

settle_wallet-kept :
    (target : SettlementTarget) (job_id : Text) (e : Escrow) (s : Contract) {s' : Contract}
    → settle_wallet target job_id e s ≡ ok s'
    → kept s' ≡ kept s
unfolding settle_wallet
settle_wallet-kept claim job_id e s {s'} h =
    let pending = record e {
      pending_payout = some (e.amount - e.verifier_fee);
      pending_stake_refund = e.worker_stake;
    } in
    elim (Bool-cases (is_empty (fee_transfers s e))) [
      | inl immediate ↦
          settle_internal-kept job_id (put_escrow job_id pending s) {s' = s'} (ground arith)
      | inr batched ↦ ground arith
    ]
settle_wallet-kept refund job_id e s h = ground arith
settle_wallet-kept full_refund job_id e s h = ground arith

settle_legacy-kept :
    (target : SettlementTarget) (job_id : Text) (e : Escrow) (s : Contract) {s' : Contract}
    → settle_legacy target job_id e s ≡ ok s'
    → kept s' ≡ kept s
unfolding settle_legacy
settle_legacy-kept claim job_id e s h = ground arith
settle_legacy-kept _ job_id e s h = ground arith

pub settle_escrow-kept :
    (job_id : Text) (s : Contract) {s' : Contract}
    → settle_escrow job_id s ≡ ok s'
    → kept s' ≡ kept s
settle_escrow-kept job_id s {s'} h =
    let (e, target, _, by) = settle_escrow_returns job_id s h in
    elim (Bool-cases (is_some e.worker_pubkey)) [
      | inl wallet ↦ settle_wallet-kept target job_id e s (rw wallet at by)
      | inr legacy ↦ settle_legacy-kept target job_id e s (rw legacy at by)
    ]

decide-kept :
    (env : Env) (result : PromiseResult) (e : Escrow) (s : Contract)
    → kept (decide env result e s).1 ≡ kept s
unfolding decide full_refund_without_verdict release_stake
decide-kept env (successful payload) e s = ground arith
decide-kept env failed e s = ground arith

pub verification_callback-kept :
    (env : Env) (job_id : Text) (s : Contract) {s' : Contract}
    → verification_callback env job_id s ≡ ok s'
    → kept s' ≡ kept s
unfolding settle_verdict
verification_callback-kept env job_id s {s'} h =
    elim (verification_callback_returns env job_id s h) [
      | inl same ↦ ap kept same
      | inr (e, result, _, _, settling) ↦
          settle_escrow-kept job_id _ settling ∙ decide-kept env result _ s
    ]

pub settle_callback-kept :
    (env : Env) (job_id : Text) (s : Contract) {s' : Contract}
    → settle_callback env job_id s ≡ ok s'
    → kept s' ≡ kept s
unfolding settle_callback settle_success settle_failure apply_pending_credits
settle_callback-kept env job_id s h = ground arith

pub retry_settlement-kept :
    (env : Env) (job_id : Text) (s : Contract) {s' : Contract}
    → retry_settlement env job_id s ≡ ok s'
    → kept s' ≡ kept s
unfolding retry_settlement give_up
retry_settlement-kept env job_id s {s'} h = elim (Option-cases (lookup job_id s.escrows)) [
  | inl missing ↦ ground arith
  | inr (e, found) ↦
      let retried = record e { retry_count = (e.retry_count + 1) % u8_mod } in
      ground (arith, found, settle_escrow-kept job_id (put_escrow job_id retried s) {s' = s'})
]

start_verification-kept :
    (env : Env) (job_id : Text) (e : Escrow) (s : Contract) {s' : Contract}
    → start_verification env job_id e s ≡ ok s'
    → kept s' ≡ kept s
unfolding start_verification
start_verification-kept env job_id e s h = ground arith

pub designate_winner-kept :
    (env : Env) (job_id : Text) (winner_idx : ℕ) (s : Contract) {s' : Contract}
    → designate_winner env job_id winner_idx s ≡ ok s'
    → kept s' ≡ kept s
designate_winner-kept env job_id winner_idx s h =
    elim (designate_winner_returns env job_id winner_idx s h) [
      | inl same ↦ ap kept same
      | inr (e, winner, _, _, _, starting) ↦ start_verification-kept env job_id _ _ starting
    ]

submit_by_mode-kept :
    (mode : EscrowMode) (env : Env) (job_id result : Text) (e : Escrow) (s : Contract)
    {s' : Contract}
    → submit_by_mode mode env job_id result e s ≡ ok s'
    → kept s' ≡ kept s
unfolding submit_by_mode submit_competitive submit_standard
submit_by_mode-kept competitive env job_id result e s h = ground arith
submit_by_mode-kept standard env job_id result e s {s'} h =
    ground
      (arith, start_verification-kept env job_id (record e { result = some result }) s {s' = s'})

pub submit_result-kept :
    (env : Env) (job_id result : Text) (s : Contract) {s' : Contract}
    → submit_result env job_id result s ≡ ok s'
    → kept s' ≡ kept s
unfolding submit_result
submit_result-kept env job_id result s {s'} h = elim (Option-cases (lookup job_id s.escrows)) [
  | inl missing ↦ ground arith
  | inr (e, found) ↦ submit_by_mode-kept e.mode env job_id result e s {s' = s'} (ground arith)
]

submit_competitive_for-kept :
    (env : Env) (job_id result key : Text) (e : Escrow) (s : Contract) {s' : Contract}
    → submit_competitive_for env job_id result key e s ≡ ok s'
    → kept s' ≡ kept s
unfolding submit_competitive_for
submit_competitive_for-kept env job_id result key e s h = ground arith

pub submit_by_mode_for-kept :
    (mode : EscrowMode) (env : Env) (job_id result key : Text) (e : Escrow) (s : Contract)
    {s' : Contract}
    → submit_by_mode_for mode env job_id result key e s ≡ ok s'
    → kept s' ≡ kept s
unfolding submit_by_mode_for
submit_by_mode_for-kept competitive env job_id result key e s h =
    submit_competitive_for-kept env job_id result key e s h
submit_by_mode_for-kept standard env job_id result key e s h =
    elim (submit_standard_for_returns env job_id result key e s h) [
      | inl same ↦ ap kept same
      | inr (_, starting) ↦ start_verification-kept env job_id _ _ starting
    ]

cancel_unfunded-kept :
    (job_id : Text) (e : Escrow) (s : Contract) → kept (cancel_unfunded job_id e s) ≡ kept s
unfolding cancel_unfunded
cancel_unfunded-kept job_id e s = refl

pub start_full_refund-kept :
    (job_id : Text) (e : Escrow) (s : Contract) {s' : Contract}
    → start_full_refund job_id e s ≡ ok s'
    → kept s' ≡ kept s
unfolding start_full_refund
start_full_refund-kept job_id e s h = settle_escrow-kept job_id _ h

cancel_by_status-kept :
    (status : EscrowStatus) (job_id : Text) (e : Escrow) (s : Contract) {s' : Contract}
    → cancel_by_status status job_id e s ≡ ok s'
    → kept s' ≡ kept s
unfolding cancel_by_status cancel_unfunded
cancel_by_status-kept pending_funding job_id e s h = ground arith
cancel_by_status-kept opened job_id e s h = start_full_refund-kept job_id e s h
cancel_by_status-kept _ job_id e s h = cc

pub cancel-kept :
    (env : Env) (job_id : Text) (s : Contract) {s' : Contract}
    → cancel env job_id s ≡ ok s'
    → kept s' ≡ kept s
unfolding cancel
cancel-kept env job_id s {s'} h = elim (Option-cases (lookup job_id s.escrows)) [
  | inl missing ↦ ground arith
  | inr (e, found) ↦ cancel_by_status-kept e.status job_id e s {s' = s'} (ground arith)
]
