-- ===== src/Escrow/Calls/Refunds.antt =====
-- The workers' accounts and the owner's settings across the two late refunds.
use near_escrow.Shared.Tests.{◌≡◌, ◌∙◌, inl, inr, false, none, some, arith, Option-cases}
use near_escrow.Shared.Maps.{lookup}
use near_escrow.Shared.Outcome.{ok}
use near_escrow.Escrow.Calls.Keeps.{kept}
use near_escrow.Text.Bytes.{Text}
use near_escrow.Escrow.Types.{
  EscrowStatus, pending_funding, opened, in_progress, verifying, cancelled, settlement_failed,
  full_refund, Escrow,
}
use near_escrow.Escrow.Host.{Env, transfer}
use near_escrow.Escrow.State.{Contract, put_escrow, schedule}
use near_escrow.Escrow.Stats.{transition_stats}
use near_escrow.Escrow.Verdict.{forget_data_id}
use near_escrow.Escrow.Cancel.{
  cancel_unfunded, stake_to_worker, force_cancel_verifying, refund_in_progress,
  refund_stalled_stake, refund_verifying, refund_by_status, refund_expired,
}
use near_escrow.Escrow.Invariant.Expire.{refund_expired_returns}
use near_escrow.Escrow.Calls.Workers.{settle_escrow-kept, start_full_refund-kept}

stake_to_worker-kept : (e : Escrow) (s : Contract) → kept (stake_to_worker e s) ≡ kept s
unfolding stake_to_worker
stake_to_worker-kept e s = ground arith

pub force_cancel_verifying-kept :
    (env : Env) (job_id : Text) (s : Contract) {s' : Contract}
    → force_cancel_verifying env job_id s ≡ ok s'
    → kept s' ≡ kept s
unfolding force_cancel_verifying
force_cancel_verifying-kept env job_id s {s'} h = elim (Option-cases (lookup job_id s.escrows)) [
  | inl missing ↦ ground arith
  | inr (e, found) ↦
      let mid = stake_to_worker e s in
      let stopped = record e {
        worker_stake = none;
        data_id = none;
        yield_consumed = false;
        settlement_target = some full_refund;
        status = cancelled;
      } in
      let stored = schedule (transfer e.agent s.storage_deposit_yocto) (
        put_escrow job_id stopped (record mid {
          data_id_index = forget_data_id e.data_id mid.data_id_index;
          stats = transition_stats mid.stats verifying cancelled;
        })) in
      settle_escrow-kept job_id stored {s' = s'} (ground arith) ∙ stake_to_worker-kept e s
]

refund_in_progress-kept :
    (job_id : Text) (e : Escrow) (s : Contract) {s' : Contract}
    → refund_in_progress job_id e s ≡ ok s'
    → kept s' ≡ kept s
unfolding refund_in_progress
refund_in_progress-kept job_id e s h = start_full_refund-kept job_id _ _ h ∙ (ground arith)

refund_stalled_stake-kept : (e : Escrow) (s : Contract) → kept (refund_stalled_stake e s).1 ≡ kept s
unfolding refund_stalled_stake
refund_stalled_stake-kept e s = ground (arith, stake_to_worker-kept e s)

refund_verifying-kept :
    (env : Env) (job_id : Text) (e : Escrow) (s : Contract) {s' : Contract}
    → refund_verifying env job_id e s ≡ ok s'
    → kept s' ≡ kept s
unfolding refund_verifying
refund_verifying-kept env job_id e s {s'} h =
    let mid = refund_stalled_stake e s in
    start_full_refund-kept job_id (record (mid.0) { data_id = none; yield_consumed = false })
      (record (mid.1) { data_id_index = forget_data_id e.data_id mid.1.data_id_index }) {s' = s'}
      (ground arith)
    ∙ refund_stalled_stake-kept e s

refund_by_status-kept :
    (status : EscrowStatus) (env : Env) (job_id : Text) (e : Escrow) (s : Contract) {s' : Contract}
    → refund_by_status status env job_id e s ≡ ok s'
    → kept s' ≡ kept s
unfolding refund_by_status cancel_unfunded
refund_by_status-kept pending_funding env job_id e s h = ground arith
refund_by_status-kept opened env job_id e s h = start_full_refund-kept job_id e s h
refund_by_status-kept in_progress env job_id e s h = refund_in_progress-kept job_id e s h
refund_by_status-kept verifying env job_id e s h = refund_verifying-kept env job_id e s h
refund_by_status-kept settlement_failed env job_id e s h = settle_escrow-kept job_id s h
refund_by_status-kept _ env job_id e s h = cc

pub refund_expired-kept :
    (env : Env) (job_id : Text) (s : Contract) {s' : Contract}
    → refund_expired env job_id s ≡ ok s'
    → kept s' ≡ kept s
refund_expired-kept env job_id s h =
    let (e, _, by) = refund_expired_returns env job_id s h in
    refund_by_status-kept e.status env job_id e s by
