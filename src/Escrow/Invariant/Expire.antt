-- ===== src/Escrow/Invariant/Expire.antt =====
-- `refund_expired` against the invariant.
use near_escrow.Shared.Tests.{◌≡◌, refl, inl, inr, false, none, some, arith}
use near_escrow.Shared.Maps.{lookup}
use near_escrow.Shared.Outcome.{ok}
use near_escrow.Text.Bytes.{Text}
use near_escrow.Escrow.Types.{
  EscrowStatus, pending_funding, opened, in_progress, verifying, settlement_failed, Escrow,
}
use near_escrow.Escrow.Host.{Env}
use near_escrow.Escrow.State.{Contract}
use near_escrow.Escrow.Cancel.{
  cancel_unfunded, refund_in_progress, refund_stalled_stake, refund_verifying, refund_by_status,
  refund_expired,
}
use near_escrow.Escrow.Verdict.{forget_data_id}
use near_escrow.Escrow.Invariant.{IsSound, Advances, Keeps, Inv}
use near_escrow.Escrow.Invariant.Change.{Advances-refl, Inv-lookup}
use near_escrow.Escrow.Invariant.Pay.{settle_escrow-Keeps}
use near_escrow.Escrow.Invariant.Stop.{
  unfunded-Keeps, start_full_refund-Keeps, stake_to_worker-escrows,
}

refund_in_progress-Keeps :
    (job_id : Text) (e : Escrow) (s : Contract) {s' : Contract}
    → Inv s
    → lookup job_id s.escrows ≡ some e
    → e.status ≡ in_progress
    → refund_in_progress job_id e s ≡ ok s'
    → Keeps s s'
unfolding refund_in_progress
refund_in_progress-Keeps job_id e s inv found working h =
    let sound = Inv-lookup s job_id inv found in
    start_full_refund-Keeps job_id s _ (record e { worker_stake = none }) inv found
      (ground (arith, sound)) (inr (inl working)) (ground arith) h

refund_stalled_stake-keeps :
    (e : Escrow) (s : Contract)
    → IsSound e
    → e.status ≡ verifying
    → Advances e (record ((refund_stalled_stake e s).0) { data_id = none; yield_consumed = false })
      × ((refund_stalled_stake e s).0.status ≡ verifying)
      × ((refund_stalled_stake e s).1.escrows ≡ s.escrows)
unfolding refund_stalled_stake
refund_stalled_stake-keeps e s sound waiting =
    (ground (arith, sound), ground arith, ground (arith, stake_to_worker-escrows e s))

refund_verifying-Keeps :
    (env : Env) (job_id : Text) (e : Escrow) (s : Contract) {s' : Contract}
    → Inv s
    → lookup job_id s.escrows ≡ some e
    → e.status ≡ verifying
    → refund_verifying env job_id e s ≡ ok s'
    → Keeps s s'
unfolding refund_verifying
refund_verifying-Keeps env job_id e s {s'} inv found waiting h =
    let (a, still, same) = refund_stalled_stake-keeps e s (Inv-lookup s job_id inv found) waiting in
    start_full_refund-Keeps job_id s
      (record ((refund_stalled_stake e s).1) {
        data_id_index = forget_data_id e.data_id (refund_stalled_stake e s).1.data_id_index;
      })
      (record ((refund_stalled_stake e s).0) { data_id = none; yield_consumed = false }) {s' = s'}
      inv found a (inr (inr still)) same (ground arith)

refund_by_status-Keeps :
    (status : EscrowStatus) (env : Env) (job_id : Text) (e : Escrow) (s : Contract) {s' : Contract}
    → Inv s
    → lookup job_id s.escrows ≡ some e
    → e.status ≡ status
    → refund_by_status status env job_id e s ≡ ok s'
    → Keeps s s'
unfolding refund_by_status cancel_unfunded
refund_by_status-Keeps pending_funding env job_id e s {s'} inv found at h =
    unfunded-Keeps job_id e s s' inv found at (ground arith)
refund_by_status-Keeps opened env job_id e s inv found at h =
    start_full_refund-Keeps job_id s s e inv found (Advances-refl (Inv-lookup s job_id inv found))
      (inl at) refl h
refund_by_status-Keeps in_progress env job_id e s inv found at h =
    refund_in_progress-Keeps job_id e s inv found at h
refund_by_status-Keeps verifying env job_id e s inv found at h =
    refund_verifying-Keeps env job_id e s inv found at h
refund_by_status-Keeps settlement_failed env job_id e s inv found at h =
    settle_escrow-Keeps job_id s inv h
refund_by_status-Keeps _ env job_id e s inv found at h = cc

pub refund_expired_returns :
    (env : Env) (job_id : Text) (s : Contract) {s' : Contract}
    → refund_expired env job_id s ≡ ok s'
    → (e : Escrow) × (lookup job_id s.escrows ≡ some e)
      × (refund_by_status e.status env job_id e s ≡ ok s')
unfolding refund_expired
refund_expired_returns env job_id s h = ground arith

pub refund_expired-Keeps :
    (env : Env) (job_id : Text) (s : Contract) {s' : Contract}
    → Inv s
    → refund_expired env job_id s ≡ ok s'
    → Keeps s s'
refund_expired-Keeps env job_id s inv h =
    let (e, found, by) = refund_expired_returns env job_id s h in
    refund_by_status-Keeps e.status env job_id e s inv found refl by
