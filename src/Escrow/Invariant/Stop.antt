-- ===== src/Escrow/Invariant/Stop.antt =====
-- `cancel` and `force_cancel_verifying` against the invariant.
use near_escrow.Shared.Tests.{
  ◌≡◌, refl, ap, ◌∙◌, ◌⊎◌, inl, inr, false, none, some, arith, Option-cases,
}
use near_escrow.Shared.Maps.{lookup, insert}
use near_escrow.Shared.Outcome.{ok}
use near_escrow.Text.Bytes.{Text, ==→eq}
use near_escrow.Escrow.Types.{
  EscrowStatus, pending_funding, opened, in_progress, verifying, cancelled, full_refund, Escrow,
}
use near_escrow.Escrow.Host.{Env, transfer}
use near_escrow.Escrow.State.{Contract, schedule}
use near_escrow.Escrow.Stats.{transition_stats}
use near_escrow.Escrow.Verdict.{forget_data_id}
use near_escrow.Escrow.Settle.{settle_escrow}
use near_escrow.Escrow.Cancel.{
  cancel_unfunded, start_full_refund, cancel_by_status, cancel, stake_to_worker,
  force_cancel_verifying,
}
use near_escrow.Escrow.Invariant.{Advances, Keeps, Inv}
use near_escrow.Escrow.Invariant.Change.{Advances-refl, Keeps-put, Inv-lookup}
use near_escrow.Escrow.Invariant.Pay.{settle_put-Keeps}

pub unfunded-Keeps :
    (job_id : Text) (e : Escrow) (s s' : Contract)
    → Inv s
    → lookup job_id s.escrows ≡ some e
    → e.status ≡ pending_funding
    → s'.escrows ≡ insert job_id (record e { status = cancelled }) s.escrows
    → Keeps s s'
unfunded-Keeps job_id e s s' inv found unfunded =
    let sound = Inv-lookup s job_id inv found in
    Keeps-put s job_id (record e { status = cancelled }) inv s' found (ground (arith, sound))

-- A full refund may be started in these three statuses.
refunding-Advances :
    (e e' : Escrow)
    → Advances e e'
    → (e'.status ≡ opened) ⊎ (e'.status ≡ in_progress) ⊎ (e'.status ≡ verifying)
    → Advances e (record e' { settlement_target = some full_refund })
refunding-Advances e e' a h = ground (arith, a)

pub start_full_refund-Keeps :
    (job_id : Text) (s mid : Contract) (e' : Escrow) {e : Escrow} {s' : Contract}
    → Inv s
    → lookup job_id s.escrows ≡ some e
    → Advances e e'
    → (e'.status ≡ opened) ⊎ (e'.status ≡ in_progress) ⊎ (e'.status ≡ verifying)
    → mid.escrows ≡ s.escrows
    → start_full_refund job_id e' mid ≡ ok s'
    → Keeps s s'
unfolding start_full_refund
start_full_refund-Keeps job_id s mid e' {e} inv found a status same h =
    settle_put-Keeps job_id s _ (record e' { settlement_target = some full_refund }) inv found
      (refunding-Advances e e' a status) (ap (insert job_id _) same) h

cancel_by_status-Keeps :
    (status : EscrowStatus) (job_id : Text) (e : Escrow) (s : Contract) {s' : Contract}
    → Inv s
    → lookup job_id s.escrows ≡ some e
    → e.status ≡ status
    → cancel_by_status status job_id e s ≡ ok s'
    → Keeps s s'
unfolding cancel_by_status cancel_unfunded
cancel_by_status-Keeps pending_funding job_id e s {s'} inv found at h =
    unfunded-Keeps job_id e s s' inv found at (ground arith)
cancel_by_status-Keeps opened job_id e s inv found at h =
    start_full_refund-Keeps job_id s s e inv found (Advances-refl (Inv-lookup s job_id inv found))
      (inl at) refl h
cancel_by_status-Keeps _ job_id e s inv found at h = cc

cancel_returns :
    (env : Env) (job_id : Text) (s : Contract) {s' : Contract}
    → cancel env job_id s ≡ ok s'
    → (e : Escrow) × (lookup job_id s.escrows ≡ some e)
      × (env.signer ≡ e.agent)
      × (cancel_by_status e.status job_id e s ≡ ok s')
unfolding cancel
cancel_returns env job_id s h = elim (Option-cases (lookup job_id s.escrows)) [
  | inl missing ↦ ground arith
  | inr (e, found) ↦ (e, found, ground (arith, ==→eq env.signer e.agent), ground arith)
]

pub cancel-Keeps :
    (env : Env) (job_id : Text) (s : Contract) {s' : Contract}
    → Inv s
    → cancel env job_id s ≡ ok s'
    → Keeps s s'
cancel-Keeps env job_id s inv h =
    let (e, found, _, by) = cancel_returns env job_id s h in
    cancel_by_status-Keeps e.status job_id e s inv found refl by

pub stake_to_worker-escrows :
    (e : Escrow) (s : Contract) → (stake_to_worker e s).escrows ≡ s.escrows
unfolding stake_to_worker
stake_to_worker-escrows e s = ground arith

-- The escrow as a forced cancellation stores it.
abbrev stopped : Escrow → Escrow
stopped e = record e {
  worker_stake = none;
  data_id = none;
  yield_consumed = false;
  settlement_target = some full_refund;
  status = cancelled;
}

force_cancel_returns :
    (env : Env) (job_id : Text) (s : Contract) {s' : Contract}
    → force_cancel_verifying env job_id s ≡ ok s'
    → (e : Escrow) × (mid : Contract) × (lookup job_id s.escrows ≡ some e)
      × (e.status ≡ verifying)
      × (mid.escrows ≡ insert job_id (stopped e) (stake_to_worker e s).escrows)
      × (settle_escrow job_id mid ≡ ok s')
unfolding force_cancel_verifying
force_cancel_returns env job_id s h = elim (Option-cases (lookup job_id s.escrows)) [
  | inl missing ↦ ground arith
  | inr (e, found) ↦ (
    e,
    schedule (transfer e.agent s.storage_deposit_yocto) (record (stake_to_worker e s) {
      escrows = insert job_id (stopped e) (stake_to_worker e s).escrows;
      data_id_index = forget_data_id e.data_id (stake_to_worker e s).data_id_index;
      stats = transition_stats (stake_to_worker e s).stats verifying cancelled;
    }),
    found,
    ground arith,
    refl,
    ground arith,
  )
]

pub force_cancel_verifying-Keeps :
    (env : Env) (job_id : Text) (s : Contract) {s' : Contract}
    → Inv s
    → force_cancel_verifying env job_id s ≡ ok s'
    → Keeps s s'
force_cancel_verifying-Keeps env job_id s inv h =
    let (e, mid, found, waiting, stored, settling) = force_cancel_returns env job_id s h in
    let sound = Inv-lookup s job_id inv found in
    settle_put-Keeps job_id s mid (stopped e) inv found (ground (arith, sound))
      (stored ∙ ap (insert job_id (stopped e)) (stake_to_worker-escrows e s)) settling
