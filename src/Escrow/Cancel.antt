-- ===== src/Escrow/Cancel.antt =====
-- Cancellation and expiry: `cancel`, `force_cancel_verifying` and `refund_expired`.
pub mod Repeat
pub mod Expiry
use near_escrow.Shared.Tests.{
  ℕ, Bool, true, false, Option, none, some, ◌∷◌, leb, ltb, not, if◌then◌else◌, add_u64, unwrap_or,
}
use near_escrow.Shared.Maps.{lookup, insert}
use near_escrow.Shared.Outcome.{ok, panic, assert, expect, ◌>>=◌, ◌>>◌}
use near_escrow.Text.Bytes.{Text, ◌==◌}
use near_escrow.Escrow.Types.{
  EscrowStatus, pending_funding, opened, in_progress, verifying, claimed, refunded, cancelled,
  settlement_failed, same_status, SettlementTarget, full_refund, Escrow,
}
use near_escrow.Escrow.Host.{Env, Tx, Panic, transfer}
use near_escrow.Escrow.Stats.{transition_stats}
use near_escrow.Escrow.State.{Contract, put_escrow, schedule}
use near_escrow.Escrow.Admin.{only_owner}
use near_escrow.Escrow.Settle.{settle_escrow, expires_at}
use near_escrow.Escrow.Verdict.{forget_data_id}

-- `VERIFICATION_SAFETY_TIMEOUT_MS`, 24 hours
abbrev pub verification_safety_timeout_ms : ℕ
verification_safety_timeout_ms = 86400000

abbrev pub safety_deadline : Escrow → ℕ
safety_deadline e =
    add_u64 (unwrap_or e.verifying_since_ms e.created_at) verification_safety_timeout_ms

-- An unfunded escrow is cancelled at once, with the storage deposit back to the agent.
unfoldable pub cancel_unfunded : Text → Escrow → Contract → Contract
cancel_unfunded job_id e s = schedule (transfer e.agent s.storage_deposit_yocto) (
    put_escrow job_id (record e { status = cancelled })
      (record s { stats = transition_stats s.stats pending_funding cancelled }))

-- A full refund of the escrow is stored as its target and started.
unfoldable pub start_full_refund : Text → Escrow → Contract → Tx Contract
start_full_refund job_id e s =
    settle_escrow job_id (put_escrow job_id (record e { settlement_target = some full_refund }) s)

unfoldable pub cancel_by_status : EscrowStatus → Text → Escrow → Contract → Tx Contract
cancel_by_status pending_funding job_id e s = ok (cancel_unfunded job_id e s)
cancel_by_status opened job_id e s = start_full_refund job_id e s
cancel_by_status _ job_id e s = panic Panic.cannot_cancel

unfoldable pub cancel : Env → Text → Contract → Tx Contract
cancel env job_id s = do
  e ← expect (lookup job_id s.escrows) Panic.escrow_not_found
  assert (env.signer == e.agent) Panic.only_agent
  cancel_by_status e.status job_id e s

-- `if let Some(stake) = ... { if let Some(worker) = ... { transfer } }`
unfoldable pub stake_to_worker : Escrow → Contract → Contract
stake_to_worker e s = elim e.worker_stake [
  | none ↦ s
  | some stake ↦ elim e.worker [ none ↦ s | some worker ↦ schedule (transfer worker stake) s ]
]

unfoldable pub force_cancel_verifying : Env → Text → Contract → Tx Contract
force_cancel_verifying env job_id s = do
  only_owner env s
  e ← expect (lookup job_id s.escrows) Panic.escrow_not_found
  assert (same_status e.status verifying) Panic.not_verifying
  assert (leb (safety_deadline e) env.block_timestamp_ms) Panic.too_early
  let s' = stake_to_worker e s
  let stopped = record e {
    worker_stake = none;
    data_id = none;
    yield_consumed = false;
    settlement_target = some full_refund;
    status = cancelled;
  }
  settle_escrow job_id (
      schedule (transfer e.agent s.storage_deposit_yocto) (
        put_escrow job_id stopped (record s' {
          data_id_index = forget_data_id e.data_id s'.data_id_index;
          stats = transition_stats s'.stats verifying cancelled;
        })))

-- A worker that claimed and let the time pass forfeits the stake to the agent.
unfoldable pub refund_in_progress : Text → Escrow → Contract → Tx Contract
refund_in_progress job_id e s =
    let forfeited : Contract = elim e.worker_stake [
      | none ↦ s
      | some stake ↦ schedule (transfer e.agent stake) s
    ] in
    start_full_refund job_id (record e { worker_stake = none }) forfeited

-- A stake of a worker key is set aside; another goes to the worker's account.
unfoldable pub refund_stalled_stake : Escrow → Contract → Escrow × Contract
refund_stalled_stake e s = elim e.worker_stake [
  | none ↦ (record e { worker_stake = none }, s)
  | some stake ↦ elim e.worker_pubkey [
    | some _ ↦ (record e { pending_stake_refund = some stake; worker_stake = none }, s)
    | none ↦ (record e { worker_stake = none }, stake_to_worker e s)
  ]
]

-- Recovery of an escrow whose verification never ended.
unfoldable pub refund_verifying : Env → Text → Escrow → Contract → Tx Contract
refund_verifying env job_id e s = do
  assert (leb (safety_deadline e) env.block_timestamp_ms) Panic.too_early
  let (e', s') = refund_stalled_stake e s
  start_full_refund job_id (record e' { data_id = none; yield_consumed = false })
      (record s' { data_id_index = forget_data_id e.data_id s'.data_id_index })

unfoldable pub refund_by_status : EscrowStatus → Env → Text → Escrow → Contract → Tx Contract
refund_by_status pending_funding env job_id e s = ok (cancel_unfunded job_id e s)
refund_by_status opened env job_id e s = start_full_refund job_id e s
refund_by_status in_progress env job_id e s = refund_in_progress job_id e s
refund_by_status verifying env job_id e s = refund_verifying env job_id e s
refund_by_status settlement_failed env job_id e s = settle_escrow job_id s
refund_by_status _ env job_id e s = panic Panic.already_settled

unfoldable pub refund_expired : Env → Text → Contract → Tx Contract
refund_expired env job_id s = do
  assert (not s.paused) Panic.contract_paused
  e ← expect (lookup job_id s.escrows) Panic.escrow_not_found
  assert (ltb (expires_at e) env.block_timestamp_ms) Panic.not_expired
  refund_by_status e.status env job_id e s
