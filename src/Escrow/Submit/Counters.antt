-- ===== src/Escrow/Submit/Counters.antt =====
-- What the submissions do to the status counters.
use near_escrow.Shared.Tests.{◌≡◌, refl, ◌∙◌, ap, inl, inr, some, arith, Option-cases, unwrap_or}
use near_escrow.Shared.Maps.{lookup, insert, lookup-insert_self}
use near_escrow.Shared.Outcome.{ok}
use near_escrow.Text.Bytes.{Text}
use near_escrow.Escrow.Types.{in_progress, verifying, standard, Escrow}
use near_escrow.Escrow.Stats.{transition_stats}
use near_escrow.Escrow.Host.{Env}
use near_escrow.Escrow.State.{Contract}
use near_escrow.Escrow.Wallet.{fresh_account, next_nonce}
use near_escrow.Escrow.Submit.{
  start_verification, submit_standard, submit_by_mode, submit_result, submit_standard_for,
  submit_by_mode_for, submit_result_for,
}

start_verification-stats :
    (env : Env) (job_id : Text) (e : Escrow) (s s' : Contract)
    → start_verification env job_id e s ≡ ok s'
    → (s'.stats ≡ s.stats)
      × ((e' : Escrow) × (s'.escrows ≡ insert job_id e' s.escrows) × (e'.status ≡ verifying))
unfolding start_verification
start_verification-stats env job_id e s s' h = elim (Option-cases env.register) [
  | inl unset ↦ ground arith
  | inr (data_id, set_to) ↦ (
    ground arith,
    (
      record e {
        data_id = some data_id;
        status = verifying;
        verifying_since_ms = some env.block_timestamp_ms;
      },
      ground arith,
      refl,
    ),
  )
]

-- A standard submission by the assigned account of an escrow in progress stores it as verifying,
-- and leaves every counter as it was.
pub submit_result-leaves_counters :
    (env : Env) (job_id result : Text) (s s' : Contract) {e : Escrow}
    → lookup job_id s.escrows ≡ some e
    → e.mode ≡ standard
    → e.status ≡ in_progress
    → submit_result env job_id result s ≡ ok s'
    → (s'.stats ≡ s.stats)
      × ((e' : Escrow) × (lookup job_id s'.escrows ≡ some e') × (e'.status ≡ verifying))
unfolding submit_result submit_by_mode submit_standard
submit_result-leaves_counters env job_id result s s' {e} found mode working h =
    let started : start_verification env job_id (record e { result = some result }) s ≡ ok s' =
      ground arith in
    let (counters, (e', stored, status)) =
      start_verification-stats env job_id (record e { result = some result }) s s' started in
    (counters, (e', ap (lookup job_id) stored ∙ lookup-insert_self job_id e' s.escrows, status))

-- A standard submission by a worker key of an escrow in progress stores it as verifying, and moves
-- it from one counter to the other.
pub submit_result_for-moves_counters :
    (env : Env) (job_id result key signature : Text) (s s' : Contract) {e : Escrow}
    → lookup job_id s.escrows ≡ some e
    → e.mode ≡ standard
    → e.status ≡ in_progress
    → submit_result_for env job_id result key signature s ≡ ok s'
    → (s'.stats ≡ transition_stats s.stats in_progress verifying)
      × ((e' : Escrow) × (lookup job_id s'.escrows ≡ some e') × (e'.status ≡ verifying))
unfolding submit_result_for submit_by_mode_for submit_standard_for
submit_result_for-moves_counters env job_id result key signature s s' {e} found mode working h =
    let worker = unwrap_or (lookup key s.workers) (fresh_account key) in
    let counted = record s {
      workers = insert key (next_nonce worker) s.workers;
      stats = transition_stats s.stats in_progress verifying;
    } in
    let started : start_verification env job_id (record e { result = some result }) counted
        ≡ ok s' =
      ground arith in
    let (counters, (e', stored, status)) =
      start_verification-stats env job_id (record e { result = some result }) counted s' started in
    (counters, (e', ap (lookup job_id) stored ∙ lookup-insert_self job_id e' s.escrows, status))
