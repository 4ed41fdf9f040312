-- ===== src/Escrow/Lifecycle.antt =====
-- The start of an escrow's life: `create_escrow`, `ft_on_transfer`, `claim` and `claim_for`.
pub mod Funding
use near_escrow.Shared.Tests.{
  ℕ, ◌+◌, ◌*◌, Bool, true, false, Option, none, some, [], leb, ltb, nat_eq, not, ◌&&◌,
  if◌then◌else◌, is_none, is_some, add_u64, unwrap_or,
}
use near_escrow.Shared.Lists.{length, is_empty}
use near_escrow.Shared.Maps.{lookup, insert}
use near_escrow.Shared.Outcome.{ok, assert, expect, ◌>>=◌, ◌>>◌}
use near_escrow.Text.Bytes.{Text, ascii, ◌==◌}
use near_escrow.Escrow.Types.{
  EscrowStatus, pending_funding, opened, in_progress, same_status, EscrowMode, standard,
  competitive, Escrow,
}
use near_escrow.Escrow.Host.{Env, Tx, Panic}
use near_escrow.Escrow.Stats.{transition_stats}
use near_escrow.Escrow.State.{Contract, put_escrow}
use near_escrow.Escrow.Balances.{near_token_id, debit_balance}
use near_escrow.Escrow.Signature.{verify_worker_signature, job_message}
use near_escrow.Escrow.Admin.{is_token_allowed}
use near_escrow.Escrow.Wallet.{next_nonce, assert_not_paused}

abbrev pub max_job_id_len : ℕ
max_job_id_len = 128

abbrev pub max_task_description_len : ℕ
max_task_description_len = 2048

abbrev pub max_criteria_len : ℕ
max_criteria_len = 2048

-- The arguments of `create_escrow`.
pub record CreateArgs : Type 0 where
  pub job_id : Text
  pub amount : ℕ
  pub token : Text
  pub timeout_hours : ℕ
  pub task_description : Text
  pub criteria : Text
  pub verifier_fee : Option ℕ
  pub score_threshold : Option ℕ
  pub max_submissions : Option ℕ
  pub deadline_block : Option ℕ

-- `if let Some(st) = score_threshold { assert!(st <= 100) }`
abbrev pub threshold_in_range : Option ℕ → Bool
threshold_in_range none = true
threshold_in_range (some st) = leb st 100

abbrev pub mode_of : Option ℕ → EscrowMode
mode_of none = standard
mode_of (some _) = competitive

-- The record that `create_escrow` stores; the hours are at most 8760, so their product fits.
unfoldable pub new_escrow : Env → CreateArgs → Escrow
new_escrow env a = record {
  job_id = a.job_id;
  agent = env.signer;
  worker = none;
  amount = a.amount;
  token = a.token;
  created_at = env.block_timestamp_ms;
  timeout_ms = a.timeout_hours * 3600000;
  status = pending_funding;
  task_description = a.task_description;
  criteria = a.criteria;
  verifier_fee = unwrap_or a.verifier_fee 0;
  result = none;
  score_threshold = unwrap_or a.score_threshold 80;
  verdict = none;
  data_id = none;
  settlement_target = none;
  worker_stake = none;
  yield_consumed = false;
  worker_pubkey = none;
  mode = mode_of a.max_submissions;
  max_submissions = a.max_submissions;
  submissions = [];
  winner_idx = none;
  deadline_block = a.deadline_block;
  retry_count = 0;
  pending_payout = none;
  pending_stake_refund = none;
  verifying_since_ms = none;
}

unfoldable pub create_escrow : Env → CreateArgs → Contract → Tx Contract
create_escrow env a s = do
  assert (not s.paused) Panic.contract_paused
  assert (not (is_empty a.job_id)) Panic.job_id_required
  assert (leb (length a.job_id) max_job_id_len) Panic.job_id_too_long
  assert (is_token_allowed s a.token) Panic.token_not_allowed
  assert (ltb 0 a.amount) Panic.amount_zero
  assert (leb a.timeout_hours 8760) Panic.timeout_range
  assert (is_none (lookup a.job_id s.escrows)) Panic.job_id_exists
  assert (ltb (unwrap_or a.verifier_fee 0) a.amount) Panic.fee_too_high
  assert (threshold_in_range a.score_threshold) Panic.bad_score_threshold
  assert (leb (length a.task_description) max_task_description_len) Panic.description_too_long
  assert (not (is_empty a.criteria)) Panic.criteria_required
  assert (leb (length a.criteria) max_criteria_len) Panic.criteria_too_long
  assert (leb s.storage_deposit_yocto env.attached_deposit) Panic.storage_deposit_required
  let counted = record (s.stats) {
    total_created = add_u64 (s.stats.total_created) 1;
    pending_funding = add_u64 (s.stats.pending_funding) 1;
  }
  ok (record s { escrows = insert a.job_id (new_escrow env a) s.escrows; stats = counted })

-- The checks of `ft_on_transfer` on the escrow that the message names.
unfoldable pub accepts_funding : Env → Text → ℕ → Escrow → Bool
accepts_funding env sender_id amount e =
    sender_id == e.agent
    && env.predecessor == e.token
    && nat_eq amount e.amount
    && same_status e.status pending_funding

-- The new state and the amount that is handed back to the sender: all of it on a rejection.
unfoldable pub ft_on_transfer : Env → Text → ℕ → Text → Contract → Contract × ℕ
ft_on_transfer env sender_id amount msg s =
    if not (is_token_allowed s env.predecessor) then (s, amount) else elim (lookup msg s.escrows) [
      | none ↦ (s, amount)
      | some e ↦
          if accepts_funding env sender_id amount e
          then (
            record s {
              stats = transition_stats s.stats pending_funding opened;
              escrows = insert msg (record e { status = opened }) s.escrows;
            },
            0,
          )
          else (s, amount)
    ]

unfoldable pub claim : Env → Text → Contract → Tx Contract
claim env job_id s = do
  assert (not s.paused) Panic.contract_paused
  let caller = env.signer
  e ← expect (lookup job_id s.escrows) Panic.escrow_not_found
  assert (same_status e.status opened) Panic.not_open
  assert (is_none e.worker) Panic.already_claimed
  assert (not (caller == e.agent)) Panic.agent_claims
  assert (leb s.worker_stake_yocto env.attached_deposit) Panic.stake_required
  let claimed_escrow = record e {
    worker = some caller;
    worker_stake = some env.attached_deposit;
    status = in_progress;
  }
  ok (record s {
    escrows = insert job_id claimed_escrow s.escrows;
    stats = transition_stats s.stats e.status in_progress;
  })

unfoldable pub claim_for : Env → Text → Text → Text → Contract → Tx Contract
claim_for env job_id worker_pubkey worker_signature s = do
  assert (not s.paused) Panic.contract_paused
  worker ← expect (lookup worker_pubkey s.workers) Panic.not_registered
  assert_not_paused worker_pubkey s
  verify_worker_signature env worker_pubkey (job_message env (ascii "claim") job_id worker.nonce)
      worker_signature
  e ← expect (lookup job_id s.escrows) Panic.escrow_not_found
  assert (same_status e.status opened) Panic.not_open
  assert (is_none e.worker && is_none e.worker_pubkey) Panic.already_claimed
  assert (not (worker_pubkey == e.agent)) Panic.agent_claims
  balances ← debit_balance s.balances worker_pubkey near_token_id s.worker_stake_yocto
  let claimed_escrow = record e {
    worker_pubkey = some worker_pubkey;
    worker = some env.signer;
    worker_stake = some s.worker_stake_yocto;
    status = in_progress;
  }
  ok (record s {
    workers = insert worker_pubkey (next_nonce worker) s.workers;
    balances = balances;
    escrows = insert job_id claimed_escrow s.escrows;
    stats = transition_stats s.stats opened in_progress;
  })
