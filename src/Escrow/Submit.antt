-- ===== src/Escrow/Submit.antt =====
-- Submission of results: `submit_result` by a NEAR account and `submit_result_for` by a signed
-- worker key. Standard mode starts verification; competitive mode records a submission.
pub mod Counters
use near_escrow.Shared.Tests.{
  ℕ, ◌%◌, Bool, true, false, Option, none, some, List, [], ◌∷◌, ◌++◌, leb, ltb, nat_eq, not, ◌&&◌,
  if◌then◌else◌, is_none, is_some, u32_mod, unwrap_or, ◌-◌,
}
use near_escrow.Shared.Lists.{length, is_empty, any}
use near_escrow.Shared.Maps.{lookup, insert}
use near_escrow.Shared.Outcome.{ok, assert, expect, ◌>>=◌, ◌>>◌}
use near_escrow.Text.Bytes.{Text, ascii, ◌==◌}
use near_escrow.Text.Hex.{hex_encode}
use near_escrow.Escrow.Types.{
  EscrowStatus, opened, in_progress, verifying, same_status, EscrowMode, standard, competitive,
  Submission, Escrow, WorkerAccount,
}
use near_escrow.Escrow.Host.{Env, Tx, Panic, transfer, yield_create}
use near_escrow.Escrow.Stats.{transition_stats}
use near_escrow.Escrow.State.{Contract, put_escrow, schedule}
use near_escrow.Escrow.Balances.{near_token_id, credit_balance, debit_balance}
use near_escrow.Escrow.Signature.{verify_worker_signature, job_message}
use near_escrow.Escrow.Wallet.{fresh_account, next_nonce, assert_not_paused}

abbrev pub max_result_len : ℕ
max_result_len = 8192

abbrev pub max_competitive_result_len : ℕ
max_competitive_result_len = 2048

-- `option.as_ref() == Some(&text)`
abbrev pub is_text : Option Text → Text → Bool
is_text none t = false
is_text (some s) t = s == t

-- `if let Some(deadline) = ... { assert!(block_height <= deadline) }`
abbrev pub before_deadline : Env → Option ℕ → Bool
before_deadline env none = true
before_deadline env (some deadline) = leb env.block_height deadline

-- The common end of the two submissions and of `designate_winner`: the yield is created, its
-- `data_id` read from the register, and the escrow stored as `Verifying`.
unfoldable pub start_verification : Env → Text → Escrow → Contract → Tx Contract
start_verification env job_id e s = do
  data_id ← expect env.register Panic.register_unset
  assert (nat_eq (length data_id) 32) Panic.bad_data_id
  let waiting = record e {
    data_id = some data_id;
    status = verifying;
    verifying_since_ms = some env.block_timestamp_ms;
  }
  ok (
      schedule (yield_create job_id) (record s {
        escrows = insert job_id waiting s.escrows;
        data_id_index = insert (hex_encode data_id) job_id s.data_id_index;
      }))

-- The repeat of a submission that is already being verified.
abbrev pub is_repeat : Option Text → Text → Escrow → Bool
is_repeat who caller e = same_status e.status verifying && is_text who caller && is_some e.data_id

-- `(escrow.submissions.len() as u32) < max_submissions.unwrap_or(u32::MAX)`
abbrev pub has_room : Escrow → Bool
has_room e = ltb (length e.submissions % u32_mod) (unwrap_or e.max_submissions (u32_mod - 1))

abbrev pub add_submission : Submission → Escrow → Escrow
add_submission x e = record e { submissions = e.submissions ++ x ∷ [] }

unfoldable pub submit_competitive : Env → Text → Text → Escrow → Contract → Tx Contract
submit_competitive env job_id result e s = do
  assert (same_status e.status opened) Panic.not_open
  assert (leb (length result) max_competitive_result_len) Panic.result_too_long
  assert (before_deadline env e.deadline_block) Panic.deadline_passed
  assert (leb s.worker_stake_yocto env.attached_deposit) Panic.stake_required
  if any (λ x. x.worker == env.signer) e.submissions
      then ok (
          if ltb 0 env.attached_deposit
          then schedule (transfer env.signer env.attached_deposit) s
          else s)
      else do
        assert (has_room e) Panic.max_submissions_reached
        let x : Submission = record {
          worker = env.signer;
          result = result;
          stake = s.worker_stake_yocto;
          worker_pubkey = none;
        }
        ok (put_escrow job_id (add_submission x e) s)

-- The standard branch does not call `transition_stats`.
unfoldable pub submit_standard : Env → Text → Text → Escrow → Contract → Tx Contract
submit_standard env job_id result e s = if is_repeat e.worker env.signer e then ok s else do
  assert (same_status e.status in_progress) Panic.not_in_progress
  assigned_worker ← expect e.worker Panic.no_worker
  assert (env.signer == assigned_worker) Panic.not_the_worker
  start_verification env job_id (record e { result = some result }) s

unfoldable pub submit_by_mode : EscrowMode → Env → Text → Text → Escrow → Contract → Tx Contract
submit_by_mode competitive = submit_competitive
submit_by_mode standard = submit_standard

unfoldable pub submit_result : Env → Text → Text → Contract → Tx Contract
submit_result env job_id result s = do
  assert (not s.paused) Panic.contract_paused
  e ← expect (lookup job_id s.escrows) Panic.escrow_not_found
  assert (not (is_empty result)) Panic.result_empty
  assert (leb (length result) max_result_len) Panic.result_too_long
  submit_by_mode e.mode env job_id result e s

-- A repeated submission gives back the stake that was just taken.
unfoldable pub submit_competitive_for : Env → Text → Text → Text → Escrow → Contract → Tx Contract
submit_competitive_for env job_id result worker_pubkey e s = do
  assert (same_status e.status opened) Panic.not_open
  assert (leb (length result) max_competitive_result_len) Panic.result_too_long
  assert (before_deadline env e.deadline_block) Panic.deadline_passed
  balances ← debit_balance s.balances worker_pubkey near_token_id s.worker_stake_yocto
  if any (λ x. is_text x.worker_pubkey worker_pubkey) e.submissions
      then ok (record s {
        balances = credit_balance balances worker_pubkey near_token_id s.worker_stake_yocto;
      })
      else do
        assert (has_room e) Panic.max_submissions_reached
        let x : Submission = record {
          worker = env.signer;
          result = result;
          stake = s.worker_stake_yocto;
          worker_pubkey = some worker_pubkey;
        }
        ok (put_escrow job_id (add_submission x e) (record s { balances = balances }))

unfoldable pub submit_standard_for : Env → Text → Text → Text → Escrow → Contract → Tx Contract
submit_standard_for env job_id result worker_pubkey e s =
    if is_repeat e.worker_pubkey worker_pubkey e then ok s else do
      assert (same_status e.status in_progress) Panic.not_in_progress
      assert (is_text e.worker_pubkey worker_pubkey) Panic.not_the_worker
      start_verification env job_id (record e { result = some result })
          (record s { stats = transition_stats s.stats in_progress verifying })

unfoldable pub submit_by_mode_for :
    EscrowMode → Env → Text → Text → Text → Escrow → Contract → Tx Contract
submit_by_mode_for competitive = submit_competitive_for
submit_by_mode_for standard = submit_standard_for

unfoldable pub submit_result_for : Env → Text → Text → Text → Text → Contract → Tx Contract
submit_result_for env job_id result worker_pubkey worker_signature s = do
  assert (not s.paused) Panic.contract_paused
  assert (not (is_empty result)) Panic.result_empty
  assert (leb (length result) max_result_len) Panic.result_too_long
  let worker = unwrap_or (lookup worker_pubkey s.workers) (fresh_account worker_pubkey)
  assert_not_paused worker_pubkey s
  verify_worker_signature env worker_pubkey
      (job_message env (ascii "submit_result") job_id worker.nonce) worker_signature
  let registered = record s { workers = insert worker_pubkey (next_nonce worker) s.workers }
  e ← expect (lookup job_id s.escrows) Panic.escrow_not_found
  submit_by_mode_for e.mode env job_id result worker_pubkey e registered
