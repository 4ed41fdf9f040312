-- ===== src/Escrow/Host.antt =====
-- What the NEAR runtime and the SDK give a call, and what a call hands back to them.
use near_escrow.Shared.Tests.{ℕ, Bool, Option, List}
use near_escrow.Shared.Outcome.{Outcome}
use near_escrow.Text.Bytes.{Text}
use near_escrow.Escrow.Types.{VerifierVerdict}

pub data PromiseResult : Type 0 where
  successful : Text → PromiseResult
  failed : PromiseResult

-- The three lookups that `verification_callback` makes in a parsed payload; `none` where the
-- field is missing or of another type.
pub record Payload : Type 0 where
  pub score : Option ℕ
  pub passed : Option Bool
  pub detail : Option Text

-- The environment of one call. The functions stand for code outside the repository: the host's
-- ed25519 verification, serde_json, the `hex` crate and the SDK's account parser.
pub record Env : Type 0 where
  pub predecessor : Text
  pub signer : Text
  pub current_account : Text
  pub attached_deposit : ℕ
  pub block_timestamp_ms : ℕ
  pub block_height : ℕ
  pub state_exists : Bool
  pub promise_results : List PromiseResult
  -- What `promise_yield_create` leaves in the register.
  pub register : Option Text
  pub ed25519_verify : Text → Text → Text → Bool
  pub parse_verdict : Text → Option VerifierVerdict
  pub parse_payload : Text → Option Payload
  pub decode_hex : Text → Option Text
  pub is_account_id : Text → Bool

pub record FtTransfer : Type 0 where
  pub token : Text
  pub receiver : Text
  pub amount : ℕ

-- The promises that a call schedules; each runs in a later receipt.
pub data Promise : Type 0 where
  -- `Promise::new(to).transfer(amount)`
  transfer : Text → ℕ → Promise
  -- `ft_transfer_promise`
  ft_transfer : FtTransfer → Promise
  -- transfers joined by `and`, then `settle_callback(job_id)`
  settle_batch : List FtTransfer → Text → Promise
  -- `promise_yield_create("verification_callback", {job_id})`
  yield_create : Text → Promise
  -- `promise_yield_resume(data_id, payload)`
  yield_resume : Text → Text → Promise

-- The messages with which the contract panics.
pub data Panic : Type 0 where
  already_initialized no_verifiers bad_verifier_key threshold_too_high threshold_zero : Panic
  only_owner key_length verifier_known bad_verifier_index not_proposed_owner : Panic
  no_pending_owner contract_paused : Panic
  pubkey_required pubkey_length already_registered worker_paused not_registered : Panic
  no_deposit insufficient_balance bad_token_account : Panic
  invalid_hex bad_pubkey_length bad_signature_length invalid_signature : Panic
  escrow_not_found not_open already_claimed agent_claims stake_required : Panic
  job_id_required job_id_too_long token_not_allowed amount_zero timeout_range job_id_exists : Panic
  fee_too_high bad_score_threshold description_too_long criteria_required criteria_too_long : Panic
  storage_deposit_required : Panic
  result_empty result_too_long deadline_passed max_submissions_reached : Panic
  not_in_progress not_the_worker no_worker register_unset bad_data_id : Panic
  too_many_signatures insufficient_signatures invalid_verdict_json escrow_vanished : Panic
  yield_consumed data_id_length verifier_inactive bad_pubkey_hex slice_boundary : Panic
  callback_only no_settlement_target payout_zero refund_zero nothing_to_refund : Panic
  not_retryable retry_before_expiry : Panic
  not_competitive not_agent_or_owner expired winner_out_of_range : Panic
  only_agent cannot_cancel not_verifying too_early not_expired already_settled : Panic
  unknown_status no_state private_method deposit_zero : Panic

-- A call's result: a value, or a panic that undoes the call.
abbrev pub Tx : Type 0 → Type 0
Tx A = Outcome Panic A
