-- ===== src/Escrow/Types.antt =====
-- The data types of the escrow contract: verdicts, verifiers, statuses, escrows and their views.
-- Amounts, times and counters are plain numbers; the operations write their widths out.
use near_escrow.Shared.Tests.{ℕ, Bool, true, false, Option, List}
use near_escrow.Text.Bytes.{Text}

pub record VerifierVerdict : Type 0 where
  pub score : ℕ  -- u8
  pub passed : Bool
  pub detail : Text

pub record VerifierInfo : Type 0 where
  pub account_id : Text
  pub public_key : Text
  pub active : Bool

pub record VerifierSignature : Type 0 where
  pub verifier_index : ℕ  -- u8
  pub signature : Text

pub record SignedVerdict : Type 0 where
  pub verdict_json : Text
  pub signatures : List VerifierSignature

pub data EscrowStatus : Type 0 where
  pending_funding opened in_progress verifying claimed refunded cancelled : EscrowStatus
  settlement_failed : EscrowStatus

-- The derived `==` on statuses.
abbrev pub same_status : EscrowStatus → EscrowStatus → Bool
same_status pending_funding pending_funding = true
same_status opened opened = true
same_status in_progress in_progress = true
same_status verifying verifying = true
same_status claimed claimed = true
same_status refunded refunded = true
same_status cancelled cancelled = true
same_status settlement_failed settlement_failed = true
same_status _ _ = false

pub data SettlementTarget : Type 0 where
  claim refund full_refund : SettlementTarget

pub data EscrowMode : Type 0 where
  standard competitive : EscrowMode

pub record WorkerAccount : Type 0 where
  pub nostr_pubkey : Text
  pub near_account_id : Option Text
  pub nonce : ℕ  -- u64

pub record Submission : Type 0 where
  pub worker : Text
  pub result : Text
  pub stake : ℕ  -- u128
  pub worker_pubkey : Option Text

pub record Escrow : Type 0 where
  pub job_id : Text
  pub agent : Text
  pub worker : Option Text
  pub amount : ℕ  -- u128
  pub token : Text
  pub created_at : ℕ  -- u64
  pub timeout_ms : ℕ  -- u64
  pub status : EscrowStatus
  pub task_description : Text
  pub criteria : Text
  pub verifier_fee : ℕ  -- u128
  pub result : Option Text
  pub score_threshold : ℕ  -- u8
  pub verdict : Option VerifierVerdict
  pub data_id : Option Text
  pub settlement_target : Option SettlementTarget
  pub worker_stake : Option ℕ
  pub yield_consumed : Bool
  pub worker_pubkey : Option Text
  pub mode : EscrowMode
  pub max_submissions : Option ℕ  -- u32
  pub submissions : List Submission
  pub winner_idx : Option ℕ  -- u32
  pub deadline_block : Option ℕ  -- u64
  pub retry_count : ℕ  -- u8
  pub pending_payout : Option ℕ
  pub pending_stake_refund : Option ℕ
  pub verifying_since_ms : Option ℕ
