-- ===== src/Escrow/Calls.antt =====
-- All calls that change the contract's state, as one step function, and the states that a
-- sequence of calls reaches. A call that panics leaves the state as it was.
pub mod Keeps
pub mod Settings
pub mod Sides
pub mod Safety
pub mod Workers
pub mod Refunds
pub mod Counted
pub mod Nonces
pub mod Journey
pub mod Paid
use near_escrow.Shared.Tests.{ℕ, ◌≡◌, Option, List}
use near_escrow.Shared.Outcome.{Outcome, ok, panic}
use near_escrow.Text.Bytes.{Text}
use near_escrow.Escrow.Types.{VerifierInfo, SignedVerdict}
use near_escrow.Escrow.Host.{Env, Tx, Panic}
use near_escrow.Escrow.State.{Contract}
use near_escrow.Escrow.Lifecycle.{CreateArgs}
use near_escrow.Escrow.Admin
use near_escrow.Escrow.Wallet
use near_escrow.Escrow.Lifecycle
use near_escrow.Escrow.Submit
use near_escrow.Escrow.Consensus
use near_escrow.Escrow.Settle
use near_escrow.Escrow.Verdict
use near_escrow.Escrow.Compete
use near_escrow.Escrow.Cancel

-- The administration and the wallet, which never touch an escrow.
pub data SideCall : Type 0 where
  add_verifier : (account_id public_key : Text) → SideCall
  deactivate_verifier set_consensus_threshold : ℕ → SideCall
  propose_owner : Text → SideCall
  accept_owner pause unpause : SideCall
  add_allowed_token remove_allowed_token : Text → SideCall
  set_storage_deposit set_worker_stake : ℕ → SideCall
  register_worker deposit_to_worker pause_worker unpause_worker : Text → SideCall
  withdraw : (worker_pubkey token : Text) (amount : ℕ) (to signature : Text) → SideCall
  link_near_account : (worker_pubkey near_account_id signature : Text) → SideCall
  resume_verification_multi : Text → SignedVerdict → SideCall
  resume_verification : (data_id_hex verdict_json : Text) → ℕ → Text → SideCall

-- The calls that act on escrows.
pub data EscrowCall : Type 0 where
  create_escrow : CreateArgs → EscrowCall
  ft_on_transfer : (sender_id : Text) (amount : ℕ) (msg : Text) → EscrowCall
  claim : (job_id : Text) → EscrowCall
  claim_for : (job_id worker_pubkey worker_signature : Text) → EscrowCall
  submit_result : (job_id result : Text) → EscrowCall
  submit_result_for : (job_id result worker_pubkey worker_signature : Text) → EscrowCall
  designate_winner : (job_id : Text) (winner_idx : ℕ) → EscrowCall
  verification_callback settle_callback retry_settlement : (job_id : Text) → EscrowCall
  cancel force_cancel_verifying refund_expired : (job_id : Text) → EscrowCall
  cleanup_completed : (max_count : ℕ) → EscrowCall

pub data Call : Type 0 where
  side : SideCall → Call
  escrow : EscrowCall → Call

unfoldable pub run_side : Env → SideCall → Contract → Tx Contract
run_side env (add_verifier a k) = Admin.add_verifier env a k
run_side env (deactivate_verifier i) = Admin.deactivate_verifier env i
run_side env (set_consensus_threshold n) = Admin.set_consensus_threshold env n
run_side env (propose_owner a) = Admin.propose_owner env a
run_side env accept_owner = Admin.accept_owner env
run_side env pause = Admin.pause env
run_side env unpause = Admin.unpause env
run_side env (add_allowed_token t) = Admin.add_allowed_token env t
run_side env (remove_allowed_token t) = Admin.remove_allowed_token env t
run_side env (set_storage_deposit n) = Admin.set_storage_deposit env n
run_side env (set_worker_stake n) = Admin.set_worker_stake env n
run_side env (register_worker w) = Wallet.register_worker env w
run_side env (deposit_to_worker w) = Wallet.deposit_to_worker env w
run_side env (pause_worker w) = Wallet.pause_worker env w
run_side env (unpause_worker w) = Wallet.unpause_worker env w
run_side env (withdraw w t n to sig) = Wallet.withdraw env w t n to sig
run_side env (link_near_account w a sig) = Wallet.link_near_account env w a sig
run_side env (resume_verification_multi d v) = Consensus.resume_verification_multi env d v
run_side env (resume_verification d v i sig) = Consensus.resume_verification env d v i sig

unfoldable pub run_escrow : Env → EscrowCall → Contract → Tx Contract
run_escrow env (create_escrow a) s = Lifecycle.create_escrow env a s
run_escrow env (ft_on_transfer a n m) s = ok (Lifecycle.ft_on_transfer env a n m s).0
run_escrow env (claim j) s = Lifecycle.claim env j s
run_escrow env (claim_for j w sig) s = Lifecycle.claim_for env j w sig s
run_escrow env (submit_result j r) s = Submit.submit_result env j r s
run_escrow env (submit_result_for j r w sig) s = Submit.submit_result_for env j r w sig s
run_escrow env (designate_winner j i) s = Compete.designate_winner env j i s
run_escrow env (verification_callback j) s = Verdict.verification_callback env j s
run_escrow env (settle_callback j) s = Settle.settle_callback env j s
run_escrow env (retry_settlement j) s = Settle.retry_settlement env j s
run_escrow env (cancel j) s = Cancel.cancel env j s
run_escrow env (force_cancel_verifying j) s = Cancel.force_cancel_verifying env j s
run_escrow env (refund_expired j) s = Cancel.refund_expired env j s
run_escrow env (cleanup_completed n) s = ok (Compete.cleanup_completed n s).0

unfoldable pub run_call : Env → Call → Contract → Tx Contract
run_call env (side c) = run_side env c
run_call env (escrow c) = run_escrow env c

-- The states that calls reach from a newly set-up contract, in any environments.
pub data Reachable : Contract → Type 0 where
  initial :
      (env : Env) (verifiers : List VerifierInfo) (threshold : Option ℕ) (tokens : List Text)
      {s : Contract}
      → Admin.new env verifiers threshold tokens ≡ ok s
      → Reachable s
  call :
      (env : Env) (c : Call) {s s' : Contract}
      → Reachable s
      → run_call env c s ≡ ok s'
      → Reachable s'
