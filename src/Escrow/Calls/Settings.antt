-- ===== src/Escrow/Calls/Settings.antt =====
-- The owner's settings across all calls: who changes them, and the threshold among them.
pub mod Threshold
use near_escrow.Shared.Tests.{
  ◌≡◌, ◌⊎◌, ◌∙◌, ap, Option-cases, Bool-cases, refl, inl, inr, false, none, some, arith, unwrap_or,
}
use near_escrow.Shared.Maps.{lookup, insert}
use near_escrow.Shared.Outcome.{ok}
use near_escrow.Text.Bytes.{Text, ◌==◌, ==_iff}
use near_escrow.Escrow.Host.{Env}
use near_escrow.Escrow.State.{Contract}
use near_escrow.Escrow.Admin
use near_escrow.Escrow.Wallet
use near_escrow.Escrow.Wallet.{fresh_account, next_nonce}
use near_escrow.Escrow.Lifecycle
use near_escrow.Escrow.Submit
use near_escrow.Escrow.Compete
use near_escrow.Escrow.Consensus
use near_escrow.Escrow.Calls
use near_escrow.Escrow.Calls.{
  SideCall, EscrowCall, Call, side, escrow, run_side, run_escrow, run_call, accept_owner,
  resume_verification_multi, resume_verification, create_escrow, ft_on_transfer, claim_for,
  submit_result, submit_result_for, designate_winner, verification_callback, settle_callback,
  retry_settlement, cancel, force_cancel_verifying, refund_expired, cleanup_completed,
}
use near_escrow.Escrow.Calls.Keeps.{settings, same_settings}
use near_escrow.Escrow.Calls.Workers.{
  verification_callback-kept, settle_callback-kept, retry_settlement-kept, designate_winner-kept,
  submit_result-kept, submit_by_mode_for-kept, cancel-kept,
}
use near_escrow.Escrow.Calls.Refunds.{force_cancel_verifying-kept, refund_expired-kept}

pub resume_yield-settings :
    (data_id_hex payload : Text) (s : Contract) {s' : Contract}
    → Consensus.resume_yield data_id_hex payload s ≡ ok s'
    → settings s' ≡ settings s
unfolding Consensus.resume_yield
resume_yield-settings data_id_hex payload s h = ground arith

accept_owner-settings :
    (env : Env) (s : Contract) {s' : Contract}
    → Admin.accept_owner env s ≡ ok s'
    → (s.pending_owner ≡ some env.predecessor)
      × (settings s' ≡ record (settings s) { owner = env.predecessor; pending_owner = none })
unfolding Admin.accept_owner
accept_owner-settings env s h = elim (Option-cases s.pending_owner) [
  | inl nobody ↦ ground (arith, nobody)
  | inr (po, proposed) ↦ elim (Bool-cases (po == env.predecessor)) [
    | inr other ↦ ground (arith, proposed, other)
    | inl same ↦
        (proposed ∙ ap some ((==_iff po env.predecessor).0 same), ground (arith, proposed, same))
  ]
]

run_side-settings :
    (env : Env) (c : SideCall) (s : Contract) {s' : Contract}
    → run_side env c s ≡ ok s'
    → env.predecessor == s.owner ≡ false
    → (settings s' ≡ settings s)
      ⊎ ((s.pending_owner ≡ some env.predecessor)
          × (settings s' ≡ record (settings s) { owner = env.predecessor; pending_owner = none }))
unfolding run_side Admin.add_verifier Admin.deactivate_verifier Admin.set_consensus_threshold
    Admin.propose_owner Admin.accept_owner Admin.pause Admin.unpause Admin.add_allowed_token
    Admin.remove_allowed_token Admin.set_storage_deposit Admin.set_worker_stake
    Wallet.register_worker Wallet.deposit_to_worker Wallet.pause_worker Wallet.unpause_worker
    Wallet.withdraw Wallet.link_near_account Consensus.resume_verification_multi
    Consensus.resume_verification
run_side-settings env (resume_verification_multi d v) s {s'} h other =
    inl (ground (arith, resume_yield-settings d v.verdict_json s {s' = s'}))
run_side-settings env (resume_verification d v i sig) s {s'} h other =
    inl (ground (arith, resume_yield-settings d v s {s' = s'}))
run_side-settings env accept_owner s h other = inr (accept_owner-settings env s h)
run_side-settings env _ s h other = inl (ground arith)

submit_result_for-settings :
    (env : Env) (job_id result key signature : Text) (s : Contract) {s' : Contract}
    → Submit.submit_result_for env job_id result key signature s ≡ ok s'
    → settings s' ≡ settings s
unfolding Submit.submit_result_for
submit_result_for-settings env job_id result key signature s {s'} h =
    elim (Option-cases (lookup job_id s.escrows)) [
      | inl missing ↦ ground arith
      | inr (e, found) ↦
          let worker = unwrap_or (lookup key s.workers) (fresh_account key) in
          let mid = record s { workers = insert key (next_nonce worker) s.workers } in
          same_settings
            (submit_by_mode_for-kept e.mode env job_id result key e mid {s' = s'} (ground arith))
    ]

pub run_escrow-settings :
    (env : Env) (c : EscrowCall) (s : Contract) {s' : Contract}
    → run_escrow env c s ≡ ok s'
    → settings s' ≡ settings s
unfolding run_escrow Lifecycle.create_escrow Lifecycle.ft_on_transfer Lifecycle.claim
    Lifecycle.claim_for Compete.cleanup_completed
run_escrow-settings env (create_escrow a) s h = ground arith
run_escrow-settings env (ft_on_transfer a m t) s h = ground arith
run_escrow-settings env (EscrowCall.claim j) s h = ground arith
run_escrow-settings env (claim_for j w sig) s h = ground arith
run_escrow-settings env (submit_result j r) s h = same_settings (submit_result-kept env j r s h)
run_escrow-settings env (submit_result_for j r w sig) s h =
    submit_result_for-settings env j r w sig s h
run_escrow-settings env (designate_winner j i) s h =
    same_settings (designate_winner-kept env j i s h)
run_escrow-settings env (verification_callback j) s h =
    same_settings (verification_callback-kept env j s h)
run_escrow-settings env (settle_callback j) s h = same_settings (settle_callback-kept env j s h)
run_escrow-settings env (retry_settlement j) s h = same_settings (retry_settlement-kept env j s h)
run_escrow-settings env (cancel j) s h = same_settings (cancel-kept env j s h)
run_escrow-settings env (force_cancel_verifying j) s h =
    same_settings (force_cancel_verifying-kept env j s h)
run_escrow-settings env (refund_expired j) s h = same_settings (refund_expired-kept env j s h)
run_escrow-settings env (cleanup_completed m) s h = ground arith

-- Whatever call another caller than the owner makes, it keeps the owner's settings, or it is the
-- proposed owner's acceptance, which changes the owner to that caller and nothing else of them.
pub settings_change_by_owner :
    (env : Env) (c : Call) (s s' : Contract)
    → run_call env c s ≡ ok s'
    → env.predecessor == s.owner ≡ false
    → (settings s' ≡ settings s)
      ⊎ ((s.pending_owner ≡ some env.predecessor)
          × (settings s' ≡ record (settings s) { owner = env.predecessor; pending_owner = none }))
unfolding run_call
settings_change_by_owner env (side c) s s' h other = run_side-settings env c s h other
settings_change_by_owner env (escrow c) s s' h other = inl (run_escrow-settings env c s h)
