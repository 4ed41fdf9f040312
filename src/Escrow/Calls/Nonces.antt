-- ===== src/Escrow/Calls/Nonces.antt =====
-- A worker's nonce across all calls, and a withdrawal that is repeated at any later time.
use near_escrow.Shared.Tests.{
  ℕ, ◌+◌, ◌<◌, ◌≡◌, ap, ◌∙◌, true, inl, inr, some, arith, Option-cases, u64_mod,
}
use near_escrow.Shared.Maps.{lookup, lookup-insert_self}
use near_escrow.Shared.Outcome.{ok}
use near_escrow.Text.Bytes.{Text, ascii}
use near_escrow.Text.Hex.{hex_decode}
use near_escrow.Text.Decimal.{decimal, join, join-decimal_injective}
use near_escrow.Escrow.Types.{WorkerAccount}
use near_escrow.Escrow.Host.{Env}
use near_escrow.Escrow.State.{Contract}
use near_escrow.Escrow.Signature.{verify_worker_signature, withdraw_message}
use near_escrow.Escrow.Admin
use near_escrow.Escrow.Wallet
use near_escrow.Escrow.Wallet.{fresh_account, next_nonce}
use near_escrow.Escrow.Wallet.Replay.{withdraw-effect}
use near_escrow.Escrow.Lifecycle
use near_escrow.Escrow.Compete
use near_escrow.Escrow.Consensus
use near_escrow.Escrow.Calls.{
  SideCall, EscrowCall, Call, side, escrow, run_side, run_escrow, run_call, register_worker,
  withdraw, link_near_account, resume_verification_multi, resume_verification, create_escrow,
  ft_on_transfer, claim_for, submit_result, submit_result_for, designate_winner,
  verification_callback, settle_callback, retry_settlement, cancel, force_cancel_verifying,
  refund_expired, cleanup_completed,
}
use near_escrow.Escrow.Calls.Keeps.{same_workers}
use near_escrow.Escrow.Calls.Workers.{
  verification_callback-kept, settle_callback-kept, retry_settlement-kept, designate_winner-kept,
  submit_result-kept, cancel-kept,
}
use near_escrow.Escrow.Calls.Refunds.{force_cancel_verifying-kept, refund_expired-kept}
use near_escrow.Escrow.Calls.Counted.{
  Counted, Counted-same, register_worker-Counted, withdraw-Counted, link_near_account-Counted,
  claim_for-Counted, submit_result_for-Counted,
}

-- The states that calls lead to from a given one, in any environments.
pub data Later (s : Contract) : Contract → Type 0 where
  now : Later s s
  followed_by :
      {t u : Contract} (env : Env) (c : Call) → Later s t → run_call env c t ≡ ok u → Later s u

resume_yield-workers :
    (data_id_hex payload : Text) (s : Contract) {s' : Contract}
    → Consensus.resume_yield data_id_hex payload s ≡ ok s'
    → s'.workers ≡ s.workers
unfolding Consensus.resume_yield
resume_yield-workers data_id_hex payload s h = ground arith

run_side-Counted :
    (env : Env) (call : SideCall) (key : Text) (n : ℕ) (s : Contract) {s' : Contract}
    → Counted key n s
    → run_side env call s ≡ ok s'
    → Counted key n s'
unfolding run_side Admin.add_verifier Admin.deactivate_verifier Admin.set_consensus_threshold
    Admin.propose_owner Admin.accept_owner Admin.pause Admin.unpause Admin.add_allowed_token
    Admin.remove_allowed_token Admin.set_storage_deposit Admin.set_worker_stake
    Wallet.deposit_to_worker Wallet.pause_worker Wallet.unpause_worker
    Consensus.resume_verification_multi Consensus.resume_verification
run_side-Counted env (register_worker j) key n s c h = register_worker-Counted env j key n s c h
run_side-Counted env (withdraw j t m to sig) key n s c h =
    withdraw-Counted env j t m to sig key n s c h
run_side-Counted env (link_near_account j a sig) key n s c h =
    link_near_account-Counted env j a sig key n s c h
run_side-Counted env (resume_verification_multi d v) key n s {s'} c h =
    Counted-same c (ground (arith, resume_yield-workers d v.verdict_json s {s' = s'}))
run_side-Counted env (resume_verification d v i sig) key n s {s'} c h =
    Counted-same c (ground (arith, resume_yield-workers d v s {s' = s'}))
run_side-Counted env _ key n s c h = Counted-same c (ground arith)

run_escrow-Counted :
    (env : Env) (call : EscrowCall) (key : Text) (n : ℕ) (s : Contract) {s' : Contract}
    → Counted key n s
    → run_escrow env call s ≡ ok s'
    → Counted key n s'
unfolding run_escrow Lifecycle.create_escrow Lifecycle.ft_on_transfer Lifecycle.claim
    Compete.cleanup_completed
run_escrow-Counted env (create_escrow a) key n s c h = Counted-same c (ground arith)
run_escrow-Counted env (ft_on_transfer a m t) key n s c h = Counted-same c (ground arith)
run_escrow-Counted env (EscrowCall.claim j) key n s c h = Counted-same c (ground arith)
run_escrow-Counted env (claim_for j w sig) key n s c h = claim_for-Counted env j w sig key n s c h
run_escrow-Counted env (submit_result j r) key n s c h =
    Counted-same c (same_workers (submit_result-kept env j r s h))
run_escrow-Counted env (submit_result_for j r w sig) key n s c h =
    submit_result_for-Counted env j r w sig key n s c h
run_escrow-Counted env (designate_winner j i) key n s c h =
    Counted-same c (same_workers (designate_winner-kept env j i s h))
run_escrow-Counted env (verification_callback j) key n s c h =
    Counted-same c (same_workers (verification_callback-kept env j s h))
run_escrow-Counted env (settle_callback j) key n s c h =
    Counted-same c (same_workers (settle_callback-kept env j s h))
run_escrow-Counted env (retry_settlement j) key n s c h =
    Counted-same c (same_workers (retry_settlement-kept env j s h))
run_escrow-Counted env (cancel j) key n s c h =
    Counted-same c (same_workers (cancel-kept env j s h))
run_escrow-Counted env (force_cancel_verifying j) key n s c h =
    Counted-same c (same_workers (force_cancel_verifying-kept env j s h))
run_escrow-Counted env (refund_expired j) key n s c h =
    Counted-same c (same_workers (refund_expired-kept env j s h))
run_escrow-Counted env (cleanup_completed m) key n s c h = Counted-same c (ground arith)

Later-Counted :
    {s s' : Contract} (key : Text) (n : ℕ) → Later s s' → Counted key n s → Counted key n s'
unfolding run_call
Later-Counted key n now c = c
Later-Counted key n (followed_by {t} {u} env (side call) l h) c =
    run_side-Counted env call key n t (Later-Counted key n l c) h
Later-Counted key n (followed_by {t} {u} env (escrow call) l h) c =
    run_escrow-Counted env call key n t (Later-Counted key n l c) h

-- A withdrawal that succeeds makes the same one, with the same signature, fail at any later time,
-- whatever calls come in between, when the worker's nonce is below its last value and the
-- signature verifies for one message only.
pub withdraw_never_replayed :
    (env env' : Env) (key token : Text) (amount : ℕ) (to signature : Text) (s s' s'' end : Contract)
    {w : WorkerAccount}
    → lookup key s.workers ≡ some w
    → w.nonce + 1 < u64_mod
    → env'.current_account ≡ env.current_account
    → env'.ed25519_verify ≡ env.ed25519_verify
    → ((m m' pk : Text)
        → env.ed25519_verify signature m pk ≡ true
        → env.ed25519_verify signature m' pk ≡ true
        → m ≡ m')
    → Wallet.withdraw env key token amount to signature s ≡ ok s'
    → Later s' s''
    → ¬ (Wallet.withdraw env' key token amount to signature s'' ≡ ok end)
unfolding verify_worker_signature withdraw_message
withdraw_never_replayed env env' key token amount to signature s s' s'' end {w} registered below
      here verifier once h later again =
    let (signed, _, bumped, _, _) =
      withdraw-effect env key token amount to signature s s' registered h in
    let counted : Counted key (w.nonce + 1) s' = record {
      account = next_nonce w;
      registered = ap (lookup key) bumped ∙ lookup-insert_self key (next_nonce w) s.workers;
      enough = ground arith;
      in_range = ground arith;
    } in
    let c = Later-Counted key (w.nonce + 1) later counted in
    let (signed', _, _, _, _) =
      withdraw-effect env' key token amount to signature s'' end c.registered again in
    elim (Option-cases (hex_decode key)) [
      | inl bad ↦ ground (arith, signed)
      | inr (pk, decoded) ↦
          let same =
            once (withdraw_message env token amount to w.nonce)
              (withdraw_message env token amount to c.account.nonce) pk
              (ground (arith, signed, decoded))
              (ground (arith, signed', decoded, here, verifier)) in
          let equal =
            join-decimal_injective
              (join
                (join (join (join env.current_account (ascii "withdraw")) token) (decimal amount))
                to)
              w.nonce c.account.nonce (ground arith) (ground (arith, c.in_range)) same in
          ground (arith, equal, c.enough)
    ]
