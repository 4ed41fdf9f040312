-- ===== src/Escrow/Calls/Settings/Threshold.antt =====
-- The consensus threshold in every state that calls reach, against the active verifiers.
use near_escrow.Shared.Tests.{
  ℕ, zero, suc, ◌+◌, ◌≤◌, ◌≡◌, refl, inl, inr, false, true, Option, List, [], ◌∷◌, arith,
  Option-cases,
}
use near_escrow.Shared.Lists.{get_elem?, set}
use near_escrow.Shared.Outcome.{ok}
use near_escrow.Text.Bytes.{Text}
use near_escrow.Escrow.Types.{VerifierInfo}
use near_escrow.Escrow.Host.{Env}
use near_escrow.Escrow.State.{Contract}
use near_escrow.Escrow.Admin
use near_escrow.Escrow.Admin.{active_count}
use near_escrow.Escrow.Admin.Quorum.{new-HasQuorum, active_count-append}
use near_escrow.Escrow.Wallet
use near_escrow.Escrow.Calls.{
  SideCall, Call, side, escrow, run_side, run_call, add_verifier, deactivate_verifier,
  set_consensus_threshold, resume_verification_multi, resume_verification,
}
use near_escrow.Escrow.Calls.Keeps.{Settings, settings}
use near_escrow.Escrow.Consensus
use near_escrow.Escrow.Calls.Settings.{run_escrow-settings, resume_yield-settings}

abbrev pub deactivations : Call → ℕ
deactivations (side (deactivate_verifier _)) = 1
deactivations _ = 0

-- The states that calls reach from a newly set-up contract, with the number of deactivations of
-- verifiers among the calls.
pub data Staffed : ℕ → Contract → Type 0 where
  initial :
      (env : Env) (verifiers : List VerifierInfo) (threshold : Option ℕ) (tokens : List Text)
      {s : Contract}
      → Admin.new env verifiers threshold tokens ≡ ok s
      → Staffed 0 s
  call :
      (env : Env) (c : Call) {n : ℕ} {s s' : Contract}
      → Staffed n s
      → run_call env c s ≡ ok s'
      → Staffed (n + deactivations c) s'

-- The threshold is at least one and at most the active verifiers with n more.
abbrev pub InReach : ℕ → Settings → Type 0
InReach n x =
    (1 ≤ x.consensus_threshold) × (x.consensus_threshold ≤ active_count x.verifier_set + n)

InReach-same : (n : ℕ) (x x' : Settings) → x' ≡ x → InReach n x → InReach (n + 0) x'
InReach-same n x x' same r = rw same (ground (arith, r))

active_count-set :
    (vs : List VerifierInfo) (i : ℕ) (v w : VerifierInfo)
    → active_count vs ≤ active_count (set vs i w) + 1
active_count-set [] i v w = omega arith
active_count-set (u ∷ vs) zero v w = ground arith
active_count-set (u ∷ vs) (suc i) v w = ground (arith, active_count-set vs i v w)

run_side-InReach :
    (env : Env) (c : SideCall) (n : ℕ) (s : Contract) {s' : Contract}
    → InReach n (settings s)
    → run_side env c s ≡ ok s'
    → InReach (n + deactivations (side c)) (settings s')
unfolding run_side Admin.add_verifier Admin.deactivate_verifier Admin.set_consensus_threshold
    Admin.propose_owner Admin.accept_owner Admin.pause Admin.unpause Admin.add_allowed_token
    Admin.remove_allowed_token Admin.set_storage_deposit Admin.set_worker_stake
    Wallet.register_worker Wallet.deposit_to_worker Wallet.pause_worker Wallet.unpause_worker
    Wallet.withdraw Wallet.link_near_account Consensus.resume_verification_multi
    Consensus.resume_verification
run_side-InReach env (add_verifier account key) n s r h =
    let added : VerifierInfo = record { account_id = account; public_key = key; active = true } in
    ground (arith, r, active_count-append s.verifier_set added refl)
run_side-InReach env (deactivate_verifier i) n s r h =
    elim (Option-cases (get_elem? s.verifier_set i)) [
      | inl missing ↦ ground (arith, missing)
      | inr (v, found) ↦
          ground
            (arith, r, found, active_count-set s.verifier_set i v (record v { active = false }))
    ]
run_side-InReach env (set_consensus_threshold m) n s r h = ground (arith, r)
run_side-InReach env (resume_verification_multi d v) n s {s'} r h =
    InReach-same n (settings s) (settings s')
      (ground (arith, resume_yield-settings d v.verdict_json s {s' = s'})) r
run_side-InReach env (resume_verification d v i sig) n s {s'} r h =
    InReach-same n (settings s) (settings s')
      (ground (arith, resume_yield-settings d v s {s' = s'})) r
run_side-InReach env _ n s r h = ground (arith, r)

run_call-InReach :
    (env : Env) (c : Call) (n : ℕ) (s : Contract) {s' : Contract}
    → InReach n (settings s)
    → run_call env c s ≡ ok s'
    → InReach (n + deactivations c) (settings s')
unfolding run_call
run_call-InReach env (side c) n s r h = run_side-InReach env c n s r h
run_call-InReach env (escrow c) n s {s'} r h =
    InReach-same n (settings s) (settings s') (run_escrow-settings env c s h) r

-- In a state that any calls reach, among them n deactivations of verifiers, the threshold is at
-- least one and at most the active verifiers plus n: without a deactivation it can be met.
pub threshold_in_reach :
    {n : ℕ} {s : Contract}
    → Staffed n s
    → (1 ≤ s.consensus_threshold) × (s.consensus_threshold ≤ active_count s.verifier_set + n)
threshold_in_reach (initial env verifiers threshold tokens {s} h) =
    ground (arith, new-HasQuorum env verifiers threshold tokens s h)
threshold_in_reach (call env c {n} {s} reached h) =
    run_call-InReach env c n s (threshold_in_reach reached) h
