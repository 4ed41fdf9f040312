-- ===== src/Escrow/Admin/Quorum.antt =====
-- The consensus threshold against the number of active verifiers.
use near_escrow.Shared.Tests.{ℕ, ◌+◌, ◌≤◌, ◌≡◌, refl, true, Option, List, [], ◌∷◌, ◌++◌, arith}
use near_escrow.Shared.Outcome.{ok}
use near_escrow.Text.Bytes.{Text}
use near_escrow.Escrow.Types.{VerifierInfo}
use near_escrow.Escrow.Host.{Env}
use near_escrow.Escrow.State.{Contract}
use near_escrow.Escrow.Admin.{active_count, new, add_verifier, set_consensus_threshold}

-- At least one signature is needed, and the active verifiers can give them all.
abbrev pub HasQuorum : Contract → Type 0
HasQuorum s = (1 ≤ s.consensus_threshold) × (s.consensus_threshold ≤ active_count s.verifier_set)

pub active_count-append :
    (vs : List VerifierInfo) (v : VerifierInfo)
    → v.active ≡ true
    → active_count (vs ++ v ∷ []) ≡ active_count vs + 1
active_count-append [] v active = ground arith
active_count-append (u ∷ vs) v active = ground (arith, active_count-append vs v active)

-- A new contract's threshold can be met.
pub new-HasQuorum :
    (env : Env) (verifiers : List VerifierInfo) (threshold : Option ℕ) (tokens : List Text)
    (s : Contract)
    → new env verifiers threshold tokens ≡ ok s
    → HasQuorum s
unfolding new
new-HasQuorum env verifiers threshold tokens s h = (ground arith, ground arith)

-- A threshold that the owner sets can be met, and a verifier that is added raises the number of
-- active verifiers by one, so that the threshold can still be met.
pub quorum_kept :
    (env : Env) (account key : Text) (n : ℕ) (s s₁ s₂ : Contract)
    → set_consensus_threshold env n s ≡ ok s₁
    → add_verifier env account key s₁ ≡ ok s₂
    → HasQuorum s₁ × HasQuorum s₂ × (active_count s₂.verifier_set ≡ active_count s.verifier_set + 1)
unfolding set_consensus_threshold add_verifier
quorum_kept env account key n s s₁ s₂ h h' =
    let added : VerifierInfo = record { account_id = account; public_key = key; active = true } in
    let grown = active_count-append s.verifier_set added refl in
    ((ground arith, ground arith), (ground arith, ground (arith, grown)), ground (arith, grown))
