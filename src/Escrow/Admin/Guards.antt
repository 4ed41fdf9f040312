-- ===== src/Escrow/Admin/Guards.antt =====
-- Who may call the owner's operations.
use near_escrow.Shared.Tests.{ℕ, ◌≡◌, true, false, none, arith}
use near_escrow.Shared.Outcome.{ok, panic}
use near_escrow.Text.Bytes.{Text, ◌==◌}
use near_escrow.Escrow.Host.{Env, Panic}
use near_escrow.Escrow.State.{Contract}
use near_escrow.Escrow.Admin.{
  add_verifier, deactivate_verifier, set_consensus_threshold, propose_owner, pause, unpause,
  add_allowed_token, remove_allowed_token, set_storage_deposit, set_worker_stake, accept_owner,
}

-- Each of the owner's ten settings panics, with the guard's message, for every other caller.
pub settings_need_owner :
    (env : Env) (account key : Text) (n : ℕ) (s : Contract)
    → env.predecessor == s.owner ≡ false
    → (add_verifier env account key s ≡ panic Panic.only_owner)
      × (deactivate_verifier env n s ≡ panic Panic.only_owner)
      × (set_consensus_threshold env n s ≡ panic Panic.only_owner)
      × (propose_owner env account s ≡ panic Panic.only_owner)
      × (pause env s ≡ panic Panic.only_owner)
      × (unpause env s ≡ panic Panic.only_owner)
      × (add_allowed_token env account s ≡ panic Panic.only_owner)
      × (remove_allowed_token env account s ≡ panic Panic.only_owner)
      × (set_storage_deposit env n s ≡ panic Panic.only_owner)
      × (set_worker_stake env n s ≡ panic Panic.only_owner)
unfolding add_verifier deactivate_verifier set_consensus_threshold propose_owner pause unpause
    add_allowed_token remove_allowed_token set_storage_deposit set_worker_stake
settings_need_owner env account key n s other = (
  ground arith,
  ground arith,
  ground arith,
  ground arith,
  ground arith,
  ground arith,
  ground arith,
  ground arith,
  ground arith,
  ground arith,
)

-- When one caller proposes an account and another then accepts, the first was the owner and
-- changed no ownership, and the new owner is the accepting caller, who is the account proposed.
pub ownership_in_two_steps :
    (env env' : Env) (new_owner : Text) (s s' s'' : Contract)
    → propose_owner env new_owner s ≡ ok s'
    → accept_owner env' s' ≡ ok s''
    → (env.predecessor == s.owner ≡ true)
      × (s'.owner ≡ s.owner)
      × (new_owner == env'.predecessor ≡ true)
      × (s''.owner ≡ env'.predecessor)
      × (s''.pending_owner ≡ none)
unfolding propose_owner accept_owner
ownership_in_two_steps env env' new_owner s s' s'' h h' =
    (ground arith, ground arith, ground arith, ground arith, ground arith)
