-- ===== src/Msig/Calls/Authority.antt =====
-- Who may do what with the agent's wallet.
use near_escrow.Shared.Tests.{◌-◌, ◌≤◌, ◌≡◌, ◌⊎◌, refl, true, inl, inr, arith}
use near_escrow.Shared.Outcome.{ok}
use near_escrow.Text.Bytes.{Text, ◌==◌}
use near_escrow.Msig.{Env, AgentMsig, decode_ed25519_pubkey}
use near_escrow.Msig.Nonces.{execute-nonce}
use near_escrow.Msig.Calls.{
  Call, execute, force_rotate, set_allowed_tokens, set_spending_limits, run_call,
}
use near_escrow.Msig

-- The call hands in an action that the agent's key signed.
pub record SignedByAgent (env : Env) (c : Call) (s : AgentMsig) : Type 0 where
  pub json : Text
  pub signature : Text
  pub executes : c ≡ execute json signature
  pub verified : env.ed25519_verify signature json s.agent_pubkey ≡ true

-- The call is the owner's: it dispatches nothing, keeps the nonce, the owner and the escrow
-- contract, and changes the key only 7200 blocks after the last action.
pub record OwnersSetting (env : Env) (s s' : AgentMsig) : Type 0 where
  pub by_owner : env.signer == s.owner ≡ true
  pub nothing_sent : s'.dispatched ≡ s.dispatched
  pub same_nonce : s'.nonce ≡ s.nonce
  pub same_owner : s'.owner ≡ s.owner
  pub same_escrow : s'.escrow_contract ≡ s.escrow_contract
  pub same_key_or_rested :
      (s'.agent_pubkey ≡ s.agent_pubkey) ⊎ (7200 ≤ env.block_height - s.last_action_block)

-- Every call that goes through is an action that the agent's key signed, or a setting of the owner:
-- that one dispatches nothing, keeps the nonce, the owner and the escrow contract, and changes the
-- key only 7200 blocks after the last action.
pub wallet_authority :
    (env : Env) (c : Call) (s s' : AgentMsig)
    → run_call env c s ≡ ok s'
    → SignedByAgent env c s ⊎ OwnersSetting env s s'
unfolding run_call Msig.force_rotate Msig.set_allowed_tokens Msig.set_spending_limits
    decode_ed25519_pubkey
wallet_authority env (execute json signature) s s' h =
    let (a, _, verified, _, _) = execute-nonce env json signature s s' h in
    inl (record { json = json; signature = signature; executes = refl; verified = verified })
wallet_authority env (force_rotate _ _) s s' h = inr (ground arith)
wallet_authority env (set_allowed_tokens _) s s' h = inr (ground arith)
wallet_authority env (set_spending_limits _ _) s s' h = inr (ground arith)
