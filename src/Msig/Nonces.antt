-- ===== src/Msig/Nonces.antt =====
-- The nonce of the agent's wallet across `execute`.
use near_escrow.Shared.Tests.{
  ℕ, ◌≡◌, ◌∙◌, true, inl, inr, Option, none, some, arith, Option-cases, add_u64,
}
use near_escrow.Shared.Outcome.{ok, Outcome-cases}
use near_escrow.Text.Bytes.{Text}
use near_escrow.Msig.{
  Action, ActionKind, create_escrow, fund_escrow, cancel_escrow, register_token, rotate_key,
  withdraw, designate_winner, Env, AgentMsig, decode_ed25519_pubkey, action_value, roll_window,
  spend_in_window, enforce_spending_limit, enforce_value, perform, execute,
}

enforce_value-nonce :
    (env : Env) (value : Option ℕ) (s s' : AgentMsig)
    → enforce_value env value s ≡ ok s'
    → s'.nonce ≡ s.nonce
unfolding enforce_spending_limit spend_in_window roll_window
enforce_value-nonce env none s s' h = ground arith
enforce_value-nonce env (some v) s s' h = ground arith

perform-nonce :
    (env : Env) (a : ActionKind) (s s' : AgentMsig) → perform env a s ≡ ok s' → s'.nonce ≡ s.nonce
unfolding perform decode_ed25519_pubkey
perform-nonce env (create_escrow a) s s' h = ground arith
perform-nonce env (fund_escrow _ _ _) s s' h = ground arith
perform-nonce env (cancel_escrow _) s s' h = ground arith
perform-nonce env (register_token _) s s' h = ground arith
perform-nonce env (rotate_key _) s s' h = ground arith
perform-nonce env (withdraw (some _) amount recipient) s s' h = ground arith
perform-nonce env (withdraw none amount recipient) s s' h = ground arith
perform-nonce env (designate_winner _ _) s s' h = ground arith

-- An action that executes carries the wallet's nonce plus one, in 64 bits, is signed by the
-- agent's key, and leaves the wallet with its nonce.
pub execute-nonce :
    (env : Env) (json signature : Text) (s s' : AgentMsig)
    → execute env json signature s ≡ ok s'
    → (a : Action) × (env.parse_action json ≡ some a)
      × (env.ed25519_verify signature json s.agent_pubkey ≡ true)
      × (a.nonce ≡ add_u64 s.nonce 1)
      × (s'.nonce ≡ a.nonce)
unfolding execute
execute-nonce env json signature s s' h = elim (Option-cases (env.parse_action json)) [
  | inl unread ↦ ground arith
  | inr (a, read) ↦
      let numbered = record s { nonce = a.nonce; last_action_block = env.block_height } in
      elim (Outcome-cases (enforce_value env (action_value a.action) numbered)) [
        | inr (_, refused) ↦ ground arith
        | inl (limited, passed) ↦
            let after_limits =
              enforce_value-nonce env (action_value a.action) numbered limited passed in
            let performed : perform env a.action limited ≡ ok s' = ground arith in
            let after_action = perform-nonce env a.action limited s' performed in
            (a, read, ground arith, ground arith, after_action ∙ after_limits)
      ]
]

-- An executed action cannot be executed again from the state that it leaves, with any signature,
-- by any call that reads the message as the first did.
pub execute_not_replayed :
    (env env' : Env) (json signature signature' : Text) (s s' s'' : AgentMsig)
    → env'.parse_action json ≡ env.parse_action json
    → execute env json signature s ≡ ok s'
    → ¬ (execute env' json signature' s' ≡ ok s'')
execute_not_replayed env env' json signature signature' s s' s'' same h again =
    let (a, read, _, next, kept) = execute-nonce env json signature s s' h in
    let (b, read', _, next', _) = execute-nonce env' json signature' s' s'' again in
    ground (arith, same, read, read', next, kept, next')
