-- ===== src/MinimalTest/Agreement.antt =====
-- The two versions of the agent's wallet, side by side.
use near_escrow.Shared.Tests.{
  ℕ, ◌≡◌, refl, Bool, true, inl, inr, Option, none, some, List, map, leb, arith, Option-cases,
}
use near_escrow.Shared.Outcome.{ok, panic, ◌>>=◌, Outcome-cases}
use near_escrow.Text.Bytes.{Text}
use near_escrow.Escrow.Lifecycle.{CreateArgs}
use near_escrow.MinimalTest.{
  NewEscrow, ActionKind, create_escrow, fund_escrow, cancel_escrow, register_token, rotate_key,
  withdraw, Action, Env, Dispatch, call_create, call_fund, call_cancel, call_storage_deposit,
  call_ft_transfer, call_transfer, AgentMsig, decode_ed25519_pubkey, action_value, roll_window,
  spend_in_window, enforce_spending_limit, enforce_value, perform, execute, force_rotate, new,
  ft_on_transfer, set_allowed_tokens, set_spending_limits,
}
use near_escrow.Msig

-- The older wallet's data as the newer one has it.
abbrev pub newer_args : NewEscrow → CreateArgs
newer_args a = record {
  job_id = a.job_id;
  amount = a.amount;
  token = a.token;
  timeout_hours = a.timeout_hours;
  task_description = a.task_description;
  criteria = a.criteria;
  verifier_fee = a.verifier_fee;
  score_threshold = a.score_threshold;
  max_submissions = none;
  deadline_block = none;
}

abbrev pub newer_kind : ActionKind → Msig.ActionKind
newer_kind (create_escrow a) = Msig.create_escrow (newer_args a)
newer_kind (fund_escrow job_id token amount) = Msig.fund_escrow job_id token amount
newer_kind (cancel_escrow job_id) = Msig.cancel_escrow job_id
newer_kind (register_token token) = Msig.register_token token
newer_kind (rotate_key new_pubkey) = Msig.rotate_key new_pubkey
newer_kind (withdraw token amount recipient) = Msig.withdraw token amount recipient

abbrev pub newer_action : Option Action → Option Msig.Action
newer_action none = none
newer_action (some a) = some (record { nonce = a.nonce; action = newer_kind a.action })

abbrev pub newer_dispatch : Dispatch → Msig.Dispatch
newer_dispatch (call_create a) = Msig.call_create (newer_args a)
newer_dispatch (call_fund token receiver amount msg) = Msig.call_fund token receiver amount msg
newer_dispatch (call_cancel job_id) = Msig.call_cancel job_id
newer_dispatch (call_storage_deposit token) = Msig.call_storage_deposit token
newer_dispatch (call_ft_transfer token receiver amount) =
    Msig.call_ft_transfer token receiver amount
newer_dispatch (call_transfer receiver amount) = Msig.call_transfer receiver amount

abbrev pub newer : AgentMsig → Msig.AgentMsig
newer s = record {
  agent_pubkey = s.agent_pubkey;
  agent_npub = s.agent_npub;
  escrow_contract = s.escrow_contract;
  nonce = s.nonce;
  last_action_block = s.last_action_block;
  owner = s.owner;
  allowed_tokens = s.allowed_tokens;
  max_action_value_yocto = s.max_action_value_yocto;
  daily_limit_yocto = s.daily_limit_yocto;
  spent_in_window = s.spent_in_window;
  window_start_block = s.window_start_block;
  dispatched = map newer_dispatch s.dispatched;
}

-- The same call, on an account with a balance, to a wallet with its own parser of actions.
abbrev pub newer_env : ℕ → (Text → Option Msig.Action) → Env → Msig.Env
newer_env balance parse env = record {
  signer = env.signer;
  predecessor = env.predecessor;
  block_height = env.block_height;
  account_balance = balance;
  state_exists = env.state_exists;
  ed25519_verify = env.ed25519_verify;
  parse_action = parse;
  decode_base58 = env.decode_base58;
}

abbrev pub newer_result : Msig.Tx AgentMsig → Msig.Tx Msig.AgentMsig
newer_result (ok s) = ok (newer s)
newer_result (panic e) = panic e

-- The balance covers the withdrawal, where the action is one of NEAR.
abbrev pub is_covered : ℕ → Option Action → Bool
is_covered balance none = true
is_covered balance (some a) = elim a.action [
  | withdraw none amount _ ↦ leb amount balance
  | _ ↦ true
]

decode_agrees :
    (balance : ℕ) (parse : Text → Option Msig.Action) (env : Env) (key : Text)
    → Msig.decode_ed25519_pubkey (newer_env balance parse env) key ≡ decode_ed25519_pubkey env key
unfolding decode_ed25519_pubkey Msig.decode_ed25519_pubkey
decode_agrees balance parse env key = refl

enforce_agrees :
    (balance : ℕ) (parse : Text → Option Msig.Action) (env : Env) (value : Option ℕ) (s : AgentMsig)
    → Msig.enforce_value (newer_env balance parse env) value (newer s)
      ≡ newer_result (enforce_value env value s)
unfolding enforce_spending_limit spend_in_window roll_window Msig.enforce_spending_limit
    Msig.spend_in_window Msig.roll_window
enforce_agrees balance parse env none s = refl
enforce_agrees balance parse env (some value) s = ground arith

perform_agrees :
    (balance : ℕ) (parse : Text → Option Msig.Action) (env : Env) (n : ℕ) (a : ActionKind)
    (s : AgentMsig)
    → is_covered balance (some (record { nonce = n; action = a })) ≡ true
    → Msig.perform (newer_env balance parse env) (newer_kind a) (newer s)
      ≡ newer_result (perform env a s)
unfolding perform Msig.perform
perform_agrees balance parse env n (create_escrow a) s h = ground arith
perform_agrees balance parse env n (fund_escrow job_id token amount) s h = refl
perform_agrees balance parse env n (cancel_escrow job_id) s h = refl
perform_agrees balance parse env n (register_token token) s h = refl
perform_agrees balance parse env n (rotate_key key) s h =
    ground (arith, decode_agrees balance parse env key)
perform_agrees balance parse env n (withdraw (some token) amount recipient) s h = refl
perform_agrees balance parse env n (withdraw none amount recipient) s h = ground arith

action_value_agrees : (a : ActionKind) → Msig.action_value (newer_kind a) ≡ action_value a
unfolding action_value Msig.action_value
action_value_agrees (create_escrow a) = refl
action_value_agrees (fund_escrow job_id token amount) = refl
action_value_agrees (cancel_escrow job_id) = refl
action_value_agrees (register_token token) = refl
action_value_agrees (rotate_key key) = refl
action_value_agrees (withdraw token amount recipient) = refl

-- The steps behind the checks of `execute`.
settle_agrees :
    (balance : ℕ) (parse : Text → Option Msig.Action) (env : Env) (a : Action) (s : AgentMsig)
    → is_covered balance (some a) ≡ true
    → (Msig.enforce_value
          (newer_env balance parse env)
          (Msig.action_value (newer_kind a.action))
          (newer s)
        >>= Msig.perform (newer_env balance parse env) (newer_kind a.action))
      ≡ newer_result (enforce_value env (action_value a.action) s >>= perform env a.action)
settle_agrees balance parse env a s h =
    elim (Outcome-cases (enforce_value env (action_value a.action) s)) [
      | inr (e, refused) ↦ rw (
        action_value_agrees a.action,
        enforce_agrees balance parse env (action_value a.action) s,
        refused,
      )
      | inl (limited, passed) ↦
          rw
            (
              action_value_agrees a.action,
              enforce_agrees balance parse env (action_value a.action) s,
              passed,
            )
            (perform_agrees balance parse env a.nonce a.action limited h)
    ]

-- On a message that both wallets read as the same action, or that neither can read, and whose
-- action, if it withdraws NEAR, withdraws no more than the balance, the newer wallet's `execute`
-- ends as the older one's does: with the same panic, or with the same state and the same calls
-- dispatched. The parsers may differ on all other messages.
pub execute_agrees :
    (balance : ℕ) (parse : Text → Option Msig.Action) (env : Env) (json signature : Text)
    (s : AgentMsig)
    → parse json ≡ newer_action (env.parse_action json)
    → is_covered balance (env.parse_action json) ≡ true
    → Msig.execute (newer_env balance parse env) json signature (newer s)
      ≡ newer_result (execute env json signature s)
unfolding execute Msig.execute
execute_agrees balance parse env json signature s alike h =
    elim (Option-cases (env.parse_action json)) [
      | inl unread ↦
          let neither : parse json ≡ none = rw unread at alike in ground (arith, unread, neither)
      | inr (a, read) ↦
          let numbered = record s { nonce = a.nonce; last_action_block = env.block_height } in
          let both : parse json ≡ newer_action (some a) = rw read at alike in
          let settled = settle_agrees balance parse env a numbered (rw read at h) in
          ground (arith, read, both, settled)
    ]

-- The other calls of the newer wallet end as the older one's: the setup, the receipt of tokens,
-- and the owner's three calls.
pub settings_agree :
    (balance amount : ℕ) (parse : Text → Option Msig.Action) (env : Env) (key npub escrow : Text)
    (tokens : List Text) (per_action daily : ℕ) (s : AgentMsig)
    → (Msig.new (newer_env balance parse env) key npub escrow
        ≡ newer_result (new env key npub escrow))
      × (Msig.ft_on_transfer (newer_env balance parse env) amount (newer s)
          ≡ ft_on_transfer env amount s)
      × (Msig.force_rotate (newer_env balance parse env) key npub (newer s)
          ≡ newer_result (force_rotate env key npub s))
      × (Msig.set_allowed_tokens (newer_env balance parse env) tokens (newer s)
          ≡ newer_result (set_allowed_tokens env tokens s))
      × (Msig.set_spending_limits (newer_env balance parse env) per_action daily (newer s)
          ≡ newer_result (set_spending_limits env per_action daily s))
unfolding new Msig.new ft_on_transfer Msig.ft_on_transfer force_rotate Msig.force_rotate
    set_allowed_tokens Msig.set_allowed_tokens set_spending_limits Msig.set_spending_limits
settings_agree balance amount parse env key npub escrow tokens per_action daily s =
    let decoded = decode_agrees balance parse env key in
    (ground (arith, decoded), refl, ground (arith, decoded), ground arith, ground arith)
