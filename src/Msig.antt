-- ===== src/Msig.antt =====
-- The agent's multi-signature wallet, agent-msig/src/lib.rs: signed actions with a nonce, spending
-- limits, the recovery of a lost key and the owner's settings.
pub mod Limits
pub mod Nonces
pub mod Calls
pub mod Views
use near_escrow.Shared.Tests.{
  ℕ, ◌+◌, ◌-◌, Bool, true, false, not, ◌&&◌, ◌||◌, Option, none, some, List, [], ◌∷◌, leb, ltb,
  nat_eq, if◌then◌else◌, u128_mod, add_u64, saturating_add,
}
use near_escrow.Shared.Lists.{length, is_empty}
use near_escrow.Shared.Outcome.{Outcome, ok, panic, assert, expect, ◌>>=◌, ◌>>◌}
use near_escrow.Text.Bytes.{Text, ascii, ◌==◌, strip_prefix}
use near_escrow.Escrow.Admin.{contains}
use near_escrow.Escrow.Lifecycle.{CreateArgs, threshold_in_range}

pub data ActionKind : Type 0 where
  create_escrow : CreateArgs → ActionKind
  fund_escrow : (job_id token : Text) (amount : ℕ) → ActionKind
  cancel_escrow : (job_id : Text) → ActionKind
  register_token : (token : Text) → ActionKind
  rotate_key : (new_pubkey : Text) → ActionKind
  withdraw : (token : Option Text) (amount : ℕ) (recipient : Text) → ActionKind
  designate_winner : (job_id : Text) (winner_idx : ℕ) → ActionKind

pub record Action : Type 0 where
  pub nonce : ℕ
  pub action : ActionKind

-- What the runtime, serde_json and the base58 crate give a call.
pub record Env : Type 0 where
  pub signer : Text
  pub predecessor : Text
  pub block_height : ℕ
  pub account_balance : ℕ
  pub state_exists : Bool
  pub ed25519_verify : Text → Text → Text → Bool
  pub parse_action : Text → Option Action
  pub decode_base58 : Text → Option Text

pub data Panic : Type 0 where
  already_initialized bad_prefix bad_base58 bad_key_length : Panic
  bad_signature_length invalid_signature invalid_json invalid_nonce : Panic
  over_action_limit over_daily_limit bad_score_threshold insufficient_balance : Panic
  not_owner cooldown : Panic

abbrev pub Tx : Type 0 → Type 0
Tx A = Outcome Panic A

-- A cross-contract call that an action dispatches; `_on_action_callback` is chained behind it.
pub data Dispatch : Type 0 where
  -- `create_escrow` on the escrow contract, with the storage deposit of 1 NEAR attached
  call_create : CreateArgs → Dispatch
  -- `ft_transfer_call` on the token, to the escrow contract, with the job as message
  call_fund : (token receiver : Text) (amount : ℕ) (msg : Text) → Dispatch
  call_cancel : (job_id : Text) → Dispatch
  call_storage_deposit : (token : Text) → Dispatch
  call_ft_transfer : (token receiver : Text) (amount : ℕ) → Dispatch
  call_transfer : (receiver : Text) (amount : ℕ) → Dispatch
  call_designate : (job_id : Text) (winner_idx : ℕ) → Dispatch

-- `AgentMsig`, and in `dispatched` the calls made so far, the newest first.
pub record AgentMsig : Type 0 where
  pub agent_pubkey : Text
  pub agent_npub : Text
  pub escrow_contract : Text
  pub nonce : ℕ  -- u64
  pub last_action_block : ℕ  -- u64
  pub owner : Text
  pub allowed_tokens : List Text
  pub max_action_value_yocto : ℕ  -- u128
  pub daily_limit_yocto : ℕ  -- u128
  pub spent_in_window : ℕ  -- u128
  pub window_start_block : ℕ  -- u64
  pub dispatched : List Dispatch

-- `FORCE_ROTATE_COOLDOWN_BLOCKS`
abbrev pub cooldown_blocks : ℕ
cooldown_blocks = 7200

unfoldable pub decode_ed25519_pubkey : Env → Text → Tx Text
decode_ed25519_pubkey env s = do
  stripped ← expect (strip_prefix (ascii "ed25519:") s) Panic.bad_prefix
  bytes ← expect (env.decode_base58 stripped) Panic.bad_base58
  assert (nat_eq (length bytes) 32) Panic.bad_key_length
  ok bytes

unfoldable pub new : Env → Text → Text → Text → Tx AgentMsig
new env agent_pubkey agent_npub escrow_contract = do
  assert (not env.state_exists) Panic.already_initialized
  pubkey_bytes ← decode_ed25519_pubkey env agent_pubkey
  ok (record {
    agent_pubkey = pubkey_bytes;
    agent_npub = agent_npub;
    escrow_contract = escrow_contract;
    nonce = 0;
    last_action_block = env.block_height;
    owner = env.signer;
    allowed_tokens = [];
    max_action_value_yocto = 0;
    daily_limit_yocto = 0;
    spent_in_window = 0;
    window_start_block = env.block_height;
    dispatched = [];
  })

-- `_action_value`
unfoldable pub action_value : ActionKind → Option ℕ
action_value (create_escrow a) = some a.amount
action_value (fund_escrow _ _ amount) = some amount
action_value (withdraw _ amount _) = some amount
action_value (cancel_escrow _) = none
action_value (register_token _) = none
action_value (rotate_key _) = none
action_value (designate_winner _ _) = none

-- The daily window as it stands at a block: a new one opens 7200 blocks after the last.
unfoldable pub roll_window : ℕ → AgentMsig → AgentMsig
roll_window block s =
    if leb cooldown_blocks (block - s.window_start_block)
    then record s { spent_in_window = 0; window_start_block = block }
    else s

-- The daily part of `_enforce_spending_limit`.
unfoldable pub spend_in_window : Env → ℕ → AgentMsig → Tx AgentMsig
spend_in_window env value s = do
  let rolled = roll_window env.block_height s
  let new_total = saturating_add u128_mod rolled.spent_in_window value
  assert (leb new_total s.daily_limit_yocto) Panic.over_daily_limit
  ok (record rolled { spent_in_window = new_total })

-- `_enforce_spending_limit`; a limit of 0 is no limit.
unfoldable pub enforce_spending_limit : Env → ℕ → AgentMsig → Tx AgentMsig
enforce_spending_limit env value s = do
  assert (not (ltb 0 s.max_action_value_yocto) || leb value s.max_action_value_yocto)
      Panic.over_action_limit
  if ltb 0 s.daily_limit_yocto then spend_in_window env value s else ok s

abbrev pub enforce_value : Env → Option ℕ → AgentMsig → Tx AgentMsig
enforce_value env none s = ok s
enforce_value env (some value) s = enforce_spending_limit env value s

abbrev pub dispatch : Dispatch → AgentMsig → AgentMsig
dispatch d s = record s { dispatched = d ∷ s.dispatched }

-- `_withdraw`
withdraw_call : Env → Option Text → ℕ → Text → Tx Dispatch
withdraw_call env (some token) amount recipient = ok (call_ft_transfer token recipient amount)
withdraw_call env none amount recipient = do
  assert (leb amount env.account_balance) Panic.insufficient_balance
  ok (call_transfer recipient amount)

-- The dispatch of a checked action.
unfoldable pub perform : Env → ActionKind → AgentMsig → Tx AgentMsig
unfolding withdraw_call
perform env (create_escrow a) s = do
  assert (threshold_in_range a.score_threshold) Panic.bad_score_threshold
  ok (dispatch (call_create a) s)
perform env (fund_escrow job_id token amount) s =
    ok (dispatch (call_fund token s.escrow_contract amount job_id) s)
perform env (cancel_escrow job_id) s = ok (dispatch (call_cancel job_id) s)
perform env (register_token token) s = ok (dispatch (call_storage_deposit token) s)
perform env (rotate_key new_pubkey) s = do
  bytes ← decode_ed25519_pubkey env new_pubkey
  ok (record s { agent_pubkey = bytes })
perform env (withdraw token amount recipient) s = do
  call ← withdraw_call env token amount recipient
  ok (dispatch call s)
perform env (designate_winner job_id winner_idx) s =
    ok (dispatch (call_designate job_id winner_idx) s)

unfoldable pub execute : Env → Text → Text → AgentMsig → Tx AgentMsig
execute env action_json signature s = do
  assert (nat_eq (length signature) 64) Panic.bad_signature_length
  assert (nat_eq (length s.agent_pubkey) 32) Panic.bad_key_length
  assert (env.ed25519_verify signature action_json s.agent_pubkey) Panic.invalid_signature
  a ← expect (env.parse_action action_json) Panic.invalid_json
  assert (nat_eq a.nonce (add_u64 s.nonce 1)) Panic.invalid_nonce
  limited ←
      enforce_value env (action_value a.action)
        (record s { nonce = a.nonce; last_action_block = env.block_height })
  perform env a.action limited

-- The amount handed back: all of it for a token that is not on the whitelist.
unfoldable pub ft_on_transfer : Env → ℕ → AgentMsig → ℕ
ft_on_transfer env amount s =
    if not (is_empty s.allowed_tokens) && not (contains s.allowed_tokens env.predecessor)
    then amount
    else 0

abbrev pub only_owner : Env → AgentMsig → Tx (Unit {0})
only_owner env s = assert (env.signer == s.owner) Panic.not_owner

unfoldable pub force_rotate : Env → Text → Text → AgentMsig → Tx AgentMsig
force_rotate env new_pubkey new_npub s = do
  only_owner env s
  assert (leb cooldown_blocks (env.block_height - s.last_action_block)) Panic.cooldown
  bytes ← decode_ed25519_pubkey env new_pubkey
  ok (record s { agent_pubkey = bytes; agent_npub = new_npub })

unfoldable pub set_allowed_tokens : Env → List Text → AgentMsig → Tx AgentMsig
set_allowed_tokens env tokens s = do only_owner env s; ok (record s { allowed_tokens = tokens })

unfoldable pub set_spending_limits : Env → ℕ → ℕ → AgentMsig → Tx AgentMsig
set_spending_limits env max_per_action daily_limit s = do
  only_owner env s
  ok (record s { max_action_value_yocto = max_per_action; daily_limit_yocto = daily_limit })
