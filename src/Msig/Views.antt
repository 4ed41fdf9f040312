-- ===== src/Msig/Views.antt =====
-- The wallet's views, and the callback that reports how a dispatched action ended.
use near_escrow.Shared.Tests.{ℕ, ◌≡◌, refl, ◌++◌, some, [], ◌∷◌, arith}
use near_escrow.Shared.Lists.{length}
use near_escrow.Shared.Outcome.{Outcome, ok, assert, ◌>>◌}
use near_escrow.Text.Bytes.{Text, ascii, ◌==◌, strip_prefix}
use near_escrow.Escrow.Host.{PromiseResult, successful, failed}
use near_escrow.Msig.{
  Env, Action, ActionKind, AgentMsig, create_escrow, fund_escrow, cancel_escrow, register_token,
  rotate_key, withdraw, designate_winner, decode_ed25519_pubkey,
}

-- The encoder of the base58 crate is an argument.
unfoldable pub encode_ed25519_pubkey : (Text → Text) → Text → Text
encode_ed25519_pubkey encode_base58 bytes = ascii "ed25519:" ++ encode_base58 bytes

abbrev pub get_agent_pubkey : (Text → Text) → AgentMsig → Text
get_agent_pubkey encode_base58 s = encode_ed25519_pubkey encode_base58 s.agent_pubkey

abbrev pub get_agent_npub : AgentMsig → Text
get_agent_npub s = s.agent_npub

abbrev pub get_nonce : AgentMsig → ℕ
get_nonce s = s.nonce

abbrev pub get_escrow_contract : AgentMsig → Text
get_escrow_contract s = s.escrow_contract

abbrev pub get_last_action_block : AgentMsig → ℕ
get_last_action_block s = s.last_action_block

abbrev pub get_owner : AgentMsig → Text
get_owner s = s.owner

-- The name of an action in the events.
abbrev action_type : ActionKind → Text
action_type (create_escrow _) = ascii "create_escrow"
action_type (fund_escrow _ _ _) = ascii "fund_escrow"
action_type (cancel_escrow _) = ascii "cancel_escrow"
action_type (register_token _) = ascii "register_token"
action_type (rotate_key _) = ascii "rotate_key"
action_type (withdraw _ _ _) = ascii "withdraw"
action_type (designate_winner _ _) = ascii "designate_winner"

-- The arguments of the callback behind a dispatched call, and what it logs of them.
record CallbackArgs : Type 0 where
  nonce : ℕ
  action_type : Text

data CallbackEvent : Type 0 where
  action_succeeded action_failed : CallbackArgs → CallbackEvent

-- `_chain_callback`
abbrev chain_callback : Action → CallbackArgs
chain_callback a = record { nonce = a.nonce; action_type = action_type a.action }

data CallbackPanic : Type 0 where
  callback_is_private : CallbackPanic

abbrev event_of : PromiseResult → CallbackArgs → CallbackEvent
event_of (successful _) args = action_succeeded args
event_of failed args = action_failed args

-- `_on_action_callback`, for the account that the wallet stands on.
abbrev on_action_callback :
    Text → PromiseResult → Env → CallbackArgs → Outcome CallbackPanic CallbackEvent
on_action_callback current_account result env args = do
  assert (env.predecessor == current_account) callback_is_private
  ok (event_of result args)

-- `strip_prefix` gives back what stands behind the prefix.
strip_prefix-append : (p t : Text) → strip_prefix p (p ++ t) ≡ some t
unfolding strip_prefix
strip_prefix-append [] t = refl
strip_prefix-append (c ∷ p) t = ground (arith, strip_prefix-append p t)

-- The key that a wallet with a key of 32 bytes shows is read back as that key, where the decoder of
-- base 58 undoes the encoder.
pub shown_key_decodes :
    (encode_base58 : Text → Text) (env : Env) (s : AgentMsig)
    → env.decode_base58 (encode_base58 s.agent_pubkey) ≡ some s.agent_pubkey
    → length s.agent_pubkey ≡ 32
    → decode_ed25519_pubkey env (get_agent_pubkey encode_base58 s) ≡ ok s.agent_pubkey
unfolding decode_ed25519_pubkey encode_ed25519_pubkey
shown_key_decodes encode_base58 env s inverse sized =
    ground (arith, inverse, strip_prefix-append (ascii "ed25519:") (encode_base58 s.agent_pubkey))
