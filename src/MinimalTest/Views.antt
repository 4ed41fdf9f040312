-- ===== src/MinimalTest/Views.antt =====
-- The older wallet's views and its default state, beside those of the newer one.
use near_escrow.Shared.Tests.{ℕ, zero, suc, ◌≡◌, refl, [], ◌∷◌, ◌++◌}
use near_escrow.Text.Bytes.{Text, ascii}
use near_escrow.MinimalTest.{AgentMsig}
use near_escrow.MinimalTest.Agreement.{newer}
use near_escrow.Msig.Views

many_zeros : ℕ → Text
many_zeros zero = []
many_zeros (suc n) = 0 ∷ many_zeros n

-- `Default`: a key of zeros, and the account `root`.
abbrev default_wallet : AgentMsig
unfolding many_zeros
default_wallet = record {
  agent_pubkey = many_zeros 32;
  agent_npub = [];
  escrow_contract = ascii "root";
  nonce = 0;
  last_action_block = 0;
  owner = ascii "root";
  allowed_tokens = [];
  max_action_value_yocto = 0;
  daily_limit_yocto = 0;
  spent_in_window = 0;
  window_start_block = 0;
  dispatched = [];
}

unfoldable encode_ed25519_pubkey : (Text → Text) → Text → Text
encode_ed25519_pubkey encode_base58 bytes = ascii "ed25519:" ++ encode_base58 bytes

abbrev get_agent_pubkey : (Text → Text) → AgentMsig → Text
get_agent_pubkey encode_base58 s = encode_ed25519_pubkey encode_base58 s.agent_pubkey

abbrev get_agent_npub : AgentMsig → Text
get_agent_npub s = s.agent_npub

abbrev get_nonce : AgentMsig → ℕ
get_nonce s = s.nonce

abbrev get_escrow_contract : AgentMsig → Text
get_escrow_contract s = s.escrow_contract

abbrev get_last_action_block : AgentMsig → ℕ
get_last_action_block s = s.last_action_block

abbrev get_owner : AgentMsig → Text
get_owner s = s.owner

-- The two versions show the same of the same wallet.
views_agree :
    (encode_base58 : Text → Text) (s : AgentMsig)
    → (Views.get_agent_pubkey encode_base58 (newer s) ≡ get_agent_pubkey encode_base58 s)
      × (Views.get_agent_npub (newer s) ≡ get_agent_npub s)
      × (Views.get_nonce (newer s) ≡ get_nonce s)
      × (Views.get_escrow_contract (newer s) ≡ get_escrow_contract s)
      × (Views.get_last_action_block (newer s) ≡ get_last_action_block s)
      × (Views.get_owner (newer s) ≡ get_owner s)
unfolding encode_ed25519_pubkey Views.encode_ed25519_pubkey
views_agree encode_base58 s = (refl, refl, refl, refl, refl, refl)
