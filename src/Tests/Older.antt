-- ===== src/Tests/Older.antt =====
-- The older wallet on a signed payment.
use near_escrow.Shared.Tests.{
  Option, if◌then◌else◌, ◌≡◌, refl, false, none, List, map, some, [], ◌∷◌,
}
use near_escrow.Shared.Outcome.{ok}
use near_escrow.Text.Bytes.{Text, ascii, ◌==◌, strip_prefix}
use near_escrow.MinimalTest.{
  Action, withdraw, Env, call_transfer, AgentMsig, execute, enforce_spending_limit, spend_in_window,
  roll_window, perform, action_value,
}
use near_escrow.MinimalTest.Agreement.{newer, newer_action, newer_env, execute_agrees}
use near_escrow.MinimalTest.Runs.{Received, newer_received, run_all, versions_agree}
use near_escrow.Msig
use near_escrow.Msig.Calls
use near_escrow.MinimalTest
use near_escrow.Tests.Fixtures.{bob, owner, signature, data_id, here, token}

abbrev older_wallet : AgentMsig
older_wallet = record {
  agent_pubkey = data_id;
  agent_npub = [];
  escrow_contract = here;
  nonce = 4;
  last_action_block = 1;
  owner = owner;
  allowed_tokens = token ∷ [];
  max_action_value_yocto = 50;
  daily_limit_yocto = 80;
  spent_in_window = 30;
  window_start_block = 10;
  dispatched = [];
}

abbrev payment : Action
payment = record { nonce = 5; action = withdraw none 40 bob }

abbrev older_call : Env
older_call = record {
  signer = owner;
  predecessor = token;
  block_height = 7210;
  state_exists = false;
  ed25519_verify = λ _ m _. m == ascii "pay";
  parse_action = λ json. if json == ascii "pay" then some payment else none;
  decode_base58 = λ _. some data_id;
}

-- The newer wallet reads another message too, which the older one refuses.
abbrev newer_parse : Text → Option Msig.Action
newer_parse json =
    if json == ascii "pay"
    then newer_action (some payment)
    else some (record { nonce = 1; action = Msig.designate_winner (ascii "j") 0 })

abbrev paid : AgentMsig
paid = record older_wallet {
  nonce = 5;
  last_action_block = 7210;
  spent_in_window = 40;
  window_start_block = 7210;
  dispatched = call_transfer bob 40 ∷ [];
}

execute_agrees_example :
    Msig.execute (newer_env 100 newer_parse older_call) (ascii "pay") signature (newer older_wallet)
    ≡ ok (newer paid)
unfolding execute enforce_spending_limit spend_in_window roll_window perform action_value ◌==◌
execute_agrees_example =
    execute_agrees 100 newer_parse older_call (ascii "pay") signature older_wallet refl refl

abbrev fresh : AgentMsig
fresh = record older_wallet {
  agent_npub = ascii "n";
  nonce = 0;
  last_action_block = 7210;
  allowed_tokens = [];
  max_action_value_yocto = 0;
  daily_limit_yocto = 0;
  spent_in_window = 0;
  window_start_block = 7210;
}

-- A payment, refused for its nonce, and a setting of the owner.
abbrev received : List Received
received =
    record {
      balance = 100;
      parse = newer_parse;
      env = older_call;
      call = Calls.execute (ascii "pay") signature;
    }
    ∷ record {
      balance = 0;
      parse = newer_parse;
      env = older_call;
      call = Calls.set_spending_limits 7 9;
    }
    ∷ []

versions_agree_example :
    (Msig.new (newer_env 0 newer_parse older_call) (ascii "ed25519:k") (ascii "n") here
      ≡ ok (newer fresh))
    × (Calls.run_all (map newer_received received) (newer fresh) ≡ newer (run_all received fresh))
unfolding MinimalTest.new MinimalTest.decode_ed25519_pubkey strip_prefix ◌==◌
versions_agree_example =
    versions_agree 0 newer_parse older_call (ascii "ed25519:k") (ascii "n") here received fresh refl
      ((refl, refl), (tt, tt))
