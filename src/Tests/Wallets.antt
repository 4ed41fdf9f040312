-- ===== src/Tests/Wallets.antt =====
-- The workers' balances, signed withdrawals and the agent's wallet at concrete inputs.
use near_escrow.Shared.Tests.{
  ℕ, ◌+◌, ◌-◌, ◌≢◌, ◌⊎◌, ◌*◌, ◌/◌, ◌≤◌, List, ◌≡◌, refl, true, none, some, [], ◌∷◌, arith, ◌++◌,
  sym, ◌∙◌,
}
use near_escrow.Shared.Maps.{Map, lookup, insert}
use near_escrow.Shared.Outcome.{ok, panic}
use near_escrow.Text.Bytes.{Text, strip_prefix, ascii, ◌==◌, ==→eq}
use near_escrow.Text.Decimal.{decimal, join}
use near_escrow.Text.Hex.{hex_encode, hex_decode, hex_decode_safe}
use near_escrow.Escrow.Types.{opened, claimed}
use near_escrow.Escrow.Host.{Env, Tx, transfer, ft_transfer}
use near_escrow.Escrow.State.{Contract}
use near_escrow.Tests.Fixtures.{
  call_by, many, bob, owner, here, key, signature, env_of, escrow_at, worker_account, contract_with,
}
use near_escrow.Text.Hex.RoundTrip.{hex_decode_safe-hex_encode}
use near_escrow.Escrow.Signature.{verify_worker_signature, withdraw_message}
use near_escrow.Escrow.Balances.{near_token_id, balance_key, credit_balance, debit_balance}
use near_escrow.Escrow.Balances.Accounts.{holding, deposits}
use near_escrow.Escrow.Balances.Ledger.{
  Account, credit, debit, post, post_all, enter, enter_all, write, Represents, post_all-Agree,
}
use near_escrow.Escrow.Wallet.{withdraw}
use near_escrow.Escrow.Calls
use near_escrow.Escrow.Calls.{side, run_call, run_side}
use near_escrow.Escrow.Calls.Nonces.{now, followed_by, withdraw_never_replayed}
use near_escrow.Escrow.Admin.{pause}
use near_escrow.Escrow.Wallet.Pays.{withdraw-pays}
use near_escrow.Msig.{
  Action, AgentMsig, enforce_spending_limit, roll_window, spend_in_window, action_value, perform,
  execute, set_allowed_tokens, force_rotate, decode_ed25519_pubkey,
}
use near_escrow.Msig
use near_escrow.Msig.Calls.Authority.{SignedByAgent, OwnersSetting, wallet_authority}
use near_escrow.Msig.Calls as WalletCalls
use near_escrow.Msig.Calls.{
  Received, run_call as run_wallet_call, left_by, run_all, message_value, spent_by, total_spent,
}
use near_escrow.Msig.Calls.Spending.{outflow, outflow-Bounded}
use near_escrow.Msig.Calls.Replay.{execute_never_replayed}

abbrev after : Tx Contract → Contract
after (ok s) = s
after (panic _) = contract_with (escrow_at claimed none none)

-- Seven units of NEAR in the worker's account.
abbrev account : Map ℕ
account = (key ++ ascii ":near", 7) ∷ []

abbrev two_off : Map ℕ
two_off = (key ++ ascii ":near", 5) ∷ []

abbrev worker_near : Account
worker_near = record { worker = key; token = near_token_id; sized = refl }

post_all-Agree_example :
    Represents ((key ++ ascii ":near", 5) ∷ []) (write worker_near 5 (write worker_near 7 (λ _. 0)))
unfolding post_all post enter_all enter credit_balance debit_balance balance_key join holding lookup
    insert ◌==◌
post_all-Agree_example =
    post_all-Agree (credit worker_near 7 ∷ debit worker_near 2 ∷ []) [] (λ _. 0) (λ a. refl)

abbrev signed_call : Env
signed_call = env_of bob 0 [] (ascii "escrow:withdraw:near:2:bob:4")

abbrev with_funds : Contract
with_funds = record (contract_with (escrow_at opened none none)) { balances = account }

abbrev withdrawn : Contract
withdrawn = after (withdraw signed_call key near_token_id 2 bob signature with_funds)

withdraw-pays_example :
    ((pk : Text) × (hex_decode key ≡ some pk)
      × (signed_call.ed25519_verify signature
            (withdraw_message signed_call near_token_id 2 bob worker_account.nonce)
            pk
          ≡ true))
    × (2 ≤ 7)
    × (holding withdrawn.balances key near_token_id ≡ 7 - 2)
    × (deposits withdrawn.balances + 2 ≡ 7)
    × (((near_token_id ≡ near_token_id) × (withdrawn.promises ≡ transfer bob 2 ∷ []))
        ⊎ ((near_token_id ≢ near_token_id)
            × (withdrawn.promises
                ≡ ft_transfer (record { token = near_token_id; receiver = bob; amount = 2 }) ∷ [])))
    × (withdrawn.escrows ≡ with_funds.escrows)
unfolding withdraw verify_worker_signature withdraw_message debit_balance balance_key join decimal
    lookup insert ◌==◌ hex_decode hex_decode_safe holding
withdraw-pays_example =
    withdraw-pays signed_call key near_token_id 2 bob signature with_funds withdrawn key
      near_token_id {w = worker_account} refl refl refl refl

-- The owner pauses the contract in between, and the repetition comes in a later block.
withdraw_never_replayed_example : ¬ (
    withdraw
      (record signed_call { block_height = 99 })
      key
      near_token_id
      2
      bob
      signature
      (record withdrawn { paused = true })
    ≡ ok withdrawn)
unfolding withdraw verify_worker_signature withdraw_message debit_balance balance_key join decimal
    lookup insert ◌==◌ hex_decode hex_decode_safe run_call run_side pause
withdraw_never_replayed_example =
    withdraw_never_replayed signed_call (record signed_call { block_height = 99 }) key near_token_id
      2 bob signature with_funds withdrawn (record withdrawn { paused = true }) withdrawn
      {w = worker_account} refl (omega arith) refl refl
      (λ m m' pk h h'. ==→eq m _ h ∙ sym (==→eq m' _ h')) refl
      (followed_by (call_by owner) (side Calls.pause) now refl)

hex_decode_safe-hex_encode_example :
    hex_decode_safe (hex_encode (0 ∷ 255 ∷ [])) ≡ ok (some (0 ∷ 255 ∷ []))
hex_decode_safe-hex_encode_example =
    hex_decode_safe-hex_encode (0 ∷ 255 ∷ []) (omega arith, (omega arith, tt))

-- The agent's wallet, before its fifth action.
abbrev agent_wallet : AgentMsig
agent_wallet = record {
  agent_pubkey = many 32 1;
  agent_npub = ascii "npub";
  escrow_contract = here;
  nonce = 4;
  last_action_block = 0;
  owner = owner;
  allowed_tokens = [];
  max_action_value_yocto = 50;
  daily_limit_yocto = 80;
  spent_in_window = 10;
  window_start_block = 0;
  dispatched = [];
}

abbrev wallet_call : Msig.Env
wallet_call = record {
  signer = bob;
  predecessor = bob;
  block_height = 10;
  account_balance = 100;
  state_exists = true;
  ed25519_verify = λ _ _ _. true;
  parse_action = λ _. some (record { nonce = 5; action = Msig.withdraw none 30 bob });
  decode_base58 = λ _. none;
}

abbrev wallet_after : Msig.Tx AgentMsig → AgentMsig
wallet_after (ok s) = s
wallet_after (panic _) = agent_wallet

-- The same message twice, of which the second is refused, and a call of the owner.
abbrev received : List Received
received =
    record { env = wallet_call; call = WalletCalls.execute (ascii "a") signature }
    ∷ record { env = wallet_call; call = WalletCalls.execute (ascii "a") signature }
    ∷ record {
      env = record wallet_call { signer = owner };
      call = WalletCalls.set_allowed_tokens [];
    }
    ∷ []

outflow-Bounded_example :
    outflow (run_all received agent_wallet).dispatched ≤ 0 + 80 * ((20 - 0) / 7200) + (80 - 10)
unfolding outflow
outflow-Bounded_example =
    outflow-Bounded 20 received agent_wallet
      (omega arith, tt, (omega arith, tt, (omega arith, tt, tt))) (omega arith) (omega arith)

received_spend : total_spent received agent_wallet ≡ 30
unfolding total_spent spent_by left_by run_wallet_call message_value execute action_value perform
    enforce_spending_limit spend_in_window roll_window set_allowed_tokens ◌==◌
received_spend = refl

abbrev executed : AgentMsig
executed = wallet_after (execute wallet_call (ascii "a") signature agent_wallet)

-- The owner sets a new key, 7300 blocks after the last action.
abbrev owner_call : Msig.Env
owner_call = record wallet_call {
  signer = owner;
  block_height = 7300;
  decode_base58 = λ _. some (many 32 9);
}

abbrev rekeyed : AgentMsig
rekeyed = record agent_wallet { agent_pubkey = many 32 9; agent_npub = [] }

wallet_authority_example :
    SignedByAgent owner_call (WalletCalls.force_rotate (ascii "ed25519:z") []) agent_wallet
    ⊎ OwnersSetting owner_call agent_wallet rekeyed
unfolding run_wallet_call force_rotate decode_ed25519_pubkey strip_prefix ◌==◌
wallet_authority_example =
    wallet_authority owner_call (WalletCalls.force_rotate (ascii "ed25519:z") []) agent_wallet
      rekeyed refl

execute_never_replayed_example :
    ¬ (execute wallet_call (ascii "a") signature (run_all received executed) ≡ ok executed)
unfolding execute action_value enforce_spending_limit spend_in_window roll_window perform
execute_never_replayed_example =
    execute_never_replayed wallet_call wallet_call (ascii "a") signature signature received
      agent_wallet executed executed refl (omega arith) refl
