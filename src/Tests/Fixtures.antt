-- ===== src/Tests/Fixtures.antt =====
-- Calls, an escrow and a contract to run the tests on.
use near_escrow.Shared.Tests.{
  ℕ, zero, suc, true, false, Option, none, some, List, [], ◌∷◌, if◌then◌else◌,
}
use near_escrow.Text.Bytes.{Text, ascii, ◌==◌}
use near_escrow.Escrow.Types.{
  EscrowStatus, standard, SettlementTarget, VerifierVerdict, VerifierInfo, WorkerAccount, Escrow,
}
use near_escrow.Escrow.Host.{Env, Payload, PromiseResult}
use near_escrow.Escrow.Stats.{empty_stats}
use near_escrow.Escrow.State.{Contract}
use near_escrow.Escrow.Lifecycle.{CreateArgs}

abbrev pub many : ℕ → ℕ → Text
many zero c = []
many (suc n) c = c ∷ many n c

abbrev pub agent : Text
agent = ascii "agent"

abbrev pub bob : Text
bob = ascii "bob"

abbrev pub owner : Text
owner = ascii "owner"

abbrev pub here : Text
here = ascii "escrow"

abbrev pub token : Text
token = ascii "token"

abbrev pub job : Text
job = ascii "j"

-- A key of 32 bytes in hexadecimal, and a signature of 64 bytes.
abbrev pub key : Text
key = many 64 b'a'

abbrev pub signature : Text
signature = many 64 1

abbrev pub data_id : Text
data_id = many 32 7

abbrev pub passing : VerifierVerdict
passing = record { score = 90; passed = true; detail = ascii "no detail" }

abbrev pub read_payload : Text → Option Payload
read_payload t =
    if t == ascii "pass"
    then some (record { score = some 90; passed = some true; detail = none })
    else none

-- A call by an account: the deposit, the promise results it sees, and the one message that its
-- signatures verify for.
abbrev pub env_of : Text → ℕ → List PromiseResult → Text → Env
env_of caller deposit results signed = record {
  predecessor = caller;
  signer = caller;
  current_account = here;
  attached_deposit = deposit;
  block_timestamp_ms = 1000;
  block_height = 10;
  state_exists = false;
  promise_results = results;
  register = some data_id;
  ed25519_verify = λ _ m _. m == signed;
  parse_verdict = λ _. some passing;
  parse_payload = read_payload;
  decode_hex = λ t. some (many 32 170);
  is_account_id = λ _. true;
}

abbrev pub call_by : Text → Env
call_by caller = env_of caller 1000000000000000000000000 [] []

abbrev pub callback : List PromiseResult → Env
callback results = env_of here 0 results []

abbrev pub verifier : VerifierInfo
verifier = record { account_id = bob; public_key = key; active = true }

abbrev pub terms : CreateArgs
terms = record {
  job_id = job;
  amount = 100;
  token = token;
  timeout_hours = 1;
  task_description = [];
  criteria = ascii "c";
  verifier_fee = some 5;
  score_threshold = some 80;
  max_submissions = none;
  deadline_block = none;
}

abbrev pub escrow_at : EscrowStatus → Option SettlementTarget → Option Text → Escrow
escrow_at status target worker_pubkey = record {
  job_id = job;
  agent = agent;
  worker = some bob;
  amount = 100;
  token = token;
  created_at = 0;
  timeout_ms = 3600000;
  status = status;
  task_description = [];
  criteria = ascii "c";
  verifier_fee = 5;
  result = none;
  score_threshold = 80;
  verdict = none;
  data_id = some data_id;
  settlement_target = target;
  worker_stake = some 3;
  yield_consumed = false;
  worker_pubkey = worker_pubkey;
  mode = standard;
  max_submissions = none;
  submissions = [];
  winner_idx = none;
  deadline_block = none;
  retry_count = 5;
  pending_payout = none;
  pending_stake_refund = none;
  verifying_since_ms = some 0;
}

abbrev pub worker_account : WorkerAccount
worker_account = record { nostr_pubkey = key; near_account_id = none; nonce = 4 }

-- A contract that holds one escrow, one worker and one verifier.
abbrev pub contract_with : Escrow → Contract
contract_with e = record {
  owner = owner;
  pending_owner = none;
  paused = false;
  escrows = (job, e) ∷ [];
  verifier_set = verifier ∷ [];
  consensus_threshold = 1;
  data_id_index = [];
  storage_deposit_yocto = 1;
  worker_stake_yocto = 3;
  workers = (key, worker_account) ∷ [];
  balances = [];
  paused_workers = [];
  allowed_tokens = [];
  stats = empty_stats;
  promises = [];
}
