-- ===== src/Escrow/Admin.antt =====
-- The owner's operations: set-up, the verifier set, the hand-over of ownership, the pause switch,
-- the token whitelist and the parameters.
pub mod Guards
pub mod Quorum
use near_escrow.Shared.Tests.{
  ℕ, Bool, true, false, ◌||◌, not, Option, none, some, List, [], ◌∷◌, ◌++◌, leb, ltb, nat_eq,
  if◌then◌else◌, unwrap_or,
}
use near_escrow.Shared.Lists.{length, get_elem?, set, is_empty, select, any}
use near_escrow.Shared.Outcome.{ok, panic, assert, expect, ◌>>=◌, ◌>>◌}
use near_escrow.Text.Bytes.{Text, ◌==◌}
use near_escrow.Escrow.Types.{VerifierInfo}
use near_escrow.Escrow.Host.{Env, Tx, Panic}
use near_escrow.Escrow.Stats.{empty_stats}
use near_escrow.Escrow.State.{Contract}

-- `STORAGE_DEPOSIT_YOCTO`, 1 NEAR, and `WORKER_STAKE_YOCTO`, 0.1 NEAR
abbrev pub initial_storage_deposit : ℕ
initial_storage_deposit = 1000000000000000000000000

abbrev pub initial_worker_stake : ℕ
initial_worker_stake = 100000000000000000000000

-- `verifier_set.iter().filter(|v| v.active).count()`
abbrev pub active_count : List VerifierInfo → ℕ
active_count verifiers = length (select (λ v. v.active) verifiers)

check_keys : List VerifierInfo → Tx (Unit {0})
check_keys [] = ok tt
check_keys (v ∷ rest) =
    let others = check_keys rest in
    do assert (nat_eq (length v.public_key) 64) Panic.bad_verifier_key; others

unfoldable pub new : Env → List VerifierInfo → Option ℕ → List Text → Tx Contract
unfolding check_keys
new env verifier_set consensus_threshold allowed_tokens = do
  assert (not env.state_exists) Panic.already_initialized
  assert (not (is_empty verifier_set)) Panic.no_verifiers
  check_keys verifier_set
  let threshold = unwrap_or consensus_threshold 2
  assert (leb threshold (active_count verifier_set)) Panic.threshold_too_high
  assert (leb 1 threshold) Panic.threshold_zero
  ok (record {
    owner = env.signer;
    pending_owner = none;
    paused = false;
    escrows = [];
    verifier_set = verifier_set;
    consensus_threshold = threshold;
    data_id_index = [];
    storage_deposit_yocto = initial_storage_deposit;
    worker_stake_yocto = initial_worker_stake;
    workers = [];
    balances = [];
    paused_workers = [];
    allowed_tokens = allowed_tokens;
    stats = empty_stats;
    promises = [];
  })

abbrev pub only_owner : Env → Contract → Tx (Unit {0})
only_owner env s = assert (env.predecessor == s.owner) Panic.only_owner

unfoldable pub add_verifier : Env → Text → Text → Contract → Tx Contract
add_verifier env account_id public_key s = do
  only_owner env s
  assert (nat_eq (length public_key) 64) Panic.key_length
  assert (not (any (λ v. v.account_id == account_id) s.verifier_set)) Panic.verifier_known
  ok (record s {
    verifier_set =
        s.verifier_set
        ++ record { account_id = account_id; public_key = public_key; active = true } ∷ [];
  })

unfoldable pub deactivate_verifier : Env → ℕ → Contract → Tx Contract
deactivate_verifier env index s = do
  only_owner env s
  v ← expect (get_elem? s.verifier_set index) Panic.bad_verifier_index
  ok (record s { verifier_set = set s.verifier_set index (record v { active = false }) })

unfoldable pub set_consensus_threshold : Env → ℕ → Contract → Tx Contract
set_consensus_threshold env threshold s = do
  only_owner env s
  assert (leb threshold (active_count s.verifier_set)) Panic.threshold_too_high
  assert (leb 1 threshold) Panic.threshold_zero
  ok (record s { consensus_threshold = threshold })

unfoldable pub is_multi_verifier : Contract → Bool
is_multi_verifier s = not (is_empty s.verifier_set)

unfoldable pub propose_owner : Env → Text → Contract → Tx Contract
propose_owner env new_owner s = do
  only_owner env s
  ok (record s { pending_owner = some new_owner })

unfoldable pub accept_owner : Env → Contract → Tx Contract
accept_owner env s = elim s.pending_owner [
  | some po ↦
      if po == env.predecessor
      then ok (record s { pending_owner = none; owner = env.predecessor })
      else panic Panic.not_proposed_owner
  | none ↦ panic Panic.no_pending_owner
]

unfoldable pub pause : Env → Contract → Tx Contract
pause env s = do only_owner env s; ok (record s { paused = true })

unfoldable pub unpause : Env → Contract → Tx Contract
unpause env s = do only_owner env s; ok (record s { paused = false })

abbrev pub contains : List Text → Text → Bool
contains tokens token = any (λ t. t == token) tokens

unfoldable pub add_allowed_token : Env → Text → Contract → Tx Contract
add_allowed_token env token s = do
  only_owner env s
  ok (
      if contains s.allowed_tokens token
      then s
      else record s { allowed_tokens = s.allowed_tokens ++ token ∷ [] })

unfoldable pub remove_allowed_token : Env → Text → Contract → Tx Contract
remove_allowed_token env token s = do
  only_owner env s
  ok (record s { allowed_tokens = select (λ t. not (t == token)) s.allowed_tokens })

unfoldable pub is_token_allowed : Contract → Text → Bool
is_token_allowed s token = is_empty s.allowed_tokens || contains s.allowed_tokens token

unfoldable pub set_storage_deposit : Env → ℕ → Contract → Tx Contract
set_storage_deposit env amount s = do
  only_owner env s
  assert (ltb 0 amount) Panic.deposit_zero
  ok (record s { storage_deposit_yocto = amount })

unfoldable pub set_worker_stake : Env → ℕ → Contract → Tx Contract
set_worker_stake env amount s = do only_owner env s; ok (record s { worker_stake_yocto = amount })
