-- ===== src/Msig/Calls.antt =====
-- All calls that change the agent's wallet, as one step function, and what a sequence of them
-- leaves and spends. A call that panics leaves the wallet as it was.
pub mod Replay
pub mod Spending
pub mod Authority
use near_escrow.Shared.Tests.{ℕ, ◌+◌, List, [], ◌∷◌, Option, none, some}
use near_escrow.Shared.Outcome.{Outcome, ok, panic}
use near_escrow.Text.Bytes.{Text}
use near_escrow.Msig
use near_escrow.Msig.{Env, AgentMsig, Tx, action_value}

pub data Call : Type 0 where
  execute : (action_json signature : Text) → Call
  force_rotate : (new_pubkey new_npub : Text) → Call
  set_allowed_tokens : (tokens : List Text) → Call
  set_spending_limits : (max_per_action daily_limit : ℕ) → Call

unfoldable pub run_call : Env → Call → AgentMsig → Tx AgentMsig
run_call env (execute json signature) s = Msig.execute env json signature s
run_call env (force_rotate k n) s = Msig.force_rotate env k n s
run_call env (set_allowed_tokens ts) s = Msig.set_allowed_tokens env ts s
run_call env (set_spending_limits a d) s = Msig.set_spending_limits env a d s

-- A call and what the runtime gives it.
pub record Received : Type 0 where
  pub env : Env
  pub call : Call

-- The wallet after a call, and after a list of them.
unfoldable pub left_by : Received → AgentMsig → AgentMsig
left_by r s = elim (run_call r.env r.call s) [ ok s' ↦ s' | panic _ ↦ s ]

unfoldable pub run_all : List Received → AgentMsig → AgentMsig
run_all [] s = s
run_all (r ∷ rs) s = run_all rs (left_by r s)

-- The value that a message stands for, as the spending limits count it: 0 where it has none.
abbrev pub value_or_zero : Option ℕ → ℕ
value_or_zero none = 0
value_or_zero (some v) = v

unfoldable pub message_value : Env → Text → ℕ
message_value env json = elim (env.parse_action json) [
  | none ↦ 0
  | some a ↦ value_or_zero (action_value a.action)
]

abbrev pub call_value : Env → Call → ℕ
call_value env (execute json _) = message_value env json
call_value env (force_rotate _ _) = 0
call_value env (set_allowed_tokens _) = 0
call_value env (set_spending_limits _ _) = 0

-- What a call spends: nothing where it panics.
unfoldable pub spent_by : Received → AgentMsig → ℕ
spent_by r s = elim (run_call r.env r.call s) [ ok _ ↦ call_value r.env r.call | panic _ ↦ 0 ]

unfoldable pub total_spent : List Received → AgentMsig → ℕ
total_spent [] s = 0
total_spent (r ∷ rs) s = spent_by r s + total_spent rs (left_by r s)
