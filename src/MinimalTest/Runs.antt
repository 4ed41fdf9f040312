-- ===== src/MinimalTest/Runs.antt =====
-- Both versions of the wallet on the same list of calls.
use near_escrow.Shared.Tests.{Option, ℕ, ◌≡◌, ◌∙◌, refl, ap, true, List, [], ◌∷◌, map, inl, inr}
use near_escrow.Shared.Outcome.{ok, panic, Outcome-cases}
use near_escrow.Text.Bytes.{Text}
use near_escrow.MinimalTest
use near_escrow.MinimalTest.{Env, AgentMsig}
use near_escrow.MinimalTest.Agreement.{
  newer, newer_action, newer_env, newer_result, is_covered, execute_agrees, settings_agree,
}
use near_escrow.Msig
use near_escrow.Msig.Calls.{Call, execute, force_rotate, set_allowed_tokens, set_spending_limits}
use near_escrow.Msig.Calls

-- A call to the older wallet, with the balance that the account has then and
-- the newer wallet's parser of actions.
pub record Received : Type 0 where
  pub balance : ℕ
  pub parse : Text → Option Msig.Action
  pub env : Env
  pub call : Call

unfoldable pub run_call : Env → Call → AgentMsig → Msig.Tx AgentMsig
run_call env (execute json signature) s = MinimalTest.execute env json signature s
run_call env (force_rotate k n) s = MinimalTest.force_rotate env k n s
run_call env (set_allowed_tokens ts) s = MinimalTest.set_allowed_tokens env ts s
run_call env (set_spending_limits a d) s = MinimalTest.set_spending_limits env a d s

unfoldable pub left_by : Received → AgentMsig → AgentMsig
left_by r s = elim (run_call r.env r.call s) [ ok s' ↦ s' | panic _ ↦ s ]

unfoldable pub run_all : List Received → AgentMsig → AgentMsig
run_all [] s = s
run_all (r ∷ rs) s = run_all rs (left_by r s)

abbrev pub newer_received : Received → Calls.Received
newer_received r = record { env = newer_env r.balance r.parse r.env; call = r.call }

-- A message to execute is one that both parsers read alike, and withdraws no more NEAR than the
-- balance.
abbrev pub IsCovered : Received → Type 0
IsCovered r = elim r.call [
  | execute json _ ↦
      (r.parse json ≡ newer_action (r.env.parse_action json))
      × (is_covered r.balance (r.env.parse_action json) ≡ true)
  | _ ↦ Unit {0}
]

abbrev pub AllCovered : List Received → Type 0
AllCovered [] = Unit
AllCovered (r ∷ rs) = IsCovered r × AllCovered rs

run_call_agrees :
    (balance : ℕ) (parse : Text → Option Msig.Action) (env : Env) (c : Call) (s : AgentMsig)
    → IsCovered (record { balance = balance; parse = parse; env = env; call = c })
    → Calls.run_call (newer_env balance parse env) c (newer s) ≡ newer_result (run_call env c s)
unfolding run_call Calls.run_call
run_call_agrees balance parse env (execute json signature) s h =
    execute_agrees balance parse env json signature s h.0 h.1
run_call_agrees balance parse env (force_rotate k n) s h =
    (settings_agree balance 0 parse env k n [] [] 0 0 s).2
run_call_agrees balance parse env (set_allowed_tokens ts) s h =
    (settings_agree balance 0 parse env [] [] [] ts 0 0 s).3
run_call_agrees balance parse env (set_spending_limits a d) s h =
    (settings_agree balance 0 parse env [] [] [] [] a d s).4

left_by_agrees :
    (r : Received) (s : AgentMsig)
    → IsCovered r
    → Calls.left_by (newer_received r) (newer s) ≡ newer (left_by r s)
unfolding left_by Calls.left_by
left_by_agrees r s h =
    let same = run_call_agrees r.balance r.parse r.env r.call s h in
    elim (Outcome-cases (run_call r.env r.call s)) [
      | inl (s', ends) ↦ rw (same, ends, Calls.left_by, left_by)
      | inr (e, ends) ↦ rw (same, ends, Calls.left_by, left_by)
    ]

run_all_agrees :
    (rs : List Received) (s : AgentMsig)
    → AllCovered rs
    → Calls.run_all (map newer_received rs) (newer s) ≡ newer (run_all rs s)
unfolding run_all Calls.run_all
run_all_agrees [] s h = refl
run_all_agrees (r ∷ rs) s h =
    ap (Calls.run_all (map newer_received rs)) (left_by_agrees r s h.0)
    ∙ run_all_agrees rs (left_by r s) h.1

-- Set up alike, the two versions go through any list of calls alike, as long as every message in
-- it that is to be executed is read as the same action by both or by neither, and withdraws no
-- more NEAR than the balance that the account has then: the newer wallet's setup goes through
-- where the older one's does, and both end in the same state with the same calls dispatched.
pub versions_agree :
    (balance : ℕ) (parse : Text → Option Msig.Action) (env : Env) (key npub escrow : Text)
    (rs : List Received) (s : AgentMsig)
    → MinimalTest.new env key npub escrow ≡ ok s
    → AllCovered rs
    → (Msig.new (newer_env balance parse env) key npub escrow ≡ ok (newer s))
      × (Calls.run_all (map newer_received rs) (newer s) ≡ newer (run_all rs s))
versions_agree balance parse env key npub escrow rs s started covered = (
  (settings_agree balance 0 parse env key npub escrow [] 0 0 s).0 ∙ ap newer_result started,
  run_all_agrees rs s covered,
)
