-- ===== src/Escrow/Compete.antt =====
-- The agent's choice among competitive submissions, `designate_winner`, and the removal of
-- finished escrows, `cleanup_completed`.
pub mod Early
pub mod Keyless
pub mod Stakes
use near_escrow.Shared.Tests.{
  ℕ, zero, suc, Bool, true, false, Option, none, some, List, [], ◌∷◌, ◌++◌, leb, nat_eq, ◌&&◌, ◌||◌,
  if◌then◌else◌, is_some,
}
use near_escrow.Shared.Lists.{length, get_elem?}
use near_escrow.Shared.Maps.{Map, remove, lookup}
use near_escrow.Shared.Outcome.{ok, assert, expect, ◌>>=◌, ◌>>◌}
use near_escrow.Text.Bytes.{Text, ◌==◌}
use near_escrow.Escrow.Types.{
  EscrowStatus, opened, verifying, claimed, refunded, cancelled, same_status, EscrowMode, standard,
  competitive, Submission, Escrow,
}
use near_escrow.Escrow.Host.{Env, Promise, transfer, Tx, Panic}
use near_escrow.Escrow.Stats.{transition_stats}
use near_escrow.Escrow.State.{Contract, schedule_all}
use near_escrow.Escrow.Submit.{start_verification, before_deadline}
use near_escrow.Escrow.Settle.{expires_at}

-- `escrow.winner_idx == Some(winner_idx)`
abbrev pub is_index : Option ℕ → ℕ → Bool
is_index none i = false
is_index (some j) i = nat_eq j i

-- The stakes of the submissions other than `winner`, from index `i` on; the newest first.
unfoldable pub loser_refunds : ℕ → ℕ → List Submission → List Promise
loser_refunds winner i [] = []
loser_refunds winner i (x ∷ rest) =
    let later = loser_refunds winner (suc i) rest in
    if nat_eq i winner then later else later ++ transfer x.worker x.stake ∷ []

abbrev pub is_competitive : EscrowMode → Bool
is_competitive competitive = true
is_competitive standard = false

unfoldable pub designate_winner : Env → Text → ℕ → Contract → Tx Contract
designate_winner env job_id winner_idx s = do
  e ← expect (lookup job_id s.escrows) Panic.escrow_not_found
  assert (is_competitive e.mode) Panic.not_competitive
  if same_status e.status verifying && is_index e.winner_idx winner_idx && is_some e.data_id
      then ok s
      else do
        assert (same_status e.status opened) Panic.not_open
        assert (env.predecessor == e.agent || env.predecessor == s.owner) Panic.not_agent_or_owner
        assert (leb env.block_timestamp_ms (expires_at e)) Panic.expired
        assert (before_deadline env e.deadline_block) Panic.deadline_passed
        winner ← expect (get_elem? e.submissions winner_idx) Panic.winner_out_of_range
        let chosen = record e {
          worker = some winner.worker;
          result = some winner.result;
          winner_idx = some winner_idx;
          worker_stake = some winner.stake;
        }
        start_verification env job_id chosen (
            schedule_all (loser_refunds winner_idx 0 e.submissions)
              (record s { stats = transition_stats s.stats opened verifying }))

-- `matches!(e.status, Claimed | Refunded | Cancelled)`
abbrev pub is_terminal : EscrowStatus → Bool
is_terminal claimed = true
is_terminal refunded = true
is_terminal cancelled = true
is_terminal _ = false

-- The keys to remove: at most `room` of them, in the map's order.
unfoldable pub terminal_jobs : ℕ → Map Escrow → List Text
terminal_jobs zero m = []
terminal_jobs (suc room) [] = []
terminal_jobs (suc room) ((job_id, e) ∷ m) = elim (is_terminal e.status) [
  | true ↦ job_id ∷ terminal_jobs room m
  | false ↦ terminal_jobs (suc room) m
]

unfoldable pub remove_all : List Text → Map Escrow → Map Escrow
remove_all [] m = m
remove_all (job_id ∷ rest) m = remove_all rest (remove job_id m)

-- The new state and the number of escrows removed; `max_count` 0 removes nothing.
unfoldable pub cleanup_completed : ℕ → Contract → Contract × ℕ
cleanup_completed max_count s =
    let jobs = terminal_jobs max_count s.escrows in
    (record s { escrows = remove_all jobs s.escrows }, length jobs)
