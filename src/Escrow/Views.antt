-- ===== src/Escrow/Views.antt =====
-- The read-only methods: `EscrowView`, the paginated lists, the statistics and the wallet views.
pub mod Pages
pub mod Walk
pub mod Getters
use near_escrow.Shared.Tests.{
  ℕ, ◌%◌, Bool, true, false, not, ◌&&◌, Option, none, some, List, [], ◌∷◌, ◌++◌, map, ltb, nat_eq,
  if◌then◌else◌, is_some, u32_mod, unwrap_or,
}
use Prim.Native.Nat.{min}
use near_escrow.Shared.Lists.{length, select, take, drop}
use near_escrow.Shared.Maps.{Map, lookup}
use near_escrow.Shared.Outcome.{ok, panic, ◌>>=◌}
use near_escrow.Text.Bytes.{Text, ascii, ◌==◌, strip_prefix}
use near_escrow.Text.Hex.{hex_encode}
use near_escrow.Escrow.Types.{
  EscrowStatus, pending_funding, opened, in_progress, verifying, claimed, refunded, cancelled,
  settlement_failed, same_status, EscrowMode, VerifierVerdict, WorkerAccount, Escrow,
}
use near_escrow.Escrow.Host.{Tx, Panic}
use near_escrow.Escrow.Stats.{EscrowStats, total}
use near_escrow.Escrow.State.{Contract}
use near_escrow.Escrow.Submit.{is_text}

pub record EscrowView : Type 0 where
  pub job_id : Text
  pub agent : Text
  pub worker : Option Text
  pub amount : ℕ
  pub token : Text
  pub created_at : ℕ
  pub timeout_ms : ℕ
  pub status : EscrowStatus
  pub task_description : Text
  pub criteria : Text
  pub verifier_fee : ℕ
  pub result : Option Text
  pub score_threshold : ℕ
  pub verdict : Option VerifierVerdict
  pub mode : EscrowMode
  pub max_submissions : Option ℕ
  pub submission_count : ℕ  -- u32
  pub winner_idx : Option ℕ
  pub worker_pubkey : Option Text
  pub retry_count : ℕ

-- `From<Escrow> for EscrowView`
unfoldable pub view_of : Escrow → EscrowView
view_of e = record {
  job_id = e.job_id;
  agent = e.agent;
  worker = e.worker;
  amount = e.amount;
  token = e.token;
  created_at = e.created_at;
  timeout_ms = e.timeout_ms;
  status = e.status;
  task_description = e.task_description;
  criteria = e.criteria;
  verifier_fee = e.verifier_fee;
  result = e.result;
  score_threshold = e.score_threshold;
  verdict = e.verdict;
  mode = e.mode;
  max_submissions = e.max_submissions;
  submission_count = length e.submissions % u32_mod;
  winner_idx = e.winner_idx;
  worker_pubkey = e.worker_pubkey;
  retry_count = e.retry_count;
}

abbrev pub view_entry : Text × Escrow → EscrowView
view_entry (_, e) = view_of e

-- `.filter(p).skip(from as usize).take(limit.unwrap_or(50).min(100))`; in the contract's WebAssembly
-- a `usize` has 32 bits.
abbrev pub page_size : Option ℕ → ℕ
page_size limit = min (unwrap_or limit 50) 100

unfoldable pub page : (Escrow → Bool) → Option ℕ → Option ℕ → Contract → List (Text × Escrow)
page p from_index limit s =
    take (page_size limit) (drop (unwrap_or from_index 0 % u32_mod) (select (λ x. p x.1) s.escrows))

unfoldable pub get_escrow : Text → Contract → Option EscrowView
get_escrow job_id s = elim (lookup job_id s.escrows) [ none ↦ none | some e ↦ some (view_of e) ]

unfoldable pub list_open : Option ℕ → Option ℕ → Contract → List EscrowView
list_open from_index limit s =
    map view_entry (page (λ e. same_status e.status opened) from_index limit s)

unfoldable pub list_by_agent : Text → Option ℕ → Option ℕ → Contract → List EscrowView
list_by_agent agent from_index limit s =
    map view_entry (page (λ e. e.agent == agent) from_index limit s)

unfoldable pub list_by_worker : Text → Option ℕ → Option ℕ → Contract → List EscrowView
list_by_worker worker from_index limit s =
    map view_entry (page (λ e. is_text e.worker worker) from_index limit s)

unfoldable pub status_of_name : Text → Tx EscrowStatus
status_of_name name =
    if name == ascii "PendingFunding"
    then ok pending_funding
    else if name == ascii "Open"
    then ok opened
    else if name == ascii "InProgress"
    then ok in_progress
    else if name == ascii "Verifying"
    then ok verifying
    else if name == ascii "Claimed"
    then ok claimed
    else if name == ascii "Refunded"
    then ok refunded
    else if name == ascii "Cancelled"
    then ok cancelled
    else if name == ascii "SettlementFailed"
    then ok settlement_failed
    else panic Panic.unknown_status

unfoldable pub list_by_status : Text → Option ℕ → Option ℕ → Contract → Tx (List EscrowView)
list_by_status status from_index limit s = do
  target ← status_of_name status
  ok (map view_entry (page (λ e. same_status e.status target) from_index limit s))

-- What `list_verifying` shows of an escrow; its status is always "Verifying".
pub record VerifyingView : Type 0 where
  pub job_id : Text
  pub data_id : Option Text

abbrev pub verifying_view : Text × Escrow → VerifyingView
verifying_view (_, e) = record {
  job_id = e.job_id;
  data_id = elim e.data_id [ none ↦ none | some id ↦ some (hex_encode id) ];
}

unfoldable pub list_verifying : Option ℕ → Option ℕ → Contract → List VerifyingView
list_verifying from_index limit s =
    map verifying_view (page (λ e. same_status e.status verifying) from_index limit s)

abbrev pub non_zero : Text → ℕ → List (Text × ℕ)
non_zero name n = if ltb 0 n then (name, n) ∷ [] else []

-- The total and the counters that are not zero, by name.
unfoldable pub get_stats : Contract → ℕ × List (Text × ℕ)
get_stats s =
    let c = s.stats in
    (
      total c,
      non_zero (ascii "PendingFunding") c.pending_funding
          ++ non_zero (ascii "Open") c.opened
          ++ non_zero (ascii "InProgress") c.in_progress
          ++ non_zero (ascii "Verifying") c.verifying
          ++ non_zero (ascii "Claimed") c.claimed
          ++ non_zero (ascii "Refunded") c.refunded
          ++ non_zero (ascii "Cancelled") c.cancelled
          ++ non_zero (ascii "SettlementFailed") c.settlement_failed,
    )

-- The text up to the first colon.
unfoldable pub before_colon : Text → Text
before_colon [] = []
before_colon (c ∷ s) = if nat_eq c b':' then [] else c ∷ before_colon s

-- The text behind the first colon; `none` where there is none.
unfoldable pub after_colon : Text → Option Text
after_colon [] = none
after_colon (c ∷ s) = if nat_eq c b':' then some s else after_colon s

-- `k.split(':').nth(1).unwrap_or("unknown")`
unfoldable pub token_of_key : Text → Text
token_of_key k = elim (after_colon k) [ none ↦ ascii "unknown" | some rest ↦ before_colon rest ]

unfoldable pub get_worker_balances : Text → Contract → List (Text × ℕ)
get_worker_balances worker_pubkey s =
    map (λ x. (token_of_key x.0, x.1))
      (select (λ x. is_some (strip_prefix (worker_pubkey ++ b':' ∷ []) x.0)) s.balances)

record WorkerAccountView : Type 0 where
  nostr_pubkey : Text
  near_account_id : Option Text
  nonce : ℕ  -- u64

-- `From<WorkerAccount> for WorkerAccountView`
abbrev worker_view : WorkerAccount → WorkerAccountView
worker_view w = record {
  nostr_pubkey = w.nostr_pubkey;
  near_account_id = w.near_account_id;
  nonce = w.nonce;
}

abbrev get_worker_info : Text → Contract → Option WorkerAccountView
get_worker_info worker_pubkey s = elim (lookup worker_pubkey s.workers) [
  | none ↦ none
  | some w ↦ some (worker_view w)
]

unfoldable pub is_worker_paused : Text → Contract → Bool
is_worker_paused worker_pubkey s = is_some (lookup worker_pubkey s.paused_workers)
