-- ===== src/Verifier/OnChain.antt =====
-- The service and the contract together: what the contract shows to the service, and what the
-- contract makes of the service's submissions.
pub mod Refused
use near_escrow.Shared.Tests.{
  ℕ, suc, ◌+◌, ◌≤◌, ◌<◌, ◌≡◌, ◌≢◌, refl, sym, ◌∙◌, Bool, true, false, inl, inr, Option, none, some,
  List, [], ◌∷◌, ◌++◌, arith, Option-cases, Bool-cases, if◌then◌else◌, unwrap_or,
}
use near_escrow.Shared.Lists.{select, is_empty}
use near_escrow.Shared.Maps.{Map, lookup}
use near_escrow.Shared.Outcome.{ok, panic, ◌>>=◌, Outcome-cases}
use near_escrow.Text.Bytes.{Text, ascii, ◌==◌}
use near_escrow.Text.Decimal.{decimal, join}
use near_escrow.Escrow.Types.{
  EscrowStatus, pending_funding, opened, in_progress, verifying, claimed, refunded, cancelled,
  settlement_failed, EscrowMode, standard, competitive, SignedVerdict,
}
use near_escrow.Escrow.Host.{Env}
use near_escrow.Escrow.State.{Contract}
use near_escrow.Escrow.Views.{EscrowView, get_escrow}
use near_escrow.Escrow.Consensus.{resume_verification_multi}
use near_escrow.Verifier.Host.{EscrowJson, World}
use near_escrow.Verifier.Nostr.{WorkerResultEvent}
use near_escrow.Verifier.Nostr.Verified.{Report}
use near_escrow.Verifier.Submitter.{ResumeArgs}
use near_escrow.Verifier.Pipeline.{
  Effect, submit, post_verified, Verifier, submit_on_chain, handle_worker_result,
}
use near_escrow.Verifier.Pipeline.Sent.{handle_worker_result-select}

abbrev status_name : EscrowStatus → Text
status_name pending_funding = ascii "PendingFunding"
status_name opened = ascii "Open"
status_name in_progress = ascii "InProgress"
status_name verifying = ascii "Verifying"
status_name claimed = ascii "Claimed"
status_name refunded = ascii "Refunded"
status_name cancelled = ascii "Cancelled"
status_name settlement_failed = ascii "SettlementFailed"

abbrev mode_name : EscrowMode → Text
mode_name standard = ascii "Standard"
mode_name competitive = ascii "Competitive"

-- The members of the JSON object that the derived `Serialize` makes of an `EscrowView`, by name:
-- a text, or `none` for a value that is none.
unfoldable pub members : EscrowView → Map (Option Text)
members v =
    (ascii "job_id", some v.job_id)
    ∷ (ascii "agent", some v.agent)
    ∷ (ascii "worker", v.worker)
    ∷ (ascii "amount", some (decimal v.amount))
    ∷ (ascii "token", some v.token)
    ∷ (ascii "created_at", none)
    ∷ (ascii "timeout_ms", none)
    ∷ (ascii "status", some (status_name v.status))
    ∷ (ascii "task_description", some v.task_description)
    ∷ (ascii "criteria", some v.criteria)
    ∷ (ascii "verifier_fee", some (decimal v.verifier_fee))
    ∷ (ascii "result", v.result)
    ∷ (ascii "score_threshold", none)
    ∷ (ascii "verdict", none)
    ∷ (ascii "mode", some (mode_name v.mode))
    ∷ (ascii "max_submissions", none)
    ∷ (ascii "submission_count", none)
    ∷ (ascii "winner_idx", none)
    ∷ (ascii "worker_pubkey", v.worker_pubkey)
    ∷ (ascii "retry_count", none)
    ∷ []

-- `value.get(name).and_then(|v| v.as_str())`
unfoldable pub text_at : Text → Map (Option Text) → Option Text
text_at name object = unwrap_or (lookup name object) none

-- What the service reads of the contract's answer; `null` has no members.
unfoldable pub escrow_json : Option EscrowView → EscrowJson
escrow_json none = record { task_repo_rid = none; data_id = none }
escrow_json (some v) = record {
  task_repo_rid = text_at (ascii "task_repo_rid") (members v);
  data_id = text_at (ascii "data_id") (members v);
}

no_data_id : (v : Option EscrowView) → (escrow_json v).data_id ≡ none
unfolding escrow_json text_at members lookup ◌==◌
no_data_id none = refl
no_data_id (some v) = refl

abbrev pub is_submission : Effect → Bool
is_submission (submit _) = true
is_submission (post_verified _) = false

-- Where the service's last reading of the job is what the contract's `get_escrow` shows, handling
-- a result adds no submission.
pub handle_worker_result_never_submits :
    (w : World) (c : Contract) (r : WorkerResultEvent) (s : Verifier)
    → w.last_escrow r.job_id ≡ some (escrow_json (get_escrow r.job_id c))
    → select is_submission (handle_worker_result w r s).state.sent ≡ select is_submission s.sent
unfolding submit_on_chain
handle_worker_result_never_submits w c r s shown =
    handle_worker_result-select is_submission (λ _. refl) w r
      (λ e verdict s' found.
        let same : e ≡ escrow_json (get_escrow r.job_id c) = cc in
        let hidden : e.data_id ≡ none = rw same (no_data_id (get_escrow r.job_id c)) in
        rw (hidden, submit_on_chain))
      s
