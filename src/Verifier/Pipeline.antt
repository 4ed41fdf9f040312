-- ===== src/Verifier/Pipeline.antt =====
-- The event loop and the handlers of verifier-service/src/consensus.rs.
pub mod FailClosed
pub mod Sent
use near_escrow.Shared.Tests.{
  ℕ, Bool, false, Option, none, some, List, [], ◌∷◌, if◌then◌else◌, unwrap_or,
}
use near_escrow.Shared.Lists.{is_empty}
use near_escrow.Shared.Maps.{Map, lookup, insert}
use near_escrow.Shared.Outcome.{ok, panic, ◌>>=◌}
use near_escrow.Text.Bytes.{Text, ascii, ◌==◌}
use near_escrow.Text.Decimal.{join}
use near_escrow.Verifier.Config.{Config}
use near_escrow.Verifier.Host.{Try, Fault, crash, clip, Manifest, EscrowJson, World}
use near_escrow.Verifier.Nostr.{
  TaskEvent, WorkerResultEvent, FundedEvent, Incoming, task, result, funded,
}
use near_escrow.Verifier.Nostr.Verified.{Report}
use near_escrow.Verifier.Executor.{VerificationResult}
use near_escrow.Verifier.Submitter.{ResumeArgs}
use near_escrow.Verifier.Checkout.{
  locate_repo, checked_out, parsed, field, or_else, intact, rejected, check_integrity,
  run_verification, score_of,
}

-- What the handlers send, each in the order in which it is sent.
pub data Effect : Type 0 where
  submit : ResumeArgs → Effect
  post_verified : Report → Effect

-- `Verifier`; `sent` holds what was sent so far, the newest first.
pub record Verifier : Type 0 where
  pub config : Config
  pub processed : Map Text
  pub task_repos : Map Text
  pub task_event_ids : Map Text
  pub task_verify_hashes : Map Text
  pub sent : List Effect

abbrev pub send : Effect → Verifier → Verifier
send e s = record s { sent = e ∷ s.sent }

abbrev keep_hash : Text → Option Text → Map Text → Map Text
keep_hash job_id none hashes = hashes
keep_hash job_id (some h) hashes = insert job_id h hashes

unfoldable pub handle_task_event : TaskEvent → Verifier → Verifier
handle_task_event t s = record s {
  task_repos = insert t.job_id t.repo_rid s.task_repos;
  task_event_ids = insert t.job_id t.event_id s.task_event_ids;
  task_verify_hashes = keep_hash t.job_id t.verify_hash s.task_verify_hashes;
}

-- It only logs.
unfoldable pub handle_funded : FundedEvent → Verifier → Verifier
handle_funded f s = s

unfoldable pub already_processed : WorkerResultEvent → Verifier → Bool
already_processed r s = elim (lookup r.job_id s.processed) [
  | none ↦ false
  | some previous ↦ previous == r.patch_id
]

abbrev pub report : Verifier → WorkerResultEvent → Text → Bool → ℕ → Text → ℕ → Text → Report
report s r event_id passed n method duration_ms detail = record {
  original_event = event_id;
  job_id = r.job_id;
  verifier_account = s.config.verifier_account_id;
  verifier_did = s.config.verifier_did;
  patch_id = r.patch_id;
  passed = passed;
  score = n;
  method = method;
  duration_ms = duration_ms;
  detail = detail;
}

-- A rejection is posted where the task's event is known; the job is not marked as processed.
unfoldable pub reject : WorkerResultEvent → Text → Verifier → Verifier
reject r detail s = elim (lookup r.job_id s.task_event_ids) [
  | none ↦ s
  | some event_id ↦
      send (post_verified (report s r event_id false 0 (ascii "hash_check") 0 detail)) s
]

-- The submission to the contract, where its view shows a `data_id`.
unfoldable pub submit_on_chain : World → Text → Text → EscrowJson → Verifier → Verifier
submit_on_chain w job_id verdict e s =
    let data_id = unwrap_or e.data_id [] in
    if is_empty data_id
    then s
    else send
        (submit (record {
          data_id_hex = data_id;
          verdict_json = verdict;
          verifier_index = s.config.verifier_index;
          signature = w.sign (join job_id verdict);
        }))
        s

-- The report of the outcome, where the task's event is known.
unfoldable pub post_outcome : WorkerResultEvent → VerificationResult → ℕ → Verifier → Try Verifier
post_outcome r v n s = elim (lookup r.job_id s.task_event_ids) [
  | none ↦ ok s
  | some event_id ↦ clip 500 v.stdout >>= λ detail.
      ok (send (post_verified (report s r event_id v.passed n v.method v.duration_ms detail)) s)
]

abbrev pub mark_processed : WorkerResultEvent → Verifier → Verifier
mark_processed r s = record s { processed = insert r.job_id r.patch_id s.processed }

-- How a handler ends, with the state up to there.
pub record Handled : Type 0 where
  pub state : Verifier
  pub fault : Option Fault

abbrev pub done : Verifier → Handled
done s = record { state = s; fault = none }

abbrev pub failed : Fault → Verifier → Handled
failed f s = record { state = s; fault = some f }

-- The last step: the posting, and the mark.
unfoldable pub conclude : WorkerResultEvent → VerificationResult → ℕ → Verifier → Handled
conclude r v n s = elim (post_outcome r v n s) [
  | panic f ↦ failed f s
  | ok s' ↦ done (mark_processed r s')
]

-- Signing, submitting and posting the outcome of a verification.
unfoldable pub deliver :
    World → Option Manifest → WorkerResultEvent → VerificationResult → Verifier → Handled
deliver w manifest r v s = elim (clip 1000 v.stdout) [
  | panic f ↦ failed f s
  | ok detail ↦
      let n = score_of v.passed manifest in
      let verdict = w.verdict_json n v.passed detail v.method r.patch_id in
      elim (w.last_escrow r.job_id) [
        | none ↦ done s
        | some e ↦ conclude r v n (submit_on_chain w r.job_id verdict e s)
      ]
]

-- The steps behind the check of the hash.
unfoldable pub verify_and_deliver :
    World → Text → Option Manifest → WorkerResultEvent → Verifier → Handled
verify_and_deliver w repo_dir manifest r s =
    elim (run_verification w s.config repo_dir manifest r) [
      | panic f ↦ failed f s
      | ok none ↦ done s
      | ok (some v) ↦ deliver w manifest r v s
    ]

-- The steps from the checkout on.
unfoldable pub handle_checkout : World → Text → WorkerResultEvent → Verifier → Handled
handle_checkout w repo_dir r s =
    let manifest = parsed w (w.read_file repo_dir (ascii "MANIFEST.json")) in
    let expected =
      or_else (lookup r.job_id s.task_verify_hashes) (field (λ m. m.verify_hash) manifest) in
    elim (check_integrity w repo_dir expected) [
      | rejected detail ↦ done (reject r detail s)
      | intact ↦ verify_and_deliver w repo_dir manifest r s
    ]

-- The steps from the repository on.
unfoldable pub handle_repo : World → Text → WorkerResultEvent → Verifier → Handled
handle_repo w rid r s = elim (w.clone_repo rid) [
  | none ↦ done s
  | some repo_dir ↦ if checked_out w repo_dir r then handle_checkout w repo_dir r s else done s
]

unfoldable pub handle_worker_result : World → WorkerResultEvent → Verifier → Handled
handle_worker_result w r s =
    if already_processed r s then done s else elim (locate_repo w r.job_id s.task_repos) [
      | panic f ↦ failed f s
      | ok none ↦ done s
      | ok (some rid) ↦ handle_repo w rid r s
    ]

unfoldable pub handle : World → Incoming → Verifier → Handled
handle w (task t) s = done (handle_task_event t s)
handle w (result r) s = handle_worker_result w r s
handle w (funded f) s = done (handle_funded f s)

-- The loop of `run` on the events that come, each with the world that its handler finds: an error
-- is logged, and a panic ends the loop.
unfoldable pub run : List (World × Incoming) → Verifier → Handled
run [] s = done s
run ((w, i) ∷ rest) s =
    let h = handle w i s in
    elim h.fault [ some crash ↦ failed crash h.state | _ ↦ run rest h.state ]
