-- ===== src/Verifier/Pipeline/Sent.antt =====
-- What a handled result adds to the effects of one sort, from what its submission adds.
use near_escrow.Shared.Tests.{
  ◌≡◌, refl, ◌∙◌, ◌⊎◌, Bool, false, inl, inr, Option, none, some, Option-cases, Bool-cases, ℕ,
}
use near_escrow.Shared.Lists.{select}
use near_escrow.Shared.Maps.{lookup}
use near_escrow.Shared.Outcome.{Outcome-cases}
use near_escrow.Text.Bytes.{Text}
use near_escrow.Verifier.Host.{clip, EscrowJson, Manifest, World}
use near_escrow.Verifier.Nostr.{WorkerResultEvent}
use near_escrow.Verifier.Nostr.Verified.{Report}
use near_escrow.Verifier.Executor.{VerificationResult}
use near_escrow.Verifier.Checkout.{
  locate_repo, checked_out, check_integrity, Integrity, intact, rejected, run_verification,
}
use near_escrow.Verifier.Pipeline.FailClosed.{expected_hash}
use near_escrow.Verifier.Pipeline.{
  Effect, post_verified, Verifier, reject, submit_on_chain, post_outcome, conclude, deliver,
  verify_and_deliver, handle_checkout, handle_repo, handle_worker_result, already_processed,
}

Integrity-cases : (i : Integrity) → (i ≡ intact) ⊎ ((detail : Text) × (i ≡ rejected detail))
Integrity-cases intact = inl refl
Integrity-cases (rejected detail) = inr (detail, refl)

module _ (sort : Effect → Bool) (no_report : (r : Report) → sort (post_verified r) ≡ false)
    (w : World) (r : WorkerResultEvent)
    (no_submission : (e : EscrowJson) (verdict : Text) (s : Verifier)
      → w.last_escrow r.job_id ≡ some e
      → select sort (submit_on_chain w r.job_id verdict e s).sent ≡ select sort s.sent) where
  reject-select :
      (detail : Text) (s : Verifier) → select sort (reject r detail s).sent ≡ select sort s.sent
  unfolding reject
  reject-select detail s = elim (Option-cases (lookup r.job_id s.task_event_ids)) [
    | inl unknown ↦ rw (unknown, reject)
    | inr (id, known) ↦ rw (known, reject) (rw no_report)
  ]

  conclude-select :
      (v : VerificationResult) (n : ℕ) (s : Verifier)
      → select sort (conclude r v n s).state.sent ≡ select sort s.sent
  unfolding conclude post_outcome
  conclude-select v n s = elim (Option-cases (lookup r.job_id s.task_event_ids)) [
    | inl unknown ↦ rw (unknown, post_outcome, conclude)
    | inr (id, known) ↦ elim (Outcome-cases (clip 500 v.stdout)) [
      | inl (detail, cut) ↦ rw (known, cut, post_outcome, conclude) (rw no_report)
      | inr (f, crashed) ↦ rw (known, crashed, post_outcome, conclude)
    ]
  ]

  deliver-select :
      (m : Option Manifest) (v : VerificationResult) (s : Verifier)
      → select sort (deliver w m r v s).state.sent ≡ select sort s.sent
  unfolding deliver
  deliver-select m v s = elim (Outcome-cases (clip 1000 v.stdout)) [
    | inr (f, crashed) ↦ rw (crashed, deliver)
    | inl (detail, cut) ↦ elim (Option-cases (w.last_escrow r.job_id)) [
      | inl gone ↦ rw (cut, gone, deliver)
      | inr (e, found) ↦
          rw (cut, found, deliver) (conclude-select v _ _ ∙ no_submission e _ s found)
    ]
  ]

  verify_and_deliver-select :
      (dir : Text) (m : Option Manifest) (s : Verifier)
      → select sort (verify_and_deliver w dir m r s).state.sent ≡ select sort s.sent
  unfolding verify_and_deliver
  verify_and_deliver-select dir m s = elim (Outcome-cases (run_verification w s.config dir m r)) [
    | inr (f, broke) ↦ rw (broke, verify_and_deliver)
    | inl (none, ran) ↦ rw (ran, verify_and_deliver)
    | inl (some v, ran) ↦ rw (ran, verify_and_deliver) (deliver-select m v s)
  ]

  handle_checkout-select :
      (dir : Text) (s : Verifier)
      → select sort (handle_checkout w dir r s).state.sent ≡ select sort s.sent
  unfolding handle_checkout
  handle_checkout-select dir s =
      elim (Integrity-cases (check_integrity w dir (expected_hash w dir r.job_id s))) [
        | inl whole ↦ rw (whole, handle_checkout) (verify_and_deliver-select dir _ s)
        | inr (detail, bad) ↦ rw (bad, handle_checkout) (reject-select detail s)
      ]

  handle_repo-select :
      (rid : Text) (s : Verifier)
      → select sort (handle_repo w rid r s).state.sent ≡ select sort s.sent
  unfolding handle_repo
  handle_repo-select rid s = elim (Option-cases (w.clone_repo rid)) [
    | inl failed ↦ rw (failed, handle_repo)
    | inr (dir, cloned) ↦ elim (Bool-cases (checked_out w dir r)) [
      | inl out ↦ rw (cloned, out, handle_repo) (handle_checkout-select dir s)
      | inr stuck ↦ rw (cloned, stuck, handle_repo)
    ]
  ]

  -- If the submission adds no effect of this sort, and no report is of it, then handling the
  -- result adds none.
  pub handle_worker_result-select :
      (s : Verifier) → select sort (handle_worker_result w r s).state.sent ≡ select sort s.sent
  unfolding handle_worker_result
  handle_worker_result-select s = elim (Bool-cases (already_processed r s)) [
    | inl again ↦ rw (again, handle_worker_result)
    | inr new ↦ elim (Outcome-cases (locate_repo w r.job_id s.task_repos)) [
      | inr (f, lost) ↦ rw (new, lost, handle_worker_result)
      | inl (none, unknown) ↦ rw (new, unknown, handle_worker_result)
      | inl (some rid, found) ↦ rw (new, found, handle_worker_result) (handle_repo-select rid s)
    ]
  ]
