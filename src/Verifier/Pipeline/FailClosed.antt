-- ===== src/Verifier/Pipeline/FailClosed.antt =====
-- What a result leads to when verify/ does not have the hash that the task asks for.
use near_escrow.Shared.Tests.{
  ℕ, ◌+◌, ◌≡◌, Bool, true, not, inl, inr, Option, none, some, List, [], ◌∷◌, ◌++◌, arith,
  if◌then◌else◌,
}
use near_escrow.Shared.Maps.{lookup}
use near_escrow.Shared.Outcome.{ok, panic, Outcome-cases}
use near_escrow.Text.Bytes.{Text, ascii, ◌==◌}
use near_escrow.Verifier.Host.{World}
use near_escrow.Verifier.Nostr.{WorkerResultEvent}
use near_escrow.Verifier.Radicle.{hash_directory}
use near_escrow.Verifier.Checkout.{
  locate_repo, parsed, field, or_else, check_integrity, missing_hash, rejected,
}
use near_escrow.Verifier.Pipeline.{
  Effect, submit, post_verified, Verifier, reject, done, handle_checkout, handle_repo,
  handle_worker_result,
}

-- The submissions and the reports of a pass.
abbrev in_favour : Effect → ℕ
in_favour (submit _) = 1
in_favour (post_verified r) = if r.passed then 1 else 0

unfoldable pub favours : List Effect → ℕ
favours [] = 0
favours (e ∷ es) = in_favour e + favours es

-- The hash that is expected of the directory verify/ in a checkout.
abbrev pub expected_hash : World → Text → Text → Verifier → Option Text
expected_hash w repo_dir job_id s =
    or_else (lookup job_id s.task_verify_hashes)
      (field (λ m. m.verify_hash) (parsed w (w.read_file repo_dir (ascii "MANIFEST.json"))))

-- The directory cannot be hashed, no hash is expected, or it has another one.
abbrev pub is_tampered : World → Text → Option Text → Bool
is_tampered w repo_dir none = true
is_tampered w repo_dir (some expected) = elim (hash_directory w repo_dir (ascii "verify")) [
  | panic _ ↦ true
  | ok actual ↦ not (actual == expected)
]

check_integrity-tampered :
    (w : World) (repo_dir : Text) (expected : Option Text)
    → w.exists repo_dir (ascii "verify") ≡ true
    → is_tampered w repo_dir expected ≡ true
    → (detail : Text) × (check_integrity w repo_dir expected ≡ rejected detail)
unfolding check_integrity
check_integrity-tampered w repo_dir none there bad =
    elim (Outcome-cases (hash_directory w repo_dir (ascii "verify"))) [
      | inr (f, unread) ↦ (
        ascii "verify/ hash computation failed: " ++ w.hash_error,
        rw (there, unread, check_integrity),
      )
      | inl (actual, hashed) ↦ (missing_hash, rw (there, hashed, check_integrity))
    ]
check_integrity-tampered w repo_dir (some expected) there bad =
    elim (Outcome-cases (hash_directory w repo_dir (ascii "verify"))) [
      | inr (f, unread) ↦ (
        ascii "verify/ hash computation failed: " ++ w.hash_error,
        rw (there, unread, check_integrity),
      )
      | inl (actual, hashed) ↦
          (ascii "verify_hash mismatch: expected " ++ expected, ground (arith, there, hashed, bad))
    ]

favours-reject :
    (r : WorkerResultEvent) (detail : Text) (s : Verifier)
    → (favours (reject r detail s).sent ≡ favours s.sent)
      × ((reject r detail s).processed ≡ s.processed)
unfolding reject favours
favours-reject r detail s = ground arith

handle_checkout-tampered :
    (w : World) (repo_dir : Text) (r : WorkerResultEvent) (s : Verifier)
    → w.exists repo_dir (ascii "verify") ≡ true
    → is_tampered w repo_dir (expected_hash w repo_dir r.job_id s) ≡ true
    → (favours (handle_checkout w repo_dir r s).state.sent ≡ favours s.sent)
      × ((handle_checkout w repo_dir r s).state.processed ≡ s.processed)
unfolding handle_checkout reject
handle_checkout-tampered w repo_dir r s there bad =
    let (detail, found) =
      check_integrity-tampered w repo_dir (expected_hash w repo_dir r.job_id s) there bad in
    let same : handle_checkout w repo_dir r s ≡ done (reject r detail s) =
      rw (found, handle_checkout) in
    let (sent, kept) = favours-reject r detail s in (rw same sent, rw same kept)

-- A checkout whose directory verify/ cannot be hashed, has another hash than the task or else the
-- manifest gives, or has none given, leads to no submission, to no report of a pass and to no
-- mark as processed.
pub handle_worker_result_fails_closed :
    (w : World) (r : WorkerResultEvent) (s : Verifier) (rid repo_dir : Text)
    → locate_repo w r.job_id s.task_repos ≡ ok (some rid)
    → w.clone_repo rid ≡ some repo_dir
    → w.exists repo_dir (ascii "verify") ≡ true
    → is_tampered w repo_dir (expected_hash w repo_dir r.job_id s) ≡ true
    → (favours (handle_worker_result w r s).state.sent ≡ favours s.sent)
      × ((handle_worker_result w r s).state.processed ≡ s.processed)
unfolding handle_worker_result handle_repo
handle_worker_result_fails_closed w r s rid repo_dir located cloned there bad =
    ground (arith, handle_checkout-tampered w repo_dir r s there bad)
