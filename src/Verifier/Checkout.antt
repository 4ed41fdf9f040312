-- ===== src/Verifier/Checkout.antt =====
-- What one result is checked for, of verifier-service/src/consensus.rs: its repository and checkout,
-- the hash of verify/, and the verification that the manifest names.
use near_escrow.Shared.Tests.{
  ℕ, ◌%◌, Bool, true, false, not, ◌&&◌, ◌||◌, Option, none, some, [], ◌∷◌, ◌++◌, if◌then◌else◌,
  unwrap_or, u8_mod,
}
use near_escrow.Shared.Maps.{Map, lookup}
use near_escrow.Shared.Outcome.{ok, panic, ◌>>=◌}
use near_escrow.Text.Bytes.{Text, ascii, ◌==◌}
use near_escrow.Verifier.Config.{Config}
use near_escrow.Verifier.Host.{Try, error, Manifest, World}
use near_escrow.Verifier.Nostr.{WorkerResultEvent}
use near_escrow.Verifier.Radicle.{hash_directory}
use near_escrow.Verifier.Executor.{VerificationResult, verify_script, verify_with_image}
use near_escrow.Verifier.Scorer.{score}

-- The repository of the job; `none` ends the handler without an error.
unfoldable pub locate_repo : World → Text → Map Text → Try (Option Text)
locate_repo w job_id task_repos = elim (lookup job_id task_repos) [
  | some rid ↦ ok (some rid)
  | none ↦ elim (w.first_escrow job_id) [ none ↦ panic error | some e ↦ ok e.task_repo_rid ]
]

-- Whether the worker's patch, or else the branch that was named, could be checked out.
unfoldable pub checked_out : World → Text → WorkerResultEvent → Bool
checked_out w repo_dir r = elim (w.checkout_patch repo_dir r.patch_id) [
  | some _ ↦ true
  | none ↦ elim r.branch [ none ↦ false | some branch ↦ w.checkout_branch repo_dir branch ]
]

abbrev pub parsed : World → Option Text → Option Manifest
parsed w none = none
parsed w (some content) = w.parse_manifest content

abbrev pub field {ℓ} : {A : Type ℓ} → (Manifest → Option A) → Option Manifest → Option A
field f none = none
field f (some m) = f m

-- `a.or_else(|| b)`
abbrev pub or_else : Option Text → Option Text → Option Text
or_else none b = b
or_else (some a) b = some a

-- "missing verify_hash — agent must provide integrity hash", whose dash is three bytes.
abbrev pub missing_hash : Text
missing_hash =
    ascii "missing verify_hash " ++ 226 ∷ 128 ∷ 148 ∷ ascii " agent must provide integrity hash"

pub data Integrity : Type 0 where
  intact : Integrity
  rejected : (detail : Text) → Integrity

-- The check of the directory verify/ against the expected hash; a missing directory passes.
unfoldable pub check_integrity : World → Text → Option Text → Integrity
check_integrity w repo_dir expected =
    if not (w.exists repo_dir (ascii "verify"))
    then intact
    else elim (hash_directory w repo_dir (ascii "verify")) [
      | panic _ ↦ rejected (ascii "verify/ hash computation failed: " ++ w.hash_error)
      | ok actual ↦ elim expected [
        | none ↦ rejected missing_hash
        | some h ↦
            if actual == h then intact else rejected (ascii "verify_hash mismatch: expected " ++ h)
      ]
    ]

-- The worker's output for the language model: a file, or the event's summary.
unfoldable pub output_text : World → Text → WorkerResultEvent → Text
output_text w repo_dir r =
    unwrap_or (w.read_file repo_dir (ascii "output/result.json"))
      (unwrap_or (w.read_file repo_dir (ascii "output/solution.py")) r.summary)

unfoldable pub judge_by_model :
    World → Config → Text → Option Manifest → WorkerResultEvent → Try VerificationResult
judge_by_model w config repo_dir manifest r =
    score w config (unwrap_or (field (λ m. m.name) manifest) (ascii "Task"))
      (unwrap_or (field (λ m. m.criteria) manifest) (ascii "Quality of work"))
      (output_text w repo_dir r)
    >>= λ verdict. ok (record {
      passed = verdict.passed;
      code = some (if verdict.passed then 0 else 1);
      stdout = verdict.detail;
      stderr = [];
      duration_ms = 0;
      method = ascii "llm_judge";
    })

abbrev runs_script : Text → Bool
runs_script method = method == ascii "test_suite" || method == ascii "deterministic"

-- The run of the method that the manifest names; `none` where there is no such method.
unfoldable pub run_verification :
    World → Config → Text → Option Manifest → WorkerResultEvent → Try (Option VerificationResult)
run_verification w config repo_dir manifest r =
    let method = unwrap_or (field (λ m. m.method) manifest) (ascii "test_suite") in
    let image = unwrap_or (field (λ m. m.runtime) manifest) config.default_image in
    if runs_script method && w.exists repo_dir verify_script
    then (verify_with_image w config repo_dir image >>= λ v. ok (some v))
    else if method == ascii "llm_judge"
    then (judge_by_model w config repo_dir manifest r >>= λ v. ok (some v))
    else ok none

abbrev as_u8 : Option ℕ → Option ℕ
as_u8 none = none
as_u8 (some n) = some (n % u8_mod)

-- A pass scores what the manifest says, or 100; a failure scores 0.
unfoldable pub score_of : Bool → Option Manifest → ℕ
score_of passed manifest =
    if passed then unwrap_or (as_u8 (field (λ m. m.threshold) manifest)) 100 else 0
