-- ===== src/Verifier/Executor.antt =====
-- The run of verify.sh in a container, verifier-service/src/executor.rs.
use near_escrow.Shared.Tests.{
  ℕ, Bool, false, Option, none, some, List, [], ◌∷◌, ◌++◌, nat_eq, if◌then◌else◌, unwrap_or, not,
}
use near_escrow.Shared.Outcome.{ok, expect, ◌>>=◌}
use near_escrow.Text.Bytes.{Text, ascii}
use near_escrow.Text.Decimal.{decimal}
use near_escrow.Verifier.Config.{Config}
use near_escrow.Verifier.Host.{World, Manifest, DockerOutput, Try, error, clip}

-- `code` is `none` for the exit code -1, which stands for a missing script or a signal.
pub record VerificationResult : Type 0 where
  pub passed : Bool
  pub code : Option ℕ
  pub stdout : Text
  pub stderr : Text
  pub duration_ms : ℕ
  pub method : Text

abbrev pub verify_script : Text
verify_script = ascii "verify/verify.sh"

abbrev missing_script : Text → VerificationResult
missing_script method = record {
  passed = false;
  code = none;
  stdout = [];
  stderr = ascii "verify/verify.sh not found in repo";
  duration_ms = 0;
  method = method;
}

-- The arguments of `docker run`: no network, a read-only root and the checkout mounted read-only.
unfoldable pub docker_args : Text → ℕ → Text → List Text
docker_args repo_dir memory_mb image =
    ascii "run"
    ∷ ascii "--rm"
    ∷ ascii "--network"
    ∷ ascii "none"
    ∷ ascii "--memory"
    ∷ (decimal memory_mb ++ ascii "m")
    ∷ ascii "--cpus"
    ∷ ascii "2"
    ∷ ascii "--read-only"
    ∷ ascii "--tmpfs"
    ∷ ascii "/tmp:size=100m"
    ∷ ascii "-v"
    ∷ (repo_dir ++ ascii ":/task:ro")
    ∷ ascii "-w"
    ∷ ascii "/task"
    ∷ image
    ∷ ascii "bash"
    ∷ verify_script
    ∷ []

-- Only the exit code 0 is a pass.
abbrev exited_well : Option ℕ → Bool
exited_well none = false
exited_well (some n) = nat_eq n 0

abbrev ran : DockerOutput → Text → VerificationResult
ran o method = record {
  passed = exited_well o.code;
  code = o.code;
  stdout = o.stdout;
  stderr = o.stderr;
  duration_ms = o.duration_ms;
  method = method;
}

-- `verify_with_image`; its memory limit is the configured one.
unfoldable pub verify_with_image : World → Config → Text → Text → Try VerificationResult
verify_with_image w config repo_dir image =
    if not (w.exists repo_dir verify_script)
    then ok (missing_script (ascii "unknown"))
    else expect (w.docker (docker_args repo_dir config.max_memory_mb image)) error >>= λ o.
        ok (ran o (ascii "container"))

abbrev manifest_field {ℓ} : {A : Type ℓ} → (Manifest → Option A) → Option Manifest → Option A
manifest_field f none = none
manifest_field f (some m) = f m

-- The report of a failure prints 500 bytes of the error output.
report_failure : VerificationResult → Try VerificationResult
report_failure r = if r.passed then ok r else (clip 500 r.stderr >>= λ _. ok r)

-- `verify`, which reads the manifest itself; the time limit that it reads is only printed.
unfoldable pub verify : World → Config → Text → Try VerificationResult
unfolding report_failure
verify w config repo_dir =
    let manifest : Option Manifest = elim (w.read_file repo_dir (ascii "MANIFEST.json")) [
      | none ↦ none
      | some content ↦ w.parse_manifest content
    ] in
    let method = unwrap_or (manifest_field (λ m. m.method) manifest) (ascii "test_suite") in
    let memory_mb = unwrap_or (manifest_field (λ m. m.memory_mb) manifest) config.max_memory_mb in
    if not (w.exists repo_dir verify_script)
    then ok (missing_script method)
    else expect (w.docker (docker_args repo_dir memory_mb config.default_image)) error >>= λ o.
        report_failure (ran o method)
