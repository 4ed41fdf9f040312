-- ===== src/Verifier/Host.antt =====
-- What the service gets from outside: Radicle, the checked-out files, Docker, the language model,
-- the NEAR RPC and its own keys; and how its steps end.
use near_escrow.Shared.Tests.{ℕ, Bool, Option, List, if◌then◌else◌}
use near_escrow.Shared.Lists.{take, drop}
use near_escrow.Shared.Outcome.{Outcome, ok, panic}
use near_escrow.Text.Bytes.{Text}
use near_escrow.Text.Hex.{starts_char}

-- How a step fails: with an `Err`, which the event loop logs, or with a Rust panic.
pub data Fault : Type 0 where
  error crash : Fault

abbrev pub Try : Type 0 → Type 0
Try A = Outcome Fault A

-- `&text[..text.len().min(n)]`, which panics inside a multi-byte character.
unfoldable pub clip : ℕ → Text → Try Text
clip n text = if starts_char (drop n text) then ok (take n text) else panic crash

-- The lookups that the service makes in MANIFEST.json; `none` where one fails.
pub record Manifest : Type 0 where
  pub name : Option Text
  pub method : Option Text
  pub criteria : Option Text
  pub threshold : Option ℕ  -- u64
  pub verify_hash : Option Text
  pub timeout_seconds : Option ℕ
  pub memory_mb : Option ℕ
  pub runtime : Option Text

-- The two lookups in the value that the contract's `get_escrow` returns.
pub record EscrowJson : Type 0 where
  pub task_repo_rid : Option Text
  pub data_id : Option Text

-- The outcome of `docker run`; the status has no code where a signal ended it.
pub record DockerOutput : Type 0 where
  pub code : Option ℕ
  pub stdout : Text
  pub stderr : Text
  pub duration_ms : ℕ

-- The lookups in the language model's answer, once its content is parsed.
pub record Scored : Type 0 where
  pub score : Option ℕ  -- u64
  pub detail : Option Text

-- A file under a directory: its path relative to it, and its bytes if it can be read.
abbrev pub Listing : Type 0
Listing = List (Text × Option Text)

pub record World : Type 0 where
  -- `radicle.clone_repo`, `checkout_patch` and `checkout_branch`
  pub clone_repo : Text → Option Text
  pub checkout_patch : Text → Text → Option Text
  pub checkout_branch : Text → Text → Bool
  -- the checked-out files, by directory and relative path
  pub read_file : Text → Text → Option Text
  pub exists : Text → Text → Bool
  -- `collect_files` on a directory of the checkout; `none` where it cannot be listed
  pub list_files : Text → Text → Option Listing
  pub sha256_hex : Text → Text
  -- the debug form of an error of `hash_directory`
  pub hash_error : Text
  pub parse_manifest : Text → Option Manifest
  -- `docker run` with these arguments
  pub docker : List Text → Option DockerOutput
  -- the model's answer to a prompt, and its parse after trimming
  pub ask_model : Text → Option Text
  pub parse_scored : Text → Option Scored
  -- `submitter::get_escrow`, at the first and at the last call of a handler
  pub first_escrow : Text → Option EscrowJson
  pub last_escrow : Text → Option EscrowJson
  -- the rendering of the verdict by serde_json, and the ed25519 signature of a message
  pub verdict_json : ℕ → Bool → Text → Text → Text → Text
  pub sign : Text → Text
