-- ===== src/Verifier/Config.antt =====
-- The service's settings, verifier-service/src/config.rs. Reading the file is the caller's.
use near_escrow.Shared.Tests.{
  not, if◌then◌else◌, nat_eq, ℕ, Bool, false, Option, List, [], ◌∷◌, ◌++◌, unwrap_or,
}
use near_escrow.Text.Bytes.{Text, ascii}

pub record Config : Type 0 where
  pub verifier_index : ℕ  -- u8
  pub secret_key_hex : Text
  pub verifier_account_id : Text
  pub verifier_did : Text
  pub escrow_account : Text
  pub network : Text
  pub rpc_url : Text
  pub nostr_relays : List Text
  pub nostr_key_hex : Text
  pub radicle_home : Text
  pub work_dir : Text
  pub radicle_seed : Bool
  pub executor_runtime : Text
  pub default_image : Text
  pub max_timeout_secs : ℕ  -- u64
  pub max_memory_mb : ℕ  -- u64
  pub llm_url : Text
  pub llm_api_key : Text
  pub llm_model : Text
  pub consensus_threshold : ℕ  -- u8
  pub score_threshold : ℕ  -- u8

-- The settings as the file gives them: those with `serde(default)` may be left out.
pub record ConfigFile : Type 0 where
  pub verifier_index : ℕ
  pub secret_key_hex : Text
  pub verifier_account_id : Text
  pub verifier_did : Text
  pub escrow_account : Text
  pub network : Text
  pub rpc_url : Text
  pub nostr_relays : Option (List Text)
  pub nostr_key_hex : Text
  pub radicle_home : Option Text
  pub work_dir : Option Text
  pub radicle_seed : Option Bool
  pub executor_runtime : Option Text
  pub default_image : Option Text
  pub max_timeout_secs : Option ℕ
  pub max_memory_mb : Option ℕ
  pub llm_url : Option Text
  pub llm_api_key : Option Text
  pub llm_model : Option Text
  pub consensus_threshold : Option ℕ
  pub score_threshold : Option ℕ

-- `dirs_home`: the variable HOME, or the directory for temporary files.
abbrev pub dirs_home : Option Text → Text
dirs_home home = unwrap_or home (ascii "/tmp")

-- A directory to which `Path::join` adds a separator: one that is not empty and does not end in one.
unfoldable pub needs_separator : Text → Bool
needs_separator [] = false
needs_separator (c ∷ []) = not (nat_eq c b'/')
needs_separator (c ∷ d ∷ dir) = needs_separator (d ∷ dir)

-- `Path::join` of a directory and a relative path.
unfoldable pub in_dir : Text → Text → Text
in_dir dir path = if needs_separator dir then dir ++ b'/' ∷ path else dir ++ path

-- The settings with each default filled in.
unfoldable pub with_defaults : Option Text → ConfigFile → Config
with_defaults home f = record {
  verifier_index = f.verifier_index;
  secret_key_hex = f.secret_key_hex;
  verifier_account_id = f.verifier_account_id;
  verifier_did = f.verifier_did;
  escrow_account = f.escrow_account;
  network = f.network;
  rpc_url = f.rpc_url;
  nostr_relays =
      unwrap_or f.nostr_relays (ascii "wss://nostr-relay-production.up.railway.app" ∷ []);
  nostr_key_hex = f.nostr_key_hex;
  radicle_home = unwrap_or f.radicle_home (in_dir (dirs_home home) (ascii ".radicle"));
  work_dir = unwrap_or f.work_dir (in_dir (dirs_home home) (ascii ".hermes/verifier/repos"));
  radicle_seed = unwrap_or f.radicle_seed false;
  executor_runtime = unwrap_or f.executor_runtime (ascii "docker");
  default_image = unwrap_or f.default_image (ascii "python:3.12-slim");
  max_timeout_secs = unwrap_or f.max_timeout_secs 600;
  max_memory_mb = unwrap_or f.max_memory_mb 2048;
  llm_url = unwrap_or f.llm_url (ascii "https://api.openai.com/v1/chat/completions");
  llm_api_key = unwrap_or f.llm_api_key [];
  llm_model = unwrap_or f.llm_model (ascii "gpt-4o-mini");
  consensus_threshold = unwrap_or f.consensus_threshold 2;
  score_threshold = unwrap_or f.score_threshold 50;
}
