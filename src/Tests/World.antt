-- ===== src/Tests/World.antt =====
-- A small world for the verifier service: one repository with one file under verify/.
use near_escrow.Shared.Tests.{true, false, Option, none, some, [], ◌∷◌, ◌++◌}
use near_escrow.Text.Bytes.{Text, ascii}
use near_escrow.Text.Decimal.{decimal}
use near_escrow.Verifier.Config.{Config, with_defaults}
use near_escrow.Verifier.Host.{EscrowJson, Listing, World}
use near_escrow.Verifier.Nostr.{WorkerResultEvent}
use near_escrow.Verifier.Pipeline.{Verifier}
use near_escrow.Tests.Fixtures.{job, bob, key, here}

abbrev pub settings : Config
settings = with_defaults none (record {
  verifier_index = 0;
  secret_key_hex = key;
  verifier_account_id = bob;
  verifier_did = [];
  escrow_account = here;
  network = [];
  rpc_url = [];
  nostr_relays = none;
  nostr_key_hex = [];
  radicle_home = none;
  work_dir = none;
  radicle_seed = none;
  executor_runtime = none;
  default_image = none;
  max_timeout_secs = none;
  max_memory_mb = none;
  llm_url = none;
  llm_api_key = none;
  llm_model = none;
  consensus_threshold = none;
  score_threshold = none;
})

abbrev pub files : Listing
files = (ascii "verify.sh", some (ascii "exit 0")) ∷ (ascii "data", some (ascii "1")) ∷ []

-- Hashing is the identity here, and so is signing; every run in Docker passes.
abbrev pub world : Option EscrowJson → Listing → World
world shown listed = record {
  clone_repo = λ _. some (ascii "d");
  checkout_patch = λ _ _. some [];
  checkout_branch = λ _ _. false;
  read_file = λ _ _. none;
  exists = λ _ _. true;
  list_files = λ _ _. some listed;
  sha256_hex = λ t. t;
  hash_error = [];
  parse_manifest = λ _. none;
  docker =
      λ _. some (record { code = some 0; stdout = ascii "fine"; stderr = []; duration_ms = 1 });
  ask_model = λ _. none;
  parse_scored = λ _. none;
  first_escrow = λ _. shown;
  last_escrow = λ _. shown;
  verdict_json = λ n passed detail method patch. decimal n ++ detail;
  sign = λ t. t;
}

-- The service with the job's task known, and the hash that is expected of verify/.
abbrev pub service : Text → Verifier
service expected = record {
  config = settings;
  processed = [];
  task_repos = (job, ascii "rad:z") ∷ [];
  task_event_ids = (job, ascii "event") ∷ [];
  task_verify_hashes = (job, expected) ∷ [];
  sent = [];
}

abbrev pub worker_result : WorkerResultEvent
worker_result = record {
  event_id = [];
  pubkey = [];
  job_id = job;
  worker_msig = bob;
  patch_id = ascii "p";
  branch = none;
  summary = [];
}

-- The hash of the files.
abbrev pub hashed : Text
hashed =
    ascii "sha256:"
    ++ (ascii "data"
        ++ 0 ∷ (ascii "1" ++ 0 ∷ (ascii "verify.sh" ++ 0 ∷ (ascii "exit 0" ++ 0 ∷ []))))
