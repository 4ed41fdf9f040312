-- ===== src/Verifier/Startup.antt =====
-- The checks before the event loop, verifier-service/src/main.rs, and the
-- setup of its parts, `Verifier::new` of consensus.rs.
use near_escrow.Shared.Tests.{Bool, Option, none, some, List, [], nat_eq}
use near_escrow.Shared.Lists.{length, get_elem?}
use near_escrow.Shared.Outcome.{ok, assert, expect, ◌>>=◌, ◌>>◌}
use near_escrow.Text.Bytes.{Text, ◌==◌}
use near_escrow.Text.Hex.{hex_encode}
use near_escrow.Escrow.Types.{VerifierInfo}
use near_escrow.Verifier.Config.{Config}
use near_escrow.Verifier.Host.{Try, error, clip}
use near_escrow.Verifier.Pipeline.{Verifier}

-- The service's key against the set on chain; a set that cannot be read, or that has no entry at
-- the index, is only logged.
unfoldable pub check_key : Config → Text → Option (List VerifierInfo) → Try (Unit {0})
check_key config public_key none = ok tt
check_key config public_key (some set) = elim (get_elem? set config.verifier_index) [
  | none ↦ ok tt
  | some info ↦ assert (hex_encode public_key == info.public_key) error
]

-- What the setup of the parts meets: whether the work directory can be made, the Nostr key parses
-- and the relays are added, and the status of `docker --version`, `none` where there is no Docker.
pub record Setup : Type 0 where
  pub work_dir_made : Bool
  pub relays_added : Bool
  pub docker_version : Option Bool

check_docker : Option Bool → Try (Unit {0})
check_docker version = expect version error >>= λ success. assert success error

-- `Verifier::new`
unfoldable pub new_verifier : Setup → Config → Try Verifier
unfolding check_docker
new_verifier setup config = do
  assert setup.work_dir_made error
  assert setup.relays_added error
  check_docker setup.docker_version
  ok (record {
    config = config;
    processed = [];
    task_repos = [];
    task_event_ids = [];
    task_verify_hashes = [];
    sent = [];
  })

-- `main` up to the loop; the banner prints 20 bytes of the DID. The decoder of the secret key, the
-- public key of a secret one and the answer of `get_verifier_set` are arguments.
unfoldable pub start :
    (Text → Option Text)
    → (Text → Text)
    → Option (List VerifierInfo)
    → Setup
    → Config
    → Try Verifier
start decode_hex public_key_of verifier_set setup config = do
  _ ← clip 20 config.verifier_did
  secret ← expect (decode_hex config.secret_key_hex) error
  assert (nat_eq (length secret) 32) error
  check_key config (public_key_of secret) verifier_set
  new_verifier setup config
