-- ===== src/Tests/Services.antt =====
-- The verifier service on results in a small world.
use near_escrow.Shared.Tests.{◌≡◌, ◌≢◌, refl, sym, true, none, some, [], arith}
use near_escrow.Shared.Lists.{select}
use near_escrow.Shared.Maps.{lookup}
use near_escrow.Text.Bytes.{Text, ascii, ◌==◌, ==→eq}
use near_escrow.Escrow.Types.{verifying}
use near_escrow.Escrow.Host.{Env}
use near_escrow.Escrow.Views.{get_escrow}
use near_escrow.Verifier.Host.{EscrowJson}
use near_escrow.Verifier.Radicle.{path_before, insert_file, feed, sort_files, hash_directory}
use near_escrow.Verifier.Checkout.{locate_repo}
use near_escrow.Verifier.Pipeline.{handle_worker_result}
use near_escrow.Verifier.Pipeline.FailClosed.{favours, handle_worker_result_fails_closed}
use near_escrow.Verifier.OnChain.{escrow_json, is_submission, handle_worker_result_never_submits}
use near_escrow.Verifier.OnChain.Refused.{accepted, handle_worker_result_refused}
use near_escrow.Tests.Fixtures.{job, bob, key, env_of, escrow_at, contract_with}
use near_escrow.Tests.World.{files, world, service, worker_result, hashed}

handle_worker_result_fails_closed_example :
    (favours
        (handle_worker_result
          (world none files)
          worker_result
          (service (ascii "sha256:other"))).state.sent
      ≡ 0)
    × ((handle_worker_result
          (world none files)
          worker_result
          (service (ascii "sha256:other"))).state.processed
        ≡ [])
unfolding favours locate_repo lookup ◌==◌ hash_directory feed sort_files insert_file path_before
handle_worker_result_fails_closed_example =
    handle_worker_result_fails_closed (world none files) worker_result
      (service (ascii "sha256:other")) (ascii "rad:z") (ascii "d") refl refl refl refl

handle_worker_result_never_submits_example :
    select is_submission
      (handle_worker_result
        (world
          (some (escrow_json (get_escrow job (contract_with (escrow_at verifying none none)))))
          files)
        worker_result
        (service hashed)).state.sent
    ≡ []
handle_worker_result_never_submits_example =
    handle_worker_result_never_submits
      (world (some (escrow_json (get_escrow job (contract_with (escrow_at verifying none none)))))
        files)
      (contract_with (escrow_at verifying none none)) worker_result (service hashed) refl

-- A host whose signatures are the signed messages.
abbrev host : Env
host = record (env_of bob 0 [] []) { ed25519_verify = λ sig m _. sig == m }

own_message : (m m' pk : Text) → host.ed25519_verify m m' pk ≡ true → m' ≡ m
own_message m m' pk h = sym (==→eq m m' h)

abbrev shown_with_data_id : EscrowJson
shown_with_data_id = record { task_repo_rid = none; data_id = some key }

key-ne-job : key ≢ job
key-ne-job e = ground (arith, e)

handle_worker_result_refused_example :
    select
      (accepted host (contract_with (escrow_at verifying none none)))
      (handle_worker_result
        (world (some shown_with_data_id) files)
        worker_result
        (service hashed)).state.sent
    ≡ []
handle_worker_result_refused_example =
    handle_worker_result_refused host (world (some shown_with_data_id) files) own_message
      (contract_with (escrow_at verifying none none)) worker_result (service hashed)
      shown_with_data_id refl key-ne-job (omega arith)
