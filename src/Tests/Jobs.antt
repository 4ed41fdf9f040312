-- ===== src/Tests/Jobs.antt =====
-- Funding, submissions, the winner of a competition, expiry and cleanup at concrete inputs.
use near_escrow.Shared.Tests.{ℕ, ◌+◌, ◌≤◌, ◌≡◌, refl, ◌⊎◌, true, none, some, [], ◌∷◌, arith}
use near_escrow.Shared.Maps.{lookup, insert}
use near_escrow.Shared.Outcome.{ok, panic}
use near_escrow.Text.Bytes.{ascii, ◌==◌}
use near_escrow.Text.Hex.{hex_encode}
use near_escrow.Escrow.Types.{
  pending_funding, opened, in_progress, verifying, claimed, refunded, cancelled, claim, full_refund,
  Escrow,
}
use near_escrow.Escrow.Host.{Env, Tx, Panic, FtTransfer, failed, settle_batch}
use near_escrow.Escrow.Stats.{empty_stats, transition_stats}
use near_escrow.Escrow.State.{Contract, put_escrow}
use near_escrow.Tests.Fixtures.{
  agent, bob, token, job, key, signature, env_of, call_by, callback, escrow_at, contract_with,
}
use near_escrow.Escrow.Admin.{is_token_allowed}
use near_escrow.Escrow.Lifecycle.{ft_on_transfer}
use near_escrow.Escrow.Lifecycle.Funding.{ft_on_transfer-all_or_nothing}
use near_escrow.Escrow.Submit.{
  start_verification, submit_standard, submit_by_mode, submit_result, submit_result_for,
}
use near_escrow.Escrow.Submit.Counters.{submit_result-leaves_counters}
use near_escrow.Escrow.Settle.Money.{ft_out}
use near_escrow.Escrow.Compete.{cleanup_completed}
use near_escrow.Escrow.Invariant.{IsClosed}
use near_escrow.Escrow.Invariant.Cleanup.{cleanup_completed-exact}
use near_escrow.Shared.Tests.{unwrap_or, List, ◌-◌}
use near_escrow.Text.Bytes.{Text}
use near_escrow.Shared.Lists.{length}
use near_escrow.Escrow.Types.{competitive, Submission}
use near_escrow.Escrow.Compete.{loser_refunds, designate_winner}
use near_escrow.Escrow.Compete.Early.{cleanup_then_callback}
use near_escrow.Escrow.Compete.Keyless.{winner_by_key_unpaid}
use near_escrow.Escrow.Settle.{settle_callback, settle_escrow}
use near_escrow.Escrow.Compete.Stakes.{near_out, total_stakes, designate_winner-stakes}
use near_escrow.Escrow.Cancel.{refund_expired}
use near_escrow.Escrow.Cancel.Expiry.{RefundsAll, refund_expired-pays}
use near_escrow.Escrow.Settle.Money.{ft_out}

abbrev after : Tx Contract → Contract
after (ok s) = s
after (panic _) = contract_with (escrow_at claimed none none)

abbrev pending : Escrow
pending = escrow_at pending_funding none none

ft_on_transfer-all_or_nothing_example :
    (ft_on_transfer (call_by token) agent 100 job (contract_with pending)
      ≡ (contract_with pending, 100))
    ⊎ ((e : Escrow) × (lookup job (contract_with pending).escrows ≡ some e)
        × (agent ≡ e.agent)
        × (token ≡ e.token)
        × (100 ≡ e.amount)
        × (e.status ≡ pending_funding)
        × (is_token_allowed (contract_with pending) token ≡ true)
        × ((ft_on_transfer (call_by token) agent 100 job (contract_with pending)).1 ≡ 0)
        × ((ft_on_transfer (call_by token) agent 100 job (contract_with pending)).0.escrows
            ≡ insert job (record e { status = opened }) (contract_with pending).escrows)
        × ((ft_on_transfer (call_by token) agent 100 job (contract_with pending)).0.balances ≡ []))
ft_on_transfer-all_or_nothing_example =
    ft_on_transfer-all_or_nothing (call_by token) agent 100 job (contract_with pending)

abbrev working : Escrow
working = escrow_at in_progress none none

abbrev submitted : Contract
submitted = after (submit_result (call_by bob) job (ascii "r") (contract_with working))

submit_result-leaves_counters_example :
    (submitted.stats ≡ empty_stats)
    × ((e : Escrow) × (lookup job submitted.escrows ≡ some e) × (e.status ≡ verifying))
unfolding submit_result submit_by_mode submit_standard start_verification lookup insert ◌==◌
    hex_encode
submit_result-leaves_counters_example =
    submit_result-leaves_counters (call_by bob) job (ascii "r") (contract_with working) submitted
      {e = working} refl refl refl refl

abbrev working_for : Escrow
working_for = escrow_at in_progress none (some key)

abbrev worker_call : Env
worker_call = env_of bob 0 [] (ascii "escrow:submit_result:j:4")

abbrev submitted_for : Contract
submitted_for =
    after (submit_result_for worker_call job (ascii "r") key signature (contract_with working_for))

abbrev finished : Escrow
finished = escrow_at refunded none none

abbrev cleaned : Contract × ℕ
cleaned = cleanup_completed 5 (contract_with finished)

cleanup_completed-exact_example :
    (cleaned.1 ≤ 5)
    × (length cleaned.0.escrows + cleaned.1 ≡ 1)
    × ((lookup job cleaned.0.escrows ≡ some finished)
        ⊎ ((lookup job cleaned.0.escrows ≡ none) × IsClosed refunded))
    × ((cleaned.1 ≡ 5) ⊎ (lookup job cleaned.0.escrows ≡ none) ⊎ (¬ (IsClosed refunded)))
unfolding lookup ◌==◌
cleanup_completed-exact_example =
    cleanup_completed-exact 5 (contract_with finished) job {e = finished} (refl, tt) refl

abbrev entrant : Text → Submission
entrant worker = record { worker = worker; result = ascii "r"; stake = 3; worker_pubkey = none }

abbrev competition : Escrow
competition = record (escrow_at opened none none) {
  mode = competitive;
  worker_stake = none;
  submissions = entrant bob ∷ entrant token ∷ entrant agent ∷ [];
}

abbrev won : Contract
won = after (designate_winner (call_by agent) job 1 (contract_with competition))

designate_winner-stakes_example :
    (e : Escrow) × (lookup job won.escrows ≡ some e)
    × (near_out won.promises + unwrap_or e.worker_stake 0 ≡ 0 + 9)
unfolding designate_winner start_verification loser_refunds lookup insert ◌==◌ hex_encode
    transition_stats near_out total_stakes
designate_winner-stakes_example =
    designate_winner-stakes (call_by agent) job 1 (contract_with competition) won {e = competition}
      refl refl refl

abbrev keyed_entrant : Submission
keyed_entrant = record (entrant bob) { worker_pubkey = some key }

abbrev keyed_competition : Escrow
keyed_competition = record competition { submissions = keyed_entrant ∷ [] }

abbrev keyed_won : Contract
keyed_won = after (designate_winner (call_by agent) job 0 (contract_with keyed_competition))

winner_by_key_unpaid_example :
    (e : Escrow) × (lookup job keyed_won.escrows ≡ some e)
    × ((paid : Contract) × (fees : List FtTransfer) × (settle_escrow job
            (put_escrow job (record e { settlement_target = some claim }) keyed_won)
          ≡ ok paid)
        × (paid.promises
            ≡ settle_batch (record { token = token; receiver = bob; amount = 100 - 5 } ∷ fees) job
              ∷ keyed_won.promises)
        × (paid.balances ≡ []))
unfolding designate_winner start_verification loser_refunds lookup insert ◌==◌ hex_encode
    transition_stats
winner_by_key_unpaid_example =
    winner_by_key_unpaid (call_by agent) job key 0 (contract_with keyed_competition) keyed_won
      keyed_entrant {e = keyed_competition} refl refl refl (omega arith) refl refl refl

abbrev given_up : Escrow
given_up = escrow_at cancelled (some full_refund) none

cleanup_then_callback_example :
    (lookup job (cleanup_completed 5 (contract_with given_up)).0.escrows ≡ none)
    × (settle_callback (callback (failed ∷ [])) job (cleanup_completed 5 (contract_with given_up)).0
        ≡ panic Panic.escrow_not_found)
unfolding lookup ◌==◌
cleanup_then_callback_example =
    cleanup_then_callback (callback (failed ∷ [])) 5 (contract_with given_up) job full_refund
      {e = given_up} (refl, tt) refl refl refl (omega arith) refl refl

abbrev late : Env
late = record (call_by bob) { block_timestamp_ms = 90000000 }

refund_expired-pays_example :
    (s' : Contract) × (refund_expired late job (contract_with (escrow_at verifying none none))
      ≡ ok s')
    × RefundsAll job
        (escrow_at verifying none none)
        (contract_with (escrow_at verifying none none))
        s'
unfolding lookup ◌==◌ ft_out
refund_expired-pays_example =
    refund_expired-pays late job (contract_with (escrow_at verifying none none))
      {e = escrow_at verifying none none} refl refl (omega arith) (omega arith) (omega arith)
