-- ===== src/Tests/Runs.antt =====
-- Settlements, verdicts, cancellations, retries and resumptions at concrete inputs.
use near_escrow.Shared.Tests.{inl, ◌⊎◌, ◌≢◌, ◌+◌, ◌≡◌, refl, none, some, [], ◌∷◌, arith}
use near_escrow.Shared.Maps.{lookup, insert, remove}
use near_escrow.Shared.Outcome.{ok, panic, ◌>>=◌}
use near_escrow.Text.Bytes.{◌==◌}
use near_escrow.Text.Hex.{hex_encode}
use near_escrow.Escrow.Types.{
  opened, verifying, claimed, refunded, settlement_failed, claim, refund, Escrow,
}
use near_escrow.Escrow.Host.{successful, failed, settle_batch, transfer, Env, Tx, Panic}
use near_escrow.Escrow.Stats.{transition_stats}
use near_escrow.Escrow.State.{Contract}
use near_escrow.Tests.Fixtures.{
  agent, bob, owner, token, job, key, call_by, callback, escrow_at, contract_with,
}
use near_escrow.Escrow.Settle.{
  settle_escrow, settle_wallet, apply_pending_credits, all_ok, stake_back, settle_success,
  settle_failure, settle_callback, ft_to, retry_settlement,
}
use near_escrow.Escrow.Balances.{credit_balance, balance_key}
use near_escrow.Escrow.Balances.Accounts.{holding}
use near_escrow.Text.Decimal.{join}
use near_escrow.Escrow.Settle.Credit.{held}
use near_escrow.Escrow.Settle.Money.{ft_out, inside, settle_escrow_conserves}
use near_escrow.Escrow.Settle.Once.{settle_callback_once}
use near_escrow.Escrow.Settle.Again.{failed_callback_retries}
use near_escrow.Escrow.Settle.Retries.{retries_pay_deposit_again}
use near_escrow.Escrow.Verdict.{
  decide, release_stake, full_refund_without_verdict, forget_data_id, settle_verdict,
}
use near_escrow.Escrow.Verdict.Decision.{timeout_loses_key_stake}
use near_escrow.Escrow.Cancel.{cancel}
use near_escrow.Escrow.Cancel.Repeat.{cancel_twice}

abbrev after : Tx Contract → Contract
after (ok s) = s
after (panic _) = contract_with (escrow_at claimed none none)

abbrev paying : Escrow
paying = escrow_at verifying (some claim) none

abbrev paying_key : Escrow
paying_key = escrow_at verifying (some claim) (some key)

abbrev batch_sent : Contract
batch_sent = after (settle_escrow job (contract_with paying_key))

settle_escrow_conserves_example :
    ft_out batch_sent.promises + inside job (some key) token batch_sent ≡ 0 + 0 + 100
unfolding settle_escrow settle_wallet lookup insert ◌==◌ ft_out holding
settle_escrow_conserves_example =
    settle_escrow_conserves job (contract_with paying_key) batch_sent claim {e = paying_key} refl
      refl (omega arith) (λ e. ground (arith, e)) (omega arith) refl

abbrev all_paid : Env
all_paid = callback (successful [] ∷ [])

-- The payout of an escrow with a worker key waits for the callback.
abbrev waiting : Escrow
waiting = record paying_key { pending_payout = some 95 }

abbrev settled : Contract
settled = after (settle_callback all_paid job (contract_with waiting))

settle_callback_once_example :
    ((e : Escrow) × (lookup job settled.escrows ≡ some e)
      × (((claim ≡ claim) × (e.status ≡ claimed)) ⊎ ((claim ≢ claim) × (e.status ≡ refunded))))
    × (held (some key) token settled ≡ 0 + 95)
    × (settle_callback all_paid job settled ≡ panic Panic.no_settlement_target)
unfolding settle_callback all_ok lookup insert ◌==◌ settle_success apply_pending_credits stake_back
    transition_stats credit_balance balance_key join holding
settle_callback_once_example =
    settle_callback_once all_paid all_paid job (contract_with waiting) settled claim {e = waiting}
      refl refl (λ e. ground (arith, e)) (omega arith) tt refl refl refl

abbrev unpaid : Env
unpaid = callback (failed ∷ [])

abbrev untried : Escrow
untried = record paying { retry_count = 0 }

abbrev marked : Contract
marked = after (settle_callback unpaid job (contract_with untried))

failed_callback_retries_example :
    (ft_out marked.promises ≡ 0)
    × (marked.balances ≡ [])
    × ((again : Contract) × (retry_settlement (call_by owner) job marked ≡ ok again)
        × (ft_out again.promises + inside job none token again ≡ 0 + 0 + 100))
unfolding settle_callback all_ok lookup insert ◌==◌ settle_failure transition_stats ft_out
failed_callback_retries_example =
    failed_callback_retries unpaid (call_by owner) job (contract_with untried) marked claim
      {e = untried} refl refl (omega arith) (λ e. ground (arith, e)) (inl refl) (omega arith) tt
      refl (omega arith) refl

abbrev judging : Escrow
judging = escrow_at verifying none (some key)

abbrev timed_out : Contract
timed_out = after (settle_verdict unpaid job failed judging (contract_with judging))

timeout_loses_key_stake_example :
    ((e : Escrow) × (lookup job timed_out.escrows ≡ some e)
      × (e.worker_stake ≡ none)
      × (e.pending_stake_refund ≡ none))
    × (timed_out.balances ≡ [])
    × (timed_out.promises ≡ settle_batch (ft_to judging agent 100 ∷ []) job ∷ [])
unfolding decide release_stake full_refund_without_verdict settle_verdict forget_data_id hex_encode
    remove settle_escrow settle_wallet lookup insert ◌==◌
timeout_loses_key_stake_example =
    timeout_loses_key_stake unpaid job key 3 failed judging (contract_with judging) timed_out refl
      refl refl refl

cancel_twice_example :
    (s' : Contract) × ((cancel (call_by agent) job (contract_with (escrow_at opened none none))
        >>= cancel (call_by agent) job)
      ≡ ok s')
    × (ft_out s'.promises ≡ 100 + 100 + 0)
unfolding lookup ◌==◌ ft_out
cancel_twice_example =
    cancel_twice (call_by agent) job (contract_with (escrow_at opened none none))
      {e = escrow_at opened none none} refl refl refl (omega arith)

abbrev stuck : Escrow
stuck = escrow_at settlement_failed (some refund) none

retries_pay_deposit_again_example :
    (s' : Contract) × ((retry_settlement (call_by bob) job (contract_with stuck)
        >>= retry_settlement (call_by token) job)
      ≡ ok s')
    × (s'.promises ≡ transfer agent 1 ∷ transfer agent 1 ∷ [])
unfolding lookup ◌==◌
retries_pay_deposit_again_example =
    retries_pay_deposit_again (call_by bob) (call_by token) job (contract_with stuck) stuck refund
      refl refl refl (omega arith) (omega arith)
