-- ===== src/Escrow/Verdict/Decision.antt =====
-- What a yield's outcome decides, and what becomes of a worker's stake without a verdict.
use near_escrow.Shared.Tests.{ℕ, ◌≡◌, refl, true, none, some, [], ◌∷◌, arith}
use near_escrow.Shared.Maps.{lookup, insert, lookup-insert_self}
use near_escrow.Shared.Outcome.{ok}
use near_escrow.Text.Bytes.{Text}
use near_escrow.Escrow.Types.{full_refund, Escrow}
use near_escrow.Escrow.Host.{PromiseResult, successful, failed, Env, settle_batch}
use near_escrow.Escrow.State.{Contract, put_escrow}
use near_escrow.Escrow.Settle.{ft_to, settle_escrow, settle_wallet}
use near_escrow.Escrow.Verdict.{
  release_stake, full_refund_without_verdict, decide, forget_data_id, settle_verdict,
}

-- Only without a verdict is a full refund the aim.
decide-without_verdict :
    (env : Env) (result : PromiseResult) (e : Escrow) (s : Contract)
    → (decide env result e s).0.settlement_target ≡ some full_refund
    → decide env result e s ≡ full_refund_without_verdict e s
unfolding decide
decide-without_verdict env (successful payload) e s aim = ground arith
decide-without_verdict env failed e s aim = refl

-- The escrow that goes into the settlement, and the one that comes out.
abbrev set_aside : ℕ → Escrow → Escrow
set_aside stake e = record e {
  yield_consumed = true;
  verdict = none;
  settlement_target = some full_refund;
  worker_stake = none;
  pending_stake_refund = some stake;
  data_id = none;
}

abbrev cleared : ℕ → Escrow → Escrow
cleared stake e = record (set_aside stake e) { pending_payout = none; pending_stake_refund = none }

settle_verdict-without_verdict :
    (env : Env) (job_id key : Text) (stake : ℕ) (result : PromiseResult) (e : Escrow)
    (s s' : Contract)
    → e.worker_pubkey ≡ some key
    → e.worker_stake ≡ some stake
    → decide env result (record e { yield_consumed = true }) s
      ≡ full_refund_without_verdict (record e { yield_consumed = true }) s
    → settle_verdict env job_id result e s ≡ ok s'
    → settle_escrow job_id (
        put_escrow job_id
          (set_aside stake e)
          (record s { data_id_index = forget_data_id e.data_id s.data_id_index }))
      ≡ ok s'
unfolding settle_verdict full_refund_without_verdict release_stake
settle_verdict-without_verdict env job_id key stake result e s s' has_key staked aim h =
    ground arith

-- When the callback of the yield finds no verdict for an escrow with a worker key and a stake,
-- and the settlement then goes through, the escrow has no stake left and none set aside, no
-- balance is credited, and the one promise added is the agent's refund of the amount.
pub timeout_loses_key_stake :
    (env : Env) (job_id key : Text) (stake : ℕ) (result : PromiseResult) (e : Escrow)
    (s s' : Contract)
    → e.worker_pubkey ≡ some key
    → e.worker_stake ≡ some stake
    → (decide env result (record e { yield_consumed = true }) s).0.settlement_target
      ≡ some full_refund
    → settle_verdict env job_id result e s ≡ ok s'
    → ((e' : Escrow) × (lookup job_id s'.escrows ≡ some e')
        × (e'.worker_stake ≡ none)
        × (e'.pending_stake_refund ≡ none))
      × (s'.balances ≡ s.balances)
      × (s'.promises ≡ settle_batch (ft_to e e.agent e.amount ∷ []) job_id ∷ s.promises)
unfolding settle_escrow settle_wallet
timeout_loses_key_stake env job_id key stake result e s s' has_key staked aim h =
    let settling =
      settle_verdict-without_verdict env job_id key stake result e s s' has_key staked
        (decide-without_verdict env result (record e { yield_consumed = true }) s aim) h in
    let before = lookup-insert_self job_id (set_aside stake e) s.escrows in
    let after =
      lookup-insert_self job_id (cleared stake e) (insert job_id (set_aside stake e) s.escrows) in
    (
      (cleared stake e, ground (arith, settling, before, after), refl, refl),
      ground (arith, settling, before),
      ground (arith, settling, before),
    )
