-- ===== src/Escrow/Calls/Journey/Pays.antt =====
-- The two callbacks that turn a verdict into the worker's pay or the agent's refund.
use near_escrow.Shared.Tests.{
  Bool, false, leb, ◌%◌, ◌&&◌, unwrap_or, ℕ, ◌-◌, ◌<◌, ◌≡◌, refl, true, false, none, some, List, [],
  ◌∷◌, arith, ltb, if◌then◌else◌,
}
use near_escrow.Shared.Lists.{is_empty}
use near_escrow.Shared.Maps.{lookup, lookup-insert_self}
use near_escrow.Shared.Outcome.{ok}
use near_escrow.Text.Bytes.{Text, ◌==◌}
use near_escrow.Escrow.Types.{verifying, SettlementTarget, Escrow}
use near_escrow.Escrow.Host.{
  Env, Promise, PromiseResult, FtTransfer, Payload, successful, transfer, settle_batch,
}
use near_escrow.Escrow.State.{Contract, put_escrow}
use near_escrow.Escrow.Settle.{
  settle_escrow, settle_legacy, ft_to, fee_transfers, start_batch, apply_pending_credits, all_ok,
  stake_back, settle_success, settle_callback, final_status,
}
use near_escrow.Escrow.Verdict.{
  target_of, verdict_of, decide, forget_data_id, settle_verdict, verification_callback,
}
use near_escrow.Escrow.Calls.Journey.{At}

-- Who is paid: the worker on a pass, the agent otherwise.
abbrev pub receiver : Bool → Text → Text → Text
receiver true worker agent = worker
receiver false worker agent = agent

settle_escrow-pays :
    (passed : Bool) (job worker : Text) (s : Contract) (e : Escrow)
    → lookup job s.escrows ≡ some e
    → e.settlement_target ≡ some (target_of passed)
    → e.worker_pubkey ≡ none
    → e.worker ≡ some worker
    → e.verifier_fee < e.amount
    → settle_escrow job s
      ≡ ok (
          start_batch
            (ft_to e (receiver passed worker e.agent) (e.amount - e.verifier_fee)
              ∷ fee_transfers s e)
            job
            s)
unfolding settle_escrow settle_legacy
settle_escrow-pays true job worker s e found aimed account by fee = ground arith
settle_escrow-pays false job worker s e found aimed account by fee = ground arith

-- The payload can be read, and passes or not: it passes when it says so and its score, 0 where it
-- has none, cut to a byte, reaches the threshold.
pub record Judges (env : Env) (payload : Text) (threshold : ℕ) (passed : Bool) : Type 0 where
  pub fields : Payload
  pub read : env.parse_payload payload ≡ some fields
  pub outcome :
      unwrap_or fields.passed false && leb threshold (unwrap_or fields.score 0 % 256) ≡ passed

abbrev pub judged : Bool → Payload → Escrow → Escrow
judged passed p e = record e {
  yield_consumed = true;
  verdict = some (verdict_of e p);
  settlement_target = some (target_of passed);
  data_id = none;
}

decide-Judges :
    (env : Env) (payload : Text) (passed : Bool) (e : Escrow) (s : Contract)
    (j : Judges env payload e.score_threshold passed)
    → decide env (successful payload) e s ≡ (
      record e {
        verdict = some (verdict_of e j.fields);
        settlement_target = some (target_of passed);
      },
      s,
    )
unfolding decide verdict_of
decide-Judges env payload passed e s j = ground (arith, j)

module _ (job owner : Text) (deposit : ℕ) where
  -- The transfers of a settlement in favour of an account.
  abbrev pub pays : Text → Escrow → List FtTransfer
  pays to e =
      ft_to e to (e.amount - e.verifier_fee)
      ∷ (if ltb 0 e.verifier_fee then ft_to e owner e.verifier_fee ∷ [] else [])

  abbrev stored : Bool → Payload → Escrow → Contract → Contract
  stored passed p e s =
      put_escrow job (judged passed p e)
        (record s { data_id_index = forget_data_id e.data_id s.data_id_index })

  abbrev settling : Bool → Payload → Text → Escrow → Contract → Contract
  settling passed p worker e s =
      start_batch
        (ft_to e (receiver passed worker e.agent) (e.amount - e.verifier_fee) ∷ fee_transfers s e)
        job (stored passed p e s)

  settle_verdict-pays :
      (env : Env) (payload worker : Text) (passed : Bool) (s : Contract) (e : Escrow)
      (j : Judges env payload e.score_threshold passed)
      → e.worker_pubkey ≡ none
      → e.worker ≡ some worker
      → e.verifier_fee < e.amount
      → settle_verdict env job (successful payload) e s ≡ ok (settling passed j.fields worker e s)
  unfolding settle_verdict verdict_of
  settle_verdict-pays env payload worker passed s e j account by fee =
      let held = lookup-insert_self job (judged passed j.fields e) s.escrows in
      rw (decide-Judges env payload passed (record e { yield_consumed = true }) s j, settle_verdict)
        (settle_escrow-pays passed job worker (stored passed j.fields e s)
          (judged passed j.fields e) held refl account by fee)

  pub verification_callback-At :
      (env : Env) (payload worker : Text) (passed : Bool) (rest : List PromiseResult) (s : Contract)
      (e : Escrow) (sent : List Promise) (j : Judges env payload e.score_threshold passed)
      → At job s e owner deposit sent
      → e.status ≡ verifying
      → e.worker_pubkey ≡ none
      → e.worker ≡ some worker
      → e.verifier_fee < e.amount
      → (env.predecessor == env.current_account) ≡ true
      → env.promise_results ≡ successful payload ∷ rest
      → (s' : Contract) × (verification_callback env job s ≡ ok s')
        × At job s'
            (judged passed j.fields e)
            owner
            deposit
            (settle_batch (pays (receiver passed worker e.agent) e) job ∷ sent)
  unfolding verification_callback
  verification_callback-At env payload worker passed rest s e sent j at waiting account by fee own
        results =
      let paying = settle_verdict-pays env payload worker passed s e j account by fee in
      (
        settling passed j.fields worker e s,
        ground (arith, at, paying),
        record {
          held = lookup-insert_self job (judged passed j.fields e) s.escrows;
          owned = at.owned;
          priced = at.priced;
          promised = rw (at.promised, at.owned) refl;
        },
      )

  abbrev pub closed : SettlementTarget → Escrow → Escrow
  closed target e = record e {
    status = final_status target;
    settlement_target = none;
    worker_stake = none;
  }

  -- What the callback of the transfers schedules: the deposit and the worker's stake.
  pub settle_callback-At :
      (env : Env) (worker : Text) (target : SettlementTarget) (stake : ℕ) (s : Contract)
      (e : Escrow) (sent : List Promise)
      → At job s e owner deposit sent
      → e.settlement_target ≡ some target
      → e.worker_pubkey ≡ none
      → e.worker ≡ some worker
      → e.worker_stake ≡ some stake
      → (env.predecessor == env.current_account) ≡ true
      → is_empty env.promise_results ≡ false
      → all_ok env.promise_results ≡ true
      → (s' : Contract) × (settle_callback env job s ≡ ok s')
        × At job s'
            (closed target e)
            owner
            deposit
            (transfer worker stake ∷ transfer e.agent deposit ∷ sent)
  unfolding settle_callback settle_success apply_pending_credits stake_back
  settle_callback-At env worker target stake s e sent at aimed account by staked own some_result
        went =
      let held = lookup-insert_self job (closed target e) s.escrows in
      (settle_success target job e s, ground (arith, at), ground (arith, at, held))
