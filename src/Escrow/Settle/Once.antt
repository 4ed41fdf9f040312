-- ===== src/Escrow/Settle/Once.antt =====
-- The branch of `settle_callback` in which every transfer succeeded.
use near_escrow.Shared.Tests.{
  ◌+◌, ◌<◌, ◌≡◌, ◌≢◌, ◌∙◌, ◌⊎◌, inl, inr, refl, true, false, none, some, List, [], ◌∷◌, arith,
  u128_mod,
}
use near_escrow.Shared.Lists.{is_empty}
use near_escrow.Shared.Maps.{lookup, lookup-insert_self}
use near_escrow.Shared.Outcome.{ok, panic}
use near_escrow.Text.Bytes.{Text, ◌==◌, ==_refl}
use near_escrow.Escrow.Types.{
  claimed, refunded, SettlementTarget, claim, refund, full_refund, Escrow,
}
use near_escrow.Escrow.Host.{PromiseResult, successful, failed, Env, Panic}
use near_escrow.Escrow.State.{Contract}
use near_escrow.Escrow.Balances.{near_token_id}
use near_escrow.Escrow.Settle.{
  final_status, apply_pending_credits, all_ok, stake_back, settle_success, settle_callback,
}
use near_escrow.Escrow.Settle.Credit.{held, held-same, set_aside_in, apply_pending_credits-held}

-- Every promise succeeded.
abbrev pub AllSucceeded : List PromiseResult → Type 0
AllSucceeded [] = Unit
AllSucceeded (successful _ ∷ results) = AllSucceeded results
AllSucceeded (failed ∷ results) = ⊥

all_ok-true : (results : List PromiseResult) → AllSucceeded results → all_ok results ≡ true
unfolding all_ok
all_ok-true [] a = refl
all_ok-true (successful _ ∷ results) a = all_ok-true results a
all_ok-true (failed ∷ results) a = absurd a

final_status-cases :
    (target : SettlementTarget)
    → ((target ≡ claim) × (final_status target ≡ claimed))
      ⊎ ((target ≢ claim) × (final_status target ≡ refunded))
final_status-cases claim = inl (refl, refl)
final_status-cases refund = inr (λ e. ground (arith, e), refl)
final_status-cases full_refund = inr (λ e. ground (arith, e), refl)

stake_back-balances : (e : Escrow) (s : Contract) → (stake_back e s).balances ≡ s.balances
unfolding stake_back
stake_back-balances e s = ground arith

-- What a settled escrow looks like, and the balance of its worker's key in its token.
settle_success_settles :
    (target : SettlementTarget) (job_id : Text) (e : Escrow) (s : Contract)
    → (settled : Escrow) × (lookup job_id (settle_success target job_id e s).escrows ≡ some settled)
      × (settled.settlement_target ≡ none)
      × (settled.status ≡ final_status target)
      × ((settle_success target job_id e s).balances ≡ (apply_pending_credits e s).1.balances)
unfolding settle_success
settle_success_settles target job_id e s = (
  record ((apply_pending_credits e s).0) {
    status = final_status target;
    settlement_target = none;
    worker_stake = none;
  },
  lookup-insert_self job_id _ _,
  refl,
  refl,
  stake_back-balances e _,
)

-- After a callback that saw every transfer of an escrow's settlement succeed, the escrow, whose
-- token is not NEAR, is claimed where its target was to pay the worker and refunded otherwise, the
-- balance of its worker's key, if it has one, has grown by exactly what was set aside, as long as
-- it stays below 2 ^ 128, and a second callback directly after it, from the contract and with
-- results, panics on the missing target.
pub settle_callback_once :
    (env env' : Env) (job_id : Text) (s s' : Contract) (target : SettlementTarget) {e : Escrow}
    → lookup job_id s.escrows ≡ some e
    → e.settlement_target ≡ some target
    → e.token ≢ near_token_id
    → held e.worker_pubkey e.token s + set_aside_in e.worker_pubkey e.pending_payout < u128_mod
    → AllSucceeded env.promise_results
    → settle_callback env job_id s ≡ ok s'
    → env'.predecessor ≡ env'.current_account
    → is_empty env'.promise_results ≡ false
    → ((settled : Escrow) × (lookup job_id s'.escrows ≡ some settled)
        × (((target ≡ claim) × (settled.status ≡ claimed))
            ⊎ ((target ≢ claim) × (settled.status ≡ refunded))))
      × (held e.worker_pubkey e.token s'
          ≡ held e.worker_pubkey e.token s + set_aside_in e.worker_pubkey e.pending_payout)
      × (settle_callback env' job_id s' ≡ panic Panic.no_settlement_target)
unfolding settle_callback
settle_callback_once env env' job_id s s' target {e} found aim other fits paid h own results =
    let (settled, stored, cleared, final, credited) = settle_success_settles target job_id e s in
    let succeeded = all_ok-true env.promise_results paid in
    let same : s' ≡ settle_success target job_id e s = ground arith in
    let private : (env'.predecessor == env'.current_account) ≡ true =
      rw own (==_refl env'.current_account) in
    (
      (settled, rw same stored, rw final (final_status-cases target)),
      held-same e.worker_pubkey e.token (apply_pending_credits e s).1 s' (rw same credited)
          ∙ apply_pending_credits-held e s other fits,
      ground (arith, stored, same),
    )
