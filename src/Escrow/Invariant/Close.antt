-- ===== src/Escrow/Invariant/Close.antt =====
-- `settle_callback` and `retry_settlement` against the invariant.
use near_escrow.Shared.Tests.{
  ◌+◌, ◌%◌, u8_mod, ltb, ◌≡◌, refl, ap, ◌∙◌, if◌then◌else◌, ◌⊎◌, true, inl, inr, some, arith,
  Bool-cases, Option-cases,
}
use near_escrow.Shared.Maps.{lookup, insert}
use near_escrow.Shared.Outcome.{ok}
use near_escrow.Text.Bytes.{Text}
use near_escrow.Escrow.Types.{settlement_failed, cancelled, SettlementTarget, Escrow}
use near_escrow.Escrow.Host.{Env}
use near_escrow.Escrow.State.{Contract, put_escrow}
use near_escrow.Escrow.Settle.{
  apply_pending_credits, settle_escrow, all_ok, stake_back, settle_success, settle_failure,
  settle_callback, is_retryable, give_up, retry_settlement,
}
use near_escrow.Escrow.Invariant.{IsSound, Advances, Keeps, Inv}
use near_escrow.Escrow.Invariant.Change.{may_become_refl, Keeps-put, Inv-lookup}
use near_escrow.Escrow.Invariant.Pay.{settled, settled-Advances, settle_put-Keeps}

pub settle_callback_returns :
    (env : Env) (job_id : Text) (s : Contract) {s' : Contract}
    → settle_callback env job_id s ≡ ok s'
    → (e : Escrow) × (target : SettlementTarget) × (lookup job_id s.escrows ≡ some e)
      × (e.settlement_target ≡ some target)
      × (s' ≡ (
          if all_ok env.promise_results
          then settle_success target job_id e s
          else settle_failure job_id e s))
unfolding settle_callback
settle_callback_returns env job_id s h = ground arith

stake_back-escrows : (e : Escrow) (s : Contract) → (stake_back e s).escrows ≡ s.escrows
unfolding stake_back
stake_back-escrows e s = ground arith

apply_pending_credits-escrows :
    (e : Escrow) (s : Contract) → (apply_pending_credits e s).1.escrows ≡ s.escrows
unfolding apply_pending_credits
apply_pending_credits-escrows e s = ground arith

settle_success-escrows :
    (target : SettlementTarget) (job_id : Text) (e : Escrow) (s : Contract)
    → (settle_success target job_id e s).escrows
      ≡ insert job_id (settled target (apply_pending_credits e s).0) s.escrows
unfolding settle_success
settle_success-escrows target job_id e s =
    ap (insert job_id (settled target (apply_pending_credits e s).0))
      (stake_back-escrows e _ ∙ apply_pending_credits-escrows e s)

settle_failure-escrows :
    (job_id : Text) (e : Escrow) (s : Contract)
    → (settle_failure job_id e s).escrows
      ≡ insert job_id (record e { status = settlement_failed }) s.escrows
unfolding settle_failure
settle_failure-escrows job_id e s = refl

pub settle_callback-Keeps :
    (env : Env) (job_id : Text) (s : Contract) {s' : Contract}
    → Inv s
    → settle_callback env job_id s ≡ ok s'
    → Keeps s s'
settle_callback-Keeps env job_id s {s'} inv h =
    let (e, target, found, aim, result) = settle_callback_returns env job_id s h in
    let sound = Inv-lookup s job_id inv found in
    elim (Bool-cases (all_ok env.promise_results)) [
      | inl paid ↦
          Keeps-put s job_id (settled target (apply_pending_credits e s).0) inv s' found
            (settled-Advances target s sound aim)
            (ap (λ x. x.escrows) (rw paid at result) ∙ settle_success-escrows target job_id e s)
      | inr unpaid ↦
          Keeps-put s job_id (record e { status = settlement_failed }) inv s' found
            (ground (arith, sound))
            (ap (λ x. x.escrows) (rw unpaid at result) ∙ settle_failure-escrows job_id e s)
    ]

-- The retry, before it settles.
abbrev counted : Escrow → Escrow
counted e = record e { retry_count = (e.retry_count + 1) % u8_mod }

counted-Advances : {e : Escrow} → IsSound e → Advances e (counted e)
counted-Advances {e} sound = record {
  sound = ground (arith, sound);
  same_terms = refl;
  forward = may_become_refl e.status;
}

give_up-escrows :
    (job_id : Text) (e : Escrow) (s : Contract)
    → (give_up job_id e s).escrows ≡ insert job_id (record e { status = cancelled }) s.escrows
unfolding give_up
give_up-escrows job_id e s = refl

given_up-Advances :
    {e : Escrow}
    → IsSound e
    → is_retryable e ≡ true
    → Advances e (record (counted e) { status = cancelled })
given_up-Advances {e} sound retryable = ground (arith, sound)

retry_settlement_returns :
    (env : Env) (job_id : Text) (s : Contract) {s' : Contract}
    → retry_settlement env job_id s ≡ ok s'
    → (e : Escrow) × (lookup job_id s.escrows ≡ some e)
      × (is_retryable e ≡ true)
      × ((s' ≡ give_up job_id (counted e) s)
          ⊎ (settle_escrow job_id (put_escrow job_id (counted e) s) ≡ ok s'))
unfolding retry_settlement
retry_settlement_returns env job_id s h = elim (Option-cases (lookup job_id s.escrows)) [
  | inl missing ↦ ground arith
  | inr (e, found) ↦ elim (Bool-cases (ltb 5 (counted e).retry_count)) [
    | inl over ↦ (e, found, ground arith, inl (ground arith))
    | inr within ↦ (e, found, ground arith, inr (ground arith))
  ]
]

pub retry_settlement-Keeps :
    (env : Env) (job_id : Text) (s : Contract) {s' : Contract}
    → Inv s
    → retry_settlement env job_id s ≡ ok s'
    → Keeps s s'
retry_settlement-Keeps env job_id s {s'} inv h =
    let (e, found, retryable, result) = retry_settlement_returns env job_id s h in
    let sound = Inv-lookup s job_id inv found in
    elim result [
      | inl gone ↦
          Keeps-put s job_id _ inv s' found (given_up-Advances sound retryable)
            (ap (λ x. x.escrows) gone ∙ give_up-escrows job_id (counted e) s)
      | inr settling ↦
          settle_put-Keeps job_id s (put_escrow job_id (counted e) s) (counted e) inv found
            (counted-Advances sound) refl settling
    ]
