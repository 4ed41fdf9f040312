-- ===== src/Escrow/Settle/Again.antt =====
-- The branch of `settle_callback` in which a transfer failed, and the owner's retry behind it.
use near_escrow.Shared.Tests.{
  ◌+◌, ◌-◌, ◌%◌, ◌<◌, ◌≡◌, ◌≢◌, ◌∙◌, ◌⊎◌, ap, inl, inr, refl, true, false, some, List, [], ◌∷◌,
  arith, u8_mod, u128_mod, is_some, Bool-cases,
}
use near_escrow.Shared.Maps.{lookup, lookup-insert_self}
use near_escrow.Shared.Outcome.{ok, Outcome-cases}
use near_escrow.Text.Bytes.{Text, ==_refl}
use near_escrow.Escrow.Types.{
  settlement_failed, SettlementTarget, claim, refund, full_refund, Escrow,
}
use near_escrow.Escrow.Host.{PromiseResult, successful, failed, Env}
use near_escrow.Escrow.State.{Contract, put_escrow}
use near_escrow.Escrow.Balances.{near_token_id}
use near_escrow.Escrow.Settle.{
  all_ok, settle_failure, settle_callback_internal, settle_callback, settle_wallet, settle_legacy,
  settle_escrow, retry_settlement,
}
use near_escrow.Escrow.Settle.Credit.{held, held-same}
use near_escrow.Escrow.Settle.Money.{ft_out, inside, settle_escrow_conserves}

-- Some promise failed.
abbrev pub SomeFailed : List PromiseResult → Type 0
SomeFailed [] = ⊥
SomeFailed (successful _ ∷ results) = SomeFailed results
SomeFailed (failed ∷ results) = Unit

all_ok-false : (results : List PromiseResult) → SomeFailed results → all_ok results ≡ false
unfolding all_ok
all_ok-false [] a = absurd a
all_ok-false (successful _ ∷ results) a = all_ok-false results a
all_ok-false (failed ∷ results) a = refl

settle_wallet-ok :
    (job_id : Text) (s : Contract) (target : SettlementTarget) (e : Escrow)
    → e.settlement_target ≡ some target
    → e.verifier_fee < e.amount
    → (s' : Contract) × (settle_wallet target job_id e s ≡ ok s')
unfolding settle_wallet settle_callback_internal
settle_wallet-ok job_id s claim e aim fee =
    let pending : Escrow = record e {
      pending_payout = some (e.amount - e.verifier_fee);
      pending_stake_refund = e.worker_stake;
    } in
    let stored = lookup-insert_self job_id pending s.escrows in
    elim (Outcome-cases (settle_wallet claim job_id e s)) [
      | inl done ↦ done
      | inr (p, stops) ↦ absurd (ground (arith, stops, stored))
    ]
settle_wallet-ok job_id s refund e aim fee =
    elim (Outcome-cases (settle_wallet refund job_id e s)) [
      | inl done ↦ done
      | inr (p, stops) ↦ absurd (ground (arith, stops))
    ]
settle_wallet-ok job_id s full_refund e aim fee =
    elim (Outcome-cases (settle_wallet full_refund job_id e s)) [
      | inl done ↦ done
      | inr (p, stops) ↦ absurd (ground (arith, stops))
    ]

settle_legacy-ok :
    (job_id : Text) (s : Contract) (target : SettlementTarget) (e : Escrow)
    → e.verifier_fee < e.amount
    → is_some e.worker ≡ true
    → (s' : Contract) × (settle_legacy target job_id e s ≡ ok s')
unfolding settle_legacy
settle_legacy-ok job_id s claim e fee worked =
    elim (Outcome-cases (settle_legacy claim job_id e s)) [
      | inl done ↦ done
      | inr (p, stops) ↦ absurd (ground (arith, stops))
    ]
settle_legacy-ok job_id s refund e fee worked =
    elim (Outcome-cases (settle_legacy refund job_id e s)) [
      | inl done ↦ done
      | inr (p, stops) ↦ absurd (ground (arith, stops))
    ]
settle_legacy-ok job_id s full_refund e fee worked =
    elim (Outcome-cases (settle_legacy full_refund job_id e s)) [
      | inl done ↦ done
      | inr (p, stops) ↦ absurd (ground (arith, stops))
    ]

-- The settlement of an escrow with a target and a worker goes through.
pub settle_escrow-ok :
    (job_id : Text) (s : Contract) (target : SettlementTarget) {e : Escrow}
    → lookup job_id s.escrows ≡ some e
    → e.settlement_target ≡ some target
    → e.verifier_fee < e.amount
    → (is_some e.worker ≡ true) ⊎ (is_some e.worker_pubkey ≡ true)
    → (s' : Contract) × (settle_escrow job_id s ≡ ok s')
unfolding settle_escrow
settle_escrow-ok job_id s target {e} found aim fee worked =
    elim (Bool-cases (is_some e.worker_pubkey)) [
      | inl keyed ↦
          let (s', h) = settle_wallet-ok job_id s target e aim fee in (s', ground (arith, h))
      | inr bare ↦
          let (s', h) = settle_legacy-ok job_id s target e fee (ground arith) in
          (s', ground (arith, h))
    ]

-- A callback that saw a transfer fail sends no token and leaves the balances. If the escrow has a
-- worker's account or key, a fee below its amount and a token other than NEAR, and was retried
-- fewer than five times, the owner's retry on the state that is left goes through, and what that
-- sends, credits and sets aside for the worker's key makes up the escrow's whole amount again, as
-- long as the balance stays below 2 ^ 128.
pub failed_callback_retries :
    (env env' : Env) (job_id : Text) (s s' : Contract) (target : SettlementTarget) {e : Escrow}
    → lookup job_id s.escrows ≡ some e
    → e.settlement_target ≡ some target
    → e.verifier_fee < e.amount
    → e.token ≢ near_token_id
    → (is_some e.worker ≡ true) ⊎ (is_some e.worker_pubkey ≡ true)
    → held e.worker_pubkey e.token s + e.amount < u128_mod
    → SomeFailed env.promise_results
    → settle_callback env job_id s ≡ ok s'
    → e.retry_count < 5
    → env'.predecessor ≡ s.owner
    → (ft_out s'.promises ≡ ft_out s.promises)
      × (s'.balances ≡ s.balances)
      × ((again : Contract) × (retry_settlement env' job_id s' ≡ ok again)
          × (ft_out again.promises + inside job_id e.worker_pubkey e.token again
              ≡ ft_out s.promises + held e.worker_pubkey e.token s + e.amount))
unfolding settle_callback settle_failure retry_settlement
failed_callback_retries env env' job_id s s' target {e} found aim fee other worked fits unpaid h few
      owned =
    let refused = all_ok-false env.promise_results unpaid in
    let marked : Escrow = record e { status = settlement_failed } in
    let same : s' ≡ settle_failure job_id e s = ground arith in
    let kept = lookup-insert_self job_id marked s.escrows in
    let retried : Escrow = record marked { retry_count = (e.retry_count + 1) % u8_mod } in
    let before = put_escrow job_id retried (settle_failure job_id e s) in
    let stored = lookup-insert_self job_id retried (settle_failure job_id e s).escrows in
    let (again, settled) =
      settle_escrow-ok job_id before target {e = retried} stored aim fee worked in
    let by_owner = ==_refl s.owner in
    let same_held = held-same e.worker_pubkey e.token s before refl in
    let conserved =
      settle_escrow_conserves job_id before again target {e = retried} stored aim fee other
        (rw same_held fits) settled in
    (
      rw same refl,
      rw same refl,
      (
        again,
        rw same (ground (arith, kept, settled, by_owner)),
        conserved ∙ ap (λ n. ft_out s.promises + n + e.amount) same_held,
      ),
    )
