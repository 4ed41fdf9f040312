-- ===== src/Escrow/Invariant/Judge.antt =====
-- The verdict, `verification_callback`, against the invariant.
use near_escrow.Shared.Tests.{
  ◌≡◌, refl, ap, ◌⊎◌, inl, inr, true, none, some, List, [], ◌∷◌, arith, Bool-cases, Option-cases,
}
use near_escrow.Shared.Maps.{lookup, insert}
use near_escrow.Shared.Outcome.{ok, panic}
use near_escrow.Text.Bytes.{Text}
use near_escrow.Escrow.Types.{verifying, same_status, Escrow}
use near_escrow.Escrow.Host.{Env, PromiseResult, successful, failed, Panic}
use near_escrow.Escrow.State.{Contract}
use near_escrow.Escrow.Verdict.{
  verdict_of, release_stake, full_refund_without_verdict, decide, settle_verdict, first_result,
  verification_callback,
}
use near_escrow.Escrow.Invariant.{IsSound, Advances, Keeps, Inv}
use near_escrow.Escrow.Invariant.Change.{Keeps-same, Inv-lookup}
use near_escrow.Escrow.Invariant.Pay.{settle_put-Keeps}

-- The escrow as the callback stores it before it settles.
abbrev judged : Env → PromiseResult → Escrow → Contract → Escrow
judged env result e s = record ((decide env result (record e { yield_consumed = true }) s).0) {
  data_id = none;
}

release_stake-escrows : (e : Escrow) (s : Contract) → (release_stake e s).1.escrows ≡ s.escrows
unfolding release_stake
release_stake-escrows e s = ground arith

decide-escrows :
    (env : Env) (result : PromiseResult) (e : Escrow) (s : Contract)
    → (decide env result e s).1.escrows ≡ s.escrows
unfolding decide full_refund_without_verdict
decide-escrows env (successful payload) e s = ground (arith, release_stake-escrows e s)
decide-escrows env failed e s = release_stake-escrows e s

judged-Advances :
    (env : Env) (result : PromiseResult) (e : Escrow) (s : Contract)
    → IsSound e
    → e.status ≡ verifying
    → Advances e (judged env result e s)
unfolding decide full_refund_without_verdict release_stake verdict_of
judged-Advances env (successful payload) e s sound waiting = ground (arith, sound)
judged-Advances env failed e s sound waiting = ground (arith, sound)

first_result-cases :
    (results : List PromiseResult)
    → (first_result results ≡ panic Panic.callback_only)
      ⊎ ((r : PromiseResult) × (first_result results ≡ ok r))
first_result-cases [] = inl refl
first_result-cases (r ∷ _) = inr (r, refl)

pub verification_callback_returns :
    (env : Env) (job_id : Text) (s : Contract) {s' : Contract}
    → verification_callback env job_id s ≡ ok s'
    → (s' ≡ s)
      ⊎ ((e : Escrow) × (result : PromiseResult) × (lookup job_id s.escrows ≡ some e)
          × (e.status ≡ verifying)
          × (settle_verdict env job_id result e s ≡ ok s'))
unfolding verification_callback
verification_callback_returns env job_id s h = elim (Option-cases (lookup job_id s.escrows)) [
  | inl missing ↦ inl (ground arith)
  | inr (e, found) ↦ elim (Bool-cases (same_status e.status verifying)) [
    | inl waiting ↦ elim (first_result-cases env.promise_results) [
      | inl none_given ↦ inl (ground arith)
      | inr (result, given) ↦ inr (e, result, found, ground arith, ground arith)
    ]
    | inr stale ↦ inl (ground arith)
  ]
]

pub verification_callback-Keeps :
    (env : Env) (job_id : Text) (s : Contract) {s' : Contract}
    → Inv s
    → verification_callback env job_id s ≡ ok s'
    → Keeps s s'
unfolding settle_verdict
verification_callback-Keeps env job_id s {s'} inv h =
    elim (verification_callback_returns env job_id s h) [
      | inl same ↦ Keeps-same s s' inv (ap (λ x. x.escrows) same)
      | inr (e, result, found, waiting, settling) ↦
          settle_put-Keeps job_id s _ (judged env result e s) inv found
            (judged-Advances env result e s (Inv-lookup s job_id inv found) waiting)
            (ap (insert job_id _) (decide-escrows env result _ s)) settling
    ]
