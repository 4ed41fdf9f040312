-- ===== src/Escrow/Calls/Safety.antt =====
-- The reachable states, and every call on them.
use near_escrow.Shared.Tests.{
  ℕ, ◌≡◌, sym, true, Option, none, some, List, [], ◌⊎◌, arith, Option-cases, inl, inr,
}
use mathlib.Core.Path.{subst}
use near_escrow.Shared.Maps.{lookup}
use near_escrow.Shared.Maps.Distinct.{Distinct}
use near_escrow.Shared.Outcome.{ok, ok_injective}
use near_escrow.Text.Bytes.{Text}
use near_escrow.Escrow.Types.{claimed, refunded, cancelled, claim, VerifierInfo, Escrow}
use near_escrow.Escrow.Host.{Env}
use near_escrow.Escrow.State.{Contract}
use near_escrow.Escrow.Admin.{new}
use near_escrow.Escrow.Invariant.{Passed, terms_of, may_become, Entry, Moves, Holds, Inv}
use near_escrow.Escrow.Invariant.Change.{Moves-Keeps, Keeps-same, Inv-Moves, Inv-lookup}
use near_escrow.Escrow.Invariant.Start.{
  create_escrow-Moves, ft_on_transfer-Keeps, claim-Keeps, claim_for-Keeps,
}
use near_escrow.Escrow.Invariant.Close.{settle_callback-Keeps, retry_settlement-Keeps}
use near_escrow.Escrow.Invariant.Work.{submit_result-Keeps}
use near_escrow.Escrow.Invariant.Relay.{submit_result_for-Keeps, designate_winner-Keeps}
use near_escrow.Escrow.Invariant.Judge.{verification_callback-Keeps}
use near_escrow.Escrow.Invariant.Stop.{cancel-Keeps, force_cancel_verifying-Keeps}
use near_escrow.Escrow.Invariant.Expire.{refund_expired-Keeps}
use near_escrow.Escrow.Invariant.Cleanup.{cleanup_completed-Moves}
use near_escrow.Escrow.Calls.{
  EscrowCall, create_escrow, ft_on_transfer, claim_for, submit_result, submit_result_for,
  designate_winner, verification_callback, settle_callback, retry_settlement, cancel,
  force_cancel_verifying, refund_expired, cleanup_completed, Call, side, escrow, run_escrow,
  run_call, Reachable, initial, call,
}
use near_escrow.Escrow.Calls.Sides.{run_side-escrows}

run_escrow-Moves :
    (env : Env) (c : EscrowCall) (s : Contract) {s' : Contract}
    → Inv s
    → run_escrow env c s ≡ ok s'
    → Moves s s'
unfolding run_escrow
run_escrow-Moves env (create_escrow a) s inv h = create_escrow-Moves env a s inv h
run_escrow-Moves env (ft_on_transfer a n m) s inv h =
    subst (Moves s) (ok_injective h) (Moves-Keeps s _ (ft_on_transfer-Keeps env a n m s inv))
run_escrow-Moves env (EscrowCall.claim j) s {s'} inv h =
    Moves-Keeps s s' (claim-Keeps env j s inv h)
run_escrow-Moves env (claim_for j w sig) s {s'} inv h =
    Moves-Keeps s s' (claim_for-Keeps env j w sig s inv h)
run_escrow-Moves env (submit_result j r) s {s'} inv h =
    Moves-Keeps s s' (submit_result-Keeps env j r s inv h)
run_escrow-Moves env (submit_result_for j r w sig) s {s'} inv h =
    Moves-Keeps s s' (submit_result_for-Keeps env j r w sig s inv h)
run_escrow-Moves env (designate_winner j i) s {s'} inv h =
    Moves-Keeps s s' (designate_winner-Keeps env j i s inv h)
run_escrow-Moves env (verification_callback j) s {s'} inv h =
    Moves-Keeps s s' (verification_callback-Keeps env j s inv h)
run_escrow-Moves env (settle_callback j) s {s'} inv h =
    Moves-Keeps s s' (settle_callback-Keeps env j s inv h)
run_escrow-Moves env (retry_settlement j) s {s'} inv h =
    Moves-Keeps s s' (retry_settlement-Keeps env j s inv h)
run_escrow-Moves env (cancel j) s {s'} inv h = Moves-Keeps s s' (cancel-Keeps env j s inv h)
run_escrow-Moves env (force_cancel_verifying j) s {s'} inv h =
    Moves-Keeps s s' (force_cancel_verifying-Keeps env j s inv h)
run_escrow-Moves env (refund_expired j) s {s'} inv h =
    Moves-Keeps s s' (refund_expired-Keeps env j s inv h)
run_escrow-Moves env (cleanup_completed n) s inv h =
    subst (Moves s) (ok_injective h) (cleanup_completed-Moves n s inv).0

-- Any call that goes through in a state that satisfies the invariant moves every escrow lawfully.
run_call-Moves :
    (env : Env) (c : Call) (s : Contract) {s' : Contract}
    → Inv s
    → run_call env c s ≡ ok s'
    → Moves s s'
unfolding run_call
run_call-Moves env (side c) s {s'} inv h =
    Moves-Keeps s s' (Keeps-same s s' inv (run_side-escrows env c s h))
run_call-Moves env (escrow c) s inv h = run_escrow-Moves env c s inv h

new-Inv :
    (env : Env) (verifiers : List VerifierInfo) (threshold : Option ℕ) (tokens : List Text)
    {s : Contract}
    → new env verifiers threshold tokens ≡ ok s
    → Inv s
unfolding new lookup
new-Inv env verifiers threshold tokens {s} h =
    let empty : s.escrows ≡ [] = ground arith in
    record {
      unique = subst Distinct (sym empty) tt;
      entry = λ j. subst (λ m. Holds (lookup j m)) (sym empty) tt;
    }

-- The invariant holds in every reachable state.
Reachable-Inv : {s : Contract} → Reachable s → Inv s
Reachable-Inv (initial env verifiers threshold tokens h) = new-Inv env verifiers threshold tokens h
Reachable-Inv (call env c {s} {s'} r h) =
    Inv-Moves s s' (run_call-Moves env c s (Reachable-Inv r) h)

-- In a reachable state, an escrow that is claimed or whose settlement target is to pay the worker
-- has a verdict that passed with a score of at least its threshold.
pub claimed_is_earned :
    (s : Contract) (job_id : Text) {e : Escrow}
    → Reachable s
    → lookup job_id s.escrows ≡ some e
    → (e.status ≡ claimed) ⊎ (e.settlement_target ≡ some claim)
    → Passed e.verdict e.score_threshold
claimed_is_earned s job_id r found paid =
    let sound = Inv-lookup s job_id (Reachable-Inv r) found in ground (arith, sound)

-- Across any call that goes through in a reachable state, an escrow keeps the agreed terms, and its
-- status stays, or moves to a later one in the order pending funding, open, in progress, verifying,
-- cancelled or failed settlement, claimed or refunded, or moves from cancelled to failed settlement
-- or back; if the call removes it, it was claimed, refunded or cancelled.
pub calls_keep_terms :
    (env : Env) (c : Call) (s s' : Contract) (job_id : Text) {e : Escrow}
    → Reachable s
    → run_call env c s ≡ ok s'
    → lookup job_id s.escrows ≡ some e
    → ((e' : Escrow) × (lookup job_id s'.escrows ≡ some e')
        × (terms_of e' ≡ terms_of e)
        × (may_become e.status e'.status ≡ true))
      ⊎ ((lookup job_id s'.escrows ≡ none)
          × ((e.status ≡ claimed) ⊎ (e.status ≡ refunded) ⊎ (e.status ≡ cancelled)))
calls_keep_terms env c s s' job_id {e} r h found =
    let moved = (run_call-Moves env c s (Reachable-Inv r) h).entry job_id in
    let here = subst (λ o. Entry o (lookup job_id s'.escrows)) found moved in
    elim (Option-cases (lookup job_id s'.escrows)) [
      | inl gone ↦ inr (gone, subst (Entry (some e)) gone here)
      | inr (e', stays) ↦
          let a = subst (Entry (some e)) stays here in inl (e', stays, a.same_terms, a.forward)
    ]
