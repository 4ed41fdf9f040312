-- ===== src/Tests/Life.antt =====
-- One escrow from its creation to the worker's pay, through every call on the way.
use near_escrow.Shared.Tests.{◌≡◌, refl, ◌⊎◌, inl, true, none, some, [], ◌∷◌}
use near_escrow.Shared.Maps.{lookup, insert, remove}
use near_escrow.Shared.Outcome.{ok, panic}
use near_escrow.Text.Bytes.{ascii, ◌==◌}
use near_escrow.Text.Hex.{hex_encode}
use near_escrow.Escrow.Types.{claimed, refunded, cancelled, Escrow}
use near_escrow.Escrow.Host.{successful, Tx}
use near_escrow.Escrow.Stats.{transition_stats}
use near_escrow.Escrow.State.{Contract}
use near_escrow.Escrow.Admin.{new, is_token_allowed}
use near_escrow.Escrow.Lifecycle.{new_escrow, accepts_funding}
use near_escrow.Escrow.Lifecycle
use near_escrow.Escrow.Submit.{start_verification, submit_standard, submit_by_mode, is_repeat}
use near_escrow.Escrow.Submit
use near_escrow.Escrow.Settle.{
  settle_escrow, settle_legacy, apply_pending_credits, all_ok, stake_back, settle_success,
}
use near_escrow.Escrow.Settle
use near_escrow.Escrow.Verdict.{verdict_of, decide, forget_data_id, settle_verdict}
use near_escrow.Escrow.Verdict
use near_escrow.Escrow.Invariant.{Passed, terms_of, may_become}
use near_escrow.Escrow.Calls.{
  create_escrow, ft_on_transfer, submit_result, verification_callback, settle_callback, escrow,
  EscrowCall, run_escrow, run_call, Reachable, initial, call,
}
use near_escrow.Escrow.Calls.Safety.{claimed_is_earned, calls_keep_terms}
use near_escrow.Tests.Fixtures.{
  agent, bob, owner, token, job, passing, call_by, callback, verifier, terms, escrow_at,
  contract_with,
}

-- The state that a call returns, or another one for a panic.
abbrev after : Tx Contract → Contract
after (ok s) = s
after (panic _) = contract_with (escrow_at claimed none none)

abbrev start : Contract
start = after (new (call_by owner) (verifier ∷ []) (some 1) [])

abbrev created : Contract
created = after (run_call (call_by agent) (escrow (create_escrow terms)) start)

abbrev funded : Contract
funded = after (run_call (call_by token) (escrow (ft_on_transfer agent 100 job)) created)

abbrev working : Contract
working = after (run_call (call_by bob) (escrow (EscrowCall.claim job)) funded)

abbrev submitted : Contract
submitted = after (run_call (call_by bob) (escrow (submit_result job (ascii "r"))) working)

abbrev judged : Contract
judged = after (
    run_call (callback (successful (ascii "pass") ∷ [])) (escrow (verification_callback job))
      submitted)

abbrev paid : Contract
paid = after (run_call (callback (successful [] ∷ [])) (escrow (settle_callback job)) judged)

abbrev entry : Contract → Escrow
entry s = elim (lookup job s.escrows) [ none ↦ escrow_at claimed none none | some e ↦ e ]

judged-Reachable : Reachable judged
unfolding ◌==◌ lookup insert remove hex_encode new is_token_allowed transition_stats run_call
    run_escrow Lifecycle.create_escrow new_escrow Lifecycle.ft_on_transfer accepts_funding
    Lifecycle.claim Submit.submit_result submit_by_mode submit_standard start_verification
    Verdict.verification_callback settle_verdict decide verdict_of forget_data_id settle_escrow
    settle_legacy Settle.settle_callback all_ok settle_success apply_pending_credits stake_back
judged-Reachable =
    call (callback (successful (ascii "pass") ∷ [])) (escrow (verification_callback job))
      {s = submitted}
      (call (call_by bob) (escrow (submit_result job (ascii "r"))) {s = working}
        (call (call_by bob) (escrow (EscrowCall.claim job)) {s = funded}
          (call (call_by token) (escrow (ft_on_transfer agent 100 job)) {s = created}
            (call (call_by agent) (escrow (create_escrow terms)) {s = start}
              (initial (call_by owner) (verifier ∷ []) (some 1) [] refl) refl)
            refl)
          refl)
        refl)
      refl

paid-Reachable : Reachable paid
unfolding ◌==◌ lookup insert remove hex_encode new is_token_allowed transition_stats run_call
    run_escrow Lifecycle.create_escrow new_escrow Lifecycle.ft_on_transfer accepts_funding
    Lifecycle.claim Submit.submit_result submit_by_mode submit_standard start_verification
    Verdict.verification_callback settle_verdict decide verdict_of forget_data_id settle_escrow
    settle_legacy Settle.settle_callback all_ok settle_success apply_pending_credits stake_back
paid-Reachable =
    call (callback (successful [] ∷ [])) (escrow (settle_callback job)) judged-Reachable refl

claimed_is_earned_example : Passed (some passing) 80
unfolding ◌==◌ lookup insert remove hex_encode new is_token_allowed transition_stats run_call
    run_escrow Lifecycle.create_escrow new_escrow Lifecycle.ft_on_transfer accepts_funding
    Lifecycle.claim Submit.submit_result submit_by_mode submit_standard start_verification
    Verdict.verification_callback settle_verdict decide verdict_of forget_data_id settle_escrow
    settle_legacy Settle.settle_callback all_ok settle_success apply_pending_credits stake_back
claimed_is_earned_example =
    claimed_is_earned paid job {e = entry paid} paid-Reachable refl (inl refl)

calls_keep_terms_example :
    ((e' : Escrow) × (lookup job paid.escrows ≡ some e')
      × (terms_of e' ≡ terms_of (entry judged))
      × (may_become (entry judged).status e'.status ≡ true))
    ⊎ ((lookup job paid.escrows ≡ none)
        × (((entry judged).status ≡ claimed)
            ⊎ ((entry judged).status ≡ refunded)
            ⊎ ((entry judged).status ≡ cancelled)))
unfolding ◌==◌ lookup insert remove hex_encode new is_token_allowed transition_stats run_call
    run_escrow Lifecycle.create_escrow new_escrow Lifecycle.ft_on_transfer accepts_funding
    Lifecycle.claim Submit.submit_result submit_by_mode submit_standard start_verification
    Verdict.verification_callback settle_verdict decide verdict_of forget_data_id settle_escrow
    settle_legacy Settle.settle_callback all_ok settle_success apply_pending_credits stake_back
calls_keep_terms_example =
    calls_keep_terms (callback (successful [] ∷ [])) (escrow (settle_callback job)) judged paid job
      {e = entry judged} judged-Reachable refl refl
