-- ===== src/Tests/Guards.antt =====
-- The owner's settings, the pause and the pages at concrete inputs.
use near_escrow.Shared.Tests.{◌+◌, ◌≤◌, ◌⊎◌, ◌≡◌, arith, refl, none, some, [], ◌∷◌}
use near_escrow.Shared.Outcome.{ok, panic}
use near_escrow.Text.Bytes.{ascii, ◌==◌}
use near_escrow.Escrow.Types.{opened, claimed, Escrow}
use near_escrow.Escrow.Host.{Tx}
use near_escrow.Escrow.State.{Contract}
use near_escrow.Tests.Fixtures.{agent, bob, owner, call_by, verifier, escrow_at, contract_with}
use near_escrow.Escrow.Admin.{active_count, new, deactivate_verifier, propose_owner, accept_owner}
use near_escrow.Escrow.Calls
use near_escrow.Escrow.Calls.{side, run_call, run_side}
use near_escrow.Escrow.Calls.Keeps.{settings}
use near_escrow.Escrow.Calls.Settings.{settings_change_by_owner}
use near_escrow.Escrow.Calls.Settings.Threshold.{initial, call, threshold_in_reach}
use near_escrow.Escrow.Views.{
  view_of, page, status_of_name, list_open, list_by_agent, list_by_worker, list_by_status,
}
use near_escrow.Escrow.Views.Walk.{walk, shown, pages_show_all}

abbrev after : Tx Contract → Contract
after (ok s) = s
after (panic _) = contract_with (escrow_at claimed none none)

abbrev open_escrow : Escrow
open_escrow = escrow_at opened none none

abbrev holder : Contract
holder = contract_with open_escrow

abbrev proposed : Contract
proposed = after (propose_owner (call_by owner) bob holder)

abbrev handed_over : Contract
handed_over = after (accept_owner (call_by bob) proposed)

settings_change_by_owner_example :
    (settings handed_over ≡ settings proposed)
    ⊎ ((some bob ≡ some bob)
        × (settings handed_over ≡ record (settings proposed) { owner = bob; pending_owner = none }))
unfolding propose_owner accept_owner run_call run_side ◌==◌
settings_change_by_owner_example =
    settings_change_by_owner (call_by bob) (side Calls.accept_owner) proposed handed_over refl refl

-- Two verifiers who must both sign, of whom one is then deactivated.
abbrev started : Contract
started = after (new (call_by owner) (verifier ∷ verifier ∷ []) (some 2) [])

abbrev short : Contract
short = after (deactivate_verifier (call_by owner) 0 started)

threshold_in_reach_example : (1 ≤ 2) × (2 ≤ active_count short.verifier_set + 1)
unfolding new deactivate_verifier run_call run_side ◌==◌
threshold_in_reach_example = threshold_in_reach {s = short} (
    call (call_by owner) (side (Calls.deactivate_verifier 0)) {s = started}
      (initial (call_by owner) (verifier ∷ verifier ∷ []) (some 2) [] refl) refl)

-- Two pages of one, of which the second is empty.
pages_show_all_example :
    (walk (λ i. list_open (some i) (some 1) holder) 1 2 0 ≡ view_of open_escrow ∷ [])
    × (walk (λ i. list_by_agent agent (some i) (some 1) holder) 1 2 0 ≡ view_of open_escrow ∷ [])
    × (walk (λ i. list_by_worker bob (some i) (some 1) holder) 1 2 0 ≡ view_of open_escrow ∷ [])
    × (walk (λ i. shown (list_by_status (ascii "Claimed") (some i) (some 1) holder)) 1 2 0 ≡ [])
unfolding list_open list_by_agent list_by_worker list_by_status page status_of_name ◌==◌
pages_show_all_example =
    pages_show_all agent bob (ascii "Claimed") claimed 1 2 holder (omega arith) (omega arith)
      (omega arith) refl
