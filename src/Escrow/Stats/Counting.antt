-- ===== src/Escrow/Stats/Counting.antt =====
-- What a transition does to the counters.
use near_escrow.Shared.Tests.{ℕ, ◌+◌, ◌<◌, ◌≡◌, arith, u64_mod}
use near_escrow.Escrow.Types.{
  EscrowStatus, pending_funding, opened, in_progress, verifying, claimed, refunded, cancelled,
  settlement_failed,
}
use near_escrow.Escrow.Stats.{EscrowStats, total, transition_stats}

-- The counter of a status.
abbrev pub counter : EscrowStatus → EscrowStats → ℕ
counter pending_funding s = s.pending_funding
counter opened s = s.opened
counter in_progress s = s.in_progress
counter verifying s = s.verifying
counter claimed s = s.claimed
counter refunded s = s.refunded
counter cancelled s = s.cancelled
counter settlement_failed s = s.settlement_failed

-- The sum of the counters, which does not saturate.
abbrev pub population : EscrowStats → ℕ
population s =
    s.pending_funding + s.opened + s.in_progress + s.verifying + s.claimed + s.refunded
    + s.cancelled + s.settlement_failed

pub total-eq-population : (s : EscrowStats) → population s < u64_mod → total s ≡ population s
unfolding total
total-eq-population s h = ground arith

increment-population :
    (old new : EscrowStatus) (s : EscrowStats)
    → 0 < counter old s
    → population s < u64_mod
    → population (transition_stats s old new) ≡ population s
unfolding transition_stats
increment-population pending_funding new s p h = ground arith
increment-population _ new s p h = ground arith

-- While the counters sum to less than 2 ^ 64, a transition out of a status that is counted keeps
-- the total.
pub total-transition_stats :
    (old new : EscrowStatus) (s : EscrowStats)
    → 0 < counter old s
    → population s < u64_mod
    → total (transition_stats s old new) ≡ total s
total-transition_stats old new s p h =
    let kept = increment-population old new s p h in
    omega (
      arith,
      kept,
      total-eq-population s h,
      total-eq-population (transition_stats s old new) (omega (arith, kept)),
    )
