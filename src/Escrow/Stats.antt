-- ===== src/Escrow/Stats.antt =====
-- The cached counters, `EscrowStats` and `transition_stats`.
pub mod Counting
use near_escrow.Shared.Tests.{ℕ, ◌+◌, ◌-◌, u64_mod, saturating_add}
use near_escrow.Escrow.Types.{
  EscrowStatus, pending_funding, opened, in_progress, verifying, claimed, refunded, cancelled,
  settlement_failed,
}

pub record EscrowStats : Type 0 where
  pub total_created : ℕ
  pub pending_funding : ℕ
  pub opened : ℕ
  pub in_progress : ℕ
  pub verifying : ℕ
  pub claimed : ℕ
  pub refunded : ℕ
  pub cancelled : ℕ
  pub settlement_failed : ℕ

abbrev pub empty_stats : EscrowStats
empty_stats = record {
  total_created = 0;
  pending_funding = 0;
  opened = 0;
  in_progress = 0;
  verifying = 0;
  claimed = 0;
  refunded = 0;
  cancelled = 0;
  settlement_failed = 0;
}

abbrev pub add : ℕ → ℕ → ℕ
add = saturating_add u64_mod

-- `EscrowStats::total`
unfoldable pub total : EscrowStats → ℕ
total s =
    add
      (add
        (add (add (add (add (add s.pending_funding s.opened) s.in_progress) s.verifying) s.claimed)
          s.refunded)
        s.cancelled)
      s.settlement_failed

-- The first `match` of `transition_stats`; `saturating_sub` is subtraction on ℕ.
decrement : EscrowStatus → EscrowStats → EscrowStats
decrement pending_funding s = record s { pending_funding = s.pending_funding - 1 }
decrement opened s = record s { opened = s.opened - 1 }
decrement in_progress s = record s { in_progress = s.in_progress - 1 }
decrement verifying s = record s { verifying = s.verifying - 1 }
decrement claimed s = record s { claimed = s.claimed - 1 }
decrement refunded s = record s { refunded = s.refunded - 1 }
decrement cancelled s = record s { cancelled = s.cancelled - 1 }
decrement settlement_failed s = record s { settlement_failed = s.settlement_failed - 1 }

-- The second `match` of `transition_stats`.
increment : EscrowStatus → EscrowStats → EscrowStats
increment pending_funding s = record s { pending_funding = add s.pending_funding 1 }
increment opened s = record s { opened = add s.opened 1 }
increment in_progress s = record s { in_progress = add s.in_progress 1 }
increment verifying s = record s { verifying = add s.verifying 1 }
increment claimed s = record s { claimed = add s.claimed 1 }
increment refunded s = record s { refunded = add s.refunded 1 }
increment cancelled s = record s { cancelled = add s.cancelled 1 }
increment settlement_failed s = record s { settlement_failed = add s.settlement_failed 1 }

unfoldable pub transition_stats : EscrowStats → EscrowStatus → EscrowStatus → EscrowStats
unfolding decrement increment
transition_stats stats old_status new_status = increment new_status (decrement old_status stats)
