-- ===== src/Escrow/Compete/Early.antt =====
-- A cleanup while a refund is still under way.
use near_escrow.Shared.Tests.{ℕ, ◌<◌, ◌≡◌, inl, inr, true, false, none, some, arith}
use near_escrow.Shared.Lists.{length, is_empty}
use near_escrow.Shared.Maps.{lookup}
use near_escrow.Shared.Maps.Distinct.{Distinct}
use near_escrow.Shared.Outcome.{panic}
use near_escrow.Text.Bytes.{Text, ◌==◌, ==_refl}
use near_escrow.Escrow.Types.{cancelled, SettlementTarget, Escrow}
use near_escrow.Escrow.Host.{Env, Panic}
use near_escrow.Escrow.State.{Contract}
use near_escrow.Escrow.Compete.{cleanup_completed}
use near_escrow.Escrow.Settle.{settle_callback}
use near_escrow.Escrow.Invariant.Cleanup.{cleanup_completed-exact}

-- A cancelled escrow whose settlement is under way, so that its target still stands, is removed by
-- a cleanup with room for all escrows of a map without repetitions, and the callback of that
-- settlement, whether its transfers succeeded or failed, then panics since the escrow is gone.
pub cleanup_then_callback :
    (env : Env) (max_count : ℕ) (s : Contract) (job_id : Text) (target : SettlementTarget)
    {e : Escrow}
    → Distinct s.escrows
    → lookup job_id s.escrows ≡ some e
    → e.status ≡ cancelled
    → e.settlement_target ≡ some target
    → length s.escrows < max_count
    → env.predecessor ≡ env.current_account
    → is_empty env.promise_results ≡ false
    → (lookup job_id (cleanup_completed max_count s).0.escrows ≡ none)
      × (settle_callback env job_id (cleanup_completed max_count s).0
          ≡ panic Panic.escrow_not_found)
unfolding settle_callback
cleanup_then_callback env max_count s job_id target {e} d found ended aimed room own results =
    let (_, counted, _, left) = cleanup_completed-exact max_count s job_id {e = e} d found in
    let gone : lookup job_id (cleanup_completed max_count s).0.escrows ≡ none = elim left [
      | inl full ↦ absurd (omega (arith, full, counted, room))
      | inr (inl removed) ↦ removed
      | inr (inr kept) ↦ absurd (kept (inr (inr ended)))
    ] in
    let private : (env.predecessor == env.current_account) ≡ true =
      rw own (==_refl env.current_account) in
    (gone, ground (arith, gone, private, results))
