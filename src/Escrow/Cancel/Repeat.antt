-- ===== src/Escrow/Cancel/Repeat.antt =====
-- The cancellation of an open escrow, `cancel`, called again before the refund's callback.
use near_escrow.Shared.Tests.{
  ◌+◌, ◌<◌, ◌≡◌, refl, true, inl, inr, none, some, [], ◌∷◌, arith, is_some, Bool-cases,
}
use near_escrow.Shared.Maps.{lookup, insert, lookup-insert_self}
use near_escrow.Shared.Outcome.{ok, ◌>>=◌}
use near_escrow.Text.Bytes.{Text, ◌==◌, ==_refl}
use near_escrow.Escrow.Types.{opened, full_refund, Escrow}
use near_escrow.Escrow.Host.{Env}
use near_escrow.Escrow.State.{Contract, put_escrow}
use near_escrow.Escrow.Settle.{start_batch, ft_to, settle_escrow, settle_wallet, settle_legacy}
use near_escrow.Escrow.Settle.Money.{ft_out}
use near_escrow.Escrow.Cancel.{start_full_refund, cancel_by_status, cancel}

abbrev aimed : Escrow → Escrow
aimed e = record e { settlement_target = some full_refund }

-- The escrow of a worker key, as the started refund stores it.
abbrev set_aside : Escrow → Escrow
set_aside e = record (aimed e) { pending_payout = none; pending_stake_refund = e.worker_stake }

abbrev refunding : Text → Escrow → Contract → Contract
refunding job_id e s = start_batch (ft_to e e.agent e.amount ∷ []) job_id s

-- What the first cancellation leaves behind for the second.
abbrev StillOpen : Env → Text → Escrow → Contract → Contract → Type 0
StillOpen env job_id e s s' =
    (e' : Escrow) × (cancel env job_id s ≡ ok s')
    × (lookup job_id s'.escrows ≡ some e')
    × (e'.status ≡ opened)
    × (e'.agent ≡ e.agent)
    × (e'.amount ≡ e.amount)
    × (ft_out s'.promises ≡ e.amount + ft_out s.promises)

cancel_open :
    (env : Env) (job_id : Text) (s : Contract) (e : Escrow)
    → lookup job_id s.escrows ≡ some e
    → e.status ≡ opened
    → env.signer ≡ e.agent
    → 0 < e.amount
    → (s' : Contract) × StillOpen env job_id e s s'
unfolding cancel cancel_by_status start_full_refund settle_escrow settle_wallet settle_legacy ft_out
cancel_open env job_id s e found is_open agent funds =
    let same : env.signer == e.agent ≡ true = ground (arith, ==_refl e.agent) in
    let before = lookup-insert_self job_id (aimed e) s.escrows in
    elim (Bool-cases (is_some e.worker_pubkey)) [
      | inl key ↦ (
        refunding job_id e (put_escrow job_id (set_aside e) (put_escrow job_id (aimed e) s)),
        (
          set_aside e,
          ground (arith, same, before),
          lookup-insert_self job_id (set_aside e) (insert job_id (aimed e) s.escrows),
          is_open,
          refl,
          refl,
          ground arith,
        ),
      )
      | inr bare ↦ (
        refunding job_id e (put_escrow job_id (aimed e) s),
        (aimed e, ground (arith, same, before), before, is_open, refl, refl, ground arith),
      )
    ]

-- The agent's cancellation of an open escrow that has funds can be repeated before the refund's
-- callback: the second succeeds like the first, and the two schedule twice the escrow's amount.
pub cancel_twice :
    (env : Env) (job_id : Text) (s : Contract) {e : Escrow}
    → lookup job_id s.escrows ≡ some e
    → e.status ≡ opened
    → env.signer ≡ e.agent
    → 0 < e.amount
    → (s' : Contract) × ((cancel env job_id s >>= cancel env job_id) ≡ ok s')
      × (ft_out s'.promises ≡ e.amount + e.amount + ft_out s.promises)
cancel_twice env job_id s {e} found is_open agent funds =
    let (s₁, (e₁, first, found₁, open₁, agent₁, amount₁, out₁)) =
      cancel_open env job_id s e found is_open agent funds in
    let (s₂, (e₂, second, _, _, _, _, out₂)) =
      cancel_open env job_id s₁ e₁ found₁ open₁ (ground arith) (ground arith) in
    (s₂, ground (arith, first, second), ground (arith, out₁, out₂, amount₁))
