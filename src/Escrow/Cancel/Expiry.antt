-- ===== src/Escrow/Cancel/Expiry.antt =====
-- The full refund that `refund_expired` starts, by status.
use near_escrow.Shared.Tests.{
  ◌<◌, ◌≤◌, ◌≡◌, false, inl, inr, none, some, List, [], ◌∷◌, refl, arith, is_some, Bool-cases,
  Option-cases,
}
use near_escrow.Shared.Maps.{lookup, lookup-insert_self}
use near_escrow.Shared.Outcome.{ok}
use near_escrow.Text.Bytes.{Text}
use near_escrow.Escrow.Types.{EscrowStatus, opened, in_progress, verifying, full_refund, Escrow}
use near_escrow.Escrow.Host.{Env, Promise, transfer, settle_batch}
use near_escrow.Escrow.State.{Contract, put_escrow, schedule}
use near_escrow.Escrow.Settle.{
  start_batch, ft_to, settle_escrow, settle_wallet, settle_legacy, expires_at,
}
use near_escrow.Escrow.Settle.Money.{ft_out}
use near_escrow.Escrow.Verdict.{forget_data_id}
use near_escrow.Escrow.Cancel.{
  safety_deadline, start_full_refund, stake_to_worker, refund_in_progress, refund_stalled_stake,
  refund_verifying, refund_by_status, refund_expired,
}

-- The transfer of an escrow's whole amount, in its token, to its agent.
abbrev pub refund_of : Text → Escrow → Promise
refund_of job_id e =
    settle_batch (record { token = e.token; receiver = e.agent; amount = e.amount } ∷ []) job_id

-- The promises are one transfer of the whole amount to the agent, and others before it that send no
-- token.
abbrev pub RefundsAll : Text → Escrow → Contract → Contract → Type 0
RefundsAll job_id e s s' =
    (others : List Promise) × (s'.promises ≡ refund_of job_id e ∷ others)
    × (ft_out others ≡ ft_out s.promises)

-- A full refund of an escrow that has funds always starts, and sends them all.
start_full_refund-pays :
    (job_id : Text) (e : Escrow) (s : Contract)
    → 0 < e.amount
    → (s' : Contract) × (start_full_refund job_id e s ≡ ok s')
      × (s'.promises ≡ refund_of job_id e ∷ s.promises)
unfolding start_full_refund settle_escrow settle_wallet settle_legacy ft_out
start_full_refund-pays job_id e s funds =
    let aimed : Escrow = record e { settlement_target = some full_refund } in
    let set_aside : Escrow = record aimed {
      pending_payout = none;
      pending_stake_refund = e.worker_stake;
    } in
    let stored = lookup-insert_self job_id aimed s.escrows in
    elim (Bool-cases (is_some e.worker_pubkey)) [
      | inl key ↦ (
        start_batch (ft_to e e.agent e.amount ∷ []) job_id
            (put_escrow job_id set_aside (put_escrow job_id aimed s)),
        ground (arith, stored),
        ground arith,
      )
      | inr bare ↦ (
        start_batch (ft_to e e.agent e.amount ∷ []) job_id (put_escrow job_id aimed s),
        ground (arith, stored),
        ground arith,
      )
    ]

-- The statuses from which an expired escrow is refunded by a token transfer.
abbrev pub Refundable : Env → Escrow → EscrowStatus → Type 0
Refundable env e opened = Unit
Refundable env e in_progress = Unit
Refundable env e verifying = safety_deadline e ≤ env.block_timestamp_ms
Refundable env e _ = ⊥

stake_to_worker-ft_out :
    (e : Escrow) (s : Contract) → ft_out (stake_to_worker e s).promises ≡ ft_out s.promises
unfolding stake_to_worker ft_out
stake_to_worker-ft_out e s = ground arith

refund_stalled_stake-keeps :
    (e : Escrow) (s : Contract)
    → (((refund_stalled_stake e s).0.amount ≡ e.amount)
        × ((refund_stalled_stake e s).0.agent ≡ e.agent)
        × ((refund_stalled_stake e s).0.token ≡ e.token))
      × (ft_out (refund_stalled_stake e s).1.promises ≡ ft_out s.promises)
unfolding refund_stalled_stake ft_out
refund_stalled_stake-keeps e s = ground (arith, stake_to_worker-ft_out e s)

refund_by_status-pays :
    (status : EscrowStatus) (env : Env) (job_id : Text) (e : Escrow) (s : Contract)
    → Refundable env e status
    → 0 < e.amount
    → (s' : Contract) × (refund_by_status status env job_id e s ≡ ok s') × RefundsAll job_id e s s'
unfolding refund_by_status refund_in_progress refund_verifying ft_out
refund_by_status-pays opened env job_id e s r funds =
    let (s', paid, out) = start_full_refund-pays job_id e s funds in
    (s', paid, (s.promises, out, refl))
refund_by_status-pays in_progress env job_id e s r funds =
    let unstaked : Escrow = record e { worker_stake = none } in
    elim (Option-cases e.worker_stake) [
      | inl none_held ↦
          let (s', paid, out) = start_full_refund-pays job_id unstaked s funds in
          (s', ground (arith, paid), (s.promises, out, refl))
      | inr (stake, held) ↦
          let (s', paid, out) =
            start_full_refund-pays job_id unstaked (schedule (transfer e.agent stake) s) funds in
          (s', ground (arith, paid), (transfer e.agent stake ∷ s.promises, out, omega arith))
    ]
refund_by_status-pays verifying env job_id e s r funds =
    let e' = (refund_stalled_stake e s).0 in
    let s₁ = (refund_stalled_stake e s).1 in
    let (same, sent) = refund_stalled_stake-keeps e s in
    let (s', paid, out) =
      start_full_refund-pays job_id (record e' { data_id = none; yield_consumed = false })
        (record s₁ { data_id_index = forget_data_id e.data_id s₁.data_id_index })
        (ground (arith, same)) in
    (s', ground (arith, paid), (s₁.promises, ground (arith, out, same), sent))
refund_by_status-pays _ env job_id e s r funds = absurd r

-- While the contract is not paused, any caller's refund of an expired escrow that has funds goes
-- through, and schedules one transfer of its whole amount, in its token, to its agent and no other
-- token transfer, from the open status, from work in progress, and from a verification whose safety
-- time has passed.
pub refund_expired-pays :
    (env : Env) (job_id : Text) (s : Contract) {e : Escrow}
    → s.paused ≡ false
    → lookup job_id s.escrows ≡ some e
    → expires_at e < env.block_timestamp_ms
    → Refundable env e e.status
    → 0 < e.amount
    → (s' : Contract) × (refund_expired env job_id s ≡ ok s') × RefundsAll job_id e s s'
unfolding refund_expired
refund_expired-pays env job_id s {e} running found late r funds =
    let (s', paid, out) = refund_by_status-pays e.status env job_id e s r funds in
    (s', ground (arith, paid), out)
