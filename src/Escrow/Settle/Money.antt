-- ===== src/Escrow/Settle/Money.antt =====
-- The amounts that `_settle_escrow` sends and credits.
use near_escrow.Shared.Tests.{
  ℕ, ◌+◌, ◌-◌, ◌<◌, ◌≡◌, ◌≢◌, true, false, inl, inr, Option, none, some, List, [], ◌∷◌, arith,
  Bool-cases, Option-cases, is_some, ltb, u128_mod,
}
use near_escrow.Shared.Maps.{lookup, lookup-insert_self}
use near_escrow.Shared.Outcome.{ok}
use near_escrow.Text.Bytes.{Text}
use near_escrow.Escrow.Types.{SettlementTarget, claim, refund, full_refund, Escrow}
use near_escrow.Escrow.Host.{
  FtTransfer, Promise, transfer, ft_transfer, settle_batch, yield_create, yield_resume,
}
use near_escrow.Escrow.State.{Contract, put_escrow}
use near_escrow.Escrow.Settle.{
  final_status, apply_pending_credits, settle_callback_internal, settle_wallet, settle_legacy,
  settle_escrow,
}
use near_escrow.Escrow.Balances.{near_token_id}
use near_escrow.Escrow.Settle.Credit.{
  held, set_aside_in, set_aside, apply_pending_credits-held, apply_pending_credits-clears,
}

abbrev pub batch_amount : List FtTransfer → ℕ
batch_amount [] = 0
batch_amount (t ∷ ts) = t.amount + batch_amount ts

abbrev pub promise_amount : Promise → ℕ
promise_amount (transfer _ _) = 0
promise_amount (ft_transfer t) = t.amount
promise_amount (settle_batch ts _) = batch_amount ts
promise_amount (yield_create _) = 0
promise_amount (yield_resume _ _) = 0

-- The fungible tokens that the scheduled promises send out of the contract.
unfoldable pub ft_out : List Promise → ℕ
ft_out [] = 0
ft_out (p ∷ ps) = promise_amount p + ft_out ps

settle_internal-moves :
    (job_id : Text) (e : Escrow) (s s' : Contract)
    → lookup job_id s.escrows ≡ some e
    → is_some e.worker_pubkey ≡ true
    → e.token ≢ near_token_id
    → held e.worker_pubkey e.token s + set_aside_in e.worker_pubkey e.pending_payout < u128_mod
    → settle_callback_internal job_id s ≡ ok s'
    → (ft_out s'.promises ≡ ft_out s.promises)
      × (set_aside (lookup job_id s'.escrows) ≡ 0)
      × (held e.worker_pubkey e.token s'
          ≡ held e.worker_pubkey e.token s + set_aside_in e.worker_pubkey e.pending_payout)
unfolding settle_callback_internal ft_out
settle_internal-moves job_id e s s' found keyed other fits h =
    let credited = apply_pending_credits-held e s other fits in
    let cleared = apply_pending_credits-clears e s keyed in
    elim (Option-cases e.settlement_target) [
      | inl aimless ↦ absurd (ground (arith, found, aimless))
      | inr (target, aimed) ↦
          let settled = record ((apply_pending_credits e s).0) {
            status = final_status target;
            settlement_target = none;
            worker_stake = none;
          } in
          let stored = lookup-insert_self job_id settled (apply_pending_credits e s).1.escrows in
          (
            ground (arith, found, aimed, cleared),
            ground (arith, found, aimed, cleared, stored),
            ground (arith, found, aimed, credited),
          )
    ]

-- The tokens of an escrow's worker inside the contract: the balance and what is set aside.
abbrev pub inside : Text → Option Text → Text → Contract → ℕ
inside job_id key token s = held key token s + set_aside (lookup job_id s.escrows)

settle_wallet-amount :
    (target : SettlementTarget) (job_id : Text) (e : Escrow) (s s' : Contract)
    → e.verifier_fee < e.amount
    → is_some e.worker_pubkey ≡ true
    → e.token ≢ near_token_id
    → held e.worker_pubkey e.token s + e.amount < u128_mod
    → settle_wallet target job_id e s ≡ ok s'
    → ft_out s'.promises + inside job_id e.worker_pubkey e.token s'
      ≡ ft_out s.promises + held e.worker_pubkey e.token s + e.amount
unfolding settle_wallet ft_out
settle_wallet-amount claim job_id e s s' fee keyed other fits h =
    let pending : Escrow = record e {
      pending_payout = some (e.amount - e.verifier_fee);
      pending_stake_refund = e.worker_stake;
    } in
    let stored = lookup-insert_self job_id pending s.escrows in
    elim (Option-cases e.worker_pubkey) [
      | inl bare ↦ absurd (ground (arith, bare, keyed))
      | inr (key, k) ↦ elim (Bool-cases (ltb 0 e.verifier_fee)) [
        | inl charged ↦ ground (arith, stored, k, charged)
        | inr free ↦
            let moved =
              settle_internal-moves job_id pending (put_escrow job_id pending s) s' stored keyed
                other (ground (arith, k, fits)) (ground (arith, free)) in
            ground (arith, moved, k, free)
      ]
    ]
settle_wallet-amount refund job_id e s s' fee keyed other fits h =
    let pending : Escrow = record e {
      pending_payout = none;
      pending_stake_refund = e.worker_stake;
    } in
    ground (arith, lookup-insert_self job_id pending s.escrows)
settle_wallet-amount full_refund job_id e s s' fee keyed other fits h =
    let pending : Escrow = record e {
      pending_payout = none;
      pending_stake_refund = e.worker_stake;
    } in
    ground (arith, lookup-insert_self job_id pending s.escrows)

settle_legacy-amount :
    (target : SettlementTarget) (job_id : Text) (e : Escrow) (s s' : Contract)
    → lookup job_id s.escrows ≡ some e
    → e.verifier_fee < e.amount
    → is_some e.worker_pubkey ≡ false
    → settle_legacy target job_id e s ≡ ok s'
    → ft_out s'.promises + inside job_id e.worker_pubkey e.token s'
      ≡ ft_out s.promises + held e.worker_pubkey e.token s + e.amount
unfolding settle_legacy ft_out
settle_legacy-amount claim job_id e s s' found fee key h = ground arith
settle_legacy-amount refund job_id e s s' found fee key h = ground arith
settle_legacy-amount full_refund job_id e s s' found fee key h = ground arith

-- A settlement, on every target and path, of an escrow whose fee is below its amount and whose
-- token is not NEAR, moves exactly the escrow's amount: the token transfers that it schedules, the
-- growth of the balance that the contract holds for the worker's key, if there is one, and the
-- payout that the stored escrow then sets aside for that key make up the amount, as long as the
-- balance stays below 2 ^ 128.
pub settle_escrow_conserves :
    (job_id : Text) (s s' : Contract) (target : SettlementTarget) {e : Escrow}
    → lookup job_id s.escrows ≡ some e
    → e.settlement_target ≡ some target
    → e.verifier_fee < e.amount
    → e.token ≢ near_token_id
    → held e.worker_pubkey e.token s + e.amount < u128_mod
    → settle_escrow job_id s ≡ ok s'
    → ft_out s'.promises + inside job_id e.worker_pubkey e.token s'
      ≡ ft_out s.promises + held e.worker_pubkey e.token s + e.amount
unfolding settle_escrow
settle_escrow_conserves job_id s s' target {e} found aim fee other fits h =
    elim (Bool-cases (is_some e.worker_pubkey)) [
      | inl key ↦ settle_wallet-amount target job_id e s s' fee key other fits (ground arith)
      | inr bare ↦ settle_legacy-amount target job_id e s s' found fee bare (ground arith)
    ]
