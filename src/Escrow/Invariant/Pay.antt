-- ===== src/Escrow/Invariant/Pay.antt =====
-- The settlement, `_settle_escrow`, against the invariant.
use near_escrow.Shared.Tests.{
  ℕ, ◌-◌, ◌≡◌, refl, sym, ap, ◌∙◌, is_some, if◌then◌else◌, inl, inr, Option, none, some, arith,
  Bool-cases, Option-cases,
}
use near_escrow.Shared.Maps.{lookup, insert, lookup-insert_self, insert-insert}
use near_escrow.Shared.Outcome.{ok}
use near_escrow.Text.Bytes.{Text}
use near_escrow.Escrow.Types.{SettlementTarget, claim, refund, full_refund, Escrow}
use near_escrow.Escrow.State.{Contract, put_escrow}
use near_escrow.Shared.Lists.{is_empty}
use near_escrow.Escrow.Settle.{
  fee_transfers, final_status, apply_pending_credits, settle_callback_internal, settle_wallet,
  settle_legacy, settle_escrow,
}
use near_escrow.Escrow.Invariant.{IsSound, terms_of, Advances, Keeps, Inv}
use near_escrow.Escrow.Invariant.Change.{
  may_become_refl, Advances-trans, Keeps-same, Keeps-put, Keeps-trans, Inv-Keeps, Inv-lookup,
}

-- The escrow as a settlement leaves it.
abbrev pub settled : SettlementTarget → Escrow → Escrow
settled target e = record e {
  status = final_status target;
  settlement_target = none;
  worker_stake = none;
}

settle_internal_returns :
    (job_id : Text) (s : Contract) {s' : Contract}
    → settle_callback_internal job_id s ≡ ok s'
    → (e : Escrow) × (target : SettlementTarget) × (lookup job_id s.escrows ≡ some e)
      × (e.settlement_target ≡ some target)
      × (s'.escrows ≡ insert job_id (settled target (apply_pending_credits e s).0) s.escrows)
unfolding settle_callback_internal apply_pending_credits
settle_internal_returns job_id s h = ground arith

-- The escrow as a settlement with a worker key stores it.
abbrev waiting : Option ℕ → Escrow → Escrow
waiting payout e = record e { pending_payout = payout; pending_stake_refund = e.worker_stake }

waiting-Advances : (payout : Option ℕ) {e : Escrow} → IsSound e → Advances e (waiting payout e)
waiting-Advances payout {e} sound = record {
  sound = ground (arith, sound);
  same_terms = refl;
  forward = may_become_refl e.status;
}

-- Crediting changes nothing but the pending credits.
apply_pending_credits-keeps :
    (e : Escrow) (s : Contract)
    → let e' = (apply_pending_credits e s).0 in
      (terms_of e' ≡ terms_of e) × (e'.verdict ≡ e.verdict) × (e'.status ≡ e.status)
unfolding apply_pending_credits
apply_pending_credits-keeps e s = ground arith

pub settled-Advances :
    (target : SettlementTarget) (s : Contract) {e : Escrow}
    → IsSound e
    → e.settlement_target ≡ some target
    → Advances e (settled target (apply_pending_credits e s).0)
unfolding apply_pending_credits
settled-Advances target s {e} sound aim = ground (arith, sound)

settle_internal-Keeps :
    (job_id : Text) (s : Contract) (e₀ : Escrow) (payout : Option ℕ) (mid : Contract)
    {s' : Contract}
    → Inv s
    → lookup job_id s.escrows ≡ some e₀
    → mid.escrows ≡ insert job_id (waiting payout e₀) s.escrows
    → settle_callback_internal job_id mid ≡ ok s'
    → Keeps s s'
settle_internal-Keeps job_id s e₀ payout mid {s'} inv found stored h =
    let (e, target, found', aim, stored') = settle_internal_returns job_id mid h in
    let here : lookup job_id mid.escrows ≡ some (waiting payout e₀) =
      rw (stored, lookup-insert_self job_id (waiting payout e₀) s.escrows) in
    let same : e ≡ waiting payout e₀ = cc in
    let wait = waiting-Advances payout (Inv-lookup s job_id inv found) in
    Keeps-put s job_id (settled target (apply_pending_credits e mid).0) inv s' found
      (Advances-trans wait (
        rw same (
          settled-Advances target mid wait.sound (ap (λ x. x.settlement_target) (sym same) ∙ aim))))
      (stored' ∙ ap (insert job_id _) stored ∙ insert-insert job_id _ _ s.escrows)

settle_wallet-Keeps :
    (target : SettlementTarget) (job_id : Text) (e : Escrow) (s : Contract) {s' : Contract}
    → Inv s
    → lookup job_id s.escrows ≡ some e
    → settle_wallet target job_id e s ≡ ok s'
    → Keeps s s'
unfolding settle_wallet
settle_wallet-Keeps claim job_id e s {s'} inv found h =
    let payout = some (e.amount - e.verifier_fee) in
    let mid = put_escrow job_id (waiting payout e) s in
    elim (Bool-cases (is_empty (fee_transfers s e))) [
      | inl immediate ↦
          settle_internal-Keeps job_id s e payout mid {s' = s'} inv found refl (ground arith)
      | inr batched ↦
          Keeps-put s job_id (waiting payout e) inv s' found
            (waiting-Advances payout (Inv-lookup s job_id inv found)) (ground arith)
    ]
settle_wallet-Keeps refund job_id e s {s'} inv found h =
    Keeps-put s job_id (waiting none e) inv s' found
      (waiting-Advances none (Inv-lookup s job_id inv found)) (ground arith)
settle_wallet-Keeps full_refund job_id e s {s'} inv found h =
    Keeps-put s job_id (waiting none e) inv s' found
      (waiting-Advances none (Inv-lookup s job_id inv found)) (ground arith)

settle_legacy_returns :
    (target : SettlementTarget) (job_id : Text) (e : Escrow) (s : Contract) {s' : Contract}
    → settle_legacy target job_id e s ≡ ok s'
    → s'.escrows ≡ s.escrows
unfolding settle_legacy
settle_legacy_returns claim job_id e s h = ground arith
settle_legacy_returns _ job_id e s h = ground arith

pub settle_escrow_returns :
    (job_id : Text) (s : Contract) {s' : Contract}
    → settle_escrow job_id s ≡ ok s'
    → (e : Escrow) × (target : SettlementTarget) × (lookup job_id s.escrows ≡ some e)
      × ((if is_some e.worker_pubkey
            then settle_wallet target job_id e s
            else settle_legacy target job_id e s)
          ≡ ok s')
unfolding settle_escrow
settle_escrow_returns job_id s h = elim (Option-cases (lookup job_id s.escrows)) [
  | inl missing ↦ ground arith
  | inr (e, found) ↦ elim (Option-cases e.settlement_target) [
    | inl unset ↦ ground arith
    | inr (target, aim) ↦ (e, target, found, ground arith)
  ]
]

pub settle_escrow-Keeps :
    (job_id : Text) (s : Contract) {s' : Contract}
    → Inv s
    → settle_escrow job_id s ≡ ok s'
    → Keeps s s'
settle_escrow-Keeps job_id s {s'} inv h =
    let (e, target, found, by) = settle_escrow_returns job_id s h in
    elim (Bool-cases (is_some e.worker_pubkey)) [
      | inl wallet ↦ settle_wallet-Keeps target job_id e s inv found (rw wallet at by)
      | inr legacy ↦ Keeps-same s s' inv (settle_legacy_returns target job_id e s (rw legacy at by))
    ]

-- A call that stores a changed version of the escrow and then settles it.
pub settle_put-Keeps :
    (job_id : Text) (s mid : Contract) (e' : Escrow) {e : Escrow} {s' : Contract}
    → Inv s
    → lookup job_id s.escrows ≡ some e
    → Advances e e'
    → mid.escrows ≡ insert job_id e' s.escrows
    → settle_escrow job_id mid ≡ ok s'
    → Keeps s s'
settle_put-Keeps job_id s mid e' {e} {s'} inv found a stored h =
    let first = Keeps-put s job_id e' inv mid found a stored in
    Keeps-trans s mid s' first (settle_escrow-Keeps job_id mid (Inv-Keeps s mid first) h)
