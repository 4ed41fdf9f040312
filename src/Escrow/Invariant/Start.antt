-- ===== src/Escrow/Invariant/Start.antt =====
-- Creation, funding and claims against the invariant.
use near_escrow.Shared.Tests.{
  ℕ, ◌<◌, ◌≡◌, refl, ◌⊎◌, true, inl, inr, none, some, arith, Bool-cases, Option-cases,
}
use near_escrow.Shared.Maps.{lookup, insert}
use near_escrow.Shared.Outcome.{ok}
use near_escrow.Text.Bytes.{Text}
use near_escrow.Escrow.Types.{opened, in_progress, pending_funding, Escrow}
use near_escrow.Escrow.Host.{Env}
use near_escrow.Escrow.State.{Contract}
use near_escrow.Escrow.Admin.{is_token_allowed}
use near_escrow.Escrow.Lifecycle.{
  CreateArgs, new_escrow, create_escrow, accepts_funding, ft_on_transfer, claim, claim_for,
}
use near_escrow.Escrow.Invariant.{IsSound, Moves, Keeps, Inv}
use near_escrow.Escrow.Invariant.Change.{Keeps-same, Keeps-put, Moves-new, Inv-lookup}

create_escrow_returns :
    (env : Env) (a : CreateArgs) (s : Contract) {s' : Contract}
    → create_escrow env a s ≡ ok s'
    → (lookup a.job_id s.escrows ≡ none)
      × ((new_escrow env a).verifier_fee < a.amount)
      × (s'.escrows ≡ insert a.job_id (new_escrow env a) s.escrows)
unfolding create_escrow new_escrow
create_escrow_returns env a s h = ground arith

new_escrow-IsSound :
    (env : Env) (a : CreateArgs)
    → (new_escrow env a).verifier_fee < a.amount
    → IsSound (new_escrow env a)
unfolding new_escrow
new_escrow-IsSound env a h = record { target_fits = refl; earned = tt; fee_below = h }

new_escrow-status : (env : Env) (a : CreateArgs) → (new_escrow env a).status ≡ pending_funding
unfolding new_escrow
new_escrow-status env a = refl

pub create_escrow-Moves :
    (env : Env) (a : CreateArgs) (s : Contract) {s' : Contract}
    → Inv s
    → create_escrow env a s ≡ ok s'
    → Moves s s'
create_escrow-Moves env a s {s'} inv h =
    let (fresh, fee, stored) = create_escrow_returns env a s h in
    Moves-new s a.job_id (new_escrow env a) inv s'
      (rw fresh (new_escrow-IsSound env a fee, new_escrow-status env a)) stored

-- The four checks on the escrow imply its status.
accepts_funding-status :
    (env : Env) (sender : Text) (amount : ℕ) (e : Escrow)
    → accepts_funding env sender amount e ≡ true
    → e.status ≡ pending_funding
unfolding accepts_funding
accepts_funding-status env sender amount e h = ground arith

abbrev funded : Escrow → Escrow
funded e = record e { status = opened }

ft_on_transfer_returns :
    (env : Env) (sender : Text) (amount : ℕ) (msg : Text) (s : Contract)
    → ((ft_on_transfer env sender amount msg s).0.escrows ≡ s.escrows)
      ⊎ ((e : Escrow) × (lookup msg s.escrows ≡ some e)
          × (accepts_funding env sender amount e ≡ true)
          × ((ft_on_transfer env sender amount msg s).0.escrows ≡ insert msg (funded e) s.escrows))
unfolding ft_on_transfer
ft_on_transfer_returns env sender amount msg s = elim (Option-cases (lookup msg s.escrows)) [
  | inl missing ↦ inl (ground arith)
  | inr (e, found) ↦ elim (Bool-cases (is_token_allowed s env.predecessor)) [
    | inl allowed ↦ elim (Bool-cases (accepts_funding env sender amount e)) [
      | inl accepted ↦ inr (e, found, accepted, ground arith)
      | inr rejected ↦ inl (ground arith)
    ]
    | inr banned ↦ inl (ground arith)
  ]
]

pub ft_on_transfer-Keeps :
    (env : Env) (sender : Text) (amount : ℕ) (msg : Text) (s : Contract)
    → Inv s
    → Keeps s (ft_on_transfer env sender amount msg s).0
ft_on_transfer-Keeps env sender amount msg s inv =
    let s' = (ft_on_transfer env sender amount msg s).0 in
    elim (ft_on_transfer_returns env sender amount msg s) [
      | inl same ↦ Keeps-same s s' inv same
      | inr (e, found, accepted, stored) ↦
          let sound = Inv-lookup s msg inv found in
          Keeps-put s msg (funded e) inv s' found
            (ground (arith, sound, accepts_funding-status env sender amount e accepted)) stored
    ]

claim_returns :
    (env : Env) (job_id : Text) (s : Contract) {s' : Contract}
    → claim env job_id s ≡ ok s'
    → (e : Escrow) × (lookup job_id s.escrows ≡ some e)
      × (e.status ≡ opened)
      × (s'.escrows
          ≡ insert job_id
              (record e {
                worker = some env.signer;
                worker_stake = some env.attached_deposit;
                status = in_progress;
              })
              s.escrows)
unfolding claim
claim_returns env job_id s h = ground arith

pub claim-Keeps :
    (env : Env) (job_id : Text) (s : Contract) {s' : Contract}
    → Inv s
    → claim env job_id s ≡ ok s'
    → Keeps s s'
claim-Keeps env job_id s {s'} inv h =
    let (e, found, is_open, stored) = claim_returns env job_id s h in
    let sound = Inv-lookup s job_id inv found in
    Keeps-put s job_id _ inv s' found (ground (arith, sound)) stored

claim_for_returns :
    (env : Env) (job_id worker_pubkey signature : Text) (s : Contract) {s' : Contract}
    → claim_for env job_id worker_pubkey signature s ≡ ok s'
    → (e : Escrow) × (lookup job_id s.escrows ≡ some e)
      × (e.status ≡ opened)
      × (s'.escrows
          ≡ insert job_id
              (record e {
                worker_pubkey = some worker_pubkey;
                worker = some env.signer;
                worker_stake = some s.worker_stake_yocto;
                status = in_progress;
              })
              s.escrows)
unfolding claim_for
claim_for_returns env job_id worker_pubkey signature s h = ground arith

pub claim_for-Keeps :
    (env : Env) (job_id worker_pubkey signature : Text) (s : Contract) {s' : Contract}
    → Inv s
    → claim_for env job_id worker_pubkey signature s ≡ ok s'
    → Keeps s s'
claim_for-Keeps env job_id worker_pubkey signature s {s'} inv h =
    let (e, found, is_open, stored) = claim_for_returns env job_id worker_pubkey signature s h in
    let sound = Inv-lookup s job_id inv found in
    Keeps-put s job_id _ inv s' found (ground (arith, sound)) stored
