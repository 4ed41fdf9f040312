-- ===== src/Escrow/Invariant/Work.antt =====
-- `submit_result` against the invariant, and the start of a verification.
use near_escrow.Shared.Tests.{
  ◌≡◌, refl, ap, ◌∙◌, ◌⊎◌, inl, inr, true, none, some, arith, Bool-cases,
}
use near_escrow.Shared.Maps.{lookup, insert}
use near_escrow.Shared.Outcome.{ok}
use near_escrow.Shared.Lists.{any}
use near_escrow.Text.Bytes.{Text, ◌==◌}
use near_escrow.Escrow.Types.{
  opened, in_progress, verifying, EscrowMode, standard, competitive, Submission, Escrow,
}
use near_escrow.Escrow.Host.{Env}
use near_escrow.Escrow.State.{Contract}
use near_escrow.Escrow.Submit.{
  is_repeat, start_verification, add_submission, submit_competitive, submit_standard,
  submit_by_mode, submit_result,
}
use near_escrow.Escrow.Invariant.{IsSound, terms_of, may_become, Advances, Keeps, Inv}
use near_escrow.Escrow.Invariant.Change.{may_become_refl, Keeps-same, Keeps-put, Inv-lookup}

-- An escrow on its way into verification: everything that the invariant reads is as before, but
-- the status, which was `opened` or `in_progress`.
abbrev pub Enters : Escrow → Escrow → Type 0
Enters e e' =
    (terms_of e' ≡ terms_of e)
    × (e'.verdict ≡ e.verdict)
    × (e'.settlement_target ≡ e.settlement_target)
    × (may_become e.status verifying ≡ true)
    × ((e.status ≡ opened) ⊎ (e.status ≡ in_progress))

-- The escrow as the start of a verification stores it.
abbrev entered : Env → Text → Escrow → Escrow
entered env data_id e = record e {
  data_id = some data_id;
  status = verifying;
  verifying_since_ms = some env.block_timestamp_ms;
}

start_verification_returns :
    (env : Env) (job_id : Text) (e : Escrow) (s : Contract) {s' : Contract}
    → start_verification env job_id e s ≡ ok s'
    → (data_id : Text) × (env.register ≡ some data_id)
      × (s'.escrows ≡ insert job_id (entered env data_id e) s.escrows)
unfolding start_verification
start_verification_returns env job_id e s h = ground arith

Enters-Advances :
    (env : Env) (data_id : Text) {e : Escrow} (e' : Escrow)
    → IsSound e
    → Enters e e'
    → Advances e (entered env data_id e')
Enters-Advances env data_id {e} e' sound enters = record {
  sound = record {
    target_fits = refl;
    earned = ground (arith, sound);
    fee_below = ground (arith, sound);
  };
  same_terms = enters.0;
  forward = enters.3;
}

pub start_verification-Keeps :
    (env : Env) (job_id : Text) (s mid : Contract) (e' : Escrow) {e : Escrow} {s' : Contract}
    → Inv s
    → lookup job_id s.escrows ≡ some e
    → Enters e e'
    → mid.escrows ≡ s.escrows
    → start_verification env job_id e' mid ≡ ok s'
    → Keeps s s'
start_verification-Keeps env job_id s mid e' {e} {s'} inv found enters same h =
    let (data_id, _, stored) = start_verification_returns env job_id e' mid h in
    Keeps-put s job_id (entered env data_id e') inv s' found
      (Enters-Advances env data_id e' (Inv-lookup s job_id inv found) enters)
      (stored ∙ ap (insert job_id _) same)

-- A submission that is only recorded.
pub submitted-Advances : (x : Submission) {e : Escrow} → IsSound e → Advances e (add_submission x e)
submitted-Advances x {e} sound = record {
  sound = ground (arith, sound);
  same_terms = refl;
  forward = may_become_refl e.status;
}

submit_competitive_returns :
    (env : Env) (job_id result : Text) (e : Escrow) (s : Contract) {s' : Contract}
    → submit_competitive env job_id result e s ≡ ok s'
    → (s'.escrows ≡ s.escrows)
      ⊎ ((x : Submission) × (s'.escrows ≡ insert job_id (add_submission x e) s.escrows))
unfolding submit_competitive
submit_competitive_returns env job_id result e s h =
    elim (Bool-cases (any (λ x. x.worker == env.signer) e.submissions)) [
      | inl again ↦ inl (ground arith)
      | inr first ↦ inr (
        record {
          worker = env.signer;
          result = result;
          stake = s.worker_stake_yocto;
          worker_pubkey = none;
        },
        ground arith,
      )
    ]

submit_standard_returns :
    (env : Env) (job_id result : Text) (e : Escrow) (s : Contract) {s' : Contract}
    → submit_standard env job_id result e s ≡ ok s'
    → (s' ≡ s)
      ⊎ ((e.status ≡ in_progress)
          × (start_verification env job_id (record e { result = some result }) s ≡ ok s'))
unfolding submit_standard
submit_standard_returns env job_id result e s h =
    elim (Bool-cases (is_repeat e.worker env.signer e)) [
      | inl again ↦ inl (ground arith)
      | inr first ↦ inr (ground arith, ground arith)
    ]

submit_by_mode-Keeps :
    (mode : EscrowMode) (env : Env) (job_id result : Text) (e : Escrow) (s : Contract)
    {s' : Contract}
    → Inv s
    → lookup job_id s.escrows ≡ some e
    → submit_by_mode mode env job_id result e s ≡ ok s'
    → Keeps s s'
unfolding submit_by_mode
submit_by_mode-Keeps competitive env job_id result e s {s'} inv found h =
    elim (submit_competitive_returns env job_id result e s h) [
      | inl same ↦ Keeps-same s s' inv same
      | inr (x, stored) ↦
          Keeps-put s job_id (add_submission x e) inv s' found
            (submitted-Advances x (Inv-lookup s job_id inv found)) stored
    ]
submit_by_mode-Keeps standard env job_id result e s {s'} inv found h =
    elim (submit_standard_returns env job_id result e s h) [
      | inl same ↦ Keeps-same s s' inv (ap (λ x. x.escrows) same)
      | inr (working, starting) ↦
          start_verification-Keeps env job_id s s (record e { result = some result }) inv found
            (ground (arith, working)) refl starting
    ]

submit_result_returns :
    (env : Env) (job_id result : Text) (s : Contract) {s' : Contract}
    → submit_result env job_id result s ≡ ok s'
    → (e : Escrow) × (lookup job_id s.escrows ≡ some e)
      × (submit_by_mode e.mode env job_id result e s ≡ ok s')
unfolding submit_result
submit_result_returns env job_id result s h = ground arith

pub submit_result-Keeps :
    (env : Env) (job_id result : Text) (s : Contract) {s' : Contract}
    → Inv s
    → submit_result env job_id result s ≡ ok s'
    → Keeps s s'
submit_result-Keeps env job_id result s inv h =
    let (e, found, by) = submit_result_returns env job_id result s h in
    submit_by_mode-Keeps e.mode env job_id result e s inv found by
