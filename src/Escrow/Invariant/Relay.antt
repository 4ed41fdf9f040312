-- ===== src/Escrow/Invariant/Relay.antt =====
-- `submit_result_for` and `designate_winner` against the invariant.
use near_escrow.Shared.Tests.{
  ℕ, ◌≡◌, refl, ap, ◌⊎◌, inl, inr, ◌&&◌, some, arith, Bool-cases, Option-cases, is_some, unwrap_or,
  ◌∙◌,
}
use near_escrow.Shared.Lists.{any, get_elem?}
use near_escrow.Shared.Maps.{lookup, insert}
use near_escrow.Shared.Outcome.{ok}
use near_escrow.Text.Bytes.{Text}
use near_escrow.Escrow.Types.{
  opened, in_progress, verifying, same_status, EscrowMode, standard, competitive, Submission,
  Escrow,
}
use near_escrow.Escrow.Host.{Env}
use near_escrow.Escrow.State.{Contract, schedule_all}
use near_escrow.Escrow.Stats.{transition_stats}
use near_escrow.Escrow.Submit.{
  is_text, is_repeat, start_verification, add_submission, submit_competitive_for,
  submit_standard_for, submit_by_mode_for, submit_result_for,
}
use near_escrow.Escrow.Wallet.{fresh_account, next_nonce}
use near_escrow.Escrow.Compete.{is_index, loser_refunds, designate_winner}
use near_escrow.Escrow.Invariant.{Keeps, Inv}
use near_escrow.Escrow.Invariant.Change.{Keeps-same, Keeps-put, Keeps-trans, Inv-Keeps, Inv-lookup}
use near_escrow.Escrow.Invariant.Work.{start_verification-Keeps, submitted-Advances}

submit_competitive_for_returns :
    (env : Env) (job_id result key : Text) (e : Escrow) (s : Contract) {s' : Contract}
    → submit_competitive_for env job_id result key e s ≡ ok s'
    → (s'.escrows ≡ s.escrows)
      ⊎ ((x : Submission) × (s'.escrows ≡ insert job_id (add_submission x e) s.escrows))
unfolding submit_competitive_for
submit_competitive_for_returns env job_id result key e s h =
    elim (Bool-cases (any (λ x. is_text x.worker_pubkey key) e.submissions)) [
      | inl again ↦ inl (ground arith)
      | inr first ↦ inr (
        record {
          worker = env.signer;
          result = result;
          stake = s.worker_stake_yocto;
          worker_pubkey = some key;
        },
        ground arith,
      )
    ]

pub submit_standard_for_returns :
    (env : Env) (job_id result key : Text) (e : Escrow) (s : Contract) {s' : Contract}
    → submit_standard_for env job_id result key e s ≡ ok s'
    → (s' ≡ s)
      ⊎ ((e.status ≡ in_progress)
          × (start_verification env job_id
                (record e { result = some result })
                (record s { stats = transition_stats s.stats in_progress verifying })
              ≡ ok s'))
unfolding submit_standard_for
submit_standard_for_returns env job_id result key e s h =
    elim (Bool-cases (is_repeat e.worker_pubkey key e)) [
      | inl again ↦ inl (ground arith)
      | inr first ↦ inr (ground arith, ground arith)
    ]

submit_by_mode_for-Keeps :
    (mode : EscrowMode) (env : Env) (job_id result key : Text) (e : Escrow) (s : Contract)
    {s' : Contract}
    → Inv s
    → lookup job_id s.escrows ≡ some e
    → submit_by_mode_for mode env job_id result key e s ≡ ok s'
    → Keeps s s'
unfolding submit_by_mode_for
submit_by_mode_for-Keeps competitive env job_id result key e s {s'} inv found h =
    elim (submit_competitive_for_returns env job_id result key e s h) [
      | inl same ↦ Keeps-same s s' inv same
      | inr (x, stored) ↦
          Keeps-put s job_id (add_submission x e) inv s' found
            (submitted-Advances x (Inv-lookup s job_id inv found)) stored
    ]
submit_by_mode_for-Keeps standard env job_id result key e s {s'} inv found h =
    elim (submit_standard_for_returns env job_id result key e s h) [
      | inl same ↦ Keeps-same s s' inv (ap (λ x. x.escrows) same)
      | inr (working, starting) ↦
          start_verification-Keeps env job_id s
            (record s { stats = transition_stats s.stats in_progress verifying })
            (record e { result = some result }) inv found (ground (arith, working)) refl starting
    ]

-- The state after the worker's nonce is counted has the same escrows.
submit_result_for_returns :
    (env : Env) (job_id result key signature : Text) (s : Contract) {s' : Contract}
    → submit_result_for env job_id result key signature s ≡ ok s'
    → (e : Escrow) × (lookup job_id s.escrows ≡ some e)
      × (mid : Contract) × (mid.escrows ≡ s.escrows)
      × (submit_by_mode_for e.mode env job_id result key e mid ≡ ok s')
unfolding submit_result_for
submit_result_for_returns env job_id result key signature s h =
    elim (Option-cases (lookup job_id s.escrows)) [
      | inl missing ↦ ground arith
      | inr (e, found) ↦ (
        e,
        found,
        record s {
          workers =
              insert key (next_nonce (unwrap_or (lookup key s.workers) (fresh_account key)))
                s.workers;
        },
        refl,
        ground arith,
      )
    ]

pub submit_result_for-Keeps :
    (env : Env) (job_id result key signature : Text) (s : Contract) {s' : Contract}
    → Inv s
    → submit_result_for env job_id result key signature s ≡ ok s'
    → Keeps s s'
submit_result_for-Keeps env job_id result key signature s {s'} inv h =
    let (e, found, mid, same, by) = submit_result_for_returns env job_id result key signature s h in
    let first = Keeps-same s mid inv same in
    Keeps-trans s mid s' first (
      submit_by_mode_for-Keeps e.mode env job_id result key e mid (Inv-Keeps s mid first)
        (ap (lookup job_id) same ∙ found) by)

pub designate_winner_returns :
    (env : Env) (job_id : Text) (winner_idx : ℕ) (s : Contract) {s' : Contract}
    → designate_winner env job_id winner_idx s ≡ ok s'
    → (s' ≡ s)
      ⊎ ((e : Escrow) × (winner : Submission) × (lookup job_id s.escrows ≡ some e)
          × (get_elem? e.submissions winner_idx ≡ some winner)
          × (e.status ≡ opened)
          × (start_verification env job_id
                (record e {
                  worker = some winner.worker;
                  result = some winner.result;
                  winner_idx = some winner_idx;
                  worker_stake = some winner.stake;
                })
                (schedule_all
                  (loser_refunds winner_idx 0 e.submissions)
                  (record s { stats = transition_stats s.stats opened verifying }))
              ≡ ok s'))
unfolding designate_winner
designate_winner_returns env job_id winner_idx s h = elim (Option-cases (lookup job_id s.escrows)) [
  | inl missing ↦ inl (ground arith)
  | inr (e, found) ↦
      elim (Bool-cases
        (same_status e.status verifying && is_index e.winner_idx winner_idx && is_some e.data_id)) [
          | inl again ↦ inl (ground arith)
          | inr first ↦ elim (Option-cases (get_elem? e.submissions winner_idx)) [
            | inl out ↦ inl (ground arith)
            | inr (winner, at) ↦ inr (e, winner, found, at, ground arith, ground arith)
          ]
        ]
]

pub designate_winner-Keeps :
    (env : Env) (job_id : Text) (winner_idx : ℕ) (s : Contract) {s' : Contract}
    → Inv s
    → designate_winner env job_id winner_idx s ≡ ok s'
    → Keeps s s'
designate_winner-Keeps env job_id winner_idx s {s'} inv h =
    elim (designate_winner_returns env job_id winner_idx s h) [
      | inl same ↦ Keeps-same s s' inv (ap (λ x. x.escrows) same)
      | inr (e, winner, found, _, is_open, starting) ↦
          start_verification-Keeps env job_id s _ _ inv found (ground (arith, is_open)) refl
            starting
    ]
