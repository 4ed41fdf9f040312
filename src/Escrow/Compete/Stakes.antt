-- ===== src/Escrow/Compete/Stakes.antt =====
-- The stakes of a competition when its winner is designated.
use near_escrow.Shared.Tests.{
  ℕ, zero, suc, ◌+◌, ◌<◌, ◌≡◌, refl, inl, inr, some, List, [], ◌∷◌, ◌++◌, arith, Option-cases,
  unwrap_or,
}
use near_escrow.Shared.Lists.{get_elem?}
use near_escrow.Shared.Maps.{lookup, lookup-insert_self}
use near_escrow.Shared.Outcome.{ok}
use near_escrow.Text.Bytes.{Text}
use near_escrow.Escrow.Types.{opened, verifying, Submission, Escrow}
use near_escrow.Escrow.Host.{Env, Promise, transfer}
use near_escrow.Escrow.State.{Contract}
use near_escrow.Escrow.Submit.{start_verification}
use near_escrow.Escrow.Compete.{loser_refunds, designate_winner}

-- The NEAR that a promise sends.
abbrev near_amount : Promise → ℕ
near_amount (transfer _ n) = n
near_amount _ = 0

unfoldable pub near_out : List Promise → ℕ
near_out [] = 0
near_out (p ∷ ps) = near_amount p + near_out ps

unfoldable pub total_stakes : List Submission → ℕ
total_stakes [] = 0
total_stakes (x ∷ rest) = x.stake + total_stakes rest

near_out-append : (ps qs : List Promise) → near_out (ps ++ qs) ≡ near_out ps + near_out qs
unfolding near_out
near_out-append [] qs = omega arith
near_out-append (p ∷ ps) qs = omega (arith, near_out-append ps qs)

-- The winner is not among the submissions from a later index on.
near_out-later_refunds :
    (winner i : ℕ) (subs : List Submission)
    → winner < i
    → near_out (loser_refunds winner i subs) ≡ total_stakes subs
unfolding loser_refunds near_out total_stakes
near_out-later_refunds winner i [] h = refl
near_out-later_refunds winner i (x ∷ rest) h = ground (
  arith,
  near_out-later_refunds winner (suc i) rest (omega arith),
  near_out-append (loser_refunds winner (suc i) rest) (transfer x.worker x.stake ∷ []),
)

near_out-loser_refunds :
    (w winner i : ℕ) (subs : List Submission) (x : Submission)
    → w ≡ winner + i
    → get_elem? subs winner ≡ some x
    → near_out (loser_refunds w i subs) + x.stake ≡ total_stakes subs
unfolding loser_refunds near_out total_stakes
near_out-loser_refunds w winner i [] x e h = cc
near_out-loser_refunds w zero i (y ∷ rest) x e h =
    ground (arith, near_out-later_refunds w (suc i) rest (omega (arith, e)))
near_out-loser_refunds w (suc winner) i (y ∷ rest) x e h = ground (
  arith,
  near_out-loser_refunds w winner (suc i) rest x (omega (arith, e)) h,
  near_out-append (loser_refunds w (suc i) rest) (transfer y.worker y.stake ∷ []),
)

-- Designating the winner of an open competition takes every submission's stake: the refunds that
-- it schedules and the stake that it stores with the escrow sum to all the stakes.
pub designate_winner-stakes :
    (env : Env) (job_id : Text) (winner_idx : ℕ) (s s' : Contract) {e : Escrow}
    → lookup job_id s.escrows ≡ some e
    → e.status ≡ opened
    → designate_winner env job_id winner_idx s ≡ ok s'
    → (e' : Escrow) × (lookup job_id s'.escrows ≡ some e')
      × (near_out s'.promises + unwrap_or e'.worker_stake 0
          ≡ near_out s.promises + total_stakes e.submissions)
unfolding designate_winner start_verification near_out
designate_winner-stakes env job_id winner_idx s s' {e} found is_open h =
    elim (Option-cases (get_elem? e.submissions winner_idx)) [
      | inl missing ↦ ground arith
      | inr (x, chosen) ↦ elim (Option-cases env.register) [
        | inl unset ↦ ground arith
        | inr (data_id, set_to) ↦
            let waiting : Escrow = record e {
              worker = some x.worker;
              result = some x.result;
              winner_idx = some winner_idx;
              worker_stake = some x.stake;
              data_id = some data_id;
              status = verifying;
              verifying_since_ms = some env.block_timestamp_ms;
            } in
            let refunds = loser_refunds winner_idx 0 e.submissions in
            let stored = lookup-insert_self job_id waiting s.escrows in
            let sum = near_out-append refunds s.promises in
            let kept =
              near_out-loser_refunds winner_idx winner_idx 0 e.submissions x (omega arith) chosen in
            (waiting, ground (arith, stored), ground (arith, sum, kept))
      ]
    ]
