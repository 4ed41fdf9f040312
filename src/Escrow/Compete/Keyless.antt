-- ===== src/Escrow/Compete/Keyless.antt =====
-- The winner of a competition who submitted by key, and who is then paid.
use near_escrow.Shared.Tests.{
  ℕ, ◌-◌, ◌<◌, ◌≡◌, refl, inl, inr, none, some, List, ◌∷◌, arith, Option-cases,
}
use near_escrow.Shared.Lists.{get_elem?}
use near_escrow.Shared.Maps.{lookup, lookup-insert_self}
use near_escrow.Shared.Outcome.{ok}
use near_escrow.Text.Bytes.{Text}
use near_escrow.Escrow.Types.{opened, verifying, claim, Submission, Escrow}
use near_escrow.Escrow.Host.{Env, FtTransfer, settle_batch}
use near_escrow.Escrow.State.{Contract, put_escrow}
use near_escrow.Escrow.Submit.{start_verification}
use near_escrow.Escrow.Compete.{designate_winner}
use near_escrow.Escrow.Settle.{fee_transfers, start_batch, ft_to, settle_legacy, settle_escrow}

designated :
    (env : Env) (job_id : Text) (i : ℕ) (s s' : Contract) (winner : Submission) {e : Escrow}
    → lookup job_id s.escrows ≡ some e
    → e.status ≡ opened
    → get_elem? e.submissions i ≡ some winner
    → designate_winner env job_id i s ≡ ok s'
    → (e' : Escrow) × (lookup job_id s'.escrows ≡ some e')
      × (e'.worker_pubkey ≡ e.worker_pubkey)
      × (e'.worker ≡ some winner.worker)
      × (e'.amount ≡ e.amount)
      × (e'.verifier_fee ≡ e.verifier_fee)
      × (e'.token ≡ e.token)
      × (s'.balances ≡ s.balances)
unfolding designate_winner start_verification
designated env job_id i s s' winner {e} found is_open chosen h = elim (Option-cases env.register) [
  | inl unset ↦ absurd (ground arith)
  | inr (data_id, set_to) ↦
      let waiting : Escrow = record e {
        worker = some winner.worker;
        result = some winner.result;
        winner_idx = some i;
        worker_stake = some winner.stake;
        data_id = some data_id;
        status = verifying;
        verifying_since_ms = some env.block_timestamp_ms;
      } in
      let stored = lookup-insert_self job_id waiting s.escrows in
      (
        waiting,
        ground (arith, stored, set_to),
        refl,
        refl,
        refl,
        refl,
        refl,
        ground (arith, set_to),
      )
]

-- A winner who submitted by key to an escrow without a worker key is paid to the account that
-- relayed the submission: if the escrow that `designate_winner` stores then has the target to pay
-- the worker, and its fee is below its amount, the settlement goes through, sends the amount less
-- the fee to that account, and credits no key's balance.
pub winner_by_key_unpaid :
    (env : Env) (job_id key : Text) (i : ℕ) (s s' : Contract) (winner : Submission) {e : Escrow}
    → lookup job_id s.escrows ≡ some e
    → e.status ≡ opened
    → e.worker_pubkey ≡ none
    → e.verifier_fee < e.amount
    → get_elem? e.submissions i ≡ some winner
    → winner.worker_pubkey ≡ some key
    → designate_winner env job_id i s ≡ ok s'
    → (e' : Escrow) × (lookup job_id s'.escrows ≡ some e')
      × ((paid : Contract) × (fees : List FtTransfer) × (settle_escrow job_id
              (put_escrow job_id (record e' { settlement_target = some claim }) s')
            ≡ ok paid)
          × (paid.promises
              ≡ settle_batch
                  (record {
                    token = e.token;
                    receiver = winner.worker;
                    amount = e.amount - e.verifier_fee;
                  }
                    ∷ fees)
                  job_id
                ∷ s'.promises)
          × (paid.balances ≡ s.balances))
unfolding settle_escrow settle_legacy
winner_by_key_unpaid env job_id key i s s' winner {e} found is_open keyless fee chosen keyed h =
    let (e', stored, pubkey, worker, amount, charged, token, balances) =
      designated env job_id i s s' winner {e = e} found is_open chosen h in
    let aimed : Escrow = record e' { settlement_target = some claim } in
    let before = put_escrow job_id aimed s' in
    let kept = lookup-insert_self job_id aimed s'.escrows in
    let paid =
      start_batch
        (ft_to aimed winner.worker (e'.amount - e'.verifier_fee) ∷ fee_transfers before aimed)
        job_id before in
    (
      e',
      stored,
      (
        paid,
        fee_transfers before aimed,
        ground (arith, kept, pubkey, keyless, worker, amount, charged, fee),
        ground (arith, token, amount, charged),
        balances,
      ),
    )
