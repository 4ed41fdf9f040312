-- ===== src/Escrow/Calls/Journey.antt =====
-- One standard escrow through all its calls: what each leaves of it and schedules.
pub mod Pays
use near_escrow.Shared.Tests.{
  ℕ, ◌-◌, ◌≤◌, ◌<◌, ◌≡◌, refl, true, false, none, some, List, [], ◌∷◌, inl, inr, arith,
  Option-cases, ltb, if◌then◌else◌,
}
use near_escrow.Shared.Lists.{is_empty}
use near_escrow.Shared.Maps.{lookup, lookup-insert_self}
use near_escrow.Shared.Outcome.{ok}
use near_escrow.Text.Bytes.{Text, ◌==◌}
use near_escrow.Text.Hex.{hex_decode}
use near_escrow.Escrow.Types.{
  opened, in_progress, verifying, claimed, pending_funding, standard, SettlementTarget, Escrow,
  SignedVerdict,
}
use near_escrow.Escrow.Types
use near_escrow.Escrow.Host.{
  Env, Promise, PromiseResult, FtTransfer, Payload, successful, transfer, settle_batch,
  yield_create, yield_resume,
}
use near_escrow.Escrow.State.{Contract, put_escrow}
use near_escrow.Escrow.Lifecycle.{CreateArgs, new_escrow, create_escrow, claim}
use near_escrow.Escrow.Submit.{submit_result, submit_by_mode, submit_standard, start_verification}
use near_escrow.Escrow.Consensus.{resume_verification_multi, resume_yield}
use near_escrow.Escrow.Settle.{
  settle_escrow, settle_legacy, ft_to, fee_transfers, start_batch, apply_pending_credits, all_ok,
  stake_back, settle_success, settle_callback,
}
use near_escrow.Escrow.Verdict.{
  verdict_of, decide, forget_data_id, settle_verdict, verification_callback,
}

-- The state holds an escrow under its job, and has that owner, deposit and list of promises.
pub record At (job : Text) (s : Contract) (e : Escrow) (owner : Text) (deposit : ℕ)
    (sent : List Promise) : Type 0 where
  pub held : lookup job s.escrows ≡ some e
  pub owned : s.owner ≡ owner
  pub priced : s.storage_deposit_yocto ≡ deposit
  pub promised : s.promises ≡ sent

pub create_escrow-At :
    (env : Env) (a : CreateArgs) (s s' : Contract)
    → create_escrow env a s ≡ ok s'
    → At a.job_id s' (new_escrow env a) s.owner s.storage_deposit_yocto s.promises
unfolding create_escrow
create_escrow-At env a s s' h =
    ground (arith, lookup-insert_self a.job_id (new_escrow env a) s.escrows)

module _ (job owner : Text) (deposit : ℕ) where
  pub claim-At :
      (env : Env) (s s' : Contract) (e : Escrow) (sent : List Promise)
      → At job s e owner deposit sent
      → claim env job s ≡ ok s'
      → At job s'
          (record e {
            worker = some env.signer;
            worker_stake = some env.attached_deposit;
            status = in_progress;
          })
          owner
          deposit
          sent
  unfolding claim
  claim-At env s s' e sent at h =
      let taken = record e {
        worker = some env.signer;
        worker_stake = some env.attached_deposit;
        status = in_progress;
      } in
      ground (arith, at, lookup-insert_self job taken s.escrows)

  pub submit_result-At :
      (env : Env) (result : Text) (s s' : Contract) (e : Escrow) (sent : List Promise)
      → At job s e owner deposit sent
      → e.status ≡ in_progress
      → e.mode ≡ standard
      → submit_result env job result s ≡ ok s'
      → (d : Text) × At job s'
          (record e {
            result = some result;
            data_id = some d;
            status = verifying;
            verifying_since_ms = some env.block_timestamp_ms;
          })
          owner
          deposit
          (yield_create job ∷ sent)
  unfolding submit_result submit_by_mode submit_standard start_verification
  submit_result-At env result s s' e sent at working one_worker h =
      elim (Option-cases env.register) [
        | inl unset ↦ ground (arith, at, unset)
        | inr (d, set) ↦
            let waiting = record e {
              result = some result;
              data_id = some d;
              status = verifying;
              verifying_since_ms = some env.block_timestamp_ms;
            } in
            (d, ground (arith, at, set, lookup-insert_self job waiting s.escrows))
      ]

  pub resume_verification_multi-At :
      (env : Env) (data_id : Text) (signed : SignedVerdict) (s s' : Contract) (e : Escrow)
      (sent : List Promise)
      → At job s e owner deposit sent
      → resume_verification_multi env data_id signed s ≡ ok s'
      → (id : Text) × At job s' e owner deposit (yield_resume id signed.verdict_json ∷ sent)
  unfolding resume_verification_multi resume_yield
  resume_verification_multi-At env data_id signed s s' e sent at h =
      elim (Option-cases (hex_decode data_id)) [
        | inl unread ↦ ground (arith, unread)
        | inr (id, read) ↦ (id, ground (arith, at, read))
      ]
