-- ===== src/Escrow/Calls/Paid.antt =====
-- From the creation of a standard escrow to the worker's pay or the agent's refund.
use near_escrow.Shared.Tests.{ℕ, ◌-◌, List, Bool, [], ◌∷◌, ltb, if◌then◌else◌, unwrap_or}
use near_escrow.Text.Bytes.{Text}
use near_escrow.Escrow.Types.{Escrow}
use near_escrow.Escrow.Host.{
  Env, Promise, FtTransfer, transfer, settle_batch, yield_create, yield_resume,
}
use near_escrow.Escrow.State.{Contract}
use near_escrow.Escrow.Lifecycle.{CreateArgs}
use near_escrow.Escrow.Calls.Journey.Pays.{receiver}

abbrev pub token_to : CreateArgs → Text → ℕ → FtTransfer
token_to a receiver amount = record { token = a.token; receiver = receiver; amount = amount }

-- What a verdict schedules, the newest first: the stake to the worker, the deposit to the agent,
-- the token transfers, of the amount less the fee to the worker or back to the agent and of the
-- fee, the resumed yield and the yield.
abbrev pub verdict_schedules : Bool → Env → Env → CreateArgs → Contract → Text → Text → List Promise
verdict_schedules passed creation claiming a s id payload =
    let fee = unwrap_or a.verifier_fee 0 in
    transfer claiming.signer claiming.attached_deposit
    ∷ transfer creation.signer s.storage_deposit_yocto
    ∷ settle_batch
        (token_to a (receiver passed claiming.signer creation.signer) (a.amount - fee)
          ∷ (if ltb 0 fee then token_to a s.owner fee ∷ [] else []))
        a.job_id
    ∷ yield_resume id payload
    ∷ yield_create a.job_id
    ∷ s.promises
