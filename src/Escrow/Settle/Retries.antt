-- ===== src/Escrow/Settle/Retries.antt =====
-- `retry_settlement` past the limit of retries.
use near_escrow.Shared.Tests.{◌+◌, ◌%◌, ◌≤◌, ◌<◌, ◌≡◌, refl, some, ◌∷◌, arith, u8_mod}
use near_escrow.Shared.Maps.{lookup, lookup-insert_self}
use near_escrow.Shared.Outcome.{ok, ◌>>=◌}
use near_escrow.Text.Bytes.{Text}
use near_escrow.Escrow.Types.{cancelled, settlement_failed, Escrow, SettlementTarget}
use near_escrow.Escrow.Host.{Env, transfer}
use near_escrow.Escrow.State.{Contract}
use near_escrow.Escrow.Settle.{give_up, retry_settlement}

-- For an escrow with a failed settlement, a target and from 5 to 253 retries, two retries in a
-- row by any two callers both succeed, and each schedules the storage deposit for the escrow's
-- agent and nothing else.
pub retries_pay_deposit_again :
    (env env' : Env) (job_id : Text) (s : Contract) (e : Escrow) (target : SettlementTarget)
    → lookup job_id s.escrows ≡ some e
    → e.status ≡ settlement_failed
    → e.settlement_target ≡ some target
    → 5 ≤ e.retry_count
    → e.retry_count < 254
    → (s' : Contract) × ((retry_settlement env job_id s >>= retry_settlement env' job_id) ≡ ok s')
      × (s'.promises
          ≡ transfer e.agent s.storage_deposit_yocto
            ∷ transfer e.agent s.storage_deposit_yocto
            ∷ s.promises)
unfolding retry_settlement give_up
retries_pay_deposit_again env env' job_id s e target found failed aim past below =
    let once : Escrow = record e {
      retry_count = (e.retry_count + 1) % u8_mod;
      status = cancelled;
    } in
    let twice : Escrow = record once { retry_count = (once.retry_count + 1) % u8_mod } in
    let stored = lookup-insert_self job_id once s.escrows in
    let s₁ : Contract =
      give_up job_id (record e { retry_count = (e.retry_count + 1) % u8_mod }) s in
    let s₂ : Contract = give_up job_id twice s₁ in
    let first : retry_settlement env job_id s ≡ ok s₁ = ground arith in
    let second : retry_settlement env' job_id s₁ ≡ ok s₂ = ground (arith, stored) in
    (s₂, ground (arith, first, second), refl)
