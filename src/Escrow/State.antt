-- ===== src/Escrow/State.antt =====
-- The state of the contract.
use near_escrow.Shared.Tests.{ℕ, Bool, Option, List, ◌∷◌, ◌++◌}
use near_escrow.Shared.Maps.{Map, insert}
use near_escrow.Text.Bytes.{Text}
use near_escrow.Escrow.Types.{VerifierInfo, WorkerAccount, Escrow}
use near_escrow.Escrow.Host.{Promise}
use near_escrow.Escrow.Stats.{EscrowStats}

-- `EscrowContract`, and in `promises` what the calls so far have scheduled, the newest first.
pub record Contract : Type 0 where
  pub owner : Text
  pub pending_owner : Option Text
  pub paused : Bool
  pub escrows : Map Escrow
  pub verifier_set : List VerifierInfo
  pub consensus_threshold : ℕ  -- u8
  pub data_id_index : Map Text
  pub storage_deposit_yocto : ℕ  -- u128
  pub worker_stake_yocto : ℕ  -- u128
  pub workers : Map WorkerAccount
  pub balances : Map ℕ
  pub paused_workers : Map Bool
  pub allowed_tokens : List Text
  pub stats : EscrowStats
  pub promises : List Promise

-- `self.escrows.insert(&job_id, &escrow)`
abbrev pub put_escrow : Text → Escrow → Contract → Contract
put_escrow job_id e s = record s { escrows = insert job_id e s.escrows }

abbrev pub schedule : Promise → Contract → Contract
schedule p s = record s { promises = p ∷ s.promises }

abbrev pub schedule_all : List Promise → Contract → Contract
schedule_all ps s = record s { promises = ps ++ s.promises }
