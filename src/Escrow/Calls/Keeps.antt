-- ===== src/Escrow/Calls/Keeps.antt =====
-- The owner's settings, and with them the workers' accounts, as a part of the state that most
-- calls keep.
use near_escrow.Shared.Tests.{ℕ, ◌≡◌, Bool, Option, List, ap}
use near_escrow.Shared.Maps.{Map}
use near_escrow.Text.Bytes.{Text}
use near_escrow.Escrow.Types.{VerifierInfo, WorkerAccount}
use near_escrow.Escrow.State.{Contract}

-- What the owner's calls set.
pub record Settings : Type 0 where
  pub owner : Text
  pub pending_owner : Option Text
  pub paused : Bool
  pub verifier_set : List VerifierInfo
  pub consensus_threshold : ℕ
  pub storage_deposit_yocto : ℕ
  pub worker_stake_yocto : ℕ
  pub allowed_tokens : List Text

abbrev pub settings : Contract → Settings
settings s = record {
  owner = s.owner;
  pending_owner = s.pending_owner;
  paused = s.paused;
  verifier_set = s.verifier_set;
  consensus_threshold = s.consensus_threshold;
  storage_deposit_yocto = s.storage_deposit_yocto;
  worker_stake_yocto = s.worker_stake_yocto;
  allowed_tokens = s.allowed_tokens;
}

abbrev pub kept : Contract → Settings × Map WorkerAccount
kept s = (settings s, s.workers)

pub same_workers : {k k' : Settings × Map WorkerAccount} → k' ≡ k → k'.1 ≡ k.1
same_workers e = ap (λ k. k.1) e

pub same_settings : {k k' : Settings × Map WorkerAccount} → k' ≡ k → k'.0 ≡ k.0
same_settings e = ap (λ k. k.0) e
