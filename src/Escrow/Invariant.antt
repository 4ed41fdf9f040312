-- ===== src/Escrow/Invariant.antt =====
-- The invariant of a stored escrow and the lawful changes of one: the settlement targets that go
-- with a status, the verdict behind a payment to the worker, the fee, the agreed terms, and the
-- order of the statuses.
pub mod Change
pub mod Start
pub mod Pay
pub mod Close
pub mod Work
pub mod Relay
pub mod Judge
pub mod Stop
pub mod Expire
pub mod Cleanup
use near_escrow.Shared.Tests.{
  ◌⊎◌, ℕ, ◌≤◌, ◌<◌, ◌≡◌, Bool, true, false, Option, none, some, ltb, nat_eq, ◌||◌, ◌&&◌,
}
use near_escrow.Shared.Maps.{lookup}
use near_escrow.Shared.Maps.Distinct.{Distinct}
use near_escrow.Text.Bytes.{Text}
use near_escrow.Escrow.Types.{
  EscrowStatus, pending_funding, opened, in_progress, verifying, claimed, refunded, cancelled,
  settlement_failed, same_status, SettlementTarget, claim, full_refund, VerifierVerdict, EscrowMode,
  Escrow,
}
use near_escrow.Escrow.State.{Contract}

-- The targets that an escrow of a status may have. An open or claimed one may be on its way to a
-- full refund, and a cancelled one may still have its refund to come.
abbrev pub fits : EscrowStatus → Option SettlementTarget → Bool
fits pending_funding none = true
fits opened none = true
fits opened (some full_refund) = true
fits in_progress none = true
fits in_progress (some full_refund) = true
fits verifying _ = true
fits claimed none = true
fits refunded none = true
fits cancelled _ = true
fits settlement_failed (some _) = true
fits _ _ = false

-- The verdict passed, with a score that reaches the threshold.
abbrev pub Passed : Option VerifierVerdict → ℕ → Type 0
Passed none threshold = ⊥
Passed (some v) threshold = (v.passed ≡ true) × (threshold ≤ v.score)

-- A worker who is paid, or about to be paid, has a passing verdict.
abbrev pub Earned : EscrowStatus → Option SettlementTarget → Option VerifierVerdict → ℕ → Type 0
Earned claimed target verdict threshold = Passed verdict threshold
Earned _ (some claim) verdict threshold = Passed verdict threshold
Earned _ _ verdict threshold = Unit

pub record IsSound (e : Escrow) : Type 0 where
  pub target_fits : fits e.status e.settlement_target ≡ true
  pub earned : Earned e.status e.settlement_target e.verdict e.score_threshold
  pub fee_below : e.verifier_fee < e.amount

-- What the agent and the worker agreed on when the escrow was created.
pub record Terms : Type 0 where
  pub job_id : Text
  pub agent : Text
  pub amount : ℕ
  pub token : Text
  pub created_at : ℕ
  pub timeout_ms : ℕ
  pub task_description : Text
  pub criteria : Text
  pub verifier_fee : ℕ
  pub score_threshold : ℕ
  pub mode : EscrowMode
  pub max_submissions : Option ℕ
  pub deadline_block : Option ℕ

abbrev pub terms_of : Escrow → Terms
terms_of e = record {
  job_id = e.job_id;
  agent = e.agent;
  amount = e.amount;
  token = e.token;
  created_at = e.created_at;
  timeout_ms = e.timeout_ms;
  task_description = e.task_description;
  criteria = e.criteria;
  verifier_fee = e.verifier_fee;
  score_threshold = e.score_threshold;
  mode = e.mode;
  max_submissions = e.max_submissions;
  deadline_block = e.deadline_block;
}

-- The stage of a status in the life of an escrow.
abbrev pub stage : EscrowStatus → ℕ
stage pending_funding = 0
stage opened = 1
stage in_progress = 2
stage verifying = 3
stage cancelled = 4
stage settlement_failed = 4
stage claimed = 5
stage refunded = 5

-- How a status may change: it stays or moves to a later stage, or it goes back and forth between
-- cancelled and a failed settlement, since a settlement may be given up and tried again.
abbrev pub may_become : EscrowStatus → EscrowStatus → Bool
may_become cancelled settlement_failed = true
may_become settlement_failed cancelled = true
may_become a b = same_status a b || ltb (stage a) (stage b)

pub record Advances (e e' : Escrow) : Type 0 where
  pub sound : IsSound e'
  pub same_terms : terms_of e' ≡ terms_of e
  pub forward : may_become e.status e'.status ≡ true

-- The statuses whose escrow may be removed.
abbrev pub IsClosed : EscrowStatus → Type 0
IsClosed t = (t ≡ claimed) ⊎ (t ≡ refunded) ⊎ (t ≡ cancelled)

-- How the entry of one job may change in a call.
abbrev pub Entry : Option Escrow → Option Escrow → Type 0
Entry none none = Unit
Entry none (some e') = IsSound e' × (e'.status ≡ pending_funding)
Entry (some e) none = IsClosed e.status
Entry (some e) (some e') = Advances e e'

pub record Moves (s s' : Contract) : Type 0 where
  pub unique : Distinct s'.escrows
  pub entry : (job_id : Text) → Entry (lookup job_id s.escrows) (lookup job_id s'.escrows)

-- A call that neither creates nor removes an entry.
abbrev pub Kept : Option Escrow → Option Escrow → Type 0
Kept none none = Unit
Kept (some e) (some e') = Advances e e'
Kept _ _ = ⊥

pub record Keeps (s s' : Contract) : Type 0 where
  pub unique : Distinct s'.escrows
  pub entry : (job_id : Text) → Kept (lookup job_id s.escrows) (lookup job_id s'.escrows)

abbrev pub Holds : Option Escrow → Type 0
Holds none = Unit
Holds (some e) = IsSound e

-- No job is stored twice, and every stored escrow is sound.
pub record Inv (s : Contract) : Type 0 where
  pub unique : Distinct s.escrows
  pub entry : (job_id : Text) → Holds (lookup job_id s.escrows)
