-- ===== src/Escrow/Verdict.antt =====
-- The yield's callback, `verification_callback`: a verdict, a malformed payload or a timeout
-- decides the settlement.
pub mod Decision
use near_escrow.Shared.Tests.{
  ℕ, ◌%◌, Bool, true, false, Option, none, some, List, [], ◌∷◌, leb, ◌&&◌, not, if◌then◌else◌,
  u8_mod, unwrap_or,
}
use near_escrow.Shared.Maps.{Map, lookup, insert, remove}
use near_escrow.Shared.Outcome.{ok, panic, expect, ◌>>=◌, ◌>>◌}
use near_escrow.Text.Bytes.{Text, ascii}
use near_escrow.Text.Hex.{hex_encode}
use near_escrow.Escrow.Types.{
  VerifierVerdict, EscrowStatus, verifying, same_status, SettlementTarget, claim, refund,
  full_refund, Escrow,
}
use near_escrow.Escrow.Host.{PromiseResult, successful, failed, Payload, Env, transfer, Tx, Panic}
use near_escrow.Escrow.State.{Contract, put_escrow, schedule}
use near_escrow.Escrow.Settle.{assert_private, settle_escrow}

-- The verdict read from a payload: a pass needs the threshold, whatever the payload says.
unfoldable pub verdict_of : Escrow → Payload → VerifierVerdict
verdict_of e p =
    let score = unwrap_or p.score 0 % u8_mod in
    record {
      score = score;
      passed = unwrap_or p.passed false && leb e.score_threshold score;
      detail = unwrap_or p.detail (ascii "no detail");
    }

abbrev pub target_of : Bool → SettlementTarget
target_of true = claim
target_of false = refund

-- Without a verdict the stake is set aside for a worker key, or sent to the worker's account.
unfoldable pub release_stake : Escrow → Contract → Escrow × Contract
release_stake e s = elim e.worker_stake [
  | none ↦ (record e { worker_stake = none }, s)
  | some stake ↦ elim e.worker_pubkey [
    | some _ ↦ (record e { pending_stake_refund = some stake; worker_stake = none }, s)
    | none ↦ elim e.worker [
      | none ↦ (record e { worker_stake = none }, s)
      | some worker ↦ (record e { worker_stake = none }, schedule (transfer worker stake) s)
    ]
  ]
]

unfoldable pub full_refund_without_verdict : Escrow → Contract → Escrow × Contract
full_refund_without_verdict e s =
    let (e', s') = release_stake e s in
    (record e' { verdict = none; settlement_target = some full_refund }, s')

-- The three outcomes of the yield: a readable payload, an unreadable one, a timeout.
unfoldable pub decide : Env → PromiseResult → Escrow → Contract → Escrow × Contract
decide env (successful payload) e s = elim (env.parse_payload payload) [
  | some p ↦
      let verdict = verdict_of e p in
      (record e { verdict = some verdict; settlement_target = some (target_of verdict.passed) }, s)
  | none ↦ full_refund_without_verdict e s
]
decide env failed e s = full_refund_without_verdict e s

-- The index entry of the escrow's yield is dropped.
unfoldable pub forget_data_id : Option Text → Map Text → Map Text
forget_data_id none index = index
forget_data_id (some data_id) index = remove (hex_encode data_id) index

-- The callback once its promise result and escrow are read.
unfoldable pub settle_verdict : Env → Text → PromiseResult → Escrow → Contract → Tx Contract
settle_verdict env job_id result e s =
    let (e', s') = decide env result (record e { yield_consumed = true }) s in
    settle_escrow job_id (
      put_escrow job_id (record e' { data_id = none })
        (record s' { data_id_index = forget_data_id e'.data_id s'.data_id_index }))

abbrev pub first_result : List PromiseResult → Tx PromiseResult
first_result [] = panic Panic.callback_only
first_result (result ∷ _) = ok result

unfoldable pub verification_callback : Env → Text → Contract → Tx Contract
verification_callback env job_id s = do
  assert_private env
  result ← first_result env.promise_results
  e ← expect (lookup job_id s.escrows) Panic.escrow_not_found
  if not (same_status e.status verifying) then ok s else settle_verdict env job_id result e s
