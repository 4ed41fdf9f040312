-- ===== src/Escrow/Consensus.antt =====
-- The verifiers' signatures: `count_valid_signatures`, `resume_verification_multi` and
-- `resume_verification`.
pub mod Quorum
pub mod Single
pub mod Exact
use near_escrow.Shared.Tests.{
  ℕ, ◌+◌, ◌%◌, Bool, true, false, Option, none, some, List, [], ◌∷◌, leb, nat_eq, not, ◌&&◌,
  if◌then◌else◌, u8_mod,
}
use near_escrow.Shared.Lists.{length, get_elem?, is_empty, any}
use near_escrow.Shared.Maps.{lookup}
use near_escrow.Shared.Outcome.{ok, panic, assert, expect, ◌>>=◌, ◌>>◌}
use near_escrow.Text.Bytes.{Text}
use near_escrow.Text.Hex.{hex_decode, hex_decode_safe}
use near_escrow.Text.Decimal.{join}
use near_escrow.Escrow.Types.{VerifierInfo, VerifierSignature, SignedVerdict, Escrow}
use near_escrow.Escrow.Host.{Env, Tx, Panic, yield_resume}
use near_escrow.Escrow.State.{Contract, schedule}

-- The checks on a stored key and a signature, once the verifier is known and active.
signature_holds : Env → Text → Text → Text → Tx Bool
signature_holds env message public_key signature = elim (hex_decode_safe public_key) [
  | panic _ ↦ panic Panic.slice_boundary
  | ok none ↦ ok false
  | ok (some pk) ↦ ok (
      nat_eq (length pk) 32
      && nat_eq (length signature) 64
      && env.ed25519_verify signature message pk)
]

-- One round of the loop for an index that was not seen: does this signature count?
unfoldable pub signature_counts : Env → Text → List VerifierInfo → VerifierSignature → Tx Bool
unfolding signature_holds
signature_counts env message verifiers sig = elim (get_elem? verifiers sig.verifier_index) [
  | none ↦ ok false
  | some v ↦ if v.active then signature_holds env message v.public_key sig.signature else ok false
]

abbrev pub is_seen : ℕ → List ℕ → Bool
is_seen i seen = any (λ j. nat_eq i j) seen

-- The loop over the signatures, with the indices seen and the count so far.
unfoldable pub count_from :
    Env → Text → List VerifierInfo → List ℕ → ℕ → List VerifierSignature → Tx ℕ
count_from env message verifiers seen valid [] = ok valid
count_from env message verifiers seen valid (sig ∷ rest) = elim (is_seen sig.verifier_index seen) [
  | true ↦ count_from env message verifiers seen valid rest
  | false ↦ elim (signature_counts env message verifiers sig) [
    | ok counts ↦
        count_from env message verifiers (sig.verifier_index ∷ seen)
          (if counts then valid + 1 else valid) rest
    | panic e ↦ panic e
  ]
]

-- The count is cast to `u8` at the end.
unfoldable pub count_valid_signatures : Env → Text → List VerifierSignature → Contract → Tx ℕ
count_valid_signatures env message signatures s = do
  valid ← count_from env message s.verifier_set [] 0 signatures
  ok (valid % u8_mod)

-- The guard against a second resumption, which applies where the index knows the yield.
unfoldable pub assert_not_consumed : Text → Contract → Tx (Unit {0})
assert_not_consumed data_id_hex s = elim (lookup data_id_hex s.data_id_index) [
  | none ↦ ok tt
  | some job_id ↦ do
    e ← expect (lookup job_id s.escrows) Panic.escrow_vanished
    assert (not e.yield_consumed) Panic.yield_consumed
]

-- The common end of both: decode the id and resume the yield with the verdict.
unfoldable pub resume_yield : Text → Text → Contract → Tx Contract
unfolding assert_not_consumed
resume_yield data_id_hex payload s = do
  assert_not_consumed data_id_hex s
  assert (nat_eq (length data_id_hex) 64) Panic.data_id_length
  data_id ← expect (hex_decode data_id_hex) Panic.invalid_hex
  ok (schedule (yield_resume data_id payload) s)

-- "{data_id}:{verdict}", what a verifier signs.
abbrev pub scoped_message : Text → Text → Text
scoped_message data_id_hex verdict_json = join data_id_hex verdict_json

unfoldable pub resume_verification_multi : Env → Text → SignedVerdict → Contract → Tx Contract
resume_verification_multi env data_id_hex signed s = do
  assert (not (is_empty s.verifier_set)) Panic.no_verifiers
  assert (leb (length signed.signatures) (length s.verifier_set)) Panic.too_many_signatures
  valid_sigs ←
      count_valid_signatures env (scoped_message data_id_hex signed.verdict_json) signed.signatures
        s
  assert (leb s.consensus_threshold valid_sigs) Panic.insufficient_signatures
  expect (env.parse_verdict signed.verdict_json) Panic.invalid_verdict_json >>= λ _.
      resume_yield data_id_hex signed.verdict_json s

unfoldable pub resume_verification : Env → Text → Text → ℕ → Text → Contract → Tx Contract
resume_verification env data_id_hex verdict_json verifier_index signature s = do
  assert (not (is_empty s.verifier_set)) Panic.no_verifiers
  verifier ← expect (get_elem? s.verifier_set verifier_index) Panic.bad_verifier_index
  assert verifier.active Panic.verifier_inactive
  assert (nat_eq (length signature) 64) Panic.bad_signature_length
  pubkey ← expect (env.decode_hex verifier.public_key) Panic.bad_pubkey_hex
  assert (nat_eq (length pubkey) 32) Panic.bad_pubkey_length
  assert (env.ed25519_verify signature (scoped_message data_id_hex verdict_json) pubkey)
      Panic.invalid_signature
  resume_yield data_id_hex verdict_json s
