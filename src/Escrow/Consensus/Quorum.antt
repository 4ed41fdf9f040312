-- ===== src/Escrow/Consensus/Quorum.antt =====
-- What a verdict that several verifiers signed has behind it.
use near_escrow.Shared.Tests.{
  ℕ, suc, ◌+◌, ◌≤◌, ◌≡◌, true, false, inl, inr, List, [], ◌∷◌, arith, Bool-cases, Option-cases,
  none, some,
}
use near_escrow.Shared.Outcome.{ok, Outcome-cases}
use near_escrow.Shared.Lists.{get_elem?, length}
use near_escrow.Text.Bytes.{Text}
use near_escrow.Text.Hex.{hex_decode_safe}
use near_escrow.Escrow.Types.{VerifierInfo, VerifierSignature, SignedVerdict}
use near_escrow.Escrow.Host.{Env}
use near_escrow.Escrow.State.{Contract}
use near_escrow.Escrow.Consensus.{
  signature_counts, is_seen, count_from, count_valid_signatures, resume_verification_multi,
  scoped_message,
}

-- A signature of 64 bytes by an active verifier of the list: ed25519 verifies it for the message and
-- the verifier's key, whose hexadecimal text gives 32 bytes.
pub record IsSigned (env : Env) (message : Text) (verifiers : List VerifierInfo)
    (sig : VerifierSignature) : Type 0 where
  pub verifier : VerifierInfo
  pub key : Text
  pub listed : get_elem? verifiers sig.verifier_index ≡ some verifier
  pub working : verifier.active ≡ true
  pub decoded : hex_decode_safe verifier.public_key ≡ ok (some key)
  pub key_size : length key ≡ 32
  pub signature_size : length sig.signature ≡ 64
  pub verified : env.ed25519_verify sig.signature message key ≡ true

-- What the loop counts is signed.
signature_counts-IsSigned :
    (env : Env) (message : Text) (verifiers : List VerifierInfo) (sig : VerifierSignature)
    → signature_counts env message verifiers sig ≡ ok true
    → IsSigned env message verifiers sig
unfolding signature_counts
signature_counts-IsSigned env message verifiers sig h =
    elim (Option-cases (get_elem? verifiers sig.verifier_index)) [
      | inl out_of_range ↦ absurd (ground (arith, out_of_range))
      | inr (v, found) ↦ elim (Outcome-cases (hex_decode_safe v.public_key)) [
        | inl (none, undecoded) ↦ absurd (ground (arith, undecoded))
        | inl (some pk, decodes) ↦ record {
          verifier = v;
          key = pk;
          listed = found;
          working = ground (arith, decodes);
          decoded = decodes;
          key_size = ground (arith, decodes);
          signature_size = ground (arith, decodes);
          verified = ground (arith, decodes);
        }
        | inr (e, broken) ↦ absurd (ground (arith, broken))
      ]
    ]

-- `Backed … seen sigs n`: among the signatures are n that are signed, by verifiers that are all
-- different and not among those seen.
pub data Backed (env : Env) (message : Text) (verifiers : List VerifierInfo)
    : List ℕ → List VerifierSignature → ℕ → Type 0 where
  no_more : {seen : List ℕ} → Backed env message verifiers seen [] 0
  skip :
      {seen : List ℕ} {sigs : List VerifierSignature} {n : ℕ} (sig : VerifierSignature)
      → Backed env message verifiers seen sigs n
      → Backed env message verifiers seen (sig ∷ sigs) n
  pick :
      {seen : List ℕ} {sigs : List VerifierSignature} {n : ℕ} (sig : VerifierSignature)
      → is_seen sig.verifier_index seen ≡ false
      → IsSigned env message verifiers sig
      → Backed env message verifiers (sig.verifier_index ∷ seen) sigs n
      → Backed env message verifiers seen (sig ∷ sigs) (suc n)

-- Fewer verifiers seen leave more that may count.
Backed-fewer_seen :
    {env : Env} {message : Text} {verifiers : List VerifierInfo} {seen seen' : List ℕ}
    {sigs : List VerifierSignature} {n : ℕ}
    → ((i : ℕ) → is_seen i seen' ≡ false → is_seen i seen ≡ false)
    → Backed env message verifiers seen' sigs n
    → Backed env message verifiers seen sigs n
Backed-fewer_seen fewer no_more = no_more
Backed-fewer_seen fewer (skip sig b) = skip sig (Backed-fewer_seen fewer b)
Backed-fewer_seen fewer (pick sig fresh counts b) =
    pick sig (fewer sig.verifier_index fresh) counts
      (Backed-fewer_seen (λ i h. ground (arith, fewer i)) b)

abbrev CountsBacked :
    Env → Text → List VerifierInfo → List ℕ → ℕ → List VerifierSignature → ℕ → Type 0
CountsBacked env message verifiers seen valid sigs k =
    (n : ℕ) × Backed env message verifiers seen sigs n × (k ≡ valid + n)

-- The loop's result exceeds the count it starts from by a number of signatures that count.
count_from-Backed :
    (env : Env) (message : Text) (verifiers : List VerifierInfo) (seen : List ℕ) (valid : ℕ)
    (sigs : List VerifierSignature) (k : ℕ)
    → count_from env message verifiers seen valid sigs ≡ ok k
    → CountsBacked env message verifiers seen valid sigs k
unfolding count_from
count_from-Backed env message verifiers seen valid [] k h = (0, no_more, ground arith)
count_from-Backed env message verifiers seen valid (sig ∷ rest) k h =
    elim (Bool-cases (is_seen sig.verifier_index seen)) [
      | inl repeated ↦
          let (n, b, e) =
            count_from-Backed env message verifiers seen valid rest k (ground arith) in
          (n, skip sig b, e)
      | inr fresh ↦ elim (Outcome-cases (signature_counts env message verifiers sig)) [
        | inr (_, refused) ↦ ground arith
        | inl (true, counts) ↦
            let (n, b, e) =
              count_from-Backed env message verifiers (sig.verifier_index ∷ seen) (valid + 1) rest k
                (ground arith) in
            (
              suc n,
              pick sig fresh (signature_counts-IsSigned env message verifiers sig counts) b,
              omega (arith, e),
            )
        | inl (false, fails) ↦
            let (n, b, e) =
              count_from-Backed env message verifiers (sig.verifier_index ∷ seen) valid rest k
                (ground arith) in
            (n, skip sig (Backed-fewer_seen (λ i h'. ground arith) b), e)
      ]
    ]

-- A verdict that `resume_verification_multi` accepts is backed by at least the threshold of
-- signatures, each of 64 bytes and verified by ed25519 for the id with the verdict and the key of
-- 32 bytes of an active verifier of the set, no two of the same verifier.
pub resume_verification_multi-Backed :
    (env : Env) (data_id : Text) (signed : SignedVerdict) (s s' : Contract)
    → resume_verification_multi env data_id signed s ≡ ok s'
    → (n : ℕ) × Backed env
        (scoped_message data_id signed.verdict_json)
        s.verifier_set
        []
        signed.signatures
        n
      × (s.consensus_threshold ≤ n)
unfolding resume_verification_multi count_valid_signatures
resume_verification_multi-Backed env data_id signed s s' h =
    let message = scoped_message data_id signed.verdict_json in
    elim (Outcome-cases (count_from env message s.verifier_set [] 0 signed.signatures)) [
      | inr (_, refused) ↦ ground arith
      | inl (k, counted) ↦
          let (n, b, e) =
            count_from-Backed env message s.verifier_set [] 0 signed.signatures k counted in
          (n, b, ground (arith, e))
    ]
