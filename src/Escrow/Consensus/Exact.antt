-- ===== src/Escrow/Consensus/Exact.antt =====
-- The verdict on signatures, exactly: the loop's count against its description as a filter.
use near_escrow.Shared.Tests.{
  none, ℕ, zero, suc, ◌+◌, ◌%◌, ◌≤◌, ◌<◌, ◌≡◌, ◌∙◌, refl, ap, Bool, true, false, not, ◌&&◌, Option,
  some, List, [], ◌∷◌, inl, inr, arith, leb, nat_eq, if◌then◌else◌, Bool-cases, Option-cases,
}
use near_escrow.Shared.Lists.{length, select, get_elem?, is_empty, length-select-le}
use near_escrow.Shared.Outcome.{Outcome, ok, panic}
use near_escrow.Text.Bytes.{Text}
use near_escrow.Text.Hex.{SliceError, hex_decode, hex_decode_safe}
use near_escrow.Escrow.Types.{VerifierInfo, VerifierSignature, SignedVerdict, VerifierVerdict}
use near_escrow.Escrow.Host.{Env, Panic, yield_resume}
use near_escrow.Escrow.State.{Contract, schedule}
use near_escrow.Escrow.Consensus.{
  signature_counts, is_seen, count_from, count_valid_signatures, assert_not_consumed, resume_yield,
  scoped_message, resume_verification_multi,
}

-- Of the signatures with one index, the first.
abbrev pub one_each : List VerifierSignature → List VerifierSignature
one_each [] = []
one_each (sig ∷ sigs) =
    sig ∷ select (λ o. not (nat_eq o.verifier_index sig.verifier_index)) (one_each sigs)

-- A signature of 64 bytes that ed25519 verifies for the message and a key of 32 bytes.
abbrev pub verifies : Env → Text → Text → Outcome SliceError (Option Text) → Bool
verifies env message signature (ok (some key)) =
    nat_eq (length signature) 64
    && nat_eq (length key) 32
    && env.ed25519_verify signature message key
verifies env message signature (ok none) = false
verifies env message signature (panic _) = false

-- A signature that names an active verifier and verifies for its key.
unfoldable pub is_good : Env → Text → List VerifierInfo → VerifierSignature → Bool
is_good env message verifiers sig = elim (get_elem? verifiers sig.verifier_index) [
  | none ↦ false
  | some v ↦ v.active && verifies env message sig.signature (hex_decode_safe v.public_key)
]

-- The keys' texts can be sliced, as hexadecimal ones can.
abbrev pub KeysReadable : List VerifierInfo → Type 0
KeysReadable [] = Unit
KeysReadable (v ∷ vs) =
    ((key : Option Text) × (hex_decode_safe v.public_key ≡ ok key)) × KeysReadable vs

readable_at :
    (vs : List VerifierInfo) (i : ℕ) (v : VerifierInfo)
    → KeysReadable vs
    → get_elem? vs i ≡ some v
    → (key : Option Text) × (hex_decode_safe v.public_key ≡ ok key)
readable_at [] i v k h = ground arith
readable_at (u ∷ vs) zero v k h = ground (arith, k.0)
readable_at (u ∷ vs) (suc i) v k h = readable_at vs i v k.1 h

signature_counts-is_good :
    (env : Env) (message : Text) (verifiers : List VerifierInfo) (sig : VerifierSignature)
    → KeysReadable verifiers
    → signature_counts env message verifiers sig ≡ ok (is_good env message verifiers sig)
unfolding signature_counts is_good
signature_counts-is_good env message verifiers sig k =
    elim (Option-cases (get_elem? verifiers sig.verifier_index)) [
      | inl out_of_range ↦ ground (arith, out_of_range)
      | inr (v, found) ↦
          let (key, readable) = readable_at verifiers sig.verifier_index v k found in
          ground (arith, found, readable)
    ]

module _ {ℓ} {A : Type ℓ} where
  select-ext : (p q : A → Bool) → ((x : A) → p x ≡ q x) → (xs : List A) → select p xs ≡ select q xs
  select-ext p q h [] = refl
  select-ext p q h (x ∷ xs) = ground (arith, h x, select-ext p q h xs)

  select-select :
      (p q : A → Bool) (xs : List A) → select p (select q xs) ≡ select (λ x. q x && p x) xs
  select-select p q [] = refl
  select-select p q (x ∷ xs) = ground (arith, select-select p q xs)

abbrev unseen : List ℕ → List VerifierSignature → List VerifierSignature
unseen seen = select (λ o. not (is_seen o.verifier_index seen))

seen_covers :
    (j i : ℕ) (seen : List ℕ)
    → is_seen i seen ≡ true
    → not (nat_eq j i) && not (is_seen j seen) ≡ not (is_seen j seen)
seen_covers j i seen h = elim (Bool-cases (nat_eq j i)) [
  | inl same ↦ let one : j ≡ i = ground (arith, same) in rw one (ground (arith, h))
  | inr other ↦ ground (arith, other)
]

-- A signature of an index that was seen hides none that was not.
unseen-seen :
    (i : ℕ) (seen : List ℕ) (sigs : List VerifierSignature)
    → is_seen i seen ≡ true
    → unseen seen (select (λ o. not (nat_eq o.verifier_index i)) sigs) ≡ unseen seen sigs
unseen-seen i seen sigs h =
    select-select (λ o. not (is_seen o.verifier_index seen)) (λ o. not (nat_eq o.verifier_index i))
      sigs
    ∙ select-ext (λ o. not (nat_eq o.verifier_index i) && not (is_seen o.verifier_index seen))
        (λ o. not (is_seen o.verifier_index seen)) (λ o. seen_covers o.verifier_index i seen h) sigs

unseen-fresh :
    (i : ℕ) (seen : List ℕ) (sigs : List VerifierSignature)
    → unseen seen (select (λ o. not (nat_eq o.verifier_index i)) sigs) ≡ unseen (i ∷ seen) sigs
unseen-fresh i seen sigs =
    select-select (λ o. not (is_seen o.verifier_index seen)) (λ o. not (nat_eq o.verifier_index i))
      sigs
    ∙ select-ext (λ o. not (nat_eq o.verifier_index i) && not (is_seen o.verifier_index seen))
        (λ o. not (is_seen o.verifier_index (i ∷ seen))) (λ o. ground arith) sigs

count_from-exact :
    (env : Env) (message : Text) (verifiers : List VerifierInfo) (seen : List ℕ) (valid : ℕ)
    (sigs : List VerifierSignature)
    → KeysReadable verifiers
    → count_from env message verifiers seen valid sigs
      ≡ ok (valid + length (select (is_good env message verifiers) (unseen seen (one_each sigs))))
unfolding count_from
count_from-exact env message verifiers seen valid [] k = ap ok (omega arith)
count_from-exact env message verifiers seen valid (sig ∷ sigs) k =
    let i = sig.verifier_index in
    elim (Bool-cases (is_seen i seen)) [
      | inl repeated ↦
          let rest = count_from-exact env message verifiers seen valid sigs k in
          rw (repeated, count_from) (rw (unseen-seen i seen (one_each sigs) repeated) rest)
      | inr fresh ↦
          let counts = signature_counts-is_good env message verifiers sig k in
          let add = λ (n : ℕ). count_from-exact env message verifiers (i ∷ seen) n sigs k in
          rw (fresh, counts, count_from, unseen-fresh i seen (one_each sigs))
            (elim (Bool-cases (is_good env message verifiers sig)) [
              | inl good ↦ rw good (add (valid + 1) ∙ ap ok (omega arith))
              | inr bad ↦ rw bad (add valid)
            ])
    ]

length-one_each-le : (sigs : List VerifierSignature) → length (one_each sigs) ≤ length sigs
length-one_each-le [] = omega arith
length-one_each-le (sig ∷ sigs) =
    let others = λ (o : VerifierSignature). not (nat_eq o.verifier_index sig.verifier_index) in
    omega (arith, length-select-le others (one_each sigs), length-one_each-le sigs)

unseen_none : (sigs : List VerifierSignature) → unseen [] sigs ≡ sigs
unseen_none [] = refl
unseen_none (sig ∷ sigs) = ap (λ r. sig ∷ r) (unseen_none sigs)

-- Fewer than 256 signatures: the cast of the count to a byte loses nothing.
count_valid_signatures-exact :
    (env : Env) (message : Text) (sigs : List VerifierSignature) (s : Contract)
    → KeysReadable s.verifier_set
    → length sigs < 256
    → count_valid_signatures env message sigs s
      ≡ ok (length (select (is_good env message s.verifier_set) (one_each sigs)))
unfolding count_valid_signatures
count_valid_signatures-exact env message sigs s k small =
    let good = is_good env message s.verifier_set in
    let fits : (0 + length (select good (one_each sigs))) % 256
        ≡ length (select good (one_each sigs)) =
      omega (arith, length-select-le good (one_each sigs), length-one_each-le sigs) in
    rw (count_from-exact env message s.verifier_set [] 0 sigs k, unseen_none (one_each sigs))
      (ap ok fits)

-- With readable keys, a verdict that parses, for a well-formed id that is not used up, with no more
-- signatures than there are verifiers and fewer than 256 of them, resumes the yield with that
-- verdict exactly when, of the first signatures of each index, those that verify for an active
-- verifier reach the threshold; else the call panics for want of signatures.
pub resume_verification_multi-exact :
    (env : Env) (data_id : Text) (id : Text) (signed : SignedVerdict) (v : VerifierVerdict)
    (s : Contract)
    → KeysReadable s.verifier_set
    → is_empty s.verifier_set ≡ false
    → length signed.signatures ≤ length s.verifier_set
    → length signed.signatures < 256
    → env.parse_verdict signed.verdict_json ≡ some v
    → length data_id ≡ 64
    → hex_decode data_id ≡ some id
    → assert_not_consumed data_id s ≡ ok tt
    → let message = scoped_message data_id signed.verdict_json in
      let good = select (is_good env message s.verifier_set) (one_each signed.signatures) in
      resume_verification_multi env data_id signed s ≡ (
        if leb s.consensus_threshold (length good)
        then ok (schedule (yield_resume id signed.verdict_json) s)
        else panic Panic.insufficient_signatures)
unfolding resume_verification_multi count_valid_signatures resume_yield
resume_verification_multi-exact env data_id id signed v s k some_verifier few small parsed sized
      decoded free =
    let counted =
      count_valid_signatures-exact env (scoped_message data_id signed.verdict_json)
        signed.signatures s k small in
    ground (arith, counted)
