-- ===== src/Tests/Verdicts.antt =====
-- The verifiers' signatures at concrete inputs.
use near_escrow.Shared.Tests.{ℕ, ◌≤◌, ◌≡◌, refl, none, some, [], ◌∷◌, arith, ◌++◌}
use near_escrow.Shared.Maps.{lookup}
use near_escrow.Shared.Outcome.{ok, panic}
use near_escrow.Text.Bytes.{ascii, ◌==◌}
use near_escrow.Text.Decimal.{join}
use near_escrow.Text.Hex.{hex_decode, hex_decode_safe}
use near_escrow.Escrow.Types.{verifying, claimed, SignedVerdict, Escrow}
use near_escrow.Escrow.Host.{yield_resume, Env, Tx, Panic}
use near_escrow.Escrow.State.{Contract, schedule}
use near_escrow.Tests.Fixtures.{
  many, bob, key, signature, env_of, passing, verifier, escrow_at, contract_with,
}
use near_escrow.Escrow.Consensus.{
  resume_verification, resume_verification_multi, resume_yield, assert_not_consumed, scoped_message,
  count_from, count_valid_signatures, signature_counts,
}
use near_escrow.Escrow.Consensus.Quorum.{Backed, resume_verification_multi-Backed}
use near_escrow.Escrow.Consensus.Single.{resume_verification_ignores_threshold}
use near_escrow.Escrow.Consensus.Exact.{is_good, resume_verification_multi-exact}

abbrev after : Tx Contract → Contract
after (ok s) = s
after (panic _) = contract_with (escrow_at claimed none none)

abbrev judging : Escrow
judging = escrow_at verifying none (some key)

abbrev verifier_call : Env
verifier_call = env_of bob 0 [] (key ++ ascii ":v")

abbrev signed : SignedVerdict
signed = record {
  verdict_json = ascii "v";
  signatures = record { verifier_index = 0; signature = signature } ∷ [];
}

abbrev resumed : Contract
resumed = after (resume_verification_multi verifier_call key signed (contract_with judging))

resume_verification_multi-Backed_example :
    (n : ℕ) × Backed verifier_call
      (scoped_message key (ascii "v"))
      (verifier ∷ [])
      []
      signed.signatures
      n
    × (1 ≤ n)
unfolding resume_verification_multi count_valid_signatures count_from signature_counts resume_yield
    assert_not_consumed lookup ◌==◌ hex_decode hex_decode_safe join
resume_verification_multi-Backed_example =
    resume_verification_multi-Backed verifier_call key signed (contract_with judging) resumed refl

resume_verification_ignores_threshold_example :
    resume_verification verifier_call key
      (ascii "v")
      0
      signature
      (record (contract_with judging) { consensus_threshold = 2 })
    ≡ ok (
        schedule
          (yield_resume (many 32 170) (ascii "v"))
          (record (contract_with judging) { consensus_threshold = 2 }))
unfolding lookup ◌==◌ hex_decode hex_decode_safe join
resume_verification_ignores_threshold_example =
    resume_verification_ignores_threshold verifier_call key (ascii "v") signature (many 32 170)
      (many 32 170) 0 2 (contract_with judging) {v = verifier} refl refl refl refl refl refl refl
      refl refl refl

abbrev two_verifiers : Contract
two_verifiers = record (contract_with judging) {
  verifier_set = verifier ∷ verifier ∷ [];
  consensus_threshold = 2;
}

abbrev both : SignedVerdict
both = record {
  verdict_json = ascii "v";
  signatures =
      record { verifier_index = 1; signature = signature }
      ∷ record { verifier_index = 0; signature = signature }
      ∷ [];
}

resume_verification_multi-exact_example :
    resume_verification_multi verifier_call key both two_verifiers
    ≡ ok (schedule (yield_resume (many 32 170) (ascii "v")) two_verifiers)
unfolding is_good signature_counts assert_not_consumed lookup ◌==◌ hex_decode hex_decode_safe join
resume_verification_multi-exact_example =
    resume_verification_multi-exact verifier_call key (many 32 170) both passing two_verifiers
      ((some (many 32 170), refl), ((some (many 32 170), refl), tt)) refl (omega arith)
      (omega arith) refl refl refl refl

-- The same verifier's signature twice is one.
abbrev twice : SignedVerdict
twice = record {
  verdict_json = ascii "v";
  signatures =
      record { verifier_index = 1; signature = signature }
      ∷ record { verifier_index = 1; signature = signature }
      ∷ [];
}

twice_refused :
    resume_verification_multi verifier_call key twice two_verifiers
    ≡ panic Panic.insufficient_signatures
unfolding resume_verification_multi count_valid_signatures count_from signature_counts resume_yield
    lookup ◌==◌ hex_decode hex_decode_safe join
twice_refused = refl
