-- ===== src/Escrow/Consensus/Single.antt =====
-- What a single verifier's signature is enough for.
use near_escrow.Shared.Tests.{ℕ, ◌≡◌, true, false, none, some, arith}
use near_escrow.Shared.Lists.{length, get_elem?, is_empty}
use near_escrow.Shared.Maps.{lookup}
use near_escrow.Shared.Outcome.{ok}
use near_escrow.Text.Bytes.{Text}
use near_escrow.Text.Hex.{hex_decode}
use near_escrow.Escrow.Types.{VerifierInfo}
use near_escrow.Escrow.Host.{Env, yield_resume}
use near_escrow.Escrow.State.{Contract, schedule}
use near_escrow.Escrow.Consensus.{
  resume_verification, resume_yield, assert_not_consumed, scoped_message,
}

-- A single active verifier's valid signature, on a well-formed id that the index does not know,
-- resumes the yield with that verdict, whatever the consensus threshold is.
pub resume_verification_ignores_threshold :
    (env : Env) (data_id verdict_json signature pubkey bytes : Text) (index threshold : ℕ)
    (s : Contract) {v : VerifierInfo}
    → get_elem? s.verifier_set index ≡ some v
    → is_empty s.verifier_set ≡ false
    → v.active ≡ true
    → length signature ≡ 64
    → env.decode_hex v.public_key ≡ some pubkey
    → length pubkey ≡ 32
    → env.ed25519_verify signature (scoped_message data_id verdict_json) pubkey ≡ true
    → lookup data_id s.data_id_index ≡ none
    → length data_id ≡ 64
    → hex_decode data_id ≡ some bytes
    → resume_verification env data_id verdict_json index signature
        (record s { consensus_threshold = threshold })
      ≡ ok (
          schedule (yield_resume bytes verdict_json) (record s { consensus_threshold = threshold }))
unfolding resume_verification resume_yield assert_not_consumed
resume_verification_ignores_threshold env data_id verdict_json signature pubkey bytes index
      threshold s found some_verifiers active long key key_long valid unknown id_long decoded =
    ground arith
