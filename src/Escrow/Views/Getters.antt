-- ===== src/Escrow/Views/Getters.antt =====
-- The getters of single fields, `migrate`, and the debug methods.
use near_escrow.Shared.Tests.{
  ℕ, Bool, true, false, not, ◌||◌, ◌≡◌, inl, inr, Option, none, some, List, nat_eq, arith,
  if◌then◌else◌, Option-cases,
}
use near_escrow.Shared.Lists.{length, get_elem?}
use near_escrow.Shared.Outcome.{ok, assert, ◌>>◌}
use near_escrow.Text.Bytes.{Text}
use near_escrow.Escrow.Types.{VerifierInfo}
use near_escrow.Escrow.Host.{Env, Tx, Panic}
use near_escrow.Escrow.State.{Contract}
use near_escrow.Escrow.Settle.{assert_private}
use near_escrow.Escrow.Consensus.{resume_verification, scoped_message}

abbrev get_verifier_set : Contract → List VerifierInfo
get_verifier_set s = s.verifier_set

abbrev get_pending_owner : Contract → Option Text
get_pending_owner s = s.pending_owner

abbrev is_paused : Contract → Bool
is_paused s = s.paused

abbrev get_allowed_tokens : Contract → List Text
get_allowed_tokens s = s.allowed_tokens

abbrev get_owner : Contract → Text
get_owner s = s.owner

abbrev get_storage_deposit : Contract → ℕ
get_storage_deposit s = s.storage_deposit_yocto

abbrev get_worker_stake : Contract → ℕ
get_worker_stake s = s.worker_stake_yocto

-- It is private, asks for a stored state and changes nothing.
abbrev migrate : Env → Contract → Tx Contract
migrate env s = do assert_private env; assert env.state_exists Panic.no_state; ok s

abbrev debug_current_account_id : Env → Text
debug_current_account_id env = env.current_account

unfoldable debug_ed25519_verify : Env → Text → Text → Text → Bool
debug_ed25519_verify env pubkey signature message =
    if not (nat_eq (length pubkey) 32) || not (nat_eq (length signature) 64)
    then false
    else env.ed25519_verify signature message pubkey

-- A key that is not hexadecimal verifies nothing.
unfoldable debug_ed25519_verify_hex : Env → Text → Text → Text → Bool
debug_ed25519_verify_hex env pubkey_hex signature message = elim (env.decode_hex pubkey_hex) [
  | none ↦ false
  | some pk_bytes ↦ debug_ed25519_verify env pk_bytes signature message
]

-- What a single verifier's resumption accepts, the debug method verifies: for the verifier's key,
-- the signature and the message scoped to the yield.
resume_verification-debug :
    (env : Env) (data_id verdict signature : Text) (i : ℕ) (s s' : Contract)
    → resume_verification env data_id verdict i signature s ≡ ok s'
    → (v : VerifierInfo) × (get_elem? s.verifier_set i ≡ some v)
      × (debug_ed25519_verify_hex env v.public_key signature (scoped_message data_id verdict)
          ≡ true)
unfolding resume_verification debug_ed25519_verify debug_ed25519_verify_hex
resume_verification-debug env data_id verdict signature i s s' h =
    elim (Option-cases (get_elem? s.verifier_set i)) [
      | inl missing ↦ ground (arith, missing)
      | inr (v, found) ↦ elim (Option-cases (env.decode_hex v.public_key)) [
        | inl unread ↦ ground (arith, found, unread)
        | inr (pk, read) ↦ (v, found, ground (arith, found, read))
      ]
    ]
