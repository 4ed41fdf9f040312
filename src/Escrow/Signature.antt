-- ===== src/Escrow/Signature.antt =====
-- `verify_worker_signature`, and the messages that a worker signs.
use near_escrow.Shared.Tests.{ℕ, nat_eq}
use near_escrow.Shared.Lists.{length}
use near_escrow.Shared.Outcome.{assert, expect, ◌>>=◌, ◌>>◌}
use near_escrow.Text.Bytes.{Text, ascii}
use near_escrow.Text.Hex.{hex_decode}
use near_escrow.Text.Decimal.{decimal, join}
use near_escrow.Escrow.Host.{Env, Tx, Panic}

unfoldable pub verify_worker_signature : Env → Text → Text → Text → Tx (Unit {0})
verify_worker_signature env pubkey_hex message signature = do
  pk ← expect (hex_decode pubkey_hex) Panic.invalid_hex
  assert (nat_eq (length pk) 32) Panic.bad_pubkey_length
  assert (nat_eq (length signature) 64) Panic.bad_signature_length
  assert (env.ed25519_verify signature message pk) Panic.invalid_signature

-- "{contract}:withdraw:{token}:{amount}:{to}:{nonce}"
unfoldable pub withdraw_message : Env → Text → ℕ → Text → ℕ → Text
withdraw_message env token amount to nonce =
    join
      (join (join (join (join env.current_account (ascii "withdraw")) token) (decimal amount)) to)
      (decimal nonce)

-- "link:{account}:{nonce}": the contract's own name is not part of it.
unfoldable pub link_message : Text → ℕ → Text
link_message near_account_id nonce = join (join (ascii "link") near_account_id) (decimal nonce)

-- "{contract}:{verb}:{job_id}:{nonce}"
unfoldable pub job_message : Env → Text → Text → ℕ → Text
job_message env verb job_id nonce =
    join (join (join env.current_account verb) job_id) (decimal nonce)
