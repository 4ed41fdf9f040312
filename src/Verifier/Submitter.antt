-- ===== src/Verifier/Submitter.antt =====
-- The calls of the contract over the NEAR RPC, verifier-service/src/submitter.rs.
use near_escrow.Shared.Tests.{
  ℕ, ◌*◌, ◌%◌, Bool, not, ◌||◌, Option, none, some, List, [], ◌∷◌, ◌++◌, nat_eq, if◌then◌else◌,
  add_u64, u64_mod, u8_mod,
}
use near_escrow.Shared.Lists.{length}
use near_escrow.Shared.Outcome.{ok, assert, expect, ◌>>=◌, ◌>>◌}
use near_escrow.Text.Bytes.{Text, ascii}
use near_escrow.Verifier.Config.{Config}
use near_escrow.Verifier.Host.{Try, error}
use near_escrow.Verifier.Base58.{bs58_encode}

-- The arguments of `resume_verification_multi`: one signature, of this verifier.
pub record ResumeArgs : Type 0 where
  pub data_id_hex : Text
  pub verdict_json : Text
  pub verifier_index : ℕ
  pub signature : Text

pub record Transaction : Type 0 where
  pub signer_id : Text
  pub public_key : Text
  pub nonce : ℕ  -- u64
  pub receiver_id : Text
  pub block_hash : Text
  pub method_name : Text
  pub call_args : Text  -- base64
  pub gas : ℕ  -- u64
  pub deposit : ℕ  -- u128

-- The requests made of the RPC.
pub data RpcRequest : Type 0 where
  view_access_key : (account_id public_key : Text) → RpcRequest
  final_block : RpcRequest
  call_function : (account_id method_name args_base64 : Text) → RpcRequest
  broadcast_tx_commit : Transaction → (signature : Text) → RpcRequest

-- The lookups made in the reply, each from its top: `result.nonce`, `header.hash`, whether there is
-- an `error`, a text at `status.SuccessValue`, an object `transaction_outcome`; and the numbers at
-- `result.result`, `none` for an entry that is no number.
pub record RpcReply : Type 0 where
  pub result_nonce : Option ℕ
  pub header_hash : Option Text
  pub has_error : Bool
  pub success_value : Bool
  pub has_outcome : Bool
  pub result_array : Option (List (Option ℕ))

-- The RPC and the encoders that the file takes from other crates.
pub record Rpc : Type 0 where
  pub call : RpcRequest → Option RpcReply
  pub decode_hex : Text → Option Text
  pub base64 : Text → Text
  pub public_key_of : Text → Text
  pub sign_with : Text → Text → Text
  pub render_tx : Transaction → Text

-- `s.strip_prefix("0x").unwrap_or(s)`
unfoldable pub strip_0x : Text → Text
strip_0x [] = []
strip_0x (a ∷ []) = a ∷ []
strip_0x (a ∷ b ∷ s) = if nat_eq a b'0' then if nat_eq b b'x' then s else a ∷ b ∷ s else a ∷ b ∷ s

abbrev pub near_key : Rpc → Text → Text
near_key rpc public_key = ascii "ed25519:" ++ rpc.base64 public_key

-- The verdict on the reply to the broadcast.
unfoldable pub tx_outcome : RpcReply → Try (Unit {0})
tx_outcome reply = do
  assert (not reply.has_error) error
  assert (reply.success_value || reply.has_outcome) error

-- The transaction that `send_transaction` signs, from the key's nonce and the block's hash.
unfoldable pub build_tx : Rpc → Config → Text → Text → ℕ → ℕ → Text → ℕ → Text → Transaction
build_tx rpc config method call_args gas_tgas deposit public_key nonce block_hash = record {
  signer_id = config.verifier_account_id;
  public_key = public_key;
  nonce = add_u64 nonce 1;
  receiver_id = config.escrow_account;
  block_hash = block_hash;
  method_name = method;
  call_args = rpc.base64 call_args;
  gas = (gas_tgas * 1000000000000) % u64_mod;
  deposit = deposit;
}

-- `send_transaction` up to the transaction: what it asks the RPC first.
unfoldable pub prepare_tx : Rpc → Config → Text → Text → ℕ → ℕ → Text → Try Transaction
prepare_tx rpc config method call_args gas_tgas deposit secret = do
  let public_key = near_key rpc (rpc.public_key_of secret)
  key_reply ← expect (rpc.call (view_access_key config.verifier_account_id public_key)) error
  nonce ← expect key_reply.result_nonce error
  block_reply ← expect (rpc.call final_block) error
  hash_hex ← expect block_reply.header_hash error
  block_hash ← expect (rpc.decode_hex (strip_0x hash_hex)) error
  encoded ← expect (bs58_encode block_hash) error
  ok (build_tx rpc config method call_args gas_tgas deposit public_key nonce encoded)

unfoldable pub send_transaction : Rpc → Config → Text → Text → ℕ → ℕ → Try (Unit {0})
send_transaction rpc config method call_args gas_tgas deposit = do
  secret ← expect (rpc.decode_hex (strip_0x config.secret_key_hex)) error
  assert (nat_eq (length secret) 32) error
  tx ← prepare_tx rpc config method call_args gas_tgas deposit secret
  let signature = ascii "ed25519:" ++ rpc.base64 (rpc.sign_with secret (rpc.render_tx tx))
  reply ← expect (rpc.call (broadcast_tx_commit tx signature)) error
  tx_outcome reply

-- 200 Tgas and no deposit; the rendering of the arguments is an argument.
unfoldable pub submit_verdict : Rpc → (ResumeArgs → Text) → Config → ResumeArgs → Try (Unit {0})
submit_verdict rpc render config a =
    send_transaction rpc config (ascii "resume_verification_multi") (render a) 200 0

-- `filter_map`: entries that are no number are dropped, the others cut to a byte.
unfoldable pub result_bytes : List (Option ℕ) → Text
result_bytes [] = []
result_bytes (none ∷ rest) = result_bytes rest
result_bytes (some n ∷ rest) = n % u8_mod ∷ result_bytes rest

-- `view_function`, up to the parse of the bytes that it returns.
unfoldable pub view_function : Rpc → Config → Text → Text → Try Text
view_function rpc config method call_args = do
  reply ←
      expect (rpc.call (call_function config.escrow_account method (rpc.base64 call_args))) error
  assert (not reply.has_error) error
  array ← expect reply.result_array error
  ok (result_bytes array)
