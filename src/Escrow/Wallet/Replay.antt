-- ===== src/Escrow/Wallet/Replay.antt =====
-- A withdrawal's effect on the wallet, and its repetition.
use near_escrow.Shared.Tests.{
  ℕ, ◌+◌, ◌<◌, ◌≡◌, ◌∙◌, ap, true, inl, inr, some, arith, Option-cases, u64_mod,
}
use near_escrow.Shared.Lists.{length}
use near_escrow.Shared.Maps.{lookup, insert, lookup-insert_self}
use near_escrow.Shared.Outcome.{ok}
use near_escrow.Text.Bytes.{Text, ascii}
use near_escrow.Escrow.Types.{WorkerAccount}
use near_escrow.Text.Hex.{hex_decode}
use near_escrow.Text.Decimal.{decimal, join, join-decimal_injective}
use near_escrow.Escrow.Signature.{verify_worker_signature, withdraw_message}
use near_escrow.Escrow.Host.{Env}
use near_escrow.Escrow.State.{Contract}
use near_escrow.Escrow.Balances.{debit_balance}
use near_escrow.Escrow.Wallet.{next_nonce, withdraw}

-- A withdrawal that succeeds is signed over the contract, token, amount, receiver and the worker's
-- nonce, takes the amount out of the worker's balance, raises the nonce, schedules one promise and
-- keeps the escrows.
pub withdraw-effect :
    (env : Env) (key token : Text) (amount : ℕ) (to signature : Text) (s s' : Contract)
    {w : WorkerAccount}
    → lookup key s.workers ≡ some w
    → withdraw env key token amount to signature s ≡ ok s'
    → (verify_worker_signature env key (withdraw_message env token amount to w.nonce) signature
        ≡ ok tt)
      × (debit_balance s.balances key token amount ≡ ok s'.balances)
      × (s'.workers ≡ insert key (next_nonce w) s.workers)
      × (length s'.promises ≡ length s.promises + 1)
      × (s'.escrows ≡ s.escrows)
unfolding withdraw
withdraw-effect env key token amount to signature s s' {w} registered h =
    (ground arith, ground arith, ground arith, ground arith, ground arith)

-- The same withdrawal, with the same signature, does not succeed on the state that it leaves, when
-- the worker's nonce is below its last value and the signature verifies for one message only.
pub withdraw_not_replayed :
    (env : Env) (key token : Text) (amount : ℕ) (to signature : Text) (s s' s'' : Contract)
    {w : WorkerAccount}
    → lookup key s.workers ≡ some w
    → w.nonce + 1 < u64_mod
    → ((m m' pk : Text)
        → env.ed25519_verify signature m pk ≡ true
        → env.ed25519_verify signature m' pk ≡ true
        → m ≡ m')
    → withdraw env key token amount to signature s ≡ ok s'
    → ¬ (withdraw env key token amount to signature s' ≡ ok s'')
unfolding verify_worker_signature withdraw_message
withdraw_not_replayed env key token amount to signature s s' s'' {w} registered below once h again =
    let (signed, _, bumped, _, _) =
      withdraw-effect env key token amount to signature s s' registered h in
    let registered' : lookup key s'.workers ≡ some (next_nonce w) =
      ap (lookup key) bumped ∙ lookup-insert_self key (next_nonce w) s.workers in
    let (signed', _, _, _, _) =
      withdraw-effect env key token amount to signature s' s'' registered' again in
    elim (Option-cases (hex_decode key)) [
      | inl bad ↦ ground (arith, signed)
      | inr (pk, decoded) ↦
          let same =
            once (withdraw_message env token amount to w.nonce)
              (withdraw_message env token amount to (next_nonce w).nonce) pk
              (ground (arith, signed, decoded)) (ground (arith, signed', decoded)) in
          let equal =
            join-decimal_injective
              (join
                (join (join (join env.current_account (ascii "withdraw")) token) (decimal amount))
                to)
              w.nonce (next_nonce w).nonce (ground arith) (ground arith) same in
          ground (arith, equal)
    ]
