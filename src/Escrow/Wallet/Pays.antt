-- ===== src/Escrow/Wallet/Pays.antt =====
-- Where the money of a withdrawal goes.
use near_escrow.Shared.Tests.{
  ℕ, ◌+◌, ◌-◌, ◌≤◌, ◌≡◌, ◌≢◌, ◌⊎◌, true, inl, inr, some, ◌∷◌, arith, Bool-cases, Option-cases,
  if◌then◌else◌,
}
use near_escrow.Shared.Maps.{lookup}
use near_escrow.Shared.Outcome.{ok}
use near_escrow.Text.Bytes.{Text, ◌==◌, ==→eq, ==_refl}
use near_escrow.Text.Hex.{hex_decode}
use near_escrow.Escrow.Types.{WorkerAccount}
use near_escrow.Escrow.Signature.{verify_worker_signature, withdraw_message}
use near_escrow.Escrow.Host.{Env, transfer, ft_transfer}
use near_escrow.Escrow.State.{Contract}
use near_escrow.Escrow.Balances.{near_token_id, balance_key, debit_balance}
use near_escrow.Escrow.Balances.Accounts.{
  IsKey, holding, same_account, holding-debit_balance, deposits, deposits-insert,
}
use near_escrow.Escrow.Wallet.{withdraw}
use near_escrow.Escrow.Wallet.Replay.{withdraw-effect}

deposits-debit_balance :
    (s s' : Contract) (key token : Text) (amount : ℕ)
    → debit_balance s.balances key token amount ≡ ok s'.balances
    → deposits s'.balances + amount ≡ deposits s.balances
unfolding debit_balance holding
deposits-debit_balance s s' key token amount h = ground (
  arith,
  deposits-insert (balance_key key token) (holding s.balances key token - amount) s.balances,
)

-- A withdrawal that succeeds, of a worker whose key has 64 bytes, carries a signature that ed25519
-- verifies for the decoded key and the contract's withdrawal message; it takes the amount, which
-- was covered, out of that worker's account in that token and out of the sum of all balances,
-- leaves every other account of such a key and the escrows alone, and adds one promise: the
-- transfer of that amount of that token, NEAR or another, to the receiver.
pub withdraw-pays :
    (env : Env) (key token : Text) (amount : ℕ) (to signature : Text) (s s' : Contract)
    (key' token' : Text) {w : WorkerAccount}
    → IsKey key
    → IsKey key'
    → lookup key s.workers ≡ some w
    → withdraw env key token amount to signature s ≡ ok s'
    → ((pk : Text) × (hex_decode key ≡ some pk)
        × (env.ed25519_verify signature (withdraw_message env token amount to w.nonce) pk ≡ true))
      × (amount ≤ holding s.balances key token)
      × (holding s'.balances key' token' ≡ (
          if same_account key token key' token'
          then holding s.balances key token - amount
          else holding s.balances key' token'))
      × (deposits s'.balances + amount ≡ deposits s.balances)
      × (((token ≡ near_token_id) × (s'.promises ≡ transfer to amount ∷ s.promises))
          ⊎ ((token ≢ near_token_id)
              × (s'.promises
                  ≡ ft_transfer (record { token = token; receiver = to; amount = amount })
                    ∷ s.promises)))
      × (s'.escrows ≡ s.escrows)
unfolding withdraw verify_worker_signature
withdraw-pays env key token amount to signature s s' key' token' {w} sized sized' registered h =
    let (signed, debited, _, _, kept) =
      withdraw-effect env key token amount to signature s s' registered h in
    let (covered, held) =
      holding-debit_balance s.balances key token key' token' amount sized sized' debited in
    (
      elim (Option-cases (hex_decode key)) [
        | inl bad ↦ absurd (ground (arith, signed, bad))
        | inr (pk, decoded) ↦ (pk, decoded, ground (arith, signed, decoded))
      ],
      covered,
      held,
      deposits-debit_balance s s' key token amount debited,
      elim (Bool-cases (token == near_token_id)) [
        | inl near ↦ inl (==→eq token near_token_id near, ground (arith, near))
        | inr other ↦
            inr (λ e. ground (arith, e, other, ==_refl near_token_id), ground (arith, other))
      ],
      kept,
    )
