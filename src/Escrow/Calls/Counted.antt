-- ===== src/Escrow/Calls/Counted.antt =====
-- The calls that store a worker's account: its nonce does not fall.
use near_escrow.Shared.Tests.{
  ℕ, ◌≤◌, ◌<◌, ◌≡◌, refl, ap, ◌∙◌, inl, inr, some, arith, Option-cases, Bool-cases, u64_mod,
  unwrap_or,
}
use near_escrow.Shared.Maps.{lookup, insert, lookup-insert}
use near_escrow.Shared.Outcome.{ok}
use near_escrow.Text.Bytes.{Text, ◌==◌, ==_iff}
use near_escrow.Escrow.Types.{WorkerAccount}
use near_escrow.Escrow.Host.{Env}
use near_escrow.Escrow.State.{Contract}
use near_escrow.Escrow.Wallet
use near_escrow.Escrow.Wallet.{fresh_account, next_nonce}
use near_escrow.Escrow.Lifecycle
use near_escrow.Escrow.Submit
use near_escrow.Escrow.Calls.Keeps.{same_workers}
use near_escrow.Escrow.Calls.Workers.{submit_by_mode_for-kept}

-- The worker is registered with a nonce of at least `n`, in 64 bits.
pub record Counted (key : Text) (n : ℕ) (s : Contract) : Type 0 where
  pub account : WorkerAccount
  pub registered : lookup key s.workers ≡ some account
  pub enough : n ≤ account.nonce
  pub in_range : account.nonce < u64_mod

pub Counted-same :
    {key : Text} {n : ℕ} {s s' : Contract}
    → Counted key n s
    → s'.workers ≡ s.workers
    → Counted key n s'
Counted-same {key} c same = record {
  account = c.account;
  registered = ap (lookup key) same ∙ c.registered;
  enough = c.enough;
  in_range = c.in_range;
}

-- An account is stored for a worker; if it replaces one, it has the next nonce.
Counted-insert :
    {key : Text} {n : ℕ} {s s' : Contract} (j : Text) (stored : WorkerAccount)
    → Counted key n s
    → s'.workers ≡ insert j stored s.workers
    → ((old : WorkerAccount)
        → lookup j s.workers ≡ some old
        → stored.nonce ≡ (next_nonce old).nonce)
    → Counted key n s'
Counted-insert {key} {n} {s} {s'} j stored c same next =
    let found = ap (lookup key) same ∙ lookup-insert j key stored s.workers in
    elim (Bool-cases (j == key)) [
      | inl one ↦
          let is : j ≡ key = (==_iff j key).0 one in
          let counts = next c.account (ap (λ k. lookup k s.workers) is ∙ c.registered) in
          record {
            account = stored;
            registered = rw one at found;
            enough = ground (arith, counts, c.enough, c.in_range);
            in_range = ground (arith, counts, c.enough, c.in_range);
          }
      | inr other ↦ record {
        account = c.account;
        registered = (rw other at found) ∙ c.registered;
        enough = c.enough;
        in_range = c.in_range;
      }
    ]

pub register_worker-Counted :
    (env : Env) (j key : Text) (n : ℕ) (s : Contract) {s' : Contract}
    → Counted key n s
    → Wallet.register_worker env j s ≡ ok s'
    → Counted key n s'
unfolding Wallet.register_worker
register_worker-Counted env j key n s c h =
    Counted-insert j (fresh_account j) c (ground arith) (λ old there. ground (arith, there))

pub withdraw-Counted :
    (env : Env) (j token : Text) (amount : ℕ) (to signature key : Text) (n : ℕ) (s : Contract)
    {s' : Contract}
    → Counted key n s
    → Wallet.withdraw env j token amount to signature s ≡ ok s'
    → Counted key n s'
unfolding Wallet.withdraw
withdraw-Counted env j token amount to signature key n s c h =
    elim (Option-cases (lookup j s.workers)) [
      | inl unknown ↦ ground (arith, unknown)
      | inr (w, there) ↦
          Counted-insert j (next_nonce w) c (ground arith) (λ old at. ground (arith, at))
    ]

pub link_near_account-Counted :
    (env : Env) (j account signature key : Text) (n : ℕ) (s : Contract) {s' : Contract}
    → Counted key n s
    → Wallet.link_near_account env j account signature s ≡ ok s'
    → Counted key n s'
unfolding Wallet.link_near_account
link_near_account-Counted env j account signature key n s c h =
    elim (Option-cases (lookup j s.workers)) [
      | inl unknown ↦ ground (arith, unknown)
      | inr (w, there) ↦
          Counted-insert j (record (next_nonce w) { near_account_id = some account }) c
            (ground arith) (λ old at. ground (arith, at))
    ]

pub claim_for-Counted :
    (env : Env) (job_id j signature key : Text) (n : ℕ) (s : Contract) {s' : Contract}
    → Counted key n s
    → Lifecycle.claim_for env job_id j signature s ≡ ok s'
    → Counted key n s'
unfolding Lifecycle.claim_for
claim_for-Counted env job_id j signature key n s c h = elim (Option-cases (lookup j s.workers)) [
  | inl unknown ↦ ground (arith, unknown)
  | inr (w, there) ↦ Counted-insert j (next_nonce w) c (ground arith) (λ old at. ground (arith, at))
]

pub submit_result_for-Counted :
    (env : Env) (job_id result j signature key : Text) (n : ℕ) (s : Contract) {s' : Contract}
    → Counted key n s
    → Submit.submit_result_for env job_id result j signature s ≡ ok s'
    → Counted key n s'
unfolding Submit.submit_result_for
submit_result_for-Counted env job_id result j signature key n s {s'} c h =
    let next = next_nonce (unwrap_or (lookup j s.workers) (fresh_account j)) in
    let mid = record s { workers = insert j next s.workers } in
    elim (Option-cases (lookup job_id s.escrows)) [
      | inl missing ↦ ground (arith, missing)
      | inr (e, found) ↦
          Counted-same (Counted-insert {s' = mid} j next c refl (λ old at. ground (arith, at))) (
            same_workers
              (submit_by_mode_for-kept e.mode env job_id result j e mid {s' = s'} (ground arith)))
    ]
