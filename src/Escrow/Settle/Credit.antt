-- ===== src/Escrow/Settle/Credit.antt =====
-- The pending payout of an escrow, and what the contract holds for its worker's key.
use near_escrow.Shared.Tests.{
  ℕ, ◌+◌, ◌<◌, ◌≡◌, ◌≢◌, sym, refl, Option, none, some, inl, inr, arith, u128_mod, unwrap_or,
  Option-cases, is_some, true,
}
use near_escrow.Shared.Maps.{Map, lookup-insert}
use near_escrow.Text.Bytes.{Text, ==_refl}
use near_escrow.Escrow.Types.{Escrow}
use near_escrow.Escrow.State.{Contract}
use near_escrow.Escrow.Balances.{near_token_id, balance_key, credit_balance}
use near_escrow.Escrow.Balances.Accounts.{holding, key-same_token}
use near_escrow.Escrow.Settle.{apply_pending_credits}

-- What the contract holds for a worker's key, if there is one, in a token.
abbrev pub held : Option Text → Text → Contract → ℕ
held none token s = 0
held (some key) token s = holding s.balances key token

-- What an escrow sets aside for its worker's key, if it has one, until its callback.
abbrev pub set_aside_in : Option Text → Option ℕ → ℕ
set_aside_in none payout = 0
set_aside_in (some _) payout = unwrap_or payout 0

abbrev pub set_aside : Option Escrow → ℕ
set_aside none = 0
set_aside (some e) = set_aside_in e.worker_pubkey e.pending_payout

credit_own :
    (balances : Map ℕ) (key token : Text) (n : ℕ)
    → holding balances key token + n < u128_mod
    → holding (credit_balance balances key token n) key token ≡ holding balances key token + n
unfolding holding credit_balance
credit_own balances key token n fits =
    rw (lookup-insert, ==_refl (balance_key key token)) (ground (arith, fits))

credit_other_token :
    (balances : Map ℕ) (key token token' : Text) (n : ℕ)
    → token ≢ token'
    → holding (credit_balance balances key token n) key token' ≡ holding balances key token'
unfolding holding credit_balance
credit_other_token balances key token token' n other =
    rw (lookup-insert, key-same_token key token token' other) refl

-- The pending payout of an escrow in another token than NEAR is added to what its worker's key has.
pub apply_pending_credits-held :
    (e : Escrow) (s : Contract)
    → e.token ≢ near_token_id
    → held e.worker_pubkey e.token s + set_aside_in e.worker_pubkey e.pending_payout < u128_mod
    → held e.worker_pubkey e.token (apply_pending_credits e s).1
      ≡ held e.worker_pubkey e.token s + set_aside_in e.worker_pubkey e.pending_payout
unfolding apply_pending_credits
apply_pending_credits-held e s other fits = elim (Option-cases e.worker_pubkey) [
  | inl bare ↦ ground (arith, bare)
  | inr (key, keyed) ↦
      let own = λ (n : ℕ). credit_own s.balances key e.token n in
      let stake = λ (m : Map ℕ) (n : ℕ).
        credit_other_token m key near_token_id e.token n (λ q. other (sym q)) in
      elim (Option-cases e.pending_payout) [
        | inl nothing ↦ elim (Option-cases e.pending_stake_refund) [
          | inl free ↦ ground (arith, keyed, nothing, free)
          | inr (k, staked) ↦ ground (arith, keyed, nothing, staked, stake s.balances k)
        ]
        | inr (p, pays) ↦ elim (Option-cases e.pending_stake_refund) [
          | inl free ↦ ground (arith, keyed, pays, free, own p)
          | inr (k, staked) ↦
              ground (
                arith,
                keyed,
                pays,
                staked,
                own p,
                stake (credit_balance s.balances key e.token p) k,
              )
        ]
      ]
]

-- Nothing stays set aside, and no promise is scheduled.
pub apply_pending_credits-clears :
    (e : Escrow) (s : Contract)
    → is_some e.worker_pubkey ≡ true
    → ((apply_pending_credits e s).0.pending_payout ≡ none)
      × ((apply_pending_credits e s).1.promises ≡ s.promises)
unfolding apply_pending_credits
apply_pending_credits-clears e s keyed = ground arith

pub held-same :
    (key : Option Text) (token : Text) (s s' : Contract)
    → s'.balances ≡ s.balances
    → held key token s' ≡ held key token s
held-same none token s s' e = refl
held-same (some key) token s s' e = rw e refl
