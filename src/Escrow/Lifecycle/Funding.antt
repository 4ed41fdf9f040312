-- ===== src/Escrow/Lifecycle/Funding.antt =====
-- The funding of an escrow by a token transfer.
use near_escrow.Shared.Tests.{ℕ, ◌≡◌, true, inl, inr, some, arith, Option-cases, Bool-cases, ◌⊎◌}
use near_escrow.Shared.Maps.{lookup, insert, lookup-insert_self}
use near_escrow.Shared.Outcome.{ok}
use near_escrow.Text.Bytes.{Text, ==_refl, ==→eq}
use near_escrow.Escrow.Types.{pending_funding, opened, Escrow}
use near_escrow.Escrow.Host.{Env}
use near_escrow.Escrow.State.{Contract}
use near_escrow.Escrow.Admin.{is_token_allowed}
use near_escrow.Escrow.Lifecycle.{
  CreateArgs, new_escrow, create_escrow, accepts_funding, ft_on_transfer,
}

accepts_funding-exact :
    (env : Env) (sender : Text) (amount : ℕ) (e : Escrow)
    → accepts_funding env sender amount e ≡ true
    → (sender ≡ e.agent)
      × (env.predecessor ≡ e.token)
      × (amount ≡ e.amount)
      × (e.status ≡ pending_funding)
unfolding accepts_funding
accepts_funding-exact env sender amount e h = (
  ==→eq sender e.agent (ground (arith, h)),
  ==→eq env.predecessor e.token (ground (arith, h)),
  ground (arith, h),
  ground (arith, h),
)

-- A token transfer either changes nothing and is handed back whole, or is kept whole: then the
-- message names an escrow of the sender that waits for its funding, in the calling token, which is
-- allowed, and of exactly that amount, and that escrow alone is changed: it is stored as open.
pub ft_on_transfer-all_or_nothing :
    (env : Env) (sender : Text) (amount : ℕ) (msg : Text) (s : Contract)
    → (ft_on_transfer env sender amount msg s ≡ (s, amount))
      ⊎ ((e : Escrow) × (lookup msg s.escrows ≡ some e)
          × (sender ≡ e.agent)
          × (env.predecessor ≡ e.token)
          × (amount ≡ e.amount)
          × (e.status ≡ pending_funding)
          × (is_token_allowed s env.predecessor ≡ true)
          × ((ft_on_transfer env sender amount msg s).1 ≡ 0)
          × ((ft_on_transfer env sender amount msg s).0.escrows
              ≡ insert msg (record e { status = opened }) s.escrows)
          × ((ft_on_transfer env sender amount msg s).0.balances ≡ s.balances))
unfolding ft_on_transfer
ft_on_transfer-all_or_nothing env sender amount msg s =
    elim (Bool-cases (is_token_allowed s env.predecessor)) [
      | inr refused ↦ inl (ground arith)
      | inl allowed ↦ elim (Option-cases (lookup msg s.escrows)) [
        | inl missing ↦ inl (ground arith)
        | inr (e, found) ↦ elim (Bool-cases (accepts_funding env sender amount e)) [
          | inr wrong ↦ inl (ground arith)
          | inl right ↦
              let (agent, token, exact, waiting) =
                accepts_funding-exact env sender amount e right in
              inr (
                e,
                found,
                agent,
                token,
                exact,
                waiting,
                allowed,
                ground arith,
                ground arith,
                ground arith,
              )
        ]
      ]
    ]

-- An escrow that was just created is funded by a transfer of its amount from its agent in its
-- token: the transfer is kept, and the escrow is then stored as open and otherwise as created.
pub create_then_fund :
    (env env' : Env) (a : CreateArgs) (s s' : Contract)
    → create_escrow env a s ≡ ok s'
    → env'.predecessor ≡ a.token
    → ((ft_on_transfer env' env.signer a.amount a.job_id s').1 ≡ 0)
      × (lookup a.job_id (ft_on_transfer env' env.signer a.amount a.job_id s').0.escrows
          ≡ some (record (new_escrow env a) { status = opened }))
unfolding create_escrow ft_on_transfer accepts_funding new_escrow is_token_allowed
create_then_fund env env' a s s' h token =
    let created = new_escrow env a in
    let stored = lookup-insert_self a.job_id created s.escrows in
    let funded =
      lookup-insert_self a.job_id (record created { status = opened })
        (insert a.job_id created s.escrows) in
    let sender = ==_refl env.signer in
    let same_token = ==_refl a.token in
    (ground (arith, stored, sender, same_token), ground (arith, stored, funded, sender, same_token))
