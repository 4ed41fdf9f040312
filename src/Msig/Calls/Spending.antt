-- ===== src/Msig/Calls/Spending.antt =====
-- What a list of calls can spend under a daily limit.
use near_escrow.Shared.Tests.{
  ℕ, suc, ◌+◌, ◌-◌, ◌*◌, ◌/◌, refl, ◌≤◌, ◌<◌, ◌≡◌, List, [], ◌∷◌, Option, none, some, ◌⊎◌, inl, inr,
  arith, u128_mod, Option-cases, ap,
}
use mathlib.Core.Path.{subst}
use near_escrow.Shared.Outcome.{ok, Outcome-cases}
use near_escrow.Text.Bytes.{Text}
use near_escrow.Msig.{
  Dispatch, call_create, call_fund, call_cancel, call_storage_deposit, call_ft_transfer,
  call_transfer, call_designate, set_spending_limits, ActionKind, create_escrow, fund_escrow,
  cancel_escrow, register_token, rotate_key, withdraw, designate_winner, Env, AgentMsig,
  action_value, enforce_value, enforce_spending_limit, spend_in_window, roll_window, perform,
  execute, force_rotate, set_allowed_tokens, decode_ed25519_pubkey,
}
use near_escrow.Msig.Calls
use near_escrow.Msig.Calls.{
  Call, Received, run_call, left_by, run_all, value_or_zero, message_value, call_value, spent_by,
  total_spent,
}

-- What spending `v` by block b does to the window under the daily limit: it adds to the window's
-- total, or to that of a new window, which starts at least 7200 blocks later.
record Spends (b v : ℕ) (s s' : AgentMsig) : Type 0 where
  limit_kept : s'.daily_limit_yocto ≡ s.daily_limit_yocto
  window :
      ((s'.window_start_block ≡ s.window_start_block)
        × (s'.spent_in_window ≡ s.spent_in_window + v))
      ⊎ ((s.window_start_block + 7200 ≤ s'.window_start_block)
          × (s'.window_start_block ≤ b)
          × (s'.spent_in_window ≡ v))
  within : (v ≡ 0) ⊎ (s'.spent_in_window ≤ s.daily_limit_yocto)

enforce_value-Spends :
    (env : Env) (value : Option ℕ) (s s' : AgentMsig)
    → 0 < s.daily_limit_yocto
    → s.daily_limit_yocto + 1 < u128_mod
    → enforce_value env value s ≡ ok s'
    → Spends env.block_height (value_or_zero value) s s'
unfolding enforce_spending_limit spend_in_window roll_window
enforce_value-Spends env none s s' limited small h = ground arith
enforce_value-Spends env (some v) s s' limited small h = record {
  limit_kept = ground arith;
  window = ground arith;
  within = inr (ground arith);
}

-- An action keeps what the window is made of.
record SameWindow (s s' : AgentMsig) : Type 0 where
  same_limit : s'.daily_limit_yocto ≡ s.daily_limit_yocto
  same_start : s'.window_start_block ≡ s.window_start_block
  same_spent : s'.spent_in_window ≡ s.spent_in_window

perform-SameWindow :
    (env : Env) (a : ActionKind) (s s' : AgentMsig) → perform env a s ≡ ok s' → SameWindow s s'
unfolding perform decode_ed25519_pubkey
perform-SameWindow env (create_escrow a) s s' h = ground arith
perform-SameWindow env (fund_escrow _ _ _) s s' h = ground arith
perform-SameWindow env (cancel_escrow _) s s' h = ground arith
perform-SameWindow env (register_token _) s s' h = ground arith
perform-SameWindow env (rotate_key _) s s' h = ground arith
perform-SameWindow env (withdraw (some _) amount recipient) s s' h = ground arith
perform-SameWindow env (withdraw none amount recipient) s s' h = ground arith
perform-SameWindow env (designate_winner _ _) s s' h = ground arith

execute-Spends :
    (env : Env) (json signature : Text) (s s' : AgentMsig)
    → 0 < s.daily_limit_yocto
    → s.daily_limit_yocto + 1 < u128_mod
    → execute env json signature s ≡ ok s'
    → Spends env.block_height (message_value env json) s s'
unfolding execute message_value
execute-Spends env json signature s s' limited small h =
    elim (Option-cases (env.parse_action json)) [
      | inl unread ↦ ground arith
      | inr (a, read) ↦
          let numbered = record s { nonce = a.nonce; last_action_block = env.block_height } in
          elim (Outcome-cases (enforce_value env (action_value a.action) numbered)) [
            | inr (_, refused) ↦ ground arith
            | inl (checked, passed) ↦
                let spends =
                  enforce_value-Spends env (action_value a.action) numbered checked limited small
                    passed in
                let performed : perform env a.action checked ≡ ok s' = ground arith in
                let same = perform-SameWindow env a.action checked s' performed in
                rw (read, message_value) (ground (arith, spends, same))
          ]
    ]

-- The calls that leave the limits alone.
abbrev pub KeepsLimits : Call → Type 0
KeepsLimits (Calls.execute _ _) = Unit
KeepsLimits (Calls.force_rotate _ _) = Unit
KeepsLimits (Calls.set_allowed_tokens _) = Unit
KeepsLimits (Calls.set_spending_limits _ _) = ⊥

run_call-Spends :
    (env : Env) (c : Call) (s s' : AgentMsig)
    → KeepsLimits c
    → 0 < s.daily_limit_yocto
    → s.daily_limit_yocto + 1 < u128_mod
    → run_call env c s ≡ ok s'
    → Spends env.block_height (call_value env c) s s'
unfolding run_call force_rotate set_allowed_tokens decode_ed25519_pubkey
run_call-Spends env (Calls.execute json signature) s s' k limited small h =
    execute-Spends env json signature s s' limited small h
run_call-Spends env (Calls.force_rotate _ _) s s' k limited small h = ground arith
run_call-Spends env (Calls.set_allowed_tokens _) s s' k limited small h = ground arith
run_call-Spends env (Calls.set_spending_limits _ _) s s' k limited small h = absurd k

left_by-Spends :
    (r : Received) (s : AgentMsig)
    → KeepsLimits r.call
    → 0 < s.daily_limit_yocto
    → s.daily_limit_yocto + 1 < u128_mod
    → Spends r.env.block_height (spent_by r s) s (left_by r s)
unfolding left_by spent_by
left_by-Spends r s k limited small = elim (Outcome-cases (run_call r.env r.call s)) [
  | inl (s', h) ↦ rw (h, left_by, spent_by) (run_call-Spends r.env r.call s s' k limited small h)
  | inr (e, h) ↦ rw (h, left_by, spent_by) (ground arith)
]

-- The calls of a list are made by block b and leave the limits alone.
abbrev pub QuietUntil : ℕ → List Received → Type 0
QuietUntil b [] = Unit
QuietUntil b (r ∷ rs) = (r.env.block_height ≤ b) × KeepsLimits r.call × QuietUntil b rs

-- Within k further windows, of which the last starts by block b, the calls spend at most a limit
-- for each and what is left in the first.
total_spent-windows :
    (b : ℕ) (rs : List Received) (s : AgentMsig)
    → QuietUntil b rs
    → 0 < s.daily_limit_yocto
    → s.daily_limit_yocto + 1 < u128_mod
    → (k : ℕ) × ((k ≡ 0) ⊎ (s.window_start_block + 7200 * k ≤ b))
      × (total_spent rs s ≤ s.daily_limit_yocto * k + (s.daily_limit_yocto - s.spent_in_window))
unfolding total_spent
total_spent-windows b [] s quiet limited small = (0, inl refl, omega arith)
total_spent-windows b (r ∷ rs) s (early, quiet, later) limited small =
    let spends = left_by-Spends r s quiet limited small in
    let kept = spends.limit_kept in
    let (k, windows, rest) =
      total_spent-windows b rs (left_by r s) later (omega (arith, kept)) (omega (arith, kept)) in
    let at_limit =
      subst (λ l. total_spent rs (left_by r s) ≤ l * k + (l - (left_by r s).spent_in_window)) kept
        rest in
    elim spends.window [
      | inl (same, added) ↦
          (k, ground (arith, windows, same), ground (arith, at_limit, added, spends.within))
      | inr (opened, by, fresh) ↦ (
        suc k,
        inr (ground (arith, windows, opened, by, early)),
        grind (arith, at_limit, fresh, spends.within),
      )
    ]

-- The amounts, of NEAR or tokens, that a dispatched call creates an escrow for, funds it with or
-- sends; not the deposit that the call itself has attached.
abbrev pub amount_of : Dispatch → ℕ
amount_of (call_create a) = a.amount
amount_of (call_fund _ _ amount _) = amount
amount_of (call_cancel _) = 0
amount_of (call_storage_deposit _) = 0
amount_of (call_ft_transfer _ _ amount) = amount
amount_of (call_transfer _ amount) = amount
amount_of (call_designate _ _) = 0

unfoldable pub outflow : List Dispatch → ℕ
outflow [] = 0
outflow (d ∷ ds) = amount_of d + outflow ds

perform-outflow :
    (env : Env) (a : ActionKind) (s s' : AgentMsig)
    → perform env a s ≡ ok s'
    → outflow s'.dispatched ≡ value_or_zero (action_value a) + outflow s.dispatched
unfolding perform decode_ed25519_pubkey action_value outflow
perform-outflow env (create_escrow a) s s' h = ground arith
perform-outflow env (fund_escrow _ _ _) s s' h = ground arith
perform-outflow env (cancel_escrow _) s s' h = ground arith
perform-outflow env (register_token _) s s' h = ground arith
perform-outflow env (rotate_key _) s s' h = ground arith
perform-outflow env (withdraw (some _) amount recipient) s s' h = ground arith
perform-outflow env (withdraw none amount recipient) s s' h = ground arith
perform-outflow env (designate_winner _ _) s s' h = ground arith

enforce_value-dispatched :
    (env : Env) (value : Option ℕ) (s s' : AgentMsig)
    → enforce_value env value s ≡ ok s'
    → s'.dispatched ≡ s.dispatched
unfolding enforce_spending_limit spend_in_window roll_window
enforce_value-dispatched env none s s' h = ground arith
enforce_value-dispatched env (some v) s s' h = ground arith

run_call-outflow :
    (env : Env) (c : Call) (s s' : AgentMsig)
    → run_call env c s ≡ ok s'
    → outflow s'.dispatched ≡ call_value env c + outflow s.dispatched
unfolding run_call force_rotate set_allowed_tokens set_spending_limits decode_ed25519_pubkey execute
    message_value
run_call-outflow env (Calls.execute json signature) s s' h =
    elim (Option-cases (env.parse_action json)) [
      | inl unread ↦ absurd (ground (arith, unread))
      | inr (a, read) ↦
          let numbered = record s { nonce = a.nonce; last_action_block = env.block_height } in
          elim (Outcome-cases (enforce_value env (action_value a.action) numbered)) [
            | inr (_, refused) ↦ absurd (ground (arith, read, refused))
            | inl (checked, passed) ↦
                let performed : perform env a.action checked ≡ ok s' =
                  ground (arith, read, passed) in
                let out = perform-outflow env a.action checked s' performed in
                let same =
                  enforce_value-dispatched env (action_value a.action) numbered checked passed in
                rw (read, message_value) (ground (arith, out, ap outflow same))
          ]
    ]
run_call-outflow env (Calls.force_rotate _ _) s s' h = ground arith
run_call-outflow env (Calls.set_allowed_tokens _) s s' h = ground arith
run_call-outflow env (Calls.set_spending_limits _ _) s s' h = ground arith

left_by-outflow :
    (r : Received) (s : AgentMsig)
    → outflow (left_by r s).dispatched ≡ spent_by r s + outflow s.dispatched
unfolding left_by spent_by
left_by-outflow r s = elim (Outcome-cases (run_call r.env r.call s)) [
  | inl (s', h) ↦ rw (h, left_by, spent_by) (run_call-outflow r.env r.call s s' h)
  | inr (e, h) ↦ rw (h, left_by, spent_by) (omega arith)
]

run_all-outflow :
    (rs : List Received) (s : AgentMsig)
    → outflow (run_all rs s).dispatched ≡ total_spent rs s + outflow s.dispatched
unfolding run_all total_spent
run_all-outflow [] s = omega arith
run_all-outflow (r ∷ rs) s = omega (arith, run_all-outflow rs (left_by r s), left_by-outflow r s)

-- Under a daily limit below 2 ^ 128 - 1, the calls that a wallet receives by block b, if none sets
-- its limits, dispatch escrows to create, fundings and transfers whose amounts, of NEAR and tokens
-- alike and without the deposits attached to them, add up to at most what is left of the limit in
-- the window, and the limit once for every full 7200 blocks from the start of that window to b.
pub outflow-Bounded :
    (b : ℕ) (rs : List Received) (s : AgentMsig)
    → QuietUntil b rs
    → 0 < s.daily_limit_yocto
    → s.daily_limit_yocto + 1 < u128_mod
    → outflow (run_all rs s).dispatched
      ≤ outflow s.dispatched
        + s.daily_limit_yocto * ((b - s.window_start_block) / 7200)
        + (s.daily_limit_yocto - s.spent_in_window)
outflow-Bounded b rs s quiet limited small =
    let (k, windows, spent) = total_spent-windows b rs s quiet limited small in
    let fits : k ≤ (b - s.window_start_block) / 7200 = ground (arith, windows) in
    let more : s.daily_limit_yocto * k ≤ s.daily_limit_yocto * ((b - s.window_start_block) / 7200) =
      grind (arith, fits) in
    omega (arith, spent, more, run_all-outflow rs s)
