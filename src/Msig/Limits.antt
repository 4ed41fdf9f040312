-- ===== src/Msig/Limits.antt =====
-- The spending limits of the agent's wallet across `execute`.
use near_escrow.Shared.Tests.{ℕ, ◌+◌, ◌-◌, ◌≤◌, ◌<◌, ◌≡◌, arith, u128_mod}
use near_escrow.Shared.Outcome.{ok}
use near_escrow.Msig.{Env, AgentMsig, roll_window, spend_in_window, enforce_spending_limit}

-- Under a limit on one action and a daily limit, a value below 2 ^ 128 that passes the checks is
-- at most the first; the window's total counts it and stays within the daily limit, which is
-- kept.
pub enforce_spending_limit-Bounded :
    (env : Env) (value : ℕ) (s s' : AgentMsig)
    → value < u128_mod
    → 0 < s.max_action_value_yocto
    → 0 < s.daily_limit_yocto
    → enforce_spending_limit env value s ≡ ok s'
    → (value ≤ s.max_action_value_yocto)
      × (value ≤ s'.spent_in_window)
      × (s'.spent_in_window ≤ s.daily_limit_yocto)
      × (s'.daily_limit_yocto ≡ s.daily_limit_yocto)
unfolding enforce_spending_limit spend_in_window roll_window
enforce_spending_limit-Bounded env value s s' small per_action daily h =
    (ground arith, ground arith, ground arith, ground arith)

-- Two values that sum to less than 2 ^ 128 and are both spent under a daily limit, the second
-- less than 7200 blocks after the start of the window that the first left, sum to at most the
-- limit.
pub spend_twice-Bounded :
    (env env' : Env) (v w : ℕ) (s s' s'' : AgentMsig)
    → v + w < u128_mod
    → 0 < s.daily_limit_yocto
    → enforce_spending_limit env v s ≡ ok s'
    → env'.block_height - s'.window_start_block < 7200
    → enforce_spending_limit env' w s' ≡ ok s''
    → v + w ≤ s.daily_limit_yocto
unfolding enforce_spending_limit spend_in_window roll_window
spend_twice-Bounded env env' v w s s' s'' small daily h near h' = ground arith
