-- ===== src/Msig/Calls/Replay.antt =====
-- An executed action against every later state of the wallet.
use near_escrow.Shared.Tests.{
  ℕ, suc, ◌+◌, ◌%◌, ◌≤◌, ◌<◌, ◌≡◌, refl, List, [], ◌∷◌, ◌⊎◌, inl, inr, arith, u64_mod, add_u64,
}
use near_escrow.Shared.Lists.{length}
use near_escrow.Shared.Outcome.{ok, Outcome-cases}
use near_escrow.Text.Bytes.{Text}
use near_escrow.Msig.{
  Env, AgentMsig, execute, force_rotate, set_allowed_tokens, set_spending_limits,
  decode_ed25519_pubkey,
}
use near_escrow.Msig.Nonces.{execute-nonce}
use near_escrow.Msig.Calls
use near_escrow.Msig.Calls.{Call, Received, run_call, left_by, run_all}

-- A call keeps the nonce or raises it by one, in 64 bits.
run_call-nonce :
    (env : Env) (c : Call) (s s' : AgentMsig)
    → run_call env c s ≡ ok s'
    → (s'.nonce ≡ s.nonce) ⊎ (s'.nonce ≡ add_u64 s.nonce 1)
unfolding run_call force_rotate set_allowed_tokens set_spending_limits decode_ed25519_pubkey
run_call-nonce env (Calls.execute json signature) s s' h =
    let (a, _, _, next, kept) = execute-nonce env json signature s s' h in
    inr (ground (arith, next, kept))
run_call-nonce env (Calls.force_rotate _ _) s s' h = inl (ground arith)
run_call-nonce env (Calls.set_allowed_tokens _) s s' h = inl (ground arith)
run_call-nonce env (Calls.set_spending_limits _ _) s s' h = inl (ground arith)

left_by-nonce :
    (r : Received) (s : AgentMsig)
    → ((left_by r s).nonce ≡ s.nonce) ⊎ ((left_by r s).nonce ≡ add_u64 s.nonce 1)
unfolding left_by
left_by-nonce r s = elim (Outcome-cases (run_call r.env r.call s)) [
  | inl (s', h) ↦ rw (h, left_by) (run_call-nonce r.env r.call s s' h)
  | inr (e, h) ↦ rw (h, left_by) (inl refl)
]

-- A list of calls raises the nonce by at most its length, in 64 bits.
run_all-nonce :
    (rs : List Received) (s : AgentMsig)
    → s.nonce < u64_mod
    → (k : ℕ) × (k ≤ length rs) × ((run_all rs s).nonce ≡ (s.nonce + k) % u64_mod)
unfolding run_all
run_all-nonce [] s h = (0, omega arith, omega arith)
run_all-nonce (r ∷ rs) s h = elim (left_by-nonce r s) [
  | inl same ↦
      let (k, few, e) = run_all-nonce rs (left_by r s) (omega arith) in
      (k, omega (arith, few), omega (arith, e, same))
  | inr next ↦
      let (k, few, e) = run_all-nonce rs (left_by r s) (omega arith) in
      (suc k, omega (arith, few), omega (arith, e, next))
]

-- An executed action is not executed again after any list of calls, of fewer than 2 ^ 64 - 1,
-- whatever signature comes with it, by a call that reads the message as the first did.
pub execute_never_replayed :
    (env env' : Env) (json signature signature' : Text) (rs : List Received) (s s' s'' : AgentMsig)
    → env'.parse_action json ≡ env.parse_action json
    → length rs + 1 < u64_mod
    → execute env json signature s ≡ ok s'
    → ¬ (execute env' json signature' (run_all rs s') ≡ ok s'')
execute_never_replayed env env' json signature signature' rs s s' s'' same few h again =
    let (a, read, _, next, kept) = execute-nonce env json signature s s' h in
    let (b, read', _, next', _) = execute-nonce env' json signature' (run_all rs s') s'' again in
    let small : s'.nonce < u64_mod = omega (arith, next, kept) in
    let (k, at_most, e) = run_all-nonce rs s' small in
    let one : a.nonce ≡ b.nonce = ground (arith, read, read', same) in
    omega (arith, one, next, kept, next', at_most, e, few)
