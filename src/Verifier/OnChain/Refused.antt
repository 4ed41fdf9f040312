-- ===== src/Verifier/OnChain/Refused.antt =====
-- The message that the service signs against the one that the contract checks.
use near_escrow.Shared.Tests.{
  ℕ, ◌≤◌, ◌≡◌, ◌≢◌, refl, Bool, true, false, inl, inr, some, [], ◌∷◌, arith, Bool-cases, unwrap_or,
}
use mathlib.Core.List.{append_cancel_right}
use near_escrow.Shared.Lists.{select, is_empty}
use near_escrow.Shared.Outcome.{ok, panic, Outcome-cases}
use near_escrow.Text.Bytes.{Text}
use near_escrow.Text.Decimal.{join}
use near_escrow.Escrow.Types.{SignedVerdict}
use near_escrow.Escrow.Host.{Env}
use near_escrow.Escrow.State.{Contract}
use near_escrow.Escrow.Consensus.{resume_verification_multi}
use near_escrow.Escrow.Consensus.Quorum.{
  Backed, no_more, skip, pick, resume_verification_multi-Backed,
}
use near_escrow.Verifier.Host.{EscrowJson, World}
use near_escrow.Verifier.Nostr.{WorkerResultEvent}
use near_escrow.Verifier.Submitter.{ResumeArgs}
use near_escrow.Verifier.Pipeline.{
  Effect, submit, post_verified, Verifier, submit_on_chain, handle_worker_result,
}
use near_escrow.Verifier.Pipeline.Sent.{handle_worker_result-select}

-- The argument `signed_verdict` of the call.
abbrev pub signed_by : ResumeArgs → SignedVerdict
signed_by a = record {
  verdict_json = a.verdict_json;
  signatures = record { verifier_index = a.verifier_index; signature = a.signature } ∷ [];
}

-- Whether the contract in this state takes the submission.
unfoldable pub accepted : Env → Contract → Effect → Bool
accepted env c (post_verified _) = false
accepted env c (submit a) = elim (resume_verification_multi env a.data_id_hex (signed_by a) c) [
  | ok _ ↦ true
  | panic _ ↦ false
]

join_same_front : (s t u : Text) → join s u ≡ join t u → s ≡ t
unfolding join
join_same_front s t u e = append_cancel_right s t (b':' ∷ u) e

module _ (env : Env) (w : World)
    (own : (m m' pk : Text) → env.ed25519_verify (w.sign m) m' pk ≡ true → m' ≡ m) where
  no_signature_counts :
      (c : Contract) (data_id job_id verdict : Text) (i n : ℕ)
      → data_id ≢ job_id
      → 1 ≤ n
      → Backed env
          (join data_id verdict)
          c.verifier_set
          []
          (record { verifier_index = i; signature = w.sign (join job_id verdict) } ∷ [])
          n
      → ⊥
  no_signature_counts c data_id job_id verdict i n other enough (skip _ no_more) = omega arith
  no_signature_counts c data_id job_id verdict i n other enough (pick sig fresh counts b) = other (
      join_same_front data_id job_id verdict
        (own (join job_id verdict) (join data_id verdict) counts.key counts.verified))

  not_accepted :
      (c : Contract) (data_id job_id verdict : Text) (i : ℕ)
      → data_id ≢ job_id
      → 1 ≤ c.consensus_threshold
      → accepted env c (
          submit (record {
            data_id_hex = data_id;
            verdict_json = verdict;
            verifier_index = i;
            signature = w.sign (join job_id verdict);
          }))
        ≡ false
  unfolding accepted
  not_accepted c data_id job_id verdict i other positive =
      let a : ResumeArgs = record {
        data_id_hex = data_id;
        verdict_json = verdict;
        verifier_index = i;
        signature = w.sign (join job_id verdict);
      } in
      elim (Outcome-cases (resume_verification_multi env data_id (signed_by a) c)) [
        | inr (_, refused) ↦ rw (refused, accepted)
        | inl (c', taken) ↦
            let (n, b, enough) =
              resume_verification_multi-Backed env data_id (signed_by a) c c' taken in
            elim (no_signature_counts c data_id job_id verdict i n other (omega arith) b) [ ]
      ]

  -- If a signature of the service verifies for the signed message alone, the contract asks for at
  -- least one signature, and the job's `data_id` is not its `job_id`, then the contract takes
  -- none of what the service submits for a result.
  pub handle_worker_result_refused :
      (c : Contract) (r : WorkerResultEvent) (s : Verifier) (e : EscrowJson)
      → w.last_escrow r.job_id ≡ some e
      → unwrap_or e.data_id [] ≢ r.job_id
      → 1 ≤ c.consensus_threshold
      → select (accepted env c) (handle_worker_result w r s).state.sent
        ≡ select (accepted env c) s.sent
  unfolding submit_on_chain accepted
  handle_worker_result_refused c r s e shown other positive =
      handle_worker_result-select (accepted env c) (λ _. refl) w r
        (λ e' verdict s' found.
          let same : e' ≡ e = cc in
          elim (Bool-cases (is_empty (unwrap_or e.data_id []))) [
            | inl empty ↦ rw (same, empty, submit_on_chain)
            | inr there ↦
                rw (same, there, submit_on_chain)
                  (rw (
                    not_accepted c (unwrap_or e.data_id []) r.job_id verdict
                      s'.config.verifier_index other positive))
          ])
        s
