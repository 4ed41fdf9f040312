-- ===== src/Tests/Paid.antt =====
-- One escrow from its creation through a signed verdict to the worker's pay.
use near_escrow.Shared.Tests.{none, some, [], ◌∷◌, ◌++◌}
use near_escrow.Shared.Outcome.{ok, panic}
use near_escrow.Text.Bytes.{Text, ascii}
use near_escrow.Text.Hex.{hex_encode}
use near_escrow.Escrow.Types.{claimed, Escrow, SignedVerdict}
use near_escrow.Escrow.Host.{Env, successful, Tx}
use near_escrow.Escrow.State.{Contract}
use near_escrow.Escrow.Admin.{new}
use near_escrow.Escrow.Lifecycle.{create_escrow, ft_on_transfer, claim}
use near_escrow.Escrow.Submit.{submit_result}
use near_escrow.Escrow.Consensus.{resume_verification_multi}
use near_escrow.Tests.Fixtures.{
  agent, bob, owner, token, job, data_id, signature, env_of, call_by, callback, verifier, terms,
  escrow_at, contract_with,
}

abbrev after : Tx Contract → Contract
after (ok s) = s
after (panic _) = contract_with (escrow_at claimed none none)

abbrev start : Contract
start = after (new (call_by owner) (verifier ∷ []) (some 1) [])

abbrev created : Contract
created = after (create_escrow (call_by agent) terms start)

abbrev funded : Contract
funded = (ft_on_transfer (call_by token) agent 100 job created).0

abbrev working : Contract
working = after (claim (call_by bob) job funded)

abbrev submitted : Contract
submitted = after (submit_result (call_by bob) job (ascii "r") working)

abbrev id_hex : Text
id_hex = hex_encode data_id

abbrev signing : Env
signing = env_of bob 0 [] (id_hex ++ ascii ":pass")

abbrev signed : SignedVerdict
signed = record {
  verdict_json = ascii "pass";
  signatures = record { verifier_index = 0; signature = signature } ∷ [];
}

abbrev resumed : Contract
resumed = after (resume_verification_multi signing id_hex signed submitted)

abbrev judging : Env
judging = callback (successful (ascii "pass") ∷ [])

abbrev settling : Env
settling = callback (successful [] ∷ [])
