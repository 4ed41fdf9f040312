-- ===== src/Escrow/Calls/Sides.antt =====
-- The escrows across the administration, the wallet and the resumption of a yield.
use near_escrow.Shared.Tests.{◌≡◌, arith}
use near_escrow.Shared.Outcome.{ok}
use near_escrow.Text.Bytes.{Text}
use near_escrow.Escrow.Host.{Env}
use near_escrow.Escrow.State.{Contract}
use near_escrow.Escrow.Admin
use near_escrow.Escrow.Wallet
use near_escrow.Escrow.Consensus
use near_escrow.Escrow.Calls.{SideCall, resume_verification_multi, resume_verification, run_side}

-- The two ways to resume a yield schedule the resumption and change nothing else.
resume_yield-escrows :
    (data_id_hex payload : Text) (s : Contract) {s' : Contract}
    → Consensus.resume_yield data_id_hex payload s ≡ ok s'
    → s'.escrows ≡ s.escrows
unfolding Consensus.resume_yield
resume_yield-escrows data_id_hex payload s h = ground arith

pub run_side-escrows :
    (env : Env) (c : SideCall) (s : Contract) {s' : Contract}
    → run_side env c s ≡ ok s'
    → s'.escrows ≡ s.escrows
unfolding run_side Admin.add_verifier Admin.deactivate_verifier Admin.set_consensus_threshold
    Admin.propose_owner Admin.accept_owner Admin.pause Admin.unpause Admin.add_allowed_token
    Admin.remove_allowed_token Admin.set_storage_deposit Admin.set_worker_stake
    Wallet.register_worker Wallet.deposit_to_worker Wallet.pause_worker Wallet.unpause_worker
    Wallet.withdraw Wallet.link_near_account Consensus.resume_verification_multi
    Consensus.resume_verification
run_side-escrows env (resume_verification_multi d v) s {s'} h =
    ground (arith, resume_yield-escrows d v.verdict_json s {s' = s'})
run_side-escrows env (resume_verification d v i sig) s {s'} h =
    ground (arith, resume_yield-escrows d v s {s' = s'})
run_side-escrows env _ s h = ground arith
