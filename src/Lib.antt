-- ===== src/Lib.antt =====
-- The near-escrow contracts and the verifier service: an escrow that pays workers of an agent's
-- jobs by the verdicts of verifiers, src/lib.rs, the agent's signed-action wallet,
-- agent-msig/src/lib.rs, with its older version, minimal-test/src/lib.rs, and the service that
-- verifies results and signs verdicts, verifier-service/src.
--
-- The parts of the escrow contract, and how they interact. An agent creates an escrow and funds it
-- with a token transfer (Escrow/Lifecycle); a worker claims it and submits a result, which creates
-- a yield (Escrow/Submit, and Escrow/Compete for competitive jobs). Verifiers sign a verdict that
-- resumes the yield (Escrow/Consensus). The callback of the yield decides a settlement target
-- (Escrow/Verdict), and the settlement sends token transfers whose callback closes the escrow
-- (Escrow/Settle). An agent may cancel and anyone may refund an expired escrow (Escrow/Cancel).
-- Workers with a Nostr key and no account have an internal wallet (Escrow/Wallet, Escrow/Balances,
-- Escrow/Signature). The owner's settings are in Escrow/Admin, the counters in Escrow/Stats, the
-- read-only methods in Escrow/Views, single getters and the debug methods in Escrow/Views/Getters.
-- Escrow/Calls joins all calls that change the state into one step function and the reachable
-- states; Escrow/Invariant holds what every call keeps, with a child for each group of handlers,
-- Escrow/Calls/Settings follows the owner's settings, and Escrow/Calls/Journey one standard job,
-- through all calls. Msig is the agent's wallet: actions, nonce, limits, key rotation; Msig/Calls
-- runs any list of its calls, and Msig/Views has its views and the callback behind an action.
-- MinimalTest is its older version; MinimalTest/Agreement and MinimalTest/Runs set the two side by
-- side.
--
-- The service reads its settings (Verifier/Config) and starts (Verifier/Startup); it hears of
-- tasks, results and funding on Nostr (Verifier/Nostr) and handles them one after the other
-- (Verifier/Pipeline, consensus.rs): it checks out the repository, checks the hash of verify/
-- (Verifier/Checkout, Verifier/Radicle; Verifier/Radicle/Tree has the walk of a directory tree,
-- Verifier/Radicle/Commands the commands that it runs),
-- runs the verification in a container or has a language model judge it (Verifier/Executor,
-- Verifier/Scorer), signs the verdict, submits it to the contract (Verifier/Submitter,
-- Verifier/Base58) and posts it. Verifier/OnChain puts the service and the contract together: what
-- the contract shows to the service, and what it makes of what the service submits.
--
-- The state of the service is the record Verifier of Verifier/Pipeline, with the maps of the
-- struct and the list of what was sent. All that a handler asks of the outside is the record World
-- of Verifier/Host; a handler ends with a state and perhaps an error, or a Rust panic, which ends
-- the event loop.
--
-- The state of the contract is the record Contract of Escrow/State, with the fields of
-- EscrowContract and the list of the promises scheduled so far, newest first. A handler is a
-- function of the same name from the call's environment (Env of Escrow/Host), its arguments and
-- the state to an Outcome: a new state, or the panic that undoes the call. An UnorderedMap is an
-- association list (Shared/Maps) whose order after a removal is not the SDK's, a String or an
-- account name the list of its bytes (Text/Bytes).
--
-- Numbers are natural numbers with the widths written out: saturating sums as such, u64 sums that
-- wrap in a release build by add_u64, casts to u8 and u32 by the remainder. The printing of a
-- number takes forty digits, which hold every u128 (Text/Decimal). The division loop of the base
-- 58 encoder runs on two rounds for a byte, which are enough since 58 * 58 is more than 256
-- (Verifier/Base58/Value). No other function runs on fuel. A `usize` of the contract has 32 bits.
--
-- Parameters, since their code is not in the repository: ed25519 verification, the parsing of
-- JSON, base58 decoding, the hex crate and account names, the content of the register after a
-- yield is created; for the service also the runs of rad, git and docker, the language model, the
-- relays, the RPC, SHA-256 and base 64, the conversion of file names to UTF-8, and the kind that the
-- nostr crate gives a tag. The two wallets may read JSON differently: each has a parser of its own.
--
-- Not modelled: events and logs but for the one that the wallet's callback chooses, gas, the check
-- of the one yoctoNEAR that the SDK makes for payable methods; the service's channels and
-- concurrency, and its reading of its settings file; the scripts and the tests.
pub mod Shared
pub mod Text
pub mod Escrow
pub mod Msig
pub mod Verifier
pub mod Tests
pub mod MinimalTest
