-- ===== src/Escrow/Invariant/Cleanup.antt =====
-- `cleanup_completed` against the invariant.
use near_escrow.Shared.Tests.{
  ℕ, zero, suc, ◌+◌, ◌<◌, ◌≤◌, ◌≡◌, ◌∙◌, ◌⊎◌, ap, refl, inl, inr, Bool, true, false, none, some,
  List, [], ◌∷◌, arith, Bool-cases, if◌then◌else◌,
}
use near_escrow.Shared.Lists.{length, any}
use near_escrow.Shared.Maps.{Map, lookup, remove, lookup-remove}
use near_escrow.Shared.Maps.Distinct.{Distinct, Distinct-remove}
use mathlib.Core.Path.{subst}
use near_escrow.Text.Bytes.{Text, ◌==◌, ==→eq, ==_iff, ==_refl}
use near_escrow.Escrow.Types.{
  EscrowStatus, pending_funding, opened, in_progress, verifying, claimed, refunded, cancelled,
  settlement_failed, Escrow,
}
use near_escrow.Escrow.State.{Contract}
use near_escrow.Escrow.Compete.{is_terminal, terminal_jobs, remove_all, cleanup_completed}
use near_escrow.Escrow.Invariant.{IsClosed, Moves, Inv}
use near_escrow.Escrow.Invariant.Change.{Entry-same}

is_terminal-IsClosed : (t : EscrowStatus) → is_terminal t ≡ true → IsClosed t
is_terminal-IsClosed claimed h = inl refl
is_terminal-IsClosed refunded h = inr (inl refl)
is_terminal-IsClosed cancelled h = inr (inr refl)
is_terminal-IsClosed pending_funding h = absurd (ground (arith, h))
is_terminal-IsClosed opened h = absurd (ground (arith, h))
is_terminal-IsClosed in_progress h = absurd (ground (arith, h))
is_terminal-IsClosed verifying h = absurd (ground (arith, h))
is_terminal-IsClosed settlement_failed h = absurd (ground (arith, h))

IsClosed-is_terminal : (t : EscrowStatus) → IsClosed t → is_terminal t ≡ true
IsClosed-is_terminal t (inl e) = rw e refl
IsClosed-is_terminal t (inr (inl e)) = rw e refl
IsClosed-is_terminal t (inr (inr e)) = rw e refl

abbrev listed : Text → List Text → Bool
listed job_id jobs = any (λ k. k == job_id) jobs

lookup-remove_all :
    (j : Text) (jobs : List Text) (m : Map Escrow)
    → lookup j (remove_all jobs m) ≡ (if listed j jobs then none else lookup j m)
unfolding remove_all
lookup-remove_all j [] m = refl
lookup-remove_all j (k ∷ jobs) m =
    ground (arith, lookup-remove_all j jobs (remove k m), lookup-remove k j m)

Distinct-remove_all :
    (jobs : List Text) (m : Map Escrow) → Distinct m → Distinct (remove_all jobs m)
unfolding remove_all
Distinct-remove_all [] m d = d
Distinct-remove_all (k ∷ jobs) m d = Distinct-remove_all jobs (remove k m) (Distinct-remove k m d)

-- Every key that is listed for removal is that of a finished escrow.
terminal_jobs-terminal :
    (j : Text) (room : ℕ) (m : Map Escrow)
    → Distinct m
    → listed j (terminal_jobs room m) ≡ true
    → (e : Escrow) × (lookup j m ≡ some e) × (is_terminal e.status ≡ true)
unfolding terminal_jobs lookup
terminal_jobs-terminal j zero m d h = cc
terminal_jobs-terminal j (suc room) [] d h = cc
terminal_jobs-terminal j (suc room) ((k, e) ∷ m) d h = elim (Bool-cases (k == j)) [
  | inl same ↦ elim (Bool-cases (is_terminal e.status)) [
    | inl done ↦ (e, rw same, done)
    | inr going ↦
        let (e', found, _) = terminal_jobs-terminal j (suc room) m d.1 (ground arith) in
        absurd (ground (arith, ==→eq k j same, found))
  ]
  | inr other ↦ elim (Bool-cases (is_terminal e.status)) [
    | inl done ↦
        let (e', found, done') = terminal_jobs-terminal j room m d.1 (ground arith) in
        (e', rw other found, done')
    | inr going ↦
        let (e', found, done') = terminal_jobs-terminal j (suc room) m d.1 (ground arith) in
        (e', rw other found, done')
  ]
]

length-terminal_jobs : (room : ℕ) (m : Map Escrow) → length (terminal_jobs room m) ≤ room
unfolding terminal_jobs
length-terminal_jobs zero m = omega arith
length-terminal_jobs (suc room) [] = omega arith
length-terminal_jobs (suc room) ((k, e) ∷ m) =
    ground (arith, length-terminal_jobs room m, length-terminal_jobs (suc room) m)

-- In a state with the invariant, a cleanup moves every escrow lawfully, and lists no more than
-- `max_count`.
pub cleanup_completed-Moves :
    (max_count : ℕ) (s : Contract)
    → Inv s
    → Moves s (cleanup_completed max_count s).0 × ((cleanup_completed max_count s).1 ≤ max_count)
unfolding cleanup_completed
cleanup_completed-Moves max_count s inv =
    let jobs = terminal_jobs max_count s.escrows in
    (
      record {
        unique = Distinct-remove_all jobs s.escrows inv.unique;
        entry = λ j. rw (lookup-remove_all j jobs s.escrows) (elim (Bool-cases (listed j jobs)) [
          | inl gone ↦
              let (e, found, done) = terminal_jobs-terminal j max_count s.escrows inv.unique gone in
              rw (gone, found) (is_terminal-IsClosed e.status done)
          | inr kept ↦ rw kept (Entry-same s j inv)
        ]);
      },
      length-terminal_jobs max_count s.escrows,
    )

-- With room left, every finished escrow is listed.
terminal_jobs-all :
    (j : Text) (room : ℕ) (m : Map Escrow) {e : Escrow}
    → length (terminal_jobs room m) < room
    → lookup j m ≡ some e
    → is_terminal e.status ≡ true
    → listed j (terminal_jobs room m) ≡ true
unfolding terminal_jobs lookup
terminal_jobs-all j zero m less found done = absurd (omega arith)
terminal_jobs-all j (suc room) [] less found done = absurd (ground (arith, found))
terminal_jobs-all j (suc room) ((k, e') ∷ m) {e} less found done =
    let behind = λ (r : ℕ). terminal_jobs-all j r m {e = e} in
    elim (Bool-cases (k == j)) [
      | inl same ↦ ground (arith, same)
      | inr other ↦ elim (Bool-cases (is_terminal e'.status)) [
        | inl ended ↦ ground (arith, behind room)
        | inr going ↦ ground (arith, behind (suc room))
      ]
    ]

le-cases : {n m : ℕ} → n ≤ m → (n ≡ m) ⊎ (n < m)
le-cases h = omega arith

remove_absent : (k : Text) (m : Map Escrow) → lookup k m ≡ none → remove k m ≡ m
unfolding lookup remove
remove_absent k [] h = refl
remove_absent k ((j, e) ∷ m) h = elim (Bool-cases (j == k)) [
  | inl same ↦ absurd (ground (arith, same, h))
  | inr other ↦
      let below : lookup k m ≡ none = rw other at h in
      rw other (ap (λ r. (j, e) ∷ r) (remove_absent k m below))
]

remove_all-behind :
    (k : Text) (e : Escrow) (jobs : List Text) (m : Map Escrow)
    → listed k jobs ≡ false
    → remove_all jobs ((k, e) ∷ m) ≡ (k, e) ∷ remove_all jobs m
unfolding remove_all remove
remove_all-behind k e [] m h = refl
remove_all-behind k e (j ∷ jobs) m h =
    let other : (k == j) ≡ false = ground (arith, h, ==_iff k j, ==_iff j k) in
    rw other (remove_all-behind k e jobs (remove j m) (ground (arith, h)))

unlisted :
    (k : Text) (room : ℕ) (m : Map Escrow)
    → Distinct m
    → lookup k m ≡ none
    → listed k (terminal_jobs room m) ≡ false
unlisted k room m d h = elim (Bool-cases (listed k (terminal_jobs room m))) [
  | inl there ↦
      let (_, found, _) = terminal_jobs-terminal k room m d there in
      absurd (ground (arith, found, h))
  | inr absent ↦ absent
]

-- Each key that is listed takes one entry out.
length-remove_all_jobs :
    (room : ℕ) (m : Map Escrow)
    → Distinct m
    → length (remove_all (terminal_jobs room m) m) + length (terminal_jobs room m) ≡ length m
unfolding terminal_jobs
length-remove_all_jobs zero m d = unfold remove_all in omega arith
length-remove_all_jobs (suc room) [] d = unfold remove_all in refl
length-remove_all_jobs (suc room) ((k, e) ∷ m) d = elim (Bool-cases (is_terminal e.status)) [
  | inl ended ↦
      let first : remove k ((k, e) ∷ m) ≡ m =
        unfold remove in rw (==_refl k) (remove_absent k m d.0) in
      let rest = length-remove_all_jobs room m d.1 in
      let all : remove_all (k ∷ terminal_jobs room m) ((k, e) ∷ m)
          ≡ remove_all (terminal_jobs room m) m =
        unfold remove_all in ap (remove_all (terminal_jobs room m)) first in
      rw (ended, terminal_jobs, all) (omega (arith, rest))
  | inr going ↦
      let rest = length-remove_all_jobs (suc room) m d.1 in
      rw
        (
          going,
          terminal_jobs,
          remove_all-behind k e (terminal_jobs (suc room) m) m (unlisted k (suc room) m d.1 d.0),
        )
        (omega (arith, rest))
]

-- A cleanup of a map without repetitions takes out at most `max_count` escrows, as many as it
-- reports: it leaves an escrow as it is or removes it, and then it was claimed, refunded or
-- cancelled; and if it reports fewer than `max_count`, no escrow that is left is one of these.
pub cleanup_completed-exact :
    (max_count : ℕ) (s : Contract) (job_id : Text) {e : Escrow}
    → Distinct s.escrows
    → lookup job_id s.escrows ≡ some e
    → let (s', count) = cleanup_completed max_count s in
      (count ≤ max_count)
      × (length s'.escrows + count ≡ length s.escrows)
      × ((lookup job_id s'.escrows ≡ some e)
          ⊎ ((lookup job_id s'.escrows ≡ none) × IsClosed e.status))
      × ((count ≡ max_count) ⊎ (lookup job_id s'.escrows ≡ none) ⊎ (¬ (IsClosed e.status)))
unfolding cleanup_completed
cleanup_completed-exact max_count s job_id {e} d found =
    let jobs = terminal_jobs max_count s.escrows in
    (
      length-terminal_jobs max_count s.escrows,
      length-remove_all_jobs max_count s.escrows d,
      rw (lookup-remove_all job_id jobs s.escrows) (elim (Bool-cases (listed job_id jobs)) [
        | inl gone ↦
            let (e', found', done) = terminal_jobs-terminal job_id max_count s.escrows d gone in
            let same : e' ≡ e = ground (arith, found', found) in
            rw gone (inr (refl, subst (λ x. IsClosed x.status) same (is_terminal-IsClosed _ done)))
        | inr kept ↦ rw kept (inl found)
      ]),
      elim (le-cases (length-terminal_jobs max_count s.escrows)) [
        | inl full ↦ inl full
        | inr fewer ↦ inr (elim (Bool-cases (is_terminal e.status)) [
          | inl ended ↦
              let here = terminal_jobs-all job_id max_count s.escrows {e = e} fewer found ended in
              inl (lookup-remove_all job_id jobs s.escrows ∙ rw here refl)
          | inr going ↦ inr (λ c. ground (arith, going, IsClosed-is_terminal e.status c))
        ])
      ],
    )
