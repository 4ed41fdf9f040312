-- ===== src/Verifier/Radicle/Commands/Inside.antt =====
-- Where a clone puts its checkout.
use near_escrow.Shared.Tests.{
  ℕ, ◌≡◌, refl, Bool, true, false, ◌||◌, inl, inr, ◌⊎◌, Option, none, some, [], ◌∷◌, arith, nat_eq,
  Bool-cases,
}
use near_escrow.Shared.Lists.{any}
use near_escrow.Text.Bytes.{Text, ascii}
use near_escrow.Verifier.Config.{in_dir}
use near_escrow.Verifier.Radicle.{sanitize_rid}
use near_escrow.Verifier.Radicle.Commands.{
  rad, Shell, without_rad, join_path, clone_repo, Run, follow, ◌>>◌, return, fail, if_exists,
}

-- A separator of paths, or a colon.
abbrev pub is_separator : ℕ → Bool
is_separator c = nat_eq c b'/' || nat_eq c b':'

sanitize_rid_plain : (rid : Text) → any is_separator (sanitize_rid rid) ≡ false
unfolding sanitize_rid
sanitize_rid_plain [] = refl
sanitize_rid_plain (c ∷ rid) = ground (arith, sanitize_rid_plain rid)

join_path-sanitize_rid :
    (dir rid : Text) → join_path dir (sanitize_rid rid) ≡ in_dir dir (sanitize_rid rid)
unfolding join_path sanitize_rid
join_path-sanitize_rid dir [] = refl
join_path-sanitize_rid dir (c ∷ rid) = ground arith

-- What comes second succeeds where both do.
succeeds_after :
    {F A B : Type 0} (p : Option A × F) (k : Run F B) (after : F) {b : B}
    → follow p (λ _. k) ≡ (some b, after)
    → (between : F) × (k between ≡ (some b, after))
succeeds_after (none, later) k after h = absurd (ground (arith, h))
succeeds_after (some a, later) k after h = (later, h)

-- The choice between the two directories.
chosen :
    {F : Type 0} (shell : Shell F) (repo_dir alt dir : Text) (files after : F)
    → if_exists shell repo_dir (return repo_dir) (if_exists shell alt (return alt) fail) files
      ≡ (some dir, after)
    → (dir ≡ repo_dir)
      ⊎ ((dir ≡ alt) × (shell.exists repo_dir after ≡ false) × (shell.exists dir after ≡ true))
chosen shell repo_dir alt dir files after h = elim (Bool-cases (shell.exists repo_dir files)) [
  | inl there ↦ inl (ground (arith, there))
  | inr missing ↦ elim (Bool-cases (shell.exists alt files)) [
    | inl found ↦ inr (
      ground (arith, missing, found),
      ground (arith, missing, found),
      ground (arith, missing, found),
    )
    | inr lost ↦ absurd (ground (arith, missing, lost))
  ]
]

-- A clone that succeeds gives the path of the work directory joined with the sanitized RID, which
-- has no separator, but may be empty, `.` or `..`; or, where that is not there afterwards, the path
-- of the RID without `rad:`, which then is.
pub clone_repo_inside :
    {F : Type 0} (shell : Shell F) (work_dir rid dir : Text) (files after : F)
    → clone_repo shell work_dir rid files ≡ (some dir, after)
    → (any is_separator (sanitize_rid rid) ≡ false)
      × ((dir ≡ in_dir work_dir (sanitize_rid rid))
          ⊎ ((dir ≡ join_path work_dir (without_rad 0 rid))
              × (shell.exists (in_dir work_dir (sanitize_rid rid)) after ≡ false)
              × (shell.exists dir after ≡ true)))
unfolding clone_repo
clone_repo_inside {F} shell work_dir rid dir files after h =
    let repo_dir = join_path work_dir (sanitize_rid rid) in
    let sync = shell.exec (rad repo_dir (ascii "sync" ∷ ascii "--fetch" ∷ [])) in
    let clone = shell.exec (rad work_dir (ascii "clone" ∷ rid ∷ sanitize_rid rid ∷ [])) in
    (
      sanitize_rid_plain rid,
      elim (Bool-cases (shell.exists repo_dir files)) [
        | inl there ↦
            let ran : (sync >> return repo_dir) files ≡ (some dir, after) = rw there at h in
            let (_, e) = succeeds_after (sync files) (return repo_dir) after ran in
            inl (ground (arith, e, join_path-sanitize_rid work_dir rid))
        | inr missing ↦
            let alt = join_path work_dir (without_rad 0 rid) in
            let choice =
              if_exists shell repo_dir (return repo_dir) (if_exists shell alt (return alt) fail) in
            let ran : (clone >> choice) files ≡ (some dir, after) = rw missing at h in
            let (between, e) = succeeds_after (clone files) choice after ran in
            rw (← join_path-sanitize_rid work_dir rid)
              (chosen shell repo_dir alt dir between after e)
      ],
    )
