-- ===== src/Verifier/Radicle/Commands.antt =====
-- The commands that verifier-service/src/radicle.rs runs: what is run, in which directory and in
-- which order, and what is made of the answers.
pub mod Inside
use near_escrow.Shared.Tests.{
  ℕ, zero, suc, is_some, Bool, not, Option, none, some, List, [], ◌∷◌, map, nat_eq, if◌then◌else◌,
}
use near_escrow.Shared.Lists.{is_empty}
use near_escrow.Text.Bytes.{Text, ascii, strip_prefix}
use near_escrow.Text.Decimal.{join}
use near_escrow.Verifier.Config.{in_dir}
use near_escrow.Verifier.Radicle.{sanitize_rid}

-- A program, its directory and its arguments.
pub data Command : Type 0 where
  rad git : (cwd : Text) → List Text → Command
  remove_dir : (dir : Text) → Command

-- The system that runs them, on a state `F` of its files: a command fails or prints something.
-- `trim` and `lines` are those of `str`.
pub record Shell (F : Type 0) : Type 0 where
  pub exec : Command → F → (Option Text × F)
  pub exists : Text → F → Bool
  pub read : Text → F → Option Text
  pub trim : Text → Text
  pub lines : Text → List Text

-- `rid.replace("rad:", "")`, with the number of bytes of a match that are still to be skipped.
unfoldable pub without_rad : ℕ → Text → Text
without_rad skip [] = []
without_rad (suc skip) (_ ∷ s) = without_rad skip s
without_rad zero (c ∷ s) =
    let match = without_rad 3 s in
    let rest = without_rad 0 s in
    if is_some (strip_prefix (ascii "rad:") (c ∷ s)) then match else c ∷ rest

-- `Path::join`: an absolute path replaces the directory.
unfoldable pub join_path : Text → Text → Text
join_path dir [] = in_dir dir []
join_path dir (c ∷ path) = if nat_eq c b'/' then c ∷ path else in_dir dir (c ∷ path)

-- A step on the files, which may fail.
abbrev pub Run : Type 0 → Type 0 → Type 0
Run F A = F → Option A × F

abbrev pub follow : {F A B : Type 0} → Option A × F → (A → Run F B) → Option B × F
follow (none, later) f = (none, later)
follow (some a, later) f = f a later

infixl 5 ◌>>=◌ ◌>>◌
abbrev pub ◌>>=◌ : {F A B : Type 0} → Run F A → (A → Run F B) → Run F B
(m >>= f) files = follow (m files) f

abbrev pub ◌>>◌ : {F A B : Type 0} → Run F A → Run F B → Run F B
m >> k = m >>= λ _. k

abbrev pub return : {F A : Type 0} → A → Run F A
return a files = (some a, files)

abbrev pub fail : {F A : Type 0} → Run F A
fail files = (none, files)

-- `path.exists()`, before what depends on it.
abbrev pub if_exists : {F A : Type 0} → Shell F → Text → Run F A → Run F A → Run F A
if_exists shell path there missing files =
    if shell.exists path files then there files else missing files

module _ {F : Type 0} (shell : Shell F) where
  unfoldable pub clone_repo : Text → Text → Run F Text
  clone_repo work_dir rid =
      let repo_dir = join_path work_dir (sanitize_rid rid) in
      let alt = join_path work_dir (without_rad 0 rid) in
      if_exists shell repo_dir
        (shell.exec (rad repo_dir (ascii "sync" ∷ ascii "--fetch" ∷ [])) >> return repo_dir)
        (shell.exec (rad work_dir (ascii "clone" ∷ rid ∷ sanitize_rid rid ∷ []))
          >> if_exists shell repo_dir (return repo_dir) (if_exists shell alt (return alt) fail))

  unfoldable pub checkout_commit : Text → Text → Run F (Unit {0})
  checkout_commit repo_dir commit_sha =
      shell.exec (git repo_dir (ascii "checkout" ∷ commit_sha ∷ [])) >> return tt

  unfoldable pub head_commit : Text → Run F Text
  head_commit repo_dir =
      shell.exec (git repo_dir (ascii "rev-parse" ∷ ascii "HEAD" ∷ [])) >>= λ output.
      return (shell.trim output)

  unfoldable pub checkout_patch : Text → Text → Run F Text
  checkout_patch repo_dir patch_id =
      shell.exec (rad repo_dir (ascii "patch" ∷ ascii "checkout" ∷ patch_id ∷ []))
      >> head_commit repo_dir

  unfoldable pub base_commit : Text → Run F Text
  base_commit repo_dir =
      shell.exec (git repo_dir (ascii "rev-parse" ∷ ascii "main" ∷ [])) >>= λ output.
      if not (is_empty (shell.trim output))
      then return (shell.trim output)
      else (shell.exec (git repo_dir (ascii "rev-parse" ∷ ascii "master" ∷ [])) >>= λ other.
          return (shell.trim other))

  unfoldable pub read_file_at_commit : Text → Text → Text → Run F Text
  read_file_at_commit repo_dir commit_sha path =
      shell.exec (git repo_dir (ascii "show" ∷ join commit_sha path ∷ []))

  unfoldable pub checkout_branch : Text → Text → Run F (Unit {0})
  checkout_branch repo_dir branch =
      shell.exec (git repo_dir (ascii "checkout" ∷ branch ∷ []))
      >> (shell.exec (git repo_dir (ascii "pull" ∷ [])) >> return tt)

  unfoldable pub list_branches : Text → Run F (List Text)
  list_branches repo_dir =
      shell.exec (git repo_dir (ascii "branch" ∷ ascii "--format=%(refname:short)" ∷ []))
      >>= λ output. return (map shell.trim (shell.lines output))

  unfoldable pub read_repo_file : Text → Text → F → Option Text
  read_repo_file repo_dir relative_path files = shell.read (join_path repo_dir relative_path) files

  unfoldable pub has_verify_script : Text → F → Bool
  has_verify_script repo_dir files =
      shell.exists (join_path (join_path repo_dir (ascii "verify")) (ascii "verify.sh")) files

  unfoldable pub has_manifest : Text → F → Bool
  has_manifest repo_dir files = shell.exists (join_path repo_dir (ascii "MANIFEST.json")) files

  unfoldable pub cleanup : Text → Text → Run F (Unit {0})
  cleanup work_dir rid =
      let repo_dir = join_path work_dir (sanitize_rid rid) in
      if_exists shell repo_dir (shell.exec (remove_dir repo_dir) >> return tt) (return tt)
