-- ===== src/Verifier/Radicle/Tree.antt =====
-- `collect_files` of verifier-service/src/radicle.rs on a directory tree, and what the hash of a
-- directory says of its tree.
pub mod Hashed
use near_escrow.Shared.Tests.{
  ◌≡◌, ◌∙◌, ◌↔◌, ◌⊎◌, refl, sym, ap, inl, inr, Bool, true, false, Option, none, some, List, [], ◌∷◌,
  ◌++◌, arith, if◌then◌else◌, Option-cases, Bool-cases,
}
use mathlib.Core.List.{Memᴰ}
use mathlib.Core.List.Memᴰ
use mathlib.Core.Path.{subst}
use mathlib.Core.Option.{some_inj}
use near_escrow.Shared.Lists.{is_empty}
use near_escrow.Shared.Outcome.{ok}
use near_escrow.Text.Bytes.{Text}
use near_escrow.Verifier.Host.{World, Listing}
use near_escrow.Verifier.Radicle.{path_before, insert_file, sort_files, hash_directory}
use near_escrow.Verifier.Radicle.Fed.{all_without_nul, hash_directory_injective}

-- The entries of a directory in the order in which they are read: a file with the bytes that can
-- be read of it, a directory with its entries, or one that cannot be read.
pub data Entries : Type 0 where
  no_entry : Entries
  file : (name : Text) (content : Option Text) → Entries → Entries
  directory : (name : Text) → Entries → Entries → Entries
  unreadable : (name : Text) → Entries → Entries

-- `path.strip_prefix(base)` for an entry of the directory at that relative path.
abbrev pub under : Text → Text → Text
under at name = if is_empty at then name else at ++ b'/' ∷ name

-- The files found, in the order of the walk; `none` where a directory cannot be read. Their paths go
-- through `to_string_lossy`, which is an argument.
unfoldable pub collect_files : (Text → Text) → Text → Entries → Option Listing
collect_files lossy at no_entry = some []
collect_files lossy at (file name content rest) = elim (collect_files lossy at rest) [
  | none ↦ none
  | some more ↦ some ((lossy (under at name), content) ∷ more)
]
collect_files lossy at (directory name inside rest) =
    elim (collect_files lossy (under at name) inside) [
      | none ↦ none
      | some found ↦ elim (collect_files lossy at rest) [
        | none ↦ none
        | some more ↦ some (found ++ more)
      ]
    ]
collect_files lossy at (unreadable name rest) = none

-- The files below a directory with their true paths, in the order of the walk.
unfoldable pub files_below : Text → Entries → Option Listing
files_below at no_entry = some []
files_below at (file name content rest) = elim (files_below at rest) [
  | none ↦ none
  | some more ↦ some ((under at name, content) ∷ more)
]
files_below at (directory name inside rest) = elim (files_below (under at name) inside) [
  | none ↦ none
  | some found ↦ elim (files_below at rest) [ none ↦ none | some more ↦ some (found ++ more) ]
]
files_below at (unreadable name rest) = none

-- The paths of all files are kept by `to_string_lossy`, as those in UTF-8 are.
abbrev pub PathsKept : (Text → Text) → Text → Entries → Type 0
PathsKept lossy at no_entry = Unit
PathsKept lossy at (file name content rest) =
    (lossy (under at name) ≡ under at name) × PathsKept lossy at rest
PathsKept lossy at (directory name inside rest) =
    PathsKept lossy (under at name) inside × PathsKept lossy at rest
PathsKept lossy at (unreadable name rest) = Unit

pub collect_files-files_below :
    (lossy : Text → Text) (at : Text) (es : Entries)
    → PathsKept lossy at es
    → collect_files lossy at es ≡ files_below at es
unfolding collect_files files_below
collect_files-files_below lossy at no_entry k = refl
collect_files-files_below lossy at (file name content rest) k =
    ground (arith, k.0, collect_files-files_below lossy at rest k.1)
collect_files-files_below lossy at (directory name inside rest) k = ground (
  arith,
  collect_files-files_below lossy (under at name) inside k.0,
  collect_files-files_below lossy at rest k.1,
)
collect_files-files_below lossy at (unreadable name rest) k = refl

-- A file stands at a path, with that content, below a directory of that relative path.
pub data FileAt : Text → Entries → Text × Option Text → Type 0 where
  here :
      (at name : Text) (content : Option Text) (rest : Entries)
      → FileAt at (file name content rest) (under at name, content)
  inside :
      (at name : Text) {sub rest : Entries} {f : Text × Option Text}
      → FileAt (under at name) sub f
      → FileAt at (directory name sub rest) f
  behind_file :
      (at name : Text) (content : Option Text) {rest : Entries} {f : Text × Option Text}
      → FileAt at rest f
      → FileAt at (file name content rest) f
  behind_directory :
      (at name : Text) {sub rest : Entries} {f : Text × Option Text}
      → FileAt at rest f
      → FileAt at (directory name sub rest) f
  behind_unreadable :
      (at name : Text) {rest : Entries} {f : Text × Option Text}
      → FileAt at rest f
      → FileAt at (unreadable name rest) f

-- What the walk finds stands in the tree, and what stands in a tree that can be walked is found.
pub collected_stands :
    (at : Text) (es : Entries) (files : Listing) (f : Text × Option Text)
    → files_below at es ≡ some files
    → Memᴰ f files
    → FileAt at es f
unfolding files_below
collected_stands at no_entry files f h m =
    absurd (Memᴰ.not-nil (subst (λ l. Memᴰ f l) (sym (some_inj.0 h)) m))
collected_stands at (file name content rest) files f h m =
    elim (Option-cases (files_below at rest)) [
      | inl broken ↦ ground (arith, broken)
      | inr (more, found) ↦
          let all : (under at name, content) ∷ more ≡ files = ground (arith, found) in
          elim (Memᴰ.cases_cons (subst (λ l. Memᴰ f l) (sym all) m)) [
            | inl this ↦
                subst (λ g. FileAt at (file name content rest) g) (sym this)
                  (here at name content rest)
            | inr later ↦ behind_file at name content (collected_stands at rest more f found later)
          ]
    ]
collected_stands at (directory name sub rest) files f h m =
    elim (Option-cases (files_below (under at name) sub)) [
      | inl broken ↦ ground (arith, broken)
      | inr (below, found) ↦ elim (Option-cases (files_below at rest)) [
        | inl broken ↦ ground (arith, found, broken)
        | inr (more, found') ↦
            let all : below ++ more ≡ files = ground (arith, found, found') in
            elim (Memᴰ.append_cases below (subst (λ l. Memᴰ f l) (sym all) m)) [
              | inl deep ↦ inside at name (collected_stands (under at name) sub below f found deep)
              | inr later ↦ behind_directory at name (collected_stands at rest more f found' later)
            ]
      ]
    ]
collected_stands at (unreadable name rest) files f h m = ground arith

pub standing_collected :
    {at : Text} {es : Entries} {f : Text × Option Text} (files : Listing)
    → FileAt at es f
    → files_below at es ≡ some files
    → Memᴰ f files
unfolding files_below
standing_collected files (here at name content rest) h = elim (Option-cases (files_below at rest)) [
  | inl broken ↦ ground (arith, broken)
  | inr (more, found) ↦
      let all : (under at name, content) ∷ more ≡ files = ground (arith, found) in
      subst (λ l. Memᴰ (under at name, content) l) all (Memᴰ.head refl)
]
standing_collected files (inside at name {sub} {rest} {f} below) h =
    elim (Option-cases (files_below (under at name) sub)) [
      | inl broken ↦ ground (arith, broken)
      | inr (deep, found) ↦ elim (Option-cases (files_below at rest)) [
        | inl broken ↦ ground (arith, found, broken)
        | inr (more, found') ↦
            let all : deep ++ more ≡ files = ground (arith, found, found') in
            subst (λ l. Memᴰ f l) all (Memᴰ.append_left more (standing_collected deep below found))
      ]
    ]
standing_collected files (behind_file at name content {rest} {f} later) h =
    elim (Option-cases (files_below at rest)) [
      | inl broken ↦ ground (arith, broken)
      | inr (more, found) ↦
          let all : (under at name, content) ∷ more ≡ files = ground (arith, found) in
          subst (λ l. Memᴰ f l) all (Memᴰ.tail (standing_collected more later found))
    ]
standing_collected files (behind_directory at name {sub} {rest} {f} later) h =
    elim (Option-cases (files_below (under at name) sub)) [
      | inl broken ↦ ground (arith, broken)
      | inr (deep, found) ↦ elim (Option-cases (files_below at rest)) [
        | inl broken ↦ ground (arith, found, broken)
        | inr (more, found') ↦
            let all : deep ++ more ≡ files = ground (arith, found, found') in
            subst (λ l. Memᴰ f l) all
              (Memᴰ.append_right deep (standing_collected more later found'))
      ]
    ]
standing_collected files (behind_unreadable at name later) h = ground arith
