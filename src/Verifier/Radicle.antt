-- ===== src/Verifier/Radicle.antt =====
-- The integrity hash and the directory names of verifier-service/src/radicle.rs. The runs of `rad`
-- and `git` are parameters of the pipeline.
pub mod Fed
pub mod Order
pub mod Commands
pub mod Tree
use near_escrow.Shared.Tests.{
  Bool, true, false, Option, none, some, [], ◌∷◌, ◌++◌, ltb, nat_eq, ◌||◌, if◌then◌else◌,
}
use near_escrow.Shared.Outcome.{ok, panic, ◌>>=◌}
use near_escrow.Text.Bytes.{Text, ascii}
use near_escrow.Verifier.Host.{World, Listing, Try, error}

-- The order of `String`: byte by byte, a prefix first.
unfoldable pub path_before : Text → Text → Bool
path_before [] t = true
path_before (_ ∷ _) [] = false
path_before (a ∷ s) (b ∷ t) = if nat_eq a b then path_before s t else ltb a b

-- `all_files.sort()`; the paths of a directory are all different.
unfoldable pub insert_file : Text × Option Text → Listing → Listing
insert_file f [] = f ∷ []
insert_file f (g ∷ rest) = if path_before f.0 g.0 then f ∷ g ∷ rest else g ∷ insert_file f rest

unfoldable pub sort_files : Listing → Listing
sort_files [] = []
sort_files (f ∷ rest) = insert_file f (sort_files rest)

-- The bytes that one file feeds to the hasher, before those of the later ones.
abbrev pub fed : Text → Text → Text → Text
fed path content rest = path ++ 0 ∷ (content ++ 0 ∷ rest)

-- The loop of `hash_directory`: an unreadable file is an error.
unfoldable pub feed : Listing → Try Text
feed [] = ok []
feed ((path, none) ∷ files) = panic error
feed ((path, some content) ∷ files) = feed files >>= λ rest. ok (fed path content rest)

unfoldable pub hash_directory : World → Text → Text → Try Text
hash_directory w repo_dir dir = elim (w.list_files repo_dir dir) [
  | none ↦ panic error
  | some files ↦ feed (sort_files files) >>= λ bytes. ok (ascii "sha256:" ++ w.sha256_hex bytes)
]

-- `rid.replace(":", "_").replace("/", "_")`
unfoldable pub sanitize_rid : Text → Text
sanitize_rid [] = []
sanitize_rid (c ∷ s) = (if nat_eq c b':' || nat_eq c b'/' then b'_' else c) ∷ sanitize_rid s
