-- ===== src/Verifier/Radicle/Order.antt =====
-- The sorting of the files before they are hashed.
use near_escrow.Shared.Tests.{◌≡◌, ◌≢◌, refl, ◌∙◌, ap, true, false, Option, some, [], ◌∷◌, arith}
use near_escrow.Text.Bytes.{Text}
use near_escrow.Verifier.Host.{World, Listing}
use near_escrow.Verifier.Radicle.{path_before, insert_file, sort_files, hash_directory}

-- The same files in another order, no two of the same path being exchanged.
pub data Reordered : Listing → Listing → Type 0 where
  unchanged : {files : Listing} → Reordered files files
  exchange :
      {files : Listing} (f g : Text × Option Text)
      → f.0 ≢ g.0
      → Reordered (f ∷ g ∷ files) (g ∷ f ∷ files)
  keep :
      {files files' : Listing} (f : Text × Option Text)
      → Reordered files files'
      → Reordered (f ∷ files) (f ∷ files')
  follow :
      {files files' files'' : Listing}
      → Reordered files files'
      → Reordered files' files''
      → Reordered files files''

path_before_total : (s t : Text) → path_before s t ≡ false → path_before t s ≡ true
unfolding path_before
path_before_total [] t h = ground arith
path_before_total (a ∷ s) [] h = refl
path_before_total (a ∷ s) (b ∷ t) h = ground (arith, path_before_total s t)

path_before_antisym : (s t : Text) → path_before s t ≡ true → path_before t s ≡ true → s ≡ t
unfolding path_before
path_before_antisym [] [] h h' = refl
path_before_antisym [] (b ∷ t) h h' = ground arith
path_before_antisym (a ∷ s) [] h h' = ground arith
path_before_antisym (a ∷ s) (b ∷ t) h h' = ground (arith, path_before_antisym s t)

path_before_trans :
    (s t u : Text) → path_before s t ≡ true → path_before t u ≡ true → path_before s u ≡ true
unfolding path_before
path_before_trans [] t u h h' = refl
path_before_trans (a ∷ s) [] u h h' = ground arith
path_before_trans (a ∷ s) (b ∷ t) [] h h' = ground arith
path_before_trans (a ∷ s) (b ∷ t) (c ∷ u) h h' = ground (arith, path_before_trans s t u)

insert_file-insert_file :
    (f g : Text × Option Text) (files : Listing)
    → f.0 ≢ g.0
    → insert_file f (insert_file g files) ≡ insert_file g (insert_file f files)
unfolding insert_file
insert_file-insert_file f g [] other =
    ground (arith, path_before_total f.0 g.0, path_before_antisym f.0 g.0)
insert_file-insert_file f g (x ∷ files) other = ground (
  arith,
  path_before_total f.0 g.0,
  path_before_antisym f.0 g.0,
  path_before_total f.0 x.0,
  path_before_total g.0 x.0,
  path_before_trans f.0 g.0 x.0,
  path_before_trans g.0 f.0 x.0,
  insert_file-insert_file f g files other,
)

sort_files-Reordered :
    {files files' : Listing} → Reordered files files' → sort_files files ≡ sort_files files'
unfolding sort_files
sort_files-Reordered unchanged = refl
sort_files-Reordered (exchange {files} f g other) =
    insert_file-insert_file f g (sort_files files) other
sort_files-Reordered (keep f r) = ap (insert_file f) (sort_files-Reordered r)
sort_files-Reordered (follow r r') = sort_files-Reordered r ∙ sort_files-Reordered r'

-- The hash of a directory does not depend on the order in which its files are listed.
pub hash_directory-Reordered :
    (w w' : World) (repo_dir dir : Text) (files files' : Listing)
    → w.list_files repo_dir dir ≡ some files
    → w'.list_files repo_dir dir ≡ some files'
    → Reordered files files'
    → w'.sha256_hex ≡ w.sha256_hex
    → hash_directory w repo_dir dir ≡ hash_directory w' repo_dir dir
unfolding hash_directory
hash_directory-Reordered w w' repo_dir dir files files' listed listed' r alike =
    rw (listed, listed', alike, sort_files-Reordered r, hash_directory)
