-- ===== src/Verifier/Radicle/Fed.antt =====
-- What the integrity hash tells apart.
use near_escrow.Shared.Tests.{
  ◌≡◌, refl, sym, ◌∙◌, ap, Bool, true, not, ◌&&◌, inl, inr, Option, none, some, [], ◌∷◌, ◌++◌,
  arith, nat_eq, Bool-cases,
}
use mathlib.Core.List.{append_cancel_left}
use near_escrow.Shared.Outcome.{ok, Outcome-cases}
use near_escrow.Text.Bytes.{Text, ascii}
use near_escrow.Verifier.Host.{World, Listing}
use near_escrow.Verifier.Radicle.{path_before, insert_file, sort_files, fed, feed, hash_directory}

unfoldable pub without_nul : Text → Bool
without_nul [] = true
without_nul (c ∷ s) = not (nat_eq c 0) && without_nul s

abbrev entry_without_nul : Text × Option Text → Bool
entry_without_nul (path, none) = without_nul path
entry_without_nul (path, some content) = without_nul path && without_nul content

-- No path and no content has a byte 0.
unfoldable pub all_without_nul : Listing → Bool
all_without_nul [] = true
all_without_nul (f ∷ files) = entry_without_nul f && all_without_nul files

and_swap : (a b c : Bool) → (a && (b && c)) ≡ (b && (a && c))
and_swap a b c = ground arith

-- The first byte 0 ends a text that has none.
up_to_nul :
    (s t u v : Text)
    → without_nul s ≡ true
    → without_nul t ≡ true
    → s ++ 0 ∷ u ≡ t ++ 0 ∷ v
    → (s ≡ t) × (u ≡ v)
unfolding without_nul
up_to_nul [] [] u v hs ht e = (refl, cc)
up_to_nul [] (d ∷ t) u v hs ht e = let first : 0 ≡ d = cc in ground (arith, first)
up_to_nul (c ∷ s) [] u v hs ht e = let first : c ≡ 0 = cc in ground (arith, first)
up_to_nul (c ∷ s) (d ∷ t) u v hs ht e =
    let first : c ≡ d = cc in
    let (front, rest) = up_to_nul s t u v (ground arith) (ground arith) (cc) in (cc, rest)

feed-cons :
    (path content : Text) (files : Listing) (bytes : Text)
    → feed ((path, some content) ∷ files) ≡ ok bytes
    → (rest : Text) × (feed files ≡ ok rest) × (bytes ≡ fed path content rest)
unfolding feed
feed-cons path content files bytes h = elim (Outcome-cases (feed files)) [
  | inl (rest, e) ↦ (rest, e, ground arith)
  | inr (f, e) ↦ ground (arith, e)
]

-- Files that feed the same bytes are the same files.
feed_injective :
    (files files' : Listing) (bytes : Text)
    → all_without_nul files ≡ true
    → all_without_nul files' ≡ true
    → feed files ≡ ok bytes
    → feed files' ≡ ok bytes
    → files ≡ files'
unfolding all_without_nul feed
feed_injective [] [] bytes h h' e e' = refl
feed_injective [] ((path, none) ∷ files') bytes h h' e e' = ground arith
feed_injective [] (([], some content) ∷ files') bytes h h' e e' = ground arith
feed_injective [] ((_ ∷ _, some content) ∷ files') bytes h h' e e' = ground arith
feed_injective ((path, none) ∷ files) files' bytes h h' e e' = ground arith
feed_injective (([], some content) ∷ files) [] bytes h h' e e' = ground arith
feed_injective ((_ ∷ _, some content) ∷ files) [] bytes h h' e e' = ground arith
feed_injective ((path, some content) ∷ files) ((path', none) ∷ files') bytes h h' e e' =
    ground arith
feed_injective ((path, some content) ∷ files) ((path', some content') ∷ files') bytes h h' e e' =
    let (rest, fed_rest, is) = feed-cons path content files bytes e in
    let (rest', fed_rest', is') = feed-cons path' content' files' bytes e' in
    let (same_path, behind) =
      up_to_nul path path' (content ++ 0 ∷ rest) (content' ++ 0 ∷ rest') (ground arith)
        (ground arith) (sym is ∙ is') in
    let (same_content, same_rest) =
      up_to_nul content content' rest rest' (ground arith) (ground arith) behind in
    let same_files =
      feed_injective files files' rest (ground arith) (ground arith) fed_rest
        (rw same_rest fed_rest') in
    cc

insert_file-without_nul :
    (f : Text × Option Text) (files : Listing)
    → all_without_nul (insert_file f files) ≡ entry_without_nul f && all_without_nul files
unfolding all_without_nul insert_file
insert_file-without_nul f [] = refl
insert_file-without_nul f (g ∷ files) = elim (Bool-cases (path_before f.0 g.0)) [
  | inl before ↦ rw before
  | inr after ↦ rw (after) (
      rw (insert_file-without_nul f files)
        (and_swap (entry_without_nul g) (entry_without_nul f) (all_without_nul files)))
]

sort_files-without_nul :
    (files : Listing) → all_without_nul (sort_files files) ≡ all_without_nul files
unfolding all_without_nul sort_files
sort_files-without_nul [] = refl
sort_files-without_nul (f ∷ files) =
    insert_file-without_nul f (sort_files files)
    ∙ ap (λ b. entry_without_nul f && b) (sort_files-without_nul files)

feed-hash_directory :
    (w : World) (repo_dir dir : Text) (files : Listing) (h : Text)
    → w.list_files repo_dir dir ≡ some files
    → hash_directory w repo_dir dir ≡ ok h
    → (bytes : Text) × (feed (sort_files files) ≡ ok bytes)
      × (h ≡ ascii "sha256:" ++ w.sha256_hex bytes)
unfolding hash_directory
feed-hash_directory w repo_dir dir files h listed e =
    elim (Outcome-cases (feed (sort_files files))) [
      | inl (bytes, is) ↦ (bytes, is, ground (arith, listed, e))
      | inr (f, broke) ↦ ground (arith, listed, e)
    ]

-- If SHA-256 does not take two texts to one, then directories of the same hash, none of whose
-- paths and contents has a byte 0, hold the same files with the same contents.
pub hash_directory_injective :
    (w : World) (repo_dir repo_dir' dir dir' : Text) (files files' : Listing) (h : Text)
    → ((s t : Text) → w.sha256_hex s ≡ w.sha256_hex t → s ≡ t)
    → w.list_files repo_dir dir ≡ some files
    → w.list_files repo_dir' dir' ≡ some files'
    → all_without_nul files ≡ true
    → all_without_nul files' ≡ true
    → hash_directory w repo_dir dir ≡ ok h
    → hash_directory w repo_dir' dir' ≡ ok h
    → sort_files files ≡ sort_files files'
hash_directory_injective w repo_dir repo_dir' dir dir' files files' h no_collision listed listed'
      clean clean' e e' =
    let (bytes, fed_bytes, is) = feed-hash_directory w repo_dir dir files h listed e in
    let (bytes', fed_bytes', is') = feed-hash_directory w repo_dir' dir' files' h listed' e' in
    let same : bytes' ≡ bytes =
      no_collision bytes' bytes (append_cancel_left (ascii "sha256:") _ _ (sym is' ∙ is)) in
    feed_injective (sort_files files) (sort_files files') bytes
      (sort_files-without_nul files ∙ clean) (sort_files-without_nul files' ∙ clean') fed_bytes
      (rw (← same) fed_bytes')
