-- ===== src/Verifier/Radicle/Tree/Hashed.antt =====
-- What the hash of a directory says of its tree.
use near_escrow.Shared.Tests.{◌≡◌, ◌∙◌, ◌↔◌, sym, inl, inr, true, Option, some, [], ◌∷◌, Bool-cases}
use mathlib.Core.List.{List, Memᴰ}
use mathlib.Core.List.Memᴰ
use mathlib.Core.Path.{subst}
use near_escrow.Shared.Outcome.{ok}
use near_escrow.Text.Bytes.{Text}
use near_escrow.Verifier.Host.{World, Listing}
use near_escrow.Verifier.Radicle.{path_before, insert_file, sort_files, hash_directory}
use near_escrow.Verifier.Radicle.Fed.{all_without_nul, hash_directory_injective}
use near_escrow.Verifier.Radicle.Tree.{
  Entries, FileAt, PathsKept, collect_files, files_below, collect_files-files_below,
  collected_stands, standing_collected,
}

module _ {ℓ} {A : Type ℓ} {a : A} where
  under_head :
      (x : A) {xs ys : List A} → (Memᴰ a xs → Memᴰ a ys) → Memᴰ a (x ∷ xs) → Memᴰ a (x ∷ ys)
  under_head x below m = elim (Memᴰ.cases_cons m) [
    | inl e ↦ Memᴰ.head e
    | inr later ↦ Memᴰ.tail (below later)
  ]

  swap_heads : (x y : A) {xs : List A} → Memᴰ a (x ∷ y ∷ xs) → Memᴰ a (y ∷ x ∷ xs)
  swap_heads x y m = elim (Memᴰ.cases_cons m) [
    | inl e ↦ Memᴰ.tail (Memᴰ.head e)
    | inr later ↦ under_head y Memᴰ.tail later
  ]

insert_file-Memᴰ :
    (f g : Text × Option Text) (files : Listing) → Memᴰ f (insert_file g files) ↔ Memᴰ f (g ∷ files)
unfolding insert_file
insert_file-Memᴰ f g [] = (λ m. m, λ m. m)
insert_file-Memᴰ f g (x ∷ files) =
    let (to, from) = insert_file-Memᴰ f g files in
    elim (Bool-cases (path_before g.0 x.0)) [
      | inl first ↦ rw (first, insert_file) (λ m. m, λ m. m)
      | inr later ↦
          rw (later, insert_file)
            (λ m. swap_heads x g (under_head x to m), λ m. under_head x from (swap_heads g x m))
    ]

sort_files-Memᴰ :
    (f : Text × Option Text) (files : Listing) → Memᴰ f (sort_files files) ↔ Memᴰ f files
unfolding sort_files
sort_files-Memᴰ f [] = (λ m. m, λ m. m)
sort_files-Memᴰ f (g ∷ files) =
    let (to, from) = insert_file-Memᴰ f g (sort_files files) in
    let (to', from') = sort_files-Memᴰ f files in
    (λ m. under_head g to' (to m), λ m. from (under_head g from' m))

-- If SHA-256 does not take two texts to one, then two directories of the same hash, whose files
-- are what the walk of a tree collects, with paths that `to_string_lossy` keeps and with no byte 0
-- in path or content, hold the same files at the same paths with the same contents.
pub hash_directory_fixes_tree :
    (w : World) (lossy : Text → Text) (repo_dir repo_dir' dir dir' : Text) (es es' : Entries)
    (files files' : Listing) (h : Text)
    → ((s t : Text) → w.sha256_hex s ≡ w.sha256_hex t → s ≡ t)
    → PathsKept lossy [] es
    → PathsKept lossy [] es'
    → w.list_files repo_dir dir ≡ collect_files lossy [] es
    → w.list_files repo_dir' dir' ≡ collect_files lossy [] es'
    → collect_files lossy [] es ≡ some files
    → collect_files lossy [] es' ≡ some files'
    → all_without_nul files ≡ true
    → all_without_nul files' ≡ true
    → hash_directory w repo_dir dir ≡ ok h
    → hash_directory w repo_dir' dir' ≡ ok h
    → (f : Text × Option Text) → FileAt [] es f ↔ FileAt [] es' f
hash_directory_fixes_tree w lossy repo_dir repo_dir' dir dir' es es' files files' h no_collision
      kept kept' lists lists' collected collected' clean clean' e e' f =
    let found : files_below [] es ≡ some files =
      sym (collect_files-files_below lossy [] es kept) ∙ collected in
    let found' : files_below [] es' ≡ some files' =
      sym (collect_files-files_below lossy [] es' kept') ∙ collected' in
    let same =
      hash_directory_injective w repo_dir repo_dir' dir dir' files files' h no_collision
        (lists ∙ collected) (lists' ∙ collected') clean clean' e e' in
    let (out, into) = sort_files-Memᴰ f files in
    let (out', into') = sort_files-Memᴰ f files' in
    (
      λ there.
          collected_stands [] es' files' f found'
            (out' (subst (λ l. Memᴰ f l) same (into (standing_collected files there found)))),
      λ there.
          collected_stands [] es files f found (
            out
              (subst (λ l. Memᴰ f l) (sym same) (into' (standing_collected files' there found')))),
    )
