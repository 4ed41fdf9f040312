-- ===== src/Tests/Checkouts.antt =====
-- Clones, hashes of directories and base 58 on small inputs.
use near_escrow.Shared.Tests.{◌++◌, ◌↔◌, ◌≡◌, refl, none, some, [], ◌∷◌, arith, if◌then◌else◌}
use near_escrow.Shared.Lists.{is_empty}
use near_escrow.Text.Bytes.{Text, ascii}
use near_escrow.Verifier.Host.{World, Listing}
use near_escrow.Verifier.Radicle.{path_before, insert_file, feed, sort_files, hash_directory}
use near_escrow.Verifier.Radicle.Fed.{without_nul, all_without_nul}
use near_escrow.Verifier.Radicle.Tree.{Entries, no_entry, file, directory, FileAt, collect_files}
use near_escrow.Verifier.Radicle.Tree.Hashed.{hash_directory_fixes_tree}
use near_escrow.Verifier.Radicle.Order.{exchange, hash_directory-Reordered}
use near_escrow.Verifier.Base58.{bs58_encode}
use near_escrow.Verifier.Base58.Value.{bytes_value, base58_value, bs58_encode-value}
use near_escrow.Tests.World.{files, world}

bs58_encode-value_example :
    (text : Text) × (bs58_encode (0 ∷ 1 ∷ 2 ∷ []) ≡ some text) × (base58_value 0 text ≡ 258)
unfolding bytes_value
bs58_encode-value_example =
    bs58_encode-value (0 ∷ 1 ∷ 2 ∷ []) (omega arith, (omega arith, (omega arith, tt)))

-- The same tree, read in two orders.
abbrev tests : Entries
tests = file (ascii "x") (some (ascii "2")) no_entry

abbrev in_one_order : Entries
in_one_order =
    file (ascii "verify.sh") (some (ascii "exit 0")) (directory (ascii "t") tests no_entry)

abbrev in_another : Entries
in_another = directory (ascii "t") tests (file (ascii "verify.sh") (some (ascii "exit 0")) no_entry)

abbrev two_listings : World
two_listings = record (world none files) {
  list_files =
      λ _ dir. collect_files (λ p. p) [] (if is_empty dir then in_one_order else in_another);
}

abbrev listed : Entries → Listing
listed es = elim (collect_files (λ p. p) [] es) [ none ↦ [] | some found ↦ found ]

abbrev tree_hash : Text
tree_hash =
    ascii "sha256:"
    ++ (ascii "t/x" ++ 0 ∷ (ascii "2" ++ 0 ∷ (ascii "verify.sh" ++ 0 ∷ (ascii "exit 0" ++ 0 ∷ []))))

hash_directory_fixes_tree_example :
    FileAt [] in_one_order (ascii "t/x", some (ascii "2"))
    ↔ FileAt [] in_another (ascii "t/x", some (ascii "2"))
unfolding hash_directory all_without_nul without_nul feed sort_files insert_file path_before
    collect_files
hash_directory_fixes_tree_example =
    hash_directory_fixes_tree two_listings (λ p. p) (ascii "d") (ascii "d") [] (ascii "b")
      in_one_order in_another (listed in_one_order) (listed in_another) tree_hash (λ s t e. e)
      (refl, ((refl, tt), tt)) ((refl, tt), (refl, tt)) refl refl refl refl refl refl refl refl
      (ascii "t/x", some (ascii "2"))

hash_directory-Reordered_example :
    hash_directory (world none files) (ascii "d") []
    ≡ hash_directory (world none (sort_files files)) (ascii "d") []
unfolding sort_files insert_file path_before
hash_directory-Reordered_example =
    hash_directory-Reordered (world none files) (world none (sort_files files)) (ascii "d") [] files
      (sort_files files) refl refl
      (exchange (ascii "verify.sh", some (ascii "exit 0")) (ascii "data", some (ascii "1"))
        (λ e. ground (arith, e)))
      refl
