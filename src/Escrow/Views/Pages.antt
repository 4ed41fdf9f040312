-- ===== src/Escrow/Views/Pages.antt =====
-- What the pages of the views hold.
use near_escrow.Shared.Tests.{
  ℕ, zero, suc, ◌%◌, u32_mod, ◌≤◌, ◌≡◌, refl, sym, ap, Bool, true, ◌&&◌, Option, List, [], ◌∷◌, map,
  arith, unwrap_or,
}
use near_escrow.Shared.Lists.{length, select, take, drop}
use near_escrow.Shared.Outcome.{ok}
use near_escrow.Text.Bytes.{Text}
use near_escrow.Shared.Lists.{length-take-le}
use near_escrow.Escrow.Types.{EscrowStatus, same_status, Escrow}
use near_escrow.Escrow.State.{Contract}
use near_escrow.Escrow.Views.{
  page, page_size, view_of, view_entry, EscrowView, status_of_name, list_by_status,
}

abbrev pub all_views : (EscrowView → Bool) → List EscrowView → Bool
all_views p [] = true
all_views p (v ∷ vs) = p v && all_views p vs

abbrev all_entries : (Escrow → Bool) → List (Text × Escrow) → Bool
all_entries p [] = true
all_entries p (x ∷ xs) = p x.1 && all_entries p xs

all_entries-select :
    (p : Escrow → Bool) (xs : List (Text × Escrow)) → all_entries p (select (λ x. p x.1) xs) ≡ true
all_entries-select p [] = refl
all_entries-select p (x ∷ xs) = ground (arith, all_entries-select p xs)

all_entries-drop :
    (p : Escrow → Bool) (n : ℕ) (xs : List (Text × Escrow))
    → all_entries p xs ≡ true
    → all_entries p (drop n xs) ≡ true
all_entries-drop p zero xs h = h
all_entries-drop p (suc n) [] h = refl
all_entries-drop p (suc n) (x ∷ xs) h = all_entries-drop p n xs (ground arith)

all_entries-take :
    (p : Escrow → Bool) (n : ℕ) (xs : List (Text × Escrow))
    → all_entries p xs ≡ true
    → all_entries p (take n xs) ≡ true
all_entries-take p zero xs h = refl
all_entries-take p (suc n) [] h = refl
all_entries-take p (suc n) (x ∷ xs) h = ground (arith, all_entries-take p n xs (ground arith))

views_of_status :
    (t : EscrowStatus) (xs : List (Text × Escrow))
    → all_entries (λ e. same_status e.status t) xs ≡ true
    → all_views (λ v. same_status v.status t) (map view_entry xs) ≡ true
unfolding view_of
views_of_status t [] h = refl
views_of_status t (x ∷ xs) h = ground (arith, views_of_status t xs (ground arith))

length-map : (xs : List (Text × Escrow)) → length (map view_entry xs) ≡ length xs
length-map [] = refl
length-map (_ ∷ xs) = ap suc (length-map xs)

-- A page of the list by status has at most a hundred views, each with the status that was named.
pub list_by_status-page :
    (name : Text) (from_index limit : Option ℕ) (s : Contract) (t : EscrowStatus)
    (views : List EscrowView)
    → status_of_name name ≡ ok t
    → list_by_status name from_index limit s ≡ ok views
    → (length views ≤ 100) × (all_views (λ v. same_status v.status t) views ≡ true)
unfolding list_by_status page
list_by_status-page name from_index limit s t views named h =
    let chosen = select (λ x. same_status x.1.status t) s.escrows in
    let rest = drop (unwrap_or from_index 0 % u32_mod) chosen in
    let of_status =
      all_entries-take (λ e. same_status e.status t) (page_size limit) rest
        (all_entries-drop (λ e. same_status e.status t) (unwrap_or from_index 0 % u32_mod) chosen
          (all_entries-select (λ e. same_status e.status t) s.escrows)) in
    let shown : map view_entry (take (page_size limit) rest) ≡ views = ground arith in
    (
      rw (sym shown, length-map (take (page_size limit) rest))
          (omega (arith, length-take-le (page_size limit) rest)),
      rw (sym shown) (views_of_status t (take (page_size limit) rest) of_status),
    )
