-- ===== src/Escrow/Views/Walk.antt =====
-- Reading the views page after page.
use near_escrow.Shared.Tests.{
  ℕ, zero, suc, ◌+◌, ◌*◌, ◌%◌, ◌<◌, u32_mod, ◌≤◌, ◌≡◌, ◌∙◌, refl, sym, ap, Bool, some, List, [],
  ◌∷◌, ◌++◌, map, arith,
}
use near_escrow.Shared.Lists.{length, select, take, drop, length-select-le}
use near_escrow.Shared.Outcome.{ok, panic}
use near_escrow.Text.Bytes.{Text, ◌==◌}
use near_escrow.Escrow.Types.{EscrowStatus, opened, same_status, Escrow}
use near_escrow.Escrow.Host.{Tx}
use near_escrow.Escrow.State.{Contract}
use near_escrow.Escrow.Submit.{is_text}
use near_escrow.Escrow.Views.{
  EscrowView, page, page_size, view_entry, list_open, list_by_agent, list_by_worker, list_by_status,
  status_of_name,
}

-- The first k pages of n entries from an index on, one after the other.
abbrev pub walk : (ℕ → List EscrowView) → ℕ → ℕ → ℕ → List EscrowView
walk read n zero i = []
walk read n (suc k) i = read i ++ walk read n k (i + n)

module _ {ℓ} {A : Type ℓ} where
  drop_all : (n : ℕ) (xs : List A) → length xs ≤ n → drop n xs ≡ []
  drop_all zero [] h = refl
  drop_all zero (x ∷ xs) h = absurd (omega arith)
  drop_all (suc n) [] h = refl
  drop_all (suc n) (x ∷ xs) h = drop_all n xs (omega arith)

  drop_nil : (n : ℕ) → drop {A = A} n [] ≡ []
  drop_nil zero = refl
  drop_nil (suc n) = refl

  drop-drop : (i n : ℕ) (xs : List A) → drop n (drop i xs) ≡ drop (i + n) xs
  drop-drop zero n xs = ap (λ j. drop j xs) (omega arith)
  drop-drop (suc i) n [] = drop_nil n ∙ sym (drop_nil (suc i + n))
  drop-drop (suc i) n (x ∷ xs) =
      let later : suc (i + n) ≡ suc i + n = omega arith in
      drop-drop i n xs ∙ ap (λ j. drop j (x ∷ xs)) later

  take-drop : (n : ℕ) (xs : List A) → take n xs ++ drop n xs ≡ xs
  take-drop zero xs = refl
  take-drop (suc n) [] = refl
  take-drop (suc n) (x ∷ xs) = ap (λ r. x ∷ r) (take-drop n xs)

map-append :
    (xs ys : List (Text × Escrow))
    → map view_entry (xs ++ ys) ≡ map view_entry xs ++ map view_entry ys
map-append [] ys = refl
map-append (x ∷ xs) ys = ap (λ r. view_entry x ∷ r) (map-append xs ys)

-- Where each page shows the next n of a list, enough pages show all of it from the index on.
walk_shows_rest :
    (read : ℕ → List EscrowView) (n k i : ℕ) (xs : List (Text × Escrow))
    → ((j : ℕ) → j < u32_mod → read j ≡ map view_entry (take n (drop j xs)))
    → length xs ≤ i + n * k
    → i + n * k < u32_mod
    → walk read n k i ≡ map view_entry (drop i xs)
walk_shows_rest read n zero i xs h enough fits = rw (drop_all i xs (omega arith)) refl
walk_shows_rest read n (suc k) i xs h enough fits =
    rw
      (
        h i (omega arith),
        walk_shows_rest read n k (i + n) xs h (grind arith) (grind arith),
        ← drop-drop i n xs,
      )
      (rw (← map-append (take n (drop i xs)) (drop n (drop i xs)), take-drop n (drop i xs)) refl)

in_range : (j : ℕ) → j < u32_mod → j % u32_mod ≡ j
in_range j h = omega arith

page_size_in_range : (n : ℕ) → n ≤ 100 → page_size (some n) ≡ n
page_size_in_range n h = ground arith

-- The views that a call of `list_by_status` shows; none where it panics.
abbrev pub shown : Tx (List EscrowView) → List EscrowView
shown (ok views) = views
shown (panic _) = []

abbrev matching : (Escrow → Bool) → Contract → List EscrowView
matching p s = map view_entry (select (λ x. p x.1) s.escrows)

module _ (n k : ℕ) (s : Contract) (small : n ≤ 100) (enough : length s.escrows ≤ n * k)
    (fits : n * k < u32_mod) where
  walk-page :
      (p : Escrow → Bool)
      → walk (λ i. map view_entry (page p (some i) (some n) s)) n k 0 ≡ matching p s
  unfolding page
  walk-page p =
      let chosen = select (λ x. p x.1) s.escrows in
      walk_shows_rest (λ i. map view_entry (page p (some i) (some n) s)) n k 0 chosen
        (λ j below. rw (page_size_in_range n small, in_range j below) refl)
        (omega (arith, enough, length-select-le (λ x. p x.1) s.escrows)) (omega (arith, fits))

-- Read in pages of at most a hundred, as many as hold all escrows, with indices below 2 ^ 32, each of the four lists shows
-- exactly the escrows that are open, of the agent, of the worker, or of the status named, in the
-- order of the map.
pub pages_show_all :
    (agent worker name : Text) (t : EscrowStatus) (n k : ℕ) (s : Contract)
    → n ≤ 100
    → length s.escrows ≤ n * k
    → n * k < u32_mod
    → status_of_name name ≡ ok t
    → (walk (λ i. list_open (some i) (some n) s) n k 0
        ≡ matching (λ e. same_status e.status opened) s)
      × (walk (λ i. list_by_agent agent (some i) (some n) s) n k 0
          ≡ matching (λ e. e.agent == agent) s)
      × (walk (λ i. list_by_worker worker (some i) (some n) s) n k 0
          ≡ matching (λ e. is_text e.worker worker) s)
      × (walk (λ i. shown (list_by_status name (some i) (some n) s)) n k 0
          ≡ matching (λ e. same_status e.status t) s)
unfolding list_open list_by_agent list_by_worker list_by_status
pages_show_all agent worker name t n k s small enough fits named = (
  walk-page n k s small enough fits (λ e. same_status e.status opened),
  walk-page n k s small enough fits (λ e. e.agent == agent),
  walk-page n k s small enough fits (λ e. is_text e.worker worker),
  rw named (walk-page n k s small enough fits (λ e. same_status e.status t)),
)
