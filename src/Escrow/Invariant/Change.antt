-- ===== src/Escrow/Invariant/Change.antt =====
-- How changes of entries compose, and what a store of one escrow does.
use near_escrow.Shared.Tests.{
  ◌≡◌, refl, sym, ◌∙◌, true, inl, inr, Option, none, some, arith, Bool-cases,
}
use mathlib.Core.Path.{subst}
use near_escrow.Shared.Maps.{lookup, insert, lookup-insert}
use near_escrow.Shared.Maps.Distinct.{Distinct, Distinct-insert}
use near_escrow.Text.Bytes.{Text, ◌==◌, ==→eq}
use near_escrow.Escrow.Types.{EscrowStatus, pending_funding, Escrow}
use near_escrow.Escrow.State.{Contract}
use near_escrow.Escrow.Invariant.{
  IsSound, may_become, Advances, Entry, Moves, Kept, Keeps, Holds, Inv,
}

pub may_become_refl : (a : EscrowStatus) → may_become a a ≡ true
may_become_refl pending_funding = refl
may_become_refl _ = refl

pub may_become_trans :
    (a b c : EscrowStatus) → may_become a b ≡ true → may_become b c ≡ true → may_become a c ≡ true
may_become_trans a b c h k = ground arith

pub Advances-refl : {e : Escrow} → IsSound e → Advances e e
Advances-refl {e} h = record { sound = h; same_terms = refl; forward = may_become_refl e.status }

pub Advances-trans : {e e' e'' : Escrow} → Advances e e' → Advances e' e'' → Advances e e''
Advances-trans {e} {e'} {e''} a b = record {
  sound = b.sound;
  same_terms = b.same_terms ∙ a.same_terms;
  forward = may_become_trans e.status e'.status e''.status a.forward b.forward;
}

Kept-refl : (o : Option Escrow) → Holds o → Kept o o
Kept-refl none h = tt
Kept-refl (some e) h = Advances-refl h

Kept-trans : (a b c : Option Escrow) → Kept a b → Kept b c → Kept a c
Kept-trans none none none h k = tt
Kept-trans none none (some e) h k = k
Kept-trans none (some e) c h k = absurd h
Kept-trans (some e) none c h k = absurd h
Kept-trans (some e) (some e') none h k = k
Kept-trans (some e) (some e') (some e'') h k = Advances-trans h k

Entry-Kept : (o o' : Option Escrow) → Kept o o' → Entry o o'
Entry-Kept none none h = tt
Entry-Kept none (some e') h = absurd h
Entry-Kept (some e) none h = absurd h
Entry-Kept (some e) (some e') h = h

Holds-Entry : (o o' : Option Escrow) → Entry o o' → Holds o'
Holds-Entry none none h = tt
Holds-Entry none (some e') h = h.0
Holds-Entry (some e) none h = tt
Holds-Entry (some e) (some e') h = h.sound

pub Moves-Keeps : (s s' : Contract) → Keeps s s' → Moves s s'
Moves-Keeps s s' k = record {
  unique = k.unique;
  entry = λ j. Entry-Kept (lookup j s.escrows) (lookup j s'.escrows) (k.entry j);
}

pub Keeps-trans : (s t u : Contract) → Keeps s t → Keeps t u → Keeps s u
Keeps-trans s t u h k = record {
  unique = k.unique;
  entry = λ j.
      Kept-trans (lookup j s.escrows) (lookup j t.escrows) (lookup j u.escrows) (h.entry j)
        (k.entry j);
}

-- An entry that is left alone.
pub Entry-same :
    (s : Contract) (job_id : Text)
    → Inv s
    → Entry (lookup job_id s.escrows) (lookup job_id s.escrows)
Entry-same s job_id inv = Entry-Kept _ _ (Kept-refl (lookup job_id s.escrows) (inv.entry job_id))

-- A call that leaves the escrows alone.
pub Keeps-same : (s s' : Contract) → Inv s → s'.escrows ≡ s.escrows → Keeps s s'
Keeps-same s s' inv e = record {
  unique = subst Distinct (sym e) inv.unique;
  entry = λ j.
      subst (λ m. Kept (lookup j s.escrows) (lookup j m)) (sym e)
        (Kept-refl (lookup j s.escrows) (inv.entry j));
}

pub Inv-Moves : (s s' : Contract) → Moves s s' → Inv s'
Inv-Moves s s' m = record {
  unique = m.unique;
  entry = λ j. Holds-Entry (lookup j s.escrows) (lookup j s'.escrows) (m.entry j);
}

pub Inv-Keeps : (s s' : Contract) → Keeps s s' → Inv s'
Inv-Keeps s s' k = Inv-Moves s s' (Moves-Keeps s s' k)

-- The invariant at a stored escrow.
pub Inv-lookup :
    (s : Contract) (job_id : Text) {e : Escrow}
    → Inv s
    → lookup job_id s.escrows ≡ some e
    → IsSound e
Inv-lookup s job_id inv found = subst Holds found (inv.entry job_id)

module _ (s : Contract) (job_id : Text) (e' : Escrow) (inv : Inv s) where
  -- An entry of another job stays, and that of this job becomes `e'`.
  at_insert :
      (R : Option Escrow → Option Escrow → Type 0)
      → ((o : Option Escrow) → Holds o → R o o)
      → R (lookup job_id s.escrows) (some e')
      → (j : Text) → R (lookup j s.escrows) (lookup j (insert job_id e' s.escrows))
  at_insert R same here j =
      rw (lookup-insert job_id j e' s.escrows) (elim (Bool-cases (job_id == j)) [
        | inl one ↦ rw one (subst (λ k. R (lookup k s.escrows) (some e')) (==→eq job_id j one) here)
        | inr other ↦ rw other (same (lookup j s.escrows) (inv.entry j))
      ])

  unique_insert : (s' : Contract) → s'.escrows ≡ insert job_id e' s.escrows → Distinct s'.escrows
  unique_insert s' stored =
      subst Distinct (sym stored) (Distinct-insert job_id e' s.escrows inv.unique)

  -- A call that stores a new escrow.
  pub Moves-new :
      (s' : Contract)
      → Entry (lookup job_id s.escrows) (some e')
      → s'.escrows ≡ insert job_id e' s.escrows
      → Moves s s'
  Moves-new s' here stored = record {
    unique = unique_insert s' stored;
    entry = λ j.
        subst (λ m. Entry (lookup j s.escrows) (lookup j m)) (sym stored)
          (at_insert Entry (λ o h. Entry-Kept o o (Kept-refl o h)) here j);
  }

  -- A call that stores a changed version of the escrow that it found.
  pub Keeps-put :
      (s' : Contract) {e : Escrow}
      → lookup job_id s.escrows ≡ some e
      → Advances e e'
      → s'.escrows ≡ insert job_id e' s.escrows
      → Keeps s s'
  Keeps-put s' found a stored = record {
    unique = unique_insert s' stored;
    entry = λ j.
        subst (λ m. Kept (lookup j s.escrows) (lookup j m)) (sym stored)
          (at_insert Kept Kept-refl (subst (λ o. Kept o (some e')) (sym found) a) j);
  }
