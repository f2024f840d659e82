-- ===== src/Observed/Attempts/Sorting.antt =====
-- The stable sort of a request's records by their log sequence.
use mathlib.Core.List.{Perm}
use mathlib.Core.List.Perm
use gate_lens.Common.{
  true, false, List, [], ◌∷◌, ◌≡◌, refl, ℤ, pos, negsuc, int_ltb, arith, Bool-cases, inl, inr,
}
use gate_lens.Domain.Hop.{ObservedHop}
use gate_lens.Observed.Attempts.{insert_by_sequence, sort_by_sequence}

insert_by_sequence-perm :
    (hop : ObservedHop) (hops : List ObservedHop) → Perm (insert_by_sequence hop hops) (hop ∷ hops)
unfolding insert_by_sequence
insert_by_sequence-perm hop [] = Perm.refl _
insert_by_sequence-perm hop (x ∷ xs) = elim (Bool-cases (int_ltb x.log_sequence hop.log_sequence)) [
  | inl before ↦
      rw before (Perm.trans (Perm.cons x (insert_by_sequence-perm hop xs)) (Perm.swap hop x xs))
  | inr behind ↦ rw behind (Perm.refl _)
]

pub sort_by_sequence-perm : (hops : List ObservedHop) → Perm (sort_by_sequence hops) hops
unfolding sort_by_sequence
sort_by_sequence-perm [] = Perm.refl _
sort_by_sequence-perm (hop ∷ hops) =
    Perm.trans (insert_by_sequence-perm hop (sort_by_sequence hops))
      (Perm.cons hop (sort_by_sequence-perm hops))

-- No record is followed at once by one of a smaller sequence.
abbrev pub IsSorted : List ObservedHop → Type 0
IsSorted [] = Unit
IsSorted (hop ∷ []) = Unit
IsSorted (hop ∷ next ∷ hops) =
    (int_ltb next.log_sequence hop.log_sequence ≡ false) × IsSorted (next ∷ hops)

int_ltb_asym : (a b : ℤ) → int_ltb a b ≡ true → int_ltb b a ≡ false
int_ltb_asym (pos a) (pos b) h = ground arith
int_ltb_asym (pos a) (negsuc b) h = cc
int_ltb_asym (negsuc a) (pos b) h = refl
int_ltb_asym (negsuc a) (negsuc b) h = ground arith

insert_by_sequence-IsSorted :
    (hop : ObservedHop) (hops : List ObservedHop)
    → IsSorted hops
    → IsSorted (insert_by_sequence hop hops)
unfolding insert_by_sequence
insert_by_sequence-IsSorted hop [] s = tt
insert_by_sequence-IsSorted hop (x ∷ []) s =
    ground (arith, int_ltb_asym x.log_sequence hop.log_sequence)
insert_by_sequence-IsSorted hop (x ∷ y ∷ r) s = ground (
  arith,
  int_ltb_asym x.log_sequence hop.log_sequence,
  insert_by_sequence-IsSorted hop (y ∷ r) s.1,
)

pub sort_by_sequence-IsSorted : (hops : List ObservedHop) → IsSorted (sort_by_sequence hops)
unfolding sort_by_sequence
sort_by_sequence-IsSorted [] = tt
sort_by_sequence-IsSorted (hop ∷ hops) =
    insert_by_sequence-IsSorted hop (sort_by_sequence hops) (sort_by_sequence-IsSorted hops)
