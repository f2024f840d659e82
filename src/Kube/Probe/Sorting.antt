-- ===== src/Kube/Probe/Sorting.antt =====
-- Sorting keeps the records of a result: internal/kube/probe.go.
use gate_lens.Common.{
  String, false, List, [], ◌∷◌, ◌≡◌, refl, ◌∙◌, inl, inr, All, contains, Distinct, Bool-cases,
  arith, eq_iff, string_ltb,
}
use gate_lens.Domain.Hop.{ObservedHop}
use gate_lens.Domain.Validate.Accepted.{ids}
use gate_lens.Kube.Probe.{insert_observed, sort_observed}

All-insert_observed :
    (P : ObservedHop → Type 0) (hop : ObservedHop) (hops : List ObservedHop)
    → P hop
    → All P hops
    → All P (insert_observed hop hops)
unfolding insert_observed
All-insert_observed P hop [] p h = (p, tt)
All-insert_observed P hop (x ∷ xs) p (q, h) =
    elim (Bool-cases (string_ltb x.observed_at hop.observed_at)) [
      | inl e ↦ rw e (q, All-insert_observed P hop xs p h)
      | inr e ↦ rw e (p, (q, h))
    ]

pub All-sort_observed :
    (P : ObservedHop → Type 0) (hops : List ObservedHop) → All P hops → All P (sort_observed hops)
unfolding sort_observed
All-sort_observed P [] h = tt
All-sort_observed P (hop ∷ hops) (p, h) =
    All-insert_observed P hop (sort_observed hops) p (All-sort_observed P hops h)

contains-insert_observed :
    (x : String) (hop : ObservedHop) (hops : List ObservedHop)
    → contains (ids (insert_observed hop hops)) x ≡ contains (ids (hop ∷ hops)) x
unfolding insert_observed
contains-insert_observed x hop [] = refl
contains-insert_observed x hop (y ∷ ys) = ground (arith, contains-insert_observed x hop ys)

contains-sort_observed :
    (x : String) (hops : List ObservedHop)
    → contains (ids (sort_observed hops)) x ≡ contains (ids hops) x
unfolding sort_observed
contains-sort_observed x [] = refl
contains-sort_observed x (hop ∷ hops) =
    ground
      (arith, contains-insert_observed x hop (sort_observed hops), contains-sort_observed x hops)

Distinct-insert_observed :
    (hop : ObservedHop) (hops : List ObservedHop)
    → contains (ids hops) hop.id ≡ false
    → Distinct (ids hops)
    → Distinct (ids (insert_observed hop hops))
unfolding insert_observed
Distinct-insert_observed hop [] new h = (refl, tt)
Distinct-insert_observed hop (x ∷ xs) new (apart, h) = ground (
  arith,
  contains-insert_observed x.id hop xs,
  eq_iff hop.id x.id,
  eq_iff x.id hop.id,
  Distinct-insert_observed hop xs,
)

pub Distinct-sort_observed :
    (hops : List ObservedHop) → Distinct (ids hops) → Distinct (ids (sort_observed hops))
unfolding sort_observed
Distinct-sort_observed [] h = tt
Distinct-sort_observed (hop ∷ hops) (new, h) =
    Distinct-insert_observed hop (sort_observed hops) (contains-sort_observed hop.id hops ∙ new)
      (Distinct-sort_observed hops h)
