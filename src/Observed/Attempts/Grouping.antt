-- ===== src/Observed/Attempts/Grouping.antt =====
-- The buckets partition the records by their request key.
use mathlib.Core.List.{Perm, perm_middle}
use mathlib.Core.List.Perm
use gate_lens.Common.{
  String, false, List, [], ◌∷◌, ◌++◌, map, ◌≡◌, refl, ◌==◌, eq_iff, arith, Bool-cases, inl, inr,
  All, All-append, concat, contains, Distinct, append_assoc, append-nil, sym,
}
use gate_lens.Domain.Hop.{ObservedHop}
use gate_lens.Observed.Attempts.{Bucket, add_record, fill_buckets, request_key}

abbrev pub contents : List Bucket → List ObservedHop
contents buckets = concat (map (λ bucket. bucket.records) buckets)

add_record-perm :
    (key : String) (hop : ObservedHop) (buckets : List Bucket)
    → Perm (contents (add_record key hop buckets)) (hop ∷ contents buckets)
unfolding add_record
add_record-perm key hop [] = Perm.refl _
add_record-perm key hop (bucket ∷ buckets) = elim (Bool-cases (bucket.key == key)) [
  | inl same ↦ rw same (rw append_assoc (perm_middle bucket.records (contents buckets)))
  | inr other ↦ rw other (
      Perm.trans (Perm.append (Perm.refl bucket.records) (add_record-perm key hop buckets))
        (perm_middle bucket.records (contents buckets)))
]

fill_buckets-perm :
    (buckets : List Bucket) (hops : List ObservedHop)
    → Perm (contents (fill_buckets buckets hops)) (contents buckets ++ hops)
unfolding fill_buckets
fill_buckets-perm buckets [] = rw append-nil (Perm.refl _)
fill_buckets-perm buckets (hop ∷ hops) =
    Perm.trans (fill_buckets-perm (add_record (request_key hop) hop buckets) hops) (
      Perm.trans (Perm.append (add_record-perm (request_key hop) hop buckets) (Perm.refl hops))
        (Perm.symm (perm_middle (contents buckets) hops)))

-- A bucket holds records of its key alone.
abbrev pub HasOneKey : Bucket → Type 0
HasOneKey bucket = All (λ hop. request_key hop ≡ bucket.key) bucket.records

abbrev pub keys : List Bucket → List String
keys = map (λ bucket. bucket.key)

add_record-HasOneKey :
    (hop : ObservedHop) (buckets : List Bucket)
    → All HasOneKey buckets
    → All HasOneKey (add_record (request_key hop) hop buckets)
unfolding add_record
add_record-HasOneKey hop [] h = ((refl, tt), tt)
add_record-HasOneKey hop (bucket ∷ buckets) (b, h) =
    elim (Bool-cases (bucket.key == request_key hop)) [
      | inl same ↦ rw same (
        All-append (λ (x : ObservedHop). request_key x ≡ bucket.key) bucket.records (hop ∷ []) b
            (sym ((eq_iff _ _).0 same), tt),
        h,
      )
      | inr other ↦ rw other (b, add_record-HasOneKey hop buckets h)
    ]

contains-add_record :
    (key : String) (hop : ObservedHop) (buckets : List Bucket) (x : String)
    → (x == key) ≡ false
    → contains (keys buckets) x ≡ false
    → contains (keys (add_record key hop buckets)) x ≡ false
unfolding add_record
contains-add_record key hop [] x n h = ground (arith, eq_iff x key, eq_iff key x)
contains-add_record key hop (bucket ∷ buckets) x n h =
    ground (arith, contains-add_record key hop buckets x n)

add_record-Distinct :
    (key : String) (hop : ObservedHop) (buckets : List Bucket)
    → Distinct (keys buckets)
    → Distinct (keys (add_record key hop buckets))
unfolding add_record
add_record-Distinct key hop [] d = (refl, tt)
add_record-Distinct key hop (bucket ∷ buckets) d =
    ground
      (arith, contains-add_record key hop buckets bucket.key, add_record-Distinct key hop buckets)

fill_buckets-keys :
    (buckets : List Bucket) (hops : List ObservedHop)
    → All HasOneKey buckets
    → Distinct (keys buckets)
    → All HasOneKey (fill_buckets buckets hops) × Distinct (keys (fill_buckets buckets hops))
unfolding fill_buckets
fill_buckets-keys buckets [] h d = (h, d)
fill_buckets-keys buckets (hop ∷ hops) h d =
    fill_buckets-keys (add_record (request_key hop) hop buckets) hops
      (add_record-HasOneKey hop buckets h) (add_record-Distinct (request_key hop) hop buckets d)

-- Grouping loses no record and makes none up, each bucket holds the records of one request key,
-- and no two buckets share a key.
pub fill_buckets_partition :
    (hops : List ObservedHop)
    → let buckets = fill_buckets [] hops in
      Perm (contents buckets) hops × All HasOneKey buckets × Distinct (keys buckets)
fill_buckets_partition hops =
    let (one, distinct) = fill_buckets-keys [] hops tt tt in
    (fill_buckets-perm [] hops, one, distinct)
