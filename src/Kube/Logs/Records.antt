-- ===== src/Kube/Logs/Records.antt =====
-- The places of the records in a cache and in their sources.
use gate_lens.Common.{
  ℕ, zero, suc, ◌+◌, ◌<◌, String, ℤ, pos, false, List, [], ◌∷◌, ◌++◌, map, ◌==◌, ◌≡◌, refl, ap,
  subst, ◌≢◌, sym, ◌∙◌, inl, inr, length, contains, Distinct, keep, eq_iff, Bool-cases, arith,
  ◌+++◌, after_prefix, after_prefix-append, if◌then◌else◌, none, some,
}
use gate_lens.Domain.Hop.{ObservedHop}
use gate_lens.Domain.Validate.Accepted.{ids}
use gate_lens.Observed.Values.{decimal}
use gate_lens.Observed.Values.Numbers.{decimal_injective}

abbrev pub record_name : ℕ → String
record_name index = "record-" +++ decimal (index + 1)

-- The records are named by their places, from this place on.
abbrev pub Numbered : ℕ → List ObservedHop → Type 0
Numbered index [] = Unit
Numbered index (hop ∷ hops) = (hop.id ≡ record_name index) × Numbered (suc index) hops

-- The sequence numbers of a source's records, in the order of the cache.
abbrev pub sequences_of : String → List ObservedHop → List ℤ
sequences_of name hops =
    map (λ (hop : ObservedHop). hop.log_sequence)
      (keep (λ (hop : ObservedHop). hop.log_source_id == name) hops)

-- So many numbers behind the first one.
abbrev pub numbers : ℕ → ℕ → List ℤ
numbers start zero = []
numbers start (suc n) = pos (suc start) ∷ numbers (suc start) n

pub Numbered-snoc :
    (index : ℕ) (hops : List ObservedHop) (hop : ObservedHop)
    → Numbered index hops
    → hop.id ≡ record_name (index + length hops)
    → Numbered index (hops ++ hop ∷ [])
Numbered-snoc index [] hop h e = (e ∙ ap record_name (omega arith), tt)
Numbered-snoc index (x ∷ xs) hop (p, h) e =
    (p, Numbered-snoc (suc index) xs hop h (e ∙ ap record_name (omega arith)))

cancel_front : (front a b : String) → front +++ a ≡ front +++ b → a ≡ b
cancel_front front a b e =
    let same : some a ≡ some b =
      sym (after_prefix-append front a) ∙ ap (after_prefix front) e ∙ after_prefix-append front b in
    ground arith

record_name_injective : (i j : ℕ) → record_name i ≡ record_name j → i ≡ j
record_name_injective i j e =
    let same = decimal_injective (i + 1) (j + 1) (cancel_front "record-" _ _ e) in omega arith

pub record_name-ne : (index : ℕ) → record_name index ≢ ""
unfolding after_prefix
record_name-ne index e =
    let same : some _ ≡ none =
      sym (after_prefix-append "record-" (decimal (index + 1))) ∙ ap (after_prefix "record-") e in
    cc

Numbered-contains :
    (i j : ℕ) (hops : List ObservedHop)
    → i < j
    → Numbered j hops
    → contains (ids hops) (record_name i) ≡ false
Numbered-contains i j [] h numbered = refl
Numbered-contains i j (hop ∷ hops) h (named, numbered) =
    elim (Bool-cases (hop.id == record_name i)) [
      | inl e ↦
          let same = record_name_injective j i (sym named ∙ (eq_iff hop.id (record_name i)).0 e) in
          absurd (omega (arith, h, same))
      | inr e ↦ ground (arith, Numbered-contains i (suc j) hops)
    ]

-- Names by place are distinct.
pub Numbered-Distinct :
    (index : ℕ) (hops : List ObservedHop) → Numbered index hops → Distinct (ids hops)
Numbered-Distinct index [] h = tt
Numbered-Distinct index (hop ∷ hops) (named, h) =
    let new = Numbered-contains index (suc index) hops (omega arith) h in
    (
      subst (λ (name : String). contains (ids hops) name ≡ false) (sym named) new,
      Numbered-Distinct (suc index) hops h,
    )

numbers-suc : (start n : ℕ) → numbers start (suc n) ≡ numbers start n ++ pos (start + n + 1) ∷ []
numbers-suc start zero = ap (λ (n : ℕ). pos n ∷ []) (omega arith)
numbers-suc start (suc n) =
    ap (◌∷◌ (pos (suc start))) (
      numbers-suc (suc start) n ∙ ap (λ (k : ℕ). numbers (suc start) n ++ pos k ∷ []) (omega arith))

pub numbers-snoc :
    (start n : ℕ) → numbers start (n + 1) ≡ numbers start n ++ pos (start + n + 1) ∷ []
numbers-snoc start n = ap (numbers start) {y = suc n} (omega arith) ∙ numbers-suc start n

pub sequences_of-snoc :
    (name : String) (hops : List ObservedHop) (hop : ObservedHop)
    → sequences_of name (hops ++ hop ∷ []) ≡ (
        if hop.log_source_id == name
        then sequences_of name hops ++ hop.log_sequence ∷ []
        else sequences_of name hops)
sequences_of-snoc name [] hop = ground arith
sequences_of-snoc name (x ∷ xs) hop = ground (arith, sequences_of-snoc name xs hop)

pub sequences_of-own :
    (name : String) (hops : List ObservedHop) (hop : ObservedHop)
    → hop.log_source_id ≡ name
    → sequences_of name (hops ++ hop ∷ []) ≡ sequences_of name hops ++ hop.log_sequence ∷ []
sequences_of-own name hops hop e =
    ground (arith, sequences_of-snoc name hops hop, eq_iff hop.log_source_id name)

pub sequences_of-other :
    (name : String) (hops : List ObservedHop) (hop : ObservedHop)
    → hop.log_source_id ≢ name
    → sequences_of name (hops ++ hop ∷ []) ≡ sequences_of name hops
sequences_of-other name hops hop e =
    ground (arith, sequences_of-snoc name hops hop, eq_iff hop.log_source_id name)

-- One more record of the source, with the next number.
pub sequences_of-next :
    (name : String) (hops : List ObservedHop) (hop : ObservedHop) (n : ℕ)
    → hop.log_source_id ≡ name
    → hop.log_sequence ≡ pos (n + 1)
    → sequences_of name hops ≡ numbers 0 n
    → sequences_of name (hops ++ hop ∷ []) ≡ numbers 0 (n + 1)
sequences_of-next name hops hop n own next e =
    sequences_of-own name hops hop own
    ∙ ap (λ (xs : List ℤ). xs ++ hop.log_sequence ∷ []) e
    ∙ ap (λ (x : ℤ). numbers 0 n ++ x ∷ []) (next ∙ ap pos (omega arith))
    ∙ sym (numbers-snoc 0 n)
