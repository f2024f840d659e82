-- ===== src/Federation/Links/Matches.antt =====
-- The loop over the entries keeps exactly the matches of the best rank.
use gate_lens.Common.{
  ℕ, ◌≤◌, ◌<◌, String, Bool, true, false, List, [], ◌∷◌, ◌++◌, none, some, ◌≡◌, refl, sym, ◌∙◌, ap,
  inl, inr, arith, append_assoc, append-nil, All, All-append, keep, ltb, ltb→lt, nat_eq,
  if◌then◌else◌, Option-cases,
}
use gate_lens.Federation.Links.{
  LinkCandidate, LinkTargetMatch, LinkRuleContext, match_key, best_from, best_entry_matches,
}

-- All matches, of every rank, in the order of the entries.
unfoldable pub all_matches :
    LinkCandidate → LinkRuleContext → List LinkCandidate → List LinkTargetMatch
all_matches candidate context [] = []
all_matches candidate context (to ∷ entries) = elim (match_key candidate context to) [
  | none ↦ all_matches candidate context entries
  | some key ↦ record { target = to; key = key } ∷ all_matches candidate context entries
]

-- The least rank of the matches, at most `best`.
pub lowest : ℕ → List LinkTargetMatch → ℕ
lowest best [] = best
lowest best (match ∷ matches) =
    lowest (if ltb match.target.rank best then match.target.rank else best) matches

abbrev pub of_rank : ℕ → List LinkTargetMatch → List LinkTargetMatch
of_rank rank matches = keep (λ match. nat_eq match.target.rank rank) matches

abbrev HaveRank : ℕ → List LinkTargetMatch → Type 0
HaveRank rank matches = All (λ match. match.target.rank ≡ rank) matches

lowest-le : (best : ℕ) (matches : List LinkTargetMatch) → lowest best matches ≤ best
unfolding lowest
lowest-le best [] = omega arith
lowest-le best (match ∷ matches) =
    ground (arith, lowest-le match.target.rank matches, lowest-le best matches)

of_rank_all :
    (rank : ℕ) (matches : List LinkTargetMatch)
    → HaveRank rank matches
    → of_rank rank matches ≡ matches
of_rank_all rank [] h = refl
of_rank_all rank (match ∷ matches) (p, h) = ground (arith, of_rank_all rank matches h)

of_rank_none :
    (rank other : ℕ) (matches : List LinkTargetMatch)
    → HaveRank other matches
    → rank < other
    → of_rank rank matches ≡ []
of_rank_none rank other [] h lt = refl
of_rank_none rank other (match ∷ matches) (p, h) lt =
    ground (arith, of_rank_none rank other matches h)

of_rank-append :
    (rank : ℕ) (xs ys : List LinkTargetMatch)
    → of_rank rank (xs ++ ys) ≡ of_rank rank xs ++ of_rank rank ys
of_rank-append rank [] ys = refl
of_rank-append rank (x ∷ xs) ys = ground (arith, of_rank-append rank xs ys)

module _ (candidate : LinkCandidate) (context : LinkRuleContext) where
  -- One round, from the induction hypotheses for its three outcomes.
  best_from_step :
      (best : ℕ) (matches : List LinkTargetMatch) (to : LinkCandidate) (key : String)
      (entries : List LinkCandidate) (less equal : Bool)
      → ltb to.rank best ≡ less
      → nat_eq to.rank best ≡ equal
      → HaveRank best matches
      → let match : LinkTargetMatch = record { target = to; key = key } in
        let later = all_matches candidate context entries in
        (best_from candidate context to.rank (match ∷ []) entries
          ≡ of_rank (lowest to.rank later) (match ∷ []) ++ of_rank (lowest to.rank later) later)
        → (to.rank ≡ best
            → best_from candidate context best (matches ++ match ∷ []) entries
              ≡ of_rank (lowest best later) (matches ++ match ∷ [])
                ++ of_rank (lowest best later) later)
        → (best_from candidate context best matches entries
            ≡ of_rank (lowest best later) matches ++ of_rank (lowest best later) later)
        → let rank = lowest (if less then to.rank else best) later in
          best_from candidate context
            (if less then to.rank else best)
            (if less then match ∷ [] else if equal then matches ++ match ∷ [] else matches)
            entries
          ≡ of_rank rank matches ++ of_rank rank (match ∷ later)
  best_from_step best matches to key entries true equal less same h better again worse =
      let match : LinkTargetMatch = record { target = to; key = key } in
      let later = all_matches candidate context entries in
      let rank = lowest to.rank later in
      let lt = ltb→lt to.rank best less in
      let low = lowest-le to.rank later in
      better
      ∙ (sym (of_rank-append rank (match ∷ []) later)
          ∙ ap (λ (l : List LinkTargetMatch). l ++ of_rank rank (match ∷ later))
              (sym (of_rank_none rank best matches h (omega arith))))
  best_from_step best matches to key entries false true less same h better again worse =
      let match : LinkTargetMatch = record { target = to; key = key } in
      let later = all_matches candidate context entries in
      let rank = lowest best later in
      again (ground arith)
      ∙ (ap (λ (l : List LinkTargetMatch). l ++ of_rank rank later)
            (of_rank-append rank matches (match ∷ []))
          ∙ (append_assoc (of_rank rank matches) (of_rank rank (match ∷ [])) (of_rank rank later)
              ∙ ap (λ (l : List LinkTargetMatch). of_rank rank matches ++ l)
                  (sym (of_rank-append rank (match ∷ []) later))))
  best_from_step best matches to key entries false false less same h better again worse =
      let match : LinkTargetMatch = record { target = to; key = key } in
      let later = all_matches candidate context entries in
      let rank = lowest best later in
      let low = lowest-le best later in
      let lt : best < to.rank = ground arith in
      worse
      ∙ ap (λ (l : List LinkTargetMatch). of_rank rank matches ++ l)
          (sym (
            of_rank-append rank (match ∷ []) later
            ∙ ap (λ (l : List LinkTargetMatch). l ++ of_rank rank later)
                (of_rank_none rank to.rank (match ∷ []) (refl, tt) (omega arith))))

  best_from_lem :
      (best : ℕ) (matches : List LinkTargetMatch) (entries : List LinkCandidate)
      → HaveRank best matches
      → let rank = lowest best (all_matches candidate context entries) in
        best_from candidate context best matches entries
        ≡ of_rank rank matches ++ of_rank rank (all_matches candidate context entries)
  unfolding best_from all_matches lowest
  best_from_lem best matches [] h = rw (append-nil, of_rank_all best matches h) refl
  best_from_lem best matches (to ∷ entries) h =
      elim (Option-cases (match_key candidate context to)) [
        | inl missed ↦ rw (missed, best_from, all_matches) (best_from_lem best matches entries h)
        | inr (key, hit) ↦
            rw (hit, best_from, all_matches)
              (best_from_step best matches to key entries _ _ refl refl h
                (best_from_lem to.rank (record { target = to; key = key } ∷ []) entries (refl, tt))
                (λ e.
                  best_from_lem best (matches ++ record { target = to; key = key } ∷ []) entries (
                    All-append (λ (m : LinkTargetMatch). m.target.rank ≡ best) matches _ h (e, tt)))
                (best_from_lem best matches entries h))
      ]

-- The matches of a candidate are all its matching entries of the least rank, in order: entries of
-- other clusters that no edge reaches yet and that share a key. (Ranks above 99 never match.)
pub best_entry_matches_lem :
    (candidate : LinkCandidate) (context : LinkRuleContext)
    → let all = all_matches candidate context context.entries in
      best_entry_matches candidate context ≡ of_rank (lowest 99 all) all
unfolding best_entry_matches
best_entry_matches_lem candidate context = best_from_lem candidate context 99 [] context.entries tt
