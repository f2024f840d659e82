-- ===== src/Federation/Associations/Ranking/Best.antt =====
-- The inference that is kept for a gateway.
use gate_lens.Common.{
  ◌<◌, ◌≤◌, String, true, List, [], ◌∷◌, ◌++◌, Option, none, some, ◌==◌, ◌≡◌, refl, ap, sym, ◌∙◌,
  subst, ◌≢◌, ◌⊎◌, inl, inr, All, Bool-cases, Option-cases, arith, eq_iff, ltb, ltb→lt,
  if◌then◌else◌, lookup, lookup-insert,
}
use gate_lens.Federation.Associations.{Ranked}
use gate_lens.Federation.Associations.Ranking.{rank, rank_all}

abbrev pub Offer : Type 0
Offer = String × Ranked

module _ (gateway : String) where
  abbrev pub Weaker : Ranked → Offer → Type 0
  Weaker best offer = offer.0 ≡ gateway → offer.1.strength < best.strength

  abbrev pub NotStronger : Ranked → Offer → Type 0
  NotStronger best offer = offer.0 ≡ gateway → offer.1.strength ≤ best.strength

  -- The first of the strongest offers for the gateway, if there is any.
  abbrev pub IsBest : List Offer → Option Ranked → Type 0
  IsBest offers none = All (λ (offer : Offer). offer.0 ≢ gateway) offers
  IsBest offers (some best) =
      (front : List Offer) × (back : List Offer) × (offers ≡ front ++ (gateway, best) ∷ back)
      × All (Weaker best) front
      × All (NotStronger best) back

  -- The same behind an inference that is there already.
  abbrev IsBestFrom : Ranked → List Offer → Option Ranked → Type 0
  IsBestFrom current offers result =
      ((result ≡ some current) × All (NotStronger current) offers)
      ⊎ ((best : Ranked) × (result ≡ some best)
          × (current.strength < best.strength)
          × IsBest offers (some best))

  -- `ranked[gateway]` after an offer for it.
  stronger : Option Ranked → Ranked → Ranked
  stronger none offer = offer
  stronger (some current) offer = if ltb current.strength offer.strength then offer else current

  lookup-rank :
      (name : String) (offer : Ranked) (ranked : List (String × Ranked))
      → lookup gateway (rank name offer ranked) ≡ (
          if name == gateway
          then some (stronger (lookup gateway ranked) offer)
          else lookup gateway ranked)
  unfolding rank stronger
  lookup-rank name offer ranked =
      let same : (name == gateway) ≡ true → lookup name ranked ≡ lookup gateway ranked =
        λ e. ap (λ (key : String). lookup key ranked) ((eq_iff name gateway).0 e) in
      elim (Option-cases (lookup name ranked)) [
        | inl e ↦ ground (arith, lookup-insert name gateway offer ranked, same)
        | inr (current, e) ↦ ground (arith, lookup-insert name gateway offer ranked, same)
      ]

  -- What the offers make of a current inference.
  best_from : Option Ranked → List Offer → Option Ranked
  best_from current [] = current
  best_from current ((name, offer) ∷ offers) =
      best_from (if name == gateway then some (stronger current offer) else current) offers

  lookup-rank_all :
      (offers : List Offer) (ranked : List (String × Ranked))
      → lookup gateway (rank_all offers ranked) ≡ best_from (lookup gateway ranked) offers
  unfolding rank_all best_from
  lookup-rank_all [] ranked = refl
  lookup-rank_all ((name, offer) ∷ offers) ranked =
      lookup-rank_all offers (rank name offer ranked)
      ∙ ap (λ (current : Option Ranked). best_from current offers) (lookup-rank name offer ranked)

  -- A first offer in front that is weaker than the best one.
  IsBest-cons :
      (offer : Offer) (offers : List Offer) (best : Ranked)
      → Weaker best offer
      → IsBest offers (some best)
      → IsBest (offer ∷ offers) (some best)
  IsBest-cons offer offers best w (front, back, e, h, k) =
      (offer ∷ front, back, ap (◌∷◌ offer) e, (w, h), k)

  IsBestFrom-keep :
      (current : Ranked) (offer : Offer) (offers : List Offer) (result : Option Ranked)
      → NotStronger current offer
      → IsBestFrom current offers result
      → IsBestFrom current (offer ∷ offers) result
  IsBestFrom-keep current offer offers result n (inl (e, h)) = inl (e, (n, h))
  IsBestFrom-keep current offer offers result n (inr (best, e, lt, h)) =
      inr (best, e, lt, IsBest-cons offer offers best (λ same. omega (arith, n same, lt)) h)

  IsBestFrom-take :
      (current offer : Ranked) (offers : List Offer) (result : Option Ranked) (name : String)
      → name ≡ gateway
      → current.strength < offer.strength
      → IsBestFrom offer offers result
      → IsBestFrom current ((name, offer) ∷ offers) result
  IsBestFrom-take current offer offers result name same lt (inl (e, h)) =
      inr (offer, e, lt, ([], offers, ap (λ (key : String). (key, offer) ∷ offers) same, tt, h))
  IsBestFrom-take current offer offers result name same lt (inr (best, e, more, h)) =
      inr (best, e, omega (arith, lt, more), IsBest-cons (name, offer) offers best (λ _. more) h)

  best_from-some :
      (offers : List Offer) (current : Ranked)
      → IsBestFrom current offers (best_from (some current) offers)
  unfolding best_from stronger
  best_from-some [] current = inl (refl, tt)
  best_from-some ((name, offer) ∷ offers) current = elim (Bool-cases (name == gateway)) [
    | inr e ↦ rw e (
        IsBestFrom-keep current (name, offer) offers _
          (λ same. absurd (ground (arith, eq_iff name gateway, same)))
          (best_from-some offers current))
    | inl e ↦ elim (Bool-cases (ltb current.strength offer.strength)) [
      | inl f ↦
          rw (e, f)
            (IsBestFrom-take current offer offers _ name ((eq_iff name gateway).0 e) (ltb→lt _ _ f)
              (best_from-some offers offer))
      | inr f ↦
          rw (e, f)
            (IsBestFrom-keep current (name, offer) offers _ (λ _. ground (arith, f))
              (best_from-some offers current))
    ]
  ]

  -- The first offer for the gateway starts the choice.
  IsBestFrom-start :
      (offer : Ranked) (offers : List Offer) (result : Option Ranked) (name : String)
      → name ≡ gateway
      → IsBestFrom offer offers result
      → IsBest ((name, offer) ∷ offers) result
  IsBestFrom-start offer offers result name same (inl (e, h)) =
      subst (IsBest ((name, offer) ∷ offers)) (sym e)
        ([], offers, ap (λ (key : String). (key, offer) ∷ offers) same, tt, h)
  IsBestFrom-start offer offers result name same (inr (best, e, more, h)) =
      subst (IsBest ((name, offer) ∷ offers)) (sym e)
        (IsBest-cons (name, offer) offers best (λ _. more) h)

  IsBest-skip :
      (offer : Offer) (offers : List Offer) (result : Option Ranked)
      → offer.0 ≢ gateway
      → IsBest offers result
      → IsBest (offer ∷ offers) result
  IsBest-skip offer offers none apart h = (apart, h)
  IsBest-skip offer offers (some best) apart h =
      IsBest-cons offer offers best (λ same. absurd (apart same)) h

  best_from-none : (offers : List Offer) → IsBest offers (best_from none offers)
  unfolding best_from stronger
  best_from-none [] = tt
  best_from-none ((name, offer) ∷ offers) = elim (Bool-cases (name == gateway)) [
    | inl e ↦ rw e (
        IsBestFrom-start offer offers _ name ((eq_iff name gateway).0 e)
          (best_from-some offers offer))
    | inr e ↦ rw e (
        IsBest-skip (name, offer) offers _ (λ same. ground (arith, eq_iff name gateway, same, e))
          (best_from-none offers))
  ]

  -- What is kept for a gateway is the first of the strongest inferences that any association
  -- offers for it; a gateway without an offer has none.
  pub rank_all-IsBest : (offers : List Offer) → IsBest offers (lookup gateway (rank_all offers []))
  unfolding lookup
  rank_all-IsBest offers =
      subst (IsBest offers) (sym (lookup-rank_all offers [])) (best_from-none offers)
