-- ===== src/Federation/Associations/Ranking/Examples.antt =====
-- Two offers for one gateway.
use gate_lens.Common.{List, [], ◌∷◌, lookup}
use gate_lens.Federation.Associations.{Ranked}
use gate_lens.Federation.Associations.Ranking.{rank_all}
use gate_lens.Federation.Associations.Ranking.Best.{Offer, IsBest, rank_all-IsBest}

abbrev weak : Ranked
weak = record { basis = "declared"; confidence = "low"; strength = 100 }

abbrev strong : Ranked
strong = record { basis = "address"; confidence = "high"; strength = 300 }

abbrev two_offers : List Offer
two_offers = ("g2", weak) ∷ ("g2", strong) ∷ ("g3", weak) ∷ []

rank_all-IsBest_example : IsBest "g2" two_offers (lookup "g2" (rank_all two_offers []))
rank_all-IsBest_example = rank_all-IsBest "g2" two_offers
