-- ===== src/Federation/Links/Discovered.antt =====
-- What the discovery of links yields.
use mathlib.Core.List.{Memᴰ}
use gate_lens.Common.{
  String, Bool, true, false, List, [], ◌∷◌, some, ◌≡◌, ◌≢◌, refl, sym, subst, inl, inr, arith, All,
  All-append, All-map, keep, find, contains, eq_iff, Bool-cases, Option-cases,
}
use gate_lens.Domain.Topology.{TopologyNode, TopologyEdge}
use gate_lens.Federation.Links.{
  LinkCandidate, LinkTargetMatch, LinkRule, LinkRuleResult, LinkRuleContext, is_skipped, match_key,
  intersect, edge_exists, best_entry_matches, match_higress_mcp_bridge, match_exact_configuration,
  default_link_rules, link_to, report, apply_rules, link_candidates,
}
use gate_lens.Federation.Links.Keys.{
  outbound, link_context, discover_links_with_rules, discover_links,
}
use gate_lens.Federation.Links.Matches.{all_matches, best_entry_matches_lem}

abbrev HasKey : LinkCandidate → LinkRuleContext → LinkTargetMatch → Type 0
HasKey candidate context match = match_key candidate context match.target ≡ some match.key

all_matches-HasKey :
    (candidate : LinkCandidate) (context : LinkRuleContext) (entries : List LinkCandidate)
    → All (HasKey candidate context) (all_matches candidate context entries)
unfolding all_matches
all_matches-HasKey candidate context [] = tt
all_matches-HasKey candidate context (to ∷ entries) =
    elim (Option-cases (match_key candidate context to)) [
      | inl missed ↦ rw (missed, all_matches) (all_matches-HasKey candidate context entries)
      | inr (key, hit) ↦ rw (hit, all_matches) (hit, all_matches-HasKey candidate context entries)
    ]

All-keep {ℓ κ} :
    {A : Type ℓ} (P : A → Type κ) (p : A → Bool) (xs : List A) → All P xs → All P (keep p xs)
All-keep P p [] h = tt
All-keep P p (x ∷ xs) (q, h) = elim (Bool-cases (p x)) [
  | inl kept ↦ rw kept (q, All-keep P p xs h)
  | inr dropped ↦ rw dropped (All-keep P p xs h)
]

best_entry_matches-HasKey :
    (candidate : LinkCandidate) (context : LinkRuleContext)
    → All (HasKey candidate context) (best_entry_matches candidate context)
best_entry_matches-HasKey candidate context = rw best_entry_matches_lem (
    All-keep (HasKey candidate context) _ (all_matches candidate context context.entries)
      (all_matches-HasKey candidate context context.entries))

find_holds :
    (p : String → Bool) (xs : List String) (x : String)
    → find p xs ≡ some x
    → (p x ≡ true) × (contains xs x ≡ true)
find_holds p [] x h = cc
find_holds p (y ∷ ys) x h = elim (Bool-cases (p y)) [
  | inl hit ↦ let same : y ≡ x = ground arith in (rw (← same) hit, ground (arith, eq_iff y x))
  | inr miss ↦ let (holds, listed) = find_holds p ys x (ground arith) in (holds, ground arith)
]

-- A match crosses clusters, follows no edge that is there, and has a key of both sides.
pub record Joins (existing : List TopologyEdge) (candidate to : LinkCandidate) (key : String)
    : Type 0 where
  pub apart : candidate.node.cluster_id ≢ to.node.cluster_id
  pub new : edge_exists existing candidate.node.id to.node.id ≡ false
  pub own_key : contains candidate.keys key ≡ true
  pub target_key : contains to.keys key ≡ true

match_key-Joins :
    (candidate to : LinkCandidate) (context : LinkRuleContext) (key : String)
    → match_key candidate context to ≡ some key
    → Joins context.edges candidate to key
unfolding match_key is_skipped intersect
match_key-Joins candidate to context key h =
    let (own, target) =
      find_holds (λ value. contains candidate.keys value) to.keys key (ground arith) in
    record {
      apart = ground (arith, eq_iff candidate.node.cluster_id to.node.cluster_id);
      new = ground arith;
      own_key = own;
      target_key = target;
    }

-- The rule reports the best matches.
abbrev UsesBest : LinkRule → Type 0
UsesBest rule =
    (candidate : LinkCandidate) (context : LinkRuleContext) (result : LinkRuleResult)
    → rule.match candidate context ≡ some result
    → result.matches ≡ best_entry_matches candidate context

higress-UsesBest :
    (candidate : LinkCandidate) (context : LinkRuleContext) (result : LinkRuleResult)
    → match_higress_mcp_bridge candidate context ≡ some result
    → result.matches ≡ best_entry_matches candidate context
unfolding match_higress_mcp_bridge
higress-UsesBest candidate context result h = ground arith

exact-UsesBest :
    (candidate : LinkCandidate) (context : LinkRuleContext) (result : LinkRuleResult)
    → match_exact_configuration candidate context ≡ some result
    → result.matches ≡ best_entry_matches candidate context
unfolding match_exact_configuration
exact-UsesBest candidate context result h = ground arith

default-UsesBest : All UsesBest default_link_rules
default-UsesBest = (higress-UsesBest, (exact-UsesBest, tt))

-- A link comes from a candidate with exactly one best match.
pub record IsLink (candidates : List LinkCandidate) (context : LinkRuleContext)
    (edge : TopologyEdge) : Type 0 where
  pub candidate : LinkCandidate
  pub listed : Memᴰ candidate candidates
  pub match : LinkTargetMatch
  pub unique : best_entry_matches candidate context ≡ match ∷ []
  pub source : edge.from ≡ candidate.node.id
  pub target : edge.to ≡ match.target.node.id
  pub relation : edge.relation ≡ "cross-cluster"
  pub joins : Joins context.edges candidate match.target match.key

report-IsLink :
    (candidate : LinkCandidate) (context : LinkRuleContext) (rule : String)
    (result : LinkRuleResult) (matches : List LinkTargetMatch)
    → matches ≡ best_entry_matches candidate context
    → All (IsLink (candidate ∷ []) context) (report candidate rule result matches).0
unfolding report link_to
report-IsLink candidate context rule result [] e = tt
report-IsLink candidate context rule result (match ∷ []) e = (
  record {
    candidate = candidate;
    listed = Memᴰ.head refl;
    match = match;
    unique = sym e;
    source = refl;
    target = refl;
    relation = refl;
    joins =
        match_key-Joins candidate match.target context match.key
          (subst (All (HasKey candidate context)) (sym e)
            (best_entry_matches-HasKey candidate context)).0;
  },
  tt,
)
report-IsLink candidate context rule result (match ∷ other ∷ matches) e = tt

apply_rules-IsLink :
    (candidate : LinkCandidate) (context : LinkRuleContext) (rules : List LinkRule)
    → All UsesBest rules
    → All (IsLink (candidate ∷ []) context) (apply_rules candidate context rules).0
unfolding apply_rules
apply_rules-IsLink candidate context [] h = tt
apply_rules-IsLink candidate context (rule ∷ rules) (best, h) =
    elim (Option-cases (rule.match candidate context)) [
      | inl passed ↦ rw (passed, apply_rules) (apply_rules-IsLink candidate context rules h)
      | inr (result, handled) ↦
          rw (handled, apply_rules)
            (report-IsLink candidate context rule.name result result.matches
              (best candidate context result handled))
    ]

IsLink-mono :
    {candidates more : List LinkCandidate} {context : LinkRuleContext} {edge : TopologyEdge}
    → ((c : LinkCandidate) → Memᴰ c candidates → Memᴰ c more)
    → IsLink candidates context edge
    → IsLink more context edge
IsLink-mono sub l = record {
  candidate = l.candidate;
  listed = sub l.candidate l.listed;
  match = l.match;
  unique = l.unique;
  source = l.source;
  target = l.target;
  relation = l.relation;
  joins = l.joins;
}

only_head :
    (c candidate : LinkCandidate) (candidates : List LinkCandidate)
    → Memᴰ c (candidate ∷ [])
    → Memᴰ c (candidate ∷ candidates)
only_head c candidate candidates (Memᴰ.head e) = Memᴰ.head e
only_head c candidate candidates (Memᴰ.tail m) = elim m [ ]

link_candidates-IsLink :
    (candidates : List LinkCandidate) (context : LinkRuleContext) (rules : List LinkRule)
    → All UsesBest rules
    → All (IsLink candidates context) (link_candidates candidates context rules).0
unfolding link_candidates
link_candidates-IsLink [] context rules h = tt
link_candidates-IsLink (candidate ∷ candidates) context rules h =
    All-append (IsLink (candidate ∷ candidates) context) _ _
      (All-map _ (λ edge l. IsLink-mono (λ c m. only_head c candidate candidates m) l)
        (apply_rules-IsLink candidate context rules h))
      (All-map _ (λ edge l. IsLink-mono (λ c m. Memᴰ.tail m) l)
        (link_candidates-IsLink candidates context rules h))

-- Every discovered link is a cross-cluster edge from an outbound candidate to the only best match of
-- that candidate: an entry of another cluster that no existing edge reaches from it and that shares
-- a key with it.
pub discover_links-IsLink :
    (normalize_target : String → String) (nodes : List TopologyNode) (existing : List TopologyEdge)
    → All
        (IsLink (outbound normalize_target nodes) (link_context normalize_target nodes existing))
        (discover_links normalize_target nodes existing).0
unfolding discover_links discover_links_with_rules
discover_links-IsLink normalize_target nodes existing =
    link_candidates-IsLink (outbound normalize_target nodes)
      (link_context normalize_target nodes existing) default_link_rules default-UsesBest

pub discover_links-nil :
    (normalize_target : String → String) (existing : List TopologyEdge)
    → let (links, findings) = discover_links normalize_target [] existing in
      (links ≡ []) × (findings ≡ [])
unfolding discover_links discover_links_with_rules outbound link_candidates
discover_links-nil normalize_target existing = (refl, refl)
