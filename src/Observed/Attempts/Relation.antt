-- ===== src/Observed/Attempts/Relation.antt =====
-- When a group's attempts are linked.
use gate_lens.Common.{
  ℕ, String, Bool, true, false, List, [], ◌∷◌, map, Option, some, ◌≡◌, ◌≢◌, refl, ◌↔◌, not, ◌&&◌,
  ◌||◌, last?, any, length, ltb, arith, eq_iff, sym, ◌∙◌, ap, if◌then◌else◌,
}
use gate_lens.Domain.Values.{
  probe_attempt_relation_state_linked, probe_attempt_relation_state_unconfirmed,
  probe_attempt_relation_state_missing_next, probe_attempt_relation_state_ambiguous,
  probe_order_basis_source_sequence, probe_order_basis_unavailable,
}
use gate_lens.Domain.Hop.{ObservedHop}
use gate_lens.Domain.Issues.{ProbeIssue}
use gate_lens.Domain.Probe.{ProbeCollection}
use gate_lens.Observed.Attempts.{
  AttemptGroup, Bucket, relate, list_hops, confirm_order, start_group, sort_by_sequence,
  close_group, relate_by, attempt_group, in_order, is_ordered, has_request_identity, link_redirects,
  ends_in_redirect, has_redirect, only, is_ambiguous, misses_next, is_linked, is_settled,
}
use gate_lens.Observed.Attempts.Chains.{
  RedirectChain, RedirectChain-terminal_ids, RedirectChain-last?, RedirectChain-has_early_terminal,
  RedirectChain-redirects, link_redirects_of_RedirectChain, RedirectChain-of_tests, terminal_ids,
  answered, redirected, consecutive, hop_id,
}

relate_by-linked :
    (ambiguous linking missing linked several : Bool) (records : List ObservedHop)
    (group : AttemptGroup)
    → group.relation_state ≡ probe_attempt_relation_state_unconfirmed
    → ((relate_by ambiguous linking missing linked several records group).relation_state
        ≡ probe_attempt_relation_state_linked)
      ↔ ((ambiguous ≡ false) × (missing ≡ false) × (linked ≡ true))
unfolding relate_by
relate_by-linked ambiguous linking missing linked several records group start = ground (
  arith,
  eq_iff probe_attempt_relation_state_ambiguous probe_attempt_relation_state_linked,
  eq_iff probe_attempt_relation_state_missing_next probe_attempt_relation_state_linked,
  eq_iff probe_attempt_relation_state_unconfirmed probe_attempt_relation_state_linked,
)

relate_by-links :
    (ambiguous linking missing linked several : Bool) (records : List ObservedHop)
    (group : AttemptGroup)
    → ambiguous ≡ false
    → missing ≡ false
    → linked ≡ true
    → (relate_by ambiguous linking missing linked several records group).links
      ≡ (if linking then link_redirects records else group.links)
unfolding relate_by
relate_by-links ambiguous linking missing linked several records group a m l = ground arith

relate_by-keeps :
    (ambiguous linking missing linked several : Bool) (records : List ObservedHop)
    (group : AttemptGroup)
    → let after = relate_by ambiguous linking missing linked several records group in
      (after.hop_ids ≡ group.hop_ids)
      × (after.order_basis ≡ group.order_basis)
      × (after.terminal_candidate_ids ≡ group.terminal_candidate_ids)
      × (after.local_terminal_hop_id ≡ group.local_terminal_hop_id)
unfolding relate_by
relate_by-keeps ambiguous linking missing linked several records group = ground arith

-- The group before its records are related.
abbrev listed : List ProbeIssue → ℕ → Bucket → AttemptGroup
listed issues index bucket = list_hops (in_order issues bucket) (
    confirm_order (is_ordered issues bucket)
      (any (λ hop. not (has_request_identity hop)) bucket.records) (start_group index bucket))

close_group-keeps :
    (collection : Option ProbeCollection) (issues : List ProbeIssue) (group : AttemptGroup)
    → let closed = close_group collection issues group in
      (closed.relation_state ≡ group.relation_state)
      × (closed.links ≡ group.links)
      × (closed.hop_ids ≡ group.hop_ids)
      × (closed.order_basis ≡ group.order_basis)
      × (closed.terminal_candidate_ids ≡ group.terminal_candidate_ids)
unfolding close_group
close_group-keeps collection issues group = ground arith

listed_lem :
    (issues : List ProbeIssue) (index : ℕ) (bucket : Bucket)
    → let group = listed issues index bucket in
      (group.relation_state ≡ probe_attempt_relation_state_unconfirmed)
      × (group.terminal_candidate_ids ≡ terminal_ids (in_order issues bucket))
      × (group.hop_ids ≡ map hop_id (in_order issues bucket))
      × (group.links ≡ [])
      × (group.order_basis ≡ (
          if is_ordered issues bucket
          then probe_order_basis_source_sequence
          else probe_order_basis_unavailable))
      × (group.local_terminal_hop_id ≡ "")
unfolding list_hops confirm_order start_group
listed_lem issues index bucket = ground arith

has_redirect_of_last :
    (records : List ObservedHop) → ends_in_redirect records ≡ true → has_redirect records ≡ true
unfolding ends_in_redirect
has_redirect_of_last [] h = cc
has_redirect_of_last (hop ∷ []) h = rw h
has_redirect_of_last (hop ∷ next ∷ hops) h = ground (arith, has_redirect_of_last (next ∷ hops) h)

RedirectChain-ends :
    {records : List ObservedHop} {t : ObservedHop}
    → RedirectChain records t
    → ends_in_redirect records ≡ false
unfolding ends_in_redirect
RedirectChain-ends c =
    let (last, final) = RedirectChain-last? c in rw (last, ends_in_redirect) final

-- The code's tests leave the linked branch exactly to a chain.
tests_iff :
    (ordered : Bool) (records : List ObservedHop)
    → ((is_ambiguous ordered records (terminal_ids records) ≡ false)
        × (misses_next ordered records (terminal_ids records) ≡ false)
        × (is_linked ordered records ≡ true))
      ↔ ((ordered ≡ true) × ((t : ObservedHop) × RedirectChain records t))
tests_iff ordered records = (
  (λ (single, stays, linked). (
    ground arith,
    RedirectChain-of_tests records (ground arith) (ground (arith, has_redirect_of_last records))
        (ground arith),
  )),
  (λ (o, (t, chain)).
      let a = RedirectChain-terminal_ids chain in
      let b = RedirectChain-ends chain in
      let c = RedirectChain-has_early_terminal chain in
      let d = RedirectChain-redirects chain in
      (rw (o, a, c) refl, rw (o, a, b) (ground arith), rw (o, d) refl)),
)

relate-linked :
    (ordered : Bool) (records : List ObservedHop) (group : AttemptGroup)
    → group.relation_state ≡ probe_attempt_relation_state_unconfirmed
    → group.terminal_candidate_ids ≡ terminal_ids records
    → ((relate ordered records group).relation_state ≡ probe_attempt_relation_state_linked)
      ↔ ((ordered ≡ true) × ((t : ObservedHop) × RedirectChain records t))
unfolding relate
relate-linked ordered records group start terminals =
    let ids = group.terminal_candidate_ids in
    let (to, from) =
      relate_by-linked (is_ambiguous ordered records ids) (ordered && has_redirect records)
        (misses_next ordered records ids) (is_linked ordered records) (ltb 1 (length records))
        records group start in
    let (chain, tests) = tests_iff ordered records in
    ((λ h. chain (rw terminals at (to h))), (λ h. from (rw terminals (tests h))))

-- A group's state is "linked" exactly if its records are ordered and form a chain: each record
-- but the last was internally redirected, and the last one was not.
pub linked_iff :
    (collection : Option ProbeCollection) (issues : List ProbeIssue) (index : ℕ) (bucket : Bucket)
    → ((attempt_group collection issues index bucket).relation_state
        ≡ probe_attempt_relation_state_linked)
      ↔ ((is_ordered issues bucket ≡ true)
          × ((t : ObservedHop) × RedirectChain (in_order issues bucket) t))
unfolding attempt_group
linked_iff collection issues index bucket =
    let (start, terminals, ids, links, basis, unset) = listed_lem issues index bucket in
    let group = listed issues index bucket in
    let records = in_order issues bucket in
    let related = relate (is_ordered issues bucket) records group in
    let (state, tied, named, order, ended) = close_group-keeps collection issues related in
    let (to, from) = relate-linked (is_ordered issues bucket) records group start terminals in
    ((λ h. to (sym state ∙ h)), (λ h. state ∙ from h))

RedirectChain-links :
    {records : List ObservedHop} {t : ObservedHop}
    → RedirectChain records t
    → (if has_redirect records then link_redirects records else []) ≡ consecutive records
unfolding link_redirects
RedirectChain-links (answered t h) = rw h
RedirectChain-links (redirected hop {hops} h c) =
    ap (λ (b : Bool). if b || has_redirect hops then link_redirects (hop ∷ hops) else []) h
    ∙ link_redirects_of_RedirectChain (redirected hop h c)

relate-links :
    (records : List ObservedHop) (group : AttemptGroup) (t : ObservedHop)
    → group.terminal_candidate_ids ≡ terminal_ids records
    → group.links ≡ []
    → RedirectChain records t
    → (relate true records group).links ≡ consecutive records
unfolding relate
relate-links records group t terminals fresh chain =
    let (single, stays, linked) = (tests_iff true records).1 (refl, (t, chain)) in
    let ids = group.terminal_candidate_ids in
    relate_by-links (is_ambiguous true records ids) (true && has_redirect records)
      (misses_next true records ids) (is_linked true records) (ltb 1 (length records)) records group
      (rw terminals single) (rw terminals stays) linked
    ∙ rw fresh (RedirectChain-links chain)

relate-keeps :
    (ordered : Bool) (records : List ObservedHop) (group : AttemptGroup)
    → let after = relate ordered records group in
      (after.hop_ids ≡ group.hop_ids)
      × (after.order_basis ≡ group.order_basis)
      × (after.terminal_candidate_ids ≡ group.terminal_candidate_ids)
      × (after.local_terminal_hop_id ≡ group.local_terminal_hop_id)
unfolding relate
relate-keeps ordered records group =
    let ids = group.terminal_candidate_ids in
    relate_by-keeps (is_ambiguous ordered records ids) (ordered && has_redirect records)
      (misses_next ordered records ids) (is_linked ordered records) (ltb 1 (length records)) records
      group

in_order_of_is_ordered :
    (issues : List ProbeIssue) (bucket : Bucket)
    → is_ordered issues bucket ≡ true
    → in_order issues bucket ≡ sort_by_sequence bucket.records
unfolding in_order
in_order_of_is_ordered issues bucket o = rw o

-- A linked group names its records in the order of the log sequence, has one link from each record
-- to the next, and its only terminal candidate is its last record, which was not redirected.
pub linked_group :
    (collection : Option ProbeCollection) (issues : List ProbeIssue) (index : ℕ) (bucket : Bucket)
    → (attempt_group collection issues index bucket).relation_state
      ≡ probe_attempt_relation_state_linked
    → let group = attempt_group collection issues index bucket in
      let records = sort_by_sequence bucket.records in
      (group.order_basis ≡ probe_order_basis_source_sequence)
      × (group.hop_ids ≡ map hop_id records)
      × (group.links ≡ consecutive records)
      × ((t : ObservedHop) × (last? records ≡ some t)
          × (t.internal_redirect ≡ false)
          × (group.terminal_candidate_ids ≡ t.id ∷ []))
unfolding attempt_group
linked_group collection issues index bucket h =
    let (o, (t, chain)) = (linked_iff collection issues index bucket).0 h in
    let (start, terminals, ids, fresh, basis, unset) = listed_lem issues index bucket in
    let group = listed issues index bucket in
    let records = in_order issues bucket in
    let related = relate (is_ordered issues bucket) records group in
    let (state, tied, named, order, ended) = close_group-keeps collection issues related in
    let (named', order', ended', unset') = relate-keeps (is_ordered issues bucket) records group in
    let sorted : in_order issues bucket ≡ sort_by_sequence bucket.records =
      in_order_of_is_ordered issues bucket o in
    let (last, final) = RedirectChain-last? chain in
    (
      order ∙ (order' ∙ (basis ∙ rw o)),
      named ∙ (named' ∙ (ids ∙ ap (map hop_id) sorted)),
      tied
          ∙ ((ap (λ (b : Bool). (relate b records group).links) o
                ∙ (relate-links records group t terminals fresh chain))
              ∙ ap consecutive sorted),
      (
        t,
        rw (← sorted) last,
        final,
        ended ∙ (ended' ∙ (terminals ∙ RedirectChain-terminal_ids chain)),
      ),
    )

only-eq-some : (ids : List String) (id : String) → only ids ≡ some id → ids ≡ id ∷ []
unfolding only
only-eq-some [] id h = cc
only-eq-some (x ∷ []) id h = cc
only-eq-some (x ∷ y ∷ r) id h = cc

close_group-terminal :
    (collection : Option ProbeCollection) (issues : List ProbeIssue) (group : AttemptGroup)
    → group.local_terminal_hop_id ≡ ""
    → let closed = close_group collection issues group in
      closed.local_terminal_hop_id ≢ ""
      → (group.relation_state ≡ probe_attempt_relation_state_linked)
        × (is_settled collection ≡ true)
        × (issues ≡ [])
        × (group.terminal_candidate_ids ≡ closed.local_terminal_hop_id ∷ [])
unfolding close_group
close_group-terminal collection issues group unset h = ground (
  arith,
  eq_iff group.relation_state probe_attempt_relation_state_linked,
  only-eq-some group.terminal_candidate_ids
      (close_group collection issues group).local_terminal_hop_id,
)

-- A group names a local terminal only if it is linked, the collection is settled and the segment
-- has no issue; the terminal is then the group's only terminal candidate.
pub local_terminal :
    (collection : Option ProbeCollection) (issues : List ProbeIssue) (index : ℕ) (bucket : Bucket)
    → (attempt_group collection issues index bucket).local_terminal_hop_id ≢ ""
    → let group = attempt_group collection issues index bucket in
      (group.relation_state ≡ probe_attempt_relation_state_linked)
      × (is_settled collection ≡ true)
      × (issues ≡ [])
      × (group.terminal_candidate_ids ≡ group.local_terminal_hop_id ∷ [])
unfolding attempt_group
local_terminal collection issues index bucket h =
    let (start, terminals, ids, links, basis, unset) = listed_lem issues index bucket in
    let group = listed issues index bucket in
    let related = relate (is_ordered issues bucket) (in_order issues bucket) group in
    let (state, tied, named, order, ended) = close_group-keeps collection issues related in
    let (named', order', ended', unset') =
      relate-keeps (is_ordered issues bucket) (in_order issues bucket) group in
    let (linked, settled, clean, single) =
      close_group-terminal collection issues related (unset' ∙ unset) h in
    (state ∙ linked, settled, clean, ended ∙ single)
