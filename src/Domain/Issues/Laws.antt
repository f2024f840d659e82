-- ===== src/Domain/Issues/Laws.antt =====
-- Issues are stored once: internal/domain/probe_protocol.go.
use gate_lens.Common.{
  true, false, List, [], ◌∷◌, ◌++◌, eq_iff, any, ◌≡◌, refl, ◌⊎◌, inl, inr, arith, Bool-cases,
  any-append, ◌↔◌,
}
use gate_lens.Domain.Issues.{ProbeIssue, same_identity, append_probe_issue}

same_identity_iff :
    (a b : ProbeIssue)
    → (same_identity a b ≡ true) ↔ (
        (a.scope ≡ b.scope)
        × (a.code ≡ b.code)
        × (a.context_id ≡ b.context_id)
        × (a.hop_id ≡ b.hop_id))
unfolding same_identity
same_identity_iff a b = ground (
  arith,
  eq_iff a.scope b.scope,
  eq_iff a.code b.code,
  eq_iff a.context_id b.context_id,
  eq_iff a.hop_id b.hop_id,
)

-- No later issue has the identity of an earlier one.
abbrev pub OncePerIdentity : List ProbeIssue → Type 0
OncePerIdentity [] = Unit
OncePerIdentity (issue ∷ issues) =
    (any (λ later. same_identity issue later) issues ≡ false) × OncePerIdentity issues

-- Some issue of the list has this identity.
abbrev pub HasIdentity : List ProbeIssue → ProbeIssue → Type 0
HasIdentity issues issue = any (λ current. same_identity current issue) issues ≡ true

OncePerIdentity-snoc :
    (issues : List ProbeIssue) (issue : ProbeIssue)
    → any (λ current. same_identity current issue) issues ≡ false
    → OncePerIdentity issues
    → OncePerIdentity (issues ++ issue ∷ [])
OncePerIdentity-snoc [] issue new once = (refl, tt)
OncePerIdentity-snoc (x ∷ xs) issue new once = ground (
  arith,
  any-append (λ (later : ProbeIssue). same_identity x later) xs (issue ∷ []),
  OncePerIdentity-snoc xs issue,
)

-- In a list in which no identity stands twice, appending an issue either finds its identity there
-- already and changes nothing, whatever the message, or puts the issue last; either way no identity
-- stands twice in the new list, and the issue's own stands there.
pub append_probe_issue_once :
    (issues : List ProbeIssue) (issue : ProbeIssue)
    → OncePerIdentity issues
    → let after = append_probe_issue issues issue in
      OncePerIdentity after
      × HasIdentity after issue
      × ((HasIdentity issues issue × (after ≡ issues))
          ⊎ ((¬ HasIdentity issues issue) × (after ≡ issues ++ issue ∷ [])))
unfolding append_probe_issue
append_probe_issue_once issues issue once =
    elim (Bool-cases (any (λ current. same_identity current issue) issues)) [
      | inl old ↦ rw old (once, old, inl (refl, refl))
      | inr new ↦ rw new (
        OncePerIdentity-snoc issues issue new once,
        rw any-append (ground (arith, same_identity_iff issue issue)),
        inr ((λ h. cc), refl),
      )
    ]
