-- ===== src/Observed/Attempts/Chains.antt =====
-- A request's records as a chain of internal redirects that ends in a response.
use gate_lens.Common.{
  String, true, false, List, [], ◌∷◌, map, some, ◌≡◌, refl, not, ◌||◌, keep, last?, length, nat_eq,
  arith,
}
use gate_lens.Domain.Hop.{ObservedHop}
use gate_lens.Domain.Probe.{ProbeAttemptLink}
use gate_lens.Observed.Attempts.{has_early_terminal, link_redirects, ends_in_redirect, has_redirect}

-- Each record but the last was redirected, and the last, `t`, was answered.
pub data RedirectChain : List ObservedHop → ObservedHop → Type 0 where
  answered : (t : ObservedHop) → t.internal_redirect ≡ false → RedirectChain (t ∷ []) t
  redirected :
      (hop : ObservedHop) {hops : List ObservedHop} {t : ObservedHop}
      → hop.internal_redirect ≡ true
      → RedirectChain hops t
      → RedirectChain (hop ∷ hops) t

abbrev pub hop_id : ObservedHop → String
hop_id hop = hop.id

-- The identities of the records that were not redirected.
abbrev pub terminal_ids : List ObservedHop → List String
terminal_ids records = map hop_id (keep (λ hop. not hop.internal_redirect) records)

-- A link from each record to the next.
abbrev pub consecutive : List ObservedHop → List ProbeAttemptLink
consecutive [] = []
consecutive (hop ∷ []) = []
consecutive (hop ∷ next ∷ hops) =
    record { «from» = hop.id; to = next.id } ∷ consecutive (next ∷ hops)

pub RedirectChain-terminal_ids :
    {records : List ObservedHop} {t : ObservedHop}
    → RedirectChain records t
    → terminal_ids records ≡ t.id ∷ []
RedirectChain-terminal_ids (answered t h) = rw h
RedirectChain-terminal_ids (redirected hop h c) = rw h (RedirectChain-terminal_ids c)

pub RedirectChain-last? :
    {records : List ObservedHop} {t : ObservedHop}
    → RedirectChain records t
    → (last? records ≡ some t) × (t.internal_redirect ≡ false)
RedirectChain-last? (answered t h) = (refl, h)
RedirectChain-last? (redirected hop h (answered t k)) = (refl, k)
RedirectChain-last? (redirected hop h (redirected next k c)) =
    RedirectChain-last? (redirected next k c)

pub RedirectChain-has_early_terminal :
    {records : List ObservedHop} {t : ObservedHop}
    → RedirectChain records t
    → has_early_terminal records ≡ false
unfolding has_early_terminal
RedirectChain-has_early_terminal (answered t h) = refl
RedirectChain-has_early_terminal (redirected hop h (answered t k)) = rw h
RedirectChain-has_early_terminal (redirected hop h (redirected next k c)) =
    rw h (RedirectChain-has_early_terminal (redirected next k c))

pub RedirectChain-redirects :
    {records : List ObservedHop} {t : ObservedHop}
    → RedirectChain records t
    → (has_redirect records || nat_eq (length records) 1) ≡ true
RedirectChain-redirects (answered t h) = rw h
RedirectChain-redirects (redirected hop h c) = rw h

pub link_redirects_of_RedirectChain :
    {records : List ObservedHop} {t : ObservedHop}
    → RedirectChain records t
    → link_redirects records ≡ consecutive records
unfolding link_redirects
link_redirects_of_RedirectChain (answered t h) = refl
link_redirects_of_RedirectChain (redirected hop h (answered t k)) = rw h
link_redirects_of_RedirectChain (redirected hop h (redirected next k c)) =
    rw (h, link_redirects_of_RedirectChain (redirected next k c))

-- A chain goes on to its end: what is left of it has a redirect or a single record.
rest :
    (next : ObservedHop) (hops : List ObservedHop)
    → ends_in_redirect (next ∷ hops) ≡ false
    → has_early_terminal (next ∷ hops) ≡ false
    → (has_redirect (next ∷ hops) || nat_eq (length (next ∷ hops)) 1) ≡ true
unfolding has_early_terminal ends_in_redirect
rest next [] d e = rw d
rest next (x ∷ hops) d e = ground arith

-- The tests that the code makes before it links, and what they say together.
pub RedirectChain-of_tests :
    (records : List ObservedHop)
    → has_early_terminal records ≡ false
    → ends_in_redirect records ≡ false
    → (has_redirect records || nat_eq (length records) 1) ≡ true
    → (t : ObservedHop) × RedirectChain records t
unfolding has_early_terminal ends_in_redirect
RedirectChain-of_tests [] e d r = cc
RedirectChain-of_tests (hop ∷ []) e d r = (hop, answered hop d)
RedirectChain-of_tests (hop ∷ next ∷ hops) e d r =
    let (t, chain) =
      RedirectChain-of_tests (next ∷ hops) (ground arith) d (rest next hops d (ground arith)) in
    (t, redirected hop (ground arith) chain)
