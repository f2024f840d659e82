-- ===== src/Federation/Ids.antt =====
-- Identities across clusters: globalID and localID of internal/federation/store.go.
use gate_lens.Common.{
  String, true, false, some, ◌≡◌, sym, ap, ◌∙◌, ◌==◌, ◌||◌, if◌then◌else◌, ◌+++◌, has_prefix,
  trim_prefix, after_prefix, after_prefix-append, arith, Bool-cases, Option-cases, inl, inr,
}
use text.Mathlib.TextLemmas.{append_assoc}

unfoldable pub global_id : String → String → String
global_id cluster id =
    if id == "" || has_prefix id (cluster +++ "::") then id else cluster +++ "::" +++ id

unfoldable pub local_id : String → String → String
local_id cluster id = trim_prefix id (cluster +++ "::")

owned_prefix :
    (cluster id : String) → after_prefix (cluster +++ "::") (cluster +++ "::" +++ id) ≡ some id
owned_prefix cluster id =
    ap (after_prefix (cluster +++ "::")) (sym (append_assoc cluster "::" id))
    ∙ after_prefix-append (cluster +++ "::") id

trim_owned : (cluster id : String) → local_id cluster (cluster +++ "::" +++ id) ≡ id
unfolding local_id
trim_owned cluster id = rw (owned_prefix cluster id, trim_prefix)

keep_plain :
    (cluster id : String) → has_prefix id (cluster +++ "::") ≡ false → local_id cluster id ≡ id
unfolding local_id
keep_plain cluster id plain = elim (Option-cases (after_prefix (cluster +++ "::") id)) [
  | inl missing ↦ rw (missing, trim_prefix)
  | inr (rest, found) ↦ absurd (ground arith)
]

global_owned :
    (cluster id : String) → global_id cluster (cluster +++ "::" +++ id) ≡ cluster +++ "::" +++ id
unfolding global_id
global_owned cluster id = ground (arith, owned_prefix cluster id)

global_plain :
    (cluster id : String)
    → (id == "") ≡ false
    → has_prefix id (cluster +++ "::") ≡ false
    → global_id cluster id ≡ cluster +++ "::" +++ id
unfolding global_id
global_plain cluster id named plain = rw (named, plain)

global_nil : (cluster id : String) → (id == "") ≡ true → global_id cluster id ≡ id
unfolding global_id
global_nil cluster id nil = rw nil

-- The identity that an agent reports, which has no cluster in front, is found again behind the
-- cluster that the server puts there, and the server puts it there once only.
pub local_id-global_id :
    (cluster id : String)
    → has_prefix id (cluster +++ "::") ≡ false
    → (local_id cluster (global_id cluster id) ≡ id)
      × (global_id cluster (global_id cluster id) ≡ global_id cluster id)
local_id-global_id cluster id plain = elim (Bool-cases (id == "")) [
  | inl nil ↦
      let same = global_nil cluster id nil in
      (ap (local_id cluster) same ∙ keep_plain cluster id plain, ap (global_id cluster) same)
  | inr named ↦
      let owned = global_plain cluster id named plain in
      (
        ap (local_id cluster) owned ∙ trim_owned cluster id,
        ap (global_id cluster) owned ∙ (global_owned cluster id ∙ sym owned),
      )
]
