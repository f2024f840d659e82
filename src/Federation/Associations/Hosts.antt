-- ===== src/Federation/Associations/Hosts.antt =====
-- Hosts and clusters that a record names: normalizedUpstreamHost and upstreamClusterTokens of
-- internal/federation/store.go.
use Prim.Native.Char.{code}
use gate_lens.Common.{
  ℕ, String, Bool, List, [], ◌∷◌, Option, none, some, ◌==◌, ◌||◌, any, nat_eq, if◌then◌else◌,
  trim_space, trim_suffix,
}

-- url.Parse with Hostname, the host of net.SplitHostPort, strings.ToLower, normalizeTarget, which
-- rests on the first two, and fmt.Sprintf with one number.
pub record HostLibrary : Type 0 where
  pub hostname : String → Option String
  pub split_host_port : String → Option String
  pub to_lower : String → String
  pub normalize_target : String → String
  pub format : String → ℕ → String

unfoldable pub is_bracket : ℕ → Bool
is_bracket c = nat_eq c b'[' || nat_eq c b']'

unfoldable pub trim_left_brackets : String → String
trim_left_brackets String.[] = ""
trim_left_brackets (String.◌∷◌ c s) =
    let rest = trim_left_brackets s in if is_bracket (code c) then rest else String.◌∷◌ c s

unfoldable pub trim_right_brackets : String → String
trim_right_brackets String.[] = ""
trim_right_brackets (String.◌∷◌ c s) =
    let rest = trim_right_brackets s in
    if rest == "" then (if is_bracket (code c) then "" else String.◌∷◌ c "") else String.◌∷◌ c rest

-- strings.Trim(value, "[]")
unfoldable pub trim_brackets : String → String
trim_brackets value = trim_right_brackets (trim_left_brackets value)

-- The separators of the tokens.
unfoldable pub is_separator : ℕ → Bool
is_separator c =
    any (λ separator. nat_eq separator c)
      (b'|' ∷ b':' ∷ b';' ∷ b',' ∷ b'/' ∷ b'(' ∷ b')' ∷ b'[' ∷ b']' ∷ b' ' ∷ 9 ∷ 13 ∷ 10 ∷ [])

abbrev push_field : String × List String → List String
push_field (word, words) = if word == "" then words else word ∷ words

-- The first word, which may be empty, and the other fields.
unfoldable pub split_fields : String → String × List String
split_fields String.[] = ("", [])
split_fields (String.◌∷◌ c s) =
    let later = split_fields s in
    if is_separator (code c) then ("", push_field later) else (String.◌∷◌ c (later.0), later.1)

-- strings.FieldsFunc
unfoldable pub fields : String → List String
fields s = push_field (split_fields s)

module _ (lib : HostLibrary) where
  abbrev pub host_text : String → String
  host_text host = lib.to_lower (trim_suffix host ".")

  unfoldable pub normalized_upstream_host : String → String
  normalized_upstream_host value =
      let trimmed = trim_space value in
      let other : String = elim (lib.split_host_port trimmed) [
        | some host ↦ host_text (trim_brackets host)
        | none ↦ host_text (trim_brackets trimmed)
      ] in
      if trimmed == "" then "" else (elim (lib.hostname trimmed) [
        | none ↦ other
        | some host ↦ if host == "" then other else host_text host
      ])

  unfoldable pub normalize_tokens : List String → List String
  normalize_tokens [] = []
  normalize_tokens (token ∷ tokens) =
      let rest = normalize_tokens tokens in
      let normal = lib.normalize_target token in if normal == "" then rest else normal ∷ rest

  unfoldable pub upstream_cluster_tokens : String → List String
  upstream_cluster_tokens cluster = normalize_tokens (fields (lib.to_lower cluster))
