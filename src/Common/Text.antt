-- ===== src/Common/Text.antt =====
-- Go's strings as texts, by the functions of package strings that the code calls. A text that is
-- not valid UTF-8 has no counterpart here.
use Prim.Native.Nat.{ℕ, ◌+◌}
use mathlib.Core.List.{List, [], ◌∷◌}
use Prim.Native.Char.{Char, code}
use Prim.Native.String
use Prim.Native.String.{String}
use mathlib.Core.Path.{◌≡◌, refl, subst}
use mathlib.Core.Bool.{Bool, true, false, ◌&&◌, ◌||◌}
use mathlib.Core.Option.{Option, none, some}
use native.Mathlib.Omega.{arith}
use text.Mathlib.Text.{◌==◌}
use text.Mathlib.TextEquality.{Char-path}
use text.Mathlib.TextLemmas.{nil-append, cons-append}
use mathlib.Core.Logic.{inl, inr}
use gate_lens.Common.Tests.{Bool-cases, Option-cases, ltb, nat_eq, leb, if◌then◌else◌, is_some}

infixr 66 ◌+++◌
abbrev pub ◌+++◌ : String → String → String
s +++ t = String.◌++◌ s t

-- What is left of `s` behind the prefix, if it has it.
unfoldable pub after_prefix : String → String → Option String
after_prefix String.[] s = some s
after_prefix (String.◌∷◌ c p) String.[] = none
after_prefix (String.◌∷◌ c p) (String.◌∷◌ d s) =
    if nat_eq (code c) (code d) then after_prefix p s else none

-- Go's `<` on strings: the order of UTF-8 is that of the code points.
unfoldable pub string_ltb : String → String → Bool
string_ltb s String.[] = false
string_ltb String.[] (String.◌∷◌ d t) = true
string_ltb (String.◌∷◌ c s) (String.◌∷◌ d t) =
    let later = string_ltb s t in ltb (code c) (code d) || (nat_eq (code c) (code d) && later)

-- strings.HasPrefix(s, prefix)
abbrev pub has_prefix : String → String → Bool
has_prefix s prefix = is_some (after_prefix prefix s)

-- strings.TrimPrefix(s, prefix)
abbrev pub trim_prefix : String → String → String
trim_prefix s prefix = elim (after_prefix prefix s) [ none ↦ s | some rest ↦ rest ]

prefixed : Char → Option String → Option String
prefixed c none = none
prefixed c (some s) = some (String.◌∷◌ c s)

-- What is left of `s` in front of the suffix, if it has it.
unfoldable pub before_suffix : String → String → Option String
unfolding prefixed
before_suffix suffix String.[] = if suffix == "" then some "" else none
before_suffix suffix (String.◌∷◌ c s) =
    let shorter = prefixed c (before_suffix suffix s) in
    if suffix == String.◌∷◌ c s then some "" else shorter

-- strings.HasSuffix(s, suffix)
abbrev pub has_suffix : String → String → Bool
has_suffix s suffix = is_some (before_suffix suffix s)

-- strings.TrimSuffix(s, suffix)
abbrev pub trim_suffix : String → String → String
trim_suffix s suffix = elim (before_suffix suffix s) [ none ↦ s | some front ↦ front ]

-- strings.Split(s, "\n")
lines_from : Char → List String → List String
lines_from c [] = String.◌∷◌ c "" ∷ []
lines_from c (line ∷ lines) = String.◌∷◌ c line ∷ lines

unfoldable pub split_lines : String → List String
unfolding lines_from
split_lines String.[] = "" ∷ []
split_lines (String.◌∷◌ c s) =
    let lines = split_lines s in if nat_eq (code c) 10 then "" ∷ lines else lines_from c lines

-- The bytes of a code point in UTF-8.
char_bytes : ℕ → ℕ
char_bytes c = if ltb c 0x80 then 1 else if ltb c 0x800 then 2 else if ltb c 0x10000 then 3 else 4

-- The function `len` on a string.
unfoldable pub byte_length : String → ℕ
unfolding char_bytes
byte_length String.[] = 0
byte_length (String.◌∷◌ c s) = char_bytes (code c) + byte_length s

-- unicode.IsSpace
is_space : ℕ → Bool
is_space c =
    (leb 9 c && leb c 13)
    || nat_eq c 32
    || nat_eq c 0x85
    || nat_eq c 0xA0
    || nat_eq c 0x1680
    || (leb 0x2000 c && leb c 0x200A)
    || nat_eq c 0x2028
    || nat_eq c 0x2029
    || nat_eq c 0x202F
    || nat_eq c 0x205F
    || nat_eq c 0x3000

trim_left : String → String
unfolding is_space
trim_left String.[] = ""
trim_left (String.◌∷◌ c s) =
    let rest = trim_left s in if is_space (code c) then rest else String.◌∷◌ c s

-- A character put before a text whose right end is trimmed: a space before nothing goes too.
trim_cons : Char → String → String
unfolding is_space
trim_cons c String.[] = if is_space (code c) then "" else String.◌∷◌ c ""
trim_cons c (String.◌∷◌ d s) = String.◌∷◌ c (String.◌∷◌ d s)

trim_right : String → String
unfolding trim_cons
trim_right String.[] = ""
trim_right (String.◌∷◌ c s) = trim_cons c (trim_right s)

-- strings.TrimSpace
unfoldable pub trim_space : String → String
unfolding trim_left trim_right
trim_space s = trim_right (trim_left s)

pub after_prefix-append : (p s : String) → after_prefix p (p +++ s) ≡ some s
unfolding after_prefix
after_prefix-append String.[] s = rw nil-append
after_prefix-append (String.◌∷◌ c p) s = rw cons-append (ground (arith, after_prefix-append p s))

pub append-after_prefix : (p s r : String) → after_prefix p s ≡ some r → s ≡ p +++ r
unfolding after_prefix
append-after_prefix String.[] s r e = rw nil-append (cc)
append-after_prefix (String.◌∷◌ c p) String.[] r e = cc
append-after_prefix (String.◌∷◌ c p) (String.◌∷◌ d s) r e =
    rw cons-append (ground (arith, append-after_prefix p s r, Char-path c d))

prepend : Char → Option (String × String) → Option (String × String)
prepend c none = none
prepend c (some (before, after)) = some (String.◌∷◌ c before, after)

-- strings.Cut(s, sep): the parts before and after the first `sep`, if it occurs.
unfoldable pub cut : String → String → Option (String × String)
unfolding prepend
cut String.[] sep = elim (after_prefix sep "") [ none ↦ none | some rest ↦ some ("", rest) ]
cut (String.◌∷◌ c s) sep =
    let later = cut s sep in
    elim (after_prefix sep (String.◌∷◌ c s)) [
      | none ↦ prepend c later
      | some rest ↦ some ("", rest)
    ]

-- The part in front of the first `sep` has no `sep`, if that is one character.
pub cut-before :
    (c : Char) (s before after : String)
    → cut s (String.◌∷◌ c "") ≡ some (before, after)
    → cut before (String.◌∷◌ c "") ≡ none
unfolding cut prepend after_prefix
cut-before c String.[] before after e = absurd (ground arith)
cut-before c (String.◌∷◌ d s) before after e = elim (Bool-cases (nat_eq (code c) (code d))) [
  | inl same ↦
      let empty : "" ≡ before = ground arith in
      subst (λ (t : String). cut t (String.◌∷◌ c "") ≡ none) empty refl
  | inr other ↦ elim (Option-cases (cut s (String.◌∷◌ c ""))) [
    | inl f ↦ absurd (ground arith)
    | inr ((front, rest), f) ↦
        let longer : String.◌∷◌ d front ≡ before = ground arith in
        let none_in_front = cut-before c s front rest f in
        subst (λ (t : String). cut t (String.◌∷◌ c "") ≡ none) longer (ground arith)
  ]
]
