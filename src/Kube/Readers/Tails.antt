-- ===== src/Kube/Readers/Tails.antt =====
-- What the snapshots of a reading hold of the bytes that a file or a container wrote.
use gate_lens.Common.{
  ℕ, zero, suc, ◌≤◌, Bool, true, false, [], ◌∷◌, ◌++◌, ◌≡◌, refl, ap, ◌∙◌, length, ltb, ltb→lt, sym,
  ◌≢◌, if◌then◌else◌, append_assoc, arith,
}
use gate_lens.Kube.Readers.{Bytes, take, drop, read_limited}

length-take : (n : ℕ) (bytes : Bytes) → length (take n bytes) ≤ n
unfolding take
length-take zero bytes = omega arith
length-take (suc n) [] = omega arith
length-take (suc n) (byte ∷ bytes) = omega (arith, length-take n bytes)

take-drop : (n : ℕ) (bytes : Bytes) → bytes ≡ take n bytes ++ drop n bytes
unfolding take drop
take-drop zero bytes = refl
take-drop (suc n) [] = refl
take-drop (suc n) (byte ∷ bytes) = ap (λ rest. byte ∷ rest) (take-drop n bytes)

-- Fewer bytes than were asked for are all of them.
take-whole : (n : ℕ) (bytes : Bytes) → length (take (suc n) bytes) ≤ n → bytes ≡ take (suc n) bytes
unfolding take
take-whole n [] h = refl
take-whole zero (byte ∷ bytes) h = absurd (omega (arith, h))
take-whole (suc n) (byte ∷ bytes) h =
    ap (λ rest. byte ∷ rest) (take-whole n bytes (omega (arith, h)))

-- The first bytes of some others: all of them, or as many as the limit, with more behind them.
pub data IsPart (max : ℕ) (bytes content : Bytes) (more : Bool) : Type 0 where
  whole : more ≡ false → length bytes ≤ max → content ≡ bytes → IsPart max bytes content more
  cut_off :
      (rest : Bytes)
      → more ≡ true
      → length content ≡ max
      → rest ≢ []
      → bytes ≡ content ++ rest
      → IsPart max bytes content more

take-length : (n : ℕ) (bytes : Bytes) → n ≤ length bytes → length (take n bytes) ≡ n
unfolding take
take-length zero bytes h = refl
take-length (suc n) [] h = absurd (omega (arith, h))
take-length (suc n) (byte ∷ bytes) h = ap suc (take-length n bytes (omega (arith, h)))

drop-rest : (n : ℕ) (bytes : Bytes) → length bytes ≡ suc n → drop n bytes ≢ []
unfolding drop
drop-rest n [] h e = absurd (omega (arith, h))
drop-rest zero (byte ∷ bytes) h e = absurd (ground (arith, e))
drop-rest (suc n) (byte ∷ bytes) h e = drop-rest n bytes (omega (arith, h)) e

append-rest : (front back : Bytes) → front ≢ [] → front ++ back ≢ []
append-rest [] back h e = h refl
append-rest (byte ∷ front) back h e = absurd (ground (arith, e))

cut-IsPart :
    (max : ℕ) (bytes : Bytes) (long : Bool)
    → ltb max (length (take (suc max) bytes)) ≡ long
    → let content = take (suc max) bytes in
      let cut : Bytes × Bool = if long then (take max content, true) else (content, false) in
      IsPart max bytes (cut.0) (cut.1)
cut-IsPart max bytes true e =
    let content = take (suc max) bytes in
    let full : length content ≡ suc max =
      omega (arith, ltb→lt max (length content) e, length-take (suc max) bytes) in
    cut_off (drop max content ++ drop (suc max) bytes) refl
      (take-length max content (omega (arith, full)))
      (append-rest (drop max content) (drop (suc max) bytes) (drop-rest max content full))
      (take-drop (suc max) bytes
        ∙ ap (λ part. part ++ drop (suc max) bytes) (take-drop max content)
        ∙ append_assoc (take max content) (drop max content) (drop (suc max) bytes))
cut-IsPart max bytes false e =
    let all = take-whole max bytes (ground arith) in
    whole refl (ground (arith, ap (λ (b : Bytes). length b) all)) (sym all)

pub read_limited-IsPart :
    (max : ℕ) (bytes : Bytes)
    → let (content, more) = read_limited max bytes in IsPart max bytes content more
unfolding read_limited
read_limited-IsPart max bytes = cut-IsPart max bytes (ltb max (length (take (suc max) bytes))) refl
