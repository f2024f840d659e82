-- ===== src/Observed/Values/Numbers.antt =====
-- The digits of a number determine it.
use Prim.Native.Nat.{◌/◌, ◌%◌}
use Prim.Native.Char.{Char, code}
use text.Mathlib.TextLemmas.{cons-append, nil-append}
use gate_lens.Common.{
  ℕ, zero, suc, ◌+◌, ◌-◌, ◌*◌, ◌<◌, String, ◌≡◌, ap, sym, ◌∙◌, ◌+++◌, arith, Bool-cases, ltb, inl,
  inr,
}
use gate_lens.Observed.Values.{digit, digits_from, decimal}

-- The number that the digits of a text denote, behind those read before.
read_digits : ℕ → String → ℕ
read_digits so_far String.[] = so_far
read_digits so_far (String.◌∷◌ c s) = read_digits (10 * so_far + (code c - 48)) s

read_digits-char :
    (c : Char) (so_far : ℕ) (s : String)
    → read_digits so_far (String.◌∷◌ c "" +++ s) ≡ read_digits (10 * so_far + (code c - 48)) s
unfolding read_digits
read_digits-char c so_far s = rw (cons-append, nil-append)

read_digits-digit :
    (so_far d : ℕ) (s : String)
    → d < 10
    → read_digits so_far (digit d +++ s) ≡ read_digits (10 * so_far + d) s
unfolding read_digits digit
read_digits-digit so_far zero s h = read_digits-char "0" so_far s
read_digits-digit so_far (suc zero) s h = read_digits-char "1" so_far s
read_digits-digit so_far (suc (suc zero)) s h = read_digits-char "2" so_far s
read_digits-digit so_far (suc (suc (suc zero))) s h = read_digits-char "3" so_far s
read_digits-digit so_far (suc (suc (suc (suc zero)))) s h = read_digits-char "4" so_far s
read_digits-digit so_far (suc (suc (suc (suc (suc zero))))) s h = read_digits-char "5" so_far s
read_digits-digit so_far (suc (suc (suc (suc (suc (suc zero)))))) s h =
    read_digits-char "6" so_far s
read_digits-digit so_far (suc (suc (suc (suc (suc (suc (suc zero))))))) s h =
    read_digits-char "7" so_far s
read_digits-digit so_far (suc (suc (suc (suc (suc (suc (suc (suc zero)))))))) s h =
    read_digits-char "8" so_far s
read_digits-digit so_far (suc (suc (suc (suc (suc (suc (suc (suc (suc zero))))))))) s h =
    read_digits-char "9" so_far s
read_digits-digit so_far (suc (suc (suc (suc (suc (suc (suc (suc (suc (suc d)))))))))) s h =
    absurd (omega (arith, h))

read_digits-digits_from :
    (fuel n : ℕ) (s : String) → n < fuel → read_digits 0 (digits_from fuel n s) ≡ read_digits n s
unfolding digits_from
read_digits-digits_from zero n s h = absurd (omega (arith, h))
read_digits-digits_from (suc fuel) n s h = elim (Bool-cases (ltb n 10)) [
  | inl e ↦ ground (arith, read_digits-digit 0 n s)
  | inr e ↦ ground (
    arith,
    read_digits-digits_from fuel (n / 10) (digit (n % 10) +++ s),
    read_digits-digit (n / 10) (n % 10) s,
  )
]

read_digits-decimal : (n : ℕ) → read_digits 0 (decimal n) ≡ n
unfolding decimal read_digits
read_digits-decimal n = read_digits-digits_from (n + 1) n "" (omega arith)

-- Two numbers of the same digits are equal.
pub decimal_injective : (m n : ℕ) → decimal m ≡ decimal n → m ≡ n
decimal_injective m n e = sym (read_digits-decimal m) ∙ ap (read_digits 0) e ∙ read_digits-decimal n
