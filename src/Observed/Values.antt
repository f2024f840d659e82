-- ===== src/Observed/Values.antt =====
-- Small functions on logged values: internal/observed/higress_log.go, and the printing of numbers.
pub mod Numbers
use Prim.Native.String.{slice}
use gate_lens.Common.{
  ℕ, zero, suc, ◌+◌, String, Bool, ◌==◌, ◌&&◌, ◌||◌, not, ltb, if◌then◌else◌, trim_space,
  trim_prefix, has_prefix, ◌+++◌,
}
use Prim.Native.Nat.{◌/◌, ◌%◌}

unfoldable pub valid_log_value : String → String
valid_log_value value = let trimmed = trim_space value in if trimmed == "-" then "" else trimmed

unfoldable pub is_internal_redirect : String → Bool
is_internal_redirect details =
    let trimmed = trim_space details in
    trimmed == "internal_redirect"
    || (has_prefix trimmed "internal_redirect:"
        && not (trim_space (trim_prefix trimmed "internal_redirect:") == ""))

unfoldable pub digit : ℕ → String
digit d = slice "0123456789" d (d + 1)

unfoldable pub digits_from : ℕ → ℕ → String → String
digits_from zero n rest = rest
digits_from (suc fuel) n rest =
    let longer = digits_from fuel (n / 10) (digit (n % 10) +++ rest) in
    if ltb n 10 then digit n +++ rest else longer

-- The verb %d, on a number that is not negative. A number has at most n + 1 digits.
unfoldable pub decimal : ℕ → String
unfolding digits_from digit
decimal n = digits_from (n + 1) n ""
