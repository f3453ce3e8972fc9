-- ===== src/Payments/Validation.antt =====
-- packages/payments/src/validation.ts: amounts, currencies, identifiers and keys. A value that
-- TypeScript's types allow is assumed, so a test of a value's type is left out.
use Prim.Native.String
use oss_tips.Base.{
  ℕ, ◌==◌, leb, ltb, ℤ, pos, leb_ℤ, ltb_ℤ, Bool, false, not, ◌&&◌, ◌||◌, String, List, [], ◌∷◌,
  length, any, Result, ok, err, ◌>>=◌, ◌>>◌, throw_if, if◌then◌else◌, to_lower, text_length,
  text_codes, between, is_space, starts_with,
}
use oss_tips.Domain.Money.{Numeric, bigint, number, not_integer, is_supported_currency}
use oss_tips.Ledger.Intents.{is_safe}

abbrev pub from_number : Numeric → String → Result ℤ
from_number (bigint n) name = ok n
from_number (number n) name =
    if is_safe n then ok n else err (String.◌++◌ name " must be a safe integer in minor units")
from_number not_integer name = err (String.◌++◌ name " must be a safe integer in minor units")

unfoldable pub minor_units : Numeric → String → Bool → Result ℤ
minor_units value name allow_zero = do
  n ← from_number value name
  throw_if (not allow_zero && leb_ℤ n (pos 0)) (String.◌++◌ name " must be positive")
  throw_if (allow_zero && ltb_ℤ n (pos 0)) (String.◌++◌ name " must be non-negative")
  ok n

abbrev is_letter : ℕ → Bool
is_letter c = between b'a' b'z' c || between b'A' b'Z' c

abbrev is_letter_or_digit : ℕ → Bool
is_letter_or_digit c = is_letter c || between b'0' b'9' c

abbrev all : (ℕ → Bool) → List ℕ → Bool
all p cs = not (any (λ c. not (p c)) cs)

-- The pattern of three letters, of either case.
abbrev is_currency_pattern : List ℕ → Bool
is_currency_pattern cs = length cs == 3 && all is_letter cs

unfoldable pub normalize_currency : String → Result String
normalize_currency value = do
  throw_if (not (is_currency_pattern (text_codes value))) "Currency must be a three-letter ISO code"
  throw_if (not (is_supported_currency (to_lower value))) "Unsupported currency"
  ok (to_lower value)

-- `ID_PATTERN`: a letter or digit, then at most 254 letters, digits or `_`, `:`, `-`.
abbrev is_id : List ℕ → Bool
is_id [] = false
is_id (c ∷ cs) =
    is_letter_or_digit c
    && leb (length cs) 254
    && all (λ d. is_letter_or_digit d || d == b'_' || d == b':' || d == b'-') cs

unfoldable pub validate_identifier : String → String → String → Result String
validate_identifier value name prefix = do
  throw_if (not (is_id (text_codes value))) (String.◌++◌ name " is invalid")
  throw_if (not (starts_with value prefix)) (String.◌++◌ name " is invalid")
  ok value

abbrev pub has_line_break : String → Bool
has_line_break s = any (λ c. c == 10 || c == 13) (text_codes s)

unfoldable pub validate_idempotency_key : String → Result String
validate_idempotency_key value = do
  throw_if (text_length value == 0 || ltb 255 (text_length value) || has_line_break value)
      "Idempotency key is invalid"
  ok value

-- `reason.trim().length === 0`
abbrev pub is_blank : String → Bool
is_blank s = all is_space (text_codes s)
