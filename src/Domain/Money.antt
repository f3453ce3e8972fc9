-- ===== src/Domain/Money.antt =====
-- packages/domain/src/money/index.ts: money in integer minor units. `formatMoney` only calls
-- `Intl.NumberFormat` and is left out.
use oss_tips.Base.{
  ℕ, ℤ, pos, String, Bool, List, [], ◌∷◌, ◌+ℤ◌, ◌-ℤ◌, ◌*ℤ◌, ◌/ℤ◌, Result, ok, err, ◌>>=◌, to_lower,
  str_eq, if◌then◌else◌, any, ◌≡◌, refl,
}

-- A `bigint`, a `number` that is an integer, or any other `number` (a fraction, `NaN`, an infinity).
pub data Numeric : Type 0 where
  bigint : ℤ → Numeric
  number : ℤ → Numeric
  not_integer : Numeric

-- `BigInt(value)`; a number that is no integer is a RangeError.
abbrev pub to_bigint : Numeric → Result ℤ
to_bigint (bigint n) = ok n
to_bigint (number n) = ok n
to_bigint not_integer = err "The number cannot be converted to a BigInt"

abbrev pub supported_currencies : List String
supported_currencies = "gbp" ∷ "usd" ∷ "eur" ∷ "jpy" ∷ []

unfoldable pub is_supported_currency : String → Bool
is_supported_currency value = any (λ c. str_eq c (to_lower value)) supported_currencies

pub record Money : Type 0 where
  pub amount_minor : ℤ
  pub currency : String
  pub exponent : ℕ

abbrev exponents : List (String × ℕ)
exponents =
    ("gbp", 2)
    ∷ ("usd", 2)
    ∷ ("eur", 2)
    ∷ ("jpy", 0)
    ∷ ("cad", 2)
    ∷ ("aud", 2)
    ∷ ("chf", 2)
    ∷ ("sek", 2)
    ∷ ("nok", 2)
    ∷ ("dkk", 2)
    ∷ ("brl", 2)
    ∷ ("mxn", 2)
    ∷ ("pln", 2)
    ∷ ("czk", 2)
    ∷ ("inr", 2)
    ∷ []

-- A key's value in an object literal, or the default behind `??`.
lookup_or : String → List (String × ℕ) → ℕ → ℕ
lookup_or key [] d = d
lookup_or key ((k, v) ∷ l) d = if str_eq k key then v else lookup_or key l d

unfoldable pub currency_code : String → String
currency_code code = to_lower code

unfoldable pub currency_exponent : String → ℕ
unfolding lookup_or
currency_exponent currency = lookup_or (to_lower currency) exponents 2

-- `money`, at an amount that is already a `bigint`.
unfoldable pub money_of : ℤ → String → Money
money_of amount_minor currency = record {
  amount_minor = amount_minor;
  currency = currency_code currency;
  exponent = currency_exponent currency;
}

unfoldable pub money : Numeric → String → Result Money
unfolding money_of
money amount_minor currency = do n ← to_bigint amount_minor; ok (money_of n currency)

unfoldable pub add_money : Money → Money → Result Money
add_money a b =
    if str_eq a.currency b.currency
    then ok (money_of (a.amount_minor +ℤ b.amount_minor) a.currency)
    else err "Currency mismatch"

unfoldable pub subtract_money : Money → Money → Result Money
subtract_money a b =
    if str_eq a.currency b.currency
    then ok (money_of (a.amount_minor -ℤ b.amount_minor) a.currency)
    else err "Currency mismatch"

-- `rate_bps`: 200 is 2%, 500 is 5%.
unfoldable pub round_percent_of : ℤ → ℕ → ℤ
round_percent_of amount_minor rate_bps = (amount_minor *ℤ pos rate_bps +ℤ pos 5000) /ℤ pos 10000

exponent_of_jpy : currency_exponent "JPY" ≡ 0
unfolding currency_exponent to_lower
exponent_of_jpy = refl

two_percent : round_percent_of (pos 1025) 200 ≡ pos 21
unfolding round_percent_of ◌+ℤ◌ ◌*ℤ◌ ◌/ℤ◌
two_percent = refl
