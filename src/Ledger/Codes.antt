-- ===== src/Ledger/Codes.antt =====
-- packages/ledger/src/codes.ts: the registries of account and transfer codes, and of ledgers.
pub mod AccountCode
pub mod TransferCode
use Prim.Native.String
use oss_tips.Base.{ℕ, String, Result, ok, err, if◌then◌else◌, str_eq, to_lower}
use oss_tips.Domain.Money.{is_supported_currency}

-- `LEDGER_BY_CURRENCY` at a supported currency.
abbrev pub ledger_by_currency : String → ℕ
ledger_by_currency c =
    if str_eq c "gbp"
    then 826
    else if str_eq c "usd"
    then 840
    else if str_eq c "eur"
    then 978
    else 392

unfoldable pub ledger_for_currency : String → Result ℕ
ledger_for_currency currency =
    let normalized = to_lower currency in
    if is_supported_currency normalized
    then ok (ledger_by_currency normalized)
    else err (String.◌++◌ "Unsupported currency for ledger: " currency)
