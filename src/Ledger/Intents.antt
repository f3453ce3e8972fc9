-- ===== src/Ledger/Intents.antt =====
-- packages/ledger/src/intents.ts: the transfers that a settlement, a refund or a dispute posts. This
-- file holds the types and what the three builders share.
pub mod Settlement
pub mod Refund
pub mod Dispute
pub mod Balances
pub mod SettlementLaws
pub mod RefundSplits
pub mod RefundLaws
pub mod RefundChecks
pub mod DisputeDrafts
pub mod DisputeSums
pub mod DisputeLaws
use Prim.Native.String
use oss_tips.Base.{
  ℕ, suc, ℤ, pos, ◌+◌, ◌-◌, negsuc, ◌+ℤ◌, ◌*ℤ◌, ◌/ℤ◌, ◌&&◌, false, ltb, ltb_ℤ, leb_ℤ, ◌||◌, not,
  Bool, Option, none, some, String, List, [], ◌∷◌, ◌++◌, length, Result, ok, err, ◌>>=◌, ◌>>◌,
  throw_if, if◌then◌else◌, Assoc, lookup, contains, insert, values, to_lower,
}
use oss_tips.Domain.Money.{Numeric, bigint, number, not_integer}
use oss_tips.Domain.Fees.{FeatureMode}
use oss_tips.Ledger.Codes.AccountCode
use oss_tips.Ledger.Ids.{account_id, transfer_id, join, decimal}

pub record LedgerTransfer : Type 0 where
  pub id : ℕ
  pub debit_account_id : ℕ
  pub credit_account_id : ℕ
  pub amount : ℤ
  pub ledger : ℕ
  pub code : ℕ
  pub linked : Bool

pub record LedgerAccountDefinition : Type 0 where
  pub id : ℕ
  pub ledger : ℕ
  pub code : ℕ

pub data CorrectionKind : Type 0 where
  refund dispute_opened dispute_won dispute_lost : CorrectionKind

pub record PostingMetadata : Type 0 where
  pub stripe_account_id : String
  pub stripe_event_id : String
  pub payment_id : String
  pub project_id : String
  pub feature_mode : FeatureMode
  pub project_amount_minor : ℤ
  pub platform_tip_minor : ℤ
  pub customer_charge_minor : ℤ
  pub project_share_minor : Option ℤ
  pub platform_fee_minor : Option ℤ
  pub refund_customer_charge_minor : Option ℤ
  pub correction_kind : Option CorrectionKind

pub record PostingIntent : Type 0 where
  pub posting_kind : String
  pub posting_version : ℕ
  pub semantic_key : String
  pub currency : String
  pub transfers : List LedgerTransfer
  pub account_definitions : Option (List LedgerAccountDefinition)
  pub metadata : PostingMetadata

-- `Number.isSafeInteger` of an integer.
abbrev pub max_safe_integer : ℤ
max_safe_integer = pos 9_007_199_254_740_991

abbrev pub is_safe : ℤ → Bool
is_safe n = leb_ℤ n max_safe_integer && leb_ℤ (negsuc 9_007_199_254_740_990) n

abbrev pub safe_or_bigint : Numeric → String → Result ℤ
safe_or_bigint (bigint n) label = ok n
safe_or_bigint (number n) label =
    if is_safe n then ok n else err (String.◌++◌ label " must be an integer")
safe_or_bigint not_integer label = err (String.◌++◌ label " must be an integer")

unfoldable pub as_minor : Numeric → String → Result ℤ
as_minor value label = do
  amount ← safe_or_bigint value label
  throw_if (ltb_ℤ amount (pos 0)) (String.◌++◌ label " must be non-negative")
  ok amount

-- `value ?? 1`, which has to be a safe integer above zero.
unfoldable pub version : Option Numeric → Result ℕ
version none = ok 1
version (some (number (pos n))) =
    if is_safe (pos n) && ltb 0 n then ok n else err "posting version must be a positive integer"
version (some (number (negsuc n))) = err "posting version must be a positive integer"
version (some (bigint n)) = err "posting version must be a positive integer"
version (some not_integer) = err "posting version must be a positive integer"

abbrev code_or_suspense : Option ℕ → ℕ
code_or_suspense none = AccountCode.unreconciled_suspense
code_or_suspense (some c) = c

-- One account of one transfer: a definition is added unless the account has one.
define_account :
    Assoc ℕ → LedgerTransfer → ℕ → Assoc LedgerAccountDefinition → Assoc LedgerAccountDefinition
define_account codes transfer id definitions =
    if contains id definitions
    then definitions
    else insert id
        (record { id = id; ledger = transfer.ledger; code = code_or_suspense (lookup id codes) })
        definitions

define_accounts :
    Assoc ℕ → List LedgerTransfer → Assoc LedgerAccountDefinition → Assoc LedgerAccountDefinition
define_accounts codes [] definitions = definitions
define_accounts codes (t ∷ ts) definitions = define_accounts codes ts (
    define_account codes t t.credit_account_id
      (define_account codes t t.debit_account_id definitions))

unfoldable pub account_definitions : List LedgerTransfer → Assoc ℕ → List LedgerAccountDefinition
unfolding define_accounts define_account
account_definitions transfers codes = values (define_accounts codes transfers [])

-- `linked: index < transfers.length - 1`, over the transfers from `index` on.
link_from : ℕ → ℕ → List LedgerTransfer → List LedgerTransfer
link_from count index [] = []
link_from count index (t ∷ ts) =
    record t { linked = ltb (index + 1) count } ∷ link_from count (index + 1) ts

unfoldable pub link_transfers : List LedgerTransfer → List LedgerTransfer
unfolding link_from
link_transfers transfers = link_from (length transfers) 0 transfers

-- What the closure `push` of each builder writes to.
pub record Draft : Type 0 where
  pub transfers : List LedgerTransfer
  pub index : ℕ

abbrev pub empty_draft : Draft
empty_draft = record { transfers = []; index = 0 }

-- The closure `push`, over the ids and the ledger of its builder.
unfoldable pub push : (ℕ → ℕ) → ℕ → ℕ → ℕ → ℕ → ℤ → Draft → Draft
push transfer_id_at ledger code debit credit amount d = if leb_ℤ amount (pos 0) then d else record {
  transfers =
      d.transfers
      ++ (record {
        id = transfer_id_at d.index;
        debit_account_id = debit;
        credit_account_id = credit;
        amount = amount;
        ledger = ledger;
        code = code;
        linked = false;
      }
          ∷ []);
  index = d.index + 1;
}

unfoldable pub semantic_key : String → String → String → ℕ → String
semantic_key stripe_account_id stripe_event_id posting_kind posting_version =
    join ":" (stripe_account_id ∷ stripe_event_id ∷ posting_kind ∷ decimal posting_version ∷ [])

pub record Accounts : Type 0 where
  pub clearing : ℕ
  pub transit : ℕ
  pub project_gross : ℕ
  pub platform_fee : ℕ
  pub platform_tip : ℕ

module _ (sha256 : String → List ℕ) where
  unfoldable pub scope_accounts : String → String → String → String → Accounts
  scope_accounts stripe_account_id payment_id project_id raw_currency =
      let currency = to_lower raw_currency in
      record {
        clearing =
            account_id sha256 AccountCode.stripe_external_clearing "stripe_account"
              stripe_account_id currency;
        transit = account_id sha256 AccountCode.payment_transit "payment" payment_id currency;
        project_gross =
            account_id sha256 AccountCode.project_gross_support "project" project_id currency;
        platform_fee =
            account_id sha256 AccountCode.platform_project_fee_revenue "platform" "oss.tips"
              currency;
        platform_tip =
            account_id sha256 AccountCode.platform_supporter_tip_revenue "platform" "oss.tips"
              currency;
      }

-- The part of `total` that `amount` is of `original_total`; the division has a positive divisor.
unfoldable pub proportional_part : ℤ → ℤ → ℤ → ℤ
proportional_part total original_total amount =
    if leb_ℤ total (pos 0) || leb_ℤ amount (pos 0)
    then pos 0
    else if leb_ℤ original_total amount
    then total
    else (total *ℤ amount +ℤ original_total /ℤ pos 2) /ℤ original_total
