-- ===== src/Ledger/Replay.antt =====
-- packages/ledger/src/replay.ts: the recovery of a ledger from the posting intents, over the client in
-- memory. An id that is a decimal text there is the number here.
pub mod Recovered
use oss_tips.Base.{
  ℕ, ◌+◌, ◌-◌, ◌==◌, Bool, true, false, Option, none, some, String, List, [], ◌∷◌, ◌++◌, Result, ok,
  err, if◌then◌else◌, Assoc, contains, insert, values, length, keep,
}
use oss_tips.Ledger.Codes.AccountCode
use oss_tips.Ledger.Ids.{account_id}
use oss_tips.Ledger.Intents.{LedgerTransfer, LedgerAccountDefinition, PostingIntent}
use oss_tips.Ledger.Mock.{MockLedgerClient, create_accounts, create_transfers}

pub record ReplayResult : Type 0 where
  pub intent_key : String
  pub succeeds : Bool
  pub transfer_ids : List ℕ
  pub error : Option String

pub record ReplaySummary : Type 0 where
  pub total : ℕ
  pub succeeded : ℕ
  pub failed : ℕ
  pub results : List ReplayResult

abbrev or_empty : Option (List LedgerAccountDefinition) → List LedgerAccountDefinition
or_empty none = []
or_empty (some l) = l

-- The first inner loop: a later definition takes the place of an earlier one.
set_definitions :
    List LedgerAccountDefinition → Assoc LedgerAccountDefinition → Assoc LedgerAccountDefinition
set_definitions [] definitions = definitions
set_definitions (d ∷ ds) definitions = set_definitions ds (insert d.id d definitions)

abbrev set_missing : ℕ → ℕ → ℕ → Assoc LedgerAccountDefinition → Assoc LedgerAccountDefinition
set_missing id ledger code definitions =
    if contains id definitions
    then definitions
    else insert id (record { id = id; ledger = ledger; code = code }) definitions

-- What a call gives, an error that is thrown or reported alike.
abbrev pub result_of : String → Result (List ℕ) → ReplayResult
result_of key (ok ids) = record {
  intent_key = key;
  succeeds = true;
  transfer_ids = ids;
  error = none;
}
result_of key (err e) = record {
  intent_key = key;
  succeeds = false;
  transfer_ids = [];
  error = some e;
}

-- The posting of the transfers, unless the creation of the accounts threw.
abbrev pub then_post :
    ℕ → PostingIntent → MockLedgerClient × Result (Unit {0}) → MockLedgerClient × Result (List ℕ)
then_post now intent (client, ok _) = create_transfers now intent.transfers client
then_post now intent (client, err e) = (client, err e)

module _ (sha256 : String → List ℕ) where
  unfoldable pub infer_code : PostingIntent → ℕ → ℕ
  infer_code intent id =
      let matches : ℕ → String → String → Bool = λ code scope_kind scope_id.
        account_id sha256 code scope_kind scope_id intent.currency == id in
      if matches AccountCode.stripe_external_clearing "stripe_account"
        intent.metadata.stripe_account_id
      then AccountCode.stripe_external_clearing
      else if matches AccountCode.payment_transit "payment" intent.metadata.payment_id
      then AccountCode.payment_transit
      else if matches AccountCode.project_gross_support "project" intent.metadata.project_id
      then AccountCode.project_gross_support
      else if matches AccountCode.platform_project_fee_revenue "platform" "oss.tips"
      then AccountCode.platform_project_fee_revenue
      else if matches AccountCode.platform_supporter_tip_revenue "platform" "oss.tips"
      then AccountCode.platform_supporter_tip_revenue
      else AccountCode.unreconciled_suspense

  -- The second inner loop.
  infer_definitions :
      PostingIntent
      → List LedgerTransfer
      → Assoc LedgerAccountDefinition
      → Assoc LedgerAccountDefinition
  infer_definitions intent [] definitions = definitions
  infer_definitions intent (t ∷ ts) definitions = infer_definitions intent ts (
      set_missing t.credit_account_id t.ledger (infer_code intent t.credit_account_id) (
        set_missing t.debit_account_id t.ledger (infer_code intent t.debit_account_id) definitions))

  unfoldable pub account_defs : PostingIntent → List LedgerAccountDefinition
  unfolding set_definitions infer_definitions
  account_defs intent = values (
      infer_definitions intent intent.transfers
        (set_definitions (or_empty intent.account_definitions) []))

  -- The body of the loop: the client it leaves, and the result that it adds.
  unfoldable pub replay_intent :
      ℕ → PostingIntent → MockLedgerClient → MockLedgerClient × Result (List ℕ)
  replay_intent now intent client =
      then_post now intent (create_accounts (account_defs intent) client)

  unfoldable pub replay_loop :
      ℕ → List PostingIntent → MockLedgerClient → MockLedgerClient × List ReplayResult
  replay_loop now [] client = (client, [])
  replay_loop now (intent ∷ intents) client =
      let (after, outcome) = replay_intent now intent client in
      let (last, results) = replay_loop now intents after in
      (last, result_of intent.semantic_key outcome ∷ results)

  unfoldable pub replay_intents :
      ℕ → List PostingIntent → MockLedgerClient → MockLedgerClient × ReplaySummary
  replay_intents now intents client =
      let (last, results) = replay_loop now intents client in
      let succeeded = length (keep (λ r. r.succeeds) results) in
      (
        last,
        record {
          total = length results;
          succeeded = succeeded;
          failed = length results - succeeded;
          results = results;
        },
      )
