-- ===== src/Ledger/Tests.antt =====
-- Witnesses of the ledger's theorems, at concrete payments and with a concrete digest.
use oss_tips.Base.{
  zero, suc, ℕ, ◌+◌, ◌*◌, ◌/◌, ◌%◌, ◌^◌, ◌==◌, ◌≡◌, ◌≢◌, ◌<◌, refl, pos, String, List, [], ◌∷◌,
  none, some, Result, ok, err, arith, text_codes, to_lower, false,
}
use oss_tips.Domain.Money.{bigint, is_supported_currency, to_bigint}
use oss_tips.Domain.Fees.{proportional_platform_refund, standard}
use oss_tips.Base.{◌+ℤ◌, ◌-ℤ◌, ◌≤ℤ◌, ◌/ℤ◌, ◌*ℤ◌}
use oss_tips.Ledger.Intents.Balances.{net, transit_balance, transit_balance-net}
use oss_tips.Ledger.Intents.Refund.{
  split_amount, OneOffRefundInput, RefundAmounts, refund_amounts, refund_accounts,
  build_one_off_refund_intent,
}
use oss_tips.Ledger.Intents.RefundLaws.{refund_returns, AreDistinct as RefundDistinct, Returned}
use oss_tips.Ledger.Intents.Dispute.{
  dispute_draft, DisputeIntentInput, DisputeOutcome, opened, won, lost, dispute_amounts,
  dispute_accounts, build_dispute_intent,
}
use oss_tips.Ledger.Intents.DisputeLaws.{dispute_won_reverses, dispute_lost_settles, reported}
use oss_tips.Ledger.Intents.DisputeSums.{IsApart}
use oss_tips.Ledger.Mock.{
  create_accounts, create_transfers, admit, check_transfers, check_accounts, check_ledgers,
  new_transfers, find_transfer, post_all, empty_client, get_account_balance, post,
}
use oss_tips.Base.{length}
use oss_tips.Ledger.Replay.{replay_intents}
use oss_tips.Ledger.Replay.Recovered.{replay_is_booked}
use oss_tips.Ledger.Mock.{MockLedgerClient}
use oss_tips.Ledger.Mock.Repeats.{create_transfers_again}
use oss_tips.Ledger.Mock.Books.{
  Call, call, create_accounts_call, create_transfers_call, run, posted, balances_are_booked,
}
use oss_tips.Ledger.Intents.{
  push, proportional_part, LedgerTransfer, as_minor, PostingIntent, version, scope_accounts,
}
use oss_tips.Ledger.Ids.{account_id, derive_ledger_id, decimal, derive_ledger_id_range, max_u128}
use oss_tips.Ledger.Codes.{ledger_for_currency}
use oss_tips.Domain.Fees.{FeeAllocation, compute_fee_allocation}
use oss_tips.Ledger.Intents.Settlement.{
  OneOffSettlementInput, fee_input, build_one_off_settlement_intent, settlement_accounts,
}
use oss_tips.Ledger.Intents.SettlementLaws.{
  settlement_posts, settlement_succeeds, AreDistinct as SettlementDistinct, Posted,
}

apart : (a b : ℕ) → (a == b) ≡ false → a ≢ b
apart a b e same = ground arith

bytes_of : ℕ → ℕ → List ℕ → List ℕ
bytes_of zero n rest = rest
bytes_of (suc k) n rest = bytes_of k (n / 256) ((n % 256) ∷ rest)

mix : List ℕ → ℕ → ℕ
mix [] acc = acc
mix (c ∷ cs) acc = mix cs ((acc * 1_000_003 + c) % 2 ^ 128)

-- A digest of sixteen bytes that takes different values on different short texts.
digest : String → List ℕ
unfolding bytes_of mix
digest s = bytes_of 16 (mix (text_codes s) 7) []

abbrev tip_input : OneOffSettlementInput
tip_input = record {
  stripe_account_id = "acct_1";
  stripe_event_id = "evt_1";
  payment_id = "pay_1";
  project_id = "proj_1";
  currency = "GBP";
  project_amount_minor = bigint (pos 1025);
  platform_tip_minor = bigint (pos 100);
  feature_mode = standard;
  posting_version = none;
}

abbrev settled : (i : PostingIntent) × (build_one_off_settlement_intent digest tip_input ≡ ok i)
unfolding version ledger_for_currency to_lower is_supported_currency
settled = settlement_succeeds digest tip_input 1 826 1025 100 refl refl refl refl (omega arith)

accounts_apart : SettlementDistinct (settlement_accounts digest tip_input)
unfolding settlement_accounts scope_accounts account_id derive_ledger_id decimal to_lower digest
accounts_apart = record {
  clearing_transit = apart _ _ refl;
  clearing_gross = apart _ _ refl;
  clearing_fee = apart _ _ refl;
  clearing_tip = apart _ _ refl;
  transit_gross = apart _ _ refl;
  transit_fee = apart _ _ refl;
  transit_tip = apart _ _ refl;
  gross_fee = apart _ _ refl;
  gross_tip = apart _ _ refl;
  fee_tip = apart _ _ refl;
}

settlement_posts_example :
    (a : FeeAllocation) × (share : ℕ) × (fee : ℕ) × (tip : ℕ) × (compute_fee_allocation
        (fee_input tip_input)
      ≡ ok a)
    × (a.project_before_stripe.amount_minor ≡ pos share)
    × (a.oss_project_fee.amount_minor ≡ pos fee)
    × (a.platform_tip.amount_minor ≡ pos tip)
    × (to_bigint (bigint (pos 1025)) ≡ ok (pos (share + fee)))
    × (to_bigint (bigint (pos 100)) ≡ ok (pos tip))
    × Posted settled.0.transfers (settlement_accounts digest tip_input) share fee tip
settlement_posts_example = settlement_posts digest tip_input settled.0 settled.1 accounts_apart

settlement_succeeds_example :
    (i : PostingIntent) × (build_one_off_settlement_intent digest tip_input ≡ ok i)
unfolding version ledger_for_currency to_lower is_supported_currency
settlement_succeeds_example =
    settlement_succeeds digest tip_input 1 826 1025 100 refl refl refl refl (omega arith)

abbrev refund_input : OneOffRefundInput
refund_input = record {
  stripe_account_id = "acct_1";
  stripe_event_id = "evt_2";
  payment_id = "pay_1";
  project_id = "proj_1";
  currency = "gbp";
  refund_customer_charge_minor = bigint (pos 500);
  original_customer_charge_minor = bigint (pos 1125);
  original_project_share_minor = bigint (pos 1004);
  original_platform_fee_minor = bigint (pos 21);
  original_platform_tip_minor = bigint (pos 100);
  original_project_amount_minor = none;
  feature_mode = none;
  posting_version = none;
}

abbrev amounts_refunded : RefundAmounts
amounts_refunded = record {
  original_charge = pos 1125;
  refund_amount = pos 500;
  original_project_share = pos 1004;
  original_platform_fee = pos 21;
  original_platform_tip = pos 100;
  original_project_amount = pos 1025;
}

refund_accounts_apart : RefundDistinct (refund_accounts digest refund_input)
unfolding refund_accounts account_id derive_ledger_id decimal to_lower digest
refund_accounts_apart = record {
  clearing_gross = apart _ _ refl;
  clearing_fee = apart _ _ refl;
  clearing_tip = apart _ _ refl;
  gross_fee = apart _ _ refl;
  gross_tip = apart _ _ refl;
  fee_tip = apart _ _ refl;
}

refund_returns_example :
    (i : PostingIntent) × (build_one_off_refund_intent digest refund_input ≡ ok i)
    × ((project : ℕ) × (fee : ℕ) × (tip : ℕ) × (pos 500 ≡ pos (project + fee + tip))
        × (pos (fee + tip) ≤ℤ pos 21 +ℤ pos 100)
        × (pos 500 ≡ pos 1125 → (pos 1004 ≡ pos project) × (pos 21 ≡ pos fee) × (pos 100 ≡ pos tip))
        × Returned i.transfers (refund_accounts digest refund_input) project fee tip)
unfolding version ledger_for_currency to_lower is_supported_currency refund_amounts as_minor ◌+ℤ◌
    ◌-ℤ◌
refund_returns_example =
    refund_returns digest refund_input 1 826 amounts_refunded refl refl refl refund_accounts_apart

abbrev dispute_input : DisputeIntentInput
dispute_input = record {
  stripe_account_id = "acct_1";
  stripe_event_id = "evt_3";
  payment_id = "pay_1";
  project_id = "proj_1";
  currency = "gbp";
  amount_minor = bigint (pos 1125);
  outcome = opened;
  original_customer_charge_minor = some (bigint (pos 1125));
  original_project_share_minor = some (bigint (pos 1004));
  original_platform_fee_minor = some (bigint (pos 21));
  original_platform_tip_minor = some (bigint (pos 100));
  posting_version = none;
}

abbrev intent_or : PostingIntent → Result PostingIntent → PostingIntent
intent_or i (ok j) = j
intent_or i (err e) = i

abbrev posted_for : String → DisputeOutcome → PostingIntent
posted_for event outcome =
    intent_or settled.0 (build_dispute_intent digest (reported digest dispute_input event outcome))

dispute_won_reverses_example :
    let gross = (dispute_accounts digest dispute_input).project_gross in
    net gross (posted_for "evt_3" opened).transfers +ℤ net gross (posted_for "evt_4" won).transfers
    ≡ pos 0
unfolding build_dispute_intent version ledger_for_currency to_lower is_supported_currency
    dispute_amounts as_minor ◌+ℤ◌ ◌-ℤ◌ split_amount proportional_platform_refund proportional_part
    ◌/ℤ◌ ◌*ℤ◌ dispute_draft push
dispute_won_reverses_example =
    dispute_won_reverses digest dispute_input "evt_3" "evt_4" (posted_for "evt_3" opened)
      (posted_for "evt_4" won) refl refl (dispute_accounts digest dispute_input).project_gross

dispute_accounts-IsApart : IsApart (dispute_accounts digest dispute_input)
unfolding dispute_accounts account_id derive_ledger_id decimal to_lower digest
dispute_accounts-IsApart = record {
  suspense_gross = apart _ _ refl;
  suspense_fee = apart _ _ refl;
  suspense_tip = apart _ _ refl;
  suspense_loss = apart _ _ refl;
}

dispute_lost_settles_example :
    let accounts = dispute_accounts digest dispute_input in
    (amount : ℕ) × (as_minor (bigint (pos 1125)) "dispute amount" ≡ ok (pos amount))
    × (net accounts.suspense (posted_for "evt_3" opened).transfers ≡ pos amount)
    × (net accounts.suspense (posted_for "evt_4" lost).transfers ≡ pos 0 -ℤ pos amount)
    × (net accounts.project_loss (posted_for "evt_4" lost).transfers ≡ pos amount)
unfolding build_dispute_intent version ledger_for_currency to_lower is_supported_currency
    dispute_amounts as_minor ◌+ℤ◌ ◌-ℤ◌ split_amount proportional_platform_refund proportional_part
    ◌/ℤ◌ ◌*ℤ◌ dispute_draft push
dispute_lost_settles_example =
    dispute_lost_settles digest dispute_input "evt_3" "evt_4" (posted_for "evt_3" opened)
      (posted_for "evt_4" lost) refl refl dispute_accounts-IsApart

derive_ledger_id_range_example :
    (0 < derive_ledger_id (λ s. []) "oss.tips/v1/account" ("1000" ∷ []))
    × (derive_ledger_id (λ s. []) "oss.tips/v1/account" ("1000" ∷ []) < max_u128)
derive_ledger_id_range_example =
    derive_ledger_id_range (λ s. []) "oss.tips/v1/account" ("1000" ∷ []) (λ s. tt)

abbrev one_transfer : LedgerTransfer
one_transfer = record {
  id = 7;
  debit_account_id = 1;
  credit_account_id = 2;
  amount = pos 50;
  ledger = 826;
  code = 1010;
  linked = false;
}

abbrev calls : List Call
calls =
    create_accounts_call (
      record { id = 1; ledger = 826; code = 1000 }
      ∷ record { id = 2; ledger = 826; code = 1010 }
      ∷ [])
    ∷ create_transfers_call 10 (one_transfer ∷ [])
    ∷ create_transfers_call 11 (one_transfer ∷ [])
    ∷ create_transfers_call 12 (record one_transfer { amount = pos 60 } ∷ [])
    ∷ []

balances_are_booked_example :
    get_account_balance 2 (run calls empty_client) ≡ net 2 (posted (run calls empty_client))
balances_are_booked_example = balances_are_booked calls 2

balance_of_two : get_account_balance 2 (run calls empty_client) ≡ pos 50
unfolding run call create_accounts create_transfers admit check_transfers check_accounts
    check_ledgers new_transfers find_transfer post post_all get_account_balance ◌+ℤ◌ ◌-ℤ◌
balance_of_two = refl

transit_balance-net_example :
    transit_balance (one_transfer ∷ one_transfer ∷ []) 1 ≡ net 1 (one_transfer ∷ one_transfer ∷ [])
transit_balance-net_example = transit_balance-net (one_transfer ∷ one_transfer ∷ []) 1

replay_is_booked_example :
    let (after, summary) = replay_intents digest 5 (settled.0 ∷ []) empty_client in
    (summary.total ≡ length (settled.0 ∷ []))
    × (summary.succeeded + summary.failed ≡ length (settled.0 ∷ []))
    × ((id : ℕ) → get_account_balance id after ≡ net id (posted after))
unfolding run
replay_is_booked_example =
    replay_is_booked digest 5 (settled.0 ∷ []) empty_client (balances_are_booked [])

abbrev opened_client : MockLedgerClient
opened_client =
    (create_accounts
      (record { id = 1; ledger = 826; code = 1000 }
        ∷ record { id = 2; ledger = 826; code = 1010 }
        ∷ [])
      empty_client).0

create_transfers_again_example :
    let after = (create_transfers 10 (one_transfer ∷ []) opened_client).0 in
    create_transfers 11 (one_transfer ∷ []) after ≡ (after, ok (7 ∷ []))
unfolding create_accounts create_transfers admit check_transfers check_accounts check_ledgers
    new_transfers find_transfer
create_transfers_again_example =
    create_transfers_again 10 11 (one_transfer ∷ []) opened_client (7 ∷ []) refl
