-- ===== src/Finance/Tests.antt =====
-- A dispute that is opened, reported again out of order, and lost.
use oss_tips.Base.{
  ℕ, pos, String, true, false, Option, none, some, List, [], ◌∷◌, Memᴰ, ◌≡◌, refl, sym, ◌∙◌, inl,
  arith, to_lower,
}
use oss_tips.Ledger.Intents.Dispute.{opened, won, lost}
use oss_tips.Payments.Dispute.{normalize_status, compute_dispute_correction}
use oss_tips.Domain.Money.{is_supported_currency}
use oss_tips.Payments.Validation.{validate_identifier, normalize_currency, minor_units}
use oss_tips.Payments.WebhookEvents.{is_stripe_event_newer}
use oss_tips.Db.Rows.{IsKeyed}
use oss_tips.Db.StripeEvents.{StripeEvent, is_null, claim_call}
use oss_tips.Db.StripeEvents.Leases.{IsLeased}
use oss_tips.Finance.Events.{EventMoment, event_beat, event_elsewhere, process_claimed_stripe_event}
use oss_tips.Finance.Events.Settlement.{claimed_event_settles}
use oss_tips.Finance.Disputes.{
  Notice, Books, Run, dispute_state, save_dispute_cursor, process_dispute,
}
use oss_tips.Finance.Disputes.Phases.{unseen, is_lost, IsAt}
use oss_tips.Finance.Disputes.Steps.{EndsAt}
use oss_tips.Finance.Disputes.Refines.{process_dispute_refines}
use oss_tips.Finance.Disputes.Retries.{attempts, retries_reach}
use oss_tips.Finance.Disputes.Covered.{IsCovered}
use oss_tips.Finance.Disputes.Histories.{process_all, process_all-IsCovered}

abbrev notice : String → ℕ → String → Notice
notice id at status = record {
  event_type = "charge.dispute.updated";
  stripe_event_id = id;
  created = at;
  payment_id = "pay_1";
  stripe_dispute_id = "dp_1";
  status = status;
  amount_minor = pos 500;
  currency = "gbp";
}

abbrev all_well : Run
all_well = record { accepts = λ o. true; persists = λ o. true; saves = true; reconciles = true }

-- A run that stops when the ledger has taken the outcome.
abbrev unsaved : Run
unsaved = record all_well { saves = false }

abbrev unreconciled : Run
unreconciled = record all_well { reconciles = false }

abbrev unknown : Books
unknown = record { row = none; postings = [] }

process_dispute_refines_example :
    EndsAt
      (notice "evt_2" 20 "lost")
      none
      unseen
      is_lost
      (process_dispute unsaved (notice "evt_2" 20 "lost") unknown)
unfolding dispute_state
process_dispute_refines_example =
    process_dispute_refines unsaved (notice "evt_2" 20 "lost") unseen unknown (refl, inl (inl refl))

-- Two runs for one notice fail, one before the row is saved and one after; the third returns.
retries_reach_example :
    IsAt is_lost
      (process_dispute all_well
        (notice "evt_2" 20 "lost")
        (attempts (unsaved ∷ unreconciled ∷ []) (notice "evt_2" 20 "lost") unknown)).0
unfolding attempts process_dispute dispute_state compute_dispute_correction normalize_status
    save_dispute_cursor validate_identifier normalize_currency is_supported_currency to_lower
    minor_units is_stripe_event_newer
retries_reach_example =
    retries_reach (unsaved ∷ unreconciled ∷ []) all_well (notice "evt_2" 20 "lost") unseen unknown
      (refl, inl refl) refl

abbrev story : List (Run × Notice)
story =
    (all_well, notice "evt_1" 10 "needs_response")
    ∷ (all_well, notice "evt_3" 30 "lost")
    ∷ (all_well, notice "evt_2" 20 "under_review")
    ∷ (all_well, notice "evt_4" 40 "won")
    ∷ []

story_postings : (process_all story unknown).postings ≡ opened ∷ lost ∷ []
unfolding process_all process_dispute dispute_state compute_dispute_correction normalize_status
    save_dispute_cursor validate_identifier normalize_currency is_supported_currency to_lower
    minor_units is_stripe_event_newer
story_postings = refl

-- A dispute is won in the ledger only, as the row is not saved, and then reported as lost.
abbrev contrary : List (Run × Notice)
contrary = (unsaved, notice "evt_1" 10 "won") ∷ (all_well, notice "evt_2" 20 "lost") ∷ []

process_all-IsCovered_example : IsCovered (process_all contrary unknown)
process_all-IsCovered_example = process_all-IsCovered contrary

contrary_postings : (process_all contrary unknown).postings ≡ opened ∷ won ∷ lost ∷ []
unfolding process_all process_dispute dispute_state compute_dispute_correction normalize_status
    save_dispute_cursor validate_identifier normalize_currency is_supported_currency to_lower
    minor_units is_stripe_event_newer
contrary_postings = refl

abbrev received : StripeEvent
received = record {
  id = "e1";
  stripe_event_id = "evt_1";
  stripe_account_id = none;
  event_type = "charge.dispute.created";
  api_version = none;
  payload = "{}";
  processed_at = none;
  process_error = none;
  processing_at = some 20;
  processing_by = some "w1";
  processing_attempts = 1;
  received_at = 10;
}

received-IsLeased : IsLeased "w1" 20 received
received-IsLeased = record { unprocessed = refl; since = refl; by_worker = refl }

one-IsKeyed : IsKeyed (λ r. r.id) (received ∷ [])
one-IsKeyed a b (Memᴰ.head p) (Memᴰ.head q) e = p ∙ sym q
one-IsKeyed a b (Memᴰ.tail m) n e = elim m [ ]
one-IsKeyed a b (Memᴰ.head p) (Memᴰ.tail n) e = elim n [ ]

-- Another worker looks for events while the heartbeat goes on.
abbrev polled : List EventMoment
polled = event_beat 150_020 ∷ event_elsewhere (claim_call (λ id. false) 10 "w2" 400_000) ∷ []

abbrev fails : StripeEvent → Option String
fails e = some "ledger is down"

claimed_event_settles_example :
    (l : StripeEvent) × Memᴰ l
      (process_claimed_stripe_event fails received "w1" polled 400_010 (received ∷ []))
    × (l.id ≡ "e1")
    × (l.processing_by ≡ none)
    × (is_null l.processed_at ≡ true)
    × (l.process_error ≡ some "ledger is down")
    × (l.processing_attempts ≡ 1)
claimed_event_settles_example =
    claimed_event_settles fails "w1" 20 400_010 polled (received ∷ []) received one-IsKeyed
      received-IsLeased (omega arith, tt) (Memᴰ.head refl)
