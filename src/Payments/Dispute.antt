-- ===== src/Payments/Dispute.antt =====
-- packages/payments/src/dispute.ts: which movement of the ledger a notice about a dispute asks for.
use oss_tips.Base.{
  ℕ, ℤ, String, str_eq, Bool, false, not, ◌||◌, Option, none, some, List, [], ◌∷◌, any, Result, ok,
  ◌>>=◌, ◌>>◌, throw_if, if◌then◌else◌,
}
use oss_tips.Domain.Money.{Numeric}
use oss_tips.Payments.Validation.{validate_identifier, normalize_currency, minor_units}

-- `DisputeCorrectionAction`
pub data DisputeAction : Type 0 where
  act_opened act_won act_lost act_none : DisputeAction

-- What `normalizeStatus` gives.
pub data DisputeStatus : Type 0 where
  open_state won_state lost_state other_state : DisputeStatus

-- `DISPUTE_TRANSFER_CODE`
abbrev pub dispute_transfer_code : DisputeAction → Option ℕ
dispute_transfer_code act_opened = some 1120
dispute_transfer_code act_won = some 1130
dispute_transfer_code act_lost = some 1140
dispute_transfer_code act_none = none

abbrev open_statuses : List String
open_statuses = "warning_needs_response" ∷ "needs_response" ∷ "under_review" ∷ []

unfoldable pub normalize_status : String → DisputeStatus
normalize_status status =
    if str_eq status "won"
    then won_state
    else if str_eq status "lost"
    then lost_state
    else if any (λ s. str_eq status s) open_statuses
    then open_state
    else other_state

-- The action of a status, after the previous one.
abbrev pub action_after : Option DisputeStatus → DisputeStatus → DisputeAction
action_after (some won_state) current = act_none
action_after (some lost_state) current = act_none
action_after previous won_state = act_won
action_after previous lost_state = act_lost
action_after none open_state = act_opened
action_after (some other_state) open_state = act_opened
action_after (some open_state) open_state = act_none
action_after previous other_state = act_none

abbrev pub previous_state : Option String → Option DisputeStatus
previous_state none = none
previous_state (some status) = if str_eq status "" then none else some (normalize_status status)

pub record DisputeCorrection : Type 0 where
  pub action : DisputeAction
  pub transfer_code : Option ℕ
  pub stripe_dispute_id : String
  pub amount_minor : ℤ
  pub currency : String

abbrev pub is_dispute_event : String → Bool
is_dispute_event type =
    str_eq type "charge.dispute.created"
    || str_eq type "charge.dispute.updated"
    || str_eq type "charge.dispute.closed"

-- `computeDisputeCorrection`; the amount is not yet printed.
unfoldable pub compute_dispute_correction :
    (event_type status stripe_dispute_id : String)
    → Numeric
    → (currency : String) → (previous_status : Option String) → Result DisputeCorrection
compute_dispute_correction event_type status id amount currency previous = do
  throw_if (not (is_dispute_event event_type)) "Unsupported dispute event type"
  valid ← validate_identifier id "Dispute id" "dp_"
  code ← normalize_currency currency
  n ← minor_units amount "Dispute amount" false
  ok (record {
    action = action_after (previous_state previous) (normalize_status status);
    transfer_code =
        dispute_transfer_code (action_after (previous_state previous) (normalize_status status));
    stripe_dispute_id = id;
    amount_minor = n;
    currency = code;
  })
