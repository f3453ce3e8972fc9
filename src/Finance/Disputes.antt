-- ===== src/Finance/Disputes.antt =====
-- apps/finance-worker/src/index.ts: how a notice about one dispute moves the ledger and the row of
-- `payment_dispute` that keeps its place. The metadata of the notice is given as it was extracted; the
-- ledger takes an outcome as one when it is posted again (Ledger/Replay). Which of its calls throw is
-- given for each run of the handler. What the entitlement is reconciled to, mails and logs are left
-- out.
pub mod Phases
pub mod Moves
pub mod Handled
pub mod Steps
pub mod Refines
pub mod Retries
pub mod Covered
pub mod Histories
use Prim.Native.String
use oss_tips.Base.{
  ℕ, ℤ, eqb_ℤ, String, str_eq, Bool, true, false, not, ◌&&◌, ◌||◌, Option, none, some, List, [],
  ◌∷◌, ◌++◌, any, Result, ok, err, if◌then◌else◌,
}
use oss_tips.Domain.Money.{bigint}
use oss_tips.Ledger.Intents.Dispute.{DisputeOutcome, opened, won, lost}
use oss_tips.Payments.Dispute.{
  DisputeAction, act_opened, act_won, act_lost, act_none, DisputeStatus, open_state, won_state,
  lost_state, other_state, DisputeCorrection, compute_dispute_correction,
}
use oss_tips.Payments.WebhookEvents.{StripeEventOrder, is_stripe_event_newer}

-- What is extracted of an event about a dispute; `status` is Stripe's.
pub record Notice : Type 0 where
  pub event_type : String
  pub stripe_event_id : String
  pub created : ℕ
  pub payment_id : String
  pub stripe_dispute_id : String
  pub status : String
  pub amount_minor : ℤ
  pub currency : String

-- The row of a dispute; `status` is `open`, `won` or `lost`.
pub record DisputeRow : Type 0 where
  pub payment_id : String
  pub stripe_dispute_id : String
  pub status : String
  pub amount_minor : ℤ
  pub currency : String
  pub last_event_created : ℕ
  pub last_event_id : String

-- The row of the dispute, if there is one, and what the ledger has taken for it, in order.
pub record Books : Type 0 where
  pub row : Option DisputeRow
  pub postings : List DisputeOutcome

-- `disputeState`
unfoldable pub dispute_state : String → DisputeStatus
dispute_state status =
    if str_eq status "won"
    then won_state
    else if str_eq status "lost"
    then lost_state
    else if str_eq status "needs_response"
        || str_eq status "warning_needs_response"
        || str_eq status "under_review"
    then open_state
    else other_state

abbrev pub status_text : DisputeStatus → String
status_text open_state = "open"
status_text won_state = "won"
status_text lost_state = "lost"
status_text other_state = "other"

abbrev pub is_posted : DisputeOutcome → DisputeOutcome → Bool
is_posted opened opened = true
is_posted won won = true
is_posted lost lost = true
is_posted _ _ = false

abbrev pub once : DisputeOutcome → List DisputeOutcome → List DisputeOutcome
once o os = if any (is_posted o) os then os else os ++ o ∷ []

-- What fails in one run of the handler: the ledger may refuse an outcome; the call that stores a
-- posting which the ledger took may throw; the transaction that saves the row and queues the mail may
-- be rolled back; and the call that reconciles the entitlement, which comes last, may throw. A run that
-- is stopped between two of these calls does to the books what one does whose next call throws.
pub record Run : Type 0 where
  pub accepts : DisputeOutcome → Bool
  pub persists : DisputeOutcome → Bool
  pub saves : Bool
  pub reconciles : Bool

-- A step of the handler, which may throw.
abbrev pub Step : Type 0
Step = Books → Books × Result (Unit {0})

abbrev pub pass : Step
pass b = (b, ok tt)

-- `postDisputeTransition`, then `persistDisputePosting` of what it returns.
abbrev pub post : Run → DisputeOutcome → Step
post run o b =
    if run.accepts o
    then if run.persists o
      then (record b { postings = once o b.postings }, ok tt)
      else (record b { postings = once o b.postings }, err "ledger posting is not stored")
    else (b, err "dispute ledger posting failed")

-- `reconcileOneOffEntitlement`
abbrev pub reconcile : Run → Step
reconcile run b = if run.reconciles then (b, ok tt) else (b, err "entitlement is not reconciled")

infixl 5 ◌⟫◌
abbrev pub ◌⟫◌ : Books × Result (Unit {0}) → Step → Books × Result (Unit {0})
(b, err e) ⟫ next = (b, err e)
(b, ok done) ⟫ next = next b

abbrev pub incoming : Notice → StripeEventOrder
incoming n = record { id = n.stripe_event_id; created_at = some n.created }

abbrev pub cursor : DisputeRow → StripeEventOrder
cursor r = record { id = r.last_event_id; created_at = some r.last_event_created }

-- A dispute that was won or lost is not opened again.
abbrev pub next_status : String → DisputeStatus → String
next_status old status = if str_eq old "won" || str_eq old "lost" then old else status_text status

abbrev pub fresh_row : Notice → DisputeStatus → DisputeRow
fresh_row n status = record {
  payment_id = n.payment_id;
  stripe_dispute_id = n.stripe_dispute_id;
  status = status_text status;
  amount_minor = n.amount_minor;
  currency = n.currency;
  last_event_created = n.created;
  last_event_id = n.stripe_event_id;
}

abbrev pub moved_row : Notice → DisputeStatus → DisputeRow → DisputeRow
moved_row n status r = record r {
  status = next_status r.status status;
  amount_minor = n.amount_minor;
  currency = n.currency;
  last_event_created = n.created;
  last_event_id = n.stripe_event_id;
}

abbrev save_over : Notice → DisputeStatus → Option DisputeRow → Step
save_over n status none b = (record b { row = some (fresh_row n status) }, ok tt)
save_over n status (some r) b =
    if not (str_eq r.payment_id n.payment_id)
    then (b, err "Stripe dispute belongs to another payment")
    else if not (is_stripe_event_newer (incoming n) (some (cursor r)))
    then (b, ok tt)
    else (record b { row = some (moved_row n status r) }, ok tt)

-- `saveDisputeCursor`
unfoldable pub save_dispute_cursor : Notice → DisputeStatus → Step
save_dispute_cursor n status b = save_over n status b.row b

-- `saveDisputeCursorAndNotify`
abbrev pub save_dispute_cursor_and_notify : Run → Notice → DisputeStatus → Step
save_dispute_cursor_and_notify run n status b =
    if run.saves
    then save_dispute_cursor n status b
    else (b, err "dispute transaction is rolled back")

-- The status that the correction is told of: an `open` row is read as `other`, so as none.
abbrev pub known_status : DisputeStatus → Option String
known_status other_state = none
known_status status = some (status_text status)

abbrev pub previous_status : Option DisputeRow → Option String
previous_status none = none
previous_status (some r) = known_status (dispute_state r.status)

-- A dispute whose first notice is not that it was opened is opened first.
abbrev pub open_first : Run → Option DisputeRow → DisputeAction → Step
open_first run none act_won b = post run opened b
open_first run none act_lost b = post run opened b
open_first run none act_none b = post run opened b
open_first run _ _ b = pass b

abbrev pub post_action : Run → DisputeAction → Step
post_action run act_opened b = post run opened b
post_action run act_won b = post run won b
post_action run act_lost b = post run lost b
post_action run act_none b = pass b

abbrev pub post_and_save : Run → Notice → DisputeAction → DisputeStatus → Step
post_and_save run n action status b =
    open_first run b.row action b
    ⟫ post_action run action
    ⟫ save_dispute_cursor_and_notify run n status
    ⟫ reconcile run

abbrev pub correct : Run → Notice → Result DisputeCorrection → Step
correct run n (err e) b = (b, err e)
correct run n (ok c) b = post_and_save run n c.action (dispute_state n.status) b

abbrev pub correction_of : Notice → Option DisputeRow → Result DisputeCorrection
correction_of n row =
    compute_dispute_correction n.event_type n.status n.stripe_dispute_id (bigint n.amount_minor)
      n.currency (previous_status row)

abbrev pub is_other : DisputeStatus → Bool
is_other other_state = true
is_other _ = false

abbrev apply_notice : Run → Notice → Option DisputeRow → Step
apply_notice run n none b = correct run n (correction_of n none) b
apply_notice run n (some r) b =
    if not (str_eq r.payment_id n.payment_id)
    then (b, err "Stripe dispute belongs to another payment")
    else if not (is_stripe_event_newer (incoming n) (some (cursor r)))
    then reconcile run b
    else if not (eqb_ℤ r.amount_minor n.amount_minor)
    then (b, err "Stripe dispute amount does not match stored dispute")
    else correct run n (correction_of n (some r)) b

-- The part of `processStripeEvent` that handles a notice about a dispute.
unfoldable pub process_dispute : Run → Notice → Step
unfolding dispute_state save_dispute_cursor
process_dispute run n b =
    if is_other (dispute_state n.status)
    then (b, err (String.◌++◌ "Unsupported Stripe dispute status: " n.status))
    else apply_notice run n b.row b
