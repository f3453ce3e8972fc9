-- ===== src/Finance/Events.antt =====
-- apps/finance-worker/src/index.ts, `processClaimedStripeEvent`: the handling of a claimed event, its
-- heartbeat, and how it is marked. What the handler does to the books is a parameter, and logs are left
-- out.
pub mod Settlement
use oss_tips.Base.{ℕ, Bool, true, false, String, Option, none, some, List, [], ◌∷◌}
use oss_tips.Db.StripeEvents.{
  StripeEvent, renew_processing_lease, mark_processed, mark_failed, Call, call,
}

-- What happens while an event is handled: a beat of the heartbeat, or a call of another process.
pub data EventMoment : Type 0 where
  event_beat : ℕ → EventMoment
  event_elsewhere : Call → EventMoment

abbrev is_gone : Option StripeEvent → Bool
is_gone none = true
is_gone (some e) = false

-- The table of events, and whether the heartbeat has stopped: the beat that renews nothing is the last.
unfoldable pub while_handled :
    (id worker : String) → List EventMoment → List StripeEvent × Bool → List StripeEvent × Bool
unfolding renew_processing_lease
while_handled id worker [] (rows, stopped) = (rows, stopped)
while_handled id worker (event_elsewhere c ∷ ms) (rows, stopped) =
    while_handled id worker ms (call c rows, stopped)
while_handled id worker (event_beat now ∷ ms) (rows, true) = while_handled id worker ms (rows, true)
while_handled id worker (event_beat now ∷ ms) (rows, false) = while_handled id worker ms (
  (renew_processing_lease id worker now rows).0,
  is_gone (renew_processing_lease id worker now rows).1,
)

-- The handler has returned, or thrown this message.
unfoldable pub mark_event :
    (id worker : String) → ℕ → (thrown : Option String) → List StripeEvent → List StripeEvent
unfolding mark_processed mark_failed
mark_event id worker now none rows = (mark_processed id worker now rows).0
mark_event id worker now (some message) rows = (mark_failed id message worker rows).0

-- `processClaimedStripeEvent`: `ms` happen while the handler runs, and it has ended at `now`.
unfoldable pub process_claimed_stripe_event :
    (handler : StripeEvent → Option String)
    → StripeEvent
    → (worker : String) → List EventMoment
    → ℕ
    → List StripeEvent
    → List StripeEvent
unfolding while_handled mark_event
process_claimed_stripe_event handler e worker ms now rows =
    mark_event e.id worker now (handler e) (while_handled e.id worker ms (rows, false)).0
