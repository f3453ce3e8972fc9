-- ===== src/Finance/Events/Settlement.antt =====
-- What becomes of the event that a worker holds while it handles it.
use oss_tips.Base.{
  ℕ, String, eq_iff, Bool, true, false, Option, none, some, List, [], ◌∷◌, Memᴰ, ◌≡◌, refl,
}
use oss_tips.Db.Rows.{update_where, update-mem, some_returned, IsKeyed}
use oss_tips.Db.StripeEvents.{
  StripeEvent, is_null, is_mine, renewed_event, processed_event, failed_event,
  renew_processing_lease, mark_processed, mark_failed, renew_call, call,
}
use oss_tips.Db.StripeEvents.Kept.{call-IsKept, IsKeyed-IsKept}
use oss_tips.Db.StripeEvents.Leases.{IsLeased, IsForeign, call-keeps}
use oss_tips.Finance.Events.{
  EventMoment, event_beat, event_elsewhere, while_handled, mark_event, process_claimed_stripe_event,
}

-- The calls elsewhere are those of others, and none claims after the lease that the last beat renewed.
abbrev pub LeavesEvent : (id worker : String) → ℕ → List EventMoment → Type 0
LeavesEvent id worker at [] = Unit
LeavesEvent id worker at (event_beat now ∷ ms) = LeavesEvent id worker now ms
LeavesEvent id worker at (event_elsewhere c ∷ ms) =
    IsForeign id worker at c × LeavesEvent id worker at ms

its_lease :
    (worker : String) (at : ℕ) (e : StripeEvent)
    → IsLeased worker at e
    → is_mine e.id worker e ≡ true
its_lease worker at e l =
    let id_is = (eq_iff e.id e.id).1 refl in
    let by_is = (eq_iff worker worker).1 refl in
    let w = l.by_worker in let u = l.unprocessed in rw (w, u, id_is, by_is) refl

-- The event as it was claimed, but for the time of its lease.
record IsHeldEvent (worker : String) (e k : StripeEvent) : Type 0 where
  same_id : k.id ≡ e.id
  same_attempts : k.processing_attempts ≡ e.processing_attempts
  not_processed : k.processed_at ≡ none
  is_held : is_mine e.id worker k ≡ true

while_handled-holds :
    (worker : String) (at : ℕ) (ms : List EventMoment) (rows : List StripeEvent) (e : StripeEvent)
    → IsKeyed (λ r. r.id) rows
    → IsLeased worker at e
    → LeavesEvent e.id worker at ms
    → Memᴰ e rows
    → (k : StripeEvent) × IsHeldEvent worker e k
      × Memᴰ k (while_handled e.id worker ms (rows, false)).0
unfolding while_handled renew_processing_lease call
while_handled-holds worker at [] rows e keyed l f m = (
  e,
  record {
    same_id = refl;
    same_attempts = refl;
    not_processed = l.unprocessed;
    is_held = its_lease worker at e l;
  },
  m,
)
while_handled-holds worker at (event_elsewhere c ∷ ms) rows e keyed l f m =
    while_handled-holds worker at ms (call c rows) e (call-IsKept c rows IsKeyed-IsKept keyed) l f.1
      (call-keeps worker at rows e c keyed l f.0 m)
while_handled-holds worker at (event_beat now ∷ ms) rows e keyed l f m =
    let p = its_lease worker at e l in
    let (b, found) = some_returned (is_mine e.id worker) (renewed_event now) rows e m p in
    let after : Memᴰ (renewed_event now e)
        (update_where (is_mine e.id worker) (renewed_event now) rows) =
      rw p at (update-mem (is_mine e.id worker) (renewed_event now) rows e m) in
    let (k, h, n) =
      while_handled-holds worker now ms
        (update_where (is_mine e.id worker) (renewed_event now) rows) (renewed_event now e)
        (call-IsKept (renew_call e.id worker now) rows IsKeyed-IsKept keyed)
        (record { unprocessed = l.unprocessed; since = refl; by_worker = l.by_worker }) f after in
    rw (while_handled, found)
      (
        k,
        record {
          same_id = h.same_id;
          same_attempts = h.same_attempts;
          not_processed = h.not_processed;
          is_held = h.is_held;
        },
        n,
      )

abbrev pub is_thrown : Option String → Bool
is_thrown none = false
is_thrown (some message) = true

-- A worker that holds an event marks it, whatever others do while it is handled, so long as none claims
-- events when its last beat is out of date: the event's lease is over; it is processed exactly if the
-- handler returned, its error is what the handler threw, and its count of attempts is as it was.
pub claimed_event_settles :
    (handler : StripeEvent → Option String) (worker : String) (at now : ℕ) (ms : List EventMoment)
    (rows : List StripeEvent) (e : StripeEvent)
    → IsKeyed (λ r. r.id) rows
    → IsLeased worker at e
    → LeavesEvent e.id worker at ms
    → Memᴰ e rows
    → (l : StripeEvent) × Memᴰ l (process_claimed_stripe_event handler e worker ms now rows)
      × (l.id ≡ e.id)
      × (l.processing_by ≡ none)
      × (is_null l.processed_at ≡ is_thrown (handler e))
      × (l.process_error ≡ handler e)
      × (l.processing_attempts ≡ e.processing_attempts)
unfolding process_claimed_stripe_event mark_event mark_processed mark_failed
claimed_event_settles handler worker at now ms rows e keyed l f m =
    let (k, h, n) = while_handled-holds worker at ms rows e keyed l f m in
    ends_marked (handler e) (while_handled e.id worker ms (rows, false)).0 k h n
  where
    ends_marked :
        (thrown : Option String) (after : List StripeEvent) (k : StripeEvent)
        → IsHeldEvent worker e k
        → Memᴰ k after
        → (l : StripeEvent) × Memᴰ l (mark_event e.id worker now thrown after)
          × (l.id ≡ e.id)
          × (l.processing_by ≡ none)
          × (is_null l.processed_at ≡ is_thrown thrown)
          × (l.process_error ≡ thrown)
          × (l.processing_attempts ≡ e.processing_attempts)
    ends_marked none after k h n = (
      processed_event now k,
      rw h.is_held at (update-mem (is_mine e.id worker) (processed_event now) after k n),
      h.same_id,
      refl,
      refl,
      refl,
      h.same_attempts,
    )
    ends_marked (some message) after k h n = (
      failed_event message k,
      rw h.is_held at (update-mem (is_mine e.id worker) (failed_event message) after k n),
      h.same_id,
      refl,
      rw h.not_processed refl,
      refl,
      h.same_attempts,
    )
