-- ===== src/Payments/Inbox/Repeats.antt =====
-- An event that Stripe delivers again changes nothing.
use oss_tips.Base.{
  ℕ, String, eq_iff, Bool, true, false, ◌||◌, Option, none, some, List, [], ◌∷◌, find, ok,
  Bool-cases, Option-cases, inl, inr, ◌≡◌, refl, sym, ◌∙◌, ap, arith,
}
use oss_tips.Domain.Money.{Numeric}
use oss_tips.Db.Rows.{
  has_key, has_key-update, append_one-has_key, append_one-itself, append_one-itself,
}
use oss_tips.Db.StripeEvents.{
  StripeEvent, is_event, insert_if_new, find_by_stripe_event_id, Call, call, run,
}
use oss_tips.Db.StripeEvents.Kept.{IsKept, call-IsKept}
use oss_tips.Payments.Inbox.{
  VerifiedStripeEvent, accepted, rejection, event_row, inbox_row, webhook_store,
  accept_stripe_event_into_inbox,
}

-- The inbox has a row for this event of Stripe.
abbrev IsStored : String → List StripeEvent → Type 0
IsStored sid rows = has_key (λ r. r.stripe_event_id) sid rows ≡ true

IsStored-IsKept : (sid : String) → IsKept (IsStored sid)
IsStored-IsKept sid = record {
  on_update =
      λ p f rows o s. has_key-update (λ r. r.stripe_event_id) p f sid rows o.same_stripe_id ∙ s;
  on_insert = λ e rows free s. append_one-has_key (λ r. r.stripe_event_id) sid rows e s;
}

run-IsStored :
    (sid : String) (cs : List Call) (rows : List StripeEvent)
    → IsStored sid rows
    → IsStored sid (run cs rows)
unfolding run
run-IsStored sid [] rows s = s
run-IsStored sid (c ∷ cs) rows s =
    run-IsStored sid cs (call c rows) (call-IsKept c rows (IsStored-IsKept sid) s)

find-IsStored :
    (sid : String) (rows : List StripeEvent)
    → IsStored sid rows
    → (e : StripeEvent) × (find (is_event sid) rows ≡ some e) × (e.stripe_event_id ≡ sid)
find-IsStored sid [] s = absurd (cc)
find-IsStored sid (e ∷ rows) s = elim (Bool-cases (is_event sid e)) [
  | inl t ↦ (e, rw t refl, (eq_iff e.stripe_event_id sid).0 t)
  | inr t ↦ let (f, q, i) = find-IsStored sid rows (rw t at s) in (f, rw t q, i)
]

IsStored-find :
    (sid : String) (rows : List StripeEvent) (e : StripeEvent)
    → find (is_event sid) rows ≡ some e
    → IsStored sid rows × (e.stripe_event_id ≡ sid)
IsStored-find sid [] e q = absurd (cc)
IsStored-find sid (d ∷ rows) e q = elim (Bool-cases (is_event sid d)) [
  | inl t ↦
      let same : d ≡ e = let q' = rw t at q in cc in
      (rw t refl, ap (λ x. x.stripe_event_id) (sym same) ∙ (eq_iff d.stripe_event_id sid).0 t)
  | inr t ↦ let (s, i) = IsStored-find sid rows e (rw t at q) in (rw t s, i)
]

abbrev taken : StripeEvent → List StripeEvent → Bool
taken e rows =
    has_key (λ r. r.id) e.id rows || has_key (λ r. r.stripe_event_id) e.stripe_event_id rows

-- What is inserted is stored, under Stripe's id.
insert-IsStored :
    (e f : StripeEvent) (created : Bool) (rows : List StripeEvent)
    → (insert_if_new e rows).1 ≡ some (f, created)
    → IsStored e.stripe_event_id (insert_if_new e rows).0 × (f.stripe_event_id ≡ e.stripe_event_id)
unfolding insert_if_new find_by_stripe_event_id
insert-IsStored e f created rows q = elim (Bool-cases (taken e rows)) [
  | inl t ↦ elim (Option-cases (find (is_event e.stripe_event_id) rows)) [
    | inl absent ↦ absurd (let q' = rw (t, absent) at q in cc)
    | inr (g, there) ↦
        let same : g ≡ f = let q' = rw (t, there) at q in cc in
        let (s, i) = IsStored-find e.stripe_event_id rows g there in
        rw t (s, ap (λ x. x.stripe_event_id) (sym same) ∙ i)
  ]
  | inr t ↦
      let same : e ≡ f = let q' = rw t at q in cc in
      rw t
        (append_one-itself (λ r. r.stripe_event_id) rows e, ap (λ x. x.stripe_event_id) (sym same))
]

-- An event that is stored is not inserted again.
insert-of_stored :
    (e : StripeEvent) (rows : List StripeEvent)
    → IsStored e.stripe_event_id rows
    → (f : StripeEvent) × (insert_if_new e rows ≡ (rows, some (f, false)))
      × (f.stripe_event_id ≡ e.stripe_event_id)
unfolding insert_if_new find_by_stripe_event_id
insert-of_stored e rows s =
    let (f, q, i) = find-IsStored e.stripe_event_id rows s in
    let t : taken e rows ≡ true = ground arith in (f, rw (t, q) refl, i)

-- A result of acceptance comes from an insert that returned.
accepted-IsStored :
    (now : ℕ) (new_id sid type : String) (event : VerifiedStripeEvent) (length : Numeric)
    (expected : Option String) (created : Bool) (rows : List StripeEvent)
    → (accept_stripe_event_into_inbox (webhook_store now) new_id event length expected rows).1
      ≡ ok (accepted sid type created)
    → (rejection event length expected ≡ none)
      × (sid ≡ event.id)
      × (type ≡ event.event_type)
      × IsStored event.id
          (accept_stripe_event_into_inbox (webhook_store now) new_id event length expected rows).0
unfolding accept_stripe_event_into_inbox webhook_store
accepted-IsStored now new_id sid type event length expected created rows q =
    elim (Option-cases (rejection event length expected)) [
      | inr (r, bad) ↦ absurd (let q' = rw bad at q in cc)
      | inl fine ↦
          elim (Option-cases (insert_if_new (event_row now (inbox_row new_id event)) rows).1) [
            | inl failed ↦ absurd (let q' = rw (fine, failed) at q in cc)
            | inr ((f, fresh), inserted) ↦
                let (s, i) =
                  insert-IsStored (event_row now (inbox_row new_id event)) f fresh rows inserted in
                let q' = rw (fine, inserted) at q in
                let same_sid : f.stripe_event_id ≡ sid = cc in
                let same_type : event.event_type ≡ type = cc in
                (fine, sym same_sid ∙ i, sym same_type, rw fine s)
          ]
    ]

-- Once an event is accepted, a second delivery of it changes nothing, whatever the workers do in
-- between and whatever new id it is given: it is accepted with the same answer, but as not created.
pub inbox_is_idempotent :
    (now again : ℕ) (new_id next_id sid type : String) (event : VerifiedStripeEvent)
    (length : Numeric) (expected : Option String) (created : Bool) (cs : List Call)
    (rows : List StripeEvent)
    → (accept_stripe_event_into_inbox (webhook_store now) new_id event length expected rows).1
      ≡ ok (accepted sid type created)
    → accept_stripe_event_into_inbox (webhook_store again) next_id event length expected (
        run cs
          (accept_stripe_event_into_inbox (webhook_store now) new_id event length expected rows).0)
      ≡ (
        run cs
            (accept_stripe_event_into_inbox
              (webhook_store now)
              new_id
              event
              length
              expected
              rows).0,
        ok (accepted sid type false),
      )
unfolding accept_stripe_event_into_inbox webhook_store
inbox_is_idempotent now again new_id next_id sid type event length expected created cs rows q =
    let (fine, same_sid, same_type, s) =
      accepted-IsStored now new_id sid type event length expected created rows q in
    let after =
      (accept_stripe_event_into_inbox (webhook_store now) new_id event length expected rows).0 in
    let (f, kept, i) =
      insert-of_stored (event_row again (inbox_row next_id event)) (run cs after)
        (run-IsStored event.id cs after s) in
    let kept' = rw fine at kept in rw (fine, kept', i, same_sid, same_type) refl
