-- ===== src/Db/StripeEvents/Kept.antt =====
-- What the calls on the inbox keep, each an update of rows that are not processed or an insert.
use oss_tips.Base.{
  ℕ, String, Bool, true, false, List, [], ◌∷◌, ◌++◌, Memᴰ, Bool-cases, inl, inr, ◌≡◌, refl, arith,
}
use oss_tips.Db.Rows.{
  update_where, update-keeps, append_one-mem, has_key, IsKeyed, update-IsKeyed, append_one-IsKeyed,
}
use oss_tips.Db.StripeEvents.{
  StripeEvent, is_null, is_mine, is_chosen, candidates, claimed_event, renewed_event,
  processed_event, failed_event, insert_if_new, Call, insert_call, claim_call, renew_call,
  processed_call, failed_call, call, run,
}

pub is_mine-null :
    (id worker : String) (e : StripeEvent)
    → is_mine id worker e ≡ true
    → is_null e.processed_at ≡ true
is_mine-null id worker e t = ground arith

is_chosen-null :
    (ids : List String) (e : StripeEvent) → is_chosen ids e ≡ true → is_null e.processed_at ≡ true
is_chosen-null ids e t = ground arith

-- An update of the rows that are not yet processed.
pub record IsOpenUpdate (p : StripeEvent → Bool) (f : StripeEvent → StripeEvent) : Type 0 where
  pub same_id : (e : StripeEvent) → (f e).id ≡ e.id
  pub same_stripe_id : (e : StripeEvent) → (f e).stripe_event_id ≡ e.stripe_event_id
  pub open_only : (e : StripeEvent) → p e ≡ true → is_null e.processed_at ≡ true

mine-IsOpenUpdate :
    (id worker : String) (f : StripeEvent → StripeEvent)
    → ((e : StripeEvent) → (f e).id ≡ e.id)
    → ((e : StripeEvent) → (f e).stripe_event_id ≡ e.stripe_event_id)
    → IsOpenUpdate (is_mine id worker) f
mine-IsOpenUpdate id worker f same same_stripe = record {
  same_id = same;
  same_stripe_id = same_stripe;
  open_only = is_mine-null id worker;
}

chosen-IsOpenUpdate :
    (ids : List String) (worker : String) (now : ℕ)
    → IsOpenUpdate (is_chosen ids) (claimed_event worker now)
chosen-IsOpenUpdate ids worker now = record {
  same_id = λ e. refl;
  same_stripe_id = λ e. refl;
  open_only = is_chosen-null ids;
}

-- A property of tables that every call keeps.
pub record IsKept (P : List StripeEvent → Type 0) : Type 0 where
  pub on_update :
      (p : StripeEvent → Bool) (f : StripeEvent → StripeEvent) (rows : List StripeEvent)
      → IsOpenUpdate p f
      → P rows
      → P (update_where p f rows)
  pub on_insert :
      (e : StripeEvent) (rows : List StripeEvent)
      → has_key (λ r. r.id) e.id rows ≡ false
      → P rows
      → P (rows ++ e ∷ [])

insert-IsKept :
    {P : List StripeEvent → Type 0} (e : StripeEvent) (rows : List StripeEvent)
    → IsKept P
    → P rows
    → P (insert_if_new e rows).0
unfolding insert_if_new
insert-IsKept e rows k h = elim (Bool-cases (has_key (λ r. r.id) e.id rows)) [
  | inl taken ↦ rw taken h
  | inr free ↦ elim (Bool-cases (has_key (λ r. r.stripe_event_id) e.stripe_event_id rows)) [
    | inl taken ↦ rw (free, taken) h
    | inr unseen ↦ rw (free, unseen) (k.on_insert e rows free h)
  ]
]

pub call-IsKept :
    {P : List StripeEvent → Type 0} (c : Call) (rows : List StripeEvent)
    → IsKept P
    → P rows
    → P (call c rows)
unfolding call
call-IsKept (insert_call e) rows k h = insert-IsKept e rows k h
call-IsKept (claim_call skipped limit worker now) rows k h =
    k.on_update (is_chosen (candidates skipped limit now rows)) (claimed_event worker now) rows
      (chosen-IsOpenUpdate (candidates skipped limit now rows) worker now) h
call-IsKept (renew_call id worker now) rows k h =
    k.on_update (is_mine id worker) (renewed_event now) rows
      (mine-IsOpenUpdate id worker (renewed_event now) (λ e. refl) (λ e. refl)) h
call-IsKept (processed_call id worker now) rows k h =
    k.on_update (is_mine id worker) (processed_event now) rows
      (mine-IsOpenUpdate id worker (processed_event now) (λ e. refl) (λ e. refl)) h
call-IsKept (failed_call id error worker) rows k h =
    k.on_update (is_mine id worker) (failed_event error) rows
      (mine-IsOpenUpdate id worker (failed_event error) (λ e. refl) (λ e. refl)) h

processed-IsKept : (e : StripeEvent) → is_null e.processed_at ≡ false → IsKept (λ rows. Memᴰ e rows)
processed-IsKept e d = record {
  on_update = λ p f rows o m. elim (Bool-cases (p e)) [
    | inl t ↦ absurd (let open_row = o.open_only e t in cc)
    | inr t ↦ update-keeps p f rows e t m
  ];
  on_insert = λ r rows free m. append_one-mem rows r e m;
}

-- The row of an event that was processed stays as it is under any calls.
pub processed_is_final :
    (cs : List Call) (rows : List StripeEvent) (e : StripeEvent)
    → is_null e.processed_at ≡ false
    → Memᴰ e rows
    → Memᴰ e (run cs rows)
unfolding run
processed_is_final [] rows e d m = m
processed_is_final (c ∷ cs) rows e d m =
    processed_is_final cs (call c rows) e d (call-IsKept c rows (processed-IsKept e d) m)

pub IsKeyed-IsKept : IsKept (λ rows. IsKeyed (λ r. r.id) rows)
IsKeyed-IsKept = record {
  on_update = λ p f rows o k. update-IsKeyed (λ r. r.id) p f rows o.same_id k;
  on_insert = λ e rows free k. append_one-IsKeyed (λ r. r.id) rows e free k;
}
