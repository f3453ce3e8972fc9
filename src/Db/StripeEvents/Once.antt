-- ===== src/Db/StripeEvents/Once.antt =====
-- An event that is marked as processed is done with.
use oss_tips.Base.{
  ℕ, ◌+◌, ◌≤◌, String, str_eq, eq_iff, true, false, Option, none, some, List, [], ◌∷◌, Memᴰ,
  Bool-cases, Option-cases, ◌⊎◌, inl, inr, if◌then◌else◌, ◌≡◌, refl, sym, ◌∙◌, ap, arith,
}
use oss_tips.Db.Rows.{
  update_where, returning, take_first, mem-update, mem-append_one, has_key, has_key-update,
  mem-has_key, returned-mem, IsKeyed, append_one-has_key,
}
use oss_tips.Db.StripeEvents.{
  StripeEvent, is_null, is_mine, processed_event, mark_processed, Call, insert_call, claim_call,
  renew_call, processed_call, failed_call, call,
}
use oss_tips.Db.StripeEvents.Kept.{IsKept, call-IsKept, IsKeyed-IsKept, is_mine-null}

-- The event with this id is in the table and processed.
record IsDone (id : String) (rows : List StripeEvent) : Type 0 where
  there : has_key (λ r. r.id) id rows ≡ true
  all_done : (e : StripeEvent) → Memᴰ e rows → e.id ≡ id → is_null e.processed_at ≡ false

IsDone-IsKept : (id : String) → IsKept (IsDone id)
IsDone-IsKept id = record {
  on_update = λ p f rows o d. record {
    there = has_key-update (λ r. r.id) p f id rows o.same_id ∙ d.there;
    all_done = λ e m is.
        let (a, n, q) = mem-update p f rows e m in
        elim (Bool-cases (p a)) [
          | inl t ↦
              let changed : e ≡ f a = rw t at q in
              let a_is : a.id ≡ id = sym (o.same_id a) ∙ ap (λ x. x.id) (sym changed) ∙ is in
              absurd (let open_row = o.open_only a t in let closed = d.all_done a n a_is in cc)
          | inr t ↦
              let left : e ≡ a = rw t at q in
              let a_is : a.id ≡ id = ap (λ x. x.id) (sym left) ∙ is in rw left (d.all_done a n a_is)
        ];
  };
  on_insert = λ e rows free d. record {
    there = append_one-has_key (λ r. r.id) id rows e d.there;
    all_done = λ b m is. elim (mem-append_one rows e b m) [
      | inl old ↦ d.all_done b old is
      | inr q ↦ absurd (
          let e_is : e.id ≡ id = ap (λ x. x.id) (sym q) ∙ is in
          let free' = rw e_is at free in let t = d.there in cc)
    ];
  };
}

-- One if this event was marked.
abbrev pub marked : String → Option StripeEvent → ℕ
marked id none = 0
marked id (some e) = if str_eq e.id id then 1 else 0

unfoldable pub marks : String → Call → List StripeEvent → ℕ
unfolding mark_processed
marks id (processed_call k worker now) rows = marked id (mark_processed k worker now rows).1
marks id _ rows = 0

-- How many of the calls return the event with this id as processed.
unfoldable pub times_processed : String → List Call → List StripeEvent → ℕ
times_processed id [] rows = 0
times_processed id (c ∷ cs) rows = marks id c rows + times_processed id cs (call c rows)

-- A call that marks an event leaves it done, and did not find it done.
mark-IsDone :
    (id k worker : String) (now : ℕ) (rows : List StripeEvent)
    → IsKeyed (λ r. r.id) rows
    → (marked id (mark_processed k worker now rows).1 ≡ 0)
      ⊎ ((marked id (mark_processed k worker now rows).1 ≡ 1)
          × IsDone id (mark_processed k worker now rows).0
          × (IsDone id rows → ⊥))
unfolding mark_processed
mark-IsDone id k worker now rows keyed =
    elim (Option-cases (take_first (returning (is_mine k worker) (processed_event now) rows))) [
      | inl nothing ↦ inl (rw nothing refl)
      | inr (b, returned) ↦
          let (a, m, t, q) =
            returned-mem (is_mine k worker) (processed_event now) rows b returned in
          elim (Bool-cases (str_eq b.id id)) [
            | inr other ↦ inl (rw (returned, other) refl)
            | inl same ↦
                let a_is : a.id ≡ id = ap (λ x. x.id) (sym q) ∙ (eq_iff b.id id).0 same in
                inr (
                  rw (returned, same) refl,
                  record {
                    there =
                        has_key-update (λ r. r.id) (is_mine k worker) (processed_event now) id rows
                          (λ e. refl)
                        ∙ rw a_is at (mem-has_key (λ r. r.id) rows a m);
                    all_done = λ e n is. of_marked a m t a_is e n is;
                  },
                  λ d.
                      let closed = d.all_done a m a_is in
                      let open_row = is_mine-null k worker a t in absurd (cc),
                )
          ]
    ]
  where
    of_marked :
        (a : StripeEvent)
        → Memᴰ a rows
        → is_mine k worker a ≡ true
        → a.id ≡ id
        → (e : StripeEvent) → Memᴰ e (update_where (is_mine k worker) (processed_event now) rows)
        → e.id ≡ id
        → is_null e.processed_at ≡ false
    of_marked a m t a_is e n is =
        let (c, o, q) = mem-update (is_mine k worker) (processed_event now) rows e n in
        elim (Bool-cases (is_mine k worker c)) [
          | inl u ↦ let changed : e ≡ processed_event now c = rw u at q in rw changed refl
          | inr u ↦
              let left : e ≡ c = rw u at q in
              let one : a ≡ c = keyed a c m o (a_is ∙ sym is ∙ ap (λ x. x.id) left) in
              absurd (let t' = rw one at t in cc)
        ]

none_after :
    (id : String) (cs : List Call) (rows : List StripeEvent)
    → IsKeyed (λ r. r.id) rows
    → IsDone id rows
    → times_processed id cs rows ≡ 0
unfolding times_processed marks
none_after id [] rows keyed d = refl
none_after id (c ∷ cs) rows keyed d =
    let rest =
      none_after id cs (call c rows) (call-IsKept c rows IsKeyed-IsKept keyed)
        (call-IsKept c rows (IsDone-IsKept id) d) in
    let now_zero = no_mark c in omega arith
  where
    no_mark : (c : Call) → marks id c rows ≡ 0
    no_mark (insert_call e) = refl
    no_mark (claim_call skipped limit worker now) = refl
    no_mark (renew_call k worker now) = refl
    no_mark (processed_call k worker now) = elim (mark-IsDone id k worker now rows keyed) [
      | inl e ↦ e
      | inr (e, after, fresh) ↦ absurd (fresh d)
    ]
    no_mark (failed_call k error worker) = refl

once_from :
    (id : String) (cs : List Call) (rows : List StripeEvent)
    → IsKeyed (λ r. r.id) rows
    → times_processed id cs rows ≤ 1
unfolding times_processed marks call
once_from id [] rows keyed = omega arith
once_from id (c ∷ cs) rows keyed = elim (this c) [
  | inl e ↦
      let rest = once_from id cs (call c rows) (call-IsKept c rows IsKeyed-IsKept keyed) in
      omega arith
  | inr (e, d) ↦
      let rest = none_after id cs (call c rows) (call-IsKept c rows IsKeyed-IsKept keyed) d in
      omega arith
]
  where
    this : (c : Call) → (marks id c rows ≡ 0) ⊎ ((marks id c rows ≡ 1) × IsDone id (call c rows))
    this (insert_call e) = inl refl
    this (claim_call skipped limit worker now) = inl refl
    this (renew_call k worker now) = inl refl
    this (processed_call k worker now) = elim (mark-IsDone id k worker now rows keyed) [
      | inl e ↦ inl e
      | inr (e, after, fresh) ↦ inr (e, after)
    ]
    this (failed_call k error worker) = inl refl

-- Whatever calls are made on an empty inbox, in any order and by any workers, at most one of them marks
-- the event with a given id as processed.
pub processed_once : (cs : List Call) (id : String) → times_processed id cs [] ≤ 1
processed_once cs id = once_from id cs [] (λ a b m n e. elim m [ ])
