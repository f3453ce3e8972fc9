-- ===== src/Db/StripeEvents/Leases.antt =====
-- The lease of a worker on an event, against the calls of the others.
use oss_tips.Base.{
  ℕ, ◌+◌, ◌-◌, ◌<◌, leb, ltb, String, str_eq, eq_iff, Bool, true, false, ◌&&◌, ◌||◌, none, some,
  List, [], ◌∷◌, map, any, keep, Memᴰ, Bool-cases, inl, inr, ◌≡◌, refl, sym, arith,
}
use oss_tips.Db.Rows.{update-keeps, append_one-mem, has_key, IsKeyed}
use oss_tips.Db.StripeEvents.{
  StripeEvent, stripe_event_lease_timeout_ms, is_candidate, is_chosen, is_mine, insert_by_received,
  by_received, first, candidates, claimed_event, renewed_event, processed_event, failed_event,
  insert_if_new, Call, insert_call, claim_call, renew_call, processed_call, failed_call, call,
}

-- The event is leased to the worker since `at`.
pub record IsLeased (worker : String) (at : ℕ) (e : StripeEvent) : Type 0 where
  pub unprocessed : e.processed_at ≡ none
  pub since : e.processing_at ≡ some at
  pub by_worker : e.processing_by ≡ some worker

-- The calls of others: a claim before the lease times out, an insert, and any but the renewals and
-- settlements of the worker on the event.
abbrev pub IsForeign : (id worker : String) → ℕ → Call → Type 0
IsForeign id worker at (insert_call e) = Unit
IsForeign id worker at (claim_call skipped limit other now) =
    now < at + stripe_event_lease_timeout_ms
IsForeign id worker at (renew_call k other now) = (str_eq id k && str_eq worker other) ≡ false
IsForeign id worker at (processed_call k other now) = (str_eq id k && str_eq worker other) ≡ false
IsForeign id worker at (failed_call k error other) = (str_eq id k && str_eq worker other) ≡ false

mem-keep :
    (p : StripeEvent → Bool) (rows : List StripeEvent) (x : StripeEvent)
    → Memᴰ x (keep p rows)
    → Memᴰ x rows × (p x ≡ true)
mem-keep p [] x m = elim m [ ]
mem-keep p (r ∷ rows) x m = elim (Bool-cases (p r)) [
  | inl t ↦ elim (rw t at m) [
    | Memᴰ.head e ↦ (Memᴰ.head e, rw e t)
    | Memᴰ.tail n ↦ let (k, q) = mem-keep p rows x n in (Memᴰ.tail k, q)
  ]
  | inr t ↦ let (k, q) = mem-keep p rows x (rw t at m) in (Memᴰ.tail k, q)
]

mem-first :
    (n : ℕ) (rows : List StripeEvent) (x : StripeEvent) → Memᴰ x (first n rows) → Memᴰ x rows
mem-first n [] x m = m
mem-first n (r ∷ rows) x m = elim (Bool-cases (ltb 0 n)) [
  | inl t ↦ elim (rw t at m) [
    | Memᴰ.head e ↦ Memᴰ.head e
    | Memᴰ.tail k ↦ Memᴰ.tail (mem-first (n - 1) rows x k)
  ]
  | inr t ↦ elim (rw t at m) [ ]
]

mem-insert :
    (e : StripeEvent) (rows : List StripeEvent) (x : StripeEvent)
    → Memᴰ x (insert_by_received e rows)
    → Memᴰ x (e ∷ rows)
unfolding insert_by_received
mem-insert e [] x m = m
mem-insert e (r ∷ rows) x m = elim (Bool-cases (leb e.received_at r.received_at)) [
  | inl t ↦ rw t at m
  | inr t ↦ elim (rw t at m) [
    | Memᴰ.head q ↦ Memᴰ.tail (Memᴰ.head q)
    | Memᴰ.tail k ↦ elim (mem-insert e rows x k) [
      | Memᴰ.head q ↦ Memᴰ.head q
      | Memᴰ.tail l ↦ Memᴰ.tail (Memᴰ.tail l)
    ]
  ]
]

mem-by_received :
    (rows : List StripeEvent) (x : StripeEvent) → Memᴰ x (by_received rows) → Memᴰ x rows
unfolding by_received
mem-by_received [] x m = m
mem-by_received (r ∷ rows) x m = elim (mem-insert r (by_received rows) x m) [
  | Memᴰ.head q ↦ Memᴰ.head q
  | Memᴰ.tail k ↦ Memᴰ.tail (mem-by_received rows x k)
]

any-id :
    (k : String) (rows : List StripeEvent)
    → any (λ id. str_eq k id) (map (λ e. e.id) rows) ≡ true
    → (x : StripeEvent) × Memᴰ x rows × (k ≡ x.id)
any-id k [] t = absurd (cc)
any-id k (r ∷ rows) t = elim (Bool-cases (str_eq k r.id)) [
  | inl u ↦ (r, Memᴰ.head refl, (eq_iff k r.id).0 u)
  | inr u ↦ let (x, m, q) = any-id k rows (rw u at t) in (x, Memᴰ.tail m, q)
]

not_candidate :
    (skipped : String → Bool) (worker : String) (now at : ℕ) (e : StripeEvent)
    → IsLeased worker at e
    → now < at + stripe_event_lease_timeout_ms
    → is_candidate skipped now e ≡ false
not_candidate skipped worker now at e l soon =
    let s = l.since in let u = l.unprocessed in rw (u, s) (ground arith)

not_chosen :
    (skipped : String → Bool) (limit : ℕ) (worker : String) (now at : ℕ) (rows : List StripeEvent)
    (e : StripeEvent)
    → IsKeyed (λ r. r.id) rows
    → IsLeased worker at e
    → now < at + stripe_event_lease_timeout_ms
    → Memᴰ e rows
    → is_chosen (candidates skipped limit now rows) e ≡ false
not_chosen skipped limit worker now at rows e keyed l soon m =
    elim (Bool-cases (any (λ id. str_eq e.id id) (candidates skipped limit now rows))) [
      | inr t ↦ rw t refl
      | inl t ↦
          let (x, n, q) =
            any-id e.id (first limit (by_received (keep (is_candidate skipped now) rows))) t in
          let (k, p) = mem-keep (is_candidate skipped now) rows x (
            mem-by_received (keep (is_candidate skipped now) rows) x
              (mem-first limit (by_received (keep (is_candidate skipped now) rows)) x n)) in
          let one : e ≡ x = keyed e x m k q in
          absurd (
            let p' = rw (sym one) at p in
            let f = not_candidate skipped worker now at e l soon in cc)
    ]

other_lease :
    (k worker other : String) (at : ℕ) (e : StripeEvent)
    → IsLeased worker at e
    → (str_eq e.id k && str_eq worker other) ≡ false
    → is_mine k other e ≡ false
other_lease k worker other at e l d = let w = l.by_worker in rw w (ground arith)

insert-keeps :
    (e d : StripeEvent) (rows : List StripeEvent) → Memᴰ e rows → Memᴰ e (insert_if_new d rows).0
unfolding insert_if_new
insert-keeps e d rows m =
    elim (Bool-cases
      (has_key (λ r. r.id) d.id rows || has_key (λ r. r.stripe_event_id) d.stripe_event_id rows)) [
        | inl t ↦ rw t m
        | inr t ↦ rw t (append_one-mem rows d e m)
      ]

-- A call of another leaves the row of a leased event as it is.
pub call-keeps :
    (worker : String) (at : ℕ) (rows : List StripeEvent) (e : StripeEvent) (c : Call)
    → IsKeyed (λ r. r.id) rows
    → IsLeased worker at e
    → IsForeign e.id worker at c
    → Memᴰ e rows
    → Memᴰ e (call c rows)
unfolding call
call-keeps worker at rows e (insert_call d) keyed l f m = insert-keeps e d rows m
call-keeps worker at rows e (claim_call skipped limit other now) keyed l f m =
    update-keeps (is_chosen (candidates skipped limit now rows)) (claimed_event other now) rows e
      (not_chosen skipped limit worker now at rows e keyed l f m) m
call-keeps worker at rows e (renew_call k other now) keyed l f m =
    update-keeps (is_mine k other) (renewed_event now) rows e (other_lease k worker other at e l f)
      m
call-keeps worker at rows e (processed_call k other now) keyed l f m =
    update-keeps (is_mine k other) (processed_event now) rows e
      (other_lease k worker other at e l f) m
call-keeps worker at rows e (failed_call k error other) keyed l f m =
    update-keeps (is_mine k other) (failed_event error) rows e (other_lease k worker other at e l f)
      m
