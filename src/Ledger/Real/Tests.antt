-- ===== src/Ledger/Real/Tests.antt =====
-- The client over a small ledger, which takes one transfer at a time.
use oss_tips.Base.{
  ℕ, ◌==◌, ==_iff, pos, true, false, not, Option, none, some, List, [], ◌∷◌, map, any, any_complete,
  keep, Memᴰ, All, ok, Bool-cases, Option-cases, inl, inr, ◌≡◌, refl, sym,
}
use oss_tips.Ledger.Intents.{LedgerTransfer}
use oss_tips.Ledger.Real.{
  TransferStatus, created, exists, linked_event_failed, StoredTransfer, TigerBeetle, by_id,
  is_created,
}
use oss_tips.Ledger.Real.Create.{RealClient, ids_of, create_durable_transfers}
use oss_tips.Ledger.Real.Durable.{IsLedger, IsDurable, reported-IsDurable}

abbrev submit_if :
    Option StoredTransfer
    → StoredTransfer
    → List StoredTransfer
    → List StoredTransfer × List TransferStatus
submit_if none b s = (b ∷ s, created ∷ [])
submit_if (some old) b s = (s, exists ∷ [])

abbrev submit_one :
    List StoredTransfer → List StoredTransfer → List StoredTransfer × List TransferStatus
submit_one [] s = (s, [])
submit_one (b ∷ []) s = submit_if (by_id b.id s) b s
submit_one (b ∷ c ∷ bs) s =
    (s, linked_event_failed ∷ linked_event_failed ∷ map (λ x. linked_event_failed) bs)

abbrev small_ledger : TigerBeetle (List StoredTransfer)
small_ledger = record {
  look_up = λ ids s. keep (λ t. any (λ i. i == t.id) ids) s;
  submit = submit_one;
  linked_flag = 1;
  no_flag = 0;
  status_number = λ status. 0;
}

abbrev stores : List StoredTransfer → ℕ → Option StoredTransfer
stores s id = by_id id s

keep-by_id :
    (ids : List ℕ) (s : List StoredTransfer) (id : ℕ)
    → any (λ i. i == id) ids ≡ true
    → by_id id (keep (λ t. any (λ i. i == t.id) ids) s) ≡ by_id id s
keep-by_id ids [] id m = refl
keep-by_id ids (t ∷ s) id m = elim (Bool-cases (any (λ i. i == t.id) ids)) [
  | inl kept ↦ rw (kept, keep-by_id ids s id m) refl
  | inr dropped ↦ elim (Bool-cases (t.id == id)) [
    | inl e ↦ absurd (let same = (==_iff t.id id).0 e in let m' = rw (sym same) at m in cc)
    | inr e ↦ elim (Option-cases (by_id id s)) [
      | inl missing ↦ rw (dropped, keep-by_id ids s id m, missing, e) refl
      | inr (a, there) ↦ rw (dropped, keep-by_id ids s id m, there) refl
    ]
  ]
]

submit-stores :
    (batch s : List StoredTransfer)
    → any (λ x. not (is_created x)) (submit_one batch s).1 ≡ false
    → (b : StoredTransfer) → Memᴰ b batch
    → (at : ℕ) × (stores (submit_one batch s).0 b.id ≡ some (record b { timestamp = at }))
submit-stores [] s a b m = elim m [ ]
submit-stores (c ∷ []) s a b (Memᴰ.tail m) = elim m [ ]
submit-stores (c ∷ []) s a b (Memᴰ.head e) = elim (Option-cases (by_id c.id s)) [
  | inr (old, there) ↦ absurd (let a' = rw there at a in cc)
  | inl missing ↦
      let itself : (c.id == c.id) ≡ true = (==_iff c.id c.id).1 refl in
      (c.timestamp, rw (e, missing, missing, itself) refl)
]
submit-stores (c ∷ d ∷ bs) s a b m = absurd (cc)

small-IsLedger : IsLedger small_ledger stores
small-IsLedger = record {
  looks_up =
      λ ids s id m. keep-by_id ids s id (any_complete (λ i. i == id) ids m ((==_iff id id).1 refl));
  stores_created = λ batch s n a b m. submit-stores batch s a b m;
}

abbrev payment : LedgerTransfer
payment = record {
  id = 7;
  debit_account_id = 1;
  credit_account_id = 2;
  amount = pos 500;
  ledger = 826;
  code = 1010;
  linked = false;
}

abbrev new_client : RealClient (List StoredTransfer)
new_client = record { remembered = []; durable = [] }

payment_posted :
    (create_durable_transfers small_ledger 9 (payment ∷ []) new_client).1 ≡ ok (ok (7 ∷ []))
unfolding create_durable_transfers
payment_posted = refl

reported-IsDurable_example :
    (◌≡◌ {A = List ℕ} (7 ∷ []) (ids_of (payment ∷ [])))
    × All
        (IsDurable 1 0
          (stores (create_durable_transfers small_ledger 9 (payment ∷ []) new_client).0.durable))
        (payment ∷ [])
reported-IsDurable_example =
    reported-IsDurable small_ledger stores small-IsLedger 9 (payment ∷ []) new_client (7 ∷ [])
      payment_posted
