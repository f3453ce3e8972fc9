-- ===== src/Ledger/Real/Durable.antt =====
-- What the client reports as posted is durable.
use oss_tips.Base.{
  ℕ, ◌==◌, ==_iff, ℤ, eqb_ℤ, String, true, false, not, Option, none, some, List, [], ◌∷◌, map, any,
  length, Memᴰ, All, Result, ok, err, Bool-cases, Option-cases, inl, inr, ◌≡◌, refl, sym, ◌∙◌, ap,
  arith,
}
use oss_tips.Ledger.Intents.{LedgerTransfer}
use oss_tips.Ledger.Mock.{PostedTransfer}
use oss_tips.Ledger.Real.{
  TransferStatus, StoredTransfer, TigerBeetle, transfer_mismatch, by_id, conflict, is_complete,
  check_batch, request, is_created, is_committed,
}
use oss_tips.Ledger.Real.Create.{
  RealClient, ids_of, accept, refuse_with, settle_partly, settle_submitted, send_checked,
  create_durable_transfers,
}

-- A transfer is in the store, in the fields that were asked for.
abbrev pub IsDurable :
    (linked_flag no_flag : ℕ) → (ℕ → Option StoredTransfer) → LedgerTransfer → Type 0
IsDurable linked_flag no_flag stores t =
    (a : StoredTransfer) × (stores t.id ≡ some a)
    × (transfer_mismatch linked_flag no_flag t a ≡ none)

-- What TigerBeetle documents: a lookup finds the stored transfers of the ids that it is asked for, and a
-- batch that is reported as created whole is stored as it was sent, but for its time.
pub record IsLedger {S : Type 0} (tb : TigerBeetle S) (stores : S → ℕ → Option StoredTransfer)
    : Type 0 where
  pub looks_up :
      (ids : List ℕ) (s : S) (id : ℕ) → Memᴰ id ids → by_id id (tb.look_up ids s) ≡ stores s id
  pub stores_created :
      (batch : List StoredTransfer) (s : S)
      → length (tb.submit batch s).1 ≡ length batch
      → any (λ x. not (is_created x)) (tb.submit batch s).1 ≡ false
      → (b : StoredTransfer) → Memᴰ b batch
      → (at : ℕ) × (stores (tb.submit batch s).0 b.id ≡ some (record b { timestamp = at }))

-- A batch without conflict that is complete is stored.
inspected :
    (linked_flag no_flag : ℕ) (ts : List LedgerTransfer) (found : List StoredTransfer)
    (view : ℕ → Option StoredTransfer)
    → conflict linked_flag no_flag ts found ≡ none
    → is_complete ts found ≡ true
    → ((t : LedgerTransfer) → Memᴰ t ts → by_id t.id found ≡ view t.id)
    → All (IsDurable linked_flag no_flag view) ts
inspected lf nf [] found view c k same = tt
inspected lf nf (t ∷ ts) found view c k same = elim (Option-cases (by_id t.id found)) [
  | inl missing ↦ absurd (let k' = rw missing at k in cc)
  | inr (a, there) ↦ elim (Option-cases (transfer_mismatch lf nf t a)) [
    | inr (field, differs) ↦ absurd (let c' = rw (there, differs) at c in cc)
    | inl fits ↦ (
      (a, sym (same t (Memᴰ.head refl)) ∙ there, fits),
      inspected lf nf ts found view (rw (there, fits) at c) (rw there at k)
          (λ u m. same u (Memᴰ.tail m)),
    )
  ]
]

eqb_refl : (n : ℤ) → eqb_ℤ n n ≡ true
eqb_refl n = ground arith

request-fits :
    (lf nf at : ℕ) (t : LedgerTransfer)
    → transfer_mismatch lf nf t (record (request lf nf t) { timestamp = at }) ≡ none
request-fits lf nf at t = let n = eqb_refl t.amount in ground arith

mem-map : {A B : Type 0} (f : A → B) (xs : List A) (x : A) → Memᴰ x xs → Memᴰ (f x) (map f xs)
mem-map f [] x m = elim m [ ]
mem-map f (y ∷ ys) x (Memᴰ.head e) = Memᴰ.head (ap f e)
mem-map f (y ∷ ys) x (Memᴰ.tail m) = Memᴰ.tail (mem-map f ys x m)

length-map : {A B : Type 0} (f : A → B) (xs : List A) → length (map f xs) ≡ length xs
length-map f [] = refl
length-map f (x ∷ xs) = omega (arith, length-map f xs)

All-of : {A : Type 0} (P : A → Type 0) (xs : List A) → ((x : A) → Memᴰ x xs → P x) → All P xs
All-of P [] f = tt
All-of P (x ∷ xs) f = (f x (Memᴰ.head refl), All-of P xs (λ y m. f y (Memᴰ.tail m)))

module _ {S : Type 0} (tb : TigerBeetle S) (stores : S → ℕ → Option StoredTransfer)
    (ledger : IsLedger tb stores) where
  -- If the call reports success, the transfers are durable in the state that it leaves.
  abbrev pub Reports : List LedgerTransfer → RealClient S × Result (Result (List ℕ)) → Type 0
  Reports ts (client, r) =
      (ids : List ℕ)
      → r ≡ ok (ok ids)
      → (ids ≡ ids_of ts) × All (IsDurable tb.linked_flag tb.no_flag (stores client.durable)) ts

  accept-Reports :
      (now : ℕ) (ts : List LedgerTransfer) (posted : List PostedTransfer) (s : S)
      → All (IsDurable tb.linked_flag tb.no_flag (stores s)) ts
      → Reports ts (accept tb now ts posted s)
  accept-Reports now ts posted s all ids e = (cc, all)

  refuse-Reports :
      (ts : List LedgerTransfer) (posted : List PostedTransfer) (s : S) (e : String)
      → Reports ts (refuse_with tb posted s e)
  refuse-Reports ts posted s e ids r = absurd (cc)

  looked_up :
      (ts : List LedgerTransfer) (s : S)
      → conflict tb.linked_flag tb.no_flag ts (tb.look_up (ids_of ts) s) ≡ none
      → is_complete ts (tb.look_up (ids_of ts) s) ≡ true
      → All (IsDurable tb.linked_flag tb.no_flag (stores s)) ts
  looked_up ts s c k =
      inspected tb.linked_flag tb.no_flag ts (tb.look_up (ids_of ts) s) (stores s) c k
        (λ t m. ledger.looks_up (ids_of ts) s t.id (mem-map (λ x. x.id) ts t m))

  created-IsDurable :
      (ts : List LedgerTransfer) (s : S)
      → length (tb.submit (map (request tb.linked_flag tb.no_flag) ts) s).1 ≡ length ts
      → any (λ x. not (is_created x)) (tb.submit (map (request tb.linked_flag tb.no_flag) ts) s).1
        ≡ false
      → All
          (IsDurable tb.linked_flag tb.no_flag
            (stores (tb.submit (map (request tb.linked_flag tb.no_flag) ts) s).0))
          ts
  created-IsDurable ts s n a =
      All-of (IsDurable tb.linked_flag tb.no_flag (stores (tb.submit batch s).0)) ts (λ t m.
        let (at, there) =
          ledger.stores_created batch s
            (n ∙ sym (length-map (request tb.linked_flag tb.no_flag) ts)) a
            (request tb.linked_flag tb.no_flag t)
            (mem-map (request tb.linked_flag tb.no_flag) ts t m) in
        (
          record (request tb.linked_flag tb.no_flag t) { timestamp = at },
          there,
          request-fits tb.linked_flag tb.no_flag at t,
        ))
    where
      batch : List StoredTransfer
      batch = map (request tb.linked_flag tb.no_flag) ts

  partly-Reports :
      (now : ℕ) (ts : List LedgerTransfer) (posted : List PostedTransfer) (s : S)
      (statuses : List TransferStatus)
      → Reports ts (
          settle_partly tb now ts posted s statuses
            (tb.look_up (ids_of ts) s)
            (conflict tb.linked_flag tb.no_flag ts (tb.look_up (ids_of ts) s)))
  partly-Reports now ts posted s statuses =
      elim (Option-cases (conflict tb.linked_flag tb.no_flag ts (tb.look_up (ids_of ts) s))) [
        | inr (e, differs) ↦ rw differs (λ ids r. absurd (cc))
        | inl fine ↦ elim (Bool-cases (is_complete ts (tb.look_up (ids_of ts) s))) [
          | inr some_missing ↦ rw (fine, some_missing) (λ ids r. absurd (cc))
          | inl whole ↦ elim (Bool-cases (any (λ x. not (is_committed x)) statuses)) [
            | inl failed ↦ rw (fine, whole, failed) (λ ids r. absurd (cc))
            | inr committed ↦
                rw (fine, whole, committed)
                  (accept-Reports now ts posted s (looked_up ts s fine whole))
          ]
        ]
      ]

  submitted-Reports :
      (now : ℕ) (ts : List LedgerTransfer) (posted : List PostedTransfer) (s : S)
      → Reports ts (
          settle_submitted tb now ts posted
            (tb.submit (map (request tb.linked_flag tb.no_flag) ts) s))
  submitted-Reports now ts posted s =
      elim (Bool-cases
        (length (tb.submit (map (request tb.linked_flag tb.no_flag) ts) s).1 == length ts)) [
          | inr short ↦ rw short (λ ids r. absurd (cc))
          | inl whole ↦
              elim (Bool-cases (
                any (λ x. not (is_created x))
                  (tb.submit (map (request tb.linked_flag tb.no_flag) ts) s).1)) [
                    | inl part ↦
                        rw (whole, part)
                          (partly-Reports now ts posted
                            (tb.submit (map (request tb.linked_flag tb.no_flag) ts) s).0
                            (tb.submit (map (request tb.linked_flag tb.no_flag) ts) s).1)
                    | inr all_created ↦
                        rw (whole, all_created)
                          (accept-Reports now ts posted
                            (tb.submit (map (request tb.linked_flag tb.no_flag) ts) s).0
                            (created-IsDurable ts s
                              ((==_iff
                                  (length
                                    (tb.submit (map (request tb.linked_flag tb.no_flag) ts) s).1)
                                  (length ts)).0
                                whole)
                              all_created))
                  ]
        ]

  sent-Reports :
      (now : ℕ) (ts : List LedgerTransfer) (client : RealClient S) (r : Result (Result (Unit {0})))
      → Reports ts (send_checked tb now ts client r)
  sent-Reports now ts client (err e) = λ ids r. absurd (cc)
  sent-Reports now ts client (ok (err e)) = λ ids r. absurd (cc)
  sent-Reports now ts client (ok (ok done)) =
      elim (Option-cases
        (conflict tb.linked_flag tb.no_flag ts (tb.look_up (ids_of ts) client.durable))) [
          | inr (e, differs) ↦ rw differs (λ ids r. absurd (cc))
          | inl fine ↦ elim (Bool-cases (is_complete ts (tb.look_up (ids_of ts) client.durable))) [
            | inl whole ↦
                rw (fine, whole)
                  (accept-Reports now ts client.remembered client.durable
                    (looked_up ts client.durable fine whole))
            | inr fresh ↦
                rw (fine, fresh) (submitted-Reports now ts client.remembered client.durable)
          ]
        ]

  -- With a TigerBeetle that behaves as documented, a batch that the client reports as posted is durable
  -- whole: its ids are answered, and each of its transfers is stored with the accounts, the amount, the
  -- ledger, the code and the link that it was sent with; be it found before, created, or found after a
  -- batch that was created in part or failed by its links.
  pub reported-IsDurable :
      (now : ℕ) (ts : List LedgerTransfer) (client : RealClient S) (ids : List ℕ)
      → (create_durable_transfers tb now ts client).1 ≡ ok (ok ids)
      → (ids ≡ ids_of ts)
        × All
            (IsDurable tb.linked_flag tb.no_flag
              (stores (create_durable_transfers tb now ts client).0.durable))
            ts
  unfolding create_durable_transfers
  reported-IsDurable now [] client ids e = (cc, tt)
  reported-IsDurable now (t ∷ ts) client ids e =
      sent-Reports now (t ∷ ts) client (check_batch [] (t ∷ ts)) ids e
