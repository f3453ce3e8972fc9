-- ===== src/Finance/Disputes/Moves.antt =====
-- What the calls of the handler may do to the books, each of which may fail.
use oss_tips.Base.{
  String, str_eq, true, Option, none, some, List, Result, ok, err, Bool-cases, inl, inr, ◌≡◌,
}
use oss_tips.Ledger.Intents.Dispute.{DisputeOutcome}
use oss_tips.Payments.Dispute.{DisputeStatus}
use oss_tips.Payments.WebhookEvents.{is_stripe_event_newer}
use oss_tips.Finance.Disputes.{
  Notice, DisputeRow, Books, Run, once, post, reconcile, incoming, cursor, save_dispute_cursor,
  save_dispute_cursor_and_notify, fresh_row, moved_row, ◌⟫◌,
}

abbrev pub table : Option DisputeRow → List DisputeOutcome → Books
table row os = record { row = row; postings = os }

-- A newer notice about a dispute of the same payment, or the first about a dispute.
abbrev pub Fits : Notice → Option DisputeRow → Type 0
Fits n none = Unit {0}
Fits n (some r) =
    (str_eq r.payment_id n.payment_id ≡ true)
    × (is_stripe_event_newer (incoming n) (some (cursor r)) ≡ true)

-- The row that such a notice leaves.
abbrev pub saved : Notice → DisputeStatus → Option DisputeRow → DisputeRow
saved n status none = fresh_row n status
saved n status (some r) = moved_row n status r

-- A posting is refused, or taken and not stored, or taken and stored.
pub post-by :
    (R : Books × Result (Unit {0}) → Type 0) (run : Run) (o : DisputeOutcome)
    (row : Option DisputeRow) (os : List DisputeOutcome)
    → ((e : String) → R (table row os, err e))
    → ((e : String) → R (table row (once o os), err e))
    → R (table row (once o os), ok tt)
    → R (post run o (table row os))
post-by R run o row os refused unstored posted = elim (Bool-cases (run.accepts o)) [
  | inr t ↦ rw t (refused _)
  | inl t ↦ elim (Bool-cases (run.persists o)) [
    | inr u ↦ rw (t, u) (unstored _)
    | inl u ↦ rw (t, u) posted
  ]
]

save-by :
    (R : Books × Result (Unit {0}) → Type 0) (run : Run) (n : Notice) (status : DisputeStatus)
    (row : Option DisputeRow) (os : List DisputeOutcome)
    → Fits n row
    → ((e : String) → R (table row os, err e))
    → R (table (some (saved n status row)) os, ok tt)
    → R (save_dispute_cursor_and_notify run n status (table row os))
unfolding save_dispute_cursor
save-by R run n status row os fits lost_save done = elim (Bool-cases run.saves) [
  | inr t ↦ rw t (lost_save _)
  | inl t ↦ rw t (by_row row fits done)
]
  where
    by_row :
        (row : Option DisputeRow)
        → Fits n row
        → R (table (some (saved n status row)) os, ok tt)
        → R (save_dispute_cursor n status (table row os))
    by_row none fits done = done
    by_row (some r) (paid, new) done = rw (paid, new) done

-- The row is not saved, or saved and the entitlement not reconciled, or both are done.
pub finish-by :
    (R : Books × Result (Unit {0}) → Type 0) (run : Run) (n : Notice) (status : DisputeStatus)
    (row : Option DisputeRow) (os : List DisputeOutcome)
    → Fits n row
    → ((e : String) → R (table row os, err e))
    → ((e : String) → R (table (some (saved n status row)) os, err e))
    → R (table (some (saved n status row)) os, ok tt)
    → R (save_dispute_cursor_and_notify run n status (table row os) ⟫ reconcile run)
finish-by R run n status row os fits unsaved unreconciled done =
    save-by (λ x. R (x ⟫ reconcile run)) run n status row os fits unsaved
      (elim (Bool-cases run.reconciles) [ inr t ↦ rw t (unreconciled _) | inl t ↦ rw t done ])
