-- ===== src/Finance/Disputes/Histories.antt =====
-- The books of a dispute after any notices, whichever calls of their runs fail.
use oss_tips.Base.{Option, none, some, List, [], ◌∷◌, inl, ◌≡◌, ◌≢◌, refl, sym, subst}
use oss_tips.Ledger.Intents.Dispute.{DisputeOutcome}
use oss_tips.Payments.Dispute.{other_state, normalize_status, action_after}
use oss_tips.Finance.Disputes.{
  Notice, DisputeRow, Books, Run, dispute_state, post_and_save, process_dispute,
}
use oss_tips.Finance.Disputes.Phases.{Phase, unseen, is_open, is_won, is_lost, RowAt}
use oss_tips.Finance.Disputes.Moves.{table, Fits}
use oss_tips.Finance.Disputes.Handled.{Acts, first-by, next-by, previous_of}
use oss_tips.Finance.Disputes.Covered.{
  HasTail, Covers, IsCovered, EndsCovered, finish-EndsCovered, unseen-EndsCovered, open-EndsCovered,
}

-- The books after some notices, each handled in a run of its own.
unfoldable pub process_all : List (Run × Notice) → Books → Books
unfolding process_dispute
process_all [] b = b
process_all ((run, n) ∷ ns) b = process_all ns (process_dispute run n b).0

module _ (run : Run) (n : Notice) where
  first-IsCovered :
      (os : List DisputeOutcome)
      → Covers unseen os
      → EndsCovered (process_dispute run n (table none os))
  first-IsCovered os c =
      first-by EndsCovered run n os (λ x. (unseen, refl, c))
        (λ known. unseen-EndsCovered run n (dispute_state n.status) os known c)

  next-IsCovered :
      (p : Phase) (r : DisputeRow) (os : List DisputeOutcome)
      → RowAt p (some r)
      → Covers p os
      → (dispute_state n.status ≢ other_state
          → Fits n (some r)
          → Acts EndsCovered run n (some r) os)
      → EndsCovered (process_dispute run n (table (some r) os))
  next-IsCovered p r os at c acts =
      next-by EndsCovered run n r os (λ x. (p, at, c)) (λ old. (p, at, c)) acts

  open-IsCovered :
      (r : DisputeRow) (os : List DisputeOutcome)
      → r.status ≡ "open"
      → HasTail is_open os
      → EndsCovered (process_dispute run n (table (some r) os))
  unfolding dispute_state normalize_status
  open-IsCovered r os e tail =
      next-IsCovered is_open r os (r, refl, e) tail
        (λ known fits.
          subst
            (λ x. EndsCovered (
              post_and_save run n (action_after x (dispute_state n.status)) (dispute_state n.status)
                (table (some r) os)))
            (sym (previous_of r "open" e))
            (open-EndsCovered run n (dispute_state n.status) r os e known fits tail))

  won-IsCovered :
      (r : DisputeRow) (os : List DisputeOutcome)
      → r.status ≡ "won"
      → HasTail is_won os
      → EndsCovered (process_dispute run n (table (some r) os))
  unfolding dispute_state normalize_status
  won-IsCovered r os e tail =
      next-IsCovered is_won r os (r, refl, e) tail
        (λ known fits.
          subst
            (λ x. EndsCovered (
              post_and_save run n (action_after x (dispute_state n.status)) (dispute_state n.status)
                (table (some r) os)))
            (sym (previous_of r "won" e))
            (finish-EndsCovered run n (dispute_state n.status) is_won is_won (some r) os fits
              (r, refl, e) tail (_, refl, rw e refl) tail))

  lost-IsCovered :
      (r : DisputeRow) (os : List DisputeOutcome)
      → r.status ≡ "lost"
      → HasTail is_lost os
      → EndsCovered (process_dispute run n (table (some r) os))
  unfolding dispute_state normalize_status
  lost-IsCovered r os e tail =
      next-IsCovered is_lost r os (r, refl, e) tail
        (λ known fits.
          subst
            (λ x. EndsCovered (
              post_and_save run n (action_after x (dispute_state n.status)) (dispute_state n.status)
                (table (some r) os)))
            (sym (previous_of r "lost" e))
            (finish-EndsCovered run n (dispute_state n.status) is_lost is_lost (some r) os fits
              (r, refl, e) tail (_, refl, rw e refl) tail))

  of_table :
      (b : Books) (row : Option DisputeRow)
      → b.row ≡ row
      → EndsCovered (process_dispute run n (table row b.postings))
      → EndsCovered (process_dispute run n b)
  of_table b row e f =
      subst (λ x. EndsCovered (process_dispute run n (table x b.postings))) (sym e) f

  process-IsCovered : (b : Books) → IsCovered b → IsCovered (process_dispute run n b).0
  process-IsCovered b (unseen, absent, c) = of_table b none absent (first-IsCovered b.postings c)
  process-IsCovered b (is_open, (r, present, e), c) =
      of_table b (some r) present (open-IsCovered r b.postings e c)
  process-IsCovered b (is_won, (r, present, e), c) =
      of_table b (some r) present (won-IsCovered r b.postings e c)
  process-IsCovered b (is_lost, (r, present, e), c) =
      of_table b (some r) present (lost-IsCovered r b.postings e c)

all-IsCovered : (ns : List (Run × Notice)) (b : Books) → IsCovered b → IsCovered (process_all ns b)
unfolding process_all
all-IsCovered [] b c = c
all-IsCovered ((run, n) ∷ ns) b c =
    all-IsCovered ns (process_dispute run n b).0 (process-IsCovered run n b c)

-- Whatever notices are handled for a dispute that is not yet known, in any order, and whichever calls
-- of each run fail, the ledger has taken nothing, or the opening first and then each of the two outcomes
-- once at most; and it has taken what the dispute's row says: a row is there only when the ledger has
-- taken the opening, and says won or lost only when the ledger has taken that outcome.
pub process_all-IsCovered :
    (ns : List (Run × Notice)) → IsCovered (process_all ns (record { row = none; postings = [] }))
process_all-IsCovered ns =
    all-IsCovered ns (record { row = none; postings = [] }) (unseen, refl, inl refl)
