-- ===== src/Finance/Disputes/Covered.antt =====
-- What holds of a dispute after any notices, whichever calls of their runs fail.
use oss_tips.Base.{
  Bool, true, false, Option, none, some, List, [], ◌∷◌, Result, ok, ◌⊎◌, inl, inr, ◌≡◌, ◌≢◌, ◌∙◌,
  arith, refl, ap,
}
use oss_tips.Ledger.Intents.Dispute.{DisputeOutcome, opened, won, lost}
use oss_tips.Payments.Dispute.{
  DisputeStatus, open_state, won_state, lost_state, other_state, action_after,
}
use oss_tips.Finance.Disputes.{
  Notice, DisputeRow, Books, Run, once, post, reconcile, save_dispute_cursor_and_notify,
  post_and_save, ◌⟫◌,
}
use oss_tips.Finance.Disputes.Phases.{Phase, unseen, is_open, is_won, is_lost, RowAt}
use oss_tips.Finance.Disputes.Moves.{table, Fits, saved, post-by, finish-by}

-- What the ledger may take after the opening: of the two outcomes each once at most, in any order.
pub data Tail : Type 0 where
  neither only_won only_lost won_then_lost lost_then_won : Tail

abbrev pub outcomes : Tail → List DisputeOutcome
outcomes neither = []
outcomes only_won = won ∷ []
outcomes only_lost = lost ∷ []
outcomes won_then_lost = won ∷ lost ∷ []
outcomes lost_then_won = lost ∷ won ∷ []

-- A row that says won or lost needs that outcome.
abbrev pub suffices : Phase → Tail → Bool
suffices is_won neither = false
suffices is_won only_lost = false
suffices is_lost neither = false
suffices is_lost only_won = false
suffices p t = true

abbrev pub HasTail : Phase → List DisputeOutcome → Type 0
HasTail p os = (t : Tail) × (os ≡ opened ∷ outcomes t) × (suffices p t ≡ true)

abbrev pub Covers : Phase → List DisputeOutcome → Type 0
Covers unseen os = (os ≡ []) ⊎ HasTail unseen os
Covers p os = HasTail p os

-- The ledger has taken the opening first and each outcome once at most, and has taken all that the
-- dispute's row says.
abbrev pub IsCovered : Books → Type 0
IsCovered b = (p : Phase) × RowAt p b.row × Covers p b.postings

abbrev append : DisputeOutcome → Tail → Tail
append won neither = only_won
append lost neither = only_lost
append won only_lost = lost_then_won
append lost only_won = won_then_lost
append o t = t

once-append :
    (o : DisputeOutcome) (t : Tail) → once o (opened ∷ outcomes t) ≡ opened ∷ outcomes (append o t)
once-append opened t = refl
once-append won neither = refl
once-append won only_won = refl
once-append won only_lost = refl
once-append won won_then_lost = refl
once-append won lost_then_won = refl
once-append lost neither = refl
once-append lost only_won = refl
once-append lost only_lost = refl
once-append lost won_then_lost = refl
once-append lost lost_then_won = refl

abbrev phase_of : DisputeOutcome → Phase
phase_of opened = is_open
phase_of won = is_won
phase_of lost = is_lost

append-suffices :
    (p : Phase) (o : DisputeOutcome) (t : Tail)
    → suffices p t ≡ true
    → (suffices p (append o t) ≡ true) × (suffices (phase_of o) (append o t) ≡ true)
append-suffices p o t e = ground arith

once-HasTail :
    (p : Phase) (o : DisputeOutcome) (os : List DisputeOutcome)
    → HasTail p os
    → HasTail p (once o os) × HasTail (phase_of o) (once o os)
once-HasTail p o os (t, e, enough) =
    let (still, now) = append-suffices p o t enough in
    let posted : once o os ≡ opened ∷ outcomes (append o t) = ap (once o) e ∙ once-append o t in
    ((append o t, posted, still), (append o t, posted, now))

open-HasTail : (os : List DisputeOutcome) → Covers unseen os → HasTail unseen (once opened os)
open-HasTail os (inl e) = (neither, ap (once opened) e, refl)
open-HasTail os (inr tail) = (once-HasTail unseen opened os tail).0

pub covers : (p : Phase) (os : List DisputeOutcome) → HasTail p os → Covers p os
covers unseen os tail = inr tail
covers is_open os tail = tail
covers is_won os tail = tail
covers is_lost os tail = tail

abbrev pub EndsCovered : Books × Result (Unit {0}) → Type 0
EndsCovered c = IsCovered c.0

module _ (run : Run) (n : Notice) where
  abbrev pub finish : DisputeStatus → Books × Result (Unit {0}) → Books × Result (Unit {0})
  finish status c = c ⟫ save_dispute_cursor_and_notify run n status ⟫ reconcile run

  pub finish-EndsCovered :
      (status : DisputeStatus) (p q : Phase) (row : Option DisputeRow) (os : List DisputeOutcome)
      → Fits n row
      → RowAt p row
      → HasTail p os
      → RowAt q (some (saved n status row))
      → HasTail q os
      → EndsCovered (finish status (table row os, ok tt))
  finish-EndsCovered status p q row os fits at tail moved tail' =
      finish-by EndsCovered run n status row os fits (λ x. (p, at, covers p os tail))
        (λ x. (q, moved, covers q os tail')) (q, moved, covers q os tail')

  post-EndsCovered :
      (status : DisputeStatus) (o : DisputeOutcome) (p : Phase) (row : Option DisputeRow)
      (os : List DisputeOutcome)
      → Fits n row
      → RowAt p row
      → HasTail p os
      → RowAt (phase_of o) (some (saved n status row))
      → EndsCovered (finish status (post run o (table row os)))
  post-EndsCovered status o p row os fits at tail moved =
      let (still, now) = once-HasTail p o os tail in
      post-by (λ c. EndsCovered (finish status c)) run o row os (λ x. (p, at, covers p os tail))
        (λ x. (p, at, covers p (once o os) still))
        (finish-EndsCovered status p (phase_of o) row (once o os) fits at still moved now)

  pub unseen-EndsCovered :
      (status : DisputeStatus) (os : List DisputeOutcome)
      → status ≢ other_state
      → Covers unseen os
      → EndsCovered (post_and_save run n (action_after none status) status (table none os))
  unseen-EndsCovered open_state os known c =
      let tail = open-HasTail os c in
      post-by (λ x. EndsCovered (finish open_state x)) run opened none os (λ x. (unseen, refl, c))
        (λ x. (unseen, refl, inr tail))
        (finish-EndsCovered open_state unseen is_open none (once opened os) tt refl tail
          (_, refl, refl) (tail.0, tail.1, refl))
  unseen-EndsCovered won_state os known c =
      let tail = open-HasTail os c in
      post-by (λ x. EndsCovered (finish won_state (x ⟫ post run won))) run opened none os
        (λ x. (unseen, refl, c)) (λ x. (unseen, refl, inr tail))
        (post-EndsCovered won_state won unseen none (once opened os) tt refl tail (_, refl, refl))
  unseen-EndsCovered lost_state os known c =
      let tail = open-HasTail os c in
      post-by (λ x. EndsCovered (finish lost_state (x ⟫ post run lost))) run opened none os
        (λ x. (unseen, refl, c)) (λ x. (unseen, refl, inr tail))
        (post-EndsCovered lost_state lost unseen none (once opened os) tt refl tail (_, refl, refl))
  unseen-EndsCovered other_state os known c = absurd (known refl)

  pub open-EndsCovered :
      (status : DisputeStatus) (r : DisputeRow) (os : List DisputeOutcome)
      → r.status ≡ "open"
      → status ≢ other_state
      → Fits n (some r)
      → HasTail is_open os
      → EndsCovered (post_and_save run n (action_after none status) status (table (some r) os))
  open-EndsCovered open_state r os e known fits tail =
      post-EndsCovered open_state opened is_open (some r) os fits (r, refl, e) tail
        (_, refl, rw e refl)
  open-EndsCovered won_state r os e known fits tail =
      post-EndsCovered won_state won is_open (some r) os fits (r, refl, e) tail (_, refl, rw e refl)
  open-EndsCovered lost_state r os e known fits tail =
      post-EndsCovered lost_state lost is_open (some r) os fits (r, refl, e) tail
        (_, refl, rw e refl)
  open-EndsCovered other_state r os e known fits tail = absurd (known refl)
