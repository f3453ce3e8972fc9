-- ===== src/Finance/Disputes/Phases.antt =====
-- A dispute, seen from the ledger, is a machine of four phases.
use oss_tips.Base.{String, Option, none, some, List, [], ◌∷◌, Result, ok, err, ◌⊎◌, ◌≡◌, arith}
use oss_tips.Ledger.Intents.Dispute.{DisputeOutcome, opened, won, lost}
use oss_tips.Payments.Dispute.{
  DisputeStatus, open_state, won_state, lost_state, other_state, normalize_status,
}
use oss_tips.Finance.Disputes.{DisputeRow, Books, dispute_state}

pub data Phase : Type 0 where
  unseen is_open is_won is_lost : Phase

-- Only a first notice opens a dispute, and only an open one is won or lost.
abbrev pub advance : Phase → DisputeStatus → Phase
advance is_won status = is_won
advance is_lost status = is_lost
advance phase won_state = is_won
advance phase lost_state = is_lost
advance phase open_state = is_open
advance phase other_state = phase

abbrev pub HasRow : Option DisputeRow → String → Type 0
HasRow row status = (r : DisputeRow) × (row ≡ some r) × (r.status ≡ status)

-- The row of a dispute in a phase has the phase's status.
abbrev pub RowAt : Phase → Option DisputeRow → Type 0
RowAt unseen row = row ≡ none
RowAt is_open row = HasRow row "open"
RowAt is_won row = HasRow row "won"
RowAt is_lost row = HasRow row "lost"

-- The outcomes that lead to a phase.
abbrev pub taken : Phase → List DisputeOutcome
taken unseen = []
taken is_open = opened ∷ []
taken is_won = opened ∷ won ∷ []
taken is_lost = opened ∷ lost ∷ []

-- The books of a dispute in a phase: the ledger has taken exactly the outcomes that lead to it, where a
-- dispute without a row may have been opened in the ledger already.
abbrev pub TakenAt : Phase → List DisputeOutcome → Type 0
TakenAt unseen os = (os ≡ []) ⊎ (os ≡ opened ∷ [])
TakenAt p os = os ≡ taken p

abbrev pub IsAt : Phase → Books → Type 0
IsAt p b = RowAt p b.row × TakenAt p b.postings

-- The books of a dispute on its way between two phases: the row is still that of the first, and the
-- ledger may be at the second already.
abbrev pub IsDuring : Phase → Phase → Books → Type 0
IsDuring p q b = RowAt p b.row × (TakenAt p b.postings ⊎ (b.postings ≡ taken q))

-- The two readings of Stripe's status are one.
pub same_reading : (s : String) → dispute_state s ≡ normalize_status s
unfolding dispute_state normalize_status
same_reading s = ground arith

-- Where a step that may throw leaves a dispute on its way from one phase to another.
abbrev pub EndsAt : Phase → Phase → Books × Result (Unit {0}) → Type 0
EndsAt before after (b, ok done) = IsAt after b
EndsAt before after (b, err e) = IsDuring before after b ⊎ IsAt after b
