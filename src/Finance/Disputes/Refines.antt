-- ===== src/Finance/Disputes/Refines.antt =====
-- The handler of notices implements the machine of phases, and a notice may be handled again.
use oss_tips.Base.{Option, none, some, List, ◌⊎◌, inl, ◌≡◌, ◌≢◌, refl, sym, subst}
use oss_tips.Ledger.Intents.Dispute.{DisputeOutcome}
use oss_tips.Payments.Dispute.{other_state, normalize_status, action_after}
use oss_tips.Finance.Disputes.{
  Notice, DisputeRow, Books, Run, dispute_state, post_and_save, process_dispute,
}
use oss_tips.Finance.Disputes.Phases.{
  Phase, unseen, is_open, is_won, is_lost, advance, RowAt, taken, TakenAt, IsDuring,
}
use oss_tips.Finance.Disputes.Moves.{table, Fits}
use oss_tips.Finance.Disputes.Handled.{Acts, first-by, next-by, previous_of}
use oss_tips.Finance.Disputes.Steps.{
  phase_after, EndsAt, finish-EndsAt, stays, unseen_moves, open_moves,
}

module _ (run : Run) (n : Notice) where
  process_next :
      (r : DisputeRow) (os : List DisputeOutcome) (p : Phase)
      → RowAt p (some r)
      → IsDuring p (phase_after p n (some r)) (table (some r) os)
      → (dispute_state n.status ≢ other_state
          → Fits n (some r)
          → (TakenAt p os ⊎ (os ≡ taken (advance p (dispute_state n.status))))
          → Acts (EndsAt n (some r) p (advance p (dispute_state n.status))) run n (some r) os)
      → EndsAt n (some r) p (phase_after p n (some r)) (process_dispute run n (table (some r) os))
  process_next r os p at during acts =
      next-by (EndsAt n (some r) p (phase_after p n (some r))) run n r os
        (λ x. inl (refl, (at, during.1)))
        (λ old. let here = rw old at during in rw old ((at, stays p os here.1), refl))
        (λ known fits. let on_way = rw fits.1 at during in rw fits.1 (acts known fits on_way.1))

  EndsFrom : Phase → (row : Option DisputeRow) (os : List DisputeOutcome) → Type 0
  EndsFrom p row os =
      IsDuring p (phase_after p n row) (table row os)
      → EndsAt n row p (phase_after p n row) (process_dispute run n (table row os))

  process_first : (os : List DisputeOutcome) → EndsFrom unseen none os
  unfolding EndsFrom
  process_first os during =
      first-by (EndsAt n none unseen (phase_after unseen n none)) run n os (λ x. inl (refl, during))
        (λ known. unseen_moves run n (dispute_state n.status) os known during.1)

  process_open :
      (r : DisputeRow) (os : List DisputeOutcome) → r.status ≡ "open" → EndsFrom is_open (some r) os
  unfolding EndsFrom dispute_state normalize_status
  process_open r os e during =
      process_next r os is_open (r, refl, e) during
        (λ known fits on_way.
          subst
            (λ x. EndsAt n (some r) is_open (advance is_open (dispute_state n.status)) (
              post_and_save run n (action_after x (dispute_state n.status)) (dispute_state n.status)
                (table (some r) os)))
            (sym (previous_of r "open" e))
            (open_moves run n (dispute_state n.status) r os e known fits on_way))

  process_won :
      (r : DisputeRow) (os : List DisputeOutcome) → r.status ≡ "won" → EndsFrom is_won (some r) os
  unfolding EndsFrom dispute_state normalize_status
  process_won r os e during =
      process_next r os is_won (r, refl, e) during
        (λ known fits on_way.
          subst
            (λ x. EndsAt n (some r) is_won is_won (
              post_and_save run n (action_after x (dispute_state n.status)) (dispute_state n.status)
                (table (some r) os)))
            (sym (previous_of r "won" e))
            (finish-EndsAt run n (dispute_state n.status) (some r) is_won is_won fits (r, refl, e)
              (_, refl, rw e refl) os (stays is_won os on_way)))

  process_lost :
      (r : DisputeRow) (os : List DisputeOutcome) → r.status ≡ "lost" → EndsFrom is_lost (some r) os
  unfolding EndsFrom dispute_state normalize_status
  process_lost r os e during =
      process_next r os is_lost (r, refl, e) during
        (λ known fits on_way.
          subst
            (λ x. EndsAt n (some r) is_lost is_lost (
              post_and_save run n (action_after x (dispute_state n.status)) (dispute_state n.status)
                (table (some r) os)))
            (sym (previous_of r "lost" e))
            (finish-EndsAt run n (dispute_state n.status) (some r) is_lost is_lost fits (r, refl, e)
              (_, refl, rw e refl) os (stays is_lost os on_way)))

  of_table :
      (p : Phase) (b : Books) (row : Option DisputeRow)
      → b.row ≡ row
      → EndsFrom p row b.postings
      → EndsFrom p b.row b.postings
  of_table p b row e f = subst (λ x. EndsFrom p x b.postings) (sym e) f

  -- The handler of notices implements the machine of phases, whichever of its calls fail. It finds a
  -- dispute in a phase, or with the row of the phase and the ledger on the way to the phase that the
  -- notice's status leads to, if the notice is the first or newer than the last taken; else the notice
  -- leads nowhere. If the handler returns, the row and the ledger are at the phase that the notice leads
  -- to. If it throws, they are there too, or the row is as it was and the ledger at either phase or on
  -- the way between them. Once there, the notice leads nowhere else when it is handled again.
  pub process_dispute_refines :
      (p : Phase) (b : Books)
      → IsDuring p (phase_after p n b.row) b
      → EndsAt n b.row p (phase_after p n b.row) (process_dispute run n b)
  unfolding EndsFrom
  process_dispute_refines unseen b during =
      of_table unseen b none during.0 (process_first b.postings) during
  process_dispute_refines is_open b ((r, present, status), os) =
      of_table is_open b (some r) present (process_open r b.postings status)
        ((r, present, status), os)
  process_dispute_refines is_won b ((r, present, status), os) =
      of_table is_won b (some r) present (process_won r b.postings status)
        ((r, present, status), os)
  process_dispute_refines is_lost b ((r, present, status), os) =
      of_table is_lost b (some r) present (process_lost r b.postings status)
        ((r, present, status), os)
