-- ===== src/Finance/Disputes/Steps.antt =====
-- Where the calls for a notice leave a dispute of a phase, whichever of them fail.
use oss_tips.Base.{
  Option, none, some, List, [], ◌∷◌, Result, ok, err, if◌then◌else◌, ◌⊎◌, inl, inr, ◌≡◌, ◌≢◌, refl,
  sym, subst,
}
use oss_tips.Ledger.Intents.Dispute.{DisputeOutcome, opened, won, lost}
use oss_tips.Payments.Dispute.{
  DisputeStatus, open_state, won_state, lost_state, other_state, action_after,
}
use oss_tips.Payments.WebhookEvents.Order.{newer_irreflexive}
use oss_tips.Finance.Disputes.{
  Notice, DisputeRow, Books, Run, once, post, reconcile, dispute_state, incoming,
  save_dispute_cursor_and_notify, post_and_save, ◌⟫◌,
}
use oss_tips.Finance.Disputes.Phases.{
  Phase, unseen, is_open, is_won, is_lost, advance, RowAt, taken, TakenAt, IsAt, IsDuring,
}
use oss_tips.Finance.Disputes.Moves.{table, Fits, saved, post-by, finish-by}
use oss_tips.Finance.Disputes.Handled.{is_taken}

-- The phase that a notice leads to.
abbrev pub phase_after : Phase → Notice → Option DisputeRow → Phase
phase_after p n row = if is_taken n row then advance p (dispute_state n.status) else p

-- The notice has led the dispute to the phase, and leads it nowhere else when it is handled again.
abbrev pub HasReached : Notice → Phase → Books → Type 0
HasReached n q b = IsAt q b × (phase_after q n b.row ≡ q)

-- Where a run of the handler leaves a dispute, of which it found the row, on its way between two phases.
abbrev pub EndsAt : Notice → Option DisputeRow → Phase → Phase → Books × Result (Unit {0}) → Type 0
EndsAt n row p q (b, ok done) = HasReached n q b
EndsAt n row p q (b, err e) = ((b.row ≡ row) × IsDuring p q b) ⊎ HasReached n q b

taken-TakenAt : (q : Phase) → TakenAt q (taken q)
taken-TakenAt unseen = inl refl
taken-TakenAt is_open = refl
taken-TakenAt is_won = refl
taken-TakenAt is_lost = refl

-- A row that a notice has moved is taken by no repeat of the notice.
saved_again :
    (n : Notice) (status : DisputeStatus) (row : Option DisputeRow) (q : Phase)
    → phase_after q n (some (saved n status row)) ≡ q
saved_again n status none q = rw (newer_irreflexive (incoming n)) refl
saved_again n status (some r) q = rw (newer_irreflexive (incoming n)) refl

module _ (run : Run) (n : Notice) (status : DisputeStatus) (row : Option DisputeRow) (p q : Phase)
    (fits : Fits n row) (at : RowAt p row) (moved : RowAt q (some (saved n status row))) where
  -- The row is saved when the ledger is at the second phase.
  pub finish-EndsAt :
      (os : List DisputeOutcome)
      → os ≡ taken q
      → EndsAt n row p q
          (save_dispute_cursor_and_notify run n status (table row os) ⟫ reconcile run)
  finish-EndsAt os e =
      let reached : HasReached n q (table (some (saved n status row)) os) =
        ((moved, subst (TakenAt q) (sym e) (taken-TakenAt q)), saved_again n status row q) in
      finish-by (EndsAt n row p q) run n status row os fits (λ x. inl (refl, (at, inr e)))
        (λ x. inr reached) reached

  -- The outcome that takes the ledger to the second phase is posted, and then the row is saved.
  post-EndsAt :
      (o : DisputeOutcome) (os : List DisputeOutcome)
      → (TakenAt p os ⊎ (os ≡ taken q))
      → once o os ≡ taken q
      → EndsAt n row p q
          (post run o (table row os) ⟫ save_dispute_cursor_and_notify run n status ⟫ reconcile run)
  post-EndsAt o os during e =
      post-by
        (λ x. EndsAt n row p q (x ⟫ save_dispute_cursor_and_notify run n status ⟫ reconcile run))
        run o row os (λ x. inl (refl, (at, during))) (λ x. inl (refl, (at, inr e)))
        (finish-EndsAt _ e)

-- A posting that was made already, or is the last that a phase lacks.
once_opened :
    (os : List DisputeOutcome)
    → (TakenAt unseen os ⊎ (os ≡ opened ∷ []))
    → once opened os ≡ opened ∷ []
once_opened os (inl (inl e)) = rw e refl
once_opened os (inl (inr e)) = rw e refl
once_opened os (inr e) = rw e refl

once_more :
    (o : DisputeOutcome) (os us : List DisputeOutcome)
    → once o (opened ∷ []) ≡ us
    → once o us ≡ us
    → ((os ≡ opened ∷ []) ⊎ (os ≡ us))
    → once o os ≡ us
once_more o os us e f (inl g) = rw g e
once_more o os us e f (inr g) = rw g f

after_opening :
    (os us : List DisputeOutcome)
    → once opened us ≡ us
    → (TakenAt unseen os ⊎ (os ≡ us))
    → (once opened os ≡ opened ∷ []) ⊎ (once opened os ≡ us)
after_opening os us f (inl (inl e)) = inl (rw e refl)
after_opening os us f (inl (inr e)) = inl (rw e refl)
after_opening os us f (inr e) = inr (rw e f)

-- On the way from a phase to itself is at the phase.
pub stays : (p : Phase) (os : List DisputeOutcome) → (TakenAt p os ⊎ (os ≡ taken p)) → TakenAt p os
stays p os (inl here) = here
stays p os (inr e) = subst (TakenAt p) (sym e) (taken-TakenAt p)

module _ (run : Run) (n : Notice) where
  -- A dispute without a row is opened in the ledger, then won or lost there, and then its row is saved.
  terminal_moves :
      (status : DisputeStatus) (q : Phase) (o : DisputeOutcome) (os : List DisputeOutcome)
      → RowAt q (some (saved n status none))
      → once opened (taken q) ≡ taken q
      → once o (opened ∷ []) ≡ taken q
      → once o (taken q) ≡ taken q
      → (TakenAt unseen os ⊎ (os ≡ taken q))
      → EndsAt n none unseen q (
          post run opened (table none os)
          ⟫ post run o
          ⟫ save_dispute_cursor_and_notify run n status
          ⟫ reconcile run)
  terminal_moves status q o os moved e f g during =
      let opening = after_opening os (taken q) e during in
      let on_way : TakenAt unseen (once opened os) ⊎ (once opened os ≡ taken q) = elim opening [
        | inl x ↦ inl (inr x)
        | inr x ↦ inr x
      ] in
      post-by
        (λ x.
          EndsAt n none unseen q
            (x ⟫ post run o ⟫ save_dispute_cursor_and_notify run n status ⟫ reconcile run))
        run opened none os (λ x. inl (refl, (refl, during))) (λ x. inl (refl, (refl, on_way)))
        (post-EndsAt run n status none unseen q tt refl moved o (once opened os) on_way
          (once_more o _ _ f g opening))

  pub unseen_moves :
      (status : DisputeStatus) (os : List DisputeOutcome)
      → status ≢ other_state
      → (TakenAt unseen os ⊎ (os ≡ taken (advance unseen status)))
      → EndsAt n none unseen
          (advance unseen status)
          (post_and_save run n (action_after none status) status (table none os))
  unseen_moves open_state os known during =
      post-EndsAt run n open_state none unseen is_open tt refl (_, refl, refl) opened os during
        (once_opened os during)
  unseen_moves won_state os known during =
      terminal_moves won_state is_won won os (_, refl, refl) refl refl refl during
  unseen_moves lost_state os known during =
      terminal_moves lost_state is_lost lost os (_, refl, refl) refl refl refl during
  unseen_moves other_state os known during = absurd (known refl)

  pub open_moves :
      (status : DisputeStatus) (r : DisputeRow) (os : List DisputeOutcome)
      → r.status ≡ "open"
      → status ≢ other_state
      → Fits n (some r)
      → (TakenAt is_open os ⊎ (os ≡ taken (advance is_open status)))
      → EndsAt n
          (some r)
          is_open
          (advance is_open status)
          (post_and_save run n (action_after none status) status (table (some r) os))
  open_moves open_state r os e known fits during =
      post-EndsAt run n open_state (some r) is_open is_open fits (r, refl, e) (_, refl, rw e refl)
        opened os during (once_more opened _ _ refl refl during)
  open_moves won_state r os e known fits during =
      post-EndsAt run n won_state (some r) is_open is_won fits (r, refl, e) (_, refl, rw e refl) won
        os during (once_more won _ _ refl refl during)
  open_moves lost_state r os e known fits during =
      post-EndsAt run n lost_state (some r) is_open is_lost fits (r, refl, e) (_, refl, rw e refl)
        lost os during (once_more lost _ _ refl refl during)
  open_moves other_state r os e known fits during = absurd (known refl)
