-- ===== src/Finance/Disputes/Retries.antt =====
-- A notice whose handling failed is handled again.
use oss_tips.Base.{
  Option, List, [], ◌∷◌, Result, ok, err, ◌⊎◌, inl, inr, ◌≡◌, refl, sym, ◌∙◌, ap, subst,
}
use oss_tips.Finance.Disputes.{Notice, DisputeRow, Books, Run, process_dispute}
use oss_tips.Finance.Disputes.Phases.{Phase, IsAt, IsDuring}
use oss_tips.Finance.Disputes.Steps.{phase_after, HasReached, EndsAt, stays}
use oss_tips.Finance.Disputes.Refines.{process_dispute_refines}

-- The books after some runs for one notice.
unfoldable pub attempts : List Run → Notice → Books → Books
unfolding process_dispute
attempts [] n b = b
attempts (run ∷ runs) n b = attempts runs n (process_dispute run n b).0

-- The notice still leads the dispute from one phase to the other, or has done so.
abbrev Leads : Notice → Phase → Phase → Books → Type 0
Leads n p q b = (IsDuring p q b × (phase_after p n b.row ≡ q)) ⊎ HasReached n q b

EndsAt-Leads :
    (n : Notice) (row : Option DisputeRow) (p q : Phase) (c : Books × Result (Unit {0}))
    → phase_after p n row ≡ q
    → EndsAt n row p q c
    → Leads n p q c.0
EndsAt-Leads n row p q (b, ok done) e reached = inr reached
EndsAt-Leads n row p q (b, err x) e (inl (same, during)) =
    inl (during, ap (phase_after p n) same ∙ e)
EndsAt-Leads n row p q (b, err x) e (inr reached) = inr reached

Leads-here : (n : Notice) (p q : Phase) (b : Books) → Leads n q q b → Leads n p q b
Leads-here n p q b (inl ((row, os), e)) = inr ((row, stays q b.postings os), e)
Leads-here n p q b (inr reached) = inr reached

-- One run for a notice that leads to a phase.
run-EndsAt :
    (run : Run) (n : Notice) (p q : Phase) (b : Books)
    → IsDuring p q b
    → phase_after p n b.row ≡ q
    → EndsAt n b.row p q (process_dispute run n b)
run-EndsAt run n p q b during e =
    subst (λ z. EndsAt n b.row p z (process_dispute run n b)) e
      (process_dispute_refines run n p b (subst (λ z. IsDuring p z b) (sym e) during))

run-Leads :
    (run : Run) (n : Notice) (p q : Phase) (b : Books)
    → Leads n p q b
    → Leads n p q (process_dispute run n b).0
run-Leads run n p q b (inl (during, e)) =
    EndsAt-Leads n b.row p q (process_dispute run n b) e (run-EndsAt run n p q b during e)
run-Leads run n p q b (inr ((row, os), e)) =
    Leads-here n p q (process_dispute run n b).0 (
      EndsAt-Leads n b.row q q (process_dispute run n b) e (run-EndsAt run n q q b (row, inl os) e))

attempts-Leads :
    (runs : List Run) (n : Notice) (p q : Phase) (b : Books)
    → Leads n p q b
    → Leads n p q (attempts runs n b)
unfolding attempts
attempts-Leads [] n p q b leads = leads
attempts-Leads (run ∷ runs) n p q b leads =
    attempts-Leads runs n p q (process_dispute run n b).0 (run-Leads run n p q b leads)

returned-IsAt :
    (n : Notice) (row : Option DisputeRow) (p q : Phase) (c : Books × Result (Unit {0}))
    → c.1 ≡ ok tt
    → EndsAt n row p q c
    → IsAt q c.0
returned-IsAt n row p q (b, ok done) e reached = reached.0
returned-IsAt n row p q (b, err x) e ends = absurd (cc)

run-IsAt :
    (run : Run) (n : Notice) (p q : Phase) (b : Books)
    → Leads n p q b
    → (process_dispute run n b).1 ≡ ok tt
    → IsAt q (process_dispute run n b).0
run-IsAt run n p q b (inl (during, e)) returns =
    returned-IsAt n b.row p q (process_dispute run n b) returns (run-EndsAt run n p q b during e)
run-IsAt run n p q b (inr ((row, os), e)) returns =
    returned-IsAt n b.row q q (process_dispute run n b) returns
      (run-EndsAt run n q q b (row, inl os) e)

-- A notice about a dispute in a phase that is handled again and again, whichever calls of each run fail,
-- takes the dispute to the phase that it led to at first, row and ledger, when a run returns at last.
-- The ledger has then taken each outcome that leads to the phase once.
pub retries_reach :
    (runs : List Run) (run : Run) (n : Notice) (p : Phase) (b : Books)
    → IsAt p b
    → (process_dispute run n (attempts runs n b)).1 ≡ ok tt
    → IsAt (phase_after p n b.row) (process_dispute run n (attempts runs n b)).0
retries_reach runs run n p b (row, os) returns =
    run-IsAt run n p (phase_after p n b.row) (attempts runs n b)
      (attempts-Leads runs n p (phase_after p n b.row) b (inl ((row, inl os), refl))) returns
