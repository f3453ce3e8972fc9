-- ===== src/Finance/Disputes/Handled.antt =====
-- Which notices the handler of disputes acts on.
use oss_tips.Base.{
  eqb_ℤ, String, str_eq, Bool, true, false, Option, none, some, List, Result, ok, err, Bool-cases,
  Result-cases, inl, inr, ◌≡◌, ◌≢◌, sym, ◌∙◌, ap, subst,
}
use oss_tips.Ledger.Intents.Dispute.{DisputeOutcome}
use oss_tips.Payments.Dispute.{
  DisputeStatus, other_state, DisputeCorrection, normalize_status, action_after, previous_state,
  compute_dispute_correction, is_dispute_event,
}
use oss_tips.Domain.Money.{Numeric, bigint}
use oss_tips.Payments.Validation.{validate_identifier, normalize_currency, minor_units}
use oss_tips.Payments.WebhookEvents.{is_stripe_event_newer}
use oss_tips.Finance.Disputes.{
  Notice, DisputeRow, Books, Run, reconcile, known_status, dispute_state, incoming, cursor,
  previous_status, post_and_save, correction_of, process_dispute, is_other,
}
use oss_tips.Finance.Disputes.Phases.{same_reading}
use oss_tips.Finance.Disputes.Moves.{table, Fits}

compute-action :
    (type status id : String) (amount : Numeric) (currency : String) (previous : Option String)
    (c : DisputeCorrection)
    → compute_dispute_correction type status id amount currency previous ≡ ok c
    → c.action ≡ action_after (previous_state previous) (normalize_status status)
unfolding compute_dispute_correction
compute-action type status id amount currency previous c e =
    elim (Bool-cases (is_dispute_event type)) [
      | inr t ↦ absurd (let e' = rw t at e in cc)
      | inl t ↦ elim (Result-cases (validate_identifier id "Dispute id" "dp_")) [
        | inr (x, invalid) ↦ absurd (let e' = rw (t, invalid) at e in cc)
        | inl (v, valid) ↦ elim (Result-cases (normalize_currency currency)) [
          | inr (x, unknown) ↦ absurd (let e' = rw (t, valid, unknown) at e in cc)
          | inl (code, known) ↦ elim (Result-cases (minor_units amount "Dispute amount" false)) [
            | inr (x, bad) ↦ absurd (let e' = rw (t, valid, known, bad) at e in cc)
            | inl (n, good) ↦ let e' = rw (t, valid, known, good) at e in cc
          ]
        ]
      ]
    ]

-- The action that a correction asks for.
correction-action :
    (n : Notice) (row : Option DisputeRow) (c : DisputeCorrection)
    → correction_of n row ≡ ok c
    → c.action ≡ action_after (previous_state (previous_status row)) (dispute_state n.status)
correction-action n row c e =
    compute-action n.event_type n.status n.stripe_dispute_id (bigint n.amount_minor) n.currency
      (previous_status row) c e
    ∙ sym (ap (action_after (previous_state (previous_status row))) (same_reading n.status))

not_other : (status : DisputeStatus) → is_other status ≡ false → status ≢ other_state
not_other status e f = absurd (let g = rw f at e in cc)

-- A notice is taken that is the first, or newer than the last.
abbrev pub is_taken : Notice → Option DisputeRow → Bool
is_taken n none = true
is_taken n (some r) = is_stripe_event_newer (incoming n) (some (cursor r))

-- The status that is known of a row, by the text in it.
pub previous_of :
    (r : DisputeRow) (status : String)
    → r.status ≡ status
    → previous_state (previous_status (some r))
      ≡ previous_state (known_status (dispute_state status))
previous_of r status e = ap (λ x. previous_state (known_status (dispute_state x))) e

-- A run that is to reconcile may fail.
reconcile-by :
    (R : Books × Result (Unit {0}) → Type 0) (run : Run) (b : Books)
    → ((e : String) → R (b, err e))
    → R (b, ok tt)
    → R (reconcile run b)
reconcile-by R run b fails done = elim (Bool-cases run.reconciles) [
  | inr t ↦ rw t (fails _)
  | inl t ↦ rw t done
]

-- What holds of a refusal of unchanged books, of unchanged books after an old notice, and of the calls
-- that a newer notice leads to, holds of what the handler returns.
module _ (R : Books × Result (Unit {0}) → Type 0) (run : Run) (n : Notice) where
  -- The calls for a notice, where `row` is what was read.
  abbrev pub Acts : Option DisputeRow → List DisputeOutcome → Type 0
  Acts row os = R (
      post_and_save run n
        (action_after (previous_state (previous_status row)) (dispute_state n.status))
        (dispute_state n.status) (table row os))

  corrected :
      (row : Option DisputeRow) (os : List DisputeOutcome) (c : DisputeCorrection)
      → correction_of n row ≡ ok c
      → Acts row os
      → R (post_and_save run n c.action (dispute_state n.status) (table row os))
  corrected row os c good acts =
      subst (λ a. R (post_and_save run n a (dispute_state n.status) (table row os)))
        (sym (correction-action n row c good)) acts

  pub first-by :
      (os : List DisputeOutcome)
      → ((e : String) → R (table none os, err e))
      → (dispute_state n.status ≢ other_state → Acts none os)
      → R (process_dispute run n (table none os))
  unfolding process_dispute
  first-by os refused acts = elim (Bool-cases (is_other (dispute_state n.status))) [
    | inl strange ↦ rw strange (refused _)
    | inr known ↦ elim (Result-cases (correction_of n none)) [
      | inr (e, bad) ↦ rw (known, bad) (refused _)
      | inl (c, good) ↦
          rw (known, good)
            (corrected none os c good (acts (not_other (dispute_state n.status) known)))
    ]
  ]

  pub next-by :
      (r : DisputeRow) (os : List DisputeOutcome)
      → ((e : String) → R (table (some r) os, err e))
      → (is_taken n (some r) ≡ false → R (table (some r) os, ok tt))
      → (dispute_state n.status ≢ other_state → Fits n (some r) → Acts (some r) os)
      → R (process_dispute run n (table (some r) os))
  unfolding process_dispute
  next-by r os refused stale acts = elim (Bool-cases (is_other (dispute_state n.status))) [
    | inl strange ↦ rw strange (refused _)
    | inr known ↦ elim (Bool-cases (str_eq r.payment_id n.payment_id)) [
      | inr stranger ↦ rw (known, stranger) (refused _)
      | inl paid ↦ elim (Bool-cases (is_stripe_event_newer (incoming n) (some (cursor r)))) [
        | inr old ↦
            rw (known, paid, old) (reconcile-by R run (table (some r) os) refused (stale old))
        | inl new ↦ elim (Bool-cases (eqb_ℤ r.amount_minor n.amount_minor)) [
          | inr differs ↦ rw (known, paid, new, differs) (refused _)
          | inl same_sum ↦ elim (Result-cases (correction_of n (some r))) [
            | inr (e, bad) ↦ rw (known, paid, new, same_sum, bad) (refused _)
            | inl (c, good) ↦
                rw (known, paid, new, same_sum, good)
                  (corrected (some r) os c good
                    (acts (not_other (dispute_state n.status) known) (paid, new)))
          ]
        ]
      ]
    ]
  ]
