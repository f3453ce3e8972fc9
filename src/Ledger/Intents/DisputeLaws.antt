-- ===== src/Ledger/Intents/DisputeLaws.antt =====
-- What the three outcomes of a dispute post, one after the other.
use oss_tips.Base.{
  ℕ, pos, ◌+ℤ◌, ◌-ℤ◌, ◌+◌, String, List, ◌≡◌, refl, sym, subst, ◌∙◌, ap, Result, ok, ◌>>◌, throw_if,
  leb_ℤ, ltb_ℤ, eqb_ℤ, not, any, ◌&&◌, throw_if-eq-ok, ok-injective, >>=-eq-ok, to_lower,
}
use oss_tips.Domain.Money.{bigint}
use oss_tips.Ledger.Codes.{ledger_for_currency}
use oss_tips.Ledger.Ids.{transfer_id}
use oss_tips.Ledger.Intents.{PostingIntent, Draft, as_minor, version, link_transfers}
use oss_tips.Ledger.Intents.Refund.{
  or_value, RefundSplit, split_amount, is_negative_split, is_empty,
}
use oss_tips.Ledger.Intents.Dispute.{
  DisputeIntentInput, DisputeOutcome, opened, won, lost, DisputeAmounts, is_given,
  allocation_fields, dispute_amounts, dispute_draft, dispute_accounts, dispute_intent, dispute_kind,
  build_dispute_intent,
}
use oss_tips.Ledger.Intents.Balances.{net, net-link}
use oss_tips.Ledger.Intents.DisputeDrafts.{IsNatural, split-IsNatural, split_sum}
use oss_tips.Ledger.Intents.DisputeSums.{IsApart, opened_then_won, opened_at_suspense, lost_at}

module _ (sha256 : String → List ℕ) where
  -- What a successful call returns.
  record Built (input : DisputeIntentInput) (i : PostingIntent) : Type 0 where
    at : ℕ → ℕ
    ledger : ℕ
    amounts : DisputeAmounts
    checked : dispute_amounts input ≡ ok amounts
    natural : IsNatural (
        split_amount amounts.original_charge amounts.amount amounts.original_platform_fee
          amounts.original_platform_tip)
    posts :
        (id : ℕ)
        → net id i.transfers
          ≡ net id
              (dispute_draft at ledger
                (dispute_accounts sha256 input)
                input.outcome
                amounts.amount
                (split_amount amounts.original_charge amounts.amount amounts.original_platform_fee
                  amounts.original_platform_tip)).transfers

  abbrev split_of : DisputeAmounts → RefundSplit
  split_of m =
      split_amount m.original_charge m.amount m.original_platform_fee m.original_platform_tip

  abbrev draft_of : DisputeIntentInput → ℕ → ℕ → DisputeAmounts → Draft
  draft_of input v l m =
      dispute_draft
        (transfer_id sha256 input.stripe_account_id input.stripe_event_id
          (dispute_kind input.outcome) v)
        l (dispute_accounts sha256 input) input.outcome m.amount (split_of m)

  -- The builder once its amounts are checked.
  abbrev after_checks : DisputeIntentInput → ℕ → ℕ → DisputeAmounts → Result PostingIntent
  after_checks input v l m = do
    throw_if (is_negative_split (split_of m)) "dispute allocation is negative"
    throw_if (is_empty (draft_of input v l m).transfers) "dispute produced no ledger transfers"
    ok (dispute_intent sha256 input m v (link_transfers (draft_of input v l m).transfers))

  intent-Built :
      (input : DisputeIntentInput) (i : PostingIntent) (v l : ℕ) (m : DisputeAmounts)
      → dispute_amounts input ≡ ok m
      → after_checks input v l m ≡ ok i
      → Built input i
  unfolding dispute_intent
  intent-Built input i v l m em h =
      let (t₁, h₁) = throw_if-eq-ok (is_negative_split (split_of m)) _ _ h in
      let (t₂, h₂) = throw_if-eq-ok (is_empty (draft_of input v l m).transfers) _ _ h₁ in
      let e = ok-injective _ i h₂ in
      record {
        at =
            transfer_id sha256 input.stripe_account_id input.stripe_event_id
              (dispute_kind input.outcome) v;
        ledger = l;
        amounts = m;
        checked = em;
        natural = split-IsNatural (split_of m) t₁;
        posts = λ id.
            subst (λ z. net id z.transfers ≡ net id (draft_of input v l m).transfers) e
              (net-link id (draft_of input v l m).transfers);
      }

  dispute_inversion :
      (input : DisputeIntentInput) (i : PostingIntent)
      → build_dispute_intent sha256 input ≡ ok i
      → Built input i
  unfolding build_dispute_intent
  dispute_inversion input i h =
      let (v, ev, h₁) = >>=-eq-ok (version input.posting_version) _ h in
      let (l, el, h₂) = >>=-eq-ok (ledger_for_currency (to_lower input.currency)) _ h₁ in
      let (m, em, h₃) = >>=-eq-ok (dispute_amounts input) _ h₂ in intent-Built input i v l m em h₃

  -- The amount that is checked is the one of the input.
  amount_is :
      (input : DisputeIntentInput) (m : DisputeAmounts)
      → dispute_amounts input ≡ ok m
      → as_minor input.amount_minor "dispute amount" ≡ ok m.amount
  unfolding dispute_amounts
  amount_is input m h =
      let (a, ea, h₁) = >>=-eq-ok (as_minor input.amount_minor "dispute amount") _ h in
      let (_, h₂) = throw_if-eq-ok (leb_ℤ a (pos 0)) _ _ h₁ in
      let (_, h₃) =
        throw_if-eq-ok
          (any is_given (allocation_fields input)
            && any (λ f. not (is_given f)) (allocation_fields input))
          _ _ h₂ in
      let (charge, _, h₄) =
        >>=-eq-ok
          (as_minor (or_value input.original_customer_charge_minor (bigint a))
            "original customer charge")
          _ h₃ in
      let (share, _, h₅) =
        >>=-eq-ok
          (as_minor (or_value input.original_project_share_minor (bigint charge))
            "original project share")
          _ h₄ in
      let (fee, _, h₆) =
        >>=-eq-ok
          (as_minor (or_value input.original_platform_fee_minor (bigint (pos 0)))
            "original platform fee")
          _ h₅ in
      let (tip, _, h₇) =
        >>=-eq-ok
          (as_minor (or_value input.original_platform_tip_minor (bigint (pos 0)))
            "original platform tip")
          _ h₆ in
      let (_, h₈) = throw_if-eq-ok (leb_ℤ charge (pos 0)) _ _ h₇ in
      let (_, h₉) = throw_if-eq-ok (ltb_ℤ charge a) _ _ h₈ in
      let (_, h₁₀) = throw_if-eq-ok (not (eqb_ℤ (share +ℤ fee +ℤ tip) charge)) _ _ h₉ in
      ea ∙ ap ok (ap (λ z. z.amount) (ok-injective _ m h₁₀))

  -- The same dispute, reported by another event with another outcome.
  abbrev pub reported : DisputeIntentInput → String → DisputeOutcome → DisputeIntentInput
  reported input event outcome = record input { stripe_event_id = event; outcome = outcome }

  same_amounts :
      (input : DisputeIntentInput) (e f : String) (o p : DisputeOutcome)
      → dispute_amounts (reported input e o) ≡ dispute_amounts (reported input f p)
  unfolding dispute_amounts
  same_amounts input e f o p = refl

  same_accounts :
      (input : DisputeIntentInput) (e f : String) (o p : DisputeOutcome)
      → dispute_accounts sha256 (reported input e o) ≡ dispute_accounts sha256 (reported input f p)
  unfolding dispute_accounts
  same_accounts input e f o p = refl

  -- A dispute that is won takes back, on every account, exactly what its opening posted, whatever
  -- the ids of the accounts and the events that reported it.
  pub dispute_won_reverses :
      (input : DisputeIntentInput) (e f : String) (i j : PostingIntent)
      → build_dispute_intent sha256 (reported input e opened) ≡ ok i
      → build_dispute_intent sha256 (reported input f won) ≡ ok j
      → (id : ℕ) → net id i.transfers +ℤ net id j.transfers ≡ pos 0
  dispute_won_reverses input e f i j hi hj id =
      let b = dispute_inversion (reported input e opened) i hi in
      let c = dispute_inversion (reported input f won) j hj in
      let m : b.amounts ≡ c.amounts =
        ok-injective _ _ (sym b.checked ∙ same_amounts input e f opened won ∙ c.checked) in
      rw (b.posts id, c.posts id)
        (opened_then_won b.at c.at b.ledger c.ledger id _ _ _ _ b.amounts.amount c.amounts.amount
          b.natural c.natural (same_accounts input e f opened won) (ap split_of m))

  -- What a dispute that is lost posts, if the suspense account's id differs from the others': its
  -- opening puts the disputed amount, which is a natural number, into suspense; its loss takes that
  -- amount out of suspense again and puts it on the account of the project's losses.
  pub dispute_lost_settles :
      (input : DisputeIntentInput) (e f : String) (i j : PostingIntent)
      → build_dispute_intent sha256 (reported input e opened) ≡ ok i
      → build_dispute_intent sha256 (reported input f lost) ≡ ok j
      → IsApart (dispute_accounts sha256 input)
      → let accounts = dispute_accounts sha256 input in
        (amount : ℕ) × (as_minor input.amount_minor "dispute amount" ≡ ok (pos amount))
        × (net accounts.suspense i.transfers ≡ pos amount)
        × (net accounts.suspense j.transfers ≡ pos 0 -ℤ pos amount)
        × (net accounts.project_loss j.transfers ≡ pos amount)
  unfolding dispute_accounts
  dispute_lost_settles input e f i j hi hj apart =
      let b = dispute_inversion (reported input e opened) i hi in
      let c = dispute_inversion (reported input f lost) j hj in
      let m : b.amounts ≡ c.amounts =
        ok-injective _ _ (sym b.checked ∙ same_amounts input e f opened lost ∙ c.checked) in
      let n = b.natural in
      let opening = split_sum _ b.amounts.amount _ _ n in
      let amount : c.amounts.amount ≡ pos (n.project + n.fee + n.tip) =
        ap (λ z. z.amount) (sym m) ∙ opening in
      let accounts = dispute_accounts sha256 input in
      let (out, loss) =
        lost_at c.at c.ledger accounts (split_of c.amounts) c.amounts.amount
          (n.project + n.fee + n.tip) amount apart in
      (
        n.project + n.fee + n.tip,
        amount_is (reported input e opened) b.amounts b.checked ∙ ap ok opening,
        b.posts _ ∙ opened_at_suspense b.at b.ledger accounts _ b.amounts.amount n apart,
        c.posts _ ∙ out,
        c.posts _ ∙ loss,
      )
