-- ===== src/Ledger/Intents/RefundLaws.antt =====
-- What a refund posts to each account.
use native.Mathlib.Decide.{dec_lt}
use oss_tips.Base.{
  ℕ, ℤ, pos, ◌+ℤ◌, ◌-ℤ◌, ◌+◌, ◌≤ℤ◌, ◌++◌, to_lower, ◌<◌, leb, leb_ℤ, pos-+ℤ, String, List, [], ◌∷◌,
  false, Bool-cases, inl, inr, ◌≡◌, ◌≢◌, refl, sym, ◌∙◌, ap, arith, int_laws, ok,
}
use oss_tips.Ledger.Codes.{ledger_for_currency}
use oss_tips.Ledger.Ids.{transfer_id}
use oss_tips.Ledger.Intents.{LedgerTransfer, PostingIntent, Draft, push, version, link_transfers}
use oss_tips.Ledger.Intents.Refund.{
  OneOffRefundInput, RefundAccounts, RefundAmounts, RefundSplit, refund_amounts, split_amount,
  refund_draft, is_empty, refund_accounts, refund_intent, build_one_off_refund_intent,
  one_off_refund,
}
use oss_tips.Ledger.Intents.Balances.{delta, net, net-push, net-link}
use oss_tips.Ledger.Intents.RefundChecks.{IsChecked, refund_amounts-IsChecked}
use oss_tips.Ledger.Intents.RefundSplits.{IsSplit, checked-IsSplit, split-nonneg}

net-refund_draft :
    (id : ℕ) (at : ℕ → ℕ) (ledger : ℕ) (a : RefundAccounts) (s : RefundSplit)
    (charge amount fee tip : ℕ) (i : IsSplit s charge amount fee tip)
    → net id (refund_draft at ledger a s).transfers
      ≡ delta id a.project_gross a.clearing (pos i.project_part)
        +ℤ delta id a.platform_fee a.clearing (pos i.fee_part)
        +ℤ delta id a.platform_tip a.clearing (pos i.tip_part)
unfolding refund_draft net
net-refund_draft id at ledger a s charge amount fee tip i =
    rw (i.project, i.fee_share, i.tip_share)
      (rw
        (
          net-push id at ledger _ a.platform_tip a.clearing i.tip_part _,
          net-push id at ledger _ a.platform_fee a.clearing i.fee_part _,
          net-push id at ledger _ a.project_gross a.clearing i.project_part _,
        )
        (omega int_laws))

append_non_empty : (ts : List LedgerTransfer) (t : LedgerTransfer) → is_empty (ts ++ t ∷ []) ≡ false
append_non_empty [] t = refl
append_non_empty (u ∷ ts) t = refl

push_keeps :
    (at : ℕ → ℕ) (ledger code debit credit : ℕ) (amount : ℤ) (d : Draft)
    → is_empty d.transfers ≡ false
    → is_empty (push at ledger code debit credit amount d).transfers ≡ false
unfolding push
push_keeps at ledger code debit credit amount d h = elim (Bool-cases (leb_ℤ amount (pos 0))) [
  | inl skipped ↦ rw skipped h
  | inr pushed ↦ rw pushed (append_non_empty d.transfers _)
]

pub push_makes :
    (at : ℕ → ℕ) (ledger code debit credit n : ℕ) (d : Draft)
    → 0 < n
    → is_empty (push at ledger code debit credit (pos n) d).transfers ≡ false
unfolding push
push_makes at ledger code debit credit n d h =
    let pushed : leb n 0 ≡ false = ground arith in rw pushed (append_non_empty d.transfers _)

-- A positive amount is split into parts of which one is positive, so a transfer is made.
refund_draft_non_empty :
    (at : ℕ → ℕ) (ledger : ℕ) (a : RefundAccounts) (s : RefundSplit) (charge amount fee tip : ℕ)
    → IsSplit s charge amount fee tip
    → 0 < amount
    → is_empty (refund_draft at ledger a s).transfers ≡ false
unfolding refund_draft
refund_draft_non_empty at ledger a s charge amount fee tip i h =
    rw (i.project, i.fee_share, i.tip_share)
      (elim (dec_lt 0 i.tip_part) [
        | yes p ↦ push_makes at ledger _ a.platform_tip a.clearing i.tip_part _ p
        | no p ↦ push_keeps at ledger _ a.platform_tip a.clearing _ _ (elim (dec_lt 0 i.fee_part) [
          | yes q ↦ push_makes at ledger _ a.platform_fee a.clearing i.fee_part _ q
          | no q ↦
              push_keeps at ledger _ a.platform_fee a.clearing _ _
                (push_makes at ledger _ a.project_gross a.clearing i.project_part _ (omega arith))
        ])
      ])

-- The ids of the four accounts are distinct: SHA-256 gives no two of them the same.
pub record AreDistinct (a : RefundAccounts) : Type 0 where
  pub clearing_gross : a.clearing ≢ a.project_gross
  pub clearing_fee : a.clearing ≢ a.platform_fee
  pub clearing_tip : a.clearing ≢ a.platform_tip
  pub gross_fee : a.project_gross ≢ a.platform_fee
  pub gross_tip : a.project_gross ≢ a.platform_tip
  pub fee_tip : a.platform_fee ≢ a.platform_tip

-- The change of each account by a refund.
pub record Returned (ts : List LedgerTransfer) (a : RefundAccounts) (project fee tip : ℕ)
    : Type 0 where
  pub clearing : net a.clearing ts ≡ pos (project + fee + tip)
  pub project_gross : net a.project_gross ts ≡ pos 0 -ℤ pos project
  pub platform_fee : net a.platform_fee ts ≡ pos 0 -ℤ pos fee
  pub platform_tip : net a.platform_tip ts ≡ pos 0 -ℤ pos tip

refund_draft-Returned :
    (at : ℕ → ℕ) (ledger : ℕ) (a : RefundAccounts) (s : RefundSplit) (charge amount fee tip : ℕ)
    (i : IsSplit s charge amount fee tip)
    → AreDistinct a
    → Returned (refund_draft at ledger a s).transfers a i.project_part i.fee_part i.tip_part
refund_draft-Returned at ledger a s charge amount fee tip i h =
    let at_account = λ (id : ℕ). net-refund_draft id at ledger a s charge amount fee tip i in
    record {
      clearing = at_account a.clearing ∙ grind int_laws;
      project_gross = at_account a.project_gross ∙ grind int_laws;
      platform_fee = at_account a.platform_fee ∙ grind int_laws;
      platform_tip = at_account a.platform_tip ∙ grind int_laws;
    }

Returned-of_net :
    (ts us : List LedgerTransfer) (a : RefundAccounts) (project fee tip : ℕ)
    → ((id : ℕ) → net id ts ≡ net id us)
    → Returned us a project fee tip
    → Returned ts a project fee tip
Returned-of_net ts us a project fee tip same r = record {
  clearing = same a.clearing ∙ r.clearing;
  project_gross = same a.project_gross ∙ r.project_gross;
  platform_fee = same a.platform_fee ∙ r.platform_fee;
  platform_tip = same a.platform_tip ∙ r.platform_tip;
}

most_returned :
    (m : RefundAmounts) (c : IsChecked m) (s : RefundSplit)
    (i : IsSplit s c.charge c.amount c.fee c.tip)
    → pos (i.fee_part + i.tip_part) ≤ℤ m.original_platform_fee +ℤ m.original_platform_tip
most_returned m c s i = rw (c.fee_is, c.tip_is, pos-+ℤ c.fee c.tip) (omega (arith, i.at_most))

pos-injective : (a b : ℕ) → pos a ≡ pos b → a ≡ b
pos-injective a b h = cc

all_returned :
    (m : RefundAmounts) (c : IsChecked m) (s : RefundSplit)
    (i : IsSplit s c.charge c.amount c.fee c.tip)
    → m.refund_amount ≡ m.original_charge
    → (m.original_project_share ≡ pos i.project_part)
      × (m.original_platform_fee ≡ pos i.fee_part)
      × (m.original_platform_tip ≡ pos i.tip_part)
all_returned m c s i e =
    let whole : c.amount ≡ c.charge = pos-injective _ _ (sym c.amount_is ∙ e ∙ c.charge_is) in
    let fee = i.all_fee whole in
    let tip = i.all_tip whole in
    let share : c.share ≡ i.project_part = omega arith in
    (c.share_is ∙ ap pos share, c.fee_is ∙ ap pos (sym fee), c.tip_is ∙ ap pos (sym tip))

module _ (sha256 : String → List ℕ) where
  -- The draft of a refund whose amounts are known.
  abbrev pub drafted : OneOffRefundInput → ℕ → ℕ → RefundAmounts → Draft
  drafted input v l m =
      refund_draft
        (transfer_id sha256 input.stripe_account_id input.stripe_event_id one_off_refund v) l
        (refund_accounts sha256 input)
        (split_amount m.original_charge m.refund_amount m.original_platform_fee
          m.original_platform_tip)

  -- Once the version, the currency and the amounts of a refund pass their checks, and if the four
  -- account ids are distinct, the call returns an intent: neither the test for a negative part nor the
  -- one for an empty list can fail. The intent moves exactly the refunded amount back to clearing,
  -- in parts taken from the project, the platform's fee and the tip; the platform's parts are no more
  -- than the original fee and tip together; and a refund of the whole charge takes back exactly the
  -- original share, fee and tip.
  pub refund_returns :
      (input : OneOffRefundInput) (v l : ℕ) (m : RefundAmounts)
      → version input.posting_version ≡ ok v
      → ledger_for_currency (to_lower input.currency) ≡ ok l
      → refund_amounts input ≡ ok m
      → AreDistinct (refund_accounts sha256 input)
      → (i : PostingIntent) × (build_one_off_refund_intent sha256 input ≡ ok i)
        × ((project : ℕ) × (fee : ℕ) × (tip : ℕ) × (m.refund_amount ≡ pos (project + fee + tip))
            × (pos (fee + tip) ≤ℤ m.original_platform_fee +ℤ m.original_platform_tip)
            × (m.refund_amount ≡ m.original_charge
                → (m.original_project_share ≡ pos project)
                  × (m.original_platform_fee ≡ pos fee)
                  × (m.original_platform_tip ≡ pos tip))
            × Returned i.transfers (refund_accounts sha256 input) project fee tip)
  unfolding build_one_off_refund_intent refund_intent
  refund_returns input v l m ev el em distinct =
      let c = refund_amounts-IsChecked input m em in
      let s = checked-IsSplit m c in
      let a = refund_accounts sha256 input in
      let d = drafted input v l m in
      (
        refund_intent sha256 input m v (link_transfers d.transfers),
        rw
            (
              ev,
              el,
              em,
              split-nonneg _ c.charge c.amount c.fee c.tip s,
              refund_draft_non_empty _ l a _ c.charge c.amount c.fee c.tip s c.amount_positive,
            )
            refl,
        (
          s.project_part,
          s.fee_part,
          s.tip_part,
          c.amount_is ∙ ap pos (sym s.whole),
          most_returned m c _ s,
          all_returned m c _ s,
          Returned-of_net _ d.transfers a _ _ _ (λ id. net-link id d.transfers)
              (refund_draft-Returned _ l a _ c.charge c.amount c.fee c.tip s distinct),
        ),
      )
