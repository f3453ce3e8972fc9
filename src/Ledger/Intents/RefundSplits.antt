-- ===== src/Ledger/Intents/RefundSplits.antt =====
-- How an amount of a charge is split into parts of the project, the fee and the tip.
use native.Mathlib.Nat.{mul-add-div, div-eq_of_lt}
use oss_tips.Base.{
  ℕ, pos, ◌+ℤ◌, ◌*ℤ◌, ◌/ℤ◌, ◌+◌, ◌-◌, ◌*◌, ◌/◌, ◌≤◌, ◌<◌, leb, ltb-zero, pos-+ℤ, pos--ℤ, false,
  ◌||◌, Bool-cases, inl, inr, if◌then◌else◌, ◌≡◌, sym, subst, arith,
}
use oss_tips.Domain.Fees.{proportional_platform_refund}
use oss_tips.Domain.Fees.Refunds.{
  platform_refund, proportional_platform_refund-pos, platform_refund-le_fee,
  platform_refund-le_refund, rounded-le,
}
use oss_tips.Ledger.Intents.{proportional_part}
use oss_tips.Ledger.Intents.Refund.{RefundAmounts, RefundSplit, split_amount, is_negative_split}
use oss_tips.Ledger.Intents.RefundChecks.{IsChecked}

-- `proportional_part` over the natural numbers.
abbrev part : ℕ → ℕ → ℕ → ℕ
part total original amount =
    if leb total 0 || leb amount 0
    then 0
    else if leb original amount
    then total
    else (total * amount + original / 2) / original

proportional_part-pos :
    (total original amount : ℕ)
    → proportional_part (pos total) (pos original) (pos amount) ≡ pos (part total original amount)
unfolding proportional_part ◌+ℤ◌ ◌*ℤ◌ ◌/ℤ◌
proportional_part-pos total original amount = ground arith

part-le : (total original amount : ℕ) → part total original amount ≤ total
part-le total original amount = elim (Bool-cases (leb original amount)) [
  | inl all ↦ ground arith
  | inr some_part ↦
      let lt : amount < original = ground arith in
      let m : total * amount ≤ original * total = grind arith in
      ground (arith, rounded-le (total * amount) original total (omega arith) m)
]

-- The part of a whole total is the amount itself.
part_self : (n amount : ℕ) → amount ≤ n → part n n amount ≡ amount
part_self n amount le = elim (Bool-cases (leb n amount)) [
  | inl all ↦ ground arith
  | inr some_part ↦
      let lt : amount < n = ground arith in
      let e : (n * amount + n / 2) / n ≡ amount + n / 2 / n =
        mul-add-div (omega arith) amount (n / 2) in
      let z : n / 2 / n ≡ 0 = div-eq_of_lt (omega arith) in ground arith
]

-- A split of an amount of a charge: three natural numbers that make up the amount.
pub record IsSplit (s : RefundSplit) (charge amount fee tip : ℕ) : Type 0 where
  pub project_part : ℕ
  pub fee_part : ℕ
  pub tip_part : ℕ
  pub project : s.project_refund ≡ pos project_part
  pub fee_share : s.fee_refund ≡ pos fee_part
  pub tip_share : s.tip_refund ≡ pos tip_part
  pub whole : project_part + fee_part + tip_part ≡ amount
  pub at_most : fee_part + tip_part ≤ fee + tip
  pub all_fee : amount ≡ charge → fee_part ≡ fee
  pub all_tip : amount ≡ charge → tip_part ≡ tip

pub split_amount-IsSplit :
    (charge amount fee tip : ℕ)
    → fee + tip ≤ charge
    → amount ≤ charge
    → 0 < charge
    → IsSplit (split_amount (pos charge) (pos amount) (pos fee) (pos tip)) charge amount fee tip
unfolding split_amount
split_amount-IsSplit o r f t balanced within h =
    let pr = platform_refund o r (f + t) in
    let le_fee = platform_refund-le_fee o r (f + t) in
    let le_amount = platform_refund-le_refund o r (f + t) balanced within in
    let le_part = part-le pr (f + t) f in
    let platform : proportional_platform_refund (record {
      original_customer_charge_minor = pos o;
      refund_customer_charge_minor = pos r;
      original_application_fee_minor = pos f +ℤ pos t;
    })
        ≡ pos pr =
      rw (pos-+ℤ f t) (proportional_platform_refund-pos o r (f + t)) in
    let feed : proportional_part (pos pr) (pos f +ℤ pos t) (pos f) ≡ pos (part pr (f + t) f) =
      rw (pos-+ℤ f t) (proportional_part-pos pr (f + t) f) in
    let whole_fee = λ (e : r ≡ o). all_refunded o r (f + t) h e in
    record {
      project_part = r - pr;
      fee_part = part pr (f + t) f;
      tip_part = pr - part pr (f + t) f;
      project = rw platform (pos--ℤ r pr le_amount);
      fee_share = rw platform feed;
      tip_share = rw (platform, feed) (pos--ℤ pr _ le_part);
      whole = omega arith;
      at_most = omega arith;
      all_fee = λ e. rw (whole_fee e) (part_self (f + t) f (omega arith));
      all_tip = λ e. rw (whole_fee e, part_self (f + t) f (omega arith)) (omega arith);
    }
  where
    all_refunded : (o r n : ℕ) → 0 < o → r ≡ o → platform_refund o r n ≡ n
    all_refunded o r n h e = ground arith

-- The split of a checked refund.
pub checked-IsSplit :
    (m : RefundAmounts) (c : IsChecked m)
    → IsSplit
        (split_amount m.original_charge m.refund_amount m.original_platform_fee
          m.original_platform_tip)
        c.charge
        c.amount
        c.fee
        c.tip
checked-IsSplit m c =
    subst (λ s. IsSplit s c.charge c.amount c.fee c.tip)
      (λ k. split_amount (sym c.charge_is k) (sym c.amount_is k) (sym c.fee_is k) (sym c.tip_is k))
      (split_amount-IsSplit c.charge c.amount c.fee c.tip (c_fees c) c.amount_within (c_charge c))
  where
    c_fees : (c : IsChecked m) → c.fee + c.tip ≤ c.charge
    c_fees c = omega arith

    c_charge : (c : IsChecked m) → 0 < c.charge
    c_charge c = omega arith

pub split-nonneg :
    (s : RefundSplit) (charge amount fee tip : ℕ)
    → IsSplit s charge amount fee tip
    → is_negative_split s ≡ false
split-nonneg s charge amount fee tip i =
    rw (i.project, i.fee_share, i.tip_share)
      (rw (ltb-zero i.project_part, ltb-zero i.fee_part, ltb-zero i.tip_part))
