-- ===== src/Ledger/Intents/RefundChecks.antt =====
-- What the checks of a refund establish, and that the code behind them cannot fail.
use oss_tips.Base.{
  ℕ, ℤ, pos, ◌+ℤ◌, ◌-ℤ◌, ◌+◌, ◌≤◌, ◌<◌, leb, ltb, leb_ℤ, ltb_ℤ, eqb_ℤ, pos-+ℤ, nonneg-pos, String,
  false, not, ◌==◌, ◌≡◌, sym, ◌∙◌, ap, arith, Result, ok, ◌>>◌, throw_if, throw_if-eq-ok,
  ok-injective, >>=-eq-ok,
}
use oss_tips.Domain.Money.{Numeric, bigint}
use oss_tips.Ledger.Intents.{as_minor, safe_or_bigint}
use oss_tips.Ledger.Intents.Refund.{OneOffRefundInput, RefundAmounts, refund_amounts, or_value}

-- `asMinor` returns a natural number.
pub as_minor-nonneg :
    (v : Numeric) (label : String) {z : ℤ} → as_minor v label ≡ ok z → (n : ℕ) × (z ≡ pos n)
unfolding as_minor
as_minor-nonneg v label {z} h =
    let (a, ea, h₁) = >>=-eq-ok (safe_or_bigint v label) _ h in
    let (above, e) = throw_if-eq-ok (ltb_ℤ a (pos 0)) _ (ok a) h₁ in
    let (n, en) = nonneg-pos a above in (n, sym (ok-injective _ _ e) ∙ en)

-- The amounts of a refund that passes the checks.
pub record IsChecked (m : RefundAmounts) : Type 0 where
  pub charge : ℕ
  pub amount : ℕ
  pub share : ℕ
  pub fee : ℕ
  pub tip : ℕ
  pub charge_is : m.original_charge ≡ pos charge
  pub amount_is : m.refund_amount ≡ pos amount
  pub share_is : m.original_project_share ≡ pos share
  pub fee_is : m.original_platform_fee ≡ pos fee
  pub tip_is : m.original_platform_tip ≡ pos tip
  pub amount_positive : 0 < amount
  pub amount_within : amount ≤ charge
  pub adds_up : share + fee + tip ≡ charge

-- The checks behind the conversions.
abbrev checks : (charge refunded share fee tip amount : ℤ) → Result RefundAmounts
checks charge refunded share fee tip amount = do
  throw_if (leb_ℤ charge (pos 0)) "original customer charge must be positive"
  throw_if (leb_ℤ refunded (pos 0)) "refund amount must be positive"
  throw_if (ltb_ℤ charge refunded) "refund amount exceeds original charge"
  throw_if (not (eqb_ℤ (share +ℤ fee +ℤ tip) charge))
      "original allocation does not balance to customer charge"
  throw_if (not (eqb_ℤ (amount -ℤ fee) share))
      "original project amount does not match project allocation"
  ok (record {
    original_charge = charge;
    refund_amount = refunded;
    original_project_share = share;
    original_platform_fee = fee;
    original_platform_tip = tip;
    original_project_amount = amount;
  })

sum_test : (s f t o : ℕ) → not (eqb_ℤ (pos s +ℤ pos f +ℤ pos t) (pos o)) ≡ false → s + f + t ≡ o
sum_test s f t o h =
    let h' : not ((s + f + t) == o) ≡ false = rw (pos-+ℤ s f, pos-+ℤ (s + f) t) at h in ground arith

checks-IsChecked :
    (o r s f t : ℕ) (amount : ℤ) (m : RefundAmounts)
    → checks (pos o) (pos r) (pos s) (pos f) (pos t) amount ≡ ok m
    → IsChecked m
checks-IsChecked o r s f t amount m h =
    let (t₁, h₁) = throw_if-eq-ok (leb o 0) _ _ h in
    let (t₂, h₂) = throw_if-eq-ok (leb r 0) _ _ h₁ in
    let (t₃, h₃) = throw_if-eq-ok (ltb o r) _ _ h₂ in
    let (t₄, h₄) = throw_if-eq-ok (not (eqb_ℤ (pos s +ℤ pos f +ℤ pos t) (pos o))) _ _ h₃ in
    let (t₅, h₅) = throw_if-eq-ok (not (eqb_ℤ (amount -ℤ pos f) (pos s))) _ _ h₄ in
    let e = ok-injective _ _ h₅ in
    record {
      charge = o;
      amount = r;
      share = s;
      fee = f;
      tip = t;
      charge_is = ap (λ z. z.original_charge) (sym e);
      amount_is = ap (λ z. z.refund_amount) (sym e);
      share_is = ap (λ z. z.original_project_share) (sym e);
      fee_is = ap (λ z. z.original_platform_fee) (sym e);
      tip_is = ap (λ z. z.original_platform_tip) (sym e);
      amount_positive = ground arith;
      amount_within = ground arith;
      adds_up = sum_test s f t o t₄;
    }

checks_of_pos :
    {o r s f t : ℤ} (o' r' s' f' t' : ℕ) (a : ℤ) (m : RefundAmounts)
    → o ≡ pos o'
    → r ≡ pos r'
    → s ≡ pos s'
    → f ≡ pos f'
    → t ≡ pos t'
    → checks o r s f t a ≡ ok m
    → IsChecked m
checks_of_pos o' r' s' f' t' a m eo er es ef et h =
    checks-IsChecked o' r' s' f' t' a m
      ((λ k. checks (sym eo k) (sym er k) (sym es k) (sym ef k) (sym et k) a) ∙ h)

pub refund_amounts-IsChecked :
    (input : OneOffRefundInput) (m : RefundAmounts) → refund_amounts input ≡ ok m → IsChecked m
unfolding refund_amounts
refund_amounts-IsChecked input m h =
    let (o, eo, h₁) = >>=-eq-ok (as_minor input.original_customer_charge_minor _) _ h in
    let (r, er, h₂) = >>=-eq-ok (as_minor input.refund_customer_charge_minor _) _ h₁ in
    let (s, es, h₃) = >>=-eq-ok (as_minor input.original_project_share_minor _) _ h₂ in
    let (f, ef, h₄) = >>=-eq-ok (as_minor input.original_platform_fee_minor _) _ h₃ in
    let (t, et, h₅) = >>=-eq-ok (as_minor input.original_platform_tip_minor _) _ h₄ in
    let (a, ea, h₆) =
      >>=-eq-ok (as_minor (or_value input.original_project_amount_minor (bigint (s +ℤ f))) _) _
        h₅ in
    let (o', oo) = as_minor-nonneg _ _ eo in
    let (r', rr) = as_minor-nonneg _ _ er in
    let (s', ss) = as_minor-nonneg _ _ es in
    let (f', ff) = as_minor-nonneg _ _ ef in
    let (t', tt') = as_minor-nonneg _ _ et in checks_of_pos o' r' s' f' t' a m oo rr ss ff tt' h₆
