-- ===== src/Domain/Fees/Allocation.antt =====
-- The allocation of a charge between the project and the platform.
use oss_tips.Base.{
  ℕ, ℤ, pos, negsuc, ◌+◌, ◌*◌, ◌/◌, ◌≤◌, ◌+ℤ◌, ◌≡◌, refl, Result, ok, err, ltb-zero, arith, ltb_ℤ,
  pos-+ℤ, pos--ℤ, ◌-◌, ◌*ℤ◌, ◌/ℤ◌, ◌<◌, ◌>>◌, throw_if, ◌||◌, ok-injective, ◌>>=◌,
}
use oss_tips.Domain.Money.{to_bigint, money, money_of, round_percent_of}
use oss_tips.Domain.Fees.{
  FeatureMode, Cadence, FeeAllocation, fee_rate_bps, ComputeFeeInput, allocate,
  compute_fee_allocation,
}

pub round_percent_of-pos : (a r : ℕ) → round_percent_of (pos a) r ≡ pos ((a * r + 5000) / 10000)
unfolding round_percent_of ◌+ℤ◌ ◌*ℤ◌ ◌/ℤ◌
round_percent_of-pos a r = ground arith

-- The rate is one of three.
fee_rate_bps-le : (m : FeatureMode) (c : Cadence) → fee_rate_bps m c ≤ 500
unfolding fee_rate_bps
fee_rate_bps-le m c = ground arith

fee-le : (a r : ℕ) → r ≤ 500 → (a * r + 5000) / 10000 ≤ a
fee-le a r h = let m : a * r ≤ a * 500 = grind arith in omega arith

-- The body of `compute_fee_allocation`, over the two conversions.
abbrev allocate_both : ComputeFeeInput → Result ℤ → Result ℤ → Result FeeAllocation
allocate_both input x y = do
  project_amount ← (do n ← x; ok (money_of n input.currency))
  platform_tip ← (do n ← y; ok (money_of n input.currency))
  throw_if (ltb_ℤ project_amount.amount_minor (pos 0) || ltb_ℤ platform_tip.amount_minor (pos 0))
      "Amounts must be non-negative"
  ok (allocate project_amount platform_tip input)

abbrev Inverted : ComputeFeeInput → FeeAllocation → Result ℤ → Result ℤ → Type 0
Inverted input a x y =
    (p : ℕ) × (t : ℕ) × (x ≡ ok (pos p))
    × (y ≡ ok (pos t))
    × (allocate (money_of (pos p) input.currency) (money_of (pos t) input.currency) input ≡ a)

invert_both :
    (input : ComputeFeeInput) (a : FeeAllocation) (x y : Result ℤ)
    → allocate_both input x y ≡ ok a
    → Inverted input a x y
unfolding money_of
invert_both input a (ok (pos p)) (ok (pos t)) h =
    (p, t, refl, refl, ok-injective _ _ (rw (ltb-zero p, ltb-zero t) at h))
invert_both input a (ok (pos p)) (ok (negsuc t)) h = let h' = rw (ltb-zero p) at h in absurd (cc)
invert_both input a (ok (negsuc p)) (ok y) h = absurd (cc)
invert_both input a (ok x) (err e) h = absurd (cc)
invert_both input a (err e) y h = absurd (cc)

-- What a successful call was given, and what it returns.
pub compute_inversion :
    (input : ComputeFeeInput) (a : FeeAllocation)
    → compute_fee_allocation input ≡ ok a
    → Inverted input a (to_bigint input.project_amount_minor) (to_bigint input.platform_tip_minor)
unfolding compute_fee_allocation money
compute_inversion input a h = invert_both input a _ _ h

-- The parts of an allocation of two natural amounts.
pub record Balanced (a : FeeAllocation) (p t : ℕ) : Type 0 where
  pub share : ℕ
  pub fee : ℕ
  pub share_add_fee : share + fee ≡ p
  pub fee_rounds_down : 10000 * fee ≤ p * a.project_fee_rate_bps + 5000
  pub fee_rounds_up : p * a.project_fee_rate_bps < 10000 * fee + 5000
  pub charge : a.customer_charge.amount_minor ≡ pos (p + t)
  pub oss_fee : a.oss_project_fee.amount_minor ≡ pos fee
  pub application_fee : a.stripe_application_fee.amount_minor ≡ pos (fee + t)
  pub before_stripe : a.project_before_stripe.amount_minor ≡ pos share
  pub project : a.project_amount.amount_minor ≡ pos p
  pub tip : a.platform_tip.amount_minor ≡ pos t

pub allocate-Balanced :
    (input : ComputeFeeInput) (p t : ℕ)
    → Balanced
        (allocate (money_of (pos p) input.currency) (money_of (pos t) input.currency) input)
        p
        t
unfolding allocate money_of
allocate-Balanced input p t =
    let r = fee_rate_bps input.feature_mode input.cadence in
    let f = (p * r + 5000) / 10000 in
    let small = fee-le p r (fee_rate_bps-le input.feature_mode input.cadence) in
    record {
      share = p - f;
      fee = f;
      share_add_fee = omega arith;
      fee_rounds_down = omega arith;
      fee_rounds_up = omega arith;
      charge = pos-+ℤ p t;
      oss_fee = round_percent_of-pos p r;
      application_fee = rw (round_percent_of-pos p r) (pos-+ℤ f t);
      before_stripe = rw (round_percent_of-pos p r) (pos--ℤ p f small);
      project = refl;
      tip = refl;
    }

-- A successful allocation: both amounts are natural numbers, the project's share and the
-- application fee make up the customer's charge, which is the project amount and the tip; the
-- application fee is the project fee and the tip; and the project fee is the project amount times
-- the rate in basis points, rounded to the nearest minor unit with halves up.
pub compute_fee_allocation_balances :
    (input : ComputeFeeInput) (a : FeeAllocation)
    → compute_fee_allocation input ≡ ok a
    → (p : ℕ) × (t : ℕ) × (to_bigint input.project_amount_minor ≡ ok (pos p))
      × (to_bigint input.platform_tip_minor ≡ ok (pos t))
      × Balanced a p t
compute_fee_allocation_balances input a h =
    let (p, t, ep, et, e) = compute_inversion input a h in
    (p, t, ep, et, rw e at (allocate-Balanced input p t))

-- The call succeeds when both amounts are integers that are not negative, with the allocation of
-- these amounts.
pub compute_fee_allocation_ok :
    (input : ComputeFeeInput) (p t : ℕ)
    → to_bigint input.project_amount_minor ≡ ok (pos p)
    → to_bigint input.platform_tip_minor ≡ ok (pos t)
    → compute_fee_allocation input
      ≡ ok (allocate (money_of (pos p) input.currency) (money_of (pos t) input.currency) input)
unfolding compute_fee_allocation money money_of
compute_fee_allocation_ok input p t ep et = rw (ep, et, ltb-zero p, ltb-zero t)
