-- ===== src/Domain/Fees/Refunds.antt =====
-- The part of the platform's fee that a refund of the customer's charge returns.
use oss_tips.Base.{
  ℕ, pos, ◌+◌, ◌*◌, ◌/◌, ◌≤◌, ◌<◌, ◌≤ℤ◌, ◌+ℤ◌, ◌*ℤ◌, ◌/ℤ◌, ◌≡◌, arith, leb, if◌then◌else◌,
}
use native.Mathlib.Decide.{dec_lt}
use native.Mathlib.Nat.{
  div-lt_iff_lt-mul, le-div_iff_mul-le, div-mul-le_self, le_trans, mul_comm, mod-lt, div-add-mod,
}
use oss_tips.Domain.Fees.{RefundArgs, proportional_platform_refund}

-- The same over the natural numbers: `original`, `refund`, `fee`.
abbrev pub platform_refund : ℕ → ℕ → ℕ → ℕ
platform_refund o r f = if leb o 0 then 0 else if leb o r then f else (f * r + o / 2) / o

pub proportional_platform_refund-pos :
    (o r f : ℕ)
    → proportional_platform_refund (record {
      original_customer_charge_minor = pos o;
      refund_customer_charge_minor = pos r;
      original_application_fee_minor = pos f;
    })
      ≡ pos (platform_refund o r f)
unfolding proportional_platform_refund ◌+ℤ◌ ◌*ℤ◌ ◌/ℤ◌
proportional_platform_refund-pos o r f = ground arith

pub rounded-le : (a o k : ℕ) → 0 < o → a ≤ o * k → (a + o / 2) / o ≤ k
rounded-le a o k h le =
    let lt : (a + o / 2) / o < k + 1 = (div-lt_iff_lt-mul h).1 (omega arith) in omega arith

div-le_mono : (a b o : ℕ) → 0 < o → a ≤ b → a / o ≤ b / o
div-le_mono a b o h le = (le-div_iff_mul-le h).1 (le_trans (div-mul-le_self a o) le)

-- Never more than the fee.
pub platform_refund-le_fee : (o r f : ℕ) → platform_refund o r f ≤ f
platform_refund-le_fee o r f = elim (dec_lt r o) [
  | yes p ↦
      let m : f * r ≤ o * f = grind arith in ground (arith, rounded-le (f * r) o f (omega arith) m)
  | no p ↦ ground arith
]

-- Never more than the refund, if the fee is no more than the charge.
pub platform_refund-le_refund : (o r f : ℕ) → f ≤ o → r ≤ o → platform_refund o r f ≤ r
platform_refund-le_refund o r f h k = elim (dec_lt r o) [
  | yes p ↦
      let m : f * r ≤ o * r = grind arith in ground (arith, rounded-le (f * r) o r (omega arith) m)
  | no p ↦ ground arith
]

pub platform_refund_mono : (o r s f : ℕ) → r ≤ s → platform_refund o r f ≤ platform_refund o s f
platform_refund_mono o r s f h = elim (dec_lt s o) [
  | yes p ↦
      let m : f * r ≤ f * s = grind arith in
      let d : (f * r + o / 2) / o ≤ (f * s + o / 2) / o =
        div-le_mono (f * r + o / 2) (f * s + o / 2) o (omega arith) (omega arith) in
      ground arith
  | no p ↦ ground (arith, platform_refund-le_fee o r f)
]

-- Between nothing and everything, the exact share of the refund is rounded to the nearest unit.
nearest :
    (a o : ℕ)
    → 0 < o
    → let q = (a + o / 2) / o in (2 * (o * q) ≤ 2 * a + o) × (2 * a < 2 * (o * q) + o + 1)
nearest a o h = let m = mod-lt (a + o / 2) h in let d = div-add-mod (a + o / 2) o in omega arith

abbrev pub refund_args : ℕ → ℕ → ℕ → RefundArgs
refund_args o r f = record {
  original_customer_charge_minor = pos o;
  refund_customer_charge_minor = pos r;
  original_application_fee_minor = pos f;
}

platform_refund_nearest :
    (o r f : ℕ)
    → 0 < o
    → r ≤ o
    → let n = platform_refund o r f in
      (2 * (o * n) ≤ 2 * (f * r) + o) × (2 * (f * r) ≤ 2 * (o * n) + o)
platform_refund_nearest o r f h le = elim (dec_lt r o) [
  | yes p ↦ let (lo, hi) = nearest (f * r) o h in ground arith
  | no p ↦ let e : r ≡ o = omega arith in rw e (let c = mul_comm f o in ground arith)
]

-- For an application fee that is at most the charge and a refund that is at most the charge, the
-- platform's part of the refund is a natural number, at most the fee and at most the refund; a
-- refund of the whole positive charge returns the whole fee; and below that the part differs from
-- the exact share, fee * refund / charge, by at most half a minor unit.
pub proportional_platform_refund_bounds :
    (o r f : ℕ)
    → 0 < o
    → f ≤ o
    → r ≤ o
    → (n : ℕ) × (proportional_platform_refund (refund_args o r f) ≡ pos n)
      × (n ≤ f)
      × (n ≤ r)
      × (r ≡ o → n ≡ f)
      × (2 * (o * n) ≤ 2 * (f * r) + o)
      × (2 * (f * r) ≤ 2 * (o * n) + o)
proportional_platform_refund_bounds o r f h le lr =
    let (lo, hi) = platform_refund_nearest o r f h lr in
    (
      platform_refund o r f,
      proportional_platform_refund-pos o r f,
      platform_refund-le_fee o r f,
      platform_refund-le_refund o r f le lr,
      λ e. ground arith,
      lo,
      hi,
    )

-- A larger refund of the same charge returns no less of the fee.
pub proportional_platform_refund_mono :
    (o r s f : ℕ)
    → r ≤ s
    → proportional_platform_refund (refund_args o r f)
      ≤ℤ proportional_platform_refund (refund_args o s f)
proportional_platform_refund_mono o r s f h =
    rw (proportional_platform_refund-pos, proportional_platform_refund-pos)
      (let m = platform_refund_mono o r s f h in omega arith)
