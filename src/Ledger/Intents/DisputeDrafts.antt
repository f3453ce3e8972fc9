-- ===== src/Ledger/Intents/DisputeDrafts.antt =====
-- The parts of a dispute's amount, and what each outcome's draft posts to an account.
use oss_tips.Base.{
  ℕ, ℤ, pos, ◌+ℤ◌, ◌-ℤ◌, ◌+◌, ltb_ℤ, pos_part, neg_part, nonneg-pos, Bool, true, false, ◌||◌, ◌≡◌,
  refl, ap, int_laws,
}
use oss_tips.Ledger.Intents.Refund.{RefundSplit, split_amount, is_negative_split}
use oss_tips.Ledger.Intents.Dispute.{opened, won, lost, DisputeAccounts, dispute_draft}
use oss_tips.Ledger.Intents.Balances.{delta, net, net-push}

-- A split with no negative part, in natural numbers.
pub record IsNatural (s : RefundSplit) : Type 0 where
  pub project : ℕ
  pub fee : ℕ
  pub tip : ℕ
  pub project_is : s.project_refund ≡ pos project
  pub fee_is : s.fee_refund ≡ pos fee
  pub tip_is : s.tip_refund ≡ pos tip

or-false : (a b : Bool) → (a || b) ≡ false → (a ≡ false) × (b ≡ false)
or-false true b h = absurd (cc)
or-false false b h = (refl, h)

pub split-IsNatural : (s : RefundSplit) → is_negative_split s ≡ false → IsNatural s
split-IsNatural s h =
    let (p, ft) = or-false (ltb_ℤ s.project_refund (pos 0) || ltb_ℤ s.fee_refund (pos 0)) _ h in
    let (p', f') = or-false (ltb_ℤ s.project_refund (pos 0)) _ p in
    let (np, ep) = nonneg-pos s.project_refund p' in
    let (nf, ef) = nonneg-pos s.fee_refund f' in
    let (nt, et) = nonneg-pos s.tip_refund ft in
    record { project = np; fee = nf; tip = nt; project_is = ep; fee_is = ef; tip_is = et }

sum_of_parts :
    (amount platform fee_part : ℤ) (p f t : ℕ)
    → amount -ℤ platform ≡ pos p
    → fee_part ≡ pos f
    → platform -ℤ fee_part ≡ pos t
    → amount ≡ pos (p + f + t)
sum_of_parts amount platform fee_part p f t ep ef et = omega (
  int_laws,
  ap pos_part ep,
  ap neg_part ep,
  ap pos_part ef,
  ap neg_part ef,
  ap pos_part et,
  ap neg_part et,
)

-- The parts of a split make up the amount, whatever the platform's part is.
pub split_sum :
    (charge amount fee tip : ℤ) (n : IsNatural (split_amount charge amount fee tip))
    → amount ≡ pos (n.project + n.fee + n.tip)
unfolding split_amount
split_sum charge amount fee tip n =
    sum_of_parts amount _ _ n.project n.fee n.tip n.project_is n.fee_is n.tip_is

module _ (at : ℕ → ℕ) (ledger : ℕ) (a : DisputeAccounts) (s : RefundSplit) (n : IsNatural s) where
  pub net-opened :
      (id : ℕ) (amount : ℤ)
      → net id (dispute_draft at ledger a opened amount s).transfers
        ≡ delta id a.project_gross a.suspense (pos n.project)
          +ℤ delta id a.platform_fee a.suspense (pos n.fee)
          +ℤ delta id a.platform_tip a.suspense (pos n.tip)
  unfolding dispute_draft net
  net-opened id amount =
      rw (n.project_is, n.fee_is, n.tip_is)
        (rw
          (
            net-push id at ledger _ a.platform_tip a.suspense n.tip _,
            net-push id at ledger _ a.platform_fee a.suspense n.fee _,
            net-push id at ledger _ a.project_gross a.suspense n.project _,
          )
          (omega int_laws))

  pub net-won :
      (id : ℕ) (amount : ℤ)
      → net id (dispute_draft at ledger a won amount s).transfers
        ≡ delta id a.suspense a.project_gross (pos n.project)
          +ℤ delta id a.suspense a.platform_fee (pos n.fee)
          +ℤ delta id a.suspense a.platform_tip (pos n.tip)
  unfolding dispute_draft net
  net-won id amount =
      rw (n.project_is, n.fee_is, n.tip_is)
        (rw
          (
            net-push id at ledger _ a.suspense a.platform_tip n.tip _,
            net-push id at ledger _ a.suspense a.platform_fee n.fee _,
            net-push id at ledger _ a.suspense a.project_gross n.project _,
          )
          (omega int_laws))

pub net-lost :
    (at : ℕ → ℕ) (ledger : ℕ) (a : DisputeAccounts) (s : RefundSplit) (id k : ℕ)
    → net id (dispute_draft at ledger a lost (pos k) s).transfers
      ≡ delta id a.suspense a.project_loss (pos k)
unfolding dispute_draft net
net-lost at ledger a s id k =
    rw (net-push id at ledger _ a.suspense a.project_loss k _) (omega int_laws)
