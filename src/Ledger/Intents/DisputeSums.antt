-- ===== src/Ledger/Intents/DisputeSums.antt =====
-- What the postings of two outcomes of a dispute come to.
use oss_tips.Base.{
  ℕ, ℤ, pos, ◌+ℤ◌, ◌-ℤ◌, ◌+◌, ◌==◌, pos_part, neg_part, Bool, true, false, if◌then◌else◌, ◌≡◌, ◌≢◌,
  sym, ◌∙◌, ap, int_laws,
}
use oss_tips.Ledger.Intents.Refund.{RefundSplit}
use oss_tips.Ledger.Intents.Dispute.{opened, won, lost, DisputeAccounts, dispute_draft}
use oss_tips.Ledger.Intents.Balances.{delta, net}
use oss_tips.Ledger.Intents.DisputeDrafts.{IsNatural, net-opened, net-won, net-lost}

delta_reverse : (id d c : ℕ) (x : ℤ) → delta id d c x +ℤ delta id c d x ≡ pos 0
delta_reverse id d c x = by_tests (c == id) (d == id)
  where
    by_tests :
        (u v : Bool)
        → ((if u then x else pos 0) -ℤ (if v then x else pos 0))
            +ℤ ((if v then x else pos 0) -ℤ (if u then x else pos 0))
          ≡ pos 0
    by_tests true true = omega int_laws
    by_tests true false = omega int_laws
    by_tests false true = omega int_laws
    by_tests false false = omega int_laws

-- Three movements and their reverses.
deltas_cancel :
    (id : ℕ) (a : DisputeAccounts) (p f t : ℤ)
    → (delta id a.project_gross a.suspense p
          +ℤ delta id a.platform_fee a.suspense f
          +ℤ delta id a.platform_tip a.suspense t)
        +ℤ (delta id a.suspense a.project_gross p
            +ℤ delta id a.suspense a.platform_fee f
            +ℤ delta id a.suspense a.platform_tip t)
      ≡ pos 0
deltas_cancel id a p f t =
    regroup _ _ _ _ _ _ (delta_reverse id a.project_gross a.suspense p)
      (delta_reverse id a.platform_fee a.suspense f) (delta_reverse id a.platform_tip a.suspense t)
  where
    regroup :
        (x y z u v w : ℤ)
        → x +ℤ u ≡ pos 0
        → y +ℤ v ≡ pos 0
        → z +ℤ w ≡ pos 0
        → (x +ℤ y +ℤ z) +ℤ (u +ℤ v +ℤ w) ≡ pos 0
    regroup x y z u v w ex ey ez = omega (
      int_laws,
      ap pos_part ex,
      ap neg_part ex,
      ap pos_part ey,
      ap neg_part ey,
      ap pos_part ez,
      ap neg_part ez,
    )

pub opened_then_won :
    (at at' : ℕ → ℕ) (l l' id : ℕ) (a b : DisputeAccounts) (s r : RefundSplit) (x y : ℤ)
    → IsNatural s
    → IsNatural r
    → a ≡ b
    → s ≡ r
    → net id (dispute_draft at l a opened x s).transfers
        +ℤ net id (dispute_draft at' l' b won y r).transfers
      ≡ pos 0
opened_then_won at at' l l' id a b s r x y n k ea es =
    let p : pos n.project ≡ pos k.project =
      sym n.project_is ∙ ap (λ z. z.project_refund) es ∙ k.project_is in
    let f : pos n.fee ≡ pos k.fee = sym n.fee_is ∙ ap (λ z. z.fee_refund) es ∙ k.fee_is in
    let t : pos n.tip ≡ pos k.tip = sym n.tip_is ∙ ap (λ z. z.tip_refund) es ∙ k.tip_is in
    rw (net-opened at l a s n id x, net-won at' l' b r k id y, p, f, t, ea)
      (deltas_cancel id b (pos k.project) (pos k.fee) (pos k.tip))

-- The suspense account stands apart from the others that a dispute posts to.
pub record IsApart (a : DisputeAccounts) : Type 0 where
  pub suspense_gross : a.suspense ≢ a.project_gross
  pub suspense_fee : a.suspense ≢ a.platform_fee
  pub suspense_tip : a.suspense ≢ a.platform_tip
  pub suspense_loss : a.suspense ≢ a.project_loss

pub opened_at_suspense :
    (at : ℕ → ℕ) (l : ℕ) (a : DisputeAccounts) (s : RefundSplit) (x : ℤ) (n : IsNatural s)
    → IsApart a
    → net a.suspense (dispute_draft at l a opened x s).transfers ≡ pos (n.project + n.fee + n.tip)
opened_at_suspense at l a s x n h = rw (net-opened at l a s n a.suspense x) (grind int_laws)

pub lost_at :
    (at : ℕ → ℕ) (l : ℕ) (a : DisputeAccounts) (r : RefundSplit) (x : ℤ) (k : ℕ)
    → x ≡ pos k
    → IsApart a
    → (net a.suspense (dispute_draft at l a lost x r).transfers ≡ pos 0 -ℤ pos k)
      × (net a.project_loss (dispute_draft at l a lost x r).transfers ≡ pos k)
lost_at at l a r x k e h = (
  rw (e, net-lost at l a r a.suspense k) (grind int_laws),
  rw (e, net-lost at l a r a.project_loss k) (grind int_laws),
)
