-- ===== src/Ledger/Intents/SettlementLaws.antt =====
-- What a settlement posts to each account.
use oss_tips.Base.{
  ℕ, ℤ, pos, ◌+ℤ◌, ◌-ℤ◌, ◌+◌, ◌<◌, ltb, leb, ltb_ℤ, leb_ℤ, ltb-zero, String, List, false,
  Bool-cases, inl, inr, ◌==◌, if◌then◌else◌, ◌≡◌, ◌≢◌, refl, sym, subst, ◌∙◌, arith, int_laws,
  Result, ok, err, ◌>>=◌, ◌>>◌, throw_if, >>=-eq-ok, ok-injective,
}
use oss_tips.Domain.Money.{bigint, to_bigint, money_of}
use oss_tips.Domain.Fees.{FeeAllocation, allocate, compute_fee_allocation}
use oss_tips.Domain.Fees.Allocation.{
  Balanced, allocate-Balanced, compute_fee_allocation_ok, compute_fee_allocation_balances,
}
use oss_tips.Ledger.Codes.{ledger_for_currency}
use oss_tips.Ledger.Ids.{transfer_id}
use oss_tips.Ledger.Intents.{
  LedgerTransfer, PostingIntent, Draft, push, version, as_minor, Accounts,
}
use oss_tips.Ledger.Intents.Settlement.{
  OneOffSettlementInput, fee_input, settlement_draft, settlement_accounts, settlement_transfers,
  settlement_intent, one_off_settlement, build_one_off_settlement_intent,
}
use oss_tips.Ledger.Intents.Balances.{delta, net, net-push, net-link, delta_zero}

pub as_minor-pos : (n : ℕ) (label : String) → as_minor (bigint (pos n)) label ≡ ok (pos n)
unfolding as_minor
as_minor-pos n label = rw (ltb-zero n)

-- A call of `push` under the test that its amount is above zero.
net-push_if :
    (id : ℕ) (at : ℕ → ℕ) (ledger code debit credit n : ℕ) (d : Draft)
    → net id
        (if ltb_ℤ (pos 0) (pos n) then push at ledger code debit credit (pos n) d else d).transfers
      ≡ net id d.transfers +ℤ delta id debit credit (pos n)
net-push_if id at ledger code debit credit n d = elim (Bool-cases (ltb 0 n)) [
  | inl above ↦ rw above (net-push id at ledger code debit credit n d)
  | inr below ↦
      let e : n ≡ 0 = ground arith in rw below (rw e (delta_zero _ (credit == id) (debit == id)))
]

net-settlement_draft :
    (id : ℕ) (at : ℕ → ℕ) (ledger : ℕ) (a : Accounts) (charge share fee tip : ℕ)
    → net id (settlement_draft at ledger a (pos charge) (pos share) (pos fee) (pos tip)).transfers
      ≡ delta id a.clearing a.transit (pos charge)
        +ℤ delta id a.transit a.project_gross (pos share)
        +ℤ delta id a.transit a.platform_fee (pos fee)
        +ℤ delta id a.transit a.platform_tip (pos tip)
unfolding settlement_draft net
net-settlement_draft id at ledger a charge share fee tip =
    rw
      (
        net-push_if id at ledger _ a.transit a.platform_tip tip _,
        net-push_if id at ledger _ a.transit a.platform_fee fee _,
        net-push id at ledger _ a.transit a.project_gross share _,
        net-push id at ledger _ a.clearing a.transit charge _,
      )
      (omega int_laws)

-- The ids of the accounts of one payment are five: SHA-256 gives no two of them the same.
pub record AreDistinct (a : Accounts) : Type 0 where
  pub clearing_transit : a.clearing ≢ a.transit
  pub clearing_gross : a.clearing ≢ a.project_gross
  pub clearing_fee : a.clearing ≢ a.platform_fee
  pub clearing_tip : a.clearing ≢ a.platform_tip
  pub transit_gross : a.transit ≢ a.project_gross
  pub transit_fee : a.transit ≢ a.platform_fee
  pub transit_tip : a.transit ≢ a.platform_tip
  pub gross_fee : a.project_gross ≢ a.platform_fee
  pub gross_tip : a.project_gross ≢ a.platform_tip
  pub fee_tip : a.platform_fee ≢ a.platform_tip

-- The change of each account by the four transfers.
pub record Posted (ts : List LedgerTransfer) (a : Accounts) (share fee tip : ℕ) : Type 0 where
  pub clearing : net a.clearing ts ≡ pos 0 -ℤ pos (share + fee + tip)
  pub transit : net a.transit ts ≡ pos 0
  pub project_gross : net a.project_gross ts ≡ pos share
  pub platform_fee : net a.platform_fee ts ≡ pos fee
  pub platform_tip : net a.platform_tip ts ≡ pos tip

settlement_draft-Posted :
    (at : ℕ → ℕ) (ledger : ℕ) (a : Accounts) (share fee tip : ℕ)
    → AreDistinct a
    → Posted
        (settlement_draft at ledger a
          (pos (share + fee + tip))
          (pos share)
          (pos fee)
          (pos tip)).transfers
        a
        share
        fee
        tip
settlement_draft-Posted at ledger a share fee tip h = record {
  clearing =
      net-settlement_draft a.clearing at ledger a (share + fee + tip) share fee tip
      ∙ grind int_laws;
  transit =
      net-settlement_draft a.transit at ledger a (share + fee + tip) share fee tip ∙ grind int_laws;
  project_gross =
      net-settlement_draft a.project_gross at ledger a (share + fee + tip) share fee tip
      ∙ grind int_laws;
  platform_fee =
      net-settlement_draft a.platform_fee at ledger a (share + fee + tip) share fee tip
      ∙ grind int_laws;
  platform_tip =
      net-settlement_draft a.platform_tip at ledger a (share + fee + tip) share fee tip
      ∙ grind int_laws;
}

some_paid : (n : ℕ) → 0 < n → leb n 0 ≡ false
some_paid n h = ground arith

Posted-of_net :
    (ts us : List LedgerTransfer) (a : Accounts) (share fee tip : ℕ)
    → ((id : ℕ) → net id ts ≡ net id us)
    → Posted us a share fee tip
    → Posted ts a share fee tip
Posted-of_net ts us a share fee tip same p = record {
  clearing = same a.clearing ∙ p.clearing;
  transit = same a.transit ∙ p.transit;
  project_gross = same a.project_gross ∙ p.project_gross;
  platform_fee = same a.platform_fee ∙ p.platform_fee;
  platform_tip = same a.platform_tip ∙ p.platform_tip;
}

module _ (sha256 : String → List ℕ) where
  -- What a successful call returns: the transfers of a share, a fee and a tip.
  pub record Settled (input : OneOffSettlementInput) (i : PostingIntent) : Type 0 where
    pub version_number : ℕ
    pub ledger : ℕ
    pub allocation : FeeAllocation
    pub share : ℕ
    pub fee : ℕ
    pub tip : ℕ
    pub on_ledger : ledger_for_currency input.currency ≡ ok ledger
    pub project : to_bigint input.project_amount_minor ≡ ok (pos (share + fee))
    pub supporter_tip : to_bigint input.platform_tip_minor ≡ ok (pos tip)
    pub positive : 0 < share + fee + tip
    pub allocated : compute_fee_allocation (fee_input input) ≡ ok allocation
    pub share_is : allocation.project_before_stripe.amount_minor ≡ pos share
    pub fee_is : allocation.oss_project_fee.amount_minor ≡ pos fee
    pub tip_is : allocation.platform_tip.amount_minor ≡ pos tip
    pub intent :
        i
        ≡ settlement_intent sha256 input allocation version_number ledger
            (pos (share + fee + tip))
            (pos share)
            (pos fee)
            (pos tip)

  -- The builder once the allocation and the ledger are known.
  abbrev after_allocation :
      OneOffSettlementInput
      → ℕ
      → ℕ
      → FeeAllocation
      → (charge share fee tip : ℤ) → Result PostingIntent
  after_allocation input v l a charge₀ share₀ fee₀ tip₀ = do
    charge ← as_minor (bigint charge₀) "customer charge"
    share ← as_minor (bigint share₀) "project share"
    fee ← as_minor (bigint fee₀) "platform fee"
    tip ← as_minor (bigint tip₀) "platform tip"
    throw_if (leb_ℤ charge (pos 0)) "customer charge must be positive"
    ok (settlement_intent sha256 input a v l charge share fee tip)

  after_allocation-pos :
      (input : OneOffSettlementInput) (v l : ℕ) (a : FeeAllocation) (charge share fee tip : ℕ)
      → after_allocation input v l a (pos charge) (pos share) (pos fee) (pos tip) ≡ (
          if leb charge 0
          then err "customer charge must be positive"
          else ok
              (settlement_intent sha256 input a v l (pos charge) (pos share) (pos fee) (pos tip)))
  after_allocation-pos input v l a charge share fee tip =
      rw
        (
          as_minor-pos charge "customer charge",
          as_minor-pos share "project share",
          as_minor-pos fee "platform fee",
          as_minor-pos tip "platform tip",
        )
        (elim (Bool-cases (leb charge 0)) [ inl e ↦ rw e refl | inr e ↦ rw e refl ])

  after_parts :
      (input : OneOffSettlementInput) (v l : ℕ) (a : FeeAllocation) (p t : ℕ) (b : Balanced a p t)
      → after_allocation input v l a (pos (p + t)) (pos b.share) (pos b.fee) (pos t)
        ≡ after_allocation input v l a a.customer_charge.amount_minor
            a.project_before_stripe.amount_minor a.oss_project_fee.amount_minor
            a.platform_tip.amount_minor
  after_parts input v l a p t b = λ k.
      after_allocation input v l a (sym b.charge k) (sym b.before_stripe k) (sym b.oss_fee k)
        (sym b.tip k)

  settle :
      (input : OneOffSettlementInput) (i : PostingIntent) (v l : ℕ) (a : FeeAllocation) (p t : ℕ)
      (b : Balanced a p t)
      → compute_fee_allocation (fee_input input) ≡ ok a
      → ledger_for_currency input.currency ≡ ok l
      → to_bigint input.project_amount_minor ≡ ok (pos p)
      → to_bigint input.platform_tip_minor ≡ ok (pos t)
      → after_allocation input v l a (pos (p + t)) (pos b.share) (pos b.fee) (pos t) ≡ ok i
      → Settled input i
  settle input i v l a p t b ea el ep et h =
      let h' = rw (after_allocation-pos input v l a (p + t) b.share b.fee t) at h in
      elim (Bool-cases (leb (p + t) 0)) [
        | inl none_paid ↦ let e = rw none_paid at h' in absurd (cc)
        | inr paid ↦ record {
          version_number = v;
          ledger = l;
          allocation = a;
          share = b.share;
          fee = b.fee;
          tip = t;
          on_ledger = el;
          project = rw b.share_add_fee ep;
          supporter_tip = et;
          positive = rw b.share_add_fee (ground arith);
          allocated = ea;
          share_is = b.before_stripe;
          fee_is = b.oss_fee;
          tip_is = b.tip;
          intent = rw b.share_add_fee (sym (ok-injective _ _ (rw paid at h')));
        }
      ]

  pub settlement_inversion :
      (input : OneOffSettlementInput) (i : PostingIntent)
      → build_one_off_settlement_intent sha256 input ≡ ok i
      → Settled input i
  unfolding build_one_off_settlement_intent
  settlement_inversion input i h =
      let (v, ev, h₁) = >>=-eq-ok (version input.posting_version) _ h in
      let (a, ea, h₂) = >>=-eq-ok (compute_fee_allocation (fee_input input)) _ h₁ in
      let (l, el, h₃) = >>=-eq-ok (ledger_for_currency input.currency) _ h₂ in
      let (p, t, ep, et, b) = compute_fee_allocation_balances (fee_input input) a ea in
      settle input i v l a p t b ea el ep et (after_parts input v l a p t b ∙ h₃)

  settlement_intent-net :
      (input : OneOffSettlementInput) (a : FeeAllocation) (v l : ℕ) (charge share fee tip : ℤ)
      (id : ℕ)
      → net id (settlement_intent sha256 input a v l charge share fee tip).transfers
        ≡ net id
            (settlement_draft
              (transfer_id sha256 input.stripe_account_id input.stripe_event_id one_off_settlement
                v)
              l
              (settlement_accounts sha256 input)
              charge
              share
              fee
              tip).transfers
  unfolding settlement_intent settlement_transfers
  settlement_intent-net input a v l charge share fee tip id = net-link id _

  -- A settlement that is built posts to each of the payment's accounts exactly its part, if the five
  -- account ids are distinct. The parts are those of the fee allocation of the input, which succeeds:
  -- the project's gross account receives the allocation's share before Stripe's fee, the platform's fee
  -- account the platform's fee, and its tip account the supporter's tip; their sum leaves clearing, and
  -- the transit account is back at zero. The share and the fee make up the project amount of the input,
  -- and the tip is the input's.
  pub settlement_posts :
      (input : OneOffSettlementInput) (i : PostingIntent)
      → build_one_off_settlement_intent sha256 input ≡ ok i
      → AreDistinct (settlement_accounts sha256 input)
      → (a : FeeAllocation) × (share : ℕ) × (fee : ℕ) × (tip : ℕ) × (compute_fee_allocation
            (fee_input input)
          ≡ ok a)
        × (a.project_before_stripe.amount_minor ≡ pos share)
        × (a.oss_project_fee.amount_minor ≡ pos fee)
        × (a.platform_tip.amount_minor ≡ pos tip)
        × (to_bigint input.project_amount_minor ≡ ok (pos (share + fee)))
        × (to_bigint input.platform_tip_minor ≡ ok (pos tip))
        × Posted i.transfers (settlement_accounts sha256 input) share fee tip
  settlement_posts input i h distinct =
      let s = settlement_inversion input i h in
      let accounts = settlement_accounts sha256 input in
      let at =
        transfer_id sha256 input.stripe_account_id input.stripe_event_id one_off_settlement
          s.version_number in
      let drafted = settlement_draft-Posted at s.ledger accounts s.share s.fee s.tip distinct in
      let same =
        settlement_intent-net input s.allocation s.version_number s.ledger
          (pos (s.share + s.fee + s.tip)) (pos s.share) (pos s.fee) (pos s.tip) in
      (
        s.allocation,
        s.share,
        s.fee,
        s.tip,
        s.allocated,
        s.share_is,
        s.fee_is,
        s.tip_is,
        s.project,
        s.supporter_tip,
        subst (λ z. Posted z.transfers accounts s.share s.fee s.tip) (sym s.intent)
            (Posted-of_net _ _ accounts _ _ _ same drafted),
      )

  -- The call succeeds for a valid version, a currency with a ledger, and amounts that are natural
  -- numbers and not both zero.
  pub settlement_succeeds :
      (input : OneOffSettlementInput) (v l p t : ℕ)
      → version input.posting_version ≡ ok v
      → ledger_for_currency input.currency ≡ ok l
      → to_bigint input.project_amount_minor ≡ ok (pos p)
      → to_bigint input.platform_tip_minor ≡ ok (pos t)
      → 0 < p + t
      → (i : PostingIntent) × (build_one_off_settlement_intent sha256 input ≡ ok i)
  unfolding build_one_off_settlement_intent
  settlement_succeeds input v l p t ev el ep et h =
      let a =
        allocate (money_of (pos p) input.currency) (money_of (pos t) input.currency)
          (fee_input input) in
      let b = allocate-Balanced (fee_input input) p t in
      (
        settlement_intent sha256 input a v l (pos (p + t)) (pos b.share) (pos b.fee) (pos t),
        rw (ev, compute_fee_allocation_ok (fee_input input) p t ep et, el)
            (sym (after_parts input v l a p t b)
              ∙ after_allocation-pos input v l a (p + t) b.share b.fee t
              ∙ rw (some_paid (p + t) h) refl),
      )
