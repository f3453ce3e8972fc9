-- ===== src/Ledger/Intents/Balances.antt =====
-- `netBalancesFromTransfers` and `transitBalance`, and the net change of one account as a sum.
use oss_tips.Base.{
  ℕ, ℤ, pos, negate, ◌+ℤ◌, ◌-ℤ◌, ◌+◌, List, [], ◌∷◌, ◌++◌, Option, none, some, Bool, Assoc, lookup,
  insert, lookup-insert, ◌==◌, ==_iff, true, false, negate_parts, leb, if◌then◌else◌, ◌≡◌, refl,
  ◌∙◌, arith, int_laws, ap, length, Bool-cases, inl, inr,
}
use oss_tips.Ledger.Intents.{LedgerTransfer, Draft, push, link_from, link_transfers}

abbrev or_zero : Option ℤ → ℤ
or_zero none = pos 0
or_zero (some z) = z

add : ℕ → ℤ → Assoc ℤ → Assoc ℤ
add account_id delta balances =
    insert account_id (or_zero (lookup account_id balances) +ℤ delta) balances

net_from : List LedgerTransfer → Assoc ℤ → Assoc ℤ
net_from [] balances = balances
net_from (t ∷ ts) balances =
    net_from ts
      (add t.credit_account_id t.amount (add t.debit_account_id (negate t.amount) balances))

unfoldable pub net_balances_from_transfers : List LedgerTransfer → Assoc ℤ
unfolding net_from add
net_balances_from_transfers transfers = net_from transfers []

unfoldable pub transit_balance : List LedgerTransfer → ℕ → ℤ
transit_balance transfers transit_account_id =
    or_zero (lookup transit_account_id (net_balances_from_transfers transfers))

-- What one transfer adds to one account.
abbrev pub delta : ℕ → ℕ → ℕ → ℤ → ℤ
delta id debit credit amount =
    (if credit == id then amount else pos 0) -ℤ (if debit == id then amount else pos 0)

unfoldable pub net : ℕ → List LedgerTransfer → ℤ
net id [] = pos 0
net id (t ∷ ts) = delta id t.debit_account_id t.credit_account_id t.amount +ℤ net id ts

or_zero-add :
    (id a : ℕ) (x : ℤ) (m : Assoc ℤ)
    → or_zero (lookup id (add a x m)) ≡ or_zero (lookup id m) +ℤ (if a == id then x else pos 0)
unfolding add
or_zero-add id a x m = elim (Bool-cases (a == id)) [
  | inl same ↦ let e : a ≡ id = (==_iff a id).0 same in rw (lookup-insert, same, e) refl
  | inr other ↦ rw (lookup-insert, other) (omega int_laws)
]

step_delta :
    (z : ℤ) (a : ℤ) (c d : Bool) (r : ℤ)
    → z +ℤ (if d then negate a else pos 0) +ℤ (if c then a else pos 0) +ℤ r
      ≡ z +ℤ ((if c then a else pos 0) -ℤ (if d then a else pos 0) +ℤ r)
step_delta z a true true r = let n = negate_parts a in omega int_laws
step_delta z a true false r = omega int_laws
step_delta z a false true r = let n = negate_parts a in omega int_laws
step_delta z a false false r = omega int_laws

net_from-net :
    (id : ℕ) (ts : List LedgerTransfer) (m : Assoc ℤ)
    → or_zero (lookup id (net_from ts m)) ≡ or_zero (lookup id m) +ℤ net id ts
unfolding net_from net
net_from-net id [] m = omega int_laws
net_from-net id (t ∷ ts) m =
    rw
      (
        net_from-net id ts _,
        or_zero-add id t.credit_account_id t.amount _,
        or_zero-add id t.debit_account_id (negate t.amount) m,
      )
      (step_delta (or_zero (lookup id m)) t.amount (t.credit_account_id == id)
        (t.debit_account_id == id) (net id ts))

-- The map of net balances holds, at every account, the sum of what the transfers add to it.
pub transit_balance-net : (ts : List LedgerTransfer) (id : ℕ) → transit_balance ts id ≡ net id ts
unfolding transit_balance net_balances_from_transfers
transit_balance-net ts id = net_from-net id ts [] ∙ (omega int_laws)

pub net-append : (id : ℕ) (ts us : List LedgerTransfer) → net id (ts ++ us) ≡ net id ts +ℤ net id us
unfolding net
net-append id [] us = omega int_laws
net-append id (t ∷ ts) us = rw (net-append id ts us) (omega int_laws)

net-link_from :
    (id count index : ℕ) (ts : List LedgerTransfer) → net id (link_from count index ts) ≡ net id ts
unfolding net link_from
net-link_from id count index [] = refl
net-link_from id count index (t ∷ ts) = rw (net-link_from id count (index + 1) ts)

pub net-link : (id : ℕ) (ts : List LedgerTransfer) → net id (link_transfers ts) ≡ net id ts
unfolding link_transfers
net-link id ts = net-link_from id (length ts) 0 ts

pub delta_zero :
    (z : ℤ) (c d : Bool) → z ≡ z +ℤ ((if c then pos 0 else pos 0) -ℤ (if d then pos 0 else pos 0))
delta_zero z true true = omega int_laws
delta_zero z true false = omega int_laws
delta_zero z false true = omega int_laws
delta_zero z false false = omega int_laws

-- A `push` of an amount that is not negative adds it, also where zero is skipped.
pub net-push :
    (id : ℕ) (at : ℕ → ℕ) (ledger code debit credit n : ℕ) (d : Draft)
    → net id (push at ledger code debit credit (pos n) d).transfers
      ≡ net id d.transfers +ℤ delta id debit credit (pos n)
unfolding push net
net-push id at ledger code debit credit n d = elim (Bool-cases (leb n 0)) [
  | inl zero_amount ↦
      let e : n ≡ 0 = ground arith in
      rw zero_amount (rw e (delta_zero _ (credit == id) (debit == id)))
  | inr some_amount ↦
      rw some_amount
        (net-append id d.transfers _ ∙ ap (λ z. net id d.transfers +ℤ z) (omega int_laws))
]
