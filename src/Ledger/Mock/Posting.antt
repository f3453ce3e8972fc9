-- ===== src/Ledger/Mock/Posting.antt =====
-- What one posting changes.
use oss_tips.Base.{
  ℕ, ℤ, pos, ◌+ℤ◌, ◌-ℤ◌, ◌==◌, ==_iff, Bool, true, false, Option, none, some, Bool-cases, inl, inr,
  if◌then◌else◌, ◌≡◌, ◌≢◌, refl, sym, ◌∙◌, ap, subst, int_laws, Assoc, lookup, contains,
  lookup-insert,
}
use oss_tips.Ledger.Intents.{LedgerTransfer}
use oss_tips.Ledger.Intents.Balances.{delta}
use oss_tips.Ledger.Mock.{
  LedgerAccount, MockLedgerClient, adjust, write, post, get_account_balance, balance_of,
}

abbrev pub Accounts : Type 0
Accounts = Assoc LedgerAccount

abbrev pub apply_to : (LedgerAccount → LedgerAccount) → Option LedgerAccount → Option LedgerAccount
apply_to f none = none
apply_to f (some a) = some (f a)

lookup-write :
    (k j : ℕ) (f : LedgerAccount → LedgerAccount) (o : Option LedgerAccount) (m : Accounts)
    → lookup k m ≡ o
    → lookup j (write k f o m) ≡ (if k == j then apply_to f (lookup j m) else lookup j m)
lookup-write k j f none m missing = elim (Bool-cases (k == j)) [
  | inl same ↦
      let e : k ≡ j = (==_iff k j).0 same in
      let gone : lookup j m ≡ none = subst (λ i. lookup i m ≡ none) e missing in
      rw (same, gone) refl
  | inr other ↦ rw other refl
]
lookup-write k j f (some a) m found = elim (Bool-cases (k == j)) [
  | inl same ↦
      let e : k ≡ j = (==_iff k j).0 same in
      let there : lookup j m ≡ some a = subst (λ i. lookup i m ≡ some a) e found in
      rw (lookup-insert, same, there) refl
  | inr other ↦ rw (lookup-insert, other) refl
]

pub lookup-adjust :
    (k j : ℕ) (f : LedgerAccount → LedgerAccount) (m : Accounts)
    → lookup j (adjust k f m) ≡ (if k == j then apply_to f (lookup j m) else lookup j m)
lookup-adjust k j f m = lookup-write k j f (lookup k m) m refl

pub is_some : Option LedgerAccount → Bool
is_some none = false
is_some (some a) = true

is_some-apply :
    (c : Bool) (f : LedgerAccount → LedgerAccount) (o : Option LedgerAccount)
    → is_some (if c then apply_to f o else o) ≡ is_some o
unfolding is_some
is_some-apply true f none = refl
is_some-apply true f (some a) = refl
is_some-apply false f o = refl

pub contains-is_some : (j : ℕ) (m : Accounts) → contains j m ≡ is_some (lookup j m)
unfolding is_some
contains-is_some j m =
    elim (lookup j m) as (λ o. elim o [ none ↦ false | some _ ↦ true ] ≡ is_some o) [
      | none ↦ refl
      | some a ↦ refl
    ]

-- The accounts that are there stay there.
pub contains-adjust :
    (k j : ℕ) (f : LedgerAccount → LedgerAccount) (m : Accounts)
    → contains j (adjust k f m) ≡ contains j m
contains-adjust k j f m =
    contains-is_some j (adjust k f m)
    ∙ ap is_some (lookup-adjust k j f m)
    ∙ is_some-apply (k == j) f (lookup j m)
    ∙ sym (contains-is_some j m)

-- A debit takes its amount from the account it names, and a credit adds it.
balance-debit :
    (c : Bool) (x : ℤ) (o : Option LedgerAccount)
    → (c ≡ true → o ≢ none)
    → balance_of
        (if c then apply_to (λ a. record a { debits_posted = a.debits_posted +ℤ x }) o else o)
      ≡ balance_of o -ℤ (if c then x else pos 0)
balance-debit true x none there = absurd (there refl refl)
balance-debit true x (some a) there = omega int_laws
balance-debit false x o there = omega int_laws

balance-credit :
    (c : Bool) (x : ℤ) (o : Option LedgerAccount)
    → (c ≡ true → o ≢ none)
    → balance_of
        (if c then apply_to (λ a. record a { credits_posted = a.credits_posted +ℤ x }) o else o)
      ≡ balance_of o +ℤ (if c then x else pos 0)
balance-credit true x none there = absurd (there refl refl)
balance-credit true x (some a) there = omega int_laws
balance-credit false x o there = omega int_laws

debit_entry : ℤ → LedgerAccount → LedgerAccount
debit_entry x a = record a { debits_posted = a.debits_posted +ℤ x }

credit_entry : ℤ → LedgerAccount → LedgerAccount
credit_entry x a = record a { credits_posted = a.credits_posted +ℤ x }

contained-some :
    (k j : ℕ) (m : Accounts) → contains k m ≡ true → (k == j) ≡ true → lookup j m ≢ none
unfolding is_some
contained-some k j m there same missing =
    let e : k ≡ j = (==_iff k j).0 same in
    let gone : lookup k m ≡ none = subst (λ i. lookup i m ≡ none) (sym e) missing in
    let absent : contains k m ≡ false = contains-is_some k m ∙ ap is_some gone in cc

balance-adjust-debit :
    (k j : ℕ) (x : ℤ) (m : Accounts)
    → contains k m ≡ true
    → balance_of (lookup j (adjust k (debit_entry x) m))
      ≡ balance_of (lookup j m) -ℤ (if k == j then x else pos 0)
unfolding debit_entry is_some
balance-adjust-debit k j x m there =
    ap balance_of (lookup-adjust k j (debit_entry x) m)
    ∙ balance-debit (k == j) x (lookup j m) (contained-some k j m there)

balance-adjust-credit :
    (k j : ℕ) (x : ℤ) (m : Accounts)
    → contains k m ≡ true
    → balance_of (lookup j (adjust k (credit_entry x) m))
      ≡ balance_of (lookup j m) +ℤ (if k == j then x else pos 0)
unfolding credit_entry
balance-adjust-credit k j x m there =
    ap balance_of (lookup-adjust k j (credit_entry x) m)
    ∙ balance-credit (k == j) x (lookup j m) (contained-some k j m there)

move :
    (z x : ℤ) (c d : Bool)
    → z -ℤ (if d then x else pos 0) +ℤ (if c then x else pos 0)
      ≡ z +ℤ ((if c then x else pos 0) -ℤ (if d then x else pos 0))
move z x c d = omega int_laws

-- A posting adds to the balance of an account what the transfer adds to it.
pub get_account_balance-post :
    (id ts : ℕ) (t : LedgerTransfer) (client : MockLedgerClient)
    → contains t.debit_account_id client.accounts ≡ true
    → contains t.credit_account_id client.accounts ≡ true
    → get_account_balance id (post ts t client)
      ≡ get_account_balance id client +ℤ delta id t.debit_account_id t.credit_account_id t.amount
unfolding post get_account_balance debit_entry credit_entry
get_account_balance-post id ts t client debit credit =
    let still =
      contains-adjust t.debit_account_id t.credit_account_id (debit_entry t.amount) client.accounts
      ∙ credit in
    balance-adjust-credit t.credit_account_id id t.amount
      (adjust t.debit_account_id (debit_entry t.amount) client.accounts) still
    ∙ ap (λ z. z +ℤ (if t.credit_account_id == id then t.amount else pos 0))
        (balance-adjust-debit t.debit_account_id id t.amount client.accounts debit)
    ∙ move (get_account_balance id client) t.amount (t.credit_account_id == id)
        (t.debit_account_id == id)

-- A posting keeps the accounts that are there.
pub contains-post :
    (j ts : ℕ) (t : LedgerTransfer) (client : MockLedgerClient)
    → contains j (post ts t client).accounts ≡ contains j client.accounts
unfolding post debit_entry credit_entry
contains-post j ts t client =
    contains-adjust t.credit_account_id j (credit_entry t.amount)
      (adjust t.debit_account_id (debit_entry t.amount) client.accounts)
    ∙ contains-adjust t.debit_account_id j (debit_entry t.amount) client.accounts
