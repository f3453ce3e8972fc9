-- ===== src/Ledger/Mock/Books.antt =====
-- The balances of the accounts and the posted transfers, after any sequence of calls.
use oss_tips.Base.{
  ℕ, ◌==◌, ==_iff, not, ◌||◌, Bool, true, false, Option, none, some, List, [], ◌∷◌, ◌++◌, map,
  Bool-cases, inl, inr, if◌then◌else◌, ◌≡◌, refl, ◌∙◌, ap, subst, arith, int_laws, Result, ok, err,
  throw_if-eq-ok, ok-injective, >>=-eq-ok, Result-cases, All, Assoc, lookup, contains, insert,
  lookup-insert,
}
use oss_tips.Ledger.Intents.{LedgerTransfer, LedgerAccountDefinition}
use oss_tips.Ledger.Intents.Balances.{net, net-append}
use oss_tips.Ledger.Mock.{
  LedgerAccount, PostedTransfer, MockLedgerClient, empty_client, create_accounts, create_account,
  new_account, is_other_definition, message, balance_of, check_transfers, check_accounts,
  check_ledgers, new_transfers, same_definition, post, post_all, admit, add_new, create_transfers,
  get_account_balance,
}
use oss_tips.Ledger.Mock.Posting.{Accounts, get_account_balance-post, contains-post}

abbrev pub posted : MockLedgerClient → List LedgerTransfer
posted client = map (λ p. p.transfer) client.transfers

-- The balance of every account is the net of the posted transfers.
abbrev pub IsBooked : MockLedgerClient → Type 0
IsBooked client = (id : ℕ) → get_account_balance id client ≡ net id (posted client)

map-append :
    (ps qs : List PostedTransfer)
    → map (λ p. p.transfer) (ps ++ qs) ≡ map (λ p. p.transfer) ps ++ map (λ p. p.transfer) qs
map-append [] qs = refl
map-append (p ∷ ps) qs = ap (λ l. p.transfer ∷ l) (map-append ps qs)

post-IsBooked :
    (ts : ℕ) (t : LedgerTransfer) (client : MockLedgerClient)
    → contains t.debit_account_id client.accounts ≡ true
    → contains t.credit_account_id client.accounts ≡ true
    → IsBooked client
    → IsBooked (post ts t client)
unfolding post net
post-IsBooked ts t client debit credit booked id =
    get_account_balance-post id ts t client debit credit
    ∙ rw (booked id, map-append, net-append) (omega int_laws)

abbrev HasAccounts : Assoc LedgerAccount → LedgerTransfer → Type 0
HasAccounts m t = (contains t.debit_account_id m ≡ true) × (contains t.credit_account_id m ≡ true)

pub All-map :
    (P Q : LedgerTransfer → Type 0)
    → ((t : LedgerTransfer) → P t → Q t)
    → (ts : List LedgerTransfer) → All P ts
    → All Q ts
All-map P Q f [] all = all
All-map P Q f (t ∷ ts) all = (f t all.0, All-map P Q f ts all.1)

pub contained : (b : Bool) → not b ≡ false → b ≡ true
contained b e = ground arith

check_accounts-HasAccounts :
    (m : Assoc LedgerAccount) (ts : List LedgerTransfer)
    → check_accounts m ts ≡ ok tt
    → All (HasAccounts m) ts
unfolding check_accounts
check_accounts-HasAccounts m [] e = tt
check_accounts-HasAccounts m (t ∷ ts) e =
    let first = throw_if-eq-ok _ _ _ e in
    let second = throw_if-eq-ok _ _ _ first.1 in
    ((contained _ first.0, contained _ second.0), check_accounts-HasAccounts m ts second.1)

add_new-All :
    (P : LedgerTransfer → Type 0) (o : Option PostedTransfer) (t : LedgerTransfer)
    (later : Result (List LedgerTransfer)) (fresh : List LedgerTransfer)
    → add_new o t later ≡ ok fresh
    → P t
    → ((rest : List LedgerTransfer) → later ≡ ok rest → All P rest)
    → All P fresh
add_new-All P none t later fresh e holds all =
    let (rest, now, more) = >>=-eq-ok later (λ r. ok (t ∷ r)) e in
    subst (All P) (ok-injective _ _ more) (holds, all rest now)
add_new-All P (some p) t later fresh e holds all =
    elim (Bool-cases (same_definition p.transfer t)) [
      | inl same ↦ all fresh (rw same at e)
      | inr other ↦ absurd (let bad = rw other at e in cc)
    ]

new_transfers-All :
    (P : LedgerTransfer → Type 0) (ps : List PostedTransfer) (ts fresh : List LedgerTransfer)
    → new_transfers ps ts ≡ ok fresh
    → All P ts
    → All P fresh
unfolding new_transfers
new_transfers-All P ps [] fresh e all = subst (All P) (ok-injective _ _ e) tt
new_transfers-All P ps (t ∷ ts) fresh e all =
    add_new-All P _ t _ fresh e all.0 (λ rest now. new_transfers-All P ps ts rest now all.1)

post_all-IsBooked :
    (ts : ℕ) (fresh : List LedgerTransfer) (client : MockLedgerClient)
    → All (HasAccounts client.accounts) fresh
    → IsBooked client
    → IsBooked (post_all ts fresh client)
unfolding post_all
post_all-IsBooked ts [] client all booked = booked
post_all-IsBooked ts (t ∷ rest) client all booked =
    post_all-IsBooked ts rest (post ts t client)
      (All-map _ _
        (λ u there. (
          contains-post u.debit_account_id ts t client ∙ there.0,
          contains-post u.credit_account_id ts t client ∙ there.1,
        ))
        rest all.1)
      (post-IsBooked ts t client all.0.0 all.0.1 booked)

admit-HasAccounts :
    (ts fresh : List LedgerTransfer) (client : MockLedgerClient)
    → admit ts client ≡ ok fresh
    → All (HasAccounts client.accounts) fresh
unfolding admit
admit-HasAccounts ts fresh client e =
    let (_, _, e1) = >>=-eq-ok (check_transfers [] ts) _ e in
    let (tt, accounts, e2) = >>=-eq-ok (check_accounts client.accounts ts) _ e1 in
    let (_, _, e3) = >>=-eq-ok (check_ledgers client.accounts ts) _ e2 in
    new_transfers-All (HasAccounts client.accounts) client.transfers ts fresh e3
      (check_accounts-HasAccounts client.accounts ts accounts)

pub create_transfers-IsBooked :
    (now : ℕ) (ts : List LedgerTransfer) (client : MockLedgerClient)
    → IsBooked client
    → IsBooked (create_transfers now ts client).0
unfolding create_transfers
create_transfers-IsBooked now ts client booked = elim (Result-cases (admit ts client)) [
  | inl (fresh, e) ↦
      rw e (post_all-IsBooked now fresh client (admit-HasAccounts ts fresh client e) booked)
  | inr (why, e) ↦ rw e booked
]

if-either {κ} :
    {A : Type 0} (P : A → Type κ) (c : Bool) {x y : A} → P x → P y → P (if c then x else y)
if-either P true px py = px
if-either P false px py = py

absent : (k : ℕ) (m : Accounts) → contains k m ≡ false → lookup k m ≡ none
absent k m e = ground arith

new-balance :
    (id : ℕ) (a : LedgerAccountDefinition) (m : Accounts)
    → contains a.id m ≡ false
    → balance_of (lookup id (insert a.id (new_account a) m)) ≡ balance_of (lookup id m)
new-balance id a m e = elim (Bool-cases (a.id == id)) [
  | inl same ↦
      let i : a.id ≡ id = (==_iff a.id id).0 same in
      let gone : lookup id m ≡ none = subst (λ j. lookup j m ≡ none) i (absent a.id m e) in
      rw (lookup-insert, same, gone) (omega int_laws)
  | inr other ↦ rw (lookup-insert, other) refl
]

create_account-IsBooked :
    (a : LedgerAccountDefinition) (client : MockLedgerClient)
    → IsBooked client
    → IsBooked (create_account a client)
unfolding get_account_balance
create_account-IsBooked a client booked id = elim (Bool-cases (contains a.id client.accounts)) [
  | inl there ↦ rw there (booked id)
  | inr new ↦ rw new (new-balance id a client.accounts new ∙ booked id)
]

pub create_accounts-IsBooked :
    (l : List LedgerAccountDefinition) (client : MockLedgerClient)
    → IsBooked client
    → IsBooked (create_accounts l client).0
unfolding create_accounts
create_accounts-IsBooked [] client booked = booked
create_accounts-IsBooked (a ∷ l) client booked =
    let next =
      create_accounts-IsBooked l (create_account a client)
        (create_account-IsBooked a client booked) in
    let P : MockLedgerClient × Result (Unit {0}) → Type 0 = λ r. IsBooked r.0 in
    if-either P (a.id == 0 || a.ledger == 0 || a.code == 0)
      {x = (client, err (message "invalid account definition " a.id ""))} booked
      (if-either P (is_other_definition a (lookup a.id client.accounts))
        {x = (client, err (message "account " a.id " exists with different definition"))}
        {y = create_accounts l (create_account a client)} booked next)

pub data Call : Type 0 where
  create_accounts_call : List LedgerAccountDefinition → Call
  create_transfers_call : ℕ → List LedgerTransfer → Call

-- The client after a call, whether it returns or throws.
unfoldable pub call : Call → MockLedgerClient → MockLedgerClient
call (create_accounts_call l) client = (create_accounts l client).0
call (create_transfers_call now ts) client = (create_transfers now ts client).0

unfoldable pub run : List Call → MockLedgerClient → MockLedgerClient
run [] client = client
run (c ∷ cs) client = run cs (call c client)

call-IsBooked : (c : Call) (client : MockLedgerClient) → IsBooked client → IsBooked (call c client)
unfolding call
call-IsBooked (create_accounts_call l) client booked = create_accounts-IsBooked l client booked
call-IsBooked (create_transfers_call now ts) client booked =
    create_transfers-IsBooked now ts client booked

run-IsBooked :
    (cs : List Call) (client : MockLedgerClient) → IsBooked client → IsBooked (run cs client)
unfolding run
run-IsBooked [] client booked = booked
run-IsBooked (c ∷ cs) client booked =
    run-IsBooked cs (call c client) (call-IsBooked c client booked)

-- After any sequence of calls to a new client, the ones that threw included, the balance of every
-- account is the net of the transfers that the client holds.
pub balances_are_booked :
    (cs : List Call) (id : ℕ)
    → get_account_balance id (run cs empty_client) ≡ net id (posted (run cs empty_client))
unfolding get_account_balance net
balances_are_booked cs = run-IsBooked cs empty_client (λ id. omega int_laws)
