-- ===== src/Ledger/Mock.antt =====
-- packages/ledger/src/client/mock.ts: the ledger client in memory. A method returns the client as it
-- leaves it, and its result or the error that it throws. The time of a posting is an argument.
pub mod Posting
pub mod Books
pub mod Repeats
use Prim.Native.String
use oss_tips.Base.{
  ℕ, ◌+◌, ℤ, pos, ◌+ℤ◌, ◌-ℤ◌, ◌==◌, ltb, leb, leb_ℤ, eqb_ℤ, not, ◌||◌, ◌&&◌, Bool, true, false,
  Option, none, some, String, List, [], ◌∷◌, ◌++◌, map, any, find, keep, Result, ok, err, ◌>>=◌,
  ◌>>◌, throw_if, if◌then◌else◌, Assoc, lookup, contains, insert,
}
use oss_tips.Ledger.Ids.{decimal}
use oss_tips.Ledger.Intents.{LedgerTransfer, LedgerAccountDefinition}

pub record LedgerAccount : Type 0 where
  pub id : ℕ
  pub ledger : ℕ
  pub code : ℕ
  pub debits_posted : ℤ
  pub credits_posted : ℤ

pub record PostedTransfer : Type 0 where
  pub transfer : LedgerTransfer
  pub timestamp : ℕ

pub record MockLedgerClient : Type 0 where
  pub accounts : Assoc LedgerAccount
  pub transfers : List PostedTransfer

-- A new client, and what `reset` leaves.
abbrev pub empty_client : MockLedgerClient
empty_client = record { accounts = []; transfers = [] }

abbrev pub message : String → ℕ → String → String
message before id after = String.◌++◌ before (String.◌++◌ (decimal id) after)

abbrev pub is_other_definition : LedgerAccountDefinition → Option LedgerAccount → Bool
is_other_definition a none = false
is_other_definition a (some existing) =
    not (existing.ledger == a.ledger) || not (existing.code == a.code)

abbrev pub new_account : LedgerAccountDefinition → LedgerAccount
new_account a = record {
  id = a.id;
  ledger = a.ledger;
  code = a.code;
  debits_posted = pos 0;
  credits_posted = pos 0;
}

abbrev pub create_account : LedgerAccountDefinition → MockLedgerClient → MockLedgerClient
create_account a client =
    if contains a.id client.accounts
    then client
    else record client { accounts = insert a.id (new_account a) client.accounts }

-- The loop of `createAccounts`; what it added before an error stays.
unfoldable pub create_accounts :
    List LedgerAccountDefinition → MockLedgerClient → MockLedgerClient × Result (Unit {0})
create_accounts [] client = (client, ok tt)
create_accounts (a ∷ rest) client =
    let next = create_accounts rest (create_account a client) in
    if a.id == 0 || a.ledger == 0 || a.code == 0
    then (client, err (message "invalid account definition " a.id ""))
    else if is_other_definition a (lookup a.id client.accounts)
    then (client, err (message "account " a.id " exists with different definition"))
    else next

-- The first loop of `createTransfers`: each transfer by itself, and no id twice.
unfoldable pub check_transfers : List ℕ → List LedgerTransfer → Result (Unit {0})
check_transfers input_ids [] = ok tt
check_transfers input_ids (t ∷ ts) = do
  throw_if (t.id == 0 || leb_ℤ t.amount (pos 0) || t.debit_account_id == t.credit_account_id)
      (message "invalid transfer " t.id "")
  throw_if (any (λ i. i == t.id) input_ids) (message "duplicate transfer " t.id "")
  check_transfers (t.id ∷ input_ids) ts

-- The second loop: every account is there. The set of ids is walked in the order of insertion, so a
-- repeated id changes nothing.
unfoldable pub check_accounts : Assoc LedgerAccount → List LedgerTransfer → Result (Unit {0})
check_accounts accounts [] = ok tt
check_accounts accounts (t ∷ ts) = do
  throw_if (not (contains t.debit_account_id accounts))
      (message "account " t.debit_account_id " not found")
  throw_if (not (contains t.credit_account_id accounts))
      (message "account " t.credit_account_id " not found")
  check_accounts accounts ts

abbrev pub ledger_of : Option LedgerAccount → ℕ
ledger_of none = 0
ledger_of (some a) = a.ledger

-- The third loop: both accounts and the transfer are on one ledger.
unfoldable pub check_ledgers : Assoc LedgerAccount → List LedgerTransfer → Result (Unit {0})
check_ledgers accounts [] = ok tt
check_ledgers accounts (t ∷ ts) =
    let debit = ledger_of (lookup t.debit_account_id accounts) in
    let credit = ledger_of (lookup t.credit_account_id accounts) in
    do
      throw_if (not (debit == credit) || not (debit == t.ledger))
          (message "transfer " t.id " ledger mismatch")
      check_ledgers accounts ts

abbrev pub same_bool : Bool → Bool → Bool
same_bool true b = b
same_bool false b = not b

abbrev pub same_definition : LedgerTransfer → LedgerTransfer → Bool
same_definition e t =
    e.debit_account_id == t.debit_account_id
    && e.credit_account_id == t.credit_account_id
    && eqb_ℤ e.amount t.amount
    && e.ledger == t.ledger
    && e.code == t.code
    && same_bool e.linked t.linked

-- `this.transfers.find((t) => t.id === transfer.id)`
unfoldable pub find_transfer : ℕ → List PostedTransfer → Option PostedTransfer
find_transfer id posted = find (λ p. p.transfer.id == id) posted

abbrev pub add_new :
    Option PostedTransfer
    → LedgerTransfer
    → Result (List LedgerTransfer)
    → Result (List LedgerTransfer)
add_new none t later = do rest ← later; ok (t ∷ rest)
add_new (some e) t later =
    if same_definition e.transfer t
    then later
    else err (message "transfer " t.id " exists with different definition")

-- The fourth loop: the transfers that are not posted yet.
unfoldable pub new_transfers :
    List PostedTransfer → List LedgerTransfer → Result (List LedgerTransfer)
new_transfers posted [] = ok []
new_transfers posted (t ∷ ts) = add_new (find_transfer t.id posted) t (new_transfers posted ts)

abbrev pub write :
    ℕ
    → (LedgerAccount → LedgerAccount)
    → Option LedgerAccount
    → Assoc LedgerAccount
    → Assoc LedgerAccount
write id f none accounts = accounts
write id f (some a) accounts = insert id (f a) accounts

-- A change of the account with this id, which is an object of its own.
abbrev pub adjust : ℕ → (LedgerAccount → LedgerAccount) → Assoc LedgerAccount → Assoc LedgerAccount
adjust id f accounts = write id f (lookup id accounts) accounts

unfoldable pub post : ℕ → LedgerTransfer → MockLedgerClient → MockLedgerClient
post ts t client = record {
  accounts =
      adjust t.credit_account_id (λ a. record a { credits_posted = a.credits_posted +ℤ t.amount })
        (adjust t.debit_account_id (λ a. record a { debits_posted = a.debits_posted +ℤ t.amount })
          client.accounts);
  transfers = client.transfers ++ (record { transfer = t; timestamp = ts } ∷ []);
}

-- The last loop.
unfoldable pub post_all : ℕ → List LedgerTransfer → MockLedgerClient → MockLedgerClient
post_all ts [] client = client
post_all ts (t ∷ rest) client = post_all ts rest (post ts t client)

-- All that is checked before anything is posted.
unfoldable pub admit : List LedgerTransfer → MockLedgerClient → Result (List LedgerTransfer)
admit transfers client = do
  check_transfers [] transfers
  check_accounts client.accounts transfers
  check_ledgers client.accounts transfers
  new_transfers client.transfers transfers

abbrev pub finish :
    ℕ
    → List LedgerTransfer
    → MockLedgerClient
    → Result (List LedgerTransfer)
    → MockLedgerClient × Result (List ℕ)
finish now transfers client (ok fresh) = (post_all now fresh client, ok (map (λ t. t.id) transfers))
finish now transfers client (err e) = (client, err e)

-- The result is the list of ids, or the error that the call reports. With no transfers, and with no
-- new ones, the call returns early, which is what the loops do then.
unfoldable pub create_transfers :
    ℕ → List LedgerTransfer → MockLedgerClient → MockLedgerClient × Result (List ℕ)
unfolding post_all
create_transfers now transfers client = finish now transfers client (admit transfers client)

abbrev pub balance_of : Option LedgerAccount → ℤ
balance_of none = pos 0
balance_of (some a) = a.credits_posted -ℤ a.debits_posted

unfoldable pub get_account_balance : ℕ → MockLedgerClient → ℤ
get_account_balance id client = balance_of (lookup id client.accounts)

unfoldable pub lookup_transfers : List ℕ → MockLedgerClient → List PostedTransfer
lookup_transfers ids client = keep (λ p. any (λ i. i == p.transfer.id) ids) client.transfers
