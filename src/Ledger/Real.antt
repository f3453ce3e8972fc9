-- ===== src/Ledger/Real.antt =====
-- packages/ledger/src/client/real.ts: how transfers are created with TigerBeetle. Its client, the
-- numbers of its enumerations and its state are parameters. The connection, accounts, the lookup of
-- posted transfers and balances are left out.
pub mod Create
pub mod Durable
mod Tests
use Prim.Native.String
use oss_tips.Base.{
  ℕ, ◌-◌, ◌^◌, ◌==◌, leb, ltb, ℤ, pos, leb_ℤ, eqb_ℤ, String, Bool, true, false, not, ◌&&◌, ◌||◌,
  Option, none, some, List, [], ◌∷◌, ◌++◌, map, any, find, length, Result, ok, err, if◌then◌else◌,
}
use oss_tips.Ledger.Ids.{decimal}
use oss_tips.Ledger.Intents.{LedgerTransfer}
use oss_tips.Ledger.Mock.{PostedTransfer, message}

abbrev u128_max : ℕ
u128_max = 2 ^ 128 - 1

pub data TransferStatus : Type 0 where
  created exists linked_event_failed : TransferStatus
  other_status : ℕ → TransferStatus

pub record StoredTransfer : Type 0 where
  pub id : ℕ
  pub debit_account_id : ℕ
  pub credit_account_id : ℕ
  pub amount : ℤ
  pub pending_id : ℕ
  pub user_data_128 : ℕ
  pub user_data_64 : ℕ
  pub user_data_32 : ℕ
  pub timeout : ℕ
  pub ledger : ℕ
  pub code : ℕ
  pub flags : ℕ
  pub timestamp : ℕ

-- `TigerBeetleClient` on a state, with `TransferFlags` and the numbers of the statuses.
pub record TigerBeetle (S : Type 0) : Type 0 where
  pub look_up : List ℕ → S → List StoredTransfer
  pub submit : List StoredTransfer → S → S × List TransferStatus
  pub linked_flag : ℕ
  pub no_flag : ℕ
  pub status_number : TransferStatus → ℕ

-- `transferMismatch`: the name of the first field that differs.
abbrev pub transfer_mismatch :
    (linked_flag no_flag : ℕ) → LedgerTransfer → StoredTransfer → Option String
transfer_mismatch linked_flag no_flag e a =
    if not (e.debit_account_id == a.debit_account_id)
    then some "debit account"
    else if not (e.credit_account_id == a.credit_account_id)
    then some "credit account"
    else if not (eqb_ℤ e.amount a.amount)
    then some "amount"
    else if not (e.ledger == a.ledger)
    then some "ledger"
    else if not (e.code == a.code)
    then some "code"
    else if not ((if e.linked then linked_flag else no_flag) == a.flags)
    then some "flags"
    else if not (a.pending_id == 0)
    then some "pending id"
    else if not (a.user_data_128 == 0) || not (a.user_data_64 == 0) || not (a.user_data_32 == 0)
    then some "user data"
    else if not (a.timeout == 0)
    then some "timeout"
    else none

abbrev or_this : Option StoredTransfer → ℕ → StoredTransfer → Option StoredTransfer
or_this (some later) id t = some later
or_this none id t = if t.id == id then some t else none

-- `byId.get`, where the last entry of an id counts.
abbrev pub by_id : ℕ → List StoredTransfer → Option StoredTransfer
by_id id [] = none
by_id id (t ∷ stored) = or_this (by_id id stored) id t

abbrev or_later : Option String → Option String → Option String
or_later (some first) later = some first
or_later none later = later

abbrev conflict_text : ℕ → Option String → Option String
conflict_text id none = none
conflict_text id (some field) =
    some (message "TigerBeetle transfer " id (String.◌++◌ " exists with different " field))

abbrev pub check_stored :
    (linked_flag no_flag : ℕ) → LedgerTransfer → Option StoredTransfer → Option String
check_stored linked_flag no_flag t none = none
check_stored linked_flag no_flag t (some a) =
    conflict_text t.id (transfer_mismatch linked_flag no_flag t a)

-- `inspectExistingTransfers`: its conflict
abbrev pub conflict :
    (linked_flag no_flag : ℕ) → List LedgerTransfer → List StoredTransfer → Option String
conflict linked_flag no_flag [] stored = none
conflict linked_flag no_flag (t ∷ ts) stored =
    or_later (check_stored linked_flag no_flag t (by_id t.id stored))
      (conflict linked_flag no_flag ts stored)

abbrev is_found : Option StoredTransfer → Bool
is_found none = false
is_found (some t) = true

-- `inspectExistingTransfers`: whether it is complete
abbrev pub is_complete : List LedgerTransfer → List StoredTransfer → Bool
is_complete [] stored = true
is_complete (t ∷ ts) stored = is_found (by_id t.id stored) && is_complete ts stored

-- The checks of a batch throw, refuse it, or pass.
abbrev pub check_batch : List ℕ → List LedgerTransfer → Result (Result (Unit {0}))
check_batch seen [] = ok (ok tt)
check_batch seen (t ∷ ts) =
    let rest = check_batch (t.id ∷ seen) ts in
    if t.id == 0 || leb u128_max t.id
    then err "transfer id must be an unsigned 128-bit value other than zero/max"
    else if leb_ℤ t.amount (pos 0) || t.debit_account_id == t.credit_account_id
    then ok (err (message "invalid transfer " t.id ""))
    else if any (λ i. i == t.id) seen
    then ok (err (message "duplicate transfer " t.id ""))
    else rest

abbrev pub request : (linked_flag no_flag : ℕ) → LedgerTransfer → StoredTransfer
request linked_flag no_flag t = record {
  id = t.id;
  debit_account_id = t.debit_account_id;
  credit_account_id = t.credit_account_id;
  amount = t.amount;
  pending_id = 0;
  user_data_128 = 0;
  user_data_64 = 0;
  user_data_32 = 0;
  timeout = 0;
  ledger = t.ledger;
  code = t.code;
  flags = if t.linked then linked_flag else no_flag;
  timestamp = 0;
}

abbrev pub is_created : TransferStatus → Bool
is_created created = true
is_created _ = false

-- `committedStatuses.has`
abbrev pub is_committed : TransferStatus → Bool
is_committed (other_status n) = false
is_committed _ = true

-- `rememberTransfers`
unfoldable pub remember_transfers :
    ℕ → List LedgerTransfer → List PostedTransfer → List PostedTransfer
remember_transfers now [] posted = posted
remember_transfers now (t ∷ ts) posted = remember_transfers now ts (
    if any (λ p. p.transfer.id == t.id) posted
    then posted
    else posted ++ record { transfer = t; timestamp = now } ∷ [])
