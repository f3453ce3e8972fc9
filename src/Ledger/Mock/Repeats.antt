-- ===== src/Ledger/Mock/Repeats.antt =====
-- A batch of transfers that is sent again.
use oss_tips.Base.{
  ℕ, ◌+ℤ◌, ◌==◌, ==_iff, pos, leb_ℤ, ◌||◌, Bool, true, false, Option, none, some, List, [], ◌∷◌,
  ◌++◌, map, any, Bool-cases, inl, inr, All, if◌then◌else◌, ◌≡◌, refl, sym, ◌∙◌, ap, subst, arith,
  Result, ok, ◌>>◌, throw_if, throw_if-eq-ok, ok-injective, >>=-eq-ok, Result-cases, Assoc, lookup,
  contains,
}
use mathlib.Core.List.{append-nil, append_assoc}
use oss_tips.Ledger.Intents.{LedgerTransfer}
use oss_tips.Ledger.Mock.{
  LedgerAccount, PostedTransfer, MockLedgerClient, check_transfers, check_accounts, check_ledgers,
  ledger_of, message, find_transfer, new_transfers, add_new, same_bool, same_definition, adjust,
  post, post_all, admit, create_transfers,
}
use oss_tips.Ledger.Mock.Posting.{apply_to, lookup-adjust, contains-post}
use oss_tips.Ledger.Mock.Books.{All-map}

abbrev IsPosted : List PostedTransfer → LedgerTransfer → Type 0
IsPosted ps t =
    (p : PostedTransfer) × (find_transfer t.id ps ≡ some p) × (same_definition p.transfer t ≡ true)

abbrev stamp : ℕ → LedgerTransfer → PostedTransfer
stamp now t = record { transfer = t; timestamp = now }

same_bool_self : (b : Bool) → same_bool b b ≡ true
same_bool_self true = refl
same_bool_self false = refl

same_definition_self : (t : LedgerTransfer) → same_definition t t ≡ true
same_definition_self t = let b = same_bool_self t.linked in ground arith

-- A transfer between two parts of a list does not change what is found under another id.
find-middle :
    (id : ℕ) (ps qs : List PostedTransfer) (p : PostedTransfer)
    → (p.transfer.id == id) ≡ false
    → find_transfer id (ps ++ p ∷ qs) ≡ find_transfer id (ps ++ qs)
unfolding find_transfer
find-middle id [] qs p other = rw other refl
find-middle id (q ∷ ps) qs p other =
    ap (λ o. if q.transfer.id == id then some q else o) (find-middle id ps qs p other)

find-append_some :
    (id : ℕ) (ps qs : List PostedTransfer) (p : PostedTransfer)
    → find_transfer id ps ≡ some p
    → find_transfer id (ps ++ qs) ≡ some p
unfolding find_transfer
find-append_some id [] qs p e = absurd (cc)
find-append_some id (q ∷ ps) qs p e = elim (Bool-cases (q.transfer.id == id)) [
  | inl same ↦ rw same (rw same at e)
  | inr other ↦ rw other (find-append_some id ps qs p (rw other at e))
]

find-append_none :
    (id : ℕ) (ps qs : List PostedTransfer)
    → find_transfer id ps ≡ none
    → find_transfer id (ps ++ qs) ≡ find_transfer id qs
unfolding find_transfer
find-append_none id [] qs e = refl
find-append_none id (q ∷ ps) qs e = elim (Bool-cases (q.transfer.id == id)) [
  | inl same ↦ absurd (let bad = rw same at e in cc)
  | inr other ↦ rw other (find-append_none id ps qs (rw other at e))
]

or-false : (a b : Bool) → (a || b) ≡ false → (a ≡ false) × (b ≡ false)
or-false a b h = ground arith

check_transfers-new :
    (ids : List ℕ) (ts : List LedgerTransfer)
    → check_transfers ids ts ≡ ok tt
    → All (λ u. any (λ i. i == u.id) ids ≡ false) ts
unfolding check_transfers
check_transfers-new ids [] e = tt
check_transfers-new ids (t ∷ ts) e =
    let first = throw_if-eq-ok _ _ _ e in
    let second = throw_if-eq-ok _ _ _ first.1 in
    (
      second.0,
      All-map _ _ (λ u h. (or-false _ _ h).1) ts (check_transfers-new (t.id ∷ ids) ts second.1),
    )

next_check :
    (ids : List ℕ) (t : LedgerTransfer) (ts : List LedgerTransfer)
    → check_transfers ids (t ∷ ts) ≡ ok tt
    → check_transfers (t.id ∷ ids) ts ≡ ok tt
unfolding check_transfers
next_check ids t ts e =
    let alone : Bool =
      t.id == 0 || leb_ℤ t.amount (pos 0) || t.debit_account_id == t.credit_account_id in
    let later : Result (Unit {0}) = check_transfers (t.id ∷ ids) ts in
    let first =
      throw_if-eq-ok alone (message "invalid transfer " t.id "")
        (throw_if (any (λ i. i == t.id) ids) (message "duplicate transfer " t.id "") >> later) e in
    (throw_if-eq-ok (any (λ i. i == t.id) ids) (message "duplicate transfer " t.id "") later
      first.1).1

All-zip :
    (P Q : LedgerTransfer → Type 0) (ts : List LedgerTransfer)
    → All P ts
    → All Q ts
    → All (λ u. P u × Q u) ts
All-zip P Q [] h k = tt
All-zip P Q (t ∷ ts) h k = ((h.0, k.0), All-zip P Q ts h.1 k.1)

-- A transfer that is posted stays posted when one with another id comes between.
IsPosted-middle :
    (now : ℕ) (ps qs : List PostedTransfer) (t u : LedgerTransfer)
    → IsPosted (ps ++ qs) u × ((t.id == u.id) ≡ false)
    → IsPosted (ps ++ stamp now t ∷ qs) u
IsPosted-middle now ps qs t u ((p, found, same), other) =
    (p, find-middle u.id ps qs (stamp now t) other ∙ found, same)

new_is_found :
    (now : ℕ) (ps qs : List PostedTransfer) (t : LedgerTransfer)
    → find_transfer t.id ps ≡ none
    → IsPosted (ps ++ stamp now t ∷ qs) t
unfolding find_transfer
new_is_found now ps qs t missing = (
  stamp now t,
  find-append_none t.id ps (stamp now t ∷ qs) missing ∙ rw ((==_iff t.id t.id).1 refl) refl,
  same_definition_self t,
)

add_new-IsPosted :
    (now : ℕ) (ps : List PostedTransfer) (t : LedgerTransfer) (ts : List LedgerTransfer)
    (o : Option PostedTransfer) (later : Result (List LedgerTransfer)) (fresh : List LedgerTransfer)
    → find_transfer t.id ps ≡ o
    → add_new o t later ≡ ok fresh
    → All (λ u. (t.id == u.id) ≡ false) ts
    → ((rest : List LedgerTransfer)
        → later ≡ ok rest
        → All (IsPosted (ps ++ map (stamp now) rest)) ts)
    → All (IsPosted (ps ++ map (stamp now) fresh)) (t ∷ ts)
add_new-IsPosted now ps t ts none later fresh missing e others all =
    let (rest, returned, more) = >>=-eq-ok later (λ r. ok (t ∷ r)) e in
    subst (λ f. All (IsPosted (ps ++ map (stamp now) f)) (t ∷ ts)) (ok-injective _ _ more)
      (
        new_is_found now ps (map (stamp now) rest) t missing,
        All-map _ _ (λ u h. IsPosted-middle now ps (map (stamp now) rest) t u h) ts
            (All-zip _ _ ts (all rest returned) others),
      )
add_new-IsPosted now ps t ts (some p) later fresh found e others all =
    elim (Bool-cases (same_definition p.transfer t)) [
      | inl same ↦ (
        (p, find-append_some t.id ps (map (stamp now) fresh) p found, same),
        all fresh (rw same at e),
      )
      | inr other ↦ absurd (let bad = rw other at e in cc)
    ]

new_transfers-IsPosted :
    (now : ℕ) (ps : List PostedTransfer) (ids : List ℕ) (ts fresh : List LedgerTransfer)
    → check_transfers ids ts ≡ ok tt
    → new_transfers ps ts ≡ ok fresh
    → All (IsPosted (ps ++ map (stamp now) fresh)) ts
unfolding new_transfers
new_transfers-IsPosted now ps ids [] fresh c e = tt
new_transfers-IsPosted now ps ids (t ∷ ts) fresh c e =
    let later = next_check ids t ts c in
    let others =
      All-map _ (λ u. (t.id == u.id) ≡ false) (λ u h. (or-false _ _ h).0) ts
        (check_transfers-new (t.id ∷ ids) ts later) in
    add_new-IsPosted now ps t ts (find_transfer t.id ps) (new_transfers ps ts) fresh refl e others
      (λ rest returned. new_transfers-IsPosted now ps (t.id ∷ ids) ts rest later returned)

new_transfers_none :
    (ps : List PostedTransfer) (ts : List LedgerTransfer)
    → All (IsPosted ps) ts
    → new_transfers ps ts ≡ ok []
unfolding new_transfers
new_transfers_none ps [] h = refl
new_transfers_none ps (t ∷ ts) ((p, found, same), rest) =
    rw (found, same) (new_transfers_none ps ts rest)

-- What the later checks read of the accounts.
IsAlike : Assoc LedgerAccount → Assoc LedgerAccount → Type 0
IsAlike m n =
    ((j : ℕ) → contains j m ≡ contains j n)
    × ((j : ℕ) → ledger_of (lookup j m) ≡ ledger_of (lookup j n))

check_accounts-IsAlike :
    (m n : Assoc LedgerAccount) (ts : List LedgerTransfer)
    → IsAlike m n
    → check_accounts m ts ≡ check_accounts n ts
unfolding IsAlike check_accounts
check_accounts-IsAlike m n [] a = refl
check_accounts-IsAlike m n (t ∷ ts) a =
    rw (a.0 t.debit_account_id, a.0 t.credit_account_id, check_accounts-IsAlike m n ts a) refl

check_ledgers-IsAlike :
    (m n : Assoc LedgerAccount) (ts : List LedgerTransfer)
    → IsAlike m n
    → check_ledgers m ts ≡ check_ledgers n ts
unfolding IsAlike check_ledgers
check_ledgers-IsAlike m n [] a = refl
check_ledgers-IsAlike m n (t ∷ ts) a =
    rw (a.1 t.debit_account_id, a.1 t.credit_account_id, check_ledgers-IsAlike m n ts a) refl

ledger-apply :
    (c : Bool) (f : LedgerAccount → LedgerAccount) (o : Option LedgerAccount)
    → ((a : LedgerAccount) → (f a).ledger ≡ a.ledger)
    → ledger_of (if c then apply_to f o else o) ≡ ledger_of o
ledger-apply true f none same = refl
ledger-apply true f (some a) same = same a
ledger-apply false f o same = refl

ledger-adjust :
    (k j : ℕ) (f : LedgerAccount → LedgerAccount) (m : Assoc LedgerAccount)
    → ((a : LedgerAccount) → (f a).ledger ≡ a.ledger)
    → ledger_of (lookup j (adjust k f m)) ≡ ledger_of (lookup j m)
ledger-adjust k j f m same =
    ap ledger_of (lookup-adjust k j f m) ∙ ledger-apply (k == j) f (lookup j m) same

post-IsAlike :
    (now : ℕ) (t : LedgerTransfer) (client : MockLedgerClient)
    → IsAlike (post now t client).accounts client.accounts
unfolding IsAlike post
post-IsAlike now t client =
    let debit : LedgerAccount → LedgerAccount =
      λ a. record a { debits_posted = a.debits_posted +ℤ t.amount } in
    let credit : LedgerAccount → LedgerAccount =
      λ a. record a { credits_posted = a.credits_posted +ℤ t.amount } in
    (
      λ j. contains-post j now t client,
      λ j.
          ledger-adjust t.credit_account_id j credit
            (adjust t.debit_account_id debit client.accounts) (λ a. refl)
          ∙ ledger-adjust t.debit_account_id j debit client.accounts (λ a. refl),
    )

post_all-IsAlike :
    (now : ℕ) (fresh : List LedgerTransfer) (client : MockLedgerClient)
    → IsAlike (post_all now fresh client).accounts client.accounts
unfolding IsAlike post_all
post_all-IsAlike now [] client = (λ j. refl, λ j. refl)
post_all-IsAlike now (t ∷ rest) client =
    let (a, b) = post_all-IsAlike now rest (post now t client) in
    let (c, d) = post-IsAlike now t client in (λ j. a j ∙ c j, λ j. b j ∙ d j)

post_all-transfers :
    (now : ℕ) (fresh : List LedgerTransfer) (client : MockLedgerClient)
    → (post_all now fresh client).transfers ≡ client.transfers ++ map (stamp now) fresh
unfolding post_all post
post_all-transfers now [] client = sym (append-nil client.transfers)
post_all-transfers now (t ∷ rest) client =
    post_all-transfers now rest (post now t client)
    ∙ append_assoc client.transfers (stamp now t ∷ []) (map (stamp now) rest)

admit_again :
    (now : ℕ) (ts fresh : List LedgerTransfer) (client : MockLedgerClient)
    → admit ts client ≡ ok fresh
    → admit ts (post_all now fresh client) ≡ ok []
unfolding admit
admit_again now ts fresh client e =
    let (u, alone, e1) = >>=-eq-ok (check_transfers [] ts) _ e in
    let (v, accounts, e2) = >>=-eq-ok (check_accounts client.accounts ts) _ e1 in
    let (w, ledgers, e3) = >>=-eq-ok (check_ledgers client.accounts ts) _ e2 in
    let after = post_all now fresh client in
    let alike = post_all-IsAlike now fresh client in
    rw
      (
        alone,
        check_accounts-IsAlike after.accounts client.accounts ts alike ∙ accounts,
        check_ledgers-IsAlike after.accounts client.accounts ts alike ∙ ledgers,
        post_all-transfers now fresh client,
      )
      (new_transfers_none _ ts (new_transfers-IsPosted now client.transfers [] ts fresh alone e3))

-- A batch that was accepted is accepted again with the same ids, at whatever time, and posts nothing
-- the second time.
pub create_transfers_again :
    (now later : ℕ) (ts : List LedgerTransfer) (client : MockLedgerClient) (ids : List ℕ)
    → (create_transfers now ts client).1 ≡ ok ids
    → let after = (create_transfers now ts client).0 in
      create_transfers later ts after ≡ (after, ok ids)
unfolding create_transfers post_all
create_transfers_again now later ts client ids e = elim (Result-cases (admit ts client)) [
  | inl (fresh, admitted) ↦ rw admitted (
      rw (admit_again now ts fresh client admitted)
        (ap (λ r. (post_all now fresh client, r)) (rw admitted at e)))
  | inr (why, refused) ↦ absurd (let bad = rw refused at e in cc)
]
