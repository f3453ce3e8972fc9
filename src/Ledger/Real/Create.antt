-- ===== src/Ledger/Real/Create.antt =====
-- packages/ledger/src/client/real.ts: the call that creates a batch of transfers.
use oss_tips.Base.{
  ℕ, ◌==◌, String, not, ◌||◌, Option, none, some, List, [], ◌∷◌, map, any, find, length, Result, ok,
  err, if◌then◌else◌,
}
use oss_tips.Ledger.Intents.{LedgerTransfer}
use oss_tips.Ledger.Mock.{PostedTransfer, message}
use oss_tips.Ledger.Real.{
  TransferStatus, StoredTransfer, TigerBeetle, conflict, is_complete, check_batch, request,
  is_created, is_committed, remember_transfers,
}

-- The client's own list, and the state of TigerBeetle.
pub record RealClient (S : Type 0) : Type 0 where
  pub remembered : List PostedTransfer
  pub durable : S

abbrev pub ids_of : List LedgerTransfer → List ℕ
ids_of transfers = map (λ t. t.id) transfers

abbrev pair_up : List LedgerTransfer → List TransferStatus → List (ℕ × TransferStatus)
pair_up [] statuses = []
pair_up (t ∷ ts) [] = []
pair_up (t ∷ ts) (s ∷ statuses) = (t.id, s) ∷ pair_up ts statuses

abbrev first_of :
    Option (ℕ × TransferStatus) → Option (ℕ × TransferStatus) → Option (ℕ × TransferStatus)
first_of none next = next
first_of (some p) next = some p

-- The transfer whose status is reported: the first that is not committed, else not created.
abbrev reported : List LedgerTransfer → List TransferStatus → Option (ℕ × TransferStatus)
reported transfers statuses =
    first_of (find (λ p. not (is_committed p.1)) (pair_up transfers statuses))
      (find (λ p. not (is_created p.1)) (pair_up transfers statuses))

abbrev status_error : (TransferStatus → ℕ) → Option (ℕ × TransferStatus) → String
status_error number none = "TigerBeetle transfer 0 failed with status -1"
status_error number (some (id, status)) =
    message "TigerBeetle transfer " id (message " failed with status " (number status) "")

module _ {S : Type 0} (tb : TigerBeetle S) where
  abbrev pub accept :
      ℕ → List LedgerTransfer → List PostedTransfer → S → RealClient S × Result (Result (List ℕ))
  accept now transfers posted s = (
    record { remembered = remember_transfers now transfers posted; durable = s },
    ok (ok (ids_of transfers)),
  )

  abbrev pub refuse_with :
      List PostedTransfer → S → String → RealClient S × Result (Result (List ℕ))
  refuse_with posted s e = (record { remembered = posted; durable = s }, ok (err e))

  -- What is done of a batch that was not created whole.
  abbrev pub settle_partly :
      ℕ
      → List LedgerTransfer
      → List PostedTransfer
      → S
      → List TransferStatus
      → List StoredTransfer
      → Option String
      → RealClient S × Result (Result (List ℕ))
  settle_partly now transfers posted s statuses stored (some e) = refuse_with posted s e
  settle_partly now transfers posted s statuses stored none =
      if not (is_complete transfers stored) || any (λ x. not (is_committed x)) statuses
      then refuse_with posted s (status_error tb.status_number (reported transfers statuses))
      else accept now transfers posted s

  abbrev pub settle_submitted :
      ℕ
      → List LedgerTransfer
      → List PostedTransfer
      → S × List TransferStatus
      → RealClient S × Result (Result (List ℕ))
  settle_submitted now transfers posted (s, statuses) =
      if not (length statuses == length transfers)
      then refuse_with posted s (
          message "TigerBeetle returned " (length statuses)
            (message " transfer results for " (length transfers) " transfers"))
      else if any (λ x. not (is_created x)) statuses
      then settle_partly now transfers posted s statuses (tb.look_up (ids_of transfers) s)
          (conflict tb.linked_flag tb.no_flag transfers (tb.look_up (ids_of transfers) s))
      else accept now transfers posted s

  abbrev pub submit_unless :
      ℕ
      → List LedgerTransfer
      → List PostedTransfer
      → S
      → List StoredTransfer
      → Option String
      → RealClient S × Result (Result (List ℕ))
  submit_unless now transfers posted s stored (some e) = refuse_with posted s e
  submit_unless now transfers posted s stored none =
      if is_complete transfers stored
      then accept now transfers posted s
      else settle_submitted now transfers posted
          (tb.submit (map (request tb.linked_flag tb.no_flag) transfers) s)

  abbrev pub send_checked :
      ℕ
      → List LedgerTransfer
      → RealClient S
      → Result (Result (Unit {0}))
      → RealClient S × Result (Result (List ℕ))
  send_checked now transfers client (err e) = (client, err e)
  send_checked now transfers client (ok (err e)) = (client, ok (err e))
  send_checked now transfers client (ok (ok done)) =
      submit_unless now transfers client.remembered client.durable
        (tb.look_up (ids_of transfers) client.durable)
        (conflict tb.linked_flag tb.no_flag transfers
          (tb.look_up (ids_of transfers) client.durable))

  -- `createTransfers`, with the answer of a call that does not throw.
  unfoldable pub create_durable_transfers :
      ℕ → List LedgerTransfer → RealClient S → RealClient S × Result (Result (List ℕ))
  create_durable_transfers now [] client = (client, ok (ok []))
  create_durable_transfers now (t ∷ ts) client =
      send_checked now (t ∷ ts) client (check_batch [] (t ∷ ts))
