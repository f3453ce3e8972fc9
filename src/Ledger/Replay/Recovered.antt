-- ===== src/Ledger/Replay/Recovered.antt =====
-- The client after a recovery.
use oss_tips.Base.{
  ℕ, ◌+◌, ◌≤◌, ◌≡◌, refl, String, List, [], ◌∷◌, Result, ok, err, length, keep, arith, Bool,
}
use oss_tips.Ledger.Intents.{PostingIntent}
use oss_tips.Ledger.Intents.Balances.{net}
use oss_tips.Ledger.Mock.{MockLedgerClient, get_account_balance}
use oss_tips.Ledger.Mock.Books.{
  IsBooked, posted, create_accounts-IsBooked, create_transfers-IsBooked,
}
use oss_tips.Ledger.Replay.{ReplayResult, then_post, replay_intent, replay_loop, replay_intents}

then_post-IsBooked :
    (now : ℕ) (intent : PostingIntent) (r : MockLedgerClient × Result (Unit {0}))
    → IsBooked r.0
    → IsBooked (then_post now intent r).0
then_post-IsBooked now intent (client, ok _) booked =
    create_transfers-IsBooked now intent.transfers client booked
then_post-IsBooked now intent (client, err e) booked = booked

kept-le : (p : ReplayResult → Bool) (rs : List ReplayResult) → length (keep p rs) ≤ length rs
kept-le p [] = omega arith
kept-le p (r ∷ rs) = ground (arith, kept-le p rs)

module _ (sha256 : String → List ℕ) where
  replay_loop-IsBooked :
      (now : ℕ) (intents : List PostingIntent) (client : MockLedgerClient)
      → IsBooked client
      → IsBooked (replay_loop sha256 now intents client).0
  unfolding replay_loop replay_intent
  replay_loop-IsBooked now [] client booked = booked
  replay_loop-IsBooked now (intent ∷ intents) client booked =
      replay_loop-IsBooked now intents _
        (then_post-IsBooked now intent _ (create_accounts-IsBooked _ client booked))

  replay_loop-length :
      (now : ℕ) (intents : List PostingIntent) (client : MockLedgerClient)
      → length (replay_loop sha256 now intents client).1 ≡ length intents
  unfolding replay_loop
  replay_loop-length now [] client = refl
  replay_loop-length now (intent ∷ intents) client = omega (arith, replay_loop-length now intents _)

  -- A replay gives one result for each intent, and each is counted once, as a success or a failure;
  -- if the balances of the client's accounts were the net of its transfers before, they are so
  -- after it, also where some intents failed.
  pub replay_is_booked :
      (now : ℕ) (intents : List PostingIntent) (client : MockLedgerClient)
      → ((id : ℕ) → get_account_balance id client ≡ net id (posted client))
      → let (after, summary) = replay_intents sha256 now intents client in
        (summary.total ≡ length intents)
        × (summary.succeeded + summary.failed ≡ length intents)
        × ((id : ℕ) → get_account_balance id after ≡ net id (posted after))
  unfolding replay_intents
  replay_is_booked now intents client booked =
      let n = replay_loop-length now intents client in
      (
        n,
        omega (arith, n, kept-le (λ r. r.succeeds) (replay_loop sha256 now intents client).1),
        replay_loop-IsBooked now intents client booked,
      )
