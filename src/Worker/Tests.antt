-- ===== src/Worker/Tests.antt =====
-- A worker that holds a mail whose server is down.
use Prim.Native.String
use oss_tips.Base.{
  ℕ, length, String, true, false, any, Option, none, some, List, [], ◌∷◌, Memᴰ, ◌≡◌, ◌≢◌, refl,
  arith,
}
use oss_tips.Db.Jobs.{
  Job, pending, email_notification_job, claimed, enqueue, claim_next, earliest, Call, enqueue_call,
  claim_next_call, recover_call, call, run,
}
use oss_tips.Db.Jobs.Valid.{IsNew, jobs-IsValid}
use oss_tips.Db.Jobs.Leases.{IsLeased}
use oss_tips.Worker.{
  Outcome, threw_retry, Moment, beat, elsewhere, process_job, worker_queue_plan, otp_queue,
}
use oss_tips.Worker.Settlement.{standing, process_job_settles}
use oss_tips.Db.Jobs.{enqueue_if_absent}
use oss_tips.Db.Jobs.Daily.{
  deterministic_job_id, storage_maintenance_job, retention_maintenance_job,
}
use oss_tips.Worker.Maintenance.{
  enqueue_kinds, enqueue_storage_maintenance_jobs, enqueue_retention_maintenance_jobs,
  enqueue_maintenance_jobs,
}
use oss_tips.Worker.Maintenance.Daily.{maintenance_once_a_day}
use oss_tips.Worker.Queues.{is_otp, queue_plan_isolates}

abbrev mail : Job
unfolding email_notification_job
mail = email_notification_job "j1" "{}" 100 100

mail-IsNew : IsNew mail
unfolding email_notification_job
mail-IsNew = record {
  starts_pending = refl;
  no_attempts = refl;
  some_attempts = omega arith;
  no_time = refl;
  no_worker = refl;
}

abbrev first_claim : List Call
first_claim = enqueue_call mail ∷ claim_next_call (λ id. false) "default" "w1" 200 ∷ []

abbrev held : Job
held = claimed "w1" 200 mail

held_there : Memᴰ held (run first_claim [])
unfolding email_notification_job run call enqueue claim_next earliest
held_there = Memᴰ.head refl

held-IsLeased : IsLeased "w1" 200 held
held-IsLeased = record { in_processing = refl; since = refl; by_worker = refl }

abbrev send : Job → Outcome
send job = threw_retry "smtp down" 900_000

abbrev handlers : String → Option (Job → Outcome)
handlers kind = some send

-- A recovery that the heartbeat forestalls.
abbrev meanwhile : List Moment
meanwhile = beat 150_200 ∷ elsewhere (recover_call none 400_000) ∷ []

process_job_settles_example :
    (l : Job) × Memᴰ l (process_job handlers held "w1" meanwhile 400_100 (run first_claim []))
    × (l.id ≡ "j1")
    × (l.locked_by ≡ none)
    × (standing l ≡ (pending, 1, 900_000))
unfolding email_notification_job
process_job_settles_example =
    process_job_settles handlers send "w1" 200 400_100 meanwhile (run first_claim []) held refl
      (jobs-IsValid first_claim (mail-IsNew, (tt, tt))) held-IsLeased (tt, omega arith, tt)
      held_there

queue_plan_isolates_example :
    (any is_otp (worker_queue_plan (some "otp")).queues ≡ (worker_queue_plan (some "otp")).otp_only)
    × ((worker_queue_plan (some "otp")).otp_only ≡ true
        → (worker_queue_plan (some "otp")).queues ≡ otp_queue ∷ [])
    × ((worker_queue_plan (some "otp")).queues ≢ [])
queue_plan_isolates_example = queue_plan_isolates (some "otp")

-- A general worker leaves the codes to others.
general : (worker_queue_plan (some "default, otp")).queues ≡ "default" ∷ []
unfolding worker_queue_plan
general = refl

-- In place of a digest, the text from its end.
abbrev digest : String → String
digest String.[] = String.[]
digest (String.◌∷◌ c s) = String.◌++◌ (digest s) (String.◌∷◌ c String.[])

abbrev day : ℕ → String
day at = "2026-01-02"

-- Another worker starts on the same day, after a job of maintenance was claimed.
abbrev morning : List Call
morning = claim_next_call (λ id. false) "default" "w1" 200 ∷ []

maintenance_once_a_day_example :
    enqueue_maintenance_jobs digest day 300
      (run morning (enqueue_maintenance_jobs digest day 100 []))
    ≡ run morning (enqueue_maintenance_jobs digest day 100 [])
maintenance_once_a_day_example = maintenance_once_a_day digest day 100 300 morning [] refl

eight_jobs : length (enqueue_maintenance_jobs digest day 100 []) ≡ 8
unfolding enqueue_maintenance_jobs enqueue_storage_maintenance_jobs
    enqueue_retention_maintenance_jobs enqueue_kinds enqueue_if_absent storage_maintenance_job
    retention_maintenance_job deterministic_job_id
eight_jobs = refl

-- The digest of 64 zeros gives an id of a random kind.
zero_id :
    deterministic_job_id
      (λ s. "0000000000000000000000000000000000000000000000000000000000000000")
      "x"
    ≡ "00000000-0000-4000-8000-000000000000"
unfolding deterministic_job_id
zero_id = refl
