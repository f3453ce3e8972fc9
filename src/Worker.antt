-- ===== src/Worker.antt =====
-- apps/worker: how a worker claims a job, runs its handler and settles it
-- (apps/worker/src/process-job.ts and the loop of apps/worker/src/index.ts), and the queues it serves
-- (apps/worker/src/worker-runtime.ts). Logs are left out.
pub mod Settlement
pub mod Queues
pub mod Maintenance
mod Tests
use Prim.Native.String
use oss_tips.Base.{
  ℕ, ◌+◌, ◌==◌, leb, String, str_eq, Bool, true, false, not, ◌&&◌, Option, none, some, List, [],
  ◌∷◌, keep, map, trim, split_commas, if◌then◌else◌,
}
use oss_tips.Db.Jobs.{
  Job, Call, call, Recovery, claim_next, recover_stale_leases, renew_lease, complete, fail,
}

-- How a handler ends: it returns, or throws an `Error`, a `JobRetryError` or some other value.
pub data Outcome : Type 0 where
  returned threw_other : Outcome
  threw : (message : String) → Outcome
  threw_retry : (message : String) → (run_at : ℕ) → Outcome

-- What happens while a handler runs: a beat of the heartbeat, or a call of another process.
pub data Moment : Type 0 where
  beat : ℕ → Moment
  elsewhere : Call → Moment

abbrev is_missing : Option Job → Bool
is_missing none = true
is_missing (some job) = false

-- The table of jobs, and `leaseLost`: the beat that renews no lease is the last.
unfoldable pub handling : (id worker : String) → List Moment → List Job × Bool → List Job × Bool
unfolding renew_lease
handling id worker [] (rows, lost) = (rows, lost)
handling id worker (elsewhere c ∷ ms) (rows, lost) = handling id worker ms (call c rows, lost)
handling id worker (beat now ∷ ms) (rows, true) = handling id worker ms (rows, true)
handling id worker (beat now ∷ ms) (rows, false) =
    handling id worker ms
      ((renew_lease id worker now rows).0, is_missing (renew_lease id worker now rows).1)

-- What is done of a job when its handler has ended.
unfoldable pub settle : Job → (worker : String) → ℕ → Outcome → List Job × Bool → List Job
unfolding complete fail
settle job worker now returned (rows, lost) =
    if lost then rows else (complete job.id worker now rows).0
settle job worker now threw_other (rows, lost) =
    (fail job.id "Job handler failed" none worker now rows).0
settle job worker now (threw message) (rows, lost) = (fail job.id message none worker now rows).0
settle job worker now (threw_retry message run_at) (rows, lost) =
    (fail job.id message (some run_at) worker now rows).0

abbrev process_with :
    Option (Job → Outcome) → Job → (worker : String) → List Moment → ℕ → List Job → List Job
process_with none job worker ms now rows =
    (fail job.id (String.◌++◌ "Unsupported job kind: " job.kind) none worker now rows).0
process_with (some handler) job worker ms now rows =
    settle job worker now (handler job) (handling job.id worker ms (rows, false))

-- `processJob`: `ms` happen while the handler runs, and it has ended at `now`.
unfoldable pub process_job :
    (handlers : String → Option (Job → Outcome))
    → Job
    → (worker : String) → List Moment
    → ℕ
    → List Job
    → List Job
process_job handlers job worker ms now rows =
    process_with (handlers job.kind) job worker ms now rows

-- `recoverStaleLeases` of a worker: each of its queues.
unfoldable pub recover_queues : List String → ℕ → List Job → List Job × Recovery
recover_queues [] now rows = (rows, record { requeued = 0; failed_jobs = 0 })
recover_queues (queue ∷ queues) now rows =
    let (after, one) = recover_stale_leases (some queue) now rows in
    let (last, rest) = recover_queues queues now after in
    (
      last,
      record {
        requeued = one.requeued + rest.requeued;
        failed_jobs = one.failed_jobs + rest.failed_jobs;
      },
    )

abbrev claim_or : (List Job × Option Job) → List Job × Option Job → List Job × Option Job
claim_or (rows, some job) next = (rows, some job)
claim_or (rows, none) next = next

-- The loop of a worker takes a job of the first of its queues that has one.
unfoldable pub claim_first :
    (String → Bool) → List String → (worker : String) → ℕ → List Job → List Job × Option Job
claim_first skipped [] worker now rows = (rows, none)
claim_first skipped (queue ∷ queues) worker now rows =
    let rest = claim_first skipped queues worker now rows in
    claim_or (claim_next skipped queue worker now rows) rest

abbrev pub otp_queue : String
otp_queue = "otp"

abbrev default_worker_queues : List String
default_worker_queues = "default" ∷ "exports" ∷ "domains" ∷ []

pub record WorkerQueuePlan : Type 0 where
  pub queues : List String
  pub otp_only : Bool
  pub run_dispatch_prework : Bool

abbrev pub or_default : List String → List String
or_default [] = default_worker_queues
or_default (queue ∷ queues) = queue ∷ queues

abbrev pub is_otp_only : List String → Bool
is_otp_only (queue ∷ []) = str_eq queue otp_queue
is_otp_only _ = false

abbrev or_empty : Option String → String
or_empty none = ""
or_empty (some raw) = raw

abbrev pub requested : Option String → List String
requested raw = keep (λ q. not (str_eq q "")) (map trim (split_commas (or_empty raw)))

-- `workerQueuePlan`
unfoldable pub worker_queue_plan : Option String → WorkerQueuePlan
worker_queue_plan raw =
    let queues = or_default (requested raw) in
    let otp_only = is_otp_only queues in
    let general = if otp_only then queues else keep (λ q. not (str_eq q otp_queue)) queues in
    record { queues = or_default general; otp_only = otp_only; run_dispatch_prework = not otp_only }
