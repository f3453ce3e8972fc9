-- ===== src/Db/Jobs.antt =====
-- packages/db/src/repositories/jobs.ts: the queue of durable jobs, as a table of rows. A payload is its
-- JSON text; the columns `dedupe_key` and `created_at`, which the methods leave alone, are left out.
-- Every method is one statement, or one transaction, and is given the time at which it runs.
pub mod Valid
pub mod Leases
pub mod Claims
pub mod Daily
use Prim.Native.String
use oss_tips.Base.{
  ℕ, suc, ◌+◌, ◌==◌, leb, ltb, String, str_eq, Bool, true, false, ◌&&◌, Option, none, some, List,
  [], ◌∷◌, ◌++◌, keep, length, if◌then◌else◌, Result, ok, err,
}
use oss_tips.Db.Rows.{update_where, returning, take_first, has_key}

-- `JOB_LEASE_TIMEOUT_MS`
abbrev pub job_lease_timeout_ms : ℕ
job_lease_timeout_ms = 300_000

pub data JobStatus : Type 0 where
  pending processing completed failed : JobStatus

pub record Job : Type 0 where
  pub id : String
  pub queue : String
  pub kind : String
  pub payload : String
  pub status : JobStatus
  pub attempt_count : ℕ
  pub max_attempts : ℕ
  pub run_at : ℕ
  pub locked_at : Option ℕ
  pub locked_by : Option String
  pub last_error : Option String
  pub updated_at : ℕ

abbrev pub is_pending : JobStatus → Bool
is_pending pending = true
is_pending _ = false

abbrev pub is_processing : JobStatus → Bool
is_processing processing = true
is_processing _ = false

abbrev pub is_failed : JobStatus → Bool
is_failed failed = true
is_failed _ = false

-- `locked_by = worker`, which is not true of NULL.
abbrev pub is_locked_by : String → Option String → Bool
is_locked_by worker none = false
is_locked_by worker (some w) = str_eq w worker

-- `locked_at <= now - JOB_LEASE_TIMEOUT_MS`
abbrev pub is_stale : ℕ → Option ℕ → Bool
is_stale now none = false
is_stale now (some at) = leb (at + job_lease_timeout_ms) now

abbrev pub in_queue : Option String → Job → Bool
in_queue none job = true
in_queue (some queue) job = str_eq job.queue queue

-- `emailNotificationJob`, with its random id, the text of its payload, and the time at which the
-- database inserts it.
unfoldable pub email_notification_job : (id payload : String) → (run_at now : ℕ) → Job
email_notification_job id payload run_at now = record {
  id = id;
  queue = "default";
  kind = "email.notification";
  payload = payload;
  status = pending;
  attempt_count = 0;
  max_attempts = 5;
  run_at = run_at;
  locked_at = none;
  locked_by = none;
  last_error = none;
  updated_at = now;
}

-- An insert throws where the id is taken.
unfoldable pub enqueue : Job → List Job → List Job × Result Job
enqueue job rows =
    if has_key (λ j. j.id) job.id rows
    then (rows, err "duplicate key value violates unique constraint")
    else (rows ++ job ∷ [], ok job)

unfoldable pub enqueue_if_absent : Job → List Job → List Job × Option Job
enqueue_if_absent job rows =
    if has_key (λ j. j.id) job.id rows then (rows, none) else (rows ++ job ∷ [], some job)

-- The rows that a worker may claim; `skipLocked` passes over the ids that other transactions hold.
abbrev pub is_claimable : (String → Bool) → String → ℕ → Job → Bool
is_claimable skipped queue now job =
    str_eq job.queue queue
    && is_pending job.status
    && leb job.run_at now
    && (if skipped job.id then false else true)

abbrev sooner : Job → Option Job → Option Job
sooner job none = some job
sooner job (some other) = if ltb other.run_at job.run_at then some other else some job

-- `orderBy('run_at', 'asc').limit(1)`
unfoldable pub earliest : (Job → Bool) → List Job → Option Job
earliest p [] = none
earliest p (job ∷ rows) = let rest = earliest p rows in if p job then sooner job rest else rest

abbrev pub claimed : String → ℕ → Job → Job
claimed worker now job = record job {
  status = processing;
  locked_at = some now;
  locked_by = some worker;
  updated_at = now;
}

abbrev pub has_id : String → Job → Bool
has_id id job = str_eq job.id id

abbrev pub claim_job : String → ℕ → List Job → Option Job → List Job × Option Job
claim_job worker now rows none = (rows, none)
claim_job worker now rows (some job) = (
  update_where (has_id job.id) (claimed worker now) rows,
  take_first (returning (has_id job.id) (claimed worker now) rows),
)

unfoldable pub claim_next : (String → Bool) → String → String → ℕ → List Job → List Job × Option Job
claim_next skipped queue worker now rows =
    claim_job worker now rows (earliest (is_claimable skipped queue now) rows)

-- What a lost or failed attempt does to a job: the last one fails it.
abbrev pub after_attempt : Job → JobStatus
after_attempt job = if leb job.max_attempts (job.attempt_count + 1) then failed else pending

abbrev pub recovered : ℕ → Job → Job
recovered now job = record job {
  status = after_attempt job;
  attempt_count = job.attempt_count + 1;
  run_at = now;
  locked_at = none;
  locked_by = none;
  last_error =
      if leb job.max_attempts (job.attempt_count + 1)
      then some "Stale job lease exhausted"
      else some "Stale job lease recovered";
  updated_at = now;
}

abbrev pub is_abandoned : Option String → ℕ → Job → Bool
is_abandoned queue now job =
    is_processing job.status && is_stale now job.locked_at && in_queue queue job

pub record Recovery : Type 0 where
  pub requeued : ℕ
  pub failed_jobs : ℕ

unfoldable pub recover_stale_leases : Option String → ℕ → List Job → List Job × Recovery
recover_stale_leases queue now rows =
    let jobs = returning (is_abandoned queue now) (recovered now) rows in
    let gone = length (keep (λ j. is_failed j.status) jobs) in
    let back = length (keep (λ j. if is_failed j.status then false else true) jobs) in
    (
      update_where (is_abandoned queue now) (recovered now) rows,
      record { requeued = back; failed_jobs = gone },
    )

-- The lease of this worker on this job.
abbrev pub is_leased : String → String → Job → Bool
is_leased id worker job =
    str_eq job.id id && is_processing job.status && is_locked_by worker job.locked_by

abbrev pub renewed : ℕ → Job → Job
renewed now job = record job { locked_at = some now; updated_at = now }

unfoldable pub renew_lease : String → String → ℕ → List Job → List Job × Option Job
renew_lease id worker now rows = (
  update_where (is_leased id worker) (renewed now) rows,
  take_first (returning (is_leased id worker) (renewed now) rows),
)

abbrev pub done : ℕ → Job → Job
done now job = record job {
  status = completed;
  locked_at = none;
  locked_by = none;
  updated_at = now;
}

unfoldable pub complete : String → String → ℕ → List Job → List Job × Option Job
complete id worker now rows = (
  update_where (is_leased id worker) (done now) rows,
  take_first (returning (is_leased id worker) (done now) rows),
)

abbrev or_kept : Option ℕ → ℕ → ℕ
or_kept none old = old
or_kept (some new) old = new

abbrev pub failed_once : String → Option ℕ → ℕ → Job → Job
failed_once error next_run_at now job = record job {
  status = after_attempt job;
  attempt_count = job.attempt_count + 1;
  last_error = some error;
  run_at = or_kept next_run_at job.run_at;
  locked_at = none;
  locked_by = none;
  updated_at = now;
}

unfoldable pub fail : String → String → Option ℕ → String → ℕ → List Job → List Job × Option Job
fail id error next_run_at worker now rows = (
  update_where (is_leased id worker) (failed_once error next_run_at now) rows,
  take_first (returning (is_leased id worker) (failed_once error next_run_at now) rows),
)

-- The calls of the repository, by any of the processes that use it.
pub data Call : Type 0 where
  enqueue_call : Job → Call
  enqueue_if_absent_call : Job → Call
  claim_next_call : (skipped : String → Bool) → (queue worker : String) → (now : ℕ) → Call
  recover_call : Option String → ℕ → Call
  renew_call : (id worker : String) → ℕ → Call
  complete_call : (id worker : String) → ℕ → Call
  fail_call : (id error : String) → Option ℕ → (worker : String) → ℕ → Call

-- The table after a call.
unfoldable pub call : Call → List Job → List Job
unfolding enqueue enqueue_if_absent claim_next recover_stale_leases renew_lease complete fail
call (enqueue_call job) rows = (enqueue job rows).0
call (enqueue_if_absent_call job) rows = (enqueue_if_absent job rows).0
call (claim_next_call skipped queue worker now) rows = (claim_next skipped queue worker now rows).0
call (recover_call queue now) rows = (recover_stale_leases queue now rows).0
call (renew_call id worker now) rows = (renew_lease id worker now rows).0
call (complete_call id worker now) rows = (complete id worker now rows).0
call (fail_call id error next worker now) rows = (fail id error next worker now rows).0

-- The job that a call hands to a worker.
unfoldable pub handed : Call → List Job → Option Job
unfolding claim_next
handed (claim_next_call skipped queue worker now) rows =
    (claim_next skipped queue worker now rows).1
handed _ rows = none

unfoldable pub run : List Call → List Job → List Job
run [] rows = rows
run (c ∷ cs) rows = run cs (call c rows)
