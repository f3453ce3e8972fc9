-- ===== src/Worker/Settlement.antt =====
-- What becomes of the job that a worker holds while its handler runs.
use oss_tips.Base.{
  ℕ, ◌+◌, String, eq_iff, Bool, true, false, Option, none, some, List, [], ◌∷◌, Memᴰ, ◌≡◌, refl,
}
use oss_tips.Db.Rows.{update_where, update-mem, some_returned}
use oss_tips.Db.Jobs.{
  JobStatus, completed, Job, is_leased, after_attempt, renewed, done, failed_once, renew_lease,
  complete, fail, renew_call, call,
}
use oss_tips.Db.Jobs.Valid.{IsValid, Admits, call-IsValid}
use oss_tips.Db.Jobs.Leases.{IsLeased, IsForeign, call-keeps}
use oss_tips.Worker.{
  Outcome, returned, threw_other, threw, threw_retry, Moment, beat, elsewhere, handling, settle,
  process_job,
}

-- The calls elsewhere are those of others, and none recovers the lease that the last beat renewed.
abbrev pub LeavesLease : (id worker : String) → ℕ → List Moment → Type 0
LeavesLease id worker at [] = Unit
LeavesLease id worker at (beat now ∷ ms) = LeavesLease id worker now ms
LeavesLease id worker at (elsewhere c ∷ ms) =
    Admits c × IsForeign id worker at c × LeavesLease id worker at ms

-- The job as it was claimed, but for the time of its lease.
record IsRenewal (worker : String) (j k : Job) : Type 0 where
  same_id : k.id ≡ j.id
  same_attempts : k.attempt_count ≡ j.attempt_count
  same_maximum : k.max_attempts ≡ j.max_attempts
  same_start : k.run_at ≡ j.run_at
  held : is_leased j.id worker k ≡ true

its_lease :
    (worker : String) (at : ℕ) (j : Job) → IsLeased worker at j → is_leased j.id worker j ≡ true
its_lease worker at j l =
    let id_is = (eq_iff j.id j.id).1 refl in
    let by_is = (eq_iff worker worker).1 refl in
    let p = l.in_processing in let by = l.by_worker in rw (p, by, id_is, by_is) refl

itself-IsRenewal :
    (worker : String) (at : ℕ) (j : Job) → IsLeased worker at j → IsRenewal worker j j
itself-IsRenewal worker at j l = record {
  same_id = refl;
  same_attempts = refl;
  same_maximum = refl;
  same_start = refl;
  held = its_lease worker at j l;
}

of_renewed :
    (worker : String) (now : ℕ) (j k : Job)
    → IsRenewal worker (renewed now j) k
    → IsRenewal worker j k
of_renewed worker now j k r = record {
  same_id = r.same_id;
  same_attempts = r.same_attempts;
  same_maximum = r.same_maximum;
  same_start = r.same_start;
  held = r.held;
}

-- While the handler runs, the lease is kept.
handling-holds :
    (worker : String) (at : ℕ) (ms : List Moment) (rows : List Job) (j : Job)
    → IsValid rows
    → IsLeased worker at j
    → LeavesLease j.id worker at ms
    → Memᴰ j rows
    → (k : Job) × IsRenewal worker j k
      × Memᴰ k (handling j.id worker ms (rows, false)).0
      × ((handling j.id worker ms (rows, false)).1 ≡ false)
unfolding handling renew_lease call
handling-holds worker at [] rows j v l f m = (j, itself-IsRenewal worker at j l, m, refl)
handling-holds worker at (elsewhere c ∷ ms) rows j v l f m =
    handling-holds worker at ms (call c rows) j (call-IsValid c rows f.0 v) l f.2
      (call-keeps worker at rows j c v l f.1 m)
handling-holds worker at (beat now ∷ ms) rows j v l f m =
    let p = its_lease worker at j l in
    let (b, found) = some_returned (is_leased j.id worker) (renewed now) rows j m p in
    let after : Memᴰ (renewed now j) (update_where (is_leased j.id worker) (renewed now) rows) =
      rw p at (update-mem (is_leased j.id worker) (renewed now) rows j m) in
    let (k, r, n, e) =
      handling-holds worker now ms (update_where (is_leased j.id worker) (renewed now) rows)
        (renewed now j) (call-IsValid (renew_call j.id worker now) rows tt v)
        (record { in_processing = l.in_processing; since = refl; by_worker = l.by_worker }) f
        after in
    rw (handling, found) (k, of_renewed worker now j k r, n, e)

-- The status and the attempts that an outcome leaves a job with, and when it may next run.
abbrev pub ends_with : Outcome → Job → JobStatus × ℕ × ℕ
ends_with returned j = (completed, j.attempt_count, j.run_at)
ends_with threw_other j = (after_attempt j, j.attempt_count + 1, j.run_at)
ends_with (threw message) j = (after_attempt j, j.attempt_count + 1, j.run_at)
ends_with (threw_retry message run_at) j = (after_attempt j, j.attempt_count + 1, run_at)

abbrev pub standing : Job → JobStatus × ℕ × ℕ
standing k = (k.status, k.attempt_count, k.run_at)

settled_row :
    (f : Job → Job) (worker : String) (rows : List Job) (j k : Job)
    → IsRenewal worker j k
    → Memᴰ k rows
    → Memᴰ (f k) (update_where (is_leased j.id worker) f rows)
settled_row f worker rows j k r m = rw r.held at (update-mem (is_leased j.id worker) f rows k m)

after-renewal :
    (worker : String) (j k : Job) → IsRenewal worker j k → after_attempt k ≡ after_attempt j
after-renewal worker j k r = let a = r.same_attempts in let b = r.same_maximum in rw (a, b) refl

settle-ends :
    (worker : String) (now : ℕ) (o : Outcome) (rows : List Job) (lost : Bool) (j k : Job)
    → IsRenewal worker j k
    → Memᴰ k rows
    → lost ≡ false
    → (l : Job) × Memᴰ l (settle j worker now o (rows, lost))
      × (l.id ≡ j.id)
      × (l.locked_by ≡ none)
      × (standing l ≡ ends_with o j)
unfolding settle complete fail
settle-ends worker now returned rows lost j k r m e = rw e (
  done now k,
  settled_row (done now) worker rows j k r m,
  r.same_id,
  refl,
  let a = r.same_attempts in let s = r.same_start in rw (a, s) refl,
)
settle-ends worker now threw_other rows lost j k r m e = (
  failed_once "Job handler failed" none now k,
  settled_row (failed_once "Job handler failed" none now) worker rows j k r m,
  r.same_id,
  refl,
  let a = r.same_attempts in let b = r.same_maximum in let s = r.same_start in rw (a, b, s) refl,
)
settle-ends worker now (threw message) rows lost j k r m e = (
  failed_once message none now k,
  settled_row (failed_once message none now) worker rows j k r m,
  r.same_id,
  refl,
  let a = r.same_attempts in let b = r.same_maximum in let s = r.same_start in rw (a, b, s) refl,
)
settle-ends worker now (threw_retry message at) rows lost j k r m e = (
  failed_once message (some at) now k,
  settled_row (failed_once message (some at) now) worker rows j k r m,
  r.same_id,
  refl,
  let a = r.same_attempts in let b = r.same_maximum in rw (a, b) refl,
)

-- A worker that holds a job and has a handler for its kind settles it, whatever others do while the
-- handler runs, so long as no recovery runs when its last beat is out of date: the job is unlocked; it
-- is completed with its attempts unchanged if the handler returns, and otherwise has one attempt more,
-- is failed if that was its last and pending if not, and starts again at the time that a retry asks for.
pub process_job_settles :
    (handlers : String → Option (Job → Outcome)) (handler : Job → Outcome) (worker : String)
    (at now : ℕ) (ms : List Moment) (rows : List Job) (j : Job)
    → handlers j.kind ≡ some handler
    → IsValid rows
    → IsLeased worker at j
    → LeavesLease j.id worker at ms
    → Memᴰ j rows
    → (l : Job) × Memᴰ l (process_job handlers j worker ms now rows)
      × (l.id ≡ j.id)
      × (l.locked_by ≡ none)
      × (standing l ≡ ends_with (handler j) j)
unfolding process_job
process_job_settles handlers handler worker at now ms rows j has v l f m =
    let (k, r, n, e) = handling-holds worker at ms rows j v l f m in
    rw has (
      settle-ends worker now (handler j) (handling j.id worker ms (rows, false)).0
        (handling j.id worker ms (rows, false)).1 j k r n e)
