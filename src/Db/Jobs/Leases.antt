-- ===== src/Db/Jobs/Leases.antt =====
-- The lease of a worker on a job, against the calls of the others.
use oss_tips.Base.{
  ℕ, ◌+◌, ◌<◌, String, str_eq, Bool, false, ◌&&◌, Option, some, List, [], ◌∷◌, Memᴰ, Bool-cases,
  Option-cases, inl, inr, All, ◌≡◌, arith,
}
use oss_tips.Db.Rows.{update-keeps, append_one-mem, has_key}
use oss_tips.Db.Jobs.{
  processing, Job, is_claimable, earliest, claimed, claim_job, has_id, recovered, is_abandoned,
  renewed, done, failed_once, job_lease_timeout_ms, is_leased, enqueue, enqueue_if_absent, Call,
  enqueue_call, enqueue_if_absent_call, claim_next_call, recover_call, renew_call, complete_call,
  fail_call, call, run,
}
use oss_tips.Db.Jobs.Valid.{IsValid, Admits, claimed_row, call-IsValid}

-- The job is leased to the worker since `at`.
pub record IsLeased (worker : String) (at : ℕ) (j : Job) : Type 0 where
  pub in_processing : j.status ≡ processing
  pub since : j.locked_at ≡ some at
  pub by_worker : j.locked_by ≡ some worker

-- The calls of others: a recovery that runs before the lease times out, and any but the renewals and
-- settlements of the worker on the job.
abbrev pub IsForeign : (id worker : String) → ℕ → Call → Type 0
IsForeign id worker at (recover_call queue now) = now < at + job_lease_timeout_ms
IsForeign id worker at (renew_call job other now) = (str_eq id job && str_eq worker other) ≡ false
IsForeign id worker at (complete_call job other now) =
    (str_eq id job && str_eq worker other) ≡ false
IsForeign id worker at (fail_call job error next other now) =
    (str_eq id job && str_eq worker other) ≡ false
IsForeign id worker at _ = Unit

other_lease :
    (id worker other : String) (at : ℕ) (j : Job)
    → IsLeased worker at j
    → (str_eq j.id id && str_eq worker other) ≡ false
    → is_leased id other j ≡ false
other_lease id worker other at j l e =
    let by = l.by_worker in let p = l.in_processing in rw (p, by) (ground arith)

not_abandoned :
    (queue : Option String) (worker : String) (now at : ℕ) (j : Job)
    → IsLeased worker at j
    → now < at + job_lease_timeout_ms
    → is_abandoned queue now j ≡ false
not_abandoned queue worker now at j l e =
    let since = l.since in let p = l.in_processing in rw (p, since) (ground arith)

claim-keeps :
    (skipped : String → Bool) (queue other worker : String) (now at : ℕ) (rows : List Job) (j : Job)
    → IsValid rows
    → IsLeased worker at j
    → Memᴰ j rows
    → Memᴰ j (claim_job other now rows (earliest (is_claimable skipped queue now) rows)).0
claim-keeps skipped queue other worker now at rows j v l m =
    elim (Option-cases (earliest (is_claimable skipped queue now) rows)) [
      | inl missing ↦ rw missing m
      | inr (k, found) ↦ rw found (elim (Bool-cases (has_id k.id j)) [
        | inl t ↦ absurd (
            let idle =
              rw l.in_processing at (claimed_row skipped queue now rows k j v.keyed found m t) in
            cc)
        | inr t ↦ update-keeps (has_id k.id) (claimed other now) rows j t m
      ])
    ]

enqueue-keeps :
    (rows : List Job) (j k : Job)
    → Memᴰ j rows
    → Memᴰ j (enqueue k rows).0 × Memᴰ j (enqueue_if_absent k rows).0
unfolding enqueue enqueue_if_absent
enqueue-keeps rows j k m = elim (Bool-cases (has_key (λ j. j.id) k.id rows)) [
  | inl taken ↦ rw taken (m, m)
  | inr free ↦ rw free (append_one-mem rows k j m, append_one-mem rows k j m)
]

-- A call of another leaves the row of a leased job as it is.
pub call-keeps :
    (worker : String) (at : ℕ) (rows : List Job) (j : Job) (c : Call)
    → IsValid rows
    → IsLeased worker at j
    → IsForeign j.id worker at c
    → Memᴰ j rows
    → Memᴰ j (call c rows)
unfolding call
call-keeps worker at rows j (enqueue_call k) v l f m = (enqueue-keeps rows j k m).0
call-keeps worker at rows j (enqueue_if_absent_call k) v l f m = (enqueue-keeps rows j k m).1
call-keeps worker at rows j (claim_next_call skipped queue other now) v l f m =
    claim-keeps skipped queue other worker now at rows j v l m
call-keeps worker at rows j (recover_call queue now) v l f m =
    update-keeps (is_abandoned queue now) (recovered now) rows j
      (not_abandoned queue worker now at j l f) m
call-keeps worker at rows j (renew_call id other now) v l f m =
    update-keeps (is_leased id other) (renewed now) rows j (other_lease id worker other at j l f) m
call-keeps worker at rows j (complete_call id other now) v l f m =
    update-keeps (is_leased id other) (done now) rows j (other_lease id worker other at j l f) m
call-keeps worker at rows j (fail_call id error next other now) v l f m =
    update-keeps (is_leased id other) (failed_once error next now) rows j
      (other_lease id worker other at j l f) m

-- A job that is leased to a worker is left as it is by any calls of others, claims among them, so long
-- as no recovery runs after the lease times out.
pub lease_is_held :
    (worker : String) (at : ℕ) (cs : List Call) (rows : List Job) (j : Job)
    → IsValid rows
    → IsLeased worker at j
    → All Admits cs
    → All (IsForeign j.id worker at) cs
    → Memᴰ j rows
    → Memᴰ j (run cs rows)
unfolding run
lease_is_held worker at [] rows j v l a f m = m
lease_is_held worker at (c ∷ cs) rows j v l a f m =
    lease_is_held worker at cs (call c rows) j (call-IsValid c rows a.0 v) l a.1 f.1
      (call-keeps worker at rows j c v l f.0 m)
