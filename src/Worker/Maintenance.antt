-- ===== src/Worker/Maintenance.antt =====
-- apps/worker/src/worker-runtime.ts: the jobs of maintenance that every general worker enqueues.
pub mod Daily
use oss_tips.Base.{
  ℕ, String, Bool, true, false, Option, none, some, List, [], ◌∷◌, ◌++◌, map, All, if◌then◌else◌,
  Bool-cases, inl, inr, ◌≡◌, refl, sym, ◌∙◌, ap, subst, arith,
}
use oss_tips.Db.Rows.{has_key, has_key-update, append_one-has_key}
use oss_tips.Db.Jobs.{
  Job, Call, enqueue_call, enqueue_if_absent_call, claim_next_call, recover_call, renew_call,
  complete_call, fail_call, call, run, enqueue, enqueue_if_absent, claim_next, claim_job, earliest,
  is_claimable, has_id, claimed, recovered, is_abandoned, is_leased, renewed, done, failed_once,
}
use oss_tips.Db.Jobs.Daily.{
  storage_maintenance_job_kinds, retention_maintenance_job_kinds, storage_maintenance_job,
  retention_maintenance_job,
}

-- `for (const kind of kinds) await jobs.enqueueIfAbsent(job(kind))`
unfoldable pub enqueue_kinds : (String → Job) → List String → List Job → List Job
unfolding enqueue_if_absent
enqueue_kinds job [] rows = rows
enqueue_kinds job (kind ∷ kinds) rows =
    enqueue_kinds job kinds (enqueue_if_absent (job kind) rows).0

module _ (sha256_hex : String → String) (iso_day : ℕ → String) where
  unfoldable pub enqueue_storage_maintenance_jobs : ℕ → List Job → List Job
  unfolding enqueue_kinds storage_maintenance_job
  enqueue_storage_maintenance_jobs now rows =
      enqueue_kinds (λ kind. storage_maintenance_job sha256_hex iso_day kind now now)
        storage_maintenance_job_kinds rows

  unfoldable pub enqueue_retention_maintenance_jobs : ℕ → List Job → List Job
  unfolding enqueue_kinds retention_maintenance_job
  enqueue_retention_maintenance_jobs now rows =
      enqueue_kinds (λ kind. retention_maintenance_job sha256_hex iso_day kind now now)
        retention_maintenance_job_kinds rows

  unfoldable pub enqueue_maintenance_jobs : ℕ → List Job → List Job
  unfolding enqueue_storage_maintenance_jobs enqueue_retention_maintenance_jobs
  enqueue_maintenance_jobs now rows =
      enqueue_retention_maintenance_jobs now (enqueue_storage_maintenance_jobs now rows)
