-- ===== src/Worker/Maintenance/Daily.antt =====
-- The jobs of maintenance are enqueued once a day, however many workers enqueue them.
use oss_tips.Base.{
  ℕ, String, true, Option, none, some, List, [], ◌∷◌, All, Bool-cases, inl, inr, ◌≡◌, refl, ◌∙◌, ap,
}
use oss_tips.Db.Rows.{has_key, has_key-update, append_one-has_key, append_one-itself}
use oss_tips.Db.Jobs.{
  Job, Call, enqueue_call, enqueue_if_absent_call, claim_next_call, recover_call, renew_call,
  complete_call, fail_call, call, run, enqueue, enqueue_if_absent, claim_job, earliest,
  is_claimable, has_id, claimed, recovered, is_abandoned, is_leased, renewed, done, failed_once,
}
use oss_tips.Db.Jobs.Daily.{
  storage_maintenance_job_kinds, retention_maintenance_job_kinds, storage_maintenance_job,
  retention_maintenance_job,
}
use oss_tips.Worker.Maintenance.{
  enqueue_kinds, enqueue_storage_maintenance_jobs, enqueue_retention_maintenance_jobs,
  enqueue_maintenance_jobs,
}

-- The table has a job with this id.
abbrev IsThere : String → List Job → Type 0
IsThere id rows = has_key (λ j. j.id) id rows ≡ true

enqueue_if_absent-IsThere :
    (id : String) (j : Job) (rows : List Job)
    → IsThere id rows
    → IsThere id (enqueue_if_absent j rows).0
unfolding enqueue_if_absent
enqueue_if_absent-IsThere id j rows t = elim (Bool-cases (has_key (λ k. k.id) j.id rows)) [
  | inl u ↦ rw u t
  | inr u ↦ rw u (append_one-has_key (λ k. k.id) id rows j t)
]

enqueue-IsThere :
    (id : String) (j : Job) (rows : List Job) → IsThere id rows → IsThere id (enqueue j rows).0
unfolding enqueue
enqueue-IsThere id j rows t = elim (Bool-cases (has_key (λ k. k.id) j.id rows)) [
  | inl u ↦ rw u t
  | inr u ↦ rw u (append_one-has_key (λ k. k.id) id rows j t)
]

claim-IsThere :
    (id worker : String) (now : ℕ) (o : Option Job) (rows : List Job)
    → IsThere id rows
    → IsThere id (claim_job worker now rows o).0
claim-IsThere id worker now none rows t = t
claim-IsThere id worker now (some j) rows t =
    has_key-update (λ k. k.id) (has_id j.id) (claimed worker now) id rows (λ k. refl) ∙ t

-- No call removes a job.
call-IsThere :
    (id : String) (c : Call) (rows : List Job) → IsThere id rows → IsThere id (call c rows)
unfolding call
call-IsThere id (enqueue_call job) rows t = enqueue-IsThere id job rows t
call-IsThere id (enqueue_if_absent_call job) rows t = enqueue_if_absent-IsThere id job rows t
call-IsThere id (claim_next_call skipped queue worker now) rows t =
    claim-IsThere id worker now (earliest (is_claimable skipped queue now) rows) rows t
call-IsThere id (recover_call queue now) rows t =
    has_key-update (λ k. k.id) (is_abandoned queue now) (recovered now) id rows (λ k. refl) ∙ t
call-IsThere id (renew_call k worker now) rows t =
    has_key-update (λ k. k.id) (is_leased k worker) (renewed now) id rows (λ k. refl) ∙ t
call-IsThere id (complete_call k worker now) rows t =
    has_key-update (λ k. k.id) (is_leased k worker) (done now) id rows (λ k. refl) ∙ t
call-IsThere id (fail_call k error next worker now) rows t =
    has_key-update (λ k. k.id) (is_leased k worker) (failed_once error next now) id rows (λ k. refl)
    ∙ t

run-IsThere :
    (id : String) (cs : List Call) (rows : List Job) → IsThere id rows → IsThere id (run cs rows)
unfolding run
run-IsThere id [] rows t = t
run-IsThere id (c ∷ cs) rows t = run-IsThere id cs (call c rows) (call-IsThere id c rows t)

enqueued-IsThere : (j : Job) (rows : List Job) → IsThere j.id (enqueue_if_absent j rows).0
unfolding enqueue_if_absent
enqueued-IsThere j rows = elim (Bool-cases (has_key (λ k. k.id) j.id rows)) [
  | inl u ↦ rw (u, u) refl
  | inr u ↦ rw u (append_one-itself (λ k. k.id) rows j)
]

enqueue_kinds-IsThere :
    (job : String → Job) (kinds : List String) (id : String) (rows : List Job)
    → IsThere id rows
    → IsThere id (enqueue_kinds job kinds rows)
unfolding enqueue_kinds
enqueue_kinds-IsThere job [] id rows t = t
enqueue_kinds-IsThere job (kind ∷ kinds) id rows t =
    enqueue_kinds-IsThere job kinds id (enqueue_if_absent (job kind) rows).0
      (enqueue_if_absent-IsThere id (job kind) rows t)

-- The table has the jobs of these kinds.
abbrev HasKinds : (String → Job) → List String → List Job → Type 0
HasKinds job kinds rows = All (λ kind. IsThere (job kind).id rows) kinds

enqueue_kinds-HasKinds :
    (job : String → Job) (kinds : List String) (rows : List Job)
    → HasKinds job kinds (enqueue_kinds job kinds rows)
unfolding enqueue_kinds
enqueue_kinds-HasKinds job [] rows = tt
enqueue_kinds-HasKinds job (kind ∷ kinds) rows = (
  enqueue_kinds-IsThere job kinds (job kind).id (enqueue_if_absent (job kind) rows).0
      (enqueued-IsThere (job kind) rows),
  enqueue_kinds-HasKinds job kinds (enqueue_if_absent (job kind) rows).0,
)

HasKinds-map :
    (job : String → Job) (kinds : List String) (rows after : List Job)
    → ((id : String) → IsThere id rows → IsThere id after)
    → HasKinds job kinds rows
    → HasKinds job kinds after
HasKinds-map job [] rows after f h = tt
HasKinds-map job (kind ∷ kinds) rows after f h =
    (f (job kind).id h.0, HasKinds-map job kinds rows after f h.1)

-- Jobs that are there are not enqueued, whatever else they carry.
enqueue_kinds-again :
    (old new : String → Job) (kinds : List String) (rows : List Job)
    → ((kind : String) → (old kind).id ≡ (new kind).id)
    → HasKinds old kinds rows
    → enqueue_kinds new kinds rows ≡ rows
unfolding enqueue_kinds enqueue_if_absent
enqueue_kinds-again old new [] rows same h = refl
enqueue_kinds-again old new (kind ∷ kinds) rows same h =
    let there : has_key (λ j. j.id) (new kind).id rows ≡ true = rw (same kind) at h.0 in
    rw there (enqueue_kinds-again old new kinds rows same h.1)

module _ (sha256_hex : String → String) (iso_day : ℕ → String) where
  abbrev storage_at : ℕ → String → Job
  unfolding storage_maintenance_job
  storage_at now kind = storage_maintenance_job sha256_hex iso_day kind now now

  abbrev retention_at : ℕ → String → Job
  unfolding retention_maintenance_job
  retention_at now kind = retention_maintenance_job sha256_hex iso_day kind now now

  storage_ids :
      (first again : ℕ)
      → iso_day first ≡ iso_day again
      → (kind : String) → (storage_at first kind).id ≡ (storage_at again kind).id
  unfolding storage_maintenance_job
  storage_ids first again same kind = rw same refl

  retention_ids :
      (first again : ℕ)
      → iso_day first ≡ iso_day again
      → (kind : String) → (retention_at first kind).id ≡ (retention_at again kind).id
  unfolding retention_maintenance_job
  retention_ids first again same kind = rw same refl

  -- Once the jobs of maintenance are enqueued, enqueueing them again on the same day, at any time and
  -- after any calls on the table, changes nothing, whatever became of the jobs.
  pub maintenance_once_a_day :
      (first again : ℕ) (cs : List Call) (rows : List Job)
      → iso_day first ≡ iso_day again
      → enqueue_maintenance_jobs sha256_hex iso_day again
          (run cs (enqueue_maintenance_jobs sha256_hex iso_day first rows))
        ≡ run cs (enqueue_maintenance_jobs sha256_hex iso_day first rows)
  unfolding enqueue_maintenance_jobs enqueue_storage_maintenance_jobs
      enqueue_retention_maintenance_jobs
  maintenance_once_a_day first again cs rows same =
      let stored = enqueue_storage_maintenance_jobs sha256_hex iso_day first rows in
      let after = run cs (enqueue_retention_maintenance_jobs sha256_hex iso_day first stored) in
      let has_storage : HasKinds (storage_at first) storage_maintenance_job_kinds after =
        HasKinds-map (storage_at first) storage_maintenance_job_kinds stored after
          (λ id t.
            run-IsThere id cs (enqueue_retention_maintenance_jobs sha256_hex iso_day first stored) (
              enqueue_kinds-IsThere (retention_at first) retention_maintenance_job_kinds id stored
                t))
          (enqueue_kinds-HasKinds (storage_at first) storage_maintenance_job_kinds rows) in
      let has_retention : HasKinds (retention_at first) retention_maintenance_job_kinds after =
        HasKinds-map (retention_at first) retention_maintenance_job_kinds
          (enqueue_retention_maintenance_jobs sha256_hex iso_day first stored) after
          (λ id t.
            run-IsThere id cs (enqueue_retention_maintenance_jobs sha256_hex iso_day first stored)
              t)
          (enqueue_kinds-HasKinds (retention_at first) retention_maintenance_job_kinds stored) in
      let storage_same : enqueue_storage_maintenance_jobs sha256_hex iso_day again after ≡ after =
        enqueue_kinds-again (storage_at first) (storage_at again) storage_maintenance_job_kinds
          after (storage_ids first again same) has_storage in
      let retention_same : enqueue_retention_maintenance_jobs sha256_hex iso_day again after
          ≡ after =
        enqueue_kinds-again (retention_at first) (retention_at again)
          retention_maintenance_job_kinds after (retention_ids first again same) has_retention in
      ap (enqueue_retention_maintenance_jobs sha256_hex iso_day again) storage_same ∙ retention_same
