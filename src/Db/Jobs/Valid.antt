-- ===== src/Db/Jobs/Valid.antt =====
-- What holds of the table of jobs after any calls.
use oss_tips.Base.{
  ℕ, ◌<◌, ltb, String, eq_iff, Bool, true, false, Option, none, some, List, [], ◌∷◌, ◌++◌, Memᴰ,
  Bool-cases, Option-cases, inl, inr, All, if◌then◌else◌, ◌≡◌, ◌≢◌, refl, sym, subst, arith,
}
use oss_tips.Db.Rows.{
  update_where, mem-update, IsKeyed, update-IsKeyed, append_one-IsKeyed, mem-append_one, has_key,
}
use oss_tips.Db.Jobs.{
  pending, processing, failed, Job, is_pending, is_processing, is_claimable, earliest, claimed,
  claim_job, has_id, recovered, is_abandoned, renewed, done, failed_once, is_leased, enqueue,
  enqueue_if_absent, Call, enqueue_call, enqueue_if_absent_call, claim_next_call, recover_call,
  renew_call, complete_call, fail_call, call, run,
}

-- A job in processing is locked by someone at some time, and no other is; a job that may still run has
-- an attempt left, and a failed one has none.
pub record JobValid (j : Job) : Type 0 where
  pub leased : j.status ≡ processing → (j.locked_at ≢ none) × (j.locked_by ≢ none)
  pub unlocked : j.status ≢ processing → (j.locked_at ≡ none) × (j.locked_by ≡ none)
  pub attempts_left : j.status ≢ failed → j.attempt_count < j.max_attempts
  pub attempts_used : j.status ≡ failed → j.attempt_count ≡ j.max_attempts

-- What the builders of jobs give.
pub record IsNew (j : Job) : Type 0 where
  pub starts_pending : j.status ≡ pending
  pub no_attempts : j.attempt_count ≡ 0
  pub some_attempts : 0 < j.max_attempts
  pub no_time : j.locked_at ≡ none
  pub no_worker : j.locked_by ≡ none

pub record IsValid (rows : List Job) : Type 0 where
  pub keyed : IsKeyed (λ j. j.id) rows
  pub valid : (j : Job) → Memᴰ j rows → JobValid j

-- A call that enqueues a job enqueues a new one.
abbrev pub Admits : Call → Type 0
Admits (enqueue_call job) = IsNew job
Admits (enqueue_if_absent_call job) = IsNew job
Admits _ = Unit

-- The row that is chosen is one of those that pass.
pub earliest_sound :
    (p : Job → Bool) (rows : List Job) (j : Job)
    → earliest p rows ≡ some j
    → Memᴰ j rows × (p j ≡ true)
unfolding earliest
earliest_sound p [] j e = absurd (cc)
earliest_sound p (k ∷ rows) j e = elim (Bool-cases (p k)) [
  | inl fits ↦ elim (Option-cases (earliest p rows)) [
    | inl missing ↦
        let same : k ≡ j = let e' = rw (fits, missing) at e in cc in
        (Memᴰ.head (sym same), rw same at fits)
    | inr (l, found) ↦
        let (m, q) = earliest_sound p rows l found in
        elim (Bool-cases (ltb l.run_at k.run_at)) [
          | inl first ↦
              let same : l ≡ j = let e' = rw (fits, found, first) at e in cc in
              (subst (λ x. Memᴰ x (k ∷ rows)) same (Memᴰ.tail m), rw same at q)
          | inr later ↦
              let same : k ≡ j = let e' = rw (fits, found, later) at e in cc in
              (Memᴰ.head (sym same), rw same at fits)
        ]
  ]
  | inr other ↦ let (m, q) = earliest_sound p rows j (rw other at e) in (Memᴰ.tail m, q)
]

new-JobValid : (j : Job) → IsNew j → JobValid j
new-JobValid j n = ground arith

update-IsValid :
    (p : Job → Bool) (f : Job → Job) (rows : List Job)
    → ((j : Job) → (f j).id ≡ j.id)
    → ((j : Job) → Memᴰ j rows → p j ≡ true → JobValid j → JobValid (f j))
    → IsValid rows
    → IsValid (update_where p f rows)
update-IsValid p f rows same keeps v = record {
  keyed = update-IsKeyed (λ j. j.id) p f rows same v.keyed;
  valid = λ k m. let (j, n, e) = mem-update p f rows k m in subst JobValid (sym e) (kept j n);
}
  where
    kept : (j : Job) → Memᴰ j rows → JobValid (if p j then f j else j)
    kept j n = elim (Bool-cases (p j)) [
      | inl t ↦ rw t (keeps j n t (v.valid j n))
      | inr t ↦ rw t (v.valid j n)
    ]

append-IsValid :
    (rows : List Job) (j : Job)
    → IsNew j
    → has_key (λ j. j.id) j.id rows ≡ false
    → IsValid rows
    → IsValid (rows ++ j ∷ [])
append-IsValid rows j n absent v = record {
  keyed = append_one-IsKeyed (λ j. j.id) rows j absent v.keyed;
  valid = λ k m. elim (mem-append_one rows j k m) [
    | inl old ↦ v.valid k old
    | inr e ↦ subst JobValid (sym e) (new-JobValid j n)
  ];
}

claimed-JobValid :
    (worker : String) (now : ℕ) (j : Job)
    → is_pending j.status ≡ true
    → JobValid j
    → JobValid (claimed worker now j)
claimed-JobValid worker now j p v = ground arith

recovered-JobValid :
    (now : ℕ) (j : Job) → is_processing j.status ≡ true → JobValid j → JobValid (recovered now j)
recovered-JobValid now j p v = ground arith

renewed-JobValid :
    (now : ℕ) (j : Job) → is_processing j.status ≡ true → JobValid j → JobValid (renewed now j)
renewed-JobValid now j p v = ground arith

done-JobValid :
    (now : ℕ) (j : Job) → is_processing j.status ≡ true → JobValid j → JobValid (done now j)
done-JobValid now j p v = ground arith

failed_once-JobValid :
    (error : String) (next : Option ℕ) (now : ℕ) (j : Job)
    → is_processing j.status ≡ true
    → JobValid j
    → JobValid (failed_once error next now j)
failed_once-JobValid error next now j p v = ground arith

pub leased-processing :
    (id worker : String) (j : Job) → is_leased id worker j ≡ true → is_processing j.status ≡ true
leased-processing id worker j e = ground arith

pub abandoned-processing :
    (queue : Option String) (now : ℕ) (j : Job)
    → is_abandoned queue now j ≡ true
    → is_processing j.status ≡ true
abandoned-processing queue now j e = ground arith

pub claimable-pending :
    (skipped : String → Bool) (queue : String) (now : ℕ) (j : Job)
    → is_claimable skipped queue now j ≡ true
    → is_pending j.status ≡ true
claimable-pending skipped queue now j e = ground arith

-- The rows that a claim changes are the one that it chose.
pub claimed_row :
    (skipped : String → Bool) (queue : String) (now : ℕ) (rows : List Job) (j k : Job)
    → IsKeyed (λ j. j.id) rows
    → earliest (is_claimable skipped queue now) rows ≡ some j
    → Memᴰ k rows
    → has_id j.id k ≡ true
    → is_pending k.status ≡ true
claimed_row skipped queue now rows j k keyed e m h =
    let (n, c) = earliest_sound (is_claimable skipped queue now) rows j e in
    let same : j ≡ k = keyed j k n m (sym ((eq_iff k.id j.id).0 h)) in
    rw same at (claimable-pending skipped queue now j c)

claim-IsValid :
    (skipped : String → Bool) (queue worker : String) (now : ℕ) (rows : List Job)
    → IsValid rows
    → IsValid (claim_job worker now rows (earliest (is_claimable skipped queue now) rows)).0
claim-IsValid skipped queue worker now rows v =
    elim (Option-cases (earliest (is_claimable skipped queue now) rows)) [
      | inl missing ↦ rw missing v
      | inr (j, found) ↦ rw found (
          update-IsValid (has_id j.id) (claimed worker now) rows (λ k. refl)
            (λ k m t w.
              claimed-JobValid worker now k
                (claimed_row skipped queue now rows j k v.keyed found m t) w)
            v)
    ]

enqueue-IsValid : (j : Job) (rows : List Job) → IsNew j → IsValid rows → IsValid (enqueue j rows).0
unfolding enqueue
enqueue-IsValid j rows n v = elim (Bool-cases (has_key (λ k. k.id) j.id rows)) [
  | inl taken ↦ rw taken v
  | inr free ↦ rw free (append-IsValid rows j n free v)
]

enqueue_if_absent-IsValid :
    (j : Job) (rows : List Job) → IsNew j → IsValid rows → IsValid (enqueue_if_absent j rows).0
unfolding enqueue_if_absent
enqueue_if_absent-IsValid j rows n v = elim (Bool-cases (has_key (λ k. k.id) j.id rows)) [
  | inl taken ↦ rw taken v
  | inr free ↦ rw free (append-IsValid rows j n free v)
]

pub call-IsValid : (c : Call) (rows : List Job) → Admits c → IsValid rows → IsValid (call c rows)
unfolding call
call-IsValid (enqueue_call job) rows a v = enqueue-IsValid job rows a v
call-IsValid (enqueue_if_absent_call job) rows a v = enqueue_if_absent-IsValid job rows a v
call-IsValid (claim_next_call skipped queue worker now) rows a v =
    claim-IsValid skipped queue worker now rows v
call-IsValid (recover_call queue now) rows a v =
    update-IsValid (is_abandoned queue now) (recovered now) rows (λ j. refl)
      (λ j n t w. recovered-JobValid now j (abandoned-processing queue now j t) w) v
call-IsValid (renew_call id worker now) rows a v =
    update-IsValid (is_leased id worker) (renewed now) rows (λ j. refl)
      (λ j n t w. renewed-JobValid now j (leased-processing id worker j t) w) v
call-IsValid (complete_call id worker now) rows a v =
    update-IsValid (is_leased id worker) (done now) rows (λ j. refl)
      (λ j n t w. done-JobValid now j (leased-processing id worker j t) w) v
call-IsValid (fail_call id error next worker now) rows a v =
    update-IsValid (is_leased id worker) (failed_once error next now) rows (λ j. refl)
      (λ j n t w. failed_once-JobValid error next now j (leased-processing id worker j t) w) v

pub empty-IsValid : IsValid []
empty-IsValid = record { keyed = λ a b m n e. elim m [ ]; valid = λ j m. elim m [ ] }

pub run-IsValid :
    (cs : List Call) (rows : List Job) → All Admits cs → IsValid rows → IsValid (run cs rows)
unfolding run
run-IsValid [] rows a v = v
run-IsValid (c ∷ cs) rows a v = run-IsValid cs (call c rows) a.1 (call-IsValid c rows a.0 v)

-- After any calls on an empty table that enqueue only new jobs, no two jobs have one id; a job is
-- locked, at some time and by some worker, exactly while it is in processing; a failed job has used
-- all its attempts, and any other has one left.
pub jobs-IsValid : (cs : List Call) → All Admits cs → IsValid (run cs [])
jobs-IsValid cs a = run-IsValid cs [] a empty-IsValid
