-- ===== src/Db/Jobs/Claims.antt =====
-- How often a job is handed to a worker.
use oss_tips.Base.{
  ℕ, ◌+◌, ◌≤◌, String, str_eq, eq_iff, Bool, true, false, Option, none, some, List, [], ◌∷◌, ◌++◌,
  Memᴰ, Bool-cases, Option-cases, inl, inr, All, if◌then◌else◌, ◌≡◌, refl, sym, ◌∙◌, ap, subst,
  arith,
}
use oss_tips.Db.Rows.{
  update_where, mem-update, mem-append_one, has_key, has_key-update, has_key-append_one,
  mem-has_key, returned-mem, some_returned,
}
use oss_tips.Db.Jobs.{
  JobStatus, processing, completed, Job, is_processing, is_claimable, earliest, claimed, claim_job,
  has_id, recovered, is_abandoned, renewed, done, failed_once, is_leased, enqueue,
  enqueue_if_absent, Call, enqueue_call, enqueue_if_absent_call, claim_next_call, recover_call,
  renew_call, complete_call, fail_call, call, run, handed,
}
use oss_tips.Db.Jobs.Valid.{
  JobValid, IsNew, IsValid, Admits, earliest_sound, claimed_row, leased-processing,
  abandoned-processing, call-IsValid, empty-IsValid, run-IsValid,
}

-- One if this job was handed out.
abbrev given : String → Option Job → ℕ
given id none = 0
given id (some j) = if str_eq j.id id then 1 else 0

-- How many of the calls hand the job with this id to a worker.
unfoldable pub times_handed : String → List Call → List Job → ℕ
times_handed id [] rows = 0
times_handed id (c ∷ cs) rows = given id (handed c rows) + times_handed id cs (call c rows)

-- An attempt that is not counted on the row.
abbrev pub open_attempt : JobStatus → ℕ
open_attempt processing = 1
open_attempt completed = 1
open_attempt _ = 0

record IsCounted (id : String) (n : ℕ) (rows : List Job) : Type 0 where
  on_row : (j : Job) → Memᴰ j rows → j.id ≡ id → n ≡ j.attempt_count + open_attempt j.status
  no_row : has_key (λ j. j.id) id rows ≡ false → n ≡ 0

update-IsCounted :
    (id : String) (n : ℕ) (p : Job → Bool) (f : Job → Job) (rows : List Job)
    → ((j : Job) → (f j).id ≡ j.id)
    → ((j : Job)
        → p j ≡ true
        → (f j).attempt_count + open_attempt (f j).status ≡ j.attempt_count + open_attempt j.status)
    → IsCounted id n rows
    → IsCounted id n (update_where p f rows)
update-IsCounted id n p f rows same keeps c = record {
  on_row = λ k m k_is.
      let (j, q, e) = mem-update p f rows k m in
      elim (Bool-cases (p j)) [
        | inl t ↦
            let changed : k ≡ f j = rw t at e in
            let j_is : j.id ≡ id = sym (same j) ∙ ap (λ x. x.id) (sym changed) ∙ k_is in
            c.on_row j q j_is
            ∙ sym (keeps j t)
            ∙ ap (λ x. x.attempt_count + open_attempt x.status) (sym changed)
        | inr t ↦
            let left : k ≡ j = rw t at e in
            c.on_row j q (ap (λ x. x.id) (sym left) ∙ k_is)
            ∙ ap (λ x. x.attempt_count + open_attempt x.status) (sym left)
      ];
  no_row = λ absent. c.no_row (sym (has_key-update (λ j. j.id) p f id rows same) ∙ absent);
}

append-IsCounted :
    (id : String) (n : ℕ) (rows : List Job) (j : Job)
    → IsNew j
    → has_key (λ j. j.id) j.id rows ≡ false
    → IsCounted id n rows
    → IsCounted id n (rows ++ j ∷ [])
append-IsCounted id n rows j new absent c = record {
  on_row = λ k m k_is. elim (mem-append_one rows j k m) [
    | inl old ↦ c.on_row k old k_is
    | inr e ↦
        let j_is : j.id ≡ id = ap (λ x. x.id) (sym e) ∙ k_is in
        let zero_times : n ≡ 0 = c.no_row (rw j_is at absent) in rw e (ground arith)
  ];
  no_row = λ gone. c.no_row (has_key-append_one (λ j. j.id) id rows j gone);
}

recovered-counts :
    (now : ℕ) (j : Job)
    → is_processing j.status ≡ true
    → (recovered now j).attempt_count + open_attempt (recovered now j).status
      ≡ j.attempt_count + open_attempt j.status
recovered-counts now j p = ground arith

failed_once-counts :
    (error : String) (next : Option ℕ) (now : ℕ) (j : Job)
    → is_processing j.status ≡ true
    → (failed_once error next now j).attempt_count
        + open_attempt (failed_once error next now j).status
      ≡ j.attempt_count + open_attempt j.status
failed_once-counts error next now j p = ground arith

done-counts :
    (now : ℕ) (j : Job)
    → is_processing j.status ≡ true
    → (done now j).attempt_count + open_attempt (done now j).status
      ≡ j.attempt_count + open_attempt j.status
done-counts now j p = ground arith

-- A claim returns the row that it chose.
given-claim :
    (id worker : String) (now : ℕ) (rows : List Job) (j : Job)
    → Memᴰ j rows
    → given id (claim_job worker now rows (some j)).1 ≡ (if str_eq j.id id then 1 else 0)
given-claim id worker now rows j m =
    let itself : has_id j.id j ≡ true = (eq_iff j.id j.id).1 refl in
    let (b, e) = some_returned (has_id j.id) (claimed worker now) rows j m itself in
    let (a, n, h, q) = returned-mem (has_id j.id) (claimed worker now) rows b e in
    let same : b.id ≡ j.id = ap (λ x. x.id) q ∙ (eq_iff a.id j.id).0 h in rw (e, same) refl

-- The row of a job that is claimed has one open attempt more.
claim-IsCounted :
    (skipped : String → Bool) (queue worker id : String) (now n : ℕ) (rows : List Job)
    → IsValid rows
    → IsCounted id n rows
    → IsCounted id
        (n
          + given id (claim_job worker now rows (earliest (is_claimable skipped queue now) rows)).1)
        (claim_job worker now rows (earliest (is_claimable skipped queue now) rows)).0
claim-IsCounted skipped queue worker id now n rows v c =
    elim (Option-cases (earliest (is_claimable skipped queue now) rows)) [
      | inl missing ↦ rw missing (subst (λ x. IsCounted id x rows) (ground arith) c)
      | inr (j, found) ↦
          let chosen = earliest_sound (is_claimable skipped queue now) rows j found in
          rw (found, given-claim id worker now rows j chosen.0)
            (record {
              on_row = on_claimed j found;
              no_row = λ gone.
                  let absent : has_key (λ j. j.id) id rows ≡ false =
                    sym (
                      has_key-update (λ j. j.id) (has_id j.id) (claimed worker now) id rows
                        (λ k. refl))
                    ∙ gone in
                  let there = mem-has_key (λ j. j.id) rows j chosen.0 in
                  elim (Bool-cases (str_eq j.id id)) [
                    | inl t ↦ absurd (let there' = rw ((eq_iff j.id id).0 t) at there in cc)
                    | inr t ↦ rw t (let z = c.no_row absent in omega arith)
                  ];
            })
    ]
  where
    on_claimed :
        (j : Job)
        → earliest (is_claimable skipped queue now) rows ≡ some j
        → (k : Job) → Memᴰ k (update_where (has_id j.id) (claimed worker now) rows)
        → k.id ≡ id
        → n + (if str_eq j.id id then 1 else 0) ≡ k.attempt_count + open_attempt k.status
    on_claimed j found k m k_is =
        let (r, q, e) = mem-update (has_id j.id) (claimed worker now) rows k m in
        elim (Bool-cases (has_id j.id r)) [
          | inl t ↦
              let p = claimed_row skipped queue now rows j r v.keyed found q t in
              let changed : k ≡ claimed worker now r = rw t at e in
              let r_is : r.id ≡ id = ap (λ x. x.id) (sym changed) ∙ k_is in
              let j_is : str_eq j.id id ≡ true =
                (eq_iff j.id id).1 (sym ((eq_iff r.id j.id).0 t) ∙ r_is) in
              let before = c.on_row r q r_is in rw (changed, j_is) (ground arith)
          | inr t ↦
              let left : k ≡ r = rw t at e in
              let r_is : r.id ≡ id = ap (λ x. x.id) (sym left) ∙ k_is in
              elim (Bool-cases (str_eq j.id id)) [
                | inl j_is ↦ absurd (
                    let same : has_id j.id r ≡ true =
                      (eq_iff r.id j.id).1 (r_is ∙ sym ((eq_iff j.id id).0 j_is)) in
                    cc)
                | inr other ↦ let before = c.on_row r q r_is in rw (left, other) (ground arith)
              ]
        ]

enqueue-IsCounted :
    (id : String) (n : ℕ) (j : Job) (rows : List Job)
    → IsNew j
    → IsCounted id n rows
    → IsCounted id n (enqueue j rows).0 × IsCounted id n (enqueue_if_absent j rows).0
unfolding enqueue enqueue_if_absent
enqueue-IsCounted id n j rows new c = elim (Bool-cases (has_key (λ k. k.id) j.id rows)) [
  | inl taken ↦ rw taken (c, c)
  | inr free ↦
      rw free (append-IsCounted id n rows j new free c, append-IsCounted id n rows j new free c)
]

call-IsCounted :
    (id : String) (n : ℕ) (c : Call) (rows : List Job)
    → Admits c
    → IsValid rows
    → IsCounted id n rows
    → IsCounted id (n + given id (handed c rows)) (call c rows)
unfolding call handed
call-IsCounted id n (enqueue_call job) rows a v c =
    subst (λ x. IsCounted id x (enqueue job rows).0) (ground arith)
      (enqueue-IsCounted id n job rows a c).0
call-IsCounted id n (enqueue_if_absent_call job) rows a v c =
    subst (λ x. IsCounted id x (enqueue_if_absent job rows).0) (ground arith)
      (enqueue-IsCounted id n job rows a c).1
call-IsCounted id n (claim_next_call skipped queue worker now) rows a v c =
    claim-IsCounted skipped queue worker id now n rows v c
call-IsCounted id n (recover_call queue now) rows a v c =
    subst (λ x. IsCounted id x (update_where (is_abandoned queue now) (recovered now) rows))
      (ground arith)
      (update-IsCounted id n (is_abandoned queue now) (recovered now) rows (λ j. refl)
        (λ j t. recovered-counts now j (abandoned-processing queue now j t)) c)
call-IsCounted id n (renew_call job worker now) rows a v c =
    subst (λ x. IsCounted id x (update_where (is_leased job worker) (renewed now) rows))
      (ground arith)
      (update-IsCounted id n (is_leased job worker) (renewed now) rows (λ j. refl) (λ j t. refl) c)
call-IsCounted id n (complete_call job worker now) rows a v c =
    subst (λ x. IsCounted id x (update_where (is_leased job worker) (done now) rows)) (ground arith)
      (update-IsCounted id n (is_leased job worker) (done now) rows (λ j. refl)
        (λ j t. done-counts now j (leased-processing job worker j t)) c)
call-IsCounted id n (fail_call job error next worker now) rows a v c =
    subst
      (λ x. IsCounted id x (update_where (is_leased job worker) (failed_once error next now) rows))
      (ground arith)
      (update-IsCounted id n (is_leased job worker) (failed_once error next now) rows (λ j. refl)
        (λ j t. failed_once-counts error next now j (leased-processing job worker j t)) c)

run-IsCounted :
    (id : String) (n : ℕ) (cs : List Call) (rows : List Job)
    → All Admits cs
    → IsValid rows
    → IsCounted id n rows
    → IsCounted id (n + times_handed id cs rows) (run cs rows)
unfolding run times_handed
run-IsCounted id n [] rows a v c = subst (λ x. IsCounted id x rows) (ground arith) c
run-IsCounted id n (d ∷ cs) rows a v c =
    subst (λ x. IsCounted id x (run cs (call d rows))) (ground arith)
      (run-IsCounted id (n + given id (handed d rows)) cs (call d rows) a.1
        (call-IsValid d rows a.0 v) (call-IsCounted id n d rows a.0 v c))

empty-IsCounted : (id : String) → IsCounted id 0 []
empty-IsCounted id = record { on_row = λ j m e. elim m [ ]; no_row = λ e. refl }

attempts_bounded : (j : Job) → JobValid j → j.attempt_count + open_attempt j.status ≤ j.max_attempts
attempts_bounded j v = ground arith

-- After any calls on an empty table that enqueue only new jobs, the attempts of a job, with the one
-- that is running or was completed, are the times that a claim handed it to a worker; and these are no
-- more than its maximum.
pub handed_at_most :
    (cs : List Call)
    → All Admits cs
    → (j : Job) → Memᴰ j (run cs [])
    → (times_handed j.id cs [] ≡ j.attempt_count + open_attempt j.status)
      × (times_handed j.id cs [] ≤ j.max_attempts)
handed_at_most cs a j m =
    let counted = run-IsCounted j.id 0 cs [] a empty-IsValid (empty-IsCounted j.id) in
    let on_row = counted.on_row j m refl in
    let exact : times_handed j.id cs [] ≡ j.attempt_count + open_attempt j.status = omega arith in
    let bound = attempts_bounded j ((run-IsValid cs [] a empty-IsValid).valid j m) in
    (exact, omega arith)
