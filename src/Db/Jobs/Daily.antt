-- ===== src/Db/Jobs/Daily.antt =====
-- The jobs of each day in packages/db/src/repositories/jobs.ts. Their ids are made of the digest of a
-- text, `sha256_hex`, in 64 hexadecimal digits; `iso_day` is the first ten characters of a time's
-- `toISOString`.
use Prim.Native.String
use Prim.Native.Char.{Char, code}
use oss_tips.Base.{
  ℕ, ◌+◌, ◌-◌, ◌%◌, ltb, String, Bool, true, false, none, List, [], ◌∷◌, if◌then◌else◌, between,
  to_lower,
}
use oss_tips.Db.Jobs.{Job, pending}

-- `STORAGE_MAINTENANCE_JOB_KINDS`
abbrev pub storage_maintenance_job_kinds : List String
storage_maintenance_job_kinds =
    "storage.inventory" ∷ "storage.cleanup_exports" ∷ "storage.purge_media" ∷ []

-- `RETENTION_MAINTENANCE_JOB_KINDS`
abbrev pub retention_maintenance_job_kinds : List String
retention_maintenance_job_kinds =
    "retention.verification" ∷ "retention.otp_limits" ∷ "retention.analytics"
    ∷ "retention.security_ip" ∷ "retention.api_rate_limits" ∷ []

abbrev chars : String → List Char
chars String.[] = []
chars (String.◌∷◌ c s) = c ∷ chars s

abbrev text : List Char → String
text [] = String.[]
text (c ∷ cs) = String.◌∷◌ c (text cs)

-- `nibbles[k] = f(nibbles[k])`
abbrev change_at : ℕ → (Char → Char) → List Char → List Char
change_at k f [] = []
change_at k f (c ∷ cs) = let rest = change_at (k - 1) f cs in if ltb 0 k then c ∷ rest else f c ∷ cs

-- `nibbles.slice(from, to)`
abbrev slice : ℕ → ℕ → List Char → List Char
slice from to [] = []
slice from to (c ∷ cs) =
    let rest = slice (from - 1) (to - 1) cs in
    if ltb 0 from then rest else if ltb 0 to then c ∷ rest else []

-- `Number.parseInt(digit, 16)`, with 0 for what is no digit
abbrev hex_value : ℕ → ℕ
hex_value c =
    if between b'0' b'9' c
    then c - b'0'
    else if between b'a' b'f' c
    then c - b'a' + 10
    else if between b'A' b'F' c
    then c - b'A' + 10
    else 0

-- `((value & 3) | 8).toString(16)`
abbrev variant_digit : ℕ → Char
variant_digit value =
    if ltb (value % 4) 1
    then "8"
    else if ltb (value % 4) 2
    then "9"
    else if ltb (value % 4) 3
    then "a"
    else "b"

abbrev dash : String → String → String
dash s t = String.◌++◌ s (String.◌++◌ "-" t)

unfoldable pub deterministic_job_id : (sha256_hex : String → String) → String → String
deterministic_job_id sha256_hex key =
    let nibbles =
      change_at 16 (λ c. variant_digit (hex_value (code c)))
        (change_at 12 (λ c. "4") (chars (sha256_hex key))) in
    dash (text (slice 0 8 nibbles)) (
      dash (text (slice 8 12 nibbles)) (
        dash (text (slice 12 16 nibbles))
          (dash (text (slice 16 20 nibbles)) (text (slice 20 32 nibbles)))))

-- A job that is due and has its five attempts.
abbrev pub new_job : (id queue kind payload : String) → (run_at now : ℕ) → Job
new_job id queue kind payload run_at now = record {
  id = id;
  queue = queue;
  kind = kind;
  payload = payload;
  status = pending;
  attempt_count = 0;
  max_attempts = 5;
  run_at = run_at;
  locked_at = none;
  locked_by = none;
  last_error = none;
  updated_at = now;
}

abbrev colon : String → String → String
colon s t = String.◌++◌ s (String.◌++◌ ":" t)

-- A field of a JSON object; the values are ids, codes and days, in which JSON escapes nothing.
abbrev field : String → String → String
field name value =
    String.◌++◌ "\"" (String.◌++◌ name (String.◌++◌ "\":\"" (String.◌++◌ value "\"")))

abbrev comma : String → String → String
comma s t = String.◌++◌ s (String.◌++◌ "," t)

abbrev object : String → String
object fields = String.◌++◌ "{" (String.◌++◌ fields "}")

module _ (sha256_hex : String → String) (iso_day : ℕ → String) where
  unfoldable pub storage_maintenance_job : (kind : String) → (run_at now : ℕ) → Job
  unfolding deterministic_job_id
  storage_maintenance_job kind run_at now =
      new_job
        (deterministic_job_id sha256_hex
          (colon "storage-maintenance" (colon kind (iso_day run_at))))
        "default" kind (object (field "maintenance_day" (iso_day run_at))) run_at now

  unfoldable pub retention_maintenance_job : (kind : String) → (run_at now : ℕ) → Job
  unfolding deterministic_job_id
  retention_maintenance_job kind run_at now =
      new_job
        (deterministic_job_id sha256_hex
          (colon "retention-maintenance" (colon kind (iso_day run_at))))
        "default" kind (object (field "maintenance_day" (iso_day run_at))) run_at now

pub data RetryKind : Type 0 where
  initial timing_retry event_retry : RetryKind

abbrev retry_kind : (timing event : Bool) → RetryKind
retry_kind timing true = event_retry
retry_kind true false = timing_retry
retry_kind false false = initial

abbrev retry_name : RetryKind → String
retry_name initial = "initial"
retry_name timing_retry = "timing-retry"
retry_name event_retry = "event-retry"

-- The payload tells a retry from the first run.
abbrev retry_field : RetryKind → String → String
retry_field initial fields = fields
retry_field timing_retry fields = comma fields (field "retry_kind" "timing")
retry_field event_retry fields = comma fields (field "retry_kind" "event")

pub record ReconciliationWindow : Type 0 where
  pub stripe_account_id : String
  pub currency : String
  pub period_start : String
  pub period_end : String
  pub is_timing_retry : Bool
  pub is_event_retry : Bool

-- `dailyReconciliationJob`
unfoldable pub daily_reconciliation_job :
    (sha256_hex : String → String) → ReconciliationWindow → (run_at now : ℕ) → Job
unfolding deterministic_job_id to_lower
daily_reconciliation_job sha256_hex w run_at now =
    let currency = to_lower w.currency in
    let retry = retry_kind w.is_timing_retry w.is_event_retry in
    new_job
      (deterministic_job_id sha256_hex (
        colon "reconciliation" (
          colon w.stripe_account_id
            (colon currency (colon w.period_start (colon w.period_end (retry_name retry)))))))
      "finance" "reconciliation.daily"
      (object (
        retry_field retry (
          comma (field "stripe_account_id" w.stripe_account_id) (
            comma (field "currency" currency)
              (comma (field "period_start" w.period_start) (field "period_end" w.period_end))))))
      run_at now
