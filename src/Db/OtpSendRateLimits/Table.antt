-- ===== src/Db/OtpSendRateLimits/Table.antt =====
-- The table of limits, and the transaction that consumes a request.
use oss_tips.Base.{
  ℕ, String, str_eq, Bool, true, false, ◌&&◌, ◌||◌, Option, none, some, List, [], ◌∷◌, ◌++◌, any,
  find, Result, ok, err, if◌then◌else◌,
}
use oss_tips.Db.Rows.{update_where}
use oss_tips.Db.OtpSendRateLimits.{
  OtpSendRateLimitPolicy, OtpSendRateLimitDecision, OtpSendRateLimitState,
  OtpSendRateLimitEvaluation, evaluate_otp_send,
}

-- The row of an address in the table, which a scope and a hash find; its random id is left out.
pub data Scope : Type 0 where
  email_scope ip_scope : Scope

pub record OtpSendRateLimit : Type 0 where
  pub scope : Scope
  pub key_hash : String
  pub limit_state : OtpSendRateLimitState
  pub updated_at : ℕ

abbrev pub same_scope : Scope → Scope → Bool
same_scope email_scope email_scope = true
same_scope ip_scope ip_scope = true
same_scope _ _ = false

abbrev pub is_row : Scope → String → OtpSendRateLimit → Bool
is_row scope key row = same_scope row.scope scope && str_eq row.key_hash key

abbrev pub initial_row : Scope → String → ℕ → OtpSendRateLimit
initial_row scope key now = record {
  scope = scope;
  key_hash = key;
  limit_state = record {
    window_started_at = now;
    send_count = 0;
    last_sent_at = none;
    cooldown_level = 0;
  };
  updated_at = now;
}

-- An insert that does nothing where the row is there.
abbrev pub insert_absent : Scope → String → ℕ → List OtpSendRateLimit → List OtpSendRateLimit
insert_absent scope key now rows =
    if any (is_row scope key) rows then rows else rows ++ initial_row scope key now ∷ []

-- The row that is found has the scope, and either of the two hashes that are selected.
abbrev pub locked_row : Scope → String → String → List OtpSendRateLimit → Option OtpSendRateLimit
locked_row scope email_key ip_key rows =
    find
      (λ row.
        same_scope row.scope scope && (str_eq row.key_hash email_key || str_eq row.key_hash ip_key))
      rows

abbrev pub stored_row : OtpSendRateLimitState → ℕ → OtpSendRateLimit → OtpSendRateLimit
stored_row s now row = record row { limit_state = s; updated_at = now }

abbrev pub store_evaluation :
    String → String → ℕ → OtpSendRateLimitEvaluation → List OtpSendRateLimit → List OtpSendRateLimit
store_evaluation email_key ip_key now v rows =
    update_where (is_row ip_scope ip_key) (stored_row v.ip_state now)
      (update_where (is_row email_scope email_key) (stored_row v.email_state now) rows)

abbrev pub consume_locked :
    String
    → String
    → ℕ
    → OtpSendRateLimitPolicy
    → (before rows : List OtpSendRateLimit) → Option OtpSendRateLimit
    → Option OtpSendRateLimit
    → List OtpSendRateLimit × Result OtpSendRateLimitDecision
consume_locked email_key ip_key now policy before rows (some e) (some i) = (
  store_evaluation email_key ip_key now (evaluate_otp_send e.limit_state i.limit_state now policy)
      rows,
  ok (evaluate_otp_send e.limit_state i.limit_state now policy).decision,
)
consume_locked email_key ip_key now policy before rows _ _ =
    (before, err "OTP rate-limit rows could not be locked")

abbrev pub with_rows : String → String → ℕ → List OtpSendRateLimit → List OtpSendRateLimit
with_rows email_key ip_key now rows =
    insert_absent ip_scope ip_key now (insert_absent email_scope email_key now rows)

-- `consume`, one transaction, which an error takes back.
unfoldable pub consume :
    String
    → String
    → ℕ
    → OtpSendRateLimitPolicy
    → List OtpSendRateLimit
    → List OtpSendRateLimit × Result OtpSendRateLimitDecision
unfolding evaluate_otp_send
consume email_key ip_key now policy rows =
    consume_locked email_key ip_key now policy rows (with_rows email_key ip_key now rows)
      (locked_row email_scope email_key ip_key (with_rows email_key ip_key now rows))
      (locked_row ip_scope email_key ip_key (with_rows email_key ip_key now rows))
