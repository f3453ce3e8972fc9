-- ===== src/Db/OtpSendRateLimits/Consume.antt =====
-- What a request does to the table of limits.
use oss_tips.Base.{
  ℕ, String, str_eq, eq_iff, Bool, true, false, ◌&&◌, ◌||◌, some, List, [], ◌∷◌, ◌++◌, Memᴰ, any,
  find, ok, Bool-cases, inl, inr, ◌≡◌, refl, arith,
}
use oss_tips.Db.Rows.{update_where, update-keeps, append_one-mem}
use oss_tips.Db.OtpSendRateLimits.{
  OtpSendRateLimitPolicy, OtpSendRateLimitDecision, evaluate_otp_send,
}
use oss_tips.Db.OtpSendRateLimits.Table.{
  OtpSendRateLimit, Scope, email_scope, ip_scope, same_scope, is_row, initial_row, insert_absent,
  with_rows, locked_row, stored_row, consume,
}

abbrev Rows : Type 0
Rows = List OtpSendRateLimit

itself-row :
    (scope : Scope) (key : String) (now : ℕ) → is_row scope key (initial_row scope key now) ≡ true
itself-row email_scope key now = (eq_iff key key).1 refl
itself-row ip_scope key now = (eq_iff key key).1 refl

any-append_one :
    (p : OtpSendRateLimit → Bool) (rows : Rows) (r : OtpSendRateLimit)
    → p r ≡ true
    → any p (rows ++ r ∷ []) ≡ true
any-append_one p [] r t = rw t refl
any-append_one p (q ∷ rows) r t = ground (arith, any-append_one p rows r t)

any-kept :
    (p : OtpSendRateLimit → Bool) (rows : Rows) (r : OtpSendRateLimit)
    → any p rows ≡ true
    → any p (rows ++ r ∷ []) ≡ true
any-kept p [] r t = absurd (cc)
any-kept p (q ∷ rows) r t = ground (arith, any-kept p rows r)

inserted :
    (scope : Scope) (key : String) (now : ℕ) (rows : Rows)
    → any (is_row scope key) (insert_absent scope key now rows) ≡ true
inserted scope key now rows = elim (Bool-cases (any (is_row scope key) rows)) [
  | inl t ↦ rw (t, t) refl
  | inr t ↦ rw t (
      any-append_one (is_row scope key) rows (initial_row scope key now) (itself-row scope key now))
]

insert_absent-any :
    (p : OtpSendRateLimit → Bool) (scope : Scope) (key : String) (now : ℕ) (rows : Rows)
    → any p rows ≡ true
    → any p (insert_absent scope key now rows) ≡ true
insert_absent-any p scope key now rows t = elim (Bool-cases (any (is_row scope key) rows)) [
  | inl u ↦ rw u t
  | inr u ↦ rw u (any-kept p rows (initial_row scope key now) t)
]

insert_absent-mem :
    (scope : Scope) (key : String) (now : ℕ) (rows : Rows) (r : OtpSendRateLimit)
    → Memᴰ r rows
    → Memᴰ r (insert_absent scope key now rows)
insert_absent-mem scope key now rows r m = elim (Bool-cases (any (is_row scope key) rows)) [
  | inl u ↦ rw u m
  | inr u ↦ rw u (append_one-mem rows (initial_row scope key now) r m)
]

find-weaker :
    (p q : OtpSendRateLimit → Bool) (rows : Rows)
    → ((r : OtpSendRateLimit) → p r ≡ true → q r ≡ true)
    → any p rows ≡ true
    → (r : OtpSendRateLimit) × (find q rows ≡ some r)
find-weaker p q [] w t = absurd (cc)
find-weaker p q (r ∷ rows) w t = elim (Bool-cases (q r)) [
  | inl u ↦ (r, rw u refl)
  | inr u ↦ elim (Bool-cases (p r)) [
    | inl v ↦ absurd (let v' = w r v in cc)
    | inr v ↦ let (s, e) = find-weaker p q rows w (rw v at t) in (s, rw u e)
  ]
]

email-locked :
    (email_key ip_key : String) (now : ℕ) (rows : Rows)
    → (r : OtpSendRateLimit) × (locked_row email_scope email_key ip_key
          (with_rows email_key ip_key now rows)
        ≡ some r)
email-locked email_key ip_key now rows =
    find-weaker (is_row email_scope email_key)
      (λ row.
        same_scope row.scope email_scope
        && (str_eq row.key_hash email_key || str_eq row.key_hash ip_key))
      (with_rows email_key ip_key now rows) (λ r t. ground arith)
      (insert_absent-any (is_row email_scope email_key) ip_scope ip_key now
        (insert_absent email_scope email_key now rows) (inserted email_scope email_key now rows))

ip-locked :
    (email_key ip_key : String) (now : ℕ) (rows : Rows)
    → (r : OtpSendRateLimit) × (locked_row ip_scope email_key ip_key
          (with_rows email_key ip_key now rows)
        ≡ some r)
ip-locked email_key ip_key now rows =
    find-weaker (is_row ip_scope ip_key)
      (λ row.
        same_scope row.scope ip_scope
        && (str_eq row.key_hash email_key || str_eq row.key_hash ip_key))
      (with_rows email_key ip_key now rows) (λ r t. ground arith)
      (inserted ip_scope ip_key now (insert_absent email_scope email_key now rows))

-- A request on any table is decided, never refused for want of its rows, and it leaves each row that is
-- of neither of its addresses as it is.
pub consume_decides :
    (email_key ip_key : String) (now : ℕ) (policy : OtpSendRateLimitPolicy)
    (rows : List OtpSendRateLimit)
    → ((d : OtpSendRateLimitDecision) × ((consume email_key ip_key now policy rows).1 ≡ ok d))
      × ((r : OtpSendRateLimit)
          → Memᴰ r rows
          → is_row email_scope email_key r ≡ false
          → is_row ip_scope ip_key r ≡ false
          → Memᴰ r (consume email_key ip_key now policy rows).0)
unfolding consume
consume_decides email_key ip_key now policy rows =
    let (e, found_e) = email-locked email_key ip_key now rows in
    let (i, found_i) = ip-locked email_key ip_key now rows in
    let v = evaluate_otp_send e.limit_state i.limit_state now policy in
    rw (found_e, found_i)
      (
        (v.decision, refl),
        λ r m other_e other_i.
            let present =
              insert_absent-mem ip_scope ip_key now (insert_absent email_scope email_key now rows) r
                (insert_absent-mem email_scope email_key now rows r m) in
            update-keeps (is_row ip_scope ip_key) (stored_row v.ip_state now)
              (update_where (is_row email_scope email_key) (stored_row v.email_state now)
                (with_rows email_key ip_key now rows))
              r other_i
              (update-keeps (is_row email_scope email_key) (stored_row v.email_state now)
                (with_rows email_key ip_key now rows) r other_e present),
      )
