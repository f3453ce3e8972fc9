-- ===== src/Db/OtpSendRateLimits/Windows.antt =====
-- How many codes are sent within a window, and how far apart.
use oss_tips.Base.{
  ℕ, ◌+◌, ◌-◌, ◌*◌, ◌≤◌, ◌<◌, leb, ltb, Bool, true, false, List, [], ◌∷◌, All, Bool-cases, ◌⊎◌, inl,
  inr, ◌≡◌, none, refl, sym, ap, subst, ◌∙◌, arith,
}
use oss_tips.Db.OtpSendRateLimits.{
  OtpSendRateLimitPolicy, OtpSendRateLimitState, OtpSendRateLimitEvaluation, reset_expired,
  is_cooling, cooldown_ms, sent_email, sent_ip, evaluate_current, evaluate_otp_send,
}

-- A time before the end of the window of a row.
abbrev pub IsWithin : OtpSendRateLimitPolicy → OtpSendRateLimitState → ℕ → Type 0
IsWithin policy row now = now < row.window_started_at + policy.window_seconds * 1000

kept-within :
    (policy : OtpSendRateLimitPolicy) (row : OtpSendRateLimitState) (now : ℕ)
    → IsWithin policy row now
    → reset_expired row now (policy.window_seconds * 1000) ≡ row
kept-within policy row now w = ground arith

-- What becomes of a request within both windows.
abbrev IsRefused :
    OtpSendRateLimitState → OtpSendRateLimitState → OtpSendRateLimitEvaluation → Type 0
IsRefused e i v = (v.decision.allowed ≡ false) × (v.email_state ≡ e) × (v.ip_state ≡ i)

abbrev IsSent :
    OtpSendRateLimitPolicy
    → OtpSendRateLimitState
    → OtpSendRateLimitState
    → ℕ
    → OtpSendRateLimitEvaluation
    → Type 0
IsSent policy e i now v =
    (v.decision.allowed ≡ true)
    × (v.email_state ≡ sent_email policy e now)
    × (v.ip_state ≡ sent_ip i)
    × (e.send_count < policy.email_limit)
    × (i.send_count < policy.ip_limit)
    × (is_cooling e.last_sent_at (cooldown_ms policy e.cooldown_level) now ≡ false)

current-cases :
    (policy : OtpSendRateLimitPolicy) (e i : OtpSendRateLimitState) (now : ℕ)
    → IsRefused e i (evaluate_current policy e i now)
      ⊎ IsSent policy e i now (evaluate_current policy e i now)
current-cases policy e i now = elim (Bool-cases (leb policy.email_limit e.send_count)) [
  | inl many ↦ elim (Bool-cases (leb policy.ip_limit i.send_count)) [
    | inl many_ip ↦
        elim (Bool-cases (
          ltb (e.window_started_at + policy.window_seconds * 1000)
            (i.window_started_at + policy.window_seconds * 1000))) [
              | inl t ↦ inl (rw (many, many_ip, t) (refl, refl, refl))
              | inr t ↦ inl (rw (many, many_ip, t) (refl, refl, refl))
            ]
    | inr few_ip ↦ inl (rw (many, few_ip) (refl, refl, refl))
  ]
  | inr few ↦ elim (Bool-cases (leb policy.ip_limit i.send_count)) [
    | inl many_ip ↦ inl (rw (few, many_ip) (refl, refl, refl))
    | inr few_ip ↦
        elim (Bool-cases (is_cooling e.last_sent_at (cooldown_ms policy e.cooldown_level) now)) [
          | inl soon ↦ inl (rw (few, few_ip, soon) (refl, refl, refl))
          | inr late ↦
              inr (rw (few, few_ip, late) (refl, refl, refl, ground arith, ground arith, refl))
        ]
  ]
]

pub evaluate-cases :
    (policy : OtpSendRateLimitPolicy) (e i : OtpSendRateLimitState) (now : ℕ)
    → IsWithin policy e now
    → IsWithin policy i now
    → IsRefused e i (evaluate_otp_send e i now policy)
      ⊎ IsSent policy e i now (evaluate_otp_send e i now policy)
unfolding evaluate_otp_send
evaluate-cases policy e i now we wi =
    rw (kept-within policy e now we, kept-within policy i now wi) (current-cases policy e i now)

abbrev pub one_if : Bool → ℕ
one_if true = 1
one_if false = 0

-- How many of the requests at these times are allowed, each evaluated on what the last left.
unfoldable pub times_allowed :
    OtpSendRateLimitPolicy → OtpSendRateLimitState → OtpSendRateLimitState → List ℕ → ℕ
times_allowed policy e i [] = 0
times_allowed policy e i (now ∷ later) =
    let v = evaluate_otp_send e i now policy in
    one_if v.decision.allowed + times_allowed policy v.email_state v.ip_state later

-- Requests at any times within the windows of both addresses, in any order, are allowed no more often
-- than each of the two limits has left: what was sent before and what is allowed is at most the limit.
pub window_bounds_sends :
    (policy : OtpSendRateLimitPolicy) (e i : OtpSendRateLimitState) (times : List ℕ)
    → All (λ now. IsWithin policy e now × IsWithin policy i now) times
    → (times_allowed policy e i times ≤ policy.email_limit - e.send_count)
      × (times_allowed policy e i times ≤ policy.ip_limit - i.send_count)
unfolding times_allowed
window_bounds_sends policy e i [] w = (omega arith, omega arith)
window_bounds_sends policy e i (now ∷ later) w = elim (evaluate-cases policy e i now w.0.0 w.0.1) [
  | inl (stopped, same_e, same_i) ↦
      let rest = window_bounds_sends policy e i later w.1 in
      rw (stopped, same_e, same_i) (omega arith, omega arith)
  | inr (yes_sent, next_e, next_i, below_e, below_i, cool) ↦
      let (rest_e, rest_i) =
        window_bounds_sends policy (sent_email policy e now) (sent_ip i) later w.1 in
      rw (yes_sent, next_e, next_i) (omega arith, omega arith)
]

-- A row of which no code is counted.
abbrev pub no_sends : ℕ → OtpSendRateLimitState
no_sends now = record {
  window_started_at = now;
  send_count = 0;
  last_sent_at = none;
  cooldown_level = 0;
}

reset_fresh : (now window_ms : ℕ) → reset_expired (no_sends now) now window_ms ≡ no_sends now
reset_fresh now window_ms = elim (Bool-cases (ltb now (now + window_ms))) [
  | inl t ↦ rw t refl
  | inr t ↦ rw t refl
]

reset_over :
    (row : OtpSendRateLimitState) (now window_ms : ℕ)
    → ltb now (row.window_started_at + window_ms) ≡ false
    → reset_expired row now window_ms ≡ no_sends now
reset_over row now window_ms over = rw over refl

-- Within the window of an address that a code was sent to, the next waits.
within-waits :
    (policy : OtpSendRateLimitPolicy) (f l : OtpSendRateLimitState) (now again : ℕ)
    → again < now + cooldown_ms policy (sent_email policy f now).cooldown_level
    → (evaluate_current policy (sent_email policy f now) l again).decision.allowed ≡ false
within-waits policy f l now again soon =
    elim (current-cases policy (sent_email policy f now) l again) [
      | inl (stopped, same_f, same_j) ↦ stopped
      | inr (u, next_f, next_j, below_f, below_j, cool_f) ↦ absurd (ground arith)
    ]

sent-cases :
    (policy : OtpSendRateLimitPolicy) (s j : OtpSendRateLimitState) (again : ℕ)
    → (IsWithin policy s again
        × (evaluate_otp_send s j again policy
            ≡ evaluate_current policy s
                (reset_expired j again (policy.window_seconds * 1000))
                again))
      ⊎ ((¬ IsWithin policy s again)
          × (evaluate_otp_send s j again policy
              ≡ evaluate_otp_send (no_sends again) j again policy))
unfolding evaluate_otp_send
sent-cases policy s j again =
    let l = reset_expired j again (policy.window_seconds * 1000) in
    elim (Bool-cases (ltb again (s.window_started_at + policy.window_seconds * 1000))) [
      | inl t ↦
          let within : IsWithin policy s again = ground arith in
          inl (
            within,
            ap (λ z. evaluate_current policy z l again) (kept-within policy s again within),
          )
      | inr t ↦ inr (
        λ within. absurd (ground arith),
        ap (λ z. evaluate_current policy z l again)
            (reset_over s again _ t ∙ sym (reset_fresh again (policy.window_seconds * 1000))),
      )
    ]

-- After a code is sent to an address, let a request for the same address, of any requester, come before
-- the end of the wait that the address's new level sets. It is refused if it comes within the window of
-- the address; after the window it is decided as if no code had been sent to the address.
pub cooldown_refuses :
    (policy : OtpSendRateLimitPolicy) (e i j : OtpSendRateLimitState) (now again : ℕ)
    → (evaluate_otp_send e i now policy).decision.allowed ≡ true
    → again < now + cooldown_ms policy (evaluate_otp_send e i now policy).email_state.cooldown_level
    → let sent = (evaluate_otp_send e i now policy).email_state in
      (IsWithin policy sent again
        × ((evaluate_otp_send sent j again policy).decision.allowed ≡ false))
      ⊎ ((¬ IsWithin policy sent again)
          × (evaluate_otp_send sent j again policy
              ≡ evaluate_otp_send (no_sends again) j again policy))
unfolding evaluate_otp_send
cooldown_refuses policy e i j now again yes_sent soon =
    let f = reset_expired e now (policy.window_seconds * 1000) in
    let k = reset_expired i now (policy.window_seconds * 1000) in
    let l = reset_expired j again (policy.window_seconds * 1000) in
    elim (current-cases policy f k now) [
      | inl (stopped, same_e, same_i) ↦ absurd (cc)
      | inr (t, next_e, next_i, below_e, below_i, cool) ↦
          let soon' = rw next_e at soon in
          elim (sent-cases policy (evaluate_current policy f k now).email_state j again) [
            | inr outside ↦ inr outside
            | inl (within, same) ↦ inl (
              within,
              ap (λ v. v.decision.allowed) same
                  ∙ subst (λ z. (evaluate_current policy z l again).decision.allowed ≡ false)
                      (sym next_e) (within-waits policy f l now again soon'),
            )
          ]
    ]
