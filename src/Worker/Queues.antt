-- ===== src/Worker/Queues.antt =====
-- One-time codes have a queue of their own (apps/worker/src/worker-runtime.ts).
use oss_tips.Base.{
  String, str_eq, Bool, true, false, not, Option, List, [], ◌∷◌, keep, any, Bool-cases, inl, inr,
  ◌≡◌, ◌≢◌, refl, ap, eq_iff,
}
use oss_tips.Worker.{worker_queue_plan, or_default, is_otp_only, otp_queue, requested}

abbrev pub is_otp : String → Bool
is_otp q = str_eq q otp_queue

none_kept : (qs : List String) → any is_otp (keep (λ q. not (is_otp q)) qs) ≡ false
none_kept [] = refl
none_kept (q ∷ qs) = elim (Bool-cases (is_otp q)) [
  | inl t ↦ rw t (none_kept qs)
  | inr t ↦ rw (t, t) (none_kept qs)
]

default-none : (qs : List String) → any is_otp qs ≡ false → any is_otp (or_default qs) ≡ false
default-none [] e = refl
default-none (q ∷ qs) e = e

default-some : (qs : List String) → or_default qs ≢ []
default-some [] e = absurd (cc)
default-some (q ∷ qs) e = absurd (cc)

only_otp : (qs : List String) → is_otp_only qs ≡ true → qs ≡ otp_queue ∷ []
only_otp [] e = absurd (cc)
only_otp (q ∷ []) e = let same = (eq_iff q otp_queue).0 e in ap (λ x. x ∷ []) same
only_otp (q ∷ r ∷ qs) e = absurd (cc)

-- Whatever the configuration, a worker serves some queue; it serves the queue of one-time codes exactly
-- if its plan is for these only, and then it serves no other.
pub queue_plan_isolates :
    (raw : Option String)
    → (any is_otp (worker_queue_plan raw).queues ≡ (worker_queue_plan raw).otp_only)
      × ((worker_queue_plan raw).otp_only ≡ true → (worker_queue_plan raw).queues ≡ otp_queue ∷ [])
      × ((worker_queue_plan raw).queues ≢ [])
unfolding worker_queue_plan
queue_plan_isolates raw = elim (Bool-cases (is_otp_only (or_default (requested raw)))) [
  | inl t ↦
      let alone = only_otp (or_default (requested raw)) t in
      rw alone (refl, λ e. refl, λ e. absurd (cc))
  | inr t ↦ rw t (
    default-none (keep (λ q. not (is_otp q)) (or_default (requested raw)))
        (none_kept (or_default (requested raw))),
    (λ e. absurd (cc)),
    default-some (keep (λ q. not (is_otp q)) (or_default (requested raw))),
  )
]
