-- ===== src/Payments/WebhookEvents/Order.antt =====
-- The order of Stripe events is a strict total order.
use Prim.Native.Char.{code}
use text.Mathlib.TextEquality.{Char-path}
use oss_tips.Base.{
  ℕ, ltb, ◌==◌, String, str_eq, eq_iff, Bool, true, false, not, ◌&&◌, ◌||◌, some, List, [], ◌∷◌,
  text_codes, Bool-cases, inl, inr, ◌≡◌, refl, sym, ◌∙◌, ap, arith,
}
use oss_tips.Payments.WebhookEvents.{
  precedes, StripeEventOrder, or_zero, compare_stripe_event_order, is_stripe_event_newer,
}

text_codes-injective : (s t : String) → text_codes s ≡ text_codes t → s ≡ t
text_codes-injective String.[] String.[] e = refl
text_codes-injective String.[] (String.◌∷◌ c t) e = absurd (cc)
text_codes-injective (String.◌∷◌ c s) String.[] e = absurd (cc)
text_codes-injective (String.◌∷◌ c s) (String.◌∷◌ d t) e =
    let first : code c ≡ code d = cc in
    let rest : text_codes s ≡ text_codes t = cc in
    let one = Char-path c d first in
    let others = text_codes-injective s t rest in
    ap (λ x. String.◌∷◌ x s) one ∙ ap (λ x. String.◌∷◌ d x) others

precedes-irreflexive : (xs : List ℕ) → precedes xs xs ≡ false
unfolding precedes
precedes-irreflexive [] = refl
precedes-irreflexive (x ∷ xs) = let rest = precedes-irreflexive xs in ground arith

precedes-total : (xs ys : List ℕ) → precedes xs ys ≡ false → precedes ys xs ≡ false → xs ≡ ys
unfolding precedes
precedes-total [] [] e f = refl
precedes-total [] (y ∷ ys) e f = absurd (cc)
precedes-total (x ∷ xs) [] e f = absurd (cc)
precedes-total (x ∷ xs) (y ∷ ys) e f = ground (arith, precedes-total xs ys)

precedes-transitive :
    (xs ys zs : List ℕ) → precedes xs ys ≡ true → precedes ys zs ≡ true → precedes xs zs ≡ true
unfolding precedes
precedes-transitive xs ys [] e f = absurd (cc)
precedes-transitive xs [] (z ∷ zs) e f = absurd (cc)
precedes-transitive [] (y ∷ ys) (z ∷ zs) e f = refl
precedes-transitive (x ∷ xs) (y ∷ ys) (z ∷ zs) e f = ground (arith, precedes-transitive xs ys zs)

precedes-asymmetric : (xs ys : List ℕ) → precedes xs ys ≡ true → precedes ys xs ≡ false
precedes-asymmetric xs ys e = elim (Bool-cases (precedes ys xs)) [
  | inl t ↦ absurd (
      let loop = precedes-transitive xs ys xs e t in
      let none_before = precedes-irreflexive xs in cc)
  | inr t ↦ t
]

-- Ids that differ are in one of the two orders.
ids-ordered :
    (s t : String)
    → str_eq s t ≡ false
    → not (precedes (text_codes s) (text_codes t)) ≡ precedes (text_codes t) (text_codes s)
ids-ordered s t differ = elim (Bool-cases (precedes (text_codes s) (text_codes t))) [
  | inl e ↦ let f = precedes-asymmetric (text_codes s) (text_codes t) e in rw (e, f) refl
  | inr e ↦ elim (Bool-cases (precedes (text_codes t) (text_codes s))) [
    | inl f ↦ rw (e, f) refl
    | inr f ↦ absurd (
        let one = text_codes-injective s t (precedes-total (text_codes s) (text_codes t) e f) in
        let equal : str_eq s t ≡ true = (eq_iff s t).1 one in cc)
  ]
]

abbrev pub created : StripeEventOrder → ℕ
created a = or_zero a.created_at

newer_iff :
    (a b : StripeEventOrder)
    → is_stripe_event_newer a (some b) ≡ (
        ltb (created b) (created a)
        || (created a == created b && precedes (text_codes b.id) (text_codes a.id)))
unfolding is_stripe_event_newer compare_stripe_event_order
newer_iff a b = elim (Bool-cases (str_eq a.id b.id)) [
  | inl t ↦
      let one : a.id ≡ b.id = (eq_iff a.id b.id).0 t in
      let no = precedes-irreflexive (text_codes b.id) in rw (t, one, no) (ground arith)
  | inr t ↦ let other = ids-ordered a.id b.id t in rw (t, sym other) (ground arith)
]

abbrev pub newer : StripeEventOrder → StripeEventOrder → Bool
newer a b = is_stripe_event_newer a (some b)

newer-total :
    (a b : StripeEventOrder)
    → newer a b ≡ false
    → newer b a ≡ false
    → (created a ≡ created b) × (a.id ≡ b.id)
newer-total a b e f =
    let e' = rw (newer_iff a b) at e in
    let f' = rw (newer_iff b a) at f in
    let when : created a ≡ created b = ground arith in
    let no = precedes-total (text_codes a.id) (text_codes b.id) (ground arith) (ground arith) in
    (when, text_codes-injective a.id b.id no)

pub newer_irreflexive : (a : StripeEventOrder) → newer a a ≡ false
newer_irreflexive a =
    rw (newer_iff a a) (let no = precedes-irreflexive (text_codes a.id) in ground arith)

-- The order of Stripe's events is a strict total order on pairs of a time and an id: no event is newer
-- than itself, of two events one at most is newer, being newer is transitive, and two events of which
-- neither is newer have one time and one id.
pub newer_is_total :
    (a b c : StripeEventOrder)
    → (newer a a ≡ false)
      × (newer a b ≡ true → newer b a ≡ false)
      × (newer a b ≡ true → newer b c ≡ true → newer a c ≡ true)
      × (newer a b ≡ false → newer b a ≡ false → (created a ≡ created b) × (a.id ≡ b.id))
newer_is_total a b c = (
  newer_irreflexive a,
  λ e.
      let e' = rw (newer_iff a b) at e in
      let asym = precedes-asymmetric (text_codes b.id) (text_codes a.id) in
      rw (newer_iff b a) (ground (arith, asym)),
  λ e f.
      let e' = rw (newer_iff a b) at e in
      let f' = rw (newer_iff b c) at f in
      let through = precedes-transitive (text_codes c.id) (text_codes b.id) (text_codes a.id) in
      rw (newer_iff a c) (ground (arith, through)),
  newer-total a b,
)
