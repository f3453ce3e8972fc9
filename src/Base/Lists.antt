-- ===== src/Base/Lists.antt =====
-- Lists measured by the native numbers, and predicates on their elements.
use Prim.Native.Nat.{ℕ, suc, ◌+◌}
use mathlib.Core.Path.{◌≡◌, refl}
use mathlib.Core.Bool.{Bool, true, false, ◌||◌}
use mathlib.Core.Option.{Option, none, some}
use mathlib.Core.List.{List, [], ◌∷◌, ◌++◌, Memᴰ}
use mathlib.Core.Logic.{inl, inr}
use native.Mathlib.Omega.{arith}
use oss_tips.Base.Tests.{if◌then◌else◌, Bool-cases}

module _ {ℓ} {A : Type ℓ} where
  abbrev pub length : List A → ℕ
  length [] = 0
  length (x ∷ xs) = suc (length xs)

  -- `Array.prototype.filter`, with a Boolean test
  abbrev pub keep : (A → Bool) → List A → List A
  keep p [] = []
  keep p (x ∷ xs) = if p x then x ∷ keep p xs else keep p xs

  -- `Array.prototype.some`
  abbrev pub any : (A → Bool) → List A → Bool
  any p [] = false
  any p (x ∷ xs) = p x || any p xs

  -- `Array.prototype.find`
  abbrev pub find : (A → Bool) → List A → Option A
  find p [] = none
  find p (x ∷ xs) = if p x then some x else find p xs

  pub length-append : (xs ys : List A) → length (xs ++ ys) ≡ length xs + length ys
  length-append [] ys = omega arith
  length-append (x ∷ xs) ys = omega (arith, length-append xs ys)

abbrev pub All {ℓ κ} : {A : Type ℓ} → (A → Type κ) → List A → Type κ
All P [] = Unit
All P (x ∷ xs) = P x × All P xs

pub All-append {ℓ κ} :
    {A : Type ℓ} (P : A → Type κ) (xs ys : List A) → All P xs → All P ys → All P (xs ++ ys)
All-append P [] ys h k = k
All-append P (x ∷ xs) ys h k = (h.0, All-append P xs ys h.1 k)

-- A test that holds of some kept element, and the element.
module _ {ℓ} {A : Type ℓ} (p q : A → Bool) where
  pub any-keep_sound :
      (xs : List A) → any p (keep q xs) ≡ true → (x : A) × Memᴰ x xs × (q x ≡ true) × (p x ≡ true)
  any-keep_sound [] h = absurd (cc)
  any-keep_sound (x ∷ xs) h = elim (Bool-cases (q x)) [
    | inl kept ↦ elim (Bool-cases (p x)) [
      | inl found ↦ (x, Memᴰ.head refl, kept, found)
      | inr other ↦
          let (y, m, ky, py) = any-keep_sound xs (rw (kept, other) at h) in (y, Memᴰ.tail m, ky, py)
    ]
    | inr dropped ↦
        let (y, m, ky, py) = any-keep_sound xs (rw dropped at h) in (y, Memᴰ.tail m, ky, py)
  ]

  pub any-keep_complete :
      {x : A} (xs : List A) → Memᴰ x xs → q x ≡ true → p x ≡ true → any p (keep q xs) ≡ true
  any-keep_complete [] m kx px = elim m [ ]
  any-keep_complete (x ∷ xs) (Memᴰ.head e) kx px = ground arith
  any-keep_complete (x ∷ xs) (Memᴰ.tail m) kx px = ground (arith, any-keep_complete xs m kx px)

module _ {ℓ} {A : Type ℓ} (p : A → Bool) where
  pub any_sound : (xs : List A) → any p xs ≡ true → (x : A) × Memᴰ x xs × (p x ≡ true)
  any_sound [] h = absurd (cc)
  any_sound (x ∷ xs) h = elim (Bool-cases (p x)) [
    | inl found ↦ (x, Memᴰ.head refl, found)
    | inr other ↦ let (y, m, py) = any_sound xs (rw other at h) in (y, Memᴰ.tail m, py)
  ]

  pub any_complete : {x : A} (xs : List A) → Memᴰ x xs → p x ≡ true → any p xs ≡ true
  any_complete [] m px = elim m [ ]
  any_complete (x ∷ xs) (Memᴰ.head e) px = ground arith
  any_complete (x ∷ xs) (Memᴰ.tail m) px = ground (arith, any_complete xs m px)
