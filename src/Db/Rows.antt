-- ===== src/Db/Rows.antt =====
-- The statements of PostgreSQL that the repositories use, on a table as the list of its rows. A
-- transaction runs alone; `key` is the primary key.
use oss_tips.Base.{
  String, str_eq, eq_iff, Bool, true, false, Option, none, some, List, [], ◌∷◌, ◌++◌, map, keep,
  any, if◌then◌else◌, Memᴰ, ◌≡◌, refl, sym, ◌∙◌, ap, arith, ◌⊎◌, inl, inr, Bool-cases,
}

module _ {ℓ} {A : Type ℓ} where
  -- `update … set … where`
  abbrev pub update_where : (A → Bool) → (A → A) → List A → List A
  update_where p f [] = []
  update_where p f (a ∷ rows) = (if p a then f a else a) ∷ update_where p f rows

  -- `returning`: the rows that an update changed, as it leaves them.
  abbrev pub returning : (A → Bool) → (A → A) → List A → List A
  returning p f rows = map f (keep p rows)

  -- `executeTakeFirst`
  abbrev pub take_first : List A → Option A
  take_first [] = none
  take_first (a ∷ rows) = some a

  -- A row of an updated table comes from a row of the table.
  pub mem-update :
      (p : A → Bool) (f : A → A) (rows : List A) (b : A)
      → Memᴰ b (update_where p f rows)
      → (a : A) × Memᴰ a rows × (b ≡ (if p a then f a else a))
  mem-update p f [] b m = elim m [ ]
  mem-update p f (a ∷ rows) b (Memᴰ.head e) = (a, Memᴰ.head refl, e)
  mem-update p f (a ∷ rows) b (Memᴰ.tail m) =
      let (c, n, e) = mem-update p f rows b m in (c, Memᴰ.tail n, e)

  pub update-mem :
      (p : A → Bool) (f : A → A) (rows : List A) (a : A)
      → Memᴰ a rows
      → Memᴰ (if p a then f a else a) (update_where p f rows)
  update-mem p f [] a m = elim m [ ]
  update-mem p f (b ∷ rows) a (Memᴰ.head e) = Memᴰ.head (ap (λ x. if p x then f x else x) e)
  update-mem p f (b ∷ rows) a (Memᴰ.tail m) = Memᴰ.tail (update-mem p f rows a m)

  -- An update leaves a row that does not pass.
  pub update-keeps :
      (p : A → Bool) (f : A → A) (rows : List A) (a : A)
      → p a ≡ false
      → Memᴰ a rows
      → Memᴰ a (update_where p f rows)
  update-keeps p f rows a e m = rw e at (update-mem p f rows a m)

  pub mem-append_one : (rows : List A) (a b : A) → Memᴰ b (rows ++ a ∷ []) → Memᴰ b rows ⊎ (b ≡ a)
  mem-append_one [] a b (Memᴰ.head e) = inr e
  mem-append_one [] a b (Memᴰ.tail m) = elim m [ ]
  mem-append_one (c ∷ rows) a b (Memᴰ.head e) = inl (Memᴰ.head e)
  mem-append_one (c ∷ rows) a b (Memᴰ.tail m) = elim (mem-append_one rows a b m) [
    | inl n ↦ inl (Memᴰ.tail n)
    | inr e ↦ inr e
  ]

  pub append_one-mem : (rows : List A) (a b : A) → Memᴰ b rows → Memᴰ b (rows ++ a ∷ [])
  append_one-mem [] a b m = elim m [ ]
  append_one-mem (c ∷ rows) a b (Memᴰ.head e) = Memᴰ.head e
  append_one-mem (c ∷ rows) a b (Memᴰ.tail m) = Memᴰ.tail (append_one-mem rows a b m)

  -- A row that is returned by an update.
  pub returned-mem :
      (p : A → Bool) (f : A → A) (rows : List A) (b : A)
      → take_first (returning p f rows) ≡ some b
      → (a : A) × Memᴰ a rows × (p a ≡ true) × (b ≡ f a)
  returned-mem p f [] b e = absurd (cc)
  returned-mem p f (a ∷ rows) b e = elim (Bool-cases (p a)) [
    | inl yes_kept ↦ (a, Memᴰ.head refl, yes_kept, let e' = rw yes_kept at e in cc)
    | inr dropped ↦
        let (c, m, k, q) = returned-mem p f rows b (rw dropped at e) in (c, Memᴰ.tail m, k, q)
  ]

  pub some_returned :
      (p : A → Bool) (f : A → A) (rows : List A) (a : A)
      → Memᴰ a rows
      → p a ≡ true
      → (b : A) × (take_first (returning p f rows) ≡ some b)
  some_returned p f [] a m t = elim m [ ]
  some_returned p f (c ∷ rows) a m t = elim (Bool-cases (p c)) [
    | inl kept ↦ (f c, rw kept refl)
    | inr dropped ↦ elim m [
      | Memᴰ.head e ↦ absurd (let t' = rw e at t in cc)
      | Memᴰ.tail n ↦ let (b, e) = some_returned p f rows a n t in (b, rw dropped e)
    ]
  ]

module _ {ℓ} {A : Type ℓ} (key : A → String) where
  abbrev pub has_key : String → List A → Bool
  has_key k rows = any (λ a. str_eq (key a) k) rows

  -- Rows with one key are one row.
  abbrev pub IsKeyed : List A → Type ℓ
  IsKeyed rows = (a b : A) → Memᴰ a rows → Memᴰ b rows → key a ≡ key b → a ≡ b

  pub mem-has_key : (rows : List A) (a : A) → Memᴰ a rows → has_key (key a) rows ≡ true
  mem-has_key [] a m = elim m [ ]
  mem-has_key (b ∷ rows) a (Memᴰ.head e) =
      let k : key b ≡ key a = ap key (sym e) in ground (arith, eq_iff (key b) (key a))
  mem-has_key (b ∷ rows) a (Memᴰ.tail m) = ground (arith, mem-has_key rows a m)

  pub update-IsKeyed :
      (p : A → Bool) (f : A → A) (rows : List A)
      → ((a : A) → key (f a) ≡ key a)
      → IsKeyed rows
      → IsKeyed (update_where p f rows)
  update-IsKeyed p f rows same keyed b c mb mc e =
      let (a, ma, ea) = mem-update p f rows b mb in
      let (d, md, ed) = mem-update p f rows c mc in
      let one : a ≡ d =
        keyed a d ma md (sym (key_if a) ∙ sym (ap key ea) ∙ e ∙ ap key ed ∙ key_if d) in
      ea ∙ ap (λ x. if p x then f x else x) one ∙ sym ed
    where
      key_if : (a : A) → key (if p a then f a else a) ≡ key a
      key_if a = elim (Bool-cases (p a)) [ inl t ↦ rw t (same a) | inr t ↦ rw t refl ]

  pub append_one-IsKeyed :
      (rows : List A) (a : A)
      → has_key (key a) rows ≡ false
      → IsKeyed rows
      → IsKeyed (rows ++ a ∷ [])
  append_one-IsKeyed rows a new keyed b c mb mc e = elim (mem-append_one rows a b mb) [
    | inl m ↦ elim (mem-append_one rows a c mc) [
      | inl n ↦ keyed b c m n e
      | inr q ↦ absurd (clash b m (e ∙ ap key q))
    ]
    | inr p ↦ elim (mem-append_one rows a c mc) [
      | inl n ↦ absurd (clash c n (sym e ∙ ap key p))
      | inr q ↦ p ∙ sym q
    ]
  ]
    where
      clash : (b : A) → Memᴰ b rows → key b ≡ key a → ⊥
      clash b m e = let there : has_key (key a) rows ≡ true = rw e at (mem-has_key rows b m) in cc

  pub has_key-update :
      (p : A → Bool) (f : A → A) (k : String) (rows : List A)
      → ((a : A) → key (f a) ≡ key a)
      → has_key k (update_where p f rows) ≡ has_key k rows
  has_key-update p f k [] same = refl
  has_key-update p f k (a ∷ rows) same = elim (Bool-cases (p a)) [
    | inl t ↦ rw (t, same a, has_key-update p f k rows same) refl
    | inr t ↦ rw (t, has_key-update p f k rows same) refl
  ]

  pub has_key-append_one :
      (k : String) (rows : List A) (a : A)
      → has_key k (rows ++ a ∷ []) ≡ false
      → has_key k rows ≡ false
  has_key-append_one k [] a e = refl
  has_key-append_one k (b ∷ rows) a e = ground (arith, has_key-append_one k rows a)

  pub append_one-has_key :
      (k : String) (rows : List A) (a : A)
      → has_key k rows ≡ true
      → has_key k (rows ++ a ∷ []) ≡ true
  append_one-has_key k [] a e = absurd (cc)
  append_one-has_key k (b ∷ rows) a e = ground (arith, append_one-has_key k rows a)

  pub append_one-itself : (rows : List A) (a : A) → has_key (key a) (rows ++ a ∷ []) ≡ true
  append_one-itself [] a = let itself = (eq_iff (key a) (key a)).1 refl in rw itself refl
  append_one-itself (b ∷ rows) a = ground (arith, append_one-itself rows a)
