-- ===== src/Ledger/Ids.antt =====
-- packages/ledger/src/ids.ts: 128-bit ids derived by SHA-256. `node:crypto` is no code of the
-- repository: its digest is the parameter `sha256`, from a text to the digest's bytes.
use Prim.Native.Char.{Char}
use Prim.Native.String
use native.Mathlib.Nat.{pow-suc, pow-zero}
use oss_tips.Base.{
  ℕ, zero, suc, ◌+◌, ◌-◌, ◌*◌, ◌/◌, ◌%◌, ◌^◌, ◌<◌, ◌==◌, ltb, if◌then◌else◌, String, List, [], ◌∷◌,
  ◌≡◌, refl, arith, All, to_lower,
}

abbrev pub max_u128 : ℕ
max_u128 = 2 ^ 128 - 1

-- `parts.join(separator)`
abbrev pub join : String → List String → String
join sep [] = ""
join sep (s ∷ []) = s
join sep (s ∷ t ∷ rest) = String.◌++◌ s (String.◌++◌ sep (join sep (t ∷ rest)))

abbrev digit : ℕ → Char
digit n =
    if n == 0
    then "0"
    else if n == 1
    then "1"
    else if n == 2
    then "2"
    else if n == 3
    then "3"
    else if n == 4
    then "4"
    else if n == 5
    then "5"
    else if n == 6
    then "6"
    else if n == 7
    then "7"
    else if n == 8
    then "8"
    else "9"

-- `String(n)` of a natural number, on fuel: each round takes a digit, so `suc n` rounds are enough.
decimal_from : ℕ → ℕ → String → String
decimal_from zero n out = out
decimal_from (suc fuel) n out =
    let out' = String.◌∷◌ (digit (n % 10)) out in
    let rest = decimal_from fuel (n / 10) out' in if ltb n 10 then out' else rest

unfoldable pub decimal : ℕ → String
unfolding decimal_from
decimal n = decimal_from (suc n) n ""

-- The loop over the first bytes: `(id << 8n) | BigInt(digest[i])`, for a byte a sum.
bytes_value : ℕ → List ℕ → ℕ → ℕ
bytes_value zero digest id = id
bytes_value (suc n) [] id = bytes_value n [] (id * 256)
bytes_value (suc n) (b ∷ digest) id = bytes_value n digest (id * 256 + b)

bytes_value-lt :
    (n : ℕ) (digest : List ℕ) (id m : ℕ)
    → All (λ b. b < 256) digest
    → id < m
    → bytes_value n digest id < m * 256 ^ n
unfolding bytes_value
bytes_value-lt zero digest id m bytes h = rw (pow-zero 256) (omega arith)
bytes_value-lt (suc n) [] id m bytes h =
    rw (pow-suc 256 n) (omega (arith, bytes_value-lt n [] (id * 256) (m * 256) tt (omega arith)))
bytes_value-lt (suc n) (b ∷ digest) id m bytes h =
    rw (pow-suc 256 n)
      (omega (arith, bytes_value-lt n digest (id * 256 + b) (m * 256) bytes.1 (omega arith)))

module _ (sha256 : String → List ℕ) where
  unfoldable pub derive_ledger_id : String → List String → ℕ
  unfolding bytes_value
  derive_ledger_id namespace parts =
      let id = bytes_value 16 (sha256 (join "/" (namespace ∷ parts))) 0 in
      if id == 0 then 1 else if id == max_u128 then max_u128 - 1 else id

  unfoldable pub transfer_id : String → String → String → ℕ → ℕ → ℕ
  transfer_id stripe_account_id stripe_event_id posting_kind posting_version transfer_index =
      derive_ledger_id "oss.tips/v1/transfer" (
        stripe_account_id
        ∷ stripe_event_id
        ∷ posting_kind
        ∷ decimal posting_version
        ∷ decimal transfer_index
        ∷ [])

  unfoldable pub account_id : ℕ → String → String → String → ℕ
  account_id account_code scope_kind scope_id currency =
      derive_ledger_id "oss.tips/v1/account"
        (decimal account_code ∷ scope_kind ∷ scope_id ∷ to_lower currency ∷ [])

  -- With a digest of bytes, every derived id is one that TigerBeetle accepts: neither zero nor the
  -- greatest 128-bit number, nor above it.
  pub derive_ledger_id_range :
      (namespace : String) (parts : List String)
      → ((s : String) → All (λ b. b < 256) (sha256 s))
      → (0 < derive_ledger_id namespace parts) × (derive_ledger_id namespace parts < max_u128)
  unfolding derive_ledger_id
  derive_ledger_id_range namespace parts bytes =
      let input = join "/" (namespace ∷ parts) in
      let lt = bytes_value-lt 16 (sha256 input) 0 1 (bytes input) (omega arith) in ground arith

decimal_1040 : decimal 1040 ≡ "1040"
unfolding decimal
decimal_1040 = refl
