-- ===== src/Mfa/Totp/Codes.antt =====
-- A code has six digits, and a code is matched at a step of the window.
use Prim.Native.Nat.{◌/◌, ◌%◌}
use Prim.Native.Char.{Char}
use mathlib.Core.Bool.{false≢true}
use fixzone_enterprise_api.Base.{
  ℕ, zero, suc, ◌+◌, ◌-◌, ◌*◌, ◌≤◌, ◌<◌, String, ◌≡◌, refl, ap, ◌∙◌, Bool, true, false, Option,
  none, some, List, ltb, text_length, arith, inl, inr, Bool-cases, all_below, all_below_lem,
}
use fixzone_enterprise_api.Base.Result.{ok}
use fixzone_enterprise_api.Mfa.Vault.{MfaEnv}
use fixzone_enterprise_api.Mfa.Base32.{char_at, base32_decode}
use fixzone_enterprise_api.Mfa.Totp.{
  write_digit, write_number, write_zeros, padded, truncated, generate_totp_code_for_step,
  all_digits, is_digit, is_code,
}

abbrev Decimal : String → ℕ → Type 0
Decimal s n = (text_length s ≡ n) × (all_digits s ≡ true)

abbrev writes_digit : Option Char → Bool
writes_digit none = false
writes_digit (some c) = is_digit c

writes_digit_lem :
    (o : Option Char) → writes_digit o ≡ true → (c : Char) × (o ≡ some c) × (is_digit c ≡ true)
writes_digit_lem none h = absurd (false≢true h)
writes_digit_lem (some c) h = (c, refl, h)

all_ten : all_below (λ d. writes_digit (char_at d "0123456789")) 10 ≡ true
unfolding all_below char_at
all_ten = refl

-- A digit is one character more, and again a decimal.
write_digit-Decimal :
    (d n : ℕ) (rest : String) → d < 10 → Decimal rest n → Decimal (write_digit d rest) (suc n)
unfolding write_digit text_length all_digits
write_digit-Decimal d n rest l (e, a) =
    let test = all_below_lem (λ d. writes_digit (char_at d "0123456789")) 10 d all_ten l in
    let (c, at, digit) = writes_digit_lem (char_at d "0123456789") test in
    rw (at, write_digit) (ap suc e, ground (arith, digit, a))

-- `ten_to k` is 10 ^ k.
ten_to : ℕ → ℕ
ten_to zero = 1
ten_to (suc k) = ten_to k * 10

small_number : (n : ℕ) → n < ten_to 1 → ltb n 10 ≡ true
unfolding ten_to
small_number n l = ground arith

million : (n : ℕ) → n < 1000000 → n < ten_to 6
unfolding ten_to
million n l = l

-- A number below 10 ^ (k + 1) has at most k + 1 digits.
write_number-Decimal :
    (fuel n k m : ℕ) (rest : String)
    → n < ten_to (suc k)
    → Decimal rest m
    → (j : ℕ) × (j ≤ suc k + m) × Decimal (write_number fuel n rest) j
unfolding write_number ten_to
write_number-Decimal zero n k m rest l d =
    (suc m, omega arith, write_digit-Decimal (n % 10) m rest (omega arith) d)
write_number-Decimal (suc fuel) n zero m rest l d =
    rw (small_number n l) (suc m, omega arith, write_digit-Decimal (n % 10) m rest (omega arith) d)
write_number-Decimal (suc fuel) n (suc k) m rest l d =
    let first = write_digit-Decimal (n % 10) m rest (omega arith) d in
    elim (Bool-cases (ltb n 10)) [
      | inl e ↦ rw (e, write_number) (suc m, omega arith, first)
      | inr e ↦
          let (j, b, more) =
            write_number-Decimal fuel (n / 10) k (suc m) (write_digit (n % 10) rest)
              (omega (arith, l)) first in
          rw (e, write_number) (j, omega (arith, b), more)
    ]

write_zeros-Decimal : (n m : ℕ) (s : String) → Decimal s m → Decimal (write_zeros n s) (n + m)
unfolding write_zeros
write_zeros-Decimal zero m s d = (d.0 ∙ omega arith, d.1)
write_zeros-Decimal (suc n) m s d =
    let (e, a) =
      write_digit-Decimal 0 (n + m) (write_zeros n s) (omega arith) (write_zeros-Decimal n m s d) in
    (e ∙ omega arith, a)

empty-Decimal : Decimal "" 0
unfolding text_length all_digits
empty-Decimal = (refl, refl)

padded-Decimal : (n : ℕ) → n < 1000000 → Decimal (padded 6 n) 6
unfolding padded
padded-Decimal n l =
    let (j, b, d) = write_number-Decimal n n 5 0 "" (million n l) empty-Decimal in
    let s = write_number n n "" in
    let (e, a) = write_zeros-Decimal (6 - text_length s) j s d in (e ∙ omega (arith, b, d.0), a)

-- Where the secret is a text that base32 decodes, the code of every step has six digits.
pub generate_totp_code_for_step_length :
    (env : MfaEnv) (secret : String) (key : List ℕ) (step : ℕ)
    → base32_decode env.upper secret ≡ ok key
    → (c : String) × (generate_totp_code_for_step env secret step ≡ ok c) × (is_code c ≡ true)
unfolding generate_totp_code_for_step is_code
generate_totp_code_for_step_length env secret key step h =
    let n = truncated (env.hmac_sha1 key step) % 1000000 in
    let (e, a) = padded-Decimal n (omega arith) in (padded 6 n, rw h refl, rw (e, a) refl)
