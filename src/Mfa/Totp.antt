-- ===== src/Mfa/Totp.antt =====
-- The codes of the authenticator (src/auth/privileged-mfa.service.ts): `generateTotpCodeForStep`,
-- `matchTotpStep` and `currentTotpStep`.
pub mod Codes
pub mod Window
use Prim.Native.Nat.{◌/◌, ◌%◌, ◌^◌}
use Prim.Native.Char.{Char, code}
use fixzone_enterprise_api.Base.{
  ℕ, zero, suc, ◌+◌, ◌-◌, ◌*◌, String, Bool, true, false, ◌&&◌, not, Option, none, some, List, [],
  ◌∷◌, ◌==◌, leb, ltb, text_length, trim, str_eq, if◌then◌else◌, length,
}
use fixzone_enterprise_api.Base.Result.{Result, ok, err, internal, ◌>>=◌}
use fixzone_enterprise_api.Mfa.Base32.{char_at, base32_decode}
use fixzone_enterprise_api.Mfa.Vault.{MfaEnv}

-- A decimal digit before a text.
unfoldable pub write_digit : ℕ → String → String
unfolding char_at
write_digit d rest = elim (char_at d "0123456789") [ none ↦ rest | some c ↦ String.◌∷◌ c rest ]

-- `n.toString()` before a text; each round has a number less than the one before, so `n` is fuel
-- enough.
unfoldable pub write_number : ℕ → ℕ → String → String
unfolding write_digit
write_number zero n rest = write_digit (n % 10) rest
write_number (suc fuel) n rest =
    let digit = write_digit (n % 10) rest in
    let more = write_number fuel (n / 10) digit in if ltb n 10 then digit else more

unfoldable pub write_zeros : ℕ → String → String
unfolding write_digit
write_zeros zero s = s
write_zeros (suc n) s = write_digit 0 (write_zeros n s)

-- `n.toString().padStart(width, '0')`
unfoldable pub padded : ℕ → ℕ → String
unfolding write_number write_zeros
padded width n = let digits = write_number n n "" in write_zeros (width - text_length digits) digits

-- `bytes[i]`, where a bit operation takes `undefined` as 0.
unfoldable pub byte_at : ℕ → List ℕ → ℕ
byte_at i [] = 0
byte_at zero (b ∷ bytes) = b
byte_at (suc i) (b ∷ bytes) = byte_at i bytes

-- The number in four bytes of the digest, at the place that its last byte names. The bytes that are
-- joined have no bit in common, so they are added.
unfoldable pub truncated : List ℕ → ℕ
unfolding byte_at
truncated hmac =
    let offset = byte_at (length hmac - 1) hmac % 16 in
    byte_at offset hmac % 128 * 2 ^ 24
    + byte_at (offset + 1) hmac % 256 * 2 ^ 16
    + byte_at (offset + 2) hmac % 256 * 2 ^ 8
    + byte_at (offset + 3) hmac % 256

-- `generateTotpCodeForStep`
unfoldable pub generate_totp_code_for_step : MfaEnv → String → ℕ → Result String
unfolding padded truncated
generate_totp_code_for_step env secret counter = do
  key ← base32_decode env.upper secret
  ok (padded 6 (truncated (env.hmac_sha1 key counter) % 1000000))

abbrev pub is_digit : Char → Bool
is_digit c = leb 48 (code c) && leb (code c) 57

unfoldable pub all_digits : String → Bool
all_digits String.[] = true
all_digits (String.◌∷◌ c s) = is_digit c && all_digits s

-- `/^\d{6}$/.test(s)`
unfoldable pub is_code : String → Bool
unfolding all_digits
is_code s = text_length s == 6 && all_digits s

-- `timingSafeEqual` on two texts of characters of one byte; it throws where their lengths differ.
unfoldable pub timing_safe_equal : String → String → Result Bool
timing_safe_equal a b =
    if text_length a == text_length b
    then ok (str_eq a b)
    else err (internal "Input buffers must have the same byte length")

-- `currentTotpStep`
abbrev pub current_totp_step : MfaEnv → ℕ
current_totp_step env = env.now / 30000

-- The steps that the loop tries: no step is negative.
abbrev pub candidate_steps : ℕ → List ℕ
candidate_steps zero = 0 ∷ 1 ∷ []
candidate_steps (suc n) = n ∷ suc n ∷ suc (suc n) ∷ []

unfoldable pub first_match : MfaEnv → String → String → List ℕ → Result (Option ℕ)
unfolding generate_totp_code_for_step timing_safe_equal
first_match env secret normalized [] = ok none
first_match env secret normalized (step ∷ steps) = do
  candidate ← generate_totp_code_for_step env secret step
  same ← timing_safe_equal candidate normalized
  let rest = first_match env secret normalized steps
  if same then ok (some step) else rest

-- `matchTotpStep`
unfoldable pub match_totp_step : MfaEnv → String → String → Result (Option ℕ)
unfolding is_code first_match
match_totp_step env code secret =
    let normalized = trim code in
    if is_code normalized
    then first_match env secret normalized (candidate_steps (current_totp_step env))
    else ok none
