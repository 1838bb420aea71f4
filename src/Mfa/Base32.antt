-- ===== src/Mfa/Base32.antt =====
-- `base32Encode` and `base32Decode` (src/auth/privileged-mfa.service.ts). A 32-bit number of the
-- source is its remainder by 2 ^ 32; the shift to the right there takes it without a sign, too.
mod Shifts
mod Digits
pub mod RoundTrip
pub mod Ends
use Prim.Native.Nat.{◌/◌, ◌%◌, ◌^◌}
use Prim.Native.Char.{Char, code}
use fixzone_enterprise_api.Base.{
  ℕ, zero, suc, ◌+◌, ◌-◌, ◌*◌, String, Bool, true, false, ◌&&◌, Option, none, some, List, [], ◌∷◌,
  ◌==◌, leb, ltb, is_empty, str_append, if◌then◌else◌,
}
use fixzone_enterprise_api.Base.Result.{Result, ok, err, internal}

abbrev pub base32_alphabet : String
base32_alphabet = "ABCDEFGHIJKLMNOPQRSTUVWXYZ234567"

-- `text[i]`, and `none` for `undefined`.
unfoldable pub char_at : ℕ → String → Option Char
char_at i String.[] = none
char_at zero (String.◌∷◌ c s) = some c
char_at (suc i) (String.◌∷◌ c s) = char_at i s

-- `text.indexOf(char)`, and `none` for -1.
unfoldable pub index_of : Char → String → Option ℕ
index_of c String.[] = none
index_of c (String.◌∷◌ d s) =
    let later = index_of c s in
    if code c == code d then some 0 else elim later [ none ↦ none | some i ↦ some (i + 1) ]

-- The characters of digits, before the rest of a text.
unfoldable pub write_digits : List ℕ → String → String
unfolding char_at
write_digits [] rest = rest
write_digits (i ∷ digits) rest =
    let later = write_digits digits rest in
    elim (char_at i base32_alphabet) [
      | none ↦ str_append "undefined" later
      | some c ↦ String.◌∷◌ c later
    ]

-- The inner loop: the digits that `bits` bits of the value give, and how many bits are left.
unfoldable pub drain : ℕ → ℕ → ℕ → List ℕ × ℕ
drain zero bits value = ([], bits)
drain (suc fuel) bits value =
    let (digits, left) = drain fuel (bits - 5) value in
    if leb 5 bits then (value / 2 ^ (bits - 5) % 32 ∷ digits, left) else ([], bits)

-- The loop over the bytes. The inner loop takes 5 bits a round, so `bits` is fuel enough for it.
unfoldable pub encode_each : ℕ → ℕ → List ℕ → String
unfolding write_digits drain
encode_each bits value [] =
    if ltb 0 bits then write_digits (value * 2 ^ (5 - bits) % 2 ^ 32 % 32 ∷ []) "" else ""
encode_each bits value (byte ∷ bytes) =
    let value' = (value * 256 + byte) % 2 ^ 32 in
    let (digits, left) = drain (bits + 8) (bits + 8) value' in
    write_digits digits (encode_each left value' bytes)

-- `base32Encode`
unfoldable pub base32_encode : List ℕ → String
unfolding encode_each
base32_encode bytes = encode_each 0 0 bytes

-- `replace(/=+$/g, '')`
unfoldable pub strip_padding : String → String
strip_padding String.[] = ""
strip_padding (String.◌∷◌ c s) =
    let rest = strip_padding s in if code c == 61 && is_empty rest then "" else String.◌∷◌ c rest

-- The loop over the characters.
unfoldable pub decode_each : ℕ → ℕ → String → Result (List ℕ)
unfolding index_of
decode_each bits value String.[] = ok []
decode_each bits value (String.◌∷◌ c s) = elim (index_of c base32_alphabet) [
  | none ↦ err (internal "Invalid TOTP secret")
  | some index ↦
      let value' = (value * 32 + index) % 2 ^ 32 in
      let is_full = leb 8 (bits + 5) in
      let rest = decode_each (if is_full then bits - 3 else bits + 5) value' s in
      elim rest [
        | err e ↦ err e
        | ok bytes ↦ ok (if is_full then value' / 2 ^ (bits + 5 - 8) % 256 ∷ bytes else bytes)
      ]
]

-- `base32Decode`; `upper` is `String.prototype.toUpperCase`.
unfoldable pub base32_decode : (String → String) → String → Result (List ℕ)
unfolding strip_padding decode_each
base32_decode upper input = decode_each 0 0 (upper (strip_padding input))
