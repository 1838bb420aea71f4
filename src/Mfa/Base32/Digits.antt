-- ===== src/Mfa/Base32/Digits.antt =====
-- The digits and their characters.
use Prim.Native.Nat.{◌/◌, ◌%◌, ◌^◌}
use Prim.Native.Char.{Char, code}
use mathlib.Core.Bool.{false≢true}
use fixzone_enterprise_api.Base.{
  ℕ, zero, suc, ◌+◌, ◌-◌, ◌*◌, ◌<◌, String, ◌≡◌, refl, ap, ◌∙◌, Bool, true, false, ◌&&◌, not,
  Option, none, some, List, [], ◌∷◌, ◌==◌, ==_iff, leb, ltb, arith, inl, inr, Bool-cases, all_below,
  all_below_lem,
}
use fixzone_enterprise_api.Base.Result.{ok}
use fixzone_enterprise_api.Mfa.Base32.Shifts.{digit_bound}
use fixzone_enterprise_api.Mfa.Base32.Shifts.{digit_bound}
use fixzone_enterprise_api.Mfa.Base32.{
  base32_alphabet, char_at, index_of, write_digits, drain, encode_each, strip_padding, decode_each,
}

reads : Option ℕ → ℕ → Bool
reads none i = false
reads (some j) i = j == i

-- The test of one digit: its character is not the padding, and is found at the digit's place.
digit_test : Option Char → (Char → Option ℕ) → ℕ → Bool
unfolding reads
digit_test none place i = false
digit_test (some c) place i = reads (place c) i && not (code c == 61)

reads_lem : (o : Option ℕ) (i : ℕ) → reads o i ≡ true → o ≡ some i
unfolding reads
reads_lem none i h = absurd (false≢true h)
reads_lem (some j) i h = ap some ((==_iff j i).0 h)

abbrev pub Digit : Option Char → (Char → Option ℕ) → ℕ → Type 0
Digit o place i = (c : Char) × (o ≡ some c) × (place c ≡ some i) × ((code c == 61) ≡ false)

digit_test_lem :
    (o : Option Char) (place : Char → Option ℕ) (i : ℕ)
    → digit_test o place i ≡ true
    → Digit o place i
unfolding digit_test
digit_test_lem none place i h = absurd (false≢true h)
digit_test_lem (some c) place i h = (c, refl, reads_lem (place c) i (ground arith), ground arith)

abbrev pub place : Char → Option ℕ
place c = index_of c base32_alphabet

all_digits : all_below (λ i. digit_test (char_at i base32_alphabet) place i) 32 ≡ true
unfolding all_below digit_test char_at index_of reads
all_digits = refl

pub digit_lem : (i : ℕ) → i < 32 → Digit (char_at i base32_alphabet) place i
digit_lem i l =
    digit_test_lem (char_at i base32_alphabet) place i
      (all_below_lem (λ i. digit_test (char_at i base32_alphabet) place i) 32 i all_digits l)

-- A digit that is read and leaves no full byte.
pub read_short :
    (i bits value : ℕ) (digits : List ℕ) (rest : String) (bytes : List ℕ)
    → i < 32
    → leb 8 (bits + 5) ≡ false
    → decode_each (bits + 5) ((value * 32 + i) % 2 ^ 32) (write_digits digits rest) ≡ ok bytes
    → decode_each bits value (write_digits (i ∷ digits) rest) ≡ ok bytes
unfolding write_digits decode_each
read_short i bits value digits rest bytes l s h =
    let (c, at, found, other) = digit_lem i l in
    rw (at, write_digits)
      (rw (found, decode_each) (rw (s, decode_each) (rw (h, decode_each) (rw s refl))))

-- A digit that completes a byte.
pub read_full :
    (i bits value : ℕ) (digits : List ℕ) (rest : String) (bytes : List ℕ)
    → i < 32
    → leb 8 (bits + 5) ≡ true
    → decode_each (bits - 3) ((value * 32 + i) % 2 ^ 32) (write_digits digits rest) ≡ ok bytes
    → decode_each bits value (write_digits (i ∷ digits) rest)
      ≡ ok ((value * 32 + i) % 2 ^ 32 / 2 ^ (bits + 5 - 8) % 256 ∷ bytes)
unfolding write_digits decode_each
read_full i bits value digits rest bytes l s h =
    let (c, at, found, other) = digit_lem i l in
    rw (at, write_digits)
      (rw (found, decode_each) (rw (s, decode_each) (rw (h, decode_each) (rw s refl))))

-- All numbers are digits.
AreDigits : List ℕ → Type 0
AreDigits [] = Unit {0}
AreDigits (i ∷ digits) = (i < 32) × AreDigits digits

strip_padding-write_digits :
    (digits : List ℕ) (rest : String)
    → AreDigits digits
    → strip_padding (write_digits digits rest) ≡ write_digits digits (strip_padding rest)
unfolding write_digits strip_padding AreDigits
strip_padding-write_digits [] rest h = refl
strip_padding-write_digits (i ∷ digits) rest (l, h) =
    let (c, at, found, other) = digit_lem i l in
    rw (at, write_digits)
      (rw (other, strip_padding) (ap (String.◌∷◌ c) (strip_padding-write_digits digits rest h)))

drain-AreDigits : (fuel bits value : ℕ) → AreDigits (drain fuel bits value).0
unfolding drain AreDigits
drain-AreDigits zero bits value = tt
drain-AreDigits (suc fuel) bits value = elim (Bool-cases (leb 5 bits)) [
  | inl e ↦
      rw (e, drain) (digit_bound (value / 2 ^ (bits - 5)), drain-AreDigits fuel (bits - 5) value)
  | inr e ↦ rw (e, drain) tt
]

-- No text that is encoded ends in padding.
pub strip_padding-encode_each :
    (bytes : List ℕ) (bits value : ℕ)
    → strip_padding (encode_each bits value bytes) ≡ encode_each bits value bytes
unfolding encode_each strip_padding AreDigits
strip_padding-encode_each [] bits value = elim (Bool-cases (ltb 0 bits)) [
  | inl e ↦
      rw (e, encode_each)
        (strip_padding-write_digits (value * 2 ^ (5 - bits) % 2 ^ 32 % 32 ∷ []) ""
          (digit_bound (value * 2 ^ (5 - bits) % 2 ^ 32), tt))
  | inr e ↦ rw (e, encode_each) refl
]
strip_padding-encode_each (byte ∷ bytes) bits value =
    let value' = (value * 256 + byte) % 2 ^ 32 in
    let digits = (drain (bits + 8) (bits + 8) value').0 in
    let left = (drain (bits + 8) (bits + 8) value').1 in
    strip_padding-write_digits digits (encode_each left value' bytes)
      (drain-AreDigits (bits + 8) (bits + 8) value')
    ∙ ap (write_digits digits) (strip_padding-encode_each bytes left value')
