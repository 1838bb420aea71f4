-- ===== src/Mfa/Base32/RoundTrip.antt =====
-- What is encoded is decoded to the same bytes.
use Prim.Native.Nat.{◌/◌, ◌%◌, ◌^◌}
use fixzone_enterprise_api.Base.{ℕ, ◌+◌, ◌-◌, ◌*◌, ◌<◌, String, ◌≡◌, refl, ap, ◌∙◌, List, [], ◌∷◌}
use fixzone_enterprise_api.Base.Result.{ok}
use fixzone_enterprise_api.Mfa.Base32.Shifts.{
  digit_bound, last_1, last_2, last_3, last_4, first_1, first_2, first_3, first_4, next_0, next_1,
  next_2, next_3, next_4,
}
use fixzone_enterprise_api.Mfa.Base32.Digits.{read_short, read_full, strip_padding-encode_each}
use fixzone_enterprise_api.Mfa.Base32.{
  drain, encode_each, base32_encode, decode_each, base32_decode,
}

-- Every number is a byte.
abbrev pub AreBytes : List ℕ → Type 0
AreBytes [] = Unit {0}
AreBytes (b ∷ bytes) = (b < 256) × AreBytes bytes

-- What the decoder reads, where `be` bits of the encoder's value `v` and the other bits of the same
-- byte, in the decoder's value `d`, are not yet written.
abbrev Reads : ℕ → List ℕ → Type 0
Reads be bytes =
    (v d : ℕ)
    → decode_each (8 - be) d (encode_each be v bytes)
      ≡ ok ((d % 2 ^ (8 - be) * 2 ^ be + v % 2 ^ be) ∷ bytes)

abbrev ReadsAll : List ℕ → Type 0
ReadsAll bytes =
    ((v d : ℕ) → decode_each 0 d (encode_each 0 v bytes) ≡ ok bytes)
    × Reads 1 bytes
    × Reads 2 bytes
    × Reads 3 bytes
    × Reads 4 bytes

reads_last : ReadsAll []
unfolding decode_each encode_each
reads_last = (
  λ v d. refl,
  λ v d.
      read_full (v * 2 ^ (5 - 1) % 2 ^ 32 % 32) 7 d [] "" []
        (digit_bound (v * 2 ^ (5 - 1) % 2 ^ 32)) refl refl
      ∙ ap (λ b. ok (b ∷ [])) (last_1 v d),
  λ v d.
      read_full (v * 2 ^ (5 - 2) % 2 ^ 32 % 32) 6 d [] "" []
        (digit_bound (v * 2 ^ (5 - 2) % 2 ^ 32)) refl refl
      ∙ ap (λ b. ok (b ∷ [])) (last_2 v d),
  λ v d.
      read_full (v * 2 ^ (5 - 3) % 2 ^ 32 % 32) 5 d [] "" []
        (digit_bound (v * 2 ^ (5 - 3) % 2 ^ 32)) refl refl
      ∙ ap (λ b. ok (b ∷ [])) (last_3 v d),
  λ v d.
      read_full (v * 2 ^ (5 - 4) % 2 ^ 32 % 32) 4 d [] "" []
        (digit_bound (v * 2 ^ (5 - 4) % 2 ^ 32)) refl refl
      ∙ ap (λ b. ok (b ∷ [])) (last_4 v d),
)

reads_0 :
    (b : ℕ) (bytes : List ℕ)
    → b < 256
    → ReadsAll bytes
    → (v d : ℕ) → decode_each 0 d (encode_each 0 v (b ∷ bytes)) ≡ ok (b ∷ bytes)
unfolding encode_each drain
reads_0 b bytes l (r0, r1, r2, r3, r4) v d =
    let v' = (v * 256 + b) % 2 ^ 32 in
    let i0 = v' / 2 ^ (8 - 5) % 32 in
    let l0 = digit_bound (v' / 2 ^ (8 - 5)) in
    let d0 = (d * 32 + i0) % 2 ^ 32 in
    let tail = (r3 v' d0 ∙ ap (λ x. ok (x ∷ bytes)) (next_0 v d b l)) in
    let read0 = read_short i0 0 d [] (encode_each 3 v' bytes) (b ∷ bytes) l0 refl tail in read0

reads_1 :
    (b : ℕ) (bytes : List ℕ)
    → b < 256
    → ReadsAll bytes
    → (v d : ℕ)
    → decode_each 7 d (encode_each 1 v (b ∷ bytes))
      ≡ ok ((d % 2 ^ (8 - 1) * 2 ^ 1 + v % 2 ^ 1) ∷ b ∷ bytes)
unfolding encode_each drain
reads_1 b bytes l (r0, r1, r2, r3, r4) v d =
    let v' = (v * 256 + b) % 2 ^ 32 in
    let i0 = v' / 2 ^ (9 - 5) % 32 in
    let l0 = digit_bound (v' / 2 ^ (9 - 5)) in
    let d0 = (d * 32 + i0) % 2 ^ 32 in
    let tail = (r4 v' d0 ∙ ap (λ x. ok (x ∷ bytes)) (next_1 v d b l)) in
    let read0 =
      (read_full i0 7 d [] (encode_each 4 v' bytes) (b ∷ bytes) l0 refl tail
        ∙ ap (λ x. ok (x ∷ b ∷ bytes)) (first_1 v d b l)) in
    read0

reads_2 :
    (b : ℕ) (bytes : List ℕ)
    → b < 256
    → ReadsAll bytes
    → (v d : ℕ)
    → decode_each 6 d (encode_each 2 v (b ∷ bytes))
      ≡ ok ((d % 2 ^ (8 - 2) * 2 ^ 2 + v % 2 ^ 2) ∷ b ∷ bytes)
unfolding encode_each drain
reads_2 b bytes l (r0, r1, r2, r3, r4) v d =
    let v' = (v * 256 + b) % 2 ^ 32 in
    let i0 = v' / 2 ^ (10 - 5) % 32 in
    let l0 = digit_bound (v' / 2 ^ (10 - 5)) in
    let i1 = v' / 2 ^ (5 - 5) % 32 in
    let l1 = digit_bound (v' / 2 ^ (5 - 5)) in
    let d0 = (d * 32 + i0) % 2 ^ 32 in
    let d1 = (d0 * 32 + i1) % 2 ^ 32 in
    let tail = r0 v' d1 in
    let read1 =
      (read_full i1 3 d0 [] (encode_each 0 v' bytes) bytes l1 refl tail
        ∙ ap (λ x. ok (x ∷ bytes)) (next_2 v d b l)) in
    let read0 =
      (read_full i0 6 d (i1 ∷ []) (encode_each 0 v' bytes) (b ∷ bytes) l0 refl read1
        ∙ ap (λ x. ok (x ∷ b ∷ bytes)) (first_2 v d b l)) in
    read0

reads_3 :
    (b : ℕ) (bytes : List ℕ)
    → b < 256
    → ReadsAll bytes
    → (v d : ℕ)
    → decode_each 5 d (encode_each 3 v (b ∷ bytes))
      ≡ ok ((d % 2 ^ (8 - 3) * 2 ^ 3 + v % 2 ^ 3) ∷ b ∷ bytes)
unfolding encode_each drain
reads_3 b bytes l (r0, r1, r2, r3, r4) v d =
    let v' = (v * 256 + b) % 2 ^ 32 in
    let i0 = v' / 2 ^ (11 - 5) % 32 in
    let l0 = digit_bound (v' / 2 ^ (11 - 5)) in
    let i1 = v' / 2 ^ (6 - 5) % 32 in
    let l1 = digit_bound (v' / 2 ^ (6 - 5)) in
    let d0 = (d * 32 + i0) % 2 ^ 32 in
    let d1 = (d0 * 32 + i1) % 2 ^ 32 in
    let tail = (r1 v' d1 ∙ ap (λ x. ok (x ∷ bytes)) (next_3 v d b l)) in
    let read1 = read_short i1 2 d0 [] (encode_each 1 v' bytes) (b ∷ bytes) l1 refl tail in
    let read0 =
      (read_full i0 5 d (i1 ∷ []) (encode_each 1 v' bytes) (b ∷ bytes) l0 refl read1
        ∙ ap (λ x. ok (x ∷ b ∷ bytes)) (first_3 v d b l)) in
    read0

reads_4 :
    (b : ℕ) (bytes : List ℕ)
    → b < 256
    → ReadsAll bytes
    → (v d : ℕ)
    → decode_each 4 d (encode_each 4 v (b ∷ bytes))
      ≡ ok ((d % 2 ^ (8 - 4) * 2 ^ 4 + v % 2 ^ 4) ∷ b ∷ bytes)
unfolding encode_each drain
reads_4 b bytes l (r0, r1, r2, r3, r4) v d =
    let v' = (v * 256 + b) % 2 ^ 32 in
    let i0 = v' / 2 ^ (12 - 5) % 32 in
    let l0 = digit_bound (v' / 2 ^ (12 - 5)) in
    let i1 = v' / 2 ^ (7 - 5) % 32 in
    let l1 = digit_bound (v' / 2 ^ (7 - 5)) in
    let d0 = (d * 32 + i0) % 2 ^ 32 in
    let d1 = (d0 * 32 + i1) % 2 ^ 32 in
    let tail = (r2 v' d1 ∙ ap (λ x. ok (x ∷ bytes)) (next_4 v d b l)) in
    let read1 = read_short i1 1 d0 [] (encode_each 2 v' bytes) (b ∷ bytes) l1 refl tail in
    let read0 =
      (read_full i0 4 d (i1 ∷ []) (encode_each 2 v' bytes) (b ∷ bytes) l0 refl read1
        ∙ ap (λ x. ok (x ∷ b ∷ bytes)) (first_4 v d b l)) in
    read0

reads_each : (bytes : List ℕ) → AreBytes bytes → ReadsAll bytes
reads_each [] h = reads_last
reads_each (b ∷ bytes) (l, h) =
    let rest = reads_each bytes h in
    (
      reads_0 b bytes l rest,
      reads_1 b bytes l rest,
      reads_2 b bytes l rest,
      reads_3 b bytes l rest,
      reads_4 b bytes l rest,
    )

-- Bytes that are encoded are decoded to the same bytes, where upper case leaves the encoding, whose
-- letters are capitals, as it is.
pub base32_decode-base32_encode :
    (upper : String → String) (bytes : List ℕ)
    → AreBytes bytes
    → upper (base32_encode bytes) ≡ base32_encode bytes
    → base32_decode upper (base32_encode bytes) ≡ ok bytes
unfolding base32_decode base32_encode
base32_decode-base32_encode upper bytes h u =
    rw (strip_padding-encode_each bytes 0 0, u) ((reads_each bytes h).0 0 0)
