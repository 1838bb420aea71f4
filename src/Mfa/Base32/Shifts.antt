-- ===== src/Mfa/Base32/Shifts.antt =====
-- The arithmetic of the shifts, where `be` bits of the encoder's value and `8 - be` of the decoder's
-- are not yet written.
use Prim.Native.Nat.{◌/◌, ◌%◌, ◌^◌}
use fixzone_enterprise_api.Base.{ℕ, ◌+◌, ◌-◌, ◌*◌, ◌<◌, ◌≡◌, arith}

pub digit_bound : (x : ℕ) → x % 32 < 32
digit_bound x = omega arith

pub last_1 :
    (v d : ℕ)
    → (d * 32 + v * 2 ^ (5 - 1) % 2 ^ 32 % 32) % 2 ^ 32 / 2 ^ (7 + 5 - 8) % 256
      ≡ d % 128 * 2 + v % 2
last_1 v d = omega arith

pub first_1 :
    (v d b : ℕ)
    → b < 256
    → (d * 32 + (v * 256 + b) % 2 ^ 32 / 2 ^ (1 + 8 - 5) % 32) % 2 ^ 32 / 2 ^ (7 + 5 - 8) % 256
      ≡ d % 128 * 2 + v % 2
first_1 v d b l = omega (arith, l)

pub last_2 :
    (v d : ℕ)
    → (d * 32 + v * 2 ^ (5 - 2) % 2 ^ 32 % 32) % 2 ^ 32 / 2 ^ (6 + 5 - 8) % 256 ≡ d % 64 * 4 + v % 4
last_2 v d = omega arith

pub first_2 :
    (v d b : ℕ)
    → b < 256
    → (d * 32 + (v * 256 + b) % 2 ^ 32 / 2 ^ (2 + 8 - 5) % 32) % 2 ^ 32 / 2 ^ (6 + 5 - 8) % 256
      ≡ d % 64 * 4 + v % 4
first_2 v d b l = omega (arith, l)

pub last_3 :
    (v d : ℕ)
    → (d * 32 + v * 2 ^ (5 - 3) % 2 ^ 32 % 32) % 2 ^ 32 / 2 ^ (5 + 5 - 8) % 256 ≡ d % 32 * 8 + v % 8
last_3 v d = omega arith

pub first_3 :
    (v d b : ℕ)
    → b < 256
    → (d * 32 + (v * 256 + b) % 2 ^ 32 / 2 ^ (3 + 8 - 5) % 32) % 2 ^ 32 / 2 ^ (5 + 5 - 8) % 256
      ≡ d % 32 * 8 + v % 8
first_3 v d b l = omega (arith, l)

pub last_4 :
    (v d : ℕ)
    → (d * 32 + v * 2 ^ (5 - 4) % 2 ^ 32 % 32) % 2 ^ 32 / 2 ^ (4 + 5 - 8) % 256
      ≡ d % 16 * 16 + v % 16
last_4 v d = omega arith

pub first_4 :
    (v d b : ℕ)
    → b < 256
    → (d * 32 + (v * 256 + b) % 2 ^ 32 / 2 ^ (4 + 8 - 5) % 32) % 2 ^ 32 / 2 ^ (4 + 5 - 8) % 256
      ≡ d % 16 * 16 + v % 16
first_4 v d b l = omega (arith, l)

pub next_0 :
    (v d b : ℕ)
    → b < 256
    → ((d * 32 + ((v * 256 + b) % 2 ^ 32 / 2 ^ (8 - 5) % 32)) % 2 ^ 32) % 32 * 8
        + (v * 256 + b) % 2 ^ 32 % 8
      ≡ b
next_0 v d b l = omega (arith, l)

pub next_1 :
    (v d b : ℕ)
    → b < 256
    → ((d * 32 + ((v * 256 + b) % 2 ^ 32 / 2 ^ (9 - 5) % 32)) % 2 ^ 32) % 16 * 16
        + (v * 256 + b) % 2 ^ 32 % 16
      ≡ b
next_1 v d b l = omega (arith, l)

pub next_2 :
    (v d b : ℕ)
    → b < 256
    → ((((d * 32 + ((v * 256 + b) % 2 ^ 32 / 2 ^ (10 - 5) % 32)) % 2 ^ 32) * 32
            + ((v * 256 + b) % 2 ^ 32 / 2 ^ (5 - 5) % 32))
          % 2 ^ 32)
        / 2 ^ (3 + 5 - 8)
        % 256
      ≡ b
next_2 v d b l = omega (arith, l)

pub next_3 :
    (v d b : ℕ)
    → b < 256
    → ((((d * 32 + ((v * 256 + b) % 2 ^ 32 / 2 ^ (11 - 5) % 32)) % 2 ^ 32) * 32
              + ((v * 256 + b) % 2 ^ 32 / 2 ^ (6 - 5) % 32))
            % 2 ^ 32)
          % 128
          * 2
        + (v * 256 + b) % 2 ^ 32 % 2
      ≡ b
next_3 v d b l = omega (arith, l)

pub next_4 :
    (v d b : ℕ)
    → b < 256
    → ((((d * 32 + ((v * 256 + b) % 2 ^ 32 / 2 ^ (12 - 5) % 32)) % 2 ^ 32) * 32
              + ((v * 256 + b) % 2 ^ 32 / 2 ^ (7 - 5) % 32))
            % 2 ^ 32)
          % 64
          * 4
        + (v * 256 + b) % 2 ^ 32 % 4
      ≡ b
next_4 v d b l = omega (arith, l)
