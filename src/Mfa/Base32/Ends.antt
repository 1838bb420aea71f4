-- ===== src/Mfa/Base32/Ends.antt =====
-- The inner loop of the encoder ends.
use fixzone_enterprise_api.Base.{
  ℕ, zero, suc, ◌+◌, ◌-◌, ◌*◌, ◌≤◌, ◌<◌, ◌≡◌, refl, length, leb, false, arith, Bool-cases, inl, inr,
}
use fixzone_enterprise_api.Mfa.Base32.{drain}

drain_ends :
    (fuel bits value : ℕ)
    → bits ≤ fuel
    → ((drain fuel bits value).1 < 5)
      × (bits ≡ 5 * length (drain fuel bits value).0 + (drain fuel bits value).1)
unfolding drain
drain_ends zero bits value h = (omega (arith, h), omega arith)
drain_ends (suc fuel) bits value h = elim (Bool-cases (leb 5 bits)) [
  | inl e ↦
      let (a, b) = drain_ends fuel (bits - 5) value (ground (arith, e, h)) in
      rw (e, drain) (a, ground (arith, e, b))
  | inr e ↦ rw (e, drain) (ground (arith, e), omega arith)
]

few_bits : (bits : ℕ) → bits ≤ 0 → leb 5 bits ≡ false
few_bits bits h = ground (arith, h)

same_drain : (f g bits value : ℕ) → bits ≤ f → bits ≤ g → drain f bits value ≡ drain g bits value
unfolding drain
same_drain zero zero bits value h k = refl
same_drain zero (suc g) bits value h k = rw (few_bits bits h, drain) refl
same_drain (suc f) zero bits value h k = rw (few_bits bits k, drain) refl
same_drain (suc f) (suc g) bits value h k = elim (Bool-cases (leb 5 bits)) [
  | inr e ↦ rw (e, drain) refl
  | inl e ↦
      let step = same_drain f g (bits - 5) value (ground (arith, e, h)) (ground (arith, e, k)) in
      rw (e, drain) (rw (step, drain) refl)
]

-- The inner loop of base32Encode ends by its own condition where its fuel is at least the number of
-- bits: less than five bits are left, five times the digits that are written and the bits that are
-- left are the bits at first, and more fuel changes nothing.
pub drain_terminates :
    (fuel more bits value : ℕ)
    → bits ≤ fuel
    → bits ≤ more
    → ((drain fuel bits value).1 < 5)
      × (bits ≡ 5 * length (drain fuel bits value).0 + (drain fuel bits value).1)
      × (drain more bits value ≡ drain fuel bits value)
drain_terminates fuel more bits value h k =
    let (a, b) = drain_ends fuel bits value h in (a, b, same_drain more fuel bits value k h)
