-- ===== src/Mfa/Totp/Window.antt =====
-- At which steps a code is matched.
use mathlib.Core.Bool.{false≢true}
use mathlib.Core.Path.{subst}
use fixzone_enterprise_api.Base.{
  ℕ, zero, suc, ◌+◌, ◌-◌, ◌≤◌, String, ◌≡◌, refl, sym, ap, ◌∙◌, ◌⊎◌, inl, inr, true, false, Option,
  none, some, List, [], ◌∷◌, trim, str_eq, eq_iff, arith, Bool-cases,
}
use fixzone_enterprise_api.Base.Result.{ok}
use fixzone_enterprise_api.Mfa.Vault.{MfaEnv}
use fixzone_enterprise_api.Mfa.Base32.{base32_decode}
use fixzone_enterprise_api.Mfa.Totp.{
  generate_totp_code_for_step, is_code, timing_safe_equal, current_totp_step, candidate_steps,
  first_match, match_totp_step,
}
use fixzone_enterprise_api.Mfa.Totp.Codes.{generate_totp_code_for_step_length}

Among : ℕ → List ℕ → Type 0
Among x [] = ⊥
Among x (y ∷ ys) = (x ≡ y) ⊎ Among x ys

-- Not more than one step away.
abbrev pub IsNear : ℕ → ℕ → Type 0
IsNear step current = (step ≤ current + 1) × (current ≤ step + 1)

candidate_steps-IsNear : (n s : ℕ) → Among s (candidate_steps n) → IsNear s n
unfolding Among
candidate_steps-IsNear zero s h = ground (arith, h)
candidate_steps-IsNear (suc n) s h = ground (arith, h)

-- What the loop answers: the first step with the code, or that no step has it.
module _ (env : MfaEnv) (secret normalized : String) where
  abbrev pub HasCode : ℕ → Type 0
  HasCode step = generate_totp_code_for_step env secret step ≡ ok normalized

  NoneHas : List ℕ → Type 0
  NoneHas [] = Unit {0}
  NoneHas (s ∷ steps) = (¬ HasCode s) × NoneHas steps

  abbrev Matches : List ℕ → Option ℕ → Type 0
  Matches steps none = NoneHas steps
  Matches steps (some s) = Among s steps × HasCode s

  later_match :
      (s : ℕ) (steps : List ℕ) (r : Option ℕ)
      → ¬ HasCode s
      → Matches steps r
      → Matches (s ∷ steps) r
  unfolding Among NoneHas
  later_match s steps none n m = (n, m)
  later_match s steps (some x) n (a, c) = (inr a, c)

  other_code :
      (s : ℕ) (c : String)
      → generate_totp_code_for_step env secret s ≡ ok c
      → str_eq c normalized ≡ false
      → ¬ HasCode s
  other_code s c e other h =
      let same : c ≡ normalized = cc (e, h) in false≢true (sym other ∙ (eq_iff c normalized).1 same)

  compare_lem :
      (c : String)
      → is_code c ≡ true
      → is_code normalized ≡ true
      → timing_safe_equal c normalized ≡ ok (str_eq c normalized)
  unfolding timing_safe_equal is_code
  compare_lem c h g = ground (arith, h, g)

  first_match_lem :
      (key : List ℕ) (steps : List ℕ)
      → base32_decode env.upper secret ≡ ok key
      → is_code normalized ≡ true
      → (r : Option ℕ) × (first_match env secret normalized steps ≡ ok r) × Matches steps r
  unfolding first_match Among NoneHas
  first_match_lem key [] h g = (none, refl, tt)
  first_match_lem key (s ∷ steps) h g =
      let (c, e, six) = generate_totp_code_for_step_length env secret key s h in
      let (r, f, m) = first_match_lem key steps h g in
      elim (Bool-cases (str_eq c normalized)) [
        | inl same ↦ (
          some s,
          rw (e, first_match) (rw (compare_lem c six g) (rw (same, first_match) refl)),
          (inl refl, e ∙ ap ok ((eq_iff c normalized).0 same)),
        )
        | inr other ↦ (
          r,
          rw (e, first_match) (rw (compare_lem c six g) (rw (other, first_match) f)),
          later_match s steps r (other_code s c e other) m,
        )
      ]

  not_code :
      (key : List ℕ) (s : ℕ)
      → base32_decode env.upper secret ≡ ok key
      → is_code normalized ≡ false
      → ¬ HasCode s
  not_code key s h g f =
      let (c, e, six) = generate_totp_code_for_step_length env secret key s h in
      let same : c ≡ normalized = cc (e, f) in false≢true (sym g ∙ ap is_code (sym same) ∙ six)

  -- The current step, the next one and the previous one, where there is one, do not have the code.
  abbrev pub Misses : ℕ → Type 0
  Misses current =
      (¬ HasCode current) × (¬ HasCode (current + 1)) × ((current ≡ 0) ⊎ (¬ HasCode (current - 1)))

  NoneHas-Misses : (current : ℕ) → NoneHas (candidate_steps current) → Misses current
  unfolding NoneHas
  NoneHas-Misses zero (a, (b, _)) = (a, b, inl refl)
  NoneHas-Misses (suc n) (a, (b, (c, _))) =
      let after : suc (suc n) ≡ suc n + 1 = omega arith in
      let before : n ≡ suc n - 1 = omega arith in
      (b, subst (λ x. ¬ HasCode x) after c, inr (subst (λ x. ¬ HasCode x) before a))

-- The answer to a code: a step near the current one with this code, or none, where no such step has it.
abbrev pub Answers : MfaEnv → String → String → Option ℕ → Type 0
Answers env secret normalized none = Misses env secret normalized (current_totp_step env)
Answers env secret normalized (some s) =
    IsNear s (current_totp_step env) × HasCode env secret normalized s

answers :
    (env : MfaEnv) (secret normalized : String) (r : Option ℕ)
    → Matches env secret normalized (candidate_steps (current_totp_step env)) r
    → Answers env secret normalized r
answers env secret normalized none m =
    NoneHas-Misses env secret normalized (current_totp_step env) m
answers env secret normalized (some s) (a, c) =
    (candidate_steps-IsNear (current_totp_step env) s a, c)

-- Where the secret is a text that base32 decodes, a code is always answered, and never by an
-- exception: with a step at most one away from the current one whose code it is, after trimming, or
-- with none, and then it is the code of no such step.
pub match_totp_step-Answers :
    (env : MfaEnv) (code secret : String) (key : List ℕ)
    → base32_decode env.upper secret ≡ ok key
    → (r : Option ℕ) × (match_totp_step env code secret ≡ ok r) × Answers env secret (trim code) r
unfolding match_totp_step
match_totp_step-Answers env code secret key h = elim (Bool-cases (is_code (trim code))) [
  | inl g ↦
      let (r, e, m) =
        first_match_lem env secret (trim code) key (candidate_steps (current_totp_step env)) h g in
      (r, rw (g, match_totp_step) e, answers env secret (trim code) r m)
  | inr g ↦
      let current = current_totp_step env in
      let other : (s : ℕ) → ¬ HasCode env secret (trim code) s =
        λ s. not_code env secret (trim code) key s h g in
      (
        none,
        rw (g, match_totp_step) refl,
        (other current, other (current + 1), inr (other (current - 1))),
      )
]
