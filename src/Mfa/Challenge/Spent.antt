-- ===== src/Mfa/Challenge/Spent.antt =====
-- A recovery code that is used stays used.
use mathlib.Core.Bool.{false≢true}
use fixzone_enterprise_api.Base.{
  ℕ, String, ◌≡◌, ◌≢◌, refl, sym, ◌∙◌, inl, inr, true, false, some, is_some, Bool-cases, List, [],
  ◌∷◌, eq_iff, find, find_first-find, find-put, HasDistinctKeys, put-HasDistinctKeys, put, arith,
  ◌==◌, ==_iff,
}
use fixzone_enterprise_api.Base.Result.{Result, ok}
use fixzone_enterprise_api.Mfa.Vault.{BackupCode, Vault, MfaEnv}
use fixzone_enterprise_api.Mfa.Sessions.{PreAuth, digest_recovery_code}
use fixzone_enterprise_api.Mfa.Challenge.{
  MfaMethod, recovery_code, has_code_digest, is_usable, used, complete_challenge,
}
use fixzone_enterprise_api.Mfa.Challenge.Cases.{Answer, Challenges, complete_challenge-Challenges}

-- Every row with the digest is used, and no row stands twice.
abbrev IsSpent : String → Vault → Type 0
IsSpent digest v =
    HasDistinctKeys v.backup_codes
    × ((id : ℕ) (b : BackupCode)
        → find id v.backup_codes ≡ some b
        → b.code_digest ≡ digest
        → is_some b.used_at ≡ true)

used_row :
    (env : MfaEnv) (digest : String) (k id : ℕ) (b c : BackupCode) (v : Vault)
    → find k v.backup_codes ≡ some b
    → ((k == id) ≡ false
        → find id v.backup_codes ≡ some c
        → c.code_digest ≡ digest
        → is_some c.used_at ≡ true)
    → find id (put k (used env b) v.backup_codes) ≡ some c
    → c.code_digest ≡ digest
    → is_some c.used_at ≡ true
used_row env digest k id b c v f keep g e =
    let step = find-put k id (used env b) b v.backup_codes f in
    elim (Bool-cases (k == id)) [
      | inl here ↦ let same : used env b ≡ c = cc (sym step ∙ g, here) in rw (← same) refl
      | inr other ↦
          let same : find id v.backup_codes ≡ some c = sym (step ∙ rw other refl) ∙ g in
          keep other same e
    ]

-- The digest of a code stands once, as the column is unique.
abbrev pub AreUnique : Vault → Type 0
AreUnique v =
    (i j : ℕ) (a b : BackupCode)
    → find i v.backup_codes ≡ some a
    → find j v.backup_codes ≡ some b
    → a.code_digest ≡ b.code_digest
    → i ≡ j

only_row :
    (env : MfaEnv) (digest : String) (k id : ℕ) (b c : BackupCode) (v : Vault)
    → find k v.backup_codes ≡ some b
    → b.code_digest ≡ digest
    → AreUnique v
    → find id (put k (used env b) v.backup_codes) ≡ some c
    → c.code_digest ≡ digest
    → is_some c.used_at ≡ true
only_row env digest k id b c v f h u =
    used_row env digest k id b c v f
      (λ other g e. absurd (false≢true (sym other ∙ (==_iff k id).1 (u k id b c f g (h ∙ sym e)))))

Answer-IsSpent :
    (env : MfaEnv) (p : PreAuth) (method : MfaMethod) (code digest : String) (v : Vault)
    {end : Result (Unit {0}) × Vault}
    → Answer env p method code v end
    → IsSpent digest v
    → IsSpent digest end.1
Answer-IsSpent env p method code digest v (Answer.threw x) h = h
Answer-IsSpent env p method code digest v (Answer.missed x w s e b) h = rw b h
Answer-IsSpent env p method code digest v (Answer.by_step id e secret step m a d t r) h = h
Answer-IsSpent env p method code digest v (Answer.by_code j e k b m a f u) (d, h) =
    let test = has_code_digest (digest_recovery_code env code) in
    let there = find_first-find test v.backup_codes k b d f in
    (
      put-HasDistinctKeys k (used env b) v.backup_codes d,
      λ id c. used_row env digest k id b c v there.0 (λ other. h id c),
    )

challenges-IsSpent :
    (env : MfaEnv) (token : String) (method : MfaMethod) (code digest : String) (v : Vault)
    {end : Result PreAuth × Vault}
    → Challenges env token method code v end
    → IsSpent digest v
    → IsSpent digest end.1
challenges-IsSpent env token method code digest v (Challenges.refused x) h = h
challenges-IsSpent env token method code digest v (Challenges.failed p x w o a) h =
    Answer-IsSpent env p method code digest v a h
challenges-IsSpent env token method code digest v (Challenges.passed p w o a) h =
    Answer-IsSpent env p method code digest v a h

-- A call of `completeChallenge` with its surroundings.
pub record Attempt : Type 0 where
  pub env : MfaEnv
  pub token : String
  pub method : MfaMethod
  pub code : String

-- The tables behind the calls, one after another.
abbrev pub attempt_all : List Attempt → Vault → Vault
attempt_all [] v = v
attempt_all (a ∷ attempts) v =
    attempt_all attempts (complete_challenge a.env a.token a.method a.code v).1

attempt_all-IsSpent :
    (digest : String) (attempts : List Attempt) (v : Vault)
    → IsSpent digest v
    → IsSpent digest (attempt_all attempts v)
attempt_all-IsSpent digest [] v h = h
attempt_all-IsSpent digest (a ∷ attempts) v h =
    attempt_all-IsSpent digest attempts (complete_challenge a.env a.token a.method a.code v).1 (
      challenges-IsSpent a.env a.token a.method a.code digest v
        (complete_challenge-Challenges a.env a.token a.method a.code v) h)

unusable :
    (user enrollment : ℕ) (b : BackupCode)
    → is_some b.used_at ≡ true
    → is_usable user enrollment b ≡ false
unusable user enrollment b h = ground (arith, h)

spent-Answer :
    (env : MfaEnv) (p : PreAuth) (method : MfaMethod) (code : String) (v : Vault)
    {end : Result (Unit {0}) × Vault}
    → Answer env p method code v end
    → method ≡ recovery_code
    → IsSpent (digest_recovery_code env code) v
    → end.0 ≢ ok tt
spent-Answer env p method code v (Answer.threw x) r h e = absurd (cc e)
spent-Answer env p method code v (Answer.missed x w s f b) r h e = absurd (cc e)
spent-Answer env p method code v (Answer.by_step id e secret step m a d t x) r h f =
    absurd (cc (m, r))
spent-Answer env p method code v (Answer.by_code j e k b m a f u) r (d, h) g =
    let digest = digest_recovery_code env code in
    let there = find_first-find (has_code_digest digest) v.backup_codes k b d f in
    let spent = h k b there.0 ((eq_iff b.code_digest digest).0 there.1) in
    false≢true (sym (unusable p.session.user_id j b spent) ∙ u)

spent_challenge :
    (env : MfaEnv) (token code : String) (v : Vault) {end : Result PreAuth × Vault} (p : PreAuth)
    → Challenges env token recovery_code code v end
    → IsSpent (digest_recovery_code env code) v
    → end.0 ≢ ok p
spent_challenge env token code v p (Challenges.refused x) h e = absurd (cc e)
spent_challenge env token code v p (Challenges.failed q x w o a) h e = absurd (cc e)
spent_challenge env token code v p (Challenges.passed q w o a) h e =
    spent-Answer env q recovery_code code v a refl h refl

passed_code :
    (env : MfaEnv) (p : PreAuth) (method : MfaMethod) (code : String) (v : Vault)
    {end : Result (Unit {0}) × Vault}
    → Answer env p method code v end
    → method ≡ recovery_code
    → end.0 ≡ ok tt
    → HasDistinctKeys v.backup_codes
    → AreUnique v
    → IsSpent (digest_recovery_code env code) end.1
passed_code env p method code v (Answer.threw x) r e d u = absurd (cc e)
passed_code env p method code v (Answer.missed x w s f b) r e d u = absurd (cc e)
passed_code env p method code v (Answer.by_step id e secret step m a c t x) r f d u =
    absurd (cc (m, r))
passed_code env p method code v (Answer.by_code j e k b m a f l) r g d u =
    let digest = digest_recovery_code env code in
    let there = find_first-find (has_code_digest digest) v.backup_codes k b d f in
    (
      put-HasDistinctKeys k (used env b) v.backup_codes d,
      λ id c g' same.
          only_row env digest k id b c v there.0 ((eq_iff b.code_digest digest).0 there.1) u g'
            same,
    )

passed_challenge :
    (env : MfaEnv) (token code : String) (v : Vault) {end : Result PreAuth × Vault} (p : PreAuth)
    → Challenges env token recovery_code code v end
    → end.0 ≡ ok p
    → HasDistinctKeys v.backup_codes
    → AreUnique v
    → IsSpent (digest_recovery_code env code) end.1
passed_challenge env token code v p (Challenges.refused x) e d u = absurd (cc e)
passed_challenge env token code v p (Challenges.failed q x w o a) e d u = absurd (cc e)
passed_challenge env token code v p (Challenges.passed q w o a) e d u =
    passed_code env q recovery_code code v a refl refl d u

-- A recovery code passes once: behind a challenge that it passed, and behind any further challenges
-- with whatever tokens, methods and codes, no token passes with a recovery code of the same digest,
-- where no backup code stands twice and no two have the same digest.
pub recovery_code_once :
    (env : MfaEnv) (token code : String) (v : Vault) (p : PreAuth) (attempts : List Attempt)
    (later : MfaEnv) (other again : String) (q : PreAuth)
    → HasDistinctKeys v.backup_codes
    → AreUnique v
    → (complete_challenge env token recovery_code code v).0 ≡ ok p
    → digest_recovery_code later again ≡ digest_recovery_code env code
    → let w = attempt_all attempts (complete_challenge env token recovery_code code v).1 in
      (complete_challenge later other recovery_code again w).0 ≢ ok q
recovery_code_once env token code v p attempts later other again q d u h same =
    let v' = (complete_challenge env token recovery_code code v).1 in
    let w = attempt_all attempts v' in
    let spent =
      passed_challenge env token code v p
        (complete_challenge-Challenges env token recovery_code code v) h d u in
    let still = attempt_all-IsSpent (digest_recovery_code env code) attempts v' spent in
    spent_challenge later other again w q
      (complete_challenge-Challenges later other recovery_code again w) (rw same still)
