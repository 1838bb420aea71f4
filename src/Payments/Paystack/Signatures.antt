-- ===== src/Payments/Paystack/Signatures.antt =====
-- Which webhooks are signed.
use fixzone_enterprise_api.Base.{
  ℕ, String, ◌≡◌, refl, sym, ◌∙◌, true, false, Option, some, Option-cases, List, [], ◌∷◌, arith,
  ==_iff, trimmed, inl, inr,
}
use mathlib.Core.Bool.{false≢true}
use fixzone_enterprise_api.Payments.Paystack.{
  Platform, secret_key, same_bytes, validate_webhook_signature,
}

same_bytes_lem : (xs ys : List ℕ) → same_bytes xs ys ≡ true → xs ≡ ys
unfolding same_bytes
same_bytes_lem [] [] h = refl
same_bytes_lem [] (y ∷ ys) h = absurd (false≢true h)
same_bytes_lem (x ∷ xs) [] h = absurd (false≢true h)
same_bytes_lem (x ∷ xs) (y ∷ ys) h = ground (arith, ==_iff x y, same_bytes_lem xs ys)

-- The signature of a body: a key is set, and the signature's bytes are those of the digest under it.
pub record Signed (platform : Platform) (raw_body : String) (signature : Option String)
    : Type 0 where
  pub key : String
  pub provided : String
  pub is_set : secret_key platform ≡ some key
  pub is_given : trimmed signature ≡ some provided
  pub digest : platform.from_hex (platform.hmac_hex key raw_body) ≡ platform.from_hex provided

pub validate-Signed :
    (platform : Platform) (raw_body : String) (signature : Option String)
    → validate_webhook_signature platform raw_body signature ≡ true
    → Signed platform raw_body signature
unfolding validate_webhook_signature
validate-Signed platform raw_body signature h =
    let valid = validate_webhook_signature platform raw_body signature in
    elim (Option-cases (secret_key platform)) [
      | inl e ↦
          let no : valid ≡ false = rw (e, validate_webhook_signature) refl in
          absurd (false≢true (sym no ∙ h))
      | inr (key, e) ↦ elim (Option-cases (trimmed signature)) [
        | inl f ↦
            let no : valid ≡ false =
              rw (e, validate_webhook_signature) (rw (f, validate_webhook_signature) refl) in
            absurd (false≢true (sym no ∙ h))
        | inr (provided, f) ↦
            let digest = platform.from_hex (platform.hmac_hex key raw_body) in
            let yes : valid ≡ same_bytes digest (platform.from_hex provided) =
              rw (e, validate_webhook_signature) (rw (f, validate_webhook_signature) refl) in
            record {
              key = key;
              provided = provided;
              is_set = e;
              is_given = f;
              digest = same_bytes_lem digest (platform.from_hex provided) (sym yes ∙ h);
            }
      ]
    ]
