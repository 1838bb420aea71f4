-- ===== src/Payments/Service/Forged.antt =====
-- What a webhook that nobody signed can do, and what is shown of a reference.
use fixzone_enterprise_api.Base.{
  ℕ, suc, ◌+◌, ◌-◌, ◌≤◌, String, ◌≡◌, refl, inl, inr, ◌⊎◌, Option, none, some, Bool-cases, arith,
  leb, str_append, text_length, take_chars, drop_chars, last_chars, is_text,
}
use Prim.Native.String.append
use fixzone_enterprise_api.Base.Result.{Result, err, forbidden}
use fixzone_enterprise_api.Payments.Books.{Books}
use fixzone_enterprise_api.Payments.Paystack.{Json, validate_webhook_signature}
use fixzone_enterprise_api.Payments.Paystack.Signatures.{Signed, validate-Signed}
use fixzone_enterprise_api.Payments.Service.{
  Desk, write_audit, rejected_webhook, handle_paystack_webhook, mask_reference,
}

-- A webhook is signed, that is, the bytes of its signature are those of the digest of its body under
-- the secret key that is set, or it is refused as forbidden and no more than an audit row is written.
pub handle_paystack_webhook-Signed :
    (desk : Desk) (parse : String → Result Json) (raw_body : String) (signature : Option String)
    (w : Books)
    → Signed desk.platform raw_body signature
      ⊎ (handle_paystack_webhook desk parse raw_body signature w
          ≡ (err (forbidden "Invalid webhook signature"), write_audit rejected_webhook w))
unfolding handle_paystack_webhook
handle_paystack_webhook-Signed desk parse raw_body signature w =
    elim (Bool-cases (validate_webhook_signature desk.platform raw_body signature)) [
      | inl e ↦ inl (validate-Signed desk.platform raw_body signature e)
      | inr e ↦ inr (rw (e, handle_paystack_webhook) refl)
    ]

text_length-str_append :
    (s t : String) → text_length (str_append s t) ≡ text_length s + text_length t
unfolding text_length
text_length-str_append String.[] t = rw (append.nil t) (omega arith)
text_length-str_append (String.◌∷◌ c s) t =
    rw (append.cons c s t) (omega (arith, text_length-str_append s t))

text_length-take_chars : (n : ℕ) (s : String) → text_length (take_chars n s) ≤ n
unfolding text_length take_chars
text_length-take_chars ℕ.zero s = omega arith
text_length-take_chars (suc n) String.[] = omega arith
text_length-take_chars (suc n) (String.◌∷◌ c s) = omega (arith, text_length-take_chars n s)

text_length-drop_chars : (n : ℕ) (s : String) → text_length (drop_chars n s) ≡ text_length s - n
unfolding text_length drop_chars
text_length-drop_chars ℕ.zero s = omega arith
text_length-drop_chars (suc n) String.[] = omega arith
text_length-drop_chars (suc n) (String.◌∷◌ c s) = omega (arith, text_length-drop_chars n s)

text_length-last_chars : (n : ℕ) (s : String) → text_length (last_chars n s) ≤ n
unfolding last_chars
text_length-last_chars n s = omega (arith, text_length-drop_chars (text_length s - n) s)

mask_length : text_length "****" ≤ 11
unfolding text_length
mask_length = omega arith

dots_length : text_length "..." ≡ 3
unfolding text_length
dots_length = refl

ends_length :
    (s : String)
    → text_length (str_append (take_chars 4 s) (str_append "..." (last_chars 4 s))) ≤ 11
ends_length s =
    let tail = str_append "..." (last_chars 4 s) in
    omega (
      arith,
      text_length-str_append (take_chars 4 s) tail,
      text_length-str_append "..." (last_chars 4 s),
      text_length-take_chars 4 s,
      text_length-last_chars 4 s,
      dots_length,
    )

-- What is shown of a reference has at most eleven characters, and no more than eight of them are the
-- reference's own: it is a fixed mask, or the first four, three dots and the last four of a reference
-- of more than eight characters.
pub mask_reference_bound :
    (reference shown : String)
    → mask_reference (some reference) ≡ some shown
    → (text_length shown ≤ 11)
      × ((shown ≡ "****")
          ⊎ ((9 ≤ text_length reference)
              × (shown
                  ≡ str_append
                      (take_chars 4 reference)
                      (str_append "..." (last_chars 4 reference)))))
unfolding mask_reference
mask_reference_bound reference shown h = elim (Bool-cases (is_text (some reference))) [
  | inr e ↦
      let no : mask_reference (some reference) ≡ none = rw (e, mask_reference) refl in
      absurd (cc (no, h))
  | inl e ↦ elim (Bool-cases (leb (text_length reference) 8)) [
    | inl f ↦
        let mask : mask_reference (some reference) ≡ some "****" =
          rw (e, mask_reference) (rw (f, mask_reference) refl) in
        let same : "****" ≡ shown = cc (mask, h) in rw (← same) (mask_length, inl refl)
    | inr f ↦
        let ends =
          str_append (take_chars 4 reference) (str_append "..." (last_chars 4 reference)) in
        let mask : mask_reference (some reference) ≡ some ends =
          rw (e, mask_reference) (rw (f, mask_reference) refl) in
        let same : ends ≡ shown = cc (mask, h) in
        rw (← same) (ends_length reference, inr (ground arith, refl))
  ]
]
