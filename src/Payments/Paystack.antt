-- ===== src/Payments/Paystack.antt =====
-- src/payments/paystack.adapter.ts: the signature of a webhook, and what a message of the provider is
-- read as. The requests to the provider are parameters of the payments service.
pub mod Signatures
use fixzone_enterprise_api.Base.{
  ℕ, String, Bool, true, false, not, ◌&&◌, ◌||◌, Option, none, some, List, [], ◌∷◌, ◌==◌, any,
  or_else, get_or, str_eq, str_append, is_empty, trim, trimmed, if◌then◌else◌,
}
use fixzone_enterprise_api.Base.Result.{
  Result, ok, err, bad_gateway, unavailable, ◌>>=◌, ◌>>◌, throw_if,
}
use fixzone_enterprise_api.Payments.Books.{
  PaymentTransactionStatus, pending, paid, failed, refunded, PaymentEnvironment, live, Trusted,
}

-- A value of `JSON.parse`; a number is `none` where it is no natural number.
mutual
  pub data Json : Type 0 where
    null : Json
    bool : Bool → Json
    number : Option ℕ → Json
    text : String → Json
    array : Items → Json
    object : Fields → Json

  pub data Items : Type 0 where
    no_items : Items
    item : Json → Items → Items

  pub data Fields : Type 0 where
    no_fields : Fields
    field : String → Json → Fields → Fields

-- What the adapter takes from the JavaScript library and the process environment: `toLowerCase`,
-- `toUpperCase`, `Number` and `Date` on a value, the digest of a webhook's body under a key,
-- `Buffer.from(text, 'hex')`, the secret key and the two settings.
pub record Platform : Type 0 where
  pub lower : String → String
  pub upper : String → String
  pub to_number : Json → Option ℕ
  pub parse_date : String → Option ℕ
  pub hmac_hex : String → String → String
  pub from_hex : String → List ℕ
  pub secret_key : Option String
  pub payments_enabled : Bool
  pub environment : PaymentEnvironment
  pub is_test_key : String → Bool

has_field : String → Fields → Bool
has_field name no_fields = false
has_field name (field other value rest) = str_eq other name || has_field name rest

-- The last field of the name, as in an object that `JSON.parse` builds; a missing one is `null`.
value_of : String → Fields → Json
unfolding has_field
value_of name no_fields = null
value_of name (field other value rest) =
    let later = value_of name rest in
    if has_field name rest then later else if str_eq other name then value else null

-- `this.asRecord(value)[name]`
unfoldable pub get_field : Json → String → Json
unfolding value_of
get_field (object fields) name = value_of name fields
get_field _ name = null

-- `optionalString`
unfoldable pub optional_string : Json → Option String
optional_string (text s) = trimmed (some s)
optional_string _ = none

-- `requiredString`
unfoldable pub required_string : Json → Result String
required_string value = elim (optional_string value) [
  | none ↦ err (bad_gateway "PAYSTACK_RESPONSE_MALFORMED")
  | some s ↦ ok s
]

-- `a ?? b` on parsed values.
abbrev or_json : Json → Json → Json
or_json null b = b
or_json a b = a

is_text_of : Option String → String → Bool
is_text_of none b = false
is_text_of (some a) b = str_eq a b

-- The status of a message, by the event and the text of its status.
unfoldable pub message_status : Option String → Option String → PaymentTransactionStatus
unfolding is_text_of
message_status event status_text =
    if is_text_of event "refund.processed"
    then refunded
    else if is_text_of status_text "success"
    then paid
    else if is_text_of status_text "failed" || is_text_of event "charge.failed"
    then failed
    else pending

-- `timingSafeEqual` on two buffers of the same length, and `false` on others.
same_bytes : List ℕ → List ℕ → Bool
same_bytes [] [] = true
same_bytes (x ∷ xs) (y ∷ ys) = x == y && same_bytes xs ys
same_bytes _ _ = false

module _ (platform : Platform) where
  -- `secretKey`
  unfoldable pub secret_key : Option String
  secret_key = trimmed platform.secret_key

  -- `assertReady`
  unfoldable pub assert_ready : Result (Unit {0})
  assert_ready =
      throw_if (not platform.payments_enabled) (unavailable "PAYMENTS_DISABLED")
      >> elim secret_key [
        | none ↦ err (unavailable "PAYSTACK_SECRET_MISSING")
        | some key ↦ elim platform.environment [
          | live ↦ throw_if (platform.is_test_key key) (unavailable "PAYSTACK_LIVE_KEY_REQUIRED")
          | _ ↦ ok tt
        ]
      ]

  -- `normalizeTransaction`
  unfoldable pub normalize_transaction : Json → Option String → Option String → Result Trusted
  normalize_transaction body event_id event = do
    reference ← required_string (get_field body "reference")
    currency ← required_string (get_field body "currency")
    ok (record {
      provider_reference = reference;
      internal_reference = reference;
      status = message_status event (elim (optional_string (get_field body "status")) [
        | none ↦ none
        | some s ↦ some (platform.lower s)
      ]);
      amount_minor = elim (get_field body "amount") [
        | null ↦ some 0
        | value ↦ platform.to_number value
      ];
      currency = platform.upper currency;
      paid_at =
          elim (optional_string (or_json (get_field body "paid_at") (get_field body "paidAt"))) [
            | none ↦ none
            | some s ↦ platform.parse_date s
          ];
      event_id = event_id;
    })

  recognized : String → Bool
  recognized event =
      any (str_eq event)
        ("charge.success" ∷ "charge.failed" ∷ "transfer.failed" ∷ "refund.processed" ∷ [])

  event_id_of : Json → Json → String → Result String
  event_id_of body message event =
      elim (or_else (optional_string (get_field body "id"))
        (optional_string (get_field message "id"))) [
          | some id ↦ ok id
          | none ↦ do
            reference ← required_string (get_field message "reference")
            ok (str_append event (str_append ":" reference))
        ]

  -- `parseWebhookEvent`: the event's identifier, and its transaction where the event is one of ours.
  unfoldable pub parse_webhook_event : Json → Result (String × Option Trusted)
  unfolding recognized event_id_of
  parse_webhook_event body = do
    event ← required_string (get_field body "event")
    let message = get_field body "data"
    event_id ← event_id_of body message event
    if recognized event
        then normalize_transaction message (some event_id) (some event)
          >>= (λ t. ok (event_id, some t))
        else ok (event_id, none)

  -- `validateWebhookSignature`
  unfoldable pub validate_webhook_signature : String → Option String → Bool
  unfolding same_bytes
  validate_webhook_signature raw_body signature = elim secret_key [
    | none ↦ false
    | some key ↦ elim (trimmed signature) [
      | none ↦ false
      | some provided ↦
          same_bytes (platform.from_hex (platform.hmac_hex key raw_body))
            (platform.from_hex provided)
    ]
  ]
