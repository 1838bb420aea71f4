-- ===== src/Admin/Emails.antt =====
-- `normalizeEmail` (src/internal-admin/internal-admin.service.ts).
use fixzone_enterprise_api.Base.{
  ℕ, String, Bool, true, false, not, ◌&&◌, ◌||◌, Option, ◌==◌, is_empty, is_space, if◌then◌else◌,
}
use Prim.Native.Char.{code}
use fixzone_enterprise_api.Base.Result.{Result, ok, err, bad_request}
use fixzone_enterprise_api.Admin.Office.{AdminEnv}
use fixzone_enterprise_api.Admin.Authority.{required_text}

-- `[^\s@]`
abbrev is_plain : ℕ → Bool
is_plain c = not (is_space c) && not (c == 64)

-- `[^\s@]*$`
abbrev all_plain : String → Bool
all_plain String.[] = true
all_plain (String.◌∷◌ c s) = is_plain (code c) && all_plain s

-- `[^\s@]*\.[^\s@]+$`
abbrev has_inner_dot : String → Bool
has_inner_dot String.[] = false
has_inner_dot (String.◌∷◌ c s) =
    let later = has_inner_dot s in
    (code c == 46 && not (is_empty s) && all_plain s) || (is_plain (code c) && later)

-- `[^\s@]+\.[^\s@]+$`
abbrev is_domain : String → Bool
is_domain String.[] = false
is_domain (String.◌∷◌ c s) = is_plain (code c) && has_inner_dot s

-- `[^\s@]*@[^\s@]+\.[^\s@]+$`
abbrev has_domain : String → Bool
has_domain String.[] = false
has_domain (String.◌∷◌ c s) =
    let later = has_domain s in (code c == 64 && is_domain s) || (is_plain (code c) && later)

-- The pattern of an email address in `normalizeEmail`.
unfoldable pub is_email : String → Bool
is_email String.[] = false
is_email (String.◌∷◌ c s) = is_plain (code c) && has_domain s

-- `normalizeEmail`
unfoldable pub normalize_email : AdminEnv → Option String → Result String
unfolding required_text
normalize_email env raw = elim (required_text raw "email is required.") [
  | err e ↦ err e
  | ok text ↦
      let email = env.lower text in
      if is_email email then ok email else err (bad_request "Enter a valid email address.")
]
