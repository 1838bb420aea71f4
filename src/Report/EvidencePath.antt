-- ===== src/Report/EvidencePath.antt =====
-- Paths of uploaded evidence: `extractLocalUploadPath`, `normalizeExternalImageUrl` and
-- `normalizeCompletionEvidenceFields` (src/report/report.service.ts).
pub mod Laws
use Prim.Native.Char.{code}
use fixzone_enterprise_api.Base.{
  ℕ, ◌+◌, String, Bool, true, false, not, ◌&&◌, ◌||◌, Option, none, some, List, [], ◌∷◌, ◌==◌, leb,
  is_empty, is_some, any, str_eq, str_append, trim, trimmed, or_else, if◌then◌else◌,
}

-- `trimmed.replace(/\\/g, '/')`
backslashes_to_slashes : String → String
backslashes_to_slashes String.[] = String.[]
backslashes_to_slashes (String.◌∷◌ c s) =
    let rest = backslashes_to_slashes s in
    if code c == 92 then String.◌∷◌ "/" rest else String.◌∷◌ c rest

-- `path.replace(/^\/+/, '')`
strip_slashes : String → String
strip_slashes String.[] = String.[]
strip_slashes (String.◌∷◌ c s) =
    let rest = strip_slashes s in if code c == b'/' then rest else String.◌∷◌ c s

-- What stands behind a prefix, where the text starts with it.
pub after_prefix : String → String → Option String
after_prefix String.[] s = some s
after_prefix (String.◌∷◌ p ps) String.[] = none
after_prefix (String.◌∷◌ p ps) (String.◌∷◌ c s) =
    let rest = after_prefix ps s in if code p == code c then rest else none

-- `if (path.startsWith('uploads/')) path = path.slice('uploads/'.length);`
strip_uploads : String → String
strip_uploads path = elim (after_prefix "uploads/" path) [ none ↦ path | some rest ↦ rest ]

-- `/^(report-completion|report-evidence|demo)\//.test(path)`
pub is_evidence_folder : String → Bool
is_evidence_folder path =
    is_some (after_prefix "report-completion/" path)
    || is_some (after_prefix "report-evidence/" path)
    || is_some (after_prefix "demo/" path)

-- `path.split('/')`
pub split_slash : String → List String
split_slash String.[] = String.[] ∷ []
split_slash (String.◌∷◌ c s) =
    let parts = split_slash s in
    if code c == b'/'
    then String.[] ∷ parts
    else elim parts [ [] ↦ String.◌∷◌ c String.[] ∷ [] | p ∷ ps ↦ String.◌∷◌ c p ∷ ps ]

pub is_unsafe_segment : String → Bool
is_unsafe_segment s = str_eq s "" || str_eq s "." || str_eq s ".."

-- One character of `/^[A-Za-z0-9._~/-]+$/`.
pub is_path_char : ℕ → Bool
is_path_char c =
    (leb b'A' c && leb c b'Z')
    || (leb b'a' c && leb c b'z')
    || (leb b'0' c && leb c b'9')
    || c == b'.'
    || c == b'_'
    || c == b'~'
    || c == b'/'
    || c == b'-'

pub all_path_chars : String → Bool
all_path_chars String.[] = true
all_path_chars (String.◌∷◌ c s) = is_path_char (code c) && all_path_chars s

-- The tests of `extractLocalUploadPath` on the path that is left.
accept_path : String → Option String
accept_path path =
    if not (is_evidence_folder path)
    then none
    else if any is_unsafe_segment (split_slash path)
    then none
    else if all_path_chars path && not (is_empty path)
    then some path
    else none

ascii_lower : ℕ → ℕ
ascii_lower c = if leb b'A' c && leb c b'Z' then c + 32 else c

-- Whether a text starts with a prefix in lower case, in whatever case.
starts_with_any_case : String → String → Bool
starts_with_any_case String.[] s = true
starts_with_any_case (String.◌∷◌ p ps) String.[] = false
starts_with_any_case (String.◌∷◌ p ps) (String.◌∷◌ c s) =
    code p == ascii_lower (code c) && starts_with_any_case ps s

-- `/^https?:\/\//i.test(text)`
is_web_address : String → Bool
is_web_address text = starts_with_any_case "http://" text || starts_with_any_case "https://" text

-- `url_pathname` is `new URL(text).pathname`, where the text is a URL.
module _ (url_pathname : String → Option String) where
  -- `extractLocalUploadPath`
  unfoldable pub extract_local_upload_path : Option String → Option String
  unfolding backslashes_to_slashes strip_slashes strip_uploads accept_path is_evidence_folder
      after_prefix all_path_chars split_slash is_unsafe_segment is_path_char
  extract_local_upload_path value = elim (trimmed value) [
    | none ↦ none
    | some text ↦
        let path : String = elim (url_pathname text) [
          | none ↦ backslashes_to_slashes text
          | some p ↦ p
        ] in
        accept_path (strip_uploads (strip_slashes path))
  ]

  -- `normalizeExternalImageUrl`
  unfoldable pub normalize_external_image_url : Option String → Option String
  unfolding is_web_address starts_with_any_case ascii_lower
  normalize_external_image_url value = elim (trimmed value) [
    | none ↦ none
    | some text ↦ elim (extract_local_upload_path (some text)) [
      | some path ↦ some (str_append "/uploads/" path)
      | none ↦ if is_web_address text then some text else none
    ]
  ]

  -- `normalizeCompletionEvidenceFields`: the address and the path that are stored.
  unfoldable pub normalize_completion_evidence_fields :
      Option String → Option String → Option String × Option String
  normalize_completion_evidence_fields image_url image_path =
      let path : Option String =
        or_else (extract_local_upload_path image_path) (extract_local_upload_path image_url) in
      (
        elim path [
          | some p ↦ some (str_append "/uploads/" p)
          | none ↦ normalize_external_image_url image_url
        ],
        path,
      )
