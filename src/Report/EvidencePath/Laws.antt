-- ===== src/Report/EvidencePath/Laws.antt =====
-- Where a stored evidence path leads.
use fixzone_enterprise_api.Base.{
  String, ◌≡◌, refl, inl, inr, true, false, ◌||◌, Option, some, Option-cases, List, [], ◌∷◌, arith,
  any, str_eq, trimmed, if◌then◌else◌,
}
use fixzone_enterprise_api.Report.EvidencePath.{
  split_slash, is_unsafe_segment, is_evidence_folder, all_path_chars, accept_path, strip_uploads,
  strip_slashes, backslashes_to_slashes, extract_local_upload_path,
}

-- How a file system follows a path: the directories it is in, the innermost first.
pub step_into : List String → String → List String
step_into inside segment =
    if str_eq segment "" || str_eq segment "."
    then inside
    else if str_eq segment ".."
    then elim inside [ [] ↦ [] | _ ∷ outer ↦ outer ]
    else segment ∷ inside

pub follow : List String → List String → List String
unfolding step_into
follow inside [] = inside
follow inside (s ∷ ss) = follow (step_into inside s) ss

-- Each segment one directory further in.
pub descend : List String → List String → List String
descend inside [] = inside
descend inside (s ∷ ss) = descend (s ∷ inside) ss

follow_safe :
    (inside segments : List String)
    → any is_unsafe_segment segments ≡ false
    → follow inside segments ≡ descend inside segments
unfolding follow descend is_unsafe_segment step_into
follow_safe inside [] h = refl
follow_safe inside (s ∷ ss) h = ground (arith, follow_safe (s ∷ inside) ss)

accept_path_safe :
    (path accepted : String)
    → accept_path path ≡ some accepted
    → (accepted ≡ path)
      × (is_evidence_folder path ≡ true)
      × (any is_unsafe_segment (split_slash path) ≡ false)
      × (all_path_chars path ≡ true)
unfolding accept_path
accept_path_safe path accepted h = (ground arith, ground arith, ground arith, ground arith)

extracted_from :
    (url_pathname : String → Option String) (value : Option String) (path : String)
    → extract_local_upload_path url_pathname value ≡ some path
    → (p : String) × (accept_path p ≡ some path)
unfolding extract_local_upload_path
extracted_from url_pathname value path h = elim (Option-cases (trimmed value)) [
  | inl e ↦ absurd (ground arith)
  | inr (text, e) ↦ elim (Option-cases (url_pathname text)) [
    | inl n ↦ (strip_uploads (strip_slashes (backslashes_to_slashes text)), ground arith)
    | inr (p, f) ↦ (strip_uploads (strip_slashes p), ground arith)
  ]
]

-- A path that is extracted from a stored address lies in one of the folders of evidence, has only
-- the characters that the service allows, and is followed from any directory straight down, one
-- directory for each of its segments: it leaves no directory that it has entered.
pub extract_local_upload_path_safe :
    (url_pathname : String → Option String) (value : Option String) (path : String)
    (inside : List String)
    → extract_local_upload_path url_pathname value ≡ some path
    → (is_evidence_folder path ≡ true)
      × (all_path_chars path ≡ true)
      × (follow inside (split_slash path) ≡ descend inside (split_slash path))
extract_local_upload_path_safe url_pathname value path inside h =
    let (p, a) = extracted_from url_pathname value path h in
    let safe = accept_path_safe p path a in ground (arith, follow_safe inside (split_slash path))
