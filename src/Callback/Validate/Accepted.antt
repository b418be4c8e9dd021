-- ===== src/Callback/Validate/Accepted.antt =====
-- What an accepted callback holds.
use fcp_sfd_object_processor.Common.{
  String, ◌≡◌, refl, inl, inr, ◌↔◌, true, Option, none, some, List, [], ◌∷◌, All, Bool-cases,
  Option-cases,
}
use fcp_sfd_object_processor.Json.{Json, get, is_the_text}
use fcp_sfd_object_processor.Form.{flatten_form_values}
use fcp_sfd_object_processor.Callback.Checks.{check_file_upload_consistency}
use fcp_sfd_object_processor.Callback.Checks.Laws.{
  IsComplete, check_file_upload_consistency-eq-none_iff, IsComplete-only,
}
use fcp_sfd_object_processor.Callback.Validate.{
  is_file_entry, Verdict, accepted, verdict_of, check_files, incomplete_file,
  validate_callback_payload,
}

-- every file entry of the list meets the contract of a complete file
abbrev pub AllComplete : List Json → Type 0
AllComplete vs = All (λ v. is_file_entry v ≡ true → IsComplete v) vs

check_one :
    (v : Json) (c : Option String) (later : Verdict)
    → verdict_of v c later ≡ accepted
    → (c ≡ none) × (later ≡ accepted)
check_one v none later h = (refl, h)
check_one v (some e) later h = absurd (cc h)

files_complete :
    (vs : List Json) → incomplete_file vs ≡ none → check_files vs ≡ accepted → AllComplete vs
unfolding incomplete_file check_files
files_complete [] i h = tt
files_complete (v ∷ vs) i h = elim (Bool-cases (is_file_entry v)) [
  | inr n ↦ ((λ t. absurd (cc (t, n))), files_complete vs (rw n at i) (rw n at h))
  | inl t ↦ elim (Bool-cases (is_the_text (get v "fileStatus") "complete")) [
    | inr n ↦ absurd (cc (rw (t, n) at i))
    | inl s ↦
        let (c, later) =
          check_one v (check_file_upload_consistency v) (check_files vs) (rw t at h) in
        ((λ _. IsComplete-only v s c), files_complete vs (rw (t, s) at i) later)
  ]
]

complete_files :
    (vs : List Json) → AllComplete vs → (incomplete_file vs ≡ none) × (check_files vs ≡ accepted)
unfolding incomplete_file check_files
complete_files [] a = (refl, refl)
complete_files (v ∷ vs) a = elim (Bool-cases (is_file_entry v)) [
  | inr n ↦ let (i, h) = complete_files vs a.1 in rw n (i, h)
  | inl t ↦
      let c = a.0 t in
      let (i, h) = complete_files vs a.1 in
      rw (t, c.status, (check_file_upload_consistency-eq-none_iff v).1 (inl c)) (i, h)
]

module _ (payload : Json) where
  abbrev files : List Json
  files = flatten_form_values (get payload "form")

  -- A payload passes the checks after the schema exactly when the upload is ready and every file of
  -- the form, in a group or not, meets the contract of a complete file. Neither a rejected nor a
  -- pending file is ever accepted.
  pub validate_callback_payload-accepted_iff :
      ((validate_callback_payload payload).0 ≡ accepted)
      ↔ ((is_the_text (get payload "uploadStatus") "ready" ≡ true) × AllComplete files)
  unfolding validate_callback_payload
  validate_callback_payload-accepted_iff = (to, from)
    where
      to :
          (validate_callback_payload payload).0 ≡ accepted
          → (is_the_text (get payload "uploadStatus") "ready" ≡ true) × AllComplete files
      to h = elim (Bool-cases (is_the_text (get payload "uploadStatus") "ready")) [
        | inr n ↦ absurd (cc (rw n at h))
        | inl r ↦ elim (Option-cases (incomplete_file files)) [
          | inl i ↦ (r, files_complete files i (rw (r, i) at h))
          | inr (v, i) ↦ absurd (cc (rw (r, i) at h))
        ]
      ]

      from :
          (is_the_text (get payload "uploadStatus") "ready" ≡ true) × AllComplete files
          → (validate_callback_payload payload).0 ≡ accepted
      from (r, a) = let (i, h) = complete_files files a in rw (r, i) h
