-- ===== src/Schema/Stages.antt =====
-- How the schema of the callback and the checks that follow it agree.
use fcp_sfd_object_processor.Common.{
  ℕ, String, ◌≡◌, refl, sym, ap, ◌∙◌, ◌⊎◌, inl, inr, ◌↔◌, true, false, none, List, [], ◌∷◌, ◌≤◌,
  arith, All, All-imp, eq_iff,
}
use fcp_sfd_object_processor.Json.{
  Json, null, bool, num, str, oid, arr, obj, nat, end, get, has, truthy, is_the_text, text_of,
  undefined,
}
use fcp_sfd_object_processor.Form.{flatten_form_values}
use fcp_sfd_object_processor.Callback.Checks.{is_blank, at_most_zero, check_file_upload_consistency}
use fcp_sfd_object_processor.Callback.Checks.Laws.{
  IsComplete, IsRejected, check_file_upload_consistency-eq-none_iff,
}
use fcp_sfd_object_processor.Callback.Validate.{is_file_entry, accepted, validate_callback_payload}
use fcp_sfd_object_processor.Callback.Validate.Accepted.{
  AllComplete, validate_callback_payload-accepted_iff,
}
use fcp_sfd_object_processor.Schema.{Base, is_undefined}
use fcp_sfd_object_processor.Schema.Joi.{Joi}
use fcp_sfd_object_processor.Schema.Payloads.{callback_payload_schema}
use fcp_sfd_object_processor.Schema.Parsed.{is_parsed, has_field-of-value}
use fcp_sfd_object_processor.Schema.Uploads.{HasObject, HasError, IsAdmitted}
use fcp_sfd_object_processor.Schema.Inversion.{IsFilled}
use fcp_sfd_object_processor.Schema.Forms.{IsFormValue}
use fcp_sfd_object_processor.Schema.Callbacks.{callback_payload_schema-IsCallback}

filled_truthy : (v : Json) → IsFilled v → truthy v ≡ true
filled_truthy v (s, e, f) = rw (e, f) refl

-- A complete file that the schema accepts meets the contract of the consistency check.
HasObject-IsComplete : (f : Json) → HasObject f → IsComplete f
unfolding text_of
HasObject-IsComplete f o =
    let (s, c1, c2, c3) = o.checksum in
    let (n, l1, l2, _) = o.content_length in
    record {
      status = rw o.status refl;
      key = filled_truthy _ o.s3_key;
      bucket = filled_truthy _ o.s3_bucket;
      checksum = filled_truthy _ (s, c1, c2);
      base64 = rw c1 c3;
      size_positive = rw l1 (positive n l2);
      size_finite = rw l1 refl;
      no_error = o.no_error;
      no_message = o.no_message;
    }
  where
    positive : (n : ℕ) → 1 ≤ n → at_most_zero (num (nat n)) ≡ false
    positive n h = ground arith

HasError-IsRejected :
    (f : Json)
    → HasError f
    → is_blank (get f "errorMessage") ≡ false
    → has f "checksumSha256" ≡ false
    → IsRejected f
HasError-IsRejected f r blank checksum =
    let (s, m, _) = r.message in
    record {
      status = rw r.status refl;
      error = has_of_value f "hasError" (bool true) r.error refl;
      error_true = rw r.error refl;
      message = has_of_value f "errorMessage" (str s) m refl;
      message_text = rw m refl;
      message_filled = blank;
      no_key = r.no_key;
      no_bucket = r.no_bucket;
      no_checksum = checksum;
    }
  where
    has_of_value :
        (f : Json) (k : String) (v : Json) → get f k ≡ v → is_undefined v ≡ false → has f k ≡ true
    has_of_value (obj fs) k v e d = has_field-of-value k fs v e d
    has_of_value undefined k v e d = absurd (cc (rw (← e) at d))
    has_of_value null k v e d = absurd (cc (rw (← e) at d))
    has_of_value (bool x) k v e d = absurd (cc (rw (← e) at d))
    has_of_value (num n) k v e d = absurd (cc (rw (← e) at d))
    has_of_value (str s) k v e d = absurd (cc (rw (← e) at d))
    has_of_value (oid n) k v e d = absurd (cc (rw (← e) at d))
    has_of_value (arr xs) k v e d = absurd (cc (rw (← e) at d))

-- An upload that the schema accepts passes the consistency check exactly when it is not rejected,
-- or its error message is more than blanks and it has no checksum.
pub IsAdmitted-consistent_iff :
    (b : Base) (f : Json)
    → IsAdmitted b f
    → (check_file_upload_consistency f ≡ none) ↔ (
        (get f "fileStatus" ≡ str "complete")
        ⊎ ((get f "fileStatus" ≡ str "pending")
            ⊎ ((is_blank (get f "errorMessage") ≡ false) × (has f "checksumSha256" ≡ false))))
IsAdmitted-consistent_iff b f u = elim u.status [
  | inl o ↦ ((λ _. inl o.status), λ _. contract.1 (inl (HasObject-IsComplete f o)))
  | inr (inl r) ↦ (rejected_only r, consistent_rejected r)
  | inr (inr e) ↦ ((λ _. inr (inl e)), λ _. contract.1 (inr (inr (rw e refl))))
]
  where
    contract :
        (check_file_upload_consistency f ≡ none)
        ↔ (IsComplete f ⊎ (IsRejected f ⊎ (is_the_text (get f "fileStatus") "pending" ≡ true)))
    contract = check_file_upload_consistency-eq-none_iff f

    rejected_only :
        HasError f
        → check_file_upload_consistency f ≡ none
        → (get f "fileStatus" ≡ str "complete")
          ⊎ ((get f "fileStatus" ≡ str "pending")
              ⊎ ((is_blank (get f "errorMessage") ≡ false) × (has f "checksumSha256" ≡ false)))
    rejected_only r h = elim (contract.0 h) [
      | inl c ↦ absurd (cc (rw r.status at c.status))
      | inr (inl q) ↦ inr (inr (q.message_filled, q.no_checksum))
      | inr (inr q) ↦ absurd (cc (rw r.status at q))
    ]

    consistent_rejected :
        HasError f
        → (get f "fileStatus" ≡ str "complete")
          ⊎ ((get f "fileStatus" ≡ str "pending")
              ⊎ ((is_blank (get f "errorMessage") ≡ false) × (has f "checksumSha256" ≡ false)))
        → check_file_upload_consistency f ≡ none
    consistent_rejected r (inl e) =
        absurd (cc (ap (λ v. is_the_text v "complete") (sym r.status ∙ e)))
    consistent_rejected r (inr (inl e)) =
        absurd (cc (ap (λ v. is_the_text v "pending") (sym r.status ∙ e)))
    consistent_rejected r (inr (inr (m, c))) = contract.1 (inr (inl (HasError-IsRejected f r m c)))

-- the status of a complete upload is all that the later checks add
upload-IsComplete :
    (b : Base) (f : Json) → IsAdmitted b f → get f "fileStatus" ≡ str "complete" → IsComplete f
upload-IsComplete b f u e = elim u.status [
  | inl o ↦ HasObject-IsComplete f o
  | inr (inl r) ↦ absurd (cc (ap (λ v. is_the_text v "complete") (sym r.status ∙ e)))
  | inr (inr p) ↦ absurd (cc (ap (λ v. is_the_text v "complete") (sym p ∙ e)))
]

-- every upload of the list is complete
abbrev pub UploadsComplete : List Json → Type 0
UploadsComplete vs = All (λ v. is_file_entry v ≡ true → get v "fileStatus" ≡ str "complete") vs

text_of_test : (v : Json) (s : String) → is_the_text v s ≡ true → v ≡ str s
text_of_test (str t) s h = let e : t ≡ s = (eq_iff t s).0 h in rw e refl
text_of_test v s h = absurd (cc h)

complete_statuses : (vs : List Json) → AllComplete vs → UploadsComplete vs
complete_statuses vs a = All-imp _ _ (λ v c i. text_of_test _ "complete" (c i).status) vs a

complete_contracts :
    (b : Base) (vs : List Json) → All (IsFormValue b) vs → UploadsComplete vs → AllComplete vs
complete_contracts b [] a c = tt
complete_contracts b (v ∷ vs) a c = (one a.0 c.0, complete_contracts b vs a.1 c.1)
  where
    one :
        {w : Json}
        → IsFormValue b w
        → (is_file_entry w ≡ true → get w "fileStatus" ≡ str "complete")
        → is_file_entry w ≡ true
        → IsComplete w
    one (inl (s, e, _)) k i = absurd (cc (rw e at i))
    one (inr (_, u)) k i = upload-IsComplete b _ u (k i)

-- For a payload from JSON that the schema accepts, the checks after it test two things alone: they
-- accept exactly when the status of the upload is ready and that of each of its files is complete.
pub validate_callback_payload-of_schema :
    (joi : Joi) (mime_types document_types : List String) (payload : Json)
    → is_parsed payload ≡ true
    → joi.accepts false end (callback_payload_schema mime_types document_types) payload ≡ true
    → ((validate_callback_payload payload).0 ≡ accepted) ↔ (
        (get payload "uploadStatus" ≡ str "ready")
        × UploadsComplete (flatten_form_values (get payload "form")))
validate_callback_payload-of_schema joi mime_types document_types payload h c =
    let stages = validate_callback_payload-accepted_iff payload in
    let k = callback_payload_schema-IsCallback joi mime_types document_types payload h c in
    (
      (λ a. let (r, f) = stages.0 a in (text_of_test _ "ready" r, complete_statuses _ f)),
      (λ a. stages.1 (rw (a.0) refl, complete_contracts joi.base _ k.form a.1)),
    )
