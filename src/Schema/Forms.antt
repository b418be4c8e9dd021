-- ===== src/Schema/Forms.antt =====
-- The values of a form that the callback's schema accepts.
use fcp_sfd_object_processor.Common.{
  String, ◌≡◌, refl, ◌⊎◌, inl, inr, Bool, true, false, ◌||◌, not, List, [], arith, All, All-append,
}
use fcp_sfd_object_processor.Json.{
  Json, undefined, null, bool, num, str, arr, obj, oid, Items, nil, cons, Fields, end, field,
  elements, field_values,
}
use fcp_sfd_object_processor.Form.{flat, spread}
use fcp_sfd_object_processor.Callback.Validate.{is_file_entry}
use fcp_sfd_object_processor.Schema.{Schema, Base, string, either, array, is_undefined}
use fcp_sfd_object_processor.Schema.Joi.{entries_accept, items_accept}
use fcp_sfd_object_processor.Schema.Check.{check}
use fcp_sfd_object_processor.Schema.Inversion.{and_true, IsFilled, is_string-IsFilled}
use fcp_sfd_object_processor.Schema.Files.{file_upload_schema}
use fcp_sfd_object_processor.Schema.Parsed.{
  is_parsed, items_parsed, fields_parsed, has_field-of-value,
}
use fcp_sfd_object_processor.Schema.Uploads.{IsAdmitted, file_upload_schema-IsAdmitted}

-- an upload or a text field with some text
abbrev pub IsFormValue : Base → Json → Type 0
IsFormValue b v = IsFilled v ⊎ ((is_file_entry v ≡ true) × IsAdmitted b v)

module _ (b : Base) (mime_types : List String) where
  upload_of :
      (p : Fields) (v : Json)
      → is_parsed v ≡ true
      → check b true p (file_upload_schema mime_types) v ≡ true
      → (is_file_entry v ≡ true) × IsAdmitted b v
  unfolding is_parsed check file_upload_schema
  upload_of p undefined h c = absurd (cc h)
  upload_of p (oid n) h c = absurd (cc h)
  upload_of p null h c = absurd (cc c)
  upload_of p (bool x) h c = absurd (cc c)
  upload_of p (num n) h c = absurd (cc c)
  upload_of p (str s) h c = absurd (cc c)
  upload_of p (arr xs) h c = absurd (cc c)
  upload_of p (obj fs) h c =
      let u = file_upload_schema-IsAdmitted b mime_types p fs h c in
      (has_field-of-value "fileId" fs (str u.file_id.0) u.file_id.1 refl, u)

  uploads_of :
      (xs : Items)
      → items_parsed xs ≡ true
      → items_accept (check b true end (file_upload_schema mime_types)) xs ≡ true
      → All (IsFormValue b) (elements xs)
  unfolding items_parsed
  uploads_of nil h c = tt
  uploads_of (cons x xs) h c =
      let (h0, h1) = and_true (is_parsed x) (items_parsed xs) h in
      let (c0, c1) =
        and_true _ (items_accept (check b true end (file_upload_schema mime_types)) xs) c in
      let (_, c2) =
        and_true (not (is_undefined x)) (check b true end (file_upload_schema mime_types) x) c0 in
      (inr (upload_of end x h0 c2), uploads_of xs h1 c1)

  abbrev pub value_schema : Schema
  value_schema =
      either (string [])
        (either (file_upload_schema mime_types) (array (file_upload_schema mime_types)))

  form_value :
      (p : Fields) (v : Json)
      → is_parsed v ≡ true
      → check b true p value_schema v ≡ true
      → All (IsFormValue b) (spread v)
  unfolding is_parsed check file_upload_schema
  form_value p undefined h c = absurd (cc h)
  form_value p (oid n) h c = absurd (cc h)
  form_value p null h c = absurd (cc c)
  form_value p (bool x) h c = absurd (cc c)
  form_value p (num n) h c = absurd (cc c)
  form_value p (str s) h c = (inl (is_string-IsFilled b [] (str s) (text_accepted _ c)), tt)
    where
      text_accepted : (r : Bool) → (r || (false || false)) ≡ true → r ≡ true
      text_accepted r q = ground arith
  form_value p (arr xs) h c = uploads_of xs h c
  form_value p (obj fs) h c = (inr (upload_of p (obj fs) h (object_accepted _ c)), tt)
    where
      object_accepted : (r : Bool) → (r || false) ≡ true → r ≡ true
      object_accepted r q = ground arith

  pub form_values :
      (p : Fields) (on_key : Json → Bool) (fs : Fields)
      → fields_parsed fs ≡ true
      → entries_accept on_key (check b true p value_schema) fs ≡ true
      → All (IsFormValue b) (flat (field_values fs))
  unfolding fields_parsed
  form_values p on_key end h c = tt
  form_values p on_key (field k v fs) h c =
      let (h0, h1) = and_true (is_parsed v) (fields_parsed fs) h in
      let (c0, c1) = and_true _ (entries_accept on_key (check b true p value_schema) fs) c in
      let (_, c2) = and_true (on_key (str k)) (check b true p value_schema v) c0 in
      All-append (IsFormValue b) (spread v) (flat (field_values fs)) (form_value p v h0 c2)
        (form_values p on_key fs h1 c1)
