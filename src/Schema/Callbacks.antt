-- ===== src/Schema/Callbacks.antt =====
-- What a callback is like that its schema accepts.
use fcp_sfd_object_processor.Common.{
  ℕ, String, ◌≡◌, refl, ◌⊎◌, inl, inr, true, false, ◌&&◌, some, leb, List, [], ◌∷◌, leb→le, All, In,
  here, there, any, any-true, In-append, In-append_right,
}
use fcp_sfd_object_processor.Json.{
  Json, undefined, null, bool, num, str, arr, obj, oid, Fields, end, field_values, find_field, get,
  elements,
}
use fcp_sfd_object_processor.Form.{flatten_form_values, flat, spread}
use fcp_sfd_object_processor.Callback.Validate.{is_file_entry}
use fcp_sfd_object_processor.Schema.{
  Schema, Base, Keys, key, no_keys, required, at_most, anything, is_undefined, string, field_count,
  known, object,
}
use fcp_sfd_object_processor.Schema.Joi.{Joi, entries_accept}
use fcp_sfd_object_processor.Schema.Check.{check, check_keys, accepts-check}
use fcp_sfd_object_processor.Journey.{journey_id_key}
use fcp_sfd_object_processor.Schema.Inversion.{
  and_true, IsFilled, IsOneOf, IsIntegerIn, find_key, find_key-with_keys, undefined_of,
  key_accepted, required_accepted, required-IsFilled, required-IsOneOf, required_integer,
}
use fcp_sfd_object_processor.Schema.Uploader.{
  services, sbi_min, sbi_max, crn_min, crn_max, frn_min, frn_max, in_range, metadata_keys,
  callback_metadata_schema, callback_metadata_keys, rejected_files_field,
}
use fcp_sfd_object_processor.Schema.Payloads.{
  form_schema, has_file_upload, holds_upload, callback_payload_schema, callback_keys,
}
use fcp_sfd_object_processor.Schema.Parsed.{
  is_parsed, fields_parsed, field_parsed, has_field-of-value,
}
use fcp_sfd_object_processor.Schema.Forms.{IsFormValue, form_values, value_schema}

pub record IsMetadata (document_types : List String) (v : Json) : Type 0 where
  pub sbi : IsIntegerIn sbi_min sbi_max (get v "sbi")
  pub crn : IsIntegerIn crn_min crn_max (get v "crn")
  pub frn : IsIntegerIn frn_min frn_max (get v "frn")
  pub submission_id : IsFilled (get v "submissionId")
  pub type : IsOneOf document_types (get v "type")
  pub reference : IsFilled (get v "reference")
  pub service : IsOneOf services (get v "service")
  pub uosr : IsFilled (get v "uosr")

-- Every value of the form is a text field with some text or an upload, and there is an upload.
-- A count of rejected files comes only with a ready upload.
pub record IsCallback (b : Base) (document_types : List String) (payload : Json) : Type 0 where
  pub status : IsOneOf ("initiated" ∷ "pending" ∷ "ready" ∷ []) (get payload "uploadStatus")
  pub metadata : IsMetadata document_types (get payload "metadata")
  pub form : All (IsFormValue b) (flatten_form_values (get payload "form"))
  pub has_upload :
      (v : Json) × In v (flatten_form_values (get payload "form")) × (is_file_entry v ≡ true)
  pub counted :
      (get payload "numberOfRejectedFiles" ≡ undefined) ⊎ (get payload "uploadStatus" ≡ str "ready")

In-flat : (x w : Json) (vs : List Json) → In w vs → In x (spread w) → In x (flat vs)
In-flat x w [] m n = elim m [ ]
In-flat x w (v ∷ vs) here n = In-append x (spread v) (flat vs) n
In-flat x w (v ∷ vs) (there m) n = In-append_right x (spread v) (flat vs) (In-flat x w vs m n)

uploads_of_value :
    (w : Json) → holds_upload w ≡ true → (v : Json) × In v (spread w) × (is_file_entry v ≡ true)
uploads_of_value (arr xs) h = any-true is_file_entry (elements xs) h
uploads_of_value (obj fs) h = (obj fs, here, h)
uploads_of_value undefined h = absurd (cc h)
uploads_of_value null h = absurd (cc h)
uploads_of_value (bool b) h = absurd (cc h)
uploads_of_value (num n) h = absurd (cc h)
uploads_of_value (str s) h = absurd (cc h)
uploads_of_value (oid n) h = absurd (cc h)

module _ (b : Base) where
  bounded_field :
      (p : Fields) (lo hi : ℕ) (v : Json)
      → check b true p (required (in_range lo hi)) v ≡ true
      → IsIntegerIn lo hi v
  bounded_field p lo hi v h =
      let (n, e, l, _, r) = required_integer b p lo (at_most hi ∷ []) v h in
      let (u, _) = and_true _ _ r in (n, e, l, leb→le n hi u)

  -- the metadata of a schema whose keys include those of the base schema
  pub metadata_accepted :
      (document_types : List String) (ks : Keys) (fs : Fields)
      → ((k : String) (s : Schema)
          → find_key (metadata_keys document_types) k ≡ some s
          → find_key ks k ≡ some s)
      → check_keys b true fs ks fs ≡ true
      → IsMetadata document_types (obj fs)
  metadata_accepted document_types ks fs inc h =
      let ok = λ (k : String) (s : Schema) (f : find_key (metadata_keys document_types) k ≡ some s).
        key_accepted b true fs fs ks k s (inc k s f) h in
      record {
        sbi = bounded_field fs sbi_min sbi_max _ (ok "sbi" _ refl);
        crn = bounded_field fs crn_min crn_max _ (ok "crn" _ refl);
        frn = bounded_field fs frn_min frn_max _ (ok "frn" _ refl);
        submission_id = required-IsFilled b true fs [] _ (ok "submissionId" _ refl);
        type = required-IsOneOf b true fs document_types _ (ok "type" _ refl);
        reference = required-IsFilled b true fs [] _ (ok "reference" _ refl);
        service = required-IsOneOf b true fs services _ (ok "service" _ refl);
        uosr = required-IsFilled b true fs [] _ (ok "uosr" _ refl);
      }

  form_accepted :
      (mime_types : List String) (p : Fields) (form : Json)
      → is_parsed form ≡ true
      → check b true p (form_schema mime_types) form ≡ true
      → All (IsFormValue b) (flatten_form_values form)
        × ((v : Json) × In v (flatten_form_values form) × (is_file_entry v ≡ true))
  unfolding check form_schema is_parsed has_file_upload flatten_form_values
  form_accepted mime_types p undefined h c = absurd (cc h)
  form_accepted mime_types p (oid n) h c = absurd (cc h)
  form_accepted mime_types p null h c = absurd (cc c)
  form_accepted mime_types p (bool x) h c = absurd (cc c)
  form_accepted mime_types p (num n) h c = absurd (cc c)
  form_accepted mime_types p (str s) h c = absurd (cc c)
  form_accepted mime_types p (arr xs) h c = absurd (cc c)
  form_accepted mime_types p (obj fs) h c =
      let values_ok =
        entries_accept (check b true fs (string [])) (check b true fs (value_schema b mime_types))
          fs in
      let (c0, _) =
        and_true (values_ok && any holds_upload (field_values fs)) (leb 1 (field_count fs)) c in
      let (e, u) = and_true values_ok (any holds_upload (field_values fs)) c0 in
      let (w, m, t) = any-true holds_upload (field_values fs) u in
      let (v, n, i) = uploads_of_value w t in
      (
        form_values b mime_types fs (check b true fs (string [])) fs h e,
        (v, In-flat v w (field_values fs) m n, i),
      )

  counted_accepted :
      (p : Fields) (v : Json)
      → IsOneOf ("initiated" ∷ "pending" ∷ "ready" ∷ []) (find_field "uploadStatus" p)
      → check b true p rejected_files_field v ≡ true
      → (v ≡ undefined) ⊎ (find_field "uploadStatus" p ≡ str "ready")
  unfolding check
  counted_accepted p v (s, e, here) h = inl (undefined_of v (and_true _ _ (rw e at h)).1)
  counted_accepted p v (s, e, there here) h = inl (undefined_of v (and_true _ _ (rw e at h)).1)
  counted_accepted p v (s, e, there (there here)) h = inr e
  counted_accepted p v (s, e, there (there (there m))) h = elim m [ ]

  -- the value is an object whose keys the schema of the metadata accepts
  metadata_value :
      (document_types : List String) (p : Fields) (v : Json)
      → is_parsed v ≡ true
      → check b true p (callback_metadata_schema document_types) v ≡ true
      → IsMetadata document_types v
  unfolding check callback_metadata_schema is_parsed
  metadata_value document_types p undefined h c = absurd (cc h)
  metadata_value document_types p (oid n) h c = absurd (cc h)
  metadata_value document_types p null h c = absurd (cc c)
  metadata_value document_types p (bool x) h c = absurd (cc c)
  metadata_value document_types p (num n) h c = absurd (cc c)
  metadata_value document_types p (str s) h c = absurd (cc c)
  metadata_value document_types p (arr xs) h c = absurd (cc c)
  metadata_value document_types p (obj fs) h c =
      let (k, _) =
        and_true (check_keys b true fs (callback_metadata_keys document_types) fs)
          (known (callback_metadata_keys document_types) fs) c in
      metadata_accepted document_types (callback_metadata_keys document_types) fs
        (find_key-with_keys (metadata_keys document_types) (key journey_id_key anything no_keys)) k

  -- the payload's keys, one by one
  fields_accepted :
      (mime_types document_types : List String) (fs : Fields)
      → fields_parsed fs ≡ true
      → check_keys b true fs (callback_keys mime_types document_types) fs ≡ true
      → IsCallback b document_types (obj fs)
  fields_accepted mime_types document_types fs h c =
      let ok =
        λ (k : String) (s : Schema)
            (f : find_key (callback_keys mime_types document_types) k ≡ some s).
          key_accepted b true fs fs (callback_keys mime_types document_types) k s f c in
      let status = required-IsOneOf b true fs _ _ (ok "uploadStatus" _ refl) in
      let (d, m) = required_accepted b true fs _ _ (ok "metadata" _ refl) in
      let (d', f) = required_accepted b true fs _ _ (ok "form" _ refl) in
      let (form, upload) = form_accepted mime_types fs _ (present "form" fs h d') f in
      record {
        status = status;
        metadata = metadata_value document_types fs _ (present "metadata" fs h d) m;
        form = form;
        has_upload = upload;
        counted = counted_accepted fs _ status (ok "numberOfRejectedFiles" _ refl);
      }
    where
      present :
          (k : String) (gs : Fields)
          → fields_parsed gs ≡ true
          → is_undefined (find_field k gs) ≡ false
          → is_parsed (find_field k gs) ≡ true
      present k gs q r = field_parsed k gs q (has_field-of-value k gs _ refl r)

  payload_accepted :
      (mime_types document_types : List String) (p : Fields) (payload : Json)
      → is_parsed payload ≡ true
      → check b true p (object (callback_keys mime_types document_types)) payload ≡ true
      → IsCallback b document_types payload
  unfolding check is_parsed
  payload_accepted mime_types document_types p undefined h c = absurd (cc h)
  payload_accepted mime_types document_types p (oid n) h c = absurd (cc h)
  payload_accepted mime_types document_types p null h c = absurd (cc c)
  payload_accepted mime_types document_types p (bool x) h c = absurd (cc c)
  payload_accepted mime_types document_types p (num n) h c = absurd (cc c)
  payload_accepted mime_types document_types p (str s) h c = absurd (cc c)
  payload_accepted mime_types document_types p (arr xs) h c = absurd (cc c)
  payload_accepted mime_types document_types p (obj fs) h c =
      let (k, _) =
        and_true (check_keys b true fs (callback_keys mime_types document_types) fs)
          (known (callback_keys mime_types document_types) fs) c in
      fields_accepted mime_types document_types fs h k

module _ (joi : Joi) (mime_types document_types : List String) (payload : Json) where
  -- A payload from JSON that the callback's schema accepts holds one of the three statuses of an
  -- upload, metadata whose fields are all there and in their ranges, and a form of which every
  -- value, in an array or not, is a text field with some text or an upload, with at least one
  -- upload. A count of rejected files is there only if the upload is ready.
  pub callback_payload_schema-IsCallback :
      is_parsed payload ≡ true
      → joi.accepts false end (callback_payload_schema mime_types document_types) payload ≡ true
      → IsCallback joi.base document_types payload
  unfolding callback_payload_schema
  callback_payload_schema-IsCallback h c =
      payload_accepted joi.base mime_types document_types end payload h (
        rw
          (
            joi.strict_law false end (object (callback_keys mime_types document_types)) payload,
            accepts-check joi true end (object (callback_keys mime_types document_types)) payload,
          )
          at c)
