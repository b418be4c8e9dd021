-- ===== src/Schema/Uploads.antt =====
-- What a file is like that the schema of one upload accepts.
use fcp_sfd_object_processor.Common.{
  ℕ, String, ◌≡◌, refl, ◌⊎◌, inl, inr, true, false, some, List, [], ◌∷◌, str_eq, here, there,
  is_empty_text, leb→le, all, any,
}
use fcp_sfd_object_processor.Json.{
  Json, undefined, null, bool, num, str, arr, obj, oid, Fields, find_field, has_field, get, has,
  same,
}
use fcp_sfd_object_processor.Callback.Checks.{is_base64}
use fcp_sfd_object_processor.Schema.{
  Schema, Keys, Base, StringRule, required, string, valid, when_object, is_undefined, string_rule,
}
use fcp_sfd_object_processor.Schema.Check.{check, check_keys}
use fcp_sfd_object_processor.Schema.Inversion.{
  and_true, or_true, IsFilled, IsOneOf, IsIntegerIn, find_key, undefined_of, is_string_text,
  key_accepted, required_accepted, required_text, required-IsFilled, required-IsOneOf,
  required_integer,
}
use fcp_sfd_object_processor.Schema.Uploader.{file_statuses}
use fcp_sfd_object_processor.Schema.Parsed.{fields_parsed, has_field-of-undefined}
use fcp_sfd_object_processor.Schema.Files.{
  has_status, complete_keys, rejected_keys, file_upload_keys, file_upload_schema,
}

abbrev pub max_safe_integer : ℕ
max_safe_integer = 9007199254740991

-- a stored object, with no error
pub record HasObject (f : Json) : Type 0 where
  pub status : get f "fileStatus" ≡ str "complete"
  pub s3_key : IsFilled (get f "s3Key")
  pub s3_bucket : IsFilled (get f "s3Bucket")
  pub checksum :
      (s : String) × (get f "checksumSha256" ≡ str s)
      × (is_empty_text s ≡ false)
      × (is_base64 s ≡ true)
  pub content_length : IsIntegerIn 1 max_safe_integer (get f "contentLength")
  pub no_error : has f "hasError" ≡ false
  pub no_message : has f "errorMessage" ≡ false
  pub no_code : has f "errorCode" ≡ false

-- an error, with no stored object
pub record HasError (f : Json) : Type 0 where
  pub status : get f "fileStatus" ≡ str "rejected"
  pub error : get f "hasError" ≡ bool true
  pub message : IsFilled (get f "errorMessage")
  pub no_key : has f "s3Key" ≡ false
  pub no_bucket : has f "s3Bucket" ≡ false

pub record IsAdmitted (b : Base) (f : Json) : Type 0 where
  pub file_id : (s : String) × (get f "fileId" ≡ str s) × (b.is_guid s ≡ true)
  pub filename : IsFilled (get f "filename")
  pub status : HasObject f ⊎ (HasError f ⊎ (get f "fileStatus" ≡ str "pending"))

is_the_boolean : (v : Json) → any (same v) (bool true ∷ []) ≡ true → v ≡ bool true
is_the_boolean (bool true) h = refl
is_the_boolean (bool false) h = absurd (cc h)
is_the_boolean undefined h = absurd (cc h)
is_the_boolean null h = absurd (cc h)
is_the_boolean (num n) h = absurd (cc h)
is_the_boolean (str s) h = absurd (cc h)
is_the_boolean (oid n) h = absurd (cc h)
is_the_boolean (arr xs) h = absurd (cc h)
is_the_boolean (obj fs) h = absurd (cc h)

module _ (b : Base) where
  forbidden_key :
      (fs : Fields) (k : String)
      → fields_parsed fs ≡ true
      → check b true fs Schema.forbidden (find_field k fs) ≡ true
      → has_field k fs ≡ false
  unfolding check
  forbidden_key fs k parsed h = has_field-of-undefined k fs parsed (undefined_of _ h)

  required_true :
      (p : Fields) (v : Json)
      → check b true p (required (valid (bool true ∷ []))) v ≡ true
      → v ≡ bool true
  unfolding check
  required_true p v h =
      let (d, t) = required_accepted b true p (valid (bool true ∷ [])) v h in
      is_the_boolean v (or_true _ _ t d)

  optional_string :
      (p : Fields) (rs : List StringRule) (v : Json)
      → check b true p (string rs) v ≡ true
      → is_undefined v ≡ false
      → (s : String) × (v ≡ str s) × (is_empty_text s ≡ false) × (all (string_rule b s) rs ≡ true)
  unfolding check
  optional_string p rs v h d = is_string_text b rs v (or_true _ _ h d)

  -- the keys that the condition adds to an object which has the status
  when_met :
      (p fs : Fields) (status : String) (ks : Keys)
      → str_eq status status ≡ true
      → find_field "fileStatus" fs ≡ str status
      → check b true p (when_object (has_status status) ks) (obj fs) ≡ true
      → check_keys b true fs ks fs ≡ true
  unfolding check check_keys
  when_met p fs status ks r e h = rw (e, r) at h

  module _ (mime_types : List String) (p fs : Fields) where
    abbrev Accepted : Type 0
    Accepted = check b true p (file_upload_schema mime_types) (obj fs) ≡ true

    parts :
        Accepted
        → (check_keys b true fs (file_upload_keys mime_types) fs ≡ true)
          × (check b true p (when_object (has_status "complete") complete_keys) (obj fs) ≡ true)
          × (check b true p (when_object (has_status "rejected") rejected_keys) (obj fs) ≡ true)
    unfolding check file_upload_schema
    parts h =
        let (h', r) = and_true _ _ h in
        let (o, c) = and_true _ _ h' in let (k, _) = and_true _ _ o in (k, c, r)

    module _ (parsed : fields_parsed fs ≡ true)
        (keys : check_keys b true fs (file_upload_keys mime_types) fs ≡ true) where
      has_object :
          find_field "fileStatus" fs ≡ str "complete"
          → check_keys b true fs complete_keys fs ≡ true
          → HasObject (obj fs)
      has_object e h =
          let field_ok = λ (k : String) (s : Schema) (f : find_key complete_keys k ≡ some s).
            key_accepted b true fs fs complete_keys k s f h in
          let base_ok =
            λ (k : String) (s : Schema) (f : find_key (file_upload_keys mime_types) k ≡ some s).
              key_accepted b true fs fs (file_upload_keys mime_types) k s f keys in
          let (k, _) = required_accepted b true fs _ _ (field_ok "s3Key" _ refl) in
          let (u, _) = required_accepted b true fs _ _ (field_ok "s3Bucket" _ refl) in
          let (c, _) = required_accepted b true fs _ _ (field_ok "checksumSha256" _ refl) in
          let (ks, k1, k2, _) = optional_string fs _ _ (base_ok "s3Key" _ refl) k in
          let (us, u1, u2, _) = optional_string fs _ _ (base_ok "s3Bucket" _ refl) u in
          let (cs, c1, c2, c3) = optional_string fs _ _ (base_ok "checksumSha256" _ refl) c in
          let (c4, _) = and_true _ _ c3 in
          let (n, n1, n2, n3, _) = required_integer b fs 1 [] _ (field_ok "contentLength" _ refl) in
          record {
            status = e;
            s3_key = (ks, k1, k2);
            s3_bucket = (us, u1, u2);
            checksum = (cs, c1, c2, c4);
            content_length = (n, n1, n2, leb→le n max_safe_integer n3);
            no_error = forbidden_key fs "hasError" parsed (field_ok "hasError" _ refl);
            no_message = forbidden_key fs "errorMessage" parsed (field_ok "errorMessage" _ refl);
            no_code = forbidden_key fs "errorCode" parsed (field_ok "errorCode" _ refl);
          }

      has_error :
          find_field "fileStatus" fs ≡ str "rejected"
          → check_keys b true fs rejected_keys fs ≡ true
          → HasError (obj fs)
      has_error e h =
          let field_ok = λ (k : String) (s : Schema) (f : find_key rejected_keys k ≡ some s).
            key_accepted b true fs fs rejected_keys k s f h in
          record {
            status = e;
            error = required_true fs _ (field_ok "hasError" _ refl);
            message = required-IsFilled b true fs _ _ (field_ok "errorMessage" _ refl);
            no_key = forbidden_key fs "s3Key" parsed (field_ok "s3Key" _ refl);
            no_bucket = forbidden_key fs "s3Bucket" parsed (field_ok "s3Bucket" _ refl);
          }

    -- An object from JSON that the schema of an upload accepts has a UUID and a name. It is stored, with its
    -- key, bucket, checksum and size and without an error, or is rejected, with an error message
    -- and without key and bucket, or is pending.
    pub file_upload_schema-IsAdmitted : fields_parsed fs ≡ true → Accepted → IsAdmitted b (obj fs)
    file_upload_schema-IsAdmitted parsed h =
        let (keys, c, r) = parts h in
        let base_ok =
          λ (k : String) (s : Schema) (f : find_key (file_upload_keys mime_types) k ≡ some s).
            key_accepted b true fs fs (file_upload_keys mime_types) k s f keys in
        let (s, e, _, g) = required_text b true fs _ _ (base_ok "fileId" _ refl) in
        let (g', _) = and_true _ _ g in
        record {
          file_id = (s, e, g');
          filename = required-IsFilled b true fs _ _ (base_ok "filename" _ refl);
          status =
              by_status parsed keys c r
                (required-IsOneOf b true fs file_statuses _ (base_ok "fileStatus" _ refl));
        }
      where
        by_status :
            fields_parsed fs ≡ true
            → check_keys b true fs (file_upload_keys mime_types) fs ≡ true
            → check b true p (when_object (has_status "complete") complete_keys) (obj fs) ≡ true
            → check b true p (when_object (has_status "rejected") rejected_keys) (obj fs) ≡ true
            → IsOneOf file_statuses (find_field "fileStatus" fs)
            → HasObject (obj fs)
              ⊎ (HasError (obj fs) ⊎ (find_field "fileStatus" fs ≡ str "pending"))
        by_status parsed keys c r (s, e, here) =
            inl (has_object parsed keys e (when_met p fs "complete" complete_keys refl e c))
        by_status parsed keys c r (s, e, there here) =
            inr (inl (has_error parsed keys e (when_met p fs "rejected" rejected_keys refl e r)))
        by_status parsed keys c r (s, e, there (there here)) = inr (inr e)
        by_status parsed keys c r (s, e, there (there (there m))) = elim m [ ]
