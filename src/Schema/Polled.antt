-- ===== src/Schema/Polled.antt =====
-- The schema of an upload in the upstream's status response, next to that of the callback.
use fcp_sfd_object_processor.Common.{
  ℕ, String, ◌≡◌, refl, ◌⊎◌, inl, inr, Bool, true, false, ◌&&◌, List, [], ◌∷◌, arith, All, All-In,
  is_empty_text, text_length, leb, Bool-cases,
}
use fcp_sfd_object_processor.Json.{Json, str, obj, Fields, end, field, find_field, same}
use fcp_sfd_object_processor.Schema.{
  Base, valid, is_undefined, known, names_key, when_object, required, guid, string,
}
use fcp_sfd_object_processor.Schema.Joi.{Joi}
use fcp_sfd_object_processor.Schema.Check.{check, check_keys, accepts-check}
use fcp_sfd_object_processor.Schema.Inversion.{and_true, or_true, valid-IsOneOf, required_accepted}
use fcp_sfd_object_processor.Schema.Uploader.{texts, file_statuses}
use fcp_sfd_object_processor.Schema.Files.{
  filled, declared_type, detail_keys, file_upload_keys, file_upload_schema, has_status,
  complete_keys, rejected_keys,
}
use fcp_sfd_object_processor.Schema.Status.{
  detected_type, cdp_status_file_keys, cdp_status_file_schema,
}

-- the names of the configured MIME types have characters
abbrev pub AllNamed : List String → Type 0
AllNamed mime_types = All (λ s. is_empty_text s ≡ false) mime_types

and_intro : (a b : Bool) → a ≡ true → b ≡ true → (a && b) ≡ true
and_intro a b h k = rw (h, k) refl

module _ (b : Base) (mime_types : List String) (named : AllNamed mime_types) where
  filled_text :
      (p : Fields) (s : String) → is_empty_text s ≡ false → check b true p filled (str s) ≡ true
  unfolding check
  filled_text p String.[] h = absurd (cc h)
  filled_text p (String.◌∷◌ c s) h = longer (text_length s)
    where
      longer : (n : ℕ) → (leb 1 (ℕ.suc n) && true) ≡ true
      longer n = ground arith

  detected_accepted :
      (p : Fields) (v : Json)
      → check b true p (valid (texts mime_types)) v ≡ true
      → check b true p (detected_type mime_types) v ≡ true
  unfolding check
  detected_accepted p v h = elim (Bool-cases (same (find_field "fileStatus" p) (str "rejected"))) [
    | inr n ↦ rw n h
    | inl r ↦ rw r (as_filled (Bool-cases (is_undefined v)))
  ]
    where
      as_filled :
          (is_undefined v ≡ true) ⊎ (is_undefined v ≡ false) → check b true p filled v ≡ true
      as_filled (inl u) = rw u refl
      as_filled (inr d) =
          let (s, e, m) = valid-IsOneOf mime_types v (or_true _ _ h d) in
          rw e (filled_text p s (All-In (λ t. is_empty_text t ≡ false) mime_types s named m))

  -- the five keys before the details, and the details
  keys_accepted :
      (p fs : Fields)
      → check_keys b true p (file_upload_keys mime_types) fs ≡ true
      → check_keys b true p (cdp_status_file_keys mime_types) fs ≡ true
  unfolding check_keys
  keys_accepted p fs h =
      let id_ok = check b true p (required (string (guid ∷ []))) (find_field "fileId" fs) in
      let name_ok = check b true p (required filled) (find_field "filename" fs) in
      let type_ok = check b true p (declared_type mime_types) (find_field "contentType" fs) in
      let detected_ok =
        check b true p (valid (texts mime_types)) (find_field "detectedContentType" fs) in
      let status_ok =
        check b true p (required (valid (texts file_statuses))) (find_field "fileStatus" fs) in
      let details_ok = check_keys b true p detail_keys fs in
      let (a, h1) =
        and_true id_ok (name_ok && (type_ok && (detected_ok && (status_ok && details_ok)))) h in
      let (c, h2) = and_true name_ok (type_ok && (detected_ok && (status_ok && details_ok))) h1 in
      let (d, h3) = and_true type_ok (detected_ok && (status_ok && details_ok)) h2 in
      let (e, h4) = and_true detected_ok (status_ok && details_ok) h3 in
      let (f, h5) = and_true status_ok details_ok h4 in
      let (_, f') =
        required_accepted b true p (valid (texts file_statuses)) (find_field "fileStatus" fs) f in
      rw (a, c, d, detected_accepted p (find_field "detectedContentType" fs) e, f', h5) refl

  known_alike :
      (fs : Fields)
      → known (file_upload_keys mime_types) fs ≡ true
      → known (cdp_status_file_keys mime_types) fs ≡ true
  known_alike end h = refl
  known_alike (field k v fs) h =
      let (n, h') =
        and_true (names_key (file_upload_keys mime_types) k)
          (known (file_upload_keys mime_types) fs) h in
      rw (n, known_alike fs h') refl

  file_accepted :
      (m : Bool) (p fs : Fields)
      → check b m p (file_upload_schema mime_types) (obj fs) ≡ true
      → check b m p (cdp_status_file_schema mime_types) (obj fs) ≡ true
  unfolding check file_upload_schema cdp_status_file_schema
  file_accepted m p fs h =
      let keys_ok = check_keys b true fs (file_upload_keys mime_types) fs in
      let known_ok = known (file_upload_keys mime_types) fs in
      let complete_ok =
        check b true p (when_object (has_status "complete") complete_keys) (obj fs) in
      let rejected_ok =
        check b true p (when_object (has_status "rejected") rejected_keys) (obj fs) in
      let (h1, r) = and_true ((keys_ok && known_ok) && complete_ok) rejected_ok h in
      let (h2, c) = and_true (keys_ok && known_ok) complete_ok h1 in
      let (k, n) = and_true keys_ok known_ok h2 in
      and_intro _ rejected_ok
        (and_intro _ complete_ok (and_intro _ _ (keys_accepted fs fs k) (known_alike fs n)) c) r

-- An upload that the schema of the callback accepts, the schema of the upstream's status response
-- accepts too, if the names of the configured MIME types have characters.
pub file_upload_schema-polled :
    (joi : Joi) (mime_types : List String) (m : Bool) (p fs : Fields)
    → AllNamed mime_types
    → joi.accepts m p (file_upload_schema mime_types) (obj fs) ≡ true
    → joi.accepts m p (cdp_status_file_schema mime_types) (obj fs) ≡ true
file_upload_schema-polled joi mime_types m p fs named h =
    rw (accepts-check joi m p (cdp_status_file_schema mime_types) (obj fs)) (
      file_accepted joi.base mime_types named m p fs
        (rw (accepts-check joi m p (file_upload_schema mime_types) (obj fs)) at h))
