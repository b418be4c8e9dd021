-- ===== src/Schema/Echoed.antt =====
-- The metadata that a client sends at initiation, and what comes back of it in the callback.
use fcp_sfd_object_processor.Common.{
  String, ◌≡◌, refl, inl, inr, Bool, true, false, ◌&&◌, List, str_eq, eq_iff, Bool-cases,
  if◌then◌else◌,
}
use fcp_sfd_object_processor.Json.{
  Json, undefined, null, bool, num, str, oid, arr, obj, Fields, end, field, find_field, has_field,
  put_field, get, has,
}
use fcp_sfd_object_processor.Journey.{journey_id_key}
use fcp_sfd_object_processor.Initiate.{enriched}
use fcp_sfd_object_processor.Schema.{
  Base, Keys, key, no_keys, with_keys, names_key, known, anything, object,
}
use fcp_sfd_object_processor.Schema.Joi.{Joi}
use fcp_sfd_object_processor.Schema.Check.{check, check_keys, accepts-check}
use fcp_sfd_object_processor.Schema.Inversion.{and_true, key_accepted, required_accepted}
use fcp_sfd_object_processor.Schema.Uploader.{
  metadata_keys, callback_metadata_keys, base_metadata_schema, callback_metadata_schema,
}
use fcp_sfd_object_processor.Schema.Payloads.{initiate_keys, initiate_payload_schema}
use fcp_sfd_object_processor.Schema.Parsed.{is_parsed, field_parsed, has_field-of-value}

known-has_field :
    (ks : Keys) (fs : Fields) (k : String)
    → known ks fs ≡ true
    → names_key ks k ≡ false
    → has_field k fs ≡ false
known-has_field ks end k h n = refl
known-has_field ks (field j v fs) k h n =
    let (h0, h1) = and_true (names_key ks j) (known ks fs) h in
    elim (Bool-cases (str_eq j k)) [
      | inr e ↦ rw e (known-has_field ks fs k h1 n)
      | inl e ↦ let q : j ≡ k = (eq_iff j k).0 e in absurd (cc (rw q at h0, n))
    ]

names_key-with_keys :
    (ks more : Keys) (k : String) → names_key ks k ≡ true → names_key (with_keys ks more) k ≡ true
names_key-with_keys no_keys more k h = absurd (cc h)
names_key-with_keys (key j s ks) more k h = elim (Bool-cases (str_eq j k)) [
  | inl e ↦ rw e refl
  | inr e ↦ rw e (names_key-with_keys ks more k (rw e at h))
]

known-with_keys :
    (ks more : Keys) (fs : Fields) → known ks fs ≡ true → known (with_keys ks more) fs ≡ true
known-with_keys ks more end h = refl
known-with_keys ks more (field j v fs) h =
    let (h0, h1) = and_true (names_key ks j) (known ks fs) h in
    rw (names_key-with_keys ks more j h0) (known-with_keys ks more fs h1)

known-put_field :
    (ks : Keys) (k : String) (v : Json) (fs : Fields)
    → names_key ks k ≡ true
    → known ks fs ≡ true
    → known ks (put_field k v fs) ≡ true
known-put_field ks k v end n h = rw n refl
known-put_field ks k v (field j w fs) n h =
    let (h0, h1) = and_true (names_key ks j) (known ks fs) h in
    elim (Bool-cases (str_eq j k)) [
      | inl e ↦ rw e h
      | inr e ↦ rw (e, h0) (known-put_field ks k v fs n h1)
    ]

find_field-put_field :
    (k j : String) (v : Json) (fs : Fields)
    → str_eq k j ≡ false
    → find_field j (put_field k v fs) ≡ find_field j fs
find_field-put_field k j v end n = rw n refl
find_field-put_field k j v (field i w fs) n = elim (Bool-cases (str_eq i k)) [
  | inl e ↦ let q : i ≡ k = (eq_iff i k).0 e in rw (e, q, n) refl
  | inr e ↦ rw e (λ t. if str_eq i j then w else find_field-put_field k j v fs n t)
]

module _ (b : Base) (document_types : List String) (j : String) where
  enriched_keys :
      (p fs : Fields)
      → check_keys b true fs (metadata_keys document_types) fs ≡ true
      → known (metadata_keys document_types) fs ≡ true
      → check b true p (callback_metadata_schema document_types) (enriched (obj fs) j) ≡ true
  unfolding check check_keys callback_metadata_schema
  enriched_keys p fs h k =
      let kept = λ (name : String) (n : str_eq journey_id_key name ≡ false).
        find_field-put_field journey_id_key name (str j) fs n in
      let no_other =
        known-put_field (callback_metadata_keys document_types) journey_id_key (str j) fs refl (
          known-with_keys (metadata_keys document_types) (key journey_id_key anything no_keys) fs
            k) in
      rw
        (
          no_other,
          kept "sbi" refl,
          kept "crn" refl,
          kept "frn" refl,
          kept "submissionId" refl,
          kept "type" refl,
          kept "reference" refl,
          kept "service" refl,
          kept "uosr" refl,
        )
        (and_intro h)
    where
      and_intro : {a : Bool} → a ≡ true → (a && true) ≡ true
      and_intro e = rw e refl

  -- what the schema of the metadata says of the values that it accepts
  metadata_echoed :
      (p q : Fields) (v : Json)
      → is_parsed v ≡ true
      → check b true p (base_metadata_schema document_types) v ≡ true
      → (has v journey_id_key ≡ false)
        × (check b true q (callback_metadata_schema document_types) (enriched v j) ≡ true)
  unfolding check base_metadata_schema is_parsed
  metadata_echoed p q undefined h c = absurd (cc h)
  metadata_echoed p q (oid n) h c = absurd (cc h)
  metadata_echoed p q null h c = absurd (cc c)
  metadata_echoed p q (bool x) h c = absurd (cc c)
  metadata_echoed p q (num n) h c = absurd (cc c)
  metadata_echoed p q (str s) h c = absurd (cc c)
  metadata_echoed p q (arr xs) h c = absurd (cc c)
  metadata_echoed p q (obj fs) h c =
      let (a, k) =
        and_true (check_keys b true fs (metadata_keys document_types) fs)
          (known (metadata_keys document_types) fs) c in
      (
        known-has_field (metadata_keys document_types) fs journey_id_key k refl,
        enriched_keys q fs a k,
      )

  payload_echoed :
      (p q : Fields) (v : Json)
      → is_parsed v ≡ true
      → check b true p (object (initiate_keys document_types)) v ≡ true
      → (has (get v "metadata") journey_id_key ≡ false)
        × (check b true q (callback_metadata_schema document_types) (enriched (get v "metadata") j)
            ≡ true)
  unfolding check is_parsed
  payload_echoed p q undefined h c = absurd (cc h)
  payload_echoed p q (oid n) h c = absurd (cc h)
  payload_echoed p q null h c = absurd (cc c)
  payload_echoed p q (bool x) h c = absurd (cc c)
  payload_echoed p q (num n) h c = absurd (cc c)
  payload_echoed p q (str s) h c = absurd (cc c)
  payload_echoed p q (arr xs) h c = absurd (cc c)
  payload_echoed p q (obj fs) h c =
      let (k, _) =
        and_true (check_keys b true fs (initiate_keys document_types) fs)
          (known (initiate_keys document_types) fs) c in
      let (d, m) =
        required_accepted b true fs (base_metadata_schema document_types) _
          (key_accepted b true fs fs (initiate_keys document_types) "metadata" _ refl k) in
      metadata_echoed fs q _
        (field_parsed "metadata" fs h (has_field-of-value "metadata" fs _ refl d)) m

-- A payload from JSON that the schema of the initiation accepts holds no journey identifier, and
-- whichever identifier is added to its metadata, the schema of the callback accepts the result.
pub initiate_payload_schema-echoed :
    (joi : Joi) (document_types : List String) (j : String) (payload : Json)
    → is_parsed payload ≡ true
    → joi.accepts false end (initiate_payload_schema document_types) payload ≡ true
    → (has (get payload "metadata") journey_id_key ≡ false)
      × (joi.accepts true end
            (callback_metadata_schema document_types)
            (enriched (get payload "metadata") j)
          ≡ true)
unfolding initiate_payload_schema
initiate_payload_schema-echoed joi document_types j payload h c =
    let (n, e) = payload_echoed joi.base document_types j end end payload h (
      rw
        (
          joi.strict_law false end (object (initiate_keys document_types)) payload,
          accepts-check joi true end (object (initiate_keys document_types)) payload,
        )
        at c) in
    (n, rw (accepts-check joi true end (callback_metadata_schema document_types)) e)
