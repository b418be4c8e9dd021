-- ===== src/Callback/Checks/Laws.antt =====
-- A file is accepted exactly when it meets the contract of its status.

use fcp_sfd_object_processor.Common.{
  String, ◌≡◌, refl, ◌⊎◌, inl, inr, ◌↔◌, Bool, true, false, not, Option, none, some, ◌||◌, arith,
  eq_iff, is_empty_text, if◌then◌else◌, str_eq, Bool-cases,
}
use fcp_sfd_object_processor.Json.{Json, get, has, truthy, is_text, is_the_text, text_of, str}
use fcp_sfd_object_processor.Callback.Checks.{
  is_base64, check_checksum_format, is_blank, check_error_message_format, at_most_zero, is_finite,
  is_true, check_complete_file, or_check, check_no_object, check_rejected_file,
  check_file_upload_consistency,
}

-- the contract of a complete file
pub record IsComplete (f : Json) : Type 0 where
  pub status : is_the_text (get f "fileStatus") "complete" ≡ true
  pub key : truthy (get f "s3Key") ≡ true
  pub bucket : truthy (get f "s3Bucket") ≡ true
  pub checksum : truthy (get f "checksumSha256") ≡ true
  pub base64 : is_base64 (text_of (get f "checksumSha256")) ≡ true
  pub size_positive : at_most_zero (get f "contentLength") ≡ false
  pub size_finite : is_finite (get f "contentLength") ≡ true
  pub no_error : has f "hasError" ≡ false
  pub no_message : has f "errorMessage" ≡ false

-- the contract of a rejected file
pub record IsRejected (f : Json) : Type 0 where
  pub status : is_the_text (get f "fileStatus") "rejected" ≡ true
  pub error : has f "hasError" ≡ true
  pub error_true : is_true (get f "hasError") ≡ true
  pub message : has f "errorMessage" ≡ true
  pub message_text : is_text (get f "errorMessage") ≡ true
  pub message_filled : is_blank (get f "errorMessage") ≡ false
  pub no_key : has f "s3Key" ≡ false
  pub no_bucket : has f "s3Bucket" ≡ false
  pub no_checksum : has f "checksumSha256" ≡ false

-- a check that passes has passed its first test and the rest
passed :
    (b : Bool) (e : String) {r : Option String}
    → (if b then some e else r) ≡ none
    → (b ≡ false) × (r ≡ none)
passed true e h = absurd (cc h)
passed false e h = (refl, h)

true_of_not : (b : Bool) → not b ≡ false → b ≡ true
true_of_not b h = ground arith

or_false : (a b : Bool) → (a || b) ≡ false → (a ≡ false) × (b ≡ false)
or_false a b h = ground arith

true_of_not-not : (b : Bool) → not (not b) ≡ true → b ≡ true
true_of_not-not b h = ground arith

module _ (f : Json) where
  IsComplete-sound :
      is_the_text (get f "fileStatus") "complete" ≡ true
      → check_complete_file f ≡ none
      → IsComplete f
  unfolding check_complete_file check_checksum_format
  IsComplete-sound s h =
      let (k, h1) = passed (not (truthy (get f "s3Key"))) _ h in
      let (b, h2) = passed (not (truthy (get f "s3Bucket"))) _ h1 in
      let (c, h3) = passed (not (truthy (get f "checksumSha256"))) _ h2 in
      let (l, h4) =
        passed
          (not (truthy (get f "contentLength"))
            || at_most_zero (get f "contentLength")
            || not (is_finite (get f "contentLength")))
          _ h3 in
      let (e, h5) = passed (has f "hasError") _ h4 in
      let (m, h6) = passed (has f "errorMessage") _ h5 in
      let (c', h7) = passed (not (truthy (get f "checksumSha256"))) _ h6 in
      let (l1, l2) =
        or_false (not (truthy (get f "contentLength")) || at_most_zero (get f "contentLength")) _
          l in
      record {
        status = s;
        key = true_of_not _ k;
        bucket = true_of_not _ b;
        checksum = true_of_not _ c;
        base64 = base64_of_check (is_base64 (text_of (get f "checksumSha256"))) _ h7;
        size_positive = (or_false _ _ l1).1;
        size_finite = true_of_not _ l2;
        no_error = e;
        no_message = m;
      }
    where
      base64_of_check : (b : Bool) (e : String) → (if b then none else some e) ≡ none → b ≡ true
      base64_of_check true e h = refl
      base64_of_check false e h = absurd (cc h)

  truthy_of_size :
      at_most_zero (get f "contentLength") ≡ false
      → is_finite (get f "contentLength") ≡ true
      → truthy (get f "contentLength") ≡ true
  truthy_of_size h k = ground arith

  complete_accepted : IsComplete f → check_complete_file f ≡ none
  unfolding check_complete_file check_checksum_format
  complete_accepted c = rw (
    c.key,
    c.bucket,
    c.checksum,
    truthy_of_size c.size_positive c.size_finite,
    c.size_positive,
    c.size_finite,
    c.no_error,
    c.no_message,
    c.base64,
  )

  no_object_sound :
      check_no_object f ≡ none
      → (has f "s3Key" ≡ false) × (has f "s3Bucket" ≡ false) × (has f "checksumSha256" ≡ false)
  unfolding check_no_object
  no_object_sound h = ground arith

  message_sound :
      check_error_message_format (get f "errorMessage") ≡ none
      → (is_text (get f "errorMessage") ≡ true) × (is_blank (get f "errorMessage") ≡ false)
  unfolding check_error_message_format
  message_sound h =
      let (t, h1) = passed (not (is_text (get f "errorMessage"))) _ h in
      let (b, h2) = passed (is_blank (get f "errorMessage")) _ h1 in (true_of_not _ t, b)

  or_check-none : (a b : Option String) → or_check a b ≡ none → (a ≡ none) × (b ≡ none)
  or_check-none none b h = (refl, h)
  or_check-none (some e) b h = absurd (cc h)

  IsRejected-sound :
      is_the_text (get f "fileStatus") "rejected" ≡ true
      → check_rejected_file f ≡ none
      → IsRejected f
  unfolding check_rejected_file
  IsRejected-sound s h =
      let (e, h1) = passed (not (has f "hasError")) _ h in
      let (t, h2) = passed (not (is_true (get f "hasError"))) _ h1 in
      let (m, h3) = passed (not (has f "errorMessage")) _ h2 in
      let (c, n) = or_check-none (check_error_message_format (get f "errorMessage")) _ h3 in
      let (mt, mf) = message_sound c in
      let (k, b, x) = no_object_sound n in
      record {
        status = s;
        error = true_of_not _ e;
        error_true = true_of_not _ t;
        message = true_of_not _ m;
        message_text = mt;
        message_filled = mf;
        no_key = k;
        no_bucket = b;
        no_checksum = x;
      }

  rejected_accepted : IsRejected f → check_rejected_file f ≡ none
  unfolding check_rejected_file check_error_message_format check_no_object
  rejected_accepted r = rw (
    r.error, r.error_true, r.message, r.message_text, r.message_filled, r.no_key, r.no_bucket,
    r.no_checksum,
  )

  text_truthy :
      (v : Json) (t : String) → is_the_text v t ≡ true → is_empty_text t ≡ false → truthy v ≡ true
  text_truthy (str s) t h k = ground (arith, eq_iff s t)
  text_truthy v t h k = cc

  other_text :
      (v : Json) (s t : String)
      → is_the_text v s ≡ true
      → str_eq s t ≡ false
      → is_the_text v t ≡ false
  other_text (str r) s t h k = ground (arith, eq_iff r s, eq_iff r t, eq_iff s t)
  other_text v s t h k = cc

  -- A file passes exactly when it meets the contract of a complete file or that of a rejected file,
  -- or its status is pending.
  pub check_file_upload_consistency-eq-none_iff :
      (check_file_upload_consistency f ≡ none)
      ↔ (IsComplete f ⊎ (IsRejected f ⊎ (is_the_text (get f "fileStatus") "pending" ≡ true)))
  unfolding check_file_upload_consistency
  check_file_upload_consistency-eq-none_iff = (to, from)
    where
      to :
          check_file_upload_consistency f ≡ none
          → IsComplete f ⊎ (IsRejected f ⊎ (is_the_text (get f "fileStatus") "pending" ≡ true))
      to h =
          let (t, h1) = passed (not (truthy (get f "fileStatus"))) _ h in
          elim (Bool-cases (is_the_text (get f "fileStatus") "complete")) [
            | inl c ↦ inl (IsComplete-sound c (rw c at h1))
            | inr nc ↦ elim (Bool-cases (is_the_text (get f "fileStatus") "rejected")) [
              | inl r ↦ inr (inl (IsRejected-sound r (rw (nc, r) at h1)))
              | inr nr ↦ elim (Bool-cases (is_the_text (get f "fileStatus") "pending")) [
                | inl p ↦ inr (inr p)
                | inr np ↦ absurd (cc (rw (nc, nr, np) at h1))
              ]
            ]
          ]

      from :
          IsComplete f ⊎ (IsRejected f ⊎ (is_the_text (get f "fileStatus") "pending" ≡ true))
          → check_file_upload_consistency f ≡ none
      from (inl c) = rw (text_truthy _ "complete" c.status refl, c.status) (complete_accepted c)
      from (inr (inl r)) =
          rw
            (
              text_truthy _ "rejected" r.status refl,
              other_text _ "rejected" "complete" r.status refl,
              r.status,
            )
            (rejected_accepted r)
      from (inr (inr p)) = rw (
        text_truthy _ "pending" p refl,
        other_text _ "pending" "complete" p refl,
        other_text _ "pending" "rejected" p refl,
        p,
      )

  pub IsComplete-only :
      is_the_text (get f "fileStatus") "complete" ≡ true
      → check_file_upload_consistency f ≡ none
      → IsComplete f
  IsComplete-only s h = elim (check_file_upload_consistency-eq-none_iff.0 h) [
    | inl c ↦ c
    | inr (inl r) ↦
        absurd (cc (s, other_text (get f "fileStatus") "rejected" "complete" r.status refl))
    | inr (inr p) ↦ absurd (cc (s, other_text (get f "fileStatus") "pending" "complete" p refl))
  ]
