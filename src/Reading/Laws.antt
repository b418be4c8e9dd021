-- ===== src/Reading/Laws.antt =====
-- What the reading routes answer, and what they leave in the audit trail.
use fcp_sfd_object_processor.Common.{
  ℕ, ◌≤◌, String, ◌≡◌, refl, ◌⊎◌, inl, inr, Bool, true, false, Option, none, some, List, [], ◌∷◌,
  length, filter, find-In, take, ◌&&◌, In, ok, Failure, not_found, message, coded, Result-cases,
  Option-cases,
}
use fcp_sfd_object_processor.Json.{Json, get, same, text_of}
use fcp_sfd_object_processor.Audit.{Accounts, build_audit_accounts}
use fcp_sfd_object_processor.Document.{Stored}
use fcp_sfd_object_processor.Mongo.{newest_first}
use fcp_sfd_object_processor.Metadata.{below, is_of_sbi, get_metadata_by_file_id}
use fcp_sfd_object_processor.Reading.{
  ReadAudit, read_audit, MetadataAnswer, metadata_found, metadata_not_found, metadata_internal,
  BlobEnv, generate_presigned_url, BlobAnswer, blob_found, blob_audit, locate_blob, handle_blob,
  answer_failure,
}

abbrev pub is_blob_found : BlobAnswer → Bool
is_blob_found (blob_found url) = true
is_blob_found _ = false

-- What the audit event of a blob says: who asked, the file that was asked for, and the business and
-- the customer of its document.
pub record IsBlobAudit (header file_id : Json) (s : Stored) (a : ReadAudit) : Type 0 where
  pub asked : a.correlation_id ≡ header
  pub named : a.entities ≡ some file_id ∷ []
  pub accounts :
      a.accounts
      ≡ build_audit_accounts (get s.document.metadata "sbi") (get s.document.metadata "crn")

module _ (env : BlobEnv) (header file_id : Json) (c : List Stored) where
  -- the located document is stored, and the URL is for its object
  locate_blob-eq-ok :
      (s : Stored) (url : String)
      → locate_blob env file_id c ≡ ok (s, url)
      → In s c
        × (same file_id s.document.file.file_id ≡ true)
        × (env.presign s.document.s3 ≡ some url)
  unfolding locate_blob get_metadata_by_file_id generate_presigned_url
  locate_blob-eq-ok s url h =
      elim (Option-cases (env.metadata.find_first (λ x. same file_id x.document.file.file_id) c)) [
        | inl e ↦ absurd (cc (rw e at h))
        | inr (x, e) ↦ elim (Option-cases (env.presign x.document.s3)) [
          | inl e' ↦ absurd (cc (rw (e, e') at h))
          | inr (u, e') ↦
              let k = rw (e, e') at h in
              let same_s : x ≡ s = cc k in
              let same_u : u ≡ url = cc k in
              let f =
                find-In (λ x. same file_id x.document.file.file_id) c x
                  (rw (env.metadata.find_first_lem (λ x. same file_id x.document.file.file_id) c) at
                    e) in
              rw (← same_s, ← same_u) (f.0, f.1, e')
        ]
      ]

  not_blob_found : (f : Failure) → is_blob_found (answer_failure f) ≡ false
  not_blob_found (not_found m) = refl
  not_blob_found (message m) = refl
  not_blob_found (coded n m) = refl

  -- A client gets a URL only for the object of a stored document about the file that it asked for,
  -- and then one audit event names that file with the accounts of the document. After every other
  -- answer nothing is audited.
  pub handle_blob-cases :
      ((s : Stored) × (url : String) × In s c
        × (same file_id s.document.file.file_id ≡ true)
        × (env.presign s.document.s3 ≡ some url)
        × (handle_blob env header file_id c ≡ (blob_found url, blob_audit header file_id s ∷ []))
        × IsBlobAudit header file_id s (blob_audit header file_id s))
      ⊎ ((is_blob_found (handle_blob env header file_id c).0 ≡ false)
          × ((handle_blob env header file_id c).1 ≡ []))
  unfolding handle_blob blob_audit
  handle_blob-cases = elim (Result-cases (locate_blob env file_id c)) [
    | inr (f, e) ↦ inr (rw e (not_blob_found f), rw e refl)
    | inl ((s, url), e) ↦
        let (m, q, signed) = locate_blob-eq-ok s url e in
        inl
          (s, url, m, q, signed, rw e refl, record { asked = refl; named = refl; accounts = refl })
  ]

-- how many documents an answer carries, and how many it says it carries
abbrev pub Fits : ℕ → MetadataAnswer → Type 0
Fits page_size (metadata_found documents size count has_more next) =
    (length documents ≤ page_size) × (count ≡ length documents) × (size ≡ page_size)
Fits page_size metadata_not_found = Unit
Fits page_size (metadata_internal f) = Unit

abbrev pub documents_of : MetadataAnswer → List Stored
documents_of (metadata_found documents size count has_more next) = documents
documents_of _ = []

-- what the query of a page is for: the documents of a business below the cursor, newest first
abbrev pub matching : Json → Option ℕ → List Stored → List Stored
matching sbi after c =
    newest_first (λ (s : Stored). s.id) (filter (λ s. is_of_sbi sbi s && below after s) c)

-- The entities of a read: one for each document, known by its file, in their order.
abbrev pub AreEntities : List Stored → List (Option Json) → Type 0
AreEntities [] [] = Unit
AreEntities (s ∷ ss) (e ∷ es) = (e ≡ some s.document.file.file_id) × AreEntities ss es
AreEntities _ _ = ⊥

-- What the audit event of a page says: who asked, which documents were returned, or, without any,
-- one entity that names none, how many they are, and no account but the business.
pub record IsReadAudit (header sbi : Json) (page_size : ℕ) (ss : List Stored) (a : ReadAudit)
    : Type 0 where
  pub asked : a.correlation_id ≡ header
  pub named : AreEntities ss a.entities ⊎ ((ss ≡ []) × (a.entities ≡ none ∷ []))
  pub counted : a.details ≡ some (length ss, page_size)
  pub accounts_of_sbi :
      (x : Accounts) → a.accounts ≡ some x → (x.sbi ≡ some (text_of sbi)) × (x.crn ≡ none)

abbrev Answers : Json → Json → ℕ → List Stored → MetadataAnswer × List ReadAudit → Type 0
Answers header sbi page_size m r =
    Fits page_size r.0
    × (documents_of r.0 ≡ take page_size m)
    × (r.1 ≡ (read_audit header sbi (take page_size m) page_size ∷ []))
