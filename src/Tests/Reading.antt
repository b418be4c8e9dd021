-- ===== src/Tests/Reading.antt =====
-- Two stored files, the pages of their business, and a URL for one of them.
use fcp_sfd_object_processor.Common.{
  String, ◌≡◌, refl, true, false, some, none, List, [], ◌∷◌, arith, filter, In, ◌⊎◌,
}
use fcp_sfd_object_processor.Json.{Json, str, same}
use fcp_sfd_object_processor.Document.{Stored}
use fcp_sfd_object_processor.Mongo.{AreDistinct, newest_first}
use fcp_sfd_object_processor.Mongo.Lists.{list_collection}
use fcp_sfd_object_processor.Metadata.{is_of_sbi, metadata_page_by_sbi, metadata_page}
use fcp_sfd_object_processor.Metadata.Paging.{read_all, id_of}
use fcp_sfd_object_processor.Metadata.Paging.Complete.{read_all-newest_first}
use fcp_sfd_object_processor.Reading.{
  BlobEnv, blob_found, blob_audit, handle_blob, handle_metadata, answer_page,
}
use fcp_sfd_object_processor.Reading.Laws.{
  is_blob_found, handle_blob-cases, documents_of, IsBlobAudit,
}
use fcp_sfd_object_processor.Tests.Data.{document}

abbrev first : Stored
first = record { id = 1; document = document "one" }

abbrev second : Stored
second = record { id = 2; document = document "two" }

abbrev stored : List Stored
stored = first ∷ second ∷ []

abbrev sbi : Json
sbi = str "105000000"

abbrev header : Json
header = str "trace"

stored-AreDistinct : AreDistinct id_of stored
stored-AreDistinct = ((omega arith, tt), (tt, tt))

read_all-newest_first_example :
    read_all list_collection sbi 1 stored 5 none
    ≡ some (newest_first id_of (filter (is_of_sbi sbi) stored))
read_all-newest_first_example =
    read_all-newest_first list_collection sbi 1 stored stored-AreDistinct 5 (omega arith)
      (omega arith)

abbrev blob_env : BlobEnv
blob_env = record { metadata = list_collection; presign = λ location. some "https://bucket/key" }

handle_blob-cases_example :
    ((s : Stored) × (url : String) × In s stored
      × (same (str "two") s.document.file.file_id ≡ true)
      × (blob_env.presign s.document.s3 ≡ some url)
      × (handle_blob blob_env header (str "two") stored
          ≡ (blob_found url, blob_audit header (str "two") s ∷ []))
      × IsBlobAudit header (str "two") s (blob_audit header (str "two") s))
    ⊎ ((is_blob_found (handle_blob blob_env header (str "two") stored).0 ≡ false)
        × ((handle_blob blob_env header (str "two") stored).1 ≡ []))
handle_blob-cases_example = handle_blob-cases blob_env header (str "two") stored

-- the second page of one document
older_page :
    documents_of (handle_metadata list_collection header sbi 1 (some 2) stored).0 ≡ (first ∷ [])
unfolding handle_metadata answer_page metadata_page_by_sbi metadata_page
older_page = refl
