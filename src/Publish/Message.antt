-- ===== src/Publish/Message.antt =====
-- build-document-upload-message-batch.js and publish-batch.js: the messages of a batch.
use Prim.Native.String
use fcp_sfd_object_processor.Common.{ℕ, ◌+◌, String, List, [], ◌∷◌, map, decimal}
use fcp_sfd_object_processor.Json.{Json, get, text_of}
use fcp_sfd_object_processor.Outbox.{Entry}
use fcp_sfd_object_processor.Publish.Env.{Message, RequestEntry, Env}

abbrev text_append : String → String → String
text_append = String.◌++◌

abbrev pad_two : String → String
pad_two (String.◌∷◌ c String.[]) = text_append "0" (String.◌∷◌ c String.[])
pad_two s = s

abbrev upload_date : ℕ × ℕ × ℕ → String
upload_date (day, month, year) =
    text_append (pad_two (decimal day)) (
      text_append "/"
        (text_append (pad_two (decimal (month + 1))) (text_append "/" (decimal year))))

abbrev title_text : Json → String → String
title_text metadata date =
    text_append (text_of (get metadata "reference"))
      (text_append " - CRN " (text_append (text_of (get metadata "crn")) (text_append " - " date)))

-- One round of the map of buildDocumentUploadMessageBatch, which reads the clock twice.
pub build_message : Env → ℕ → Entry → Message
build_message env reads e = record {
  id = e.payload.file.file_id;
  source = "fcp-sfd-object-processor";
  specversion = "1.0";
  type = "uk.gov.fcp.sfd.document.uploaded";
  datacontenttype = "application/json";
  time = env.iso_text (env.clock (reads + 1));
  crn = get e.payload.metadata "crn";
  case_type = get e.payload.metadata "type";
  title = title_text e.payload.metadata (upload_date (env.calendar (env.clock reads)));
  correlation_id = e.payload.messaging.correlation_id;
  files_in_batch = e.payload.messaging.files_in_batch;
  file_id = e.payload.file.file_id;
  file_name = e.payload.file.filename;
  content_type = e.payload.file.content_type;
  url = text_append env.base_url (text_append "/api/v1/blob/" (text_of e.payload.file.file_id));
  sbi = get e.payload.metadata "sbi";
  source_system = get e.payload.metadata "service";
  submission_id = get e.payload.metadata "submissionId";
}

pub build_messages : Env → ℕ → List Entry → List Message
build_messages env reads [] = []
build_messages env reads (e ∷ es) = build_message env reads e ∷ build_messages env (reads + 2) es

-- publishBatch: the file's identifier is the request's
pub request_entries : List Message → List RequestEntry
request_entries ms = map (λ (m : Message). record { id = m.id; message = m }) ms
