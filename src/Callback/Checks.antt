-- ===== src/Callback/Checks.antt =====
-- validation/validate-file-upload-consistency.js: the consistency of one uploaded file. The result
-- is `none` for a valid file, and otherwise the error.
pub mod Laws
use Prim.Native.Char.{code}
use Prim.Native.String
use fcp_sfd_object_processor.Common.{
  ℕ, zero, suc, String, Bool, true, false, ◌&&◌, ◌||◌, not, Option, none, some, ◌==◌, leb,
  if◌then◌else◌, is_empty_text, trim,
}
use fcp_sfd_object_processor.Json.{
  Json, undefined, bool, num, str, Number, nat, neg, frac, inf, nan, get, has, truthy, is_text,
  is_the_text, text_of,
}

abbrev in_range : ℕ → ℕ → ℕ → Bool
in_range lo hi c = leb lo c && leb c hi

abbrev is_alphanumeric : ℕ → Bool
is_alphanumeric c = in_range b'A' b'Z' c || in_range b'a' b'z' c || in_range b'0' b'9' c

abbrev is_standard : ℕ → Bool
is_standard c = is_alphanumeric c || c == b'+' || c == b'/'

abbrev is_url_safe : ℕ → Bool
is_url_safe c = is_alphanumeric c || c == b'-' || c == b'_'

abbrev all_padding : String → Bool
all_padding String.[] = true
all_padding (String.◌∷◌ c s) = (code c == b'=') && all_padding s

-- `=*$` or more characters of the class
abbrev rest_matches : (ℕ → Bool) → String → Bool
rest_matches p String.[] = true
rest_matches p (String.◌∷◌ c s) =
    let more = rest_matches p s in if p (code c) then more else (code c == b'=') && all_padding s

-- `^(?:[class]+=*)$`, where the class has no `=`
abbrev matches_base64 : (ℕ → Bool) → String → Bool
matches_base64 p String.[] = false
matches_base64 p (String.◌∷◌ c s) = p (code c) && rest_matches p s

unfoldable pub is_base64 : String → Bool
is_base64 s = matches_base64 is_standard s || matches_base64 is_url_safe s

-- validateChecksumFormat
pub check_checksum_format : Json → Option String
check_checksum_format v =
    if not (truthy v)
    then some "checksumSha256 is required"
    else if is_base64 (text_of v)
    then none
    else some "checksumSha256 must be valid base64"

abbrev pub is_blank : Json → Bool
is_blank (str s) = is_empty_text (trim s)
is_blank _ = false

-- validateErrorMessageFormat
pub check_error_message_format : Json → Option String
check_error_message_format v =
    if not (is_text v)
    then some "errorMessage must be a string"
    else if is_blank v
    then some "errorMessage cannot be empty"
    else none

-- `v <= 0` on a number; for any other value the test for a finite number decides
abbrev pub at_most_zero : Json → Bool
at_most_zero (num (nat n)) = n == 0
at_most_zero (num (neg n)) = true
at_most_zero (num (frac negative t)) = negative
at_most_zero (num (inf negative)) = negative
at_most_zero _ = false

-- `Number.isFinite(v)`
abbrev pub is_finite : Json → Bool
is_finite (num (nat n)) = true
is_finite (num (neg n)) = true
is_finite (num (frac negative t)) = true
is_finite _ = false

abbrev pub is_true : Json → Bool
is_true (bool true) = true
is_true _ = false

-- validateCompleteFile
pub check_complete_file : Json → Option String
check_complete_file f =
    if not (truthy (get f "s3Key"))
    then some "s3Key is required for complete files"
    else if not (truthy (get f "s3Bucket"))
    then some "s3Bucket is required for complete files"
    else if not (truthy (get f "checksumSha256"))
    then some "checksumSha256 is required for complete files"
    else if not (truthy (get f "contentLength"))
        || at_most_zero (get f "contentLength")
        || not (is_finite (get f "contentLength"))
    then some "contentLength must be > 0 for complete files"
    else if has f "hasError"
    then some "hasError must not be present for complete files"
    else if has f "errorMessage"
    then some "errorMessage must not be present for complete files"
    else check_checksum_format (get f "checksumSha256")

abbrev or_check : Option String → Option String → Option String
or_check none later = later
or_check (some e) later = some e

-- what validateRejectedFile forbids once the error message is in order
check_no_object : Json → Option String
check_no_object f =
    if has f "s3Key"
    then some "s3Key must not be present for rejected files"
    else if has f "s3Bucket"
    then some "s3Bucket must not be present for rejected files"
    else if has f "checksumSha256"
    then some "checksumSha256 must not be present for rejected files"
    else none

-- validateRejectedFile
pub check_rejected_file : Json → Option String
unfolding check_no_object
check_rejected_file f =
    if not (has f "hasError")
    then some "hasError is required for rejected files"
    else if not (is_true (get f "hasError"))
    then some "hasError must be true for rejected files"
    else if not (has f "errorMessage")
    then some "errorMessage is required for rejected files"
    else or_check (check_error_message_format (get f "errorMessage")) (check_no_object f)

abbrev unknown_status : String → String
unknown_status s =
    String.◌++◌ "fileStatus must be one of 'complete', 'rejected', 'pending' but was '"
      (String.◌++◌ s "'")

-- validateFileUploadConsistency
pub check_file_upload_consistency : Json → Option String
check_file_upload_consistency f =
    if not (truthy (get f "fileStatus"))
    then some "fileStatus is required"
    else if is_the_text (get f "fileStatus") "complete"
    then check_complete_file f
    else if is_the_text (get f "fileStatus") "rejected"
    then check_rejected_file f
    else if is_the_text (get f "fileStatus") "pending"
    then none
    else some (unknown_status (text_of (get f "fileStatus")))
