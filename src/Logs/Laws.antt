-- ===== src/Logs/Laws.antt =====
-- What a log line can tell of a response.

use fcp_sfd_object_processor.Common.{◌≡◌, refl, ap, ◌∙◌, sym, List, [], ◌∷◌, map}
use fcp_sfd_object_processor.Json.{Json}
use fcp_sfd_object_processor.Logs.{
  Detail, ValidationError, join, join_texts, format_field_paths,
  build_response_validation_failure_log, response_fail_action,
}

abbrev pub paths : ValidationError → List (List Json)
paths e = map (λ (d : Detail). d.path) e.details

map-join :
    (ds : List Detail)
    → map (λ (d : Detail). join "." d.path) ds ≡ map (join ".") (map (λ (d : Detail). d.path) ds)
map-join [] = refl
map-join (d ∷ ds) = ap (λ r. join "." d.path ∷ r) (map-join ds)

format_field_paths-eq :
    (e f : ValidationError) → paths e ≡ paths f → format_field_paths e ≡ format_field_paths f
format_field_paths-eq e f h =
    ap (join_texts ", ") (map-join e.details ∙ (ap (map (join ".")) h ∙ sym (map-join f.details)))

-- A response that fails its schema is logged, and answered, by the paths of the failing fields
-- alone: two failures with the same paths cannot be told apart, whatever values, messages
-- and stack the schema library reports.
pub response_fail_action-eq :
    (request : Json) (e f : ValidationError)
    → paths e ≡ paths f
    → response_fail_action request e ≡ response_fail_action request f
unfolding response_fail_action build_response_validation_failure_log
response_fail_action-eq request e f h = rw (format_field_paths-eq e f h) refl
