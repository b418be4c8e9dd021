-- ===== src/Tests/Formats.antt =====
-- Lists of security groups, as the environment gives them.
use fcp_sfd_object_processor.Common.{◌≡◌, refl, ◌↔◌, ok, err, message}
use fcp_sfd_object_processor.Json.{Json, str, arr, cons, nil}
use fcp_sfd_object_processor.Formats.{
  group_error, validate_client_ids, coerce_client_ids, validate_mime_types, coerce_mime_types,
  validate_security_groups, coerce_security_groups,
}
use fcp_sfd_object_processor.Formats.Patterns.{is_client_id, is_mime_type, is_uuid, is_uuid_list}
use fcp_sfd_object_processor.Formats.Laws.{Loads, validate-Loads}

abbrev two_groups : Json
two_groups = str "0a1b2c3d-0000-4000-8000-00000000000F,0a1b2c3d-0000-4000-8000-000000000001"

validate-Loads_example :
    ((validate_client_ids two_groups ≡ ok tt) ↔ Loads is_client_id (coerce_client_ids two_groups))
    × ((validate_mime_types two_groups ≡ ok tt) ↔ Loads is_mime_type (coerce_mime_types two_groups))
    × ((validate_security_groups two_groups ≡ ok tt)
        ↔ Loads is_uuid (coerce_security_groups two_groups))
validate-Loads_example = validate-Loads two_groups

groups_accepted : validate_security_groups two_groups ≡ ok tt
unfolding validate_security_groups is_uuid_list
groups_accepted = refl

groups_loaded :
    coerce_security_groups two_groups
    ≡ ok (
        arr (
          cons
            (str "0a1b2c3d-0000-4000-8000-00000000000F")
            (cons (str "0a1b2c3d-0000-4000-8000-000000000001") nil)))
unfolding coerce_security_groups
groups_loaded = refl

open_list :
    validate_security_groups (str "0a1b2c3d-0000-4000-8000-00000000000F,")
    ≡ err (message group_error)
unfolding validate_security_groups is_uuid_list
open_list = refl

media_types : validate_mime_types (str "application/pdf,image/svg+xml") ≡ ok tt
unfolding validate_mime_types is_mime_type
media_types = refl
