-- ===== src/Formats/Tenants.antt =====
-- config/formats/entra-tenants-array.js. The schema library and the JSON parser are parameters.
use Prim.Native.String.{String}
use fcp_sfd_object_processor.Common.{
  ◌≡◌, refl, ◌⊎◌, inl, inr, Bool, false, ◌&&◌, ◌||◌, Option, none, some, List, [], ◌∷◌, is_empty,
  str_eq, includes, ends_with, if◌then◌else◌, Result, ok, err, message, Bool-cases, Option-cases,
}
use fcp_sfd_object_processor.Common.Results.{◌>>=◌}
use fcp_sfd_object_processor.Json.{Json, null, num, str, arr, nat, nil, to_items, same, text_of}
use fcp_sfd_object_processor.Formats.{is_blank}

-- a detail of the schema library's error, where a missing path is empty and a missing message is ""
pub record Detail : Type 0 where
  pub path : List Json
  pub type : String
  pub message : String

pub record SchemaError : Type 0 where
  pub details : List Detail
  pub message : String

pub record TenantEnv : Type 0 where
  pub parse_json : String → Option Json
  pub schema : Json → Option SchemaError

abbrev path_text : Detail → String
path_text d = text_of (arr (to_items d.path))

-- parseTenantArray
unfoldable pub parse_tenant_array : TenantEnv → Json → Result Json
parse_tenant_array env (arr items) = ok (arr items)
parse_tenant_array env (str s) = elim (env.parse_json s) [
  | none ↦ err (message "AUTH_ENTRA_TENANTS must be valid JSON")
  | some v ↦ ok v
]
parse_tenant_array env v = err (message "Must be an array of tenant configs")

abbrev pub is_top_level_array_error : Detail → Bool
is_top_level_array_error d =
    is_empty d.path && (str_eq d.type "array.base" || includes "must be an array" d.message)

abbrev is_first : List Json → Bool
is_first [] = false
is_first (p ∷ ps) = is_empty ps && same p (num (nat 0))

abbrev pub is_tenant_object_error : Detail → Bool
is_tenant_object_error d =
    is_first d.path
    && (includes "must be of type object" d.message || includes "must be an object" d.message)

abbrev pub is_tenant_id_error : Detail → Bool
is_tenant_id_error d = ends_with "tenantId" (path_text d)

abbrev pub is_allowed_group_ids_array_error : Detail → Bool
is_allowed_group_ids_array_error d =
    ends_with "allowedGroupIds" (path_text d)
    && (str_eq d.type "array.base" || includes "must be an array" d.message)

abbrev pub is_allowed_group_ids_min_error : Detail → Bool
is_allowed_group_ids_min_error d =
    ends_with "allowedGroupIds" (path_text d)
    && (str_eq d.type "array.min"
        || (includes "contain at least" d.message || includes "at least 1 items" d.message))

-- the last two patterns of the source hold the first two
abbrev pub is_allowed_group_ids_guid_error : Detail → Bool
is_allowed_group_ids_guid_error d =
    includes "valid GUID" d.message || includes "valid guid" d.message

-- the message of what mapJoiError throws
unfoldable pub map_joi_error : SchemaError → String
map_joi_error e = elim e.details [
  | [] ↦ e.message
  | d ∷ ds ↦
      if is_top_level_array_error d
      then "Must be an array of tenant configs"
      else if is_tenant_object_error d
      then "Each tenant must be an object with tenantId and allowedGroupIds"
      else if is_tenant_id_error d
      then "tenantId must be a non-empty string"
      else if is_allowed_group_ids_array_error d || is_allowed_group_ids_min_error d
      then "allowedGroupIds must be a non-empty array of UUIDs"
      else if is_allowed_group_ids_guid_error d
      then "allowedGroupIds must contain only valid UUID strings"
      else e.message
]

abbrev pub check_tenants : TenantEnv → Json → Result {0} Unit
check_tenants env tenants = elim (env.schema tenants) [
  | none ↦ ok tt
  | some e ↦ err (message (map_joi_error e))
]

-- validate
unfoldable pub validate_tenants : TenantEnv → Json → Result {0} Unit
validate_tenants env v =
    if is_blank v then ok tt else (parse_tenant_array env v >>= check_tenants env)

-- coerce
unfoldable pub coerce_tenants : TenantEnv → Json → Result Json
coerce_tenants env (arr items) = ok (arr items)
coerce_tenants env (str s) =
    if is_blank (str s) then ok (arr nil) else parse_tenant_array env (str s)
coerce_tenants env null = ok (arr nil)
coerce_tenants env v = ok v

check_tenants-ok : (env : TenantEnv) (v : Json) → check_tenants env v ≡ ok tt → env.schema v ≡ none
check_tenants-ok env v h = elim (Option-cases (env.schema v)) [
  | inl e ↦ e
  | inr (f, e) ↦ absurd (cc (rw (check_tenants, e) at h))
]

-- What is loaded of accepted tenants is the empty list, or has passed the schema.
pub validate_tenants-checked :
    (env : TenantEnv) (v : Json)
    → validate_tenants env v ≡ ok tt
    → (w : Json) × (coerce_tenants env v ≡ ok w) × ((w ≡ arr nil) ⊎ (env.schema w ≡ none))
unfolding validate_tenants coerce_tenants parse_tenant_array
validate_tenants-checked env (arr items) h =
    (arr items, refl, inr (check_tenants-ok env (arr items) h))
validate_tenants-checked env null h = (arr nil, refl, inl refl)
validate_tenants-checked env (str s) h = elim (Bool-cases (is_blank (str s))) [
  | inl b ↦ (arr nil, rw b refl, inl refl)
  | inr b ↦ elim (Option-cases (env.parse_json s)) [
    | inl e ↦ absurd (cc (rw (b, parse_tenant_array, e) at h))
    | inr (w, e) ↦ (
      w,
      rw (b, parse_tenant_array, e) refl,
      inr (check_tenants-ok env w (rw (b, parse_tenant_array, e) at h)),
    )
  ]
]
validate_tenants-checked env v h = absurd (cc h)
