-- ===== src/Auth.antt =====
-- plugins/auth: which provider a bearer token belongs to, and whether it is allowed. The token's
-- signature and standard claims are checked before by the token library.
pub mod Laws
pub mod Failure
pub mod Tables
use Prim.Native.Char.{code}
use Prim.Native.String
use fcp_sfd_object_processor.Common.{
  ◌==◌, String, Bool, true, false, ◌&&◌, not, str_eq, Option, none, some, List, [], ◌∷◌, ◌++◌, any,
  map, filter, flat_map, is_empty, is_empty_text, if◌then◌else◌, Result, ok, err, message,
}
use fcp_sfd_object_processor.Common.Results.{◌>>=◌}
use fcp_sfd_object_processor.Json.{Json, str, arr, get, truthy, elements, is_the_text}

-- a provider, as createAuthStrategy takes it
pub record Provider : Type 0 where
  pub name : String
  pub jwks_uris : List String
  pub issuers : List String
  pub allowed_list : Json → List String
  pub check_allowed : Json → List String → Bool
  pub empty_list_message : String
  pub unauthorised_message : String

pub record Tenant : Type 0 where
  pub tenant_id : String
  pub allowed_group_ids : List String

pub record AuthConfig : Type 0 where
  pub entra_enabled : Bool
  pub tenants : List Tenant
  pub cognito_enabled : Bool
  pub user_pool_id : String
  pub client_ids : List String

-- `[...new Set(xs)]`: each text once, where it first stands
abbrev pub distinct : List String → List String
distinct [] = []
distinct (x ∷ xs) = x ∷ filter (λ y. not (str_eq x y)) (distinct xs)

-- The calls of `Map.set` that enter each item under all of its issuers, in order.
abbrev pub issuer_table {ℓ} : {A : Type ℓ} → (A → List String) → List A → List (String × A)
issuer_table issuers [] = []
issuer_table issuers (a ∷ rest) = map (λ i. (i, a)) (issuers a) ++ issuer_table issuers rest

-- `Map.get` after these calls: a later call replaces the value of an earlier one.
abbrev pub lookup {ℓ} : {A : Type ℓ} → Json → List (String × A) → Option A
lookup v [] = none
lookup v ((i, a) ∷ rows) = elim (lookup v rows) [
  | none ↦ if is_the_text v i then some a else none
  | some b ↦ some b
]

abbrev pub keys {ℓ} : {A : Type ℓ} → List (String × A) → List String
keys rows = distinct (map (λ r. r.0) rows)

-- buildTenantIssuers
unfoldable pub tenant_issuers : String → List String
tenant_issuers tenant_id =
    String.◌++◌ "https://sts.windows.net/" (String.◌++◌ tenant_id "/")
    ∷ String.◌++◌ "https://login.microsoftonline.com/" (String.◌++◌ tenant_id "/v2.0")
    ∷ []

-- buildIssuerToTenantMap
unfoldable pub tenant_table : List Tenant → List (String × Tenant)
tenant_table tenants = issuer_table (λ (t : Tenant). tenant_issuers t.tenant_id) tenants

abbrev pub groups_of : Json → List Json
groups_of (arr xs) = elements xs
groups_of _ = []

abbrev pub groups_of_tenant : Option Tenant → List String
groups_of_tenant none = []
groups_of_tenant (some t) = t.allowed_group_ids

abbrev tenant_jwks : Tenant → String
tenant_jwks t =
    String.◌++◌ "https://login.microsoftonline.com/"
      (String.◌++◌ t.tenant_id "/discovery/v2.0/keys")

-- getEntraAuthProvider
unfoldable pub entra_provider : List Tenant → Provider
entra_provider tenants = record {
  name = "entra";
  jwks_uris = map tenant_jwks tenants;
  issuers = keys (tenant_table tenants);
  allowed_list = λ payload. groups_of_tenant (lookup (get payload "iss") (tenant_table tenants));
  check_allowed =
      λ payload allowed. any (λ g. any (is_the_text g) allowed) (groups_of (get payload "groups"));
  empty_list_message = "No authorized security groups configured";
  unauthorised_message = "Token does not belong to an authorized Security Group";
}

-- `s.split('_')[0]`
abbrev until_underscore : String → String
until_underscore String.[] = String.[]
until_underscore (String.◌∷◌ c s) =
    if code c == b'_' then String.[] else String.◌∷◌ c (until_underscore s)

unfoldable pub cognito_issuer : String → String
cognito_issuer user_pool_id =
    String.◌++◌ "https://cognito-idp."
      (String.◌++◌ (until_underscore user_pool_id) (String.◌++◌ ".amazonaws.com/" user_pool_id))

-- the provider that getCognitoAuthProvider returns
unfoldable pub cognito_descriptor : AuthConfig → Provider
cognito_descriptor cfg = record {
  name = "cognito";
  jwks_uris = String.◌++◌ (cognito_issuer cfg.user_pool_id) "/.well-known/jwks.json" ∷ [];
  issuers = cognito_issuer cfg.user_pool_id ∷ [];
  allowed_list = λ payload. cfg.client_ids;
  check_allowed = λ payload allowed.
      truthy (get payload "client_id") && any (is_the_text (get payload "client_id")) allowed;
  empty_list_message = "No authorized Cognito client IDs configured";
  unauthorised_message = "Token client_id is not in the list of authorized Cognito client IDs";
}

-- getCognitoAuthProvider
unfoldable pub cognito_provider : AuthConfig → Result Provider
cognito_provider cfg =
    if is_empty_text cfg.user_pool_id
    then err
        (message "AUTH_COGNITO_USER_POOL_ID is required when Cognito authentication is enabled")
    else ok (cognito_descriptor cfg)

-- what `validate` returns: the token, its `sub` and the provider's name, or an error message
pub data Validation : Type 0 where
  valid : Json → Json → String → Validation
  invalid : String → Validation

abbrev pub valid_token_types : List String
valid_token_types = "JWT" ∷ "at+jwt" ∷ []

abbrev pub has_wrong_type : Json → Bool
has_wrong_type payload =
    truthy (get payload "typ") && not (any (is_the_text (get payload "typ")) valid_token_types)

-- issuerToProvider
unfoldable pub provider_table : List Provider → List (String × Provider)
provider_table providers = issuer_table (λ (p : Provider). p.issuers) providers

abbrev pub validate_list : Json → Provider → List String → Validation
validate_list payload p allowed =
    if is_empty allowed
    then invalid p.empty_list_message
    else if p.check_allowed payload allowed
    then valid payload (get payload "sub") p.name
    else invalid p.unauthorised_message

abbrev pub validate_by : Json → Option Provider → Validation
validate_by payload none = invalid "Token issuer is not recognised"
validate_by payload (some p) = validate_list payload p (p.allowed_list payload)

-- the `validate` of createAuthStrategy
unfoldable pub validate : List Provider → Json → Validation
validate providers payload =
    if has_wrong_type payload
    then invalid "Provided token is not an access token"
    else validate_by payload (lookup (get payload "iss") (provider_table providers))

-- what createAuthStrategy gives the token library beside `validate`
pub record Strategy : Type 0 where
  pub key_uris : List String
  pub issuers : List String

unfoldable pub create_auth_strategy : List Provider → Result Strategy
create_auth_strategy [] = err (message "At least one authentication provider is required")
create_auth_strategy (p ∷ ps) = ok (record {
  key_uris = distinct (flat_map (λ (q : Provider). q.jwks_uris) (p ∷ ps));
  issuers = keys (provider_table (p ∷ ps));
})

abbrev pub entra_providers : AuthConfig → List Provider
entra_providers cfg =
    if cfg.entra_enabled && not (is_empty cfg.tenants) then entra_provider cfg.tenants ∷ [] else []

abbrev pub cognito_providers : AuthConfig → Result (List Provider)
cognito_providers cfg =
    if cfg.cognito_enabled then (do p ← cognito_provider cfg; ok (p ∷ [])) else ok []

-- The registration: the providers of the strategy. With none, no strategy is registered, and every
-- route serves unauthenticated requests.
unfoldable pub register : AuthConfig → Result (List Provider)
register cfg = do cognito ← cognito_providers cfg; ok (entra_providers cfg ++ cognito)

-- buildAuthFailureEntity: the document of a blob route whose identifier is a v4 UUID, and otherwise
-- the request
pub data Entity : Type 0 where
  document_entity : Json → Entity
  request_entity : String → Entity

unfoldable pub auth_failure_entity : (Json → Bool) → Bool → Json → String → Entity
auth_failure_entity is_uuid on_blob_route file_id correlation_id =
    if on_blob_route && truthy file_id && is_uuid file_id
    then document_entity file_id
    else request_entity correlation_id
