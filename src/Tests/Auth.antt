-- ===== src/Tests/Auth.antt =====
-- Instances of the theorems on authentication.
use fcp_sfd_object_processor.Common.{◌≡◌, refl, true, false, List, [], ◌∷◌, ok}
use fcp_sfd_object_processor.Json.{Json, str, arr, obj, nil, cons, end, field}
use fcp_sfd_object_processor.Auth.{
  Provider, AuthConfig, Strategy, tenant_issuers, tenant_table, entra_provider, cognito_issuer,
  cognito_descriptor, cognito_provider, valid, has_wrong_type, provider_table, validate,
  create_auth_strategy, register,
}
use fcp_sfd_object_processor.Auth.Laws.{IsMember, validate-eq-valid}

abbrev configured : AuthConfig
configured = record {
  entra_enabled = true;
  tenants =
      record { tenant_id = "first"; allowed_group_ids = "readers" ∷ [] }
      ∷ record { tenant_id = "second"; allowed_group_ids = "writers" ∷ [] }
      ∷ [];
  cognito_enabled = true;
  user_pool_id = "eu-west-2_pool";
  client_ids = "client" ∷ [];
}

abbrev token : Json
token = obj (
    field "iss" (str "https://sts.windows.net/second/")
      (field "sub" (str "user") (field "groups" (arr (cons (str "writers") nil)) end)))

abbrev both : List Provider
both = entra_provider configured.tenants ∷ cognito_descriptor configured ∷ []

both-registered : register configured ≡ ok both
unfolding register cognito_provider
both-registered = refl

token-validates : validate both token ≡ valid token (str "user") "entra"
unfolding validate provider_table entra_provider cognito_descriptor tenant_table tenant_issuers
    cognito_issuer
token-validates = refl

validate-eq-valid_example :
    (has_wrong_type token ≡ false) × (token ≡ token) × IsMember configured token
validate-eq-valid_example =
    validate-eq-valid configured both token token (str "user") "entra" both-registered
      token-validates

abbrev cognito_only : List Provider
cognito_only = cognito_descriptor configured ∷ []

abbrev cognito_strategy : Strategy
cognito_strategy = record {
  key_uris =
      "https://cognito-idp.eu-west-2.amazonaws.com/eu-west-2_pool/.well-known/jwks.json" ∷ [];
  issuers = "https://cognito-idp.eu-west-2.amazonaws.com/eu-west-2_pool" ∷ [];
}

cognito_strategy-created : create_auth_strategy cognito_only ≡ ok cognito_strategy
unfolding create_auth_strategy provider_table cognito_descriptor cognito_issuer
cognito_strategy-created = refl
