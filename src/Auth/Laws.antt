-- ===== src/Auth/Laws.antt =====
-- Which tokens are admitted.
use fcp_sfd_object_processor.Common.{
  ◌≡◌, ◌≢◌, refl, ◌⊎◌, inl, inr, ◌↔◌, String, true, false, ◌&&◌, not, Option, none, some, List, [],
  ◌∷◌, ◌++◌, any, map, is_empty, arith, ok, Bool-cases, Result-cases, Option-cases, is_empty_text,
  All, All-append, In, any-true, All-In,
}
use fcp_sfd_object_processor.Json.{Json, get, truthy, is_the_text}
use fcp_sfd_object_processor.Auth.{
  Provider, Tenant, AuthConfig, issuer_table, lookup, keys, tenant_issuers, tenant_table, groups_of,
  groups_of_tenant, entra_provider, cognito_issuer, cognito_descriptor, cognito_provider, valid,
  has_wrong_type, provider_table, validate_list, validate, Strategy, create_auth_strategy,
  entra_providers, cognito_providers, register,
}
use fcp_sfd_object_processor.Auth.Tables.{IsOneOf, found-IsRow, In-distinct, In-lookup}

-- A group of the token, or its client, is on a list.
abbrev pub IsMember : AuthConfig → Json → Type 0
IsMember cfg payload =
    ((cfg.entra_enabled ≡ true)
      × (t : Tenant) × In t cfg.tenants
      × IsOneOf (get payload "iss") (tenant_issuers t.tenant_id)
      × (g : Json) × In g (groups_of (get payload "groups"))
      × IsOneOf g t.allowed_group_ids)
    ⊎ ((cfg.cognito_enabled ≡ true)
        × IsOneOf (get payload "iss") (cognito_issuer cfg.user_pool_id ∷ [])
        × IsOneOf (get payload "client_id") cfg.client_ids)

validate_list-eq-valid :
    (payload : Json) (p : Provider) (allowed : List String) (token subject : Json) (name : String)
    → validate_list payload p allowed ≡ valid token subject name
    → (is_empty allowed ≡ false) × (p.check_allowed payload allowed ≡ true) × (token ≡ payload)
validate_list-eq-valid payload p allowed token subject name h =
    elim (Bool-cases (is_empty allowed)) [
      | inl t ↦ absurd (cc (rw t at h))
      | inr t ↦ elim (Bool-cases (p.check_allowed payload allowed)) [
        | inl s ↦ (t, s, cc (rw (t, s) at h))
        | inr s ↦ absurd (cc (rw (t, s) at h))
      ]
    ]

group_of_tenant :
    (v : Json) (groups : List Json) (tenants : List Tenant) (found : Option Tenant)
    → lookup v (tenant_table tenants) ≡ found
    → any (λ g. any (is_the_text g) (groups_of_tenant found)) groups ≡ true
    → (t : Tenant) × In t tenants
      × IsOneOf v (tenant_issuers t.tenant_id)
      × (g : Json) × In g groups
      × IsOneOf g t.allowed_group_ids
unfolding tenant_table
group_of_tenant v groups tenants none e h =
    let (g, m, q) = any-true (λ g. false) groups h in absurd (cc q)
group_of_tenant v groups tenants (some t) e h =
    let (m, i) = found-IsRow (λ (x : Tenant). tenant_issuers x.tenant_id) tenants v t e in
    let (g, n, q) = any-true (λ g. any (is_the_text g) t.allowed_group_ids) groups h in
    (t, m, i, g, n, any-true (is_the_text g) t.allowed_group_ids q)

-- where a provider of the strategy comes from
abbrev IsRegistered : AuthConfig → Provider → Type 0
IsRegistered cfg p =
    ((cfg.entra_enabled ≡ true) × (p ≡ entra_provider cfg.tenants))
    ⊎ ((cfg.cognito_enabled ≡ true) × (p ≡ cognito_descriptor cfg))

module _ (cfg : AuthConfig) where
  entra_providers-IsRegistered : All (IsRegistered cfg) (entra_providers cfg)
  entra_providers-IsRegistered =
      elim (Bool-cases (cfg.entra_enabled && not (is_empty cfg.tenants))) [
        | inl t ↦ rw t (inl (ground arith, refl), tt)
        | inr t ↦ rw t tt
      ]

  cognito_providers-IsRegistered :
      (ps : List Provider) → cognito_providers cfg ≡ ok ps → All (IsRegistered cfg) ps
  unfolding cognito_provider
  cognito_providers-IsRegistered ps h = elim (Bool-cases cfg.cognito_enabled) [
    | inr t ↦ let same : [] ≡ ps = cc (rw t at h) in rw (← same) tt
    | inl t ↦ elim (Bool-cases (is_empty_text cfg.user_pool_id)) [
      | inl e ↦ absurd (cc (rw (t, e) at h))
      | inr e ↦
          let same : cognito_descriptor cfg ∷ [] ≡ ps = cc (rw (t, e) at h) in
          rw (← same) (inr (t, refl), tt)
    ]
  ]

  register-IsRegistered : (ps : List Provider) → register cfg ≡ ok ps → All (IsRegistered cfg) ps
  unfolding register
  register-IsRegistered ps h = elim (Result-cases (cognito_providers cfg)) [
    | inr (f, e) ↦ absurd (cc (rw e at h))
    | inl (qs, e) ↦
        let same : entra_providers cfg ++ qs ≡ ps = cc (rw e at h) in
        rw (← same) (
          All-append (IsRegistered cfg) (entra_providers cfg) qs entra_providers-IsRegistered
            (cognito_providers-IsRegistered qs e))
  ]

  provider-IsMember :
      (payload : Json) (p : Provider)
      → IsRegistered cfg p
      → IsOneOf (get payload "iss") p.issuers
      → p.check_allowed payload (p.allowed_list payload) ≡ true
      → IsMember cfg payload
  unfolding entra_provider cognito_descriptor
  provider-IsMember payload p (inl (t, same)) i h =
      let (x, m, j, g, n, o) =
        group_of_tenant (get payload "iss") _ cfg.tenants _ refl (rw same at h) in
      inl (t, x, m, j, g, n, o)
  provider-IsMember payload p (inr (t, same)) i h =
      let listed : (truthy (get payload "client_id")
            && any (is_the_text (get payload "client_id")) cfg.client_ids)
          ≡ true =
        rw same at h in
      inr (t, rw same at i, any-true (is_the_text (get payload "client_id")) _ (ground arith))

  -- Whatever providers are registered, a token is admitted only if its type is none or one of an
  -- access token, and either one of the configured tenants issued it and a group of the token is
  -- allowed for that same tenant, where Entra is enabled; or the user pool issued it and its client
  -- is on the list, where Cognito is enabled. No group of one tenant admits a token of another.
  pub validate-eq-valid :
      (providers : List Provider) (payload token subject : Json) (name : String)
      → register cfg ≡ ok providers
      → validate providers payload ≡ valid token subject name
      → (has_wrong_type payload ≡ false) × (token ≡ payload) × IsMember cfg payload
  unfolding validate provider_table
  validate-eq-valid providers payload token subject name r h =
      elim (Bool-cases (has_wrong_type payload)) [
        | inl t ↦ absurd (cc (rw t at h))
        | inr t ↦ elim (Option-cases (lookup (get payload "iss") (provider_table providers))) [
          | inl e ↦ absurd (cc (rw (t, e) at h))
          | inr (p, e) ↦
              let (m, i) =
                found-IsRow (λ (x : Provider). x.issuers) providers (get payload "iss") p e in
              let (n, c, same) =
                validate_list-eq-valid payload p (p.allowed_list payload) token subject name
                  (rw (t, e) at h) in
              (
                t,
                same,
                provider-IsMember payload p
                    (All-In (IsRegistered cfg) providers p (register-IsRegistered providers r) m) i
                    c,
              )
        ]
      ]

  -- No strategy is registered, so that every route is served without authentication, exactly when
  -- Cognito is disabled, and Entra is disabled or has no tenant.
  pub register-eq-nil_iff : (register cfg ≡ ok []) ↔ (
      (cfg.cognito_enabled ≡ false) × ((cfg.entra_enabled ≡ false) ⊎ (is_empty cfg.tenants ≡ true)))
  unfolding register cognito_provider
  register-eq-nil_iff = (to, from)
    where
      not_nil : (ps : List Provider) (p : Provider) → ps ++ (p ∷ []) ≢ []
      not_nil [] p = λ h. cc h
      not_nil (q ∷ ps) p = λ h. cc h

      cognito_on : cfg.cognito_enabled ≡ true → register cfg ≡ ok [] → ⊥
      cognito_on t h = elim (Bool-cases (is_empty_text cfg.user_pool_id)) [
        | inl e ↦ absurd (cc (rw (t, e) at h))
        | inr e ↦ not_nil (entra_providers cfg) (cognito_descriptor cfg) (cc (rw (t, e) at h))
      ]

      to :
          register cfg ≡ ok []
          → (cfg.cognito_enabled ≡ false)
            × ((cfg.entra_enabled ≡ false) ⊎ (is_empty cfg.tenants ≡ true))
      to h = elim (Bool-cases cfg.cognito_enabled) [
        | inl t ↦ absurd (cognito_on t h)
        | inr t ↦ elim (Bool-cases (cfg.entra_enabled && not (is_empty cfg.tenants))) [
          | inl e ↦ absurd (cc (rw (t, e) at h))
          | inr e ↦ (t, ground arith)
        ]
      ]

      from :
          (cfg.cognito_enabled ≡ false)
            × ((cfg.entra_enabled ≡ false) ⊎ (is_empty cfg.tenants ≡ true))
          → register cfg ≡ ok []
      from (c, inl e) = rw (c, e) refl
      from (c, inr e) = elim (Bool-cases cfg.entra_enabled) [
        | inl t ↦ rw (c, e, t) refl
        | inr t ↦ rw (c, t) refl
      ]

-- A token whose issuer is one that the strategy verifies has a provider: the answer that its issuer
-- is not recognised is out of reach.
pub create_auth_strategy-eq-ok :
    (providers : List Provider) (s : Strategy) (v : Json)
    → create_auth_strategy providers ≡ ok s
    → IsOneOf v s.issuers
    → (p : Provider) × (lookup v (provider_table providers) ≡ some p) × IsOneOf v p.issuers
unfolding create_auth_strategy provider_table
create_auth_strategy-eq-ok [] s v h i = absurd (cc h)
create_auth_strategy-eq-ok (q ∷ providers) s v h (i, m, t) =
    let rows = issuer_table (λ (p : Provider). p.issuers) (q ∷ providers) in
    let same : keys rows ≡ s.issuers = cc h in
    let (p, e) = In-lookup v i rows t (In-distinct i (map (λ r. r.0) rows) (rw (← same) at m)) in
    (p, e, (found-IsRow (λ (x : Provider). x.issuers) (q ∷ providers) v p e).1)
