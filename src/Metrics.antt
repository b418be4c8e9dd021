-- ===== src/Metrics.antt =====
-- api/common/helpers/metrics.js and constants/metrics.js: the dimensions that a metric is sent
-- with. The metrics library is a parameter.
pub mod Laws
use fcp_sfd_object_processor.Common.{
  ℕ, String, Bool, true, false, Option, none, some, List, [], ◌∷◌, any, str_eq, if◌then◌else◌,
}
use fcp_sfd_object_processor.Json.{Json, Fields, end, field, put_field}

abbrev pub allowed_metric_dimension_keys : List String
allowed_metric_dimension_keys = "reason" ∷ "route" ∷ "outcome" ∷ []

abbrev pub is_allowed : String → Bool
is_allowed key = any (str_eq key) allowed_metric_dimension_keys

-- the loop of sanitiseDimensions over the keys
abbrev pub sanitise_onto : Fields → Fields → Fields
sanitise_onto allowed end = allowed
sanitise_onto allowed (field key v dimensions) =
    sanitise_onto (if is_allowed key then put_field key v allowed else allowed) dimensions

-- sanitiseDimensions
unfoldable pub sanitise_dimensions : Fields → Fields
sanitise_dimensions dimensions = sanitise_onto end dimensions

-- metricsCounter, metricsGauge and metricsMillis, by the library's method: its call, if one is made
unfoldable pub send_metric :
    {R : Type 0} → Bool → (String → ℕ → Fields → R) → String → ℕ → Fields → Option R
send_metric enabled method name value dimensions =
    if enabled then some (method name value (sanitise_dimensions dimensions)) else none
