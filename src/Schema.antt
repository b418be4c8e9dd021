-- ===== src/Schema.antt =====
-- The calls of the schema library that the source's schemas are built from, as data, and the tests
-- of values that its documentation describes. Descriptions, labels, examples and messages are left
-- out, and so is the value that an accepted one is converted to.
pub mod Joi
pub mod Check
pub mod Inversion
pub mod Parsed
pub mod Uploader
pub mod Uploads
pub mod Forms
pub mod Callbacks
pub mod Stages
pub mod Echoed
pub mod Polled
pub mod Tables
pub mod Files
pub mod Payloads
pub mod Status
pub mod Metadata
pub mod Responses
use fcp_sfd_object_processor.Common.{
  ℕ, suc, String, Bool, true, false, ◌&&◌, ◌||◌, not, Option, none, some, List, [], ◌∷◌, leb, ◌==◌,
  if◌then◌else◌, str_eq, is_empty_text, text_length, all,
}
use fcp_sfd_object_processor.Formats.Patterns.{all_chars, is_hex}
use fcp_sfd_object_processor.Json.{
  Json, undefined, bool, num, str, oid, arr, obj, Number, nat, neg, frac, Items, nil, Fields, end,
  field, has_field, elements,
}

-- `.min(n)` and `.max(n)` of an integer
pub data NumberRule : Type 0 where
  at_least at_most : ℕ → NumberRule

-- `.min(n)`, `.max(n)`, `.length(n)`, `.pattern(re)`, `.hex()` and `.guid({ version: ['uuidv4'] })`
pub data StringRule : Type 0 where
  min_length max_length exact_length : ℕ → StringRule
  pattern : (String → Bool) → StringRule
  hex guid : StringRule

mutual
  pub data Schema : Type 0 where
    -- `Joi.any()`, `Joi.boolean()`, `Joi.number()` and `Joi.forbidden()`
    anything boolean number forbidden : Schema
    -- `Joi.number().integer()` with its bounds
    integer : List NumberRule → Schema
    -- `Joi.string()` with its rules
    string : List StringRule → Schema
    -- `.valid(...)`
    valid : List Json → Schema
    -- `Joi.array().items(s)`
    array : Schema → Schema
    -- `Joi.object({ ... })`, the same with `.unknown()` (also `Joi.object()`), and
    -- `Joi.object().pattern(key, value)`
    object : Keys → Schema
    loose : Keys → Schema
    entries_of : Schema → Schema → Schema
    -- `Joi.alternatives().try(a, b)`
    either : Schema → Schema → Schema
    -- `Joi.alternatives().conditional(key, { is, then, otherwise })`
    conditional : String → Json → Schema → Schema → Schema
    -- what `.when(condition, { then: Joi.object({ ... }) })` adds to an object: the keys of `then`
    when_object : Schema → Keys → Schema
    -- `a.when(...)`: what the condition adds to `a`
    also : Schema → Schema → Schema
    -- `object.min(n)`, `.custom(test)`, `.required()` and `.strict()`
    min_keys : ℕ → Schema → Schema
    custom : (Json → Bool) → Schema → Schema
    required : Schema → Schema
    strict : Schema → Schema

  pub data Keys : Type 0 where
    no_keys : Keys
    key : String → Schema → Keys → Keys

-- `{ ...a, ...b }` and `.keys(...)`, for keys that differ
abbrev pub with_keys : Keys → Keys → Keys
with_keys no_keys more = more
with_keys (key k s ks) more = key k s (with_keys ks more)

abbrev pub names_key : Keys → String → Bool
names_key no_keys k = false
names_key (key j s ks) k = str_eq j k || names_key ks k

-- no field but those that the schema names
abbrev pub known : Keys → Fields → Bool
known ks end = true
known ks (field k v fs) = names_key ks k && known ks fs

abbrev pub is_undefined : Json → Bool
is_undefined undefined = true
is_undefined _ = false

abbrev pub is_boolean : Json → Bool
is_boolean (bool b) = true
is_boolean _ = false

-- `Number.MAX_SAFE_INTEGER`
abbrev max_safe : ℕ
max_safe = 9007199254740991

-- A number is finite and, if it is an integer, safe.
abbrev pub is_number : Json → Bool
is_number (num (nat n)) = leb n max_safe
is_number (num (neg n)) = leb (suc n) max_safe
is_number (num (frac s t)) = true
is_number _ = false

abbrev pub number_rule : ℕ → NumberRule → Bool
number_rule n (at_least lo) = leb lo n
number_rule n (at_most hi) = leb n hi

-- a rule about a negative number
abbrev pub negative_rule : NumberRule → Bool
negative_rule (at_least lo) = false
negative_rule (at_most hi) = true

abbrev pub is_integer : List NumberRule → Json → Bool
is_integer rs (num (nat n)) = leb n max_safe && all (number_rule n) rs
is_integer rs (num (neg n)) = leb (suc n) max_safe && all negative_rule rs
is_integer rs _ = false

-- What the documentation leaves to the library: the v4 UUIDs, what a text is converted to outside
-- strict mode (to a number, a boolean, an array or an object), and the own keys of an ObjectId.
pub data Kind : Type 0 where
  to_number to_boolean to_array to_object : Kind

pub record Base : Type 0 where
  pub is_guid : String → Bool
  pub converted : Kind → String → Json
  pub own_keys : ℕ → Fields

abbrev pub string_rule : Base → String → StringRule → Bool
string_rule b s (min_length n) = leb n (text_length s)
string_rule b s (max_length n) = leb (text_length s) n
string_rule b s (exact_length n) = text_length s == n
string_rule b s (pattern p) = p s
string_rule b s hex = all_chars is_hex s
string_rule b s guid = b.is_guid s

-- The empty text is refused.
abbrev pub is_string : Base → List StringRule → Json → Bool
is_string b rs (str s) = not (is_empty_text s) && all (string_rule b s) rs
is_string b rs _ = false

-- a value as the schema reads it: in strict mode, and if it is no text, as it stands
abbrev pub coerced : Base → Bool → Kind → Json → Json
coerced b true k v = v
coerced b false k (str s) = b.converted k s
coerced b false k v = v

abbrev pub items_of : Json → Option Items
items_of (arr xs) = some xs
items_of _ = none

abbrev pub fields_of : Base → Json → Option Fields
fields_of b (obj fs) = some fs
fields_of b (oid n) = some (b.own_keys n)
fields_of b _ = none

abbrev pub holds : {A : Type 0} → (A → Bool) → Option A → Bool
holds p none = false
holds p (some x) = p x

abbrev pub field_count : Fields → ℕ
field_count end = 0
field_count (field k v fs) = suc (field_count fs)
