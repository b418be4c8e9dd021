-- ===== src/Schema/Joi.antt =====
-- The schema library, which the source only calls: whether it accepts a value. The laws state for
-- each call what the library's documentation says of it. `strict` is the mode without conversion,
-- and `p` holds the fields of the object that the value stands in.
use fcp_sfd_object_processor.Common.{
  ℕ, String, ◌≡◌, Bool, true, ◌&&◌, ◌||◌, not, all, leb, if◌then◌else◌,
}
use fcp_sfd_object_processor.Json.{Json, str, Items, Fields, end, field, find_field, elements, same}
use fcp_sfd_object_processor.Schema.{
  Schema, Keys, no_keys, key, NumberRule, StringRule, Base, to_number, to_boolean, to_array,
  to_object, anything, boolean, number, forbidden, integer, string, valid, array, object, loose,
  entries_of, either, conditional, when_object, also, min_keys, custom, required, strict,
  is_undefined, is_boolean, is_number, is_integer, is_string, coerced, items_of, fields_of, holds,
  known, field_count,
}
use fcp_sfd_object_processor.Common.{List, any}

-- the schemas of the named keys, each for the field of its name
abbrev pub keys_accept : (Schema → Json → Bool) → Keys → Fields → Bool
keys_accept accepts no_keys fs = true
keys_accept accepts (key k s ks) fs = accepts s (find_field k fs) && keys_accept accepts ks fs

-- the entries of an object, their keys and values
abbrev pub entries_accept : (Json → Bool) → (Json → Bool) → Fields → Bool
entries_accept on_key on_value end = true
entries_accept on_key on_value (field k v fs) =
    on_key (str k) && on_value v && entries_accept on_key on_value fs

-- an array has no holes, and its items are accepted
abbrev pub items_accept : (Json → Bool) → Items → Bool
items_accept on_item xs = all (λ x. not (is_undefined x) && on_item x) (elements xs)

pub record Joi : Type 0 where
  pub base : Base
  pub accepts : Bool → Fields → Schema → Json → Bool
  pub anything_law : (m : Bool) (p : Fields) (v : Json) → accepts m p anything v ≡ true
  pub boolean_law :
      (m : Bool) (p : Fields) (v : Json)
      → accepts m p boolean v ≡ (is_undefined v || is_boolean (coerced base m to_boolean v))
  pub number_law :
      (m : Bool) (p : Fields) (v : Json)
      → accepts m p number v ≡ (is_undefined v || is_number (coerced base m to_number v))
  pub forbidden_law : (m : Bool) (p : Fields) (v : Json) → accepts m p forbidden v ≡ is_undefined v
  pub integer_law :
      (m : Bool) (p : Fields) (rs : List NumberRule) (v : Json)
      → accepts m p (integer rs) v ≡ (is_undefined v || is_integer rs (coerced base m to_number v))
  pub string_law :
      (m : Bool) (p : Fields) (rs : List StringRule) (v : Json)
      → accepts m p (string rs) v ≡ (is_undefined v || is_string base rs v)
  pub valid_law :
      (m : Bool) (p : Fields) (vs : List Json) (v : Json)
      → accepts m p (valid vs) v ≡ (is_undefined v || any (same v) vs)
  pub array_law :
      (m : Bool) (p : Fields) (s : Schema) (v : Json)
      → accepts m p (array s) v ≡ (
          is_undefined v
          || holds (items_accept (accepts m end s)) (items_of (coerced base m to_array v)))
  pub object_law :
      (m : Bool) (p : Fields) (ks : Keys) (v : Json)
      → accepts m p (object ks) v ≡ (
          is_undefined v
          || holds
              (λ fs. keys_accept (accepts m fs) ks fs && known ks fs)
              (fields_of base (coerced base m to_object v)))
  pub loose_law :
      (m : Bool) (p : Fields) (ks : Keys) (v : Json)
      → accepts m p (loose ks) v ≡ (
          is_undefined v
          || holds
              (λ fs. keys_accept (accepts m fs) ks fs)
              (fields_of base (coerced base m to_object v)))
  pub entries_law :
      (m : Bool) (p : Fields) (k s : Schema) (v : Json)
      → accepts m p (entries_of k s) v ≡ (
          is_undefined v
          || holds
              (λ fs. entries_accept (accepts m fs k) (accepts m fs s) fs)
              (fields_of base (coerced base m to_object v)))
  pub either_law :
      (m : Bool) (p : Fields) (a b : Schema) (v : Json)
      → accepts m p (either a b) v ≡ (accepts m p a v || accepts m p b v)
  pub conditional_law :
      (m : Bool) (p : Fields) (k : String) (is : Json) (a b : Schema) (v : Json)
      → accepts m p (conditional k is a b) v
        ≡ (if same (find_field k p) is then accepts m p a v else accepts m p b v)
  -- On any value that meets the condition, the keys of `then` are tested too.
  pub when_law :
      (m : Bool) (p : Fields) (c : Schema) (ks : Keys) (v : Json)
      → accepts m p (when_object c ks) v ≡ (
          is_undefined v
          || not (accepts m p c v)
          || holds
              (λ fs. keys_accept (accepts m fs) ks fs)
              (fields_of base (coerced base m to_object v)))
  pub also_law :
      (m : Bool) (p : Fields) (a b : Schema) (v : Json)
      → accepts m p (also a b) v ≡ (accepts m p a v && accepts m p b v)
  pub min_keys_law :
      (m : Bool) (p : Fields) (n : ℕ) (s : Schema) (v : Json)
      → accepts m p (min_keys n s) v ≡ (
          accepts m p s v
          && (is_undefined v
              || holds
                  (λ fs. leb n (field_count fs))
                  (fields_of base (coerced base m to_object v))))
  pub custom_law :
      (m : Bool) (p : Fields) (f : Json → Bool) (s : Schema) (v : Json)
      → accepts m p (custom f s) v ≡ (accepts m p s v && (is_undefined v || f v))
  pub required_law :
      (m : Bool) (p : Fields) (s : Schema) (v : Json)
      → accepts m p (required s) v ≡ (not (is_undefined v) && accepts m p s v)
  pub strict_law :
      (m : Bool) (p : Fields) (s : Schema) (v : Json)
      → accepts m p (strict s) v ≡ accepts true p s v
