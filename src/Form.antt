-- ===== src/Form.antt =====
-- utils/flatten-form-files.js and utils/normalise-form-fields.js: the form of a callback.
pub mod Normalise
use Prim.Native.String
use fcp_sfd_object_processor.Common.{
  ℕ, zero, suc, ◌+◌, String, Bool, true, false, List, [], ◌∷◌, ◌++◌, if◌then◌else◌, decimal,
}
use fcp_sfd_object_processor.Json.{
  Json, arr, obj, Items, nil, cons, Fields, end, field, elements, field_values, entries, put_field,
  is_object,
}

-- `Object.values(v)` of an object or an array
abbrev pub values : Json → List Json
values (arr xs) = elements xs
values (obj fs) = field_values fs
values _ = []

-- one element of `.flat()`
abbrev pub spread : Json → List Json
spread (arr xs) = elements xs
spread v = v ∷ []

abbrev pub flat : List Json → List Json
flat [] = []
flat (v ∷ vs) = spread v ++ flat vs

-- flattenFormValues
unfoldable pub flatten_form_values : Json → List Json
flatten_form_values form = if is_object form then flat (values form) else []

-- the keys of an array are its indices
abbrev indexed : ℕ → Items → List (String × Json)
indexed i nil = []
indexed i (cons v vs) = (decimal i, v) ∷ indexed (i + 1) vs

-- `Object.entries(v)`
abbrev pub object_entries : Json → List (String × Json)
object_entries (obj fs) = entries fs
object_entries (arr xs) = indexed 0 xs
object_entries _ = []

-- `${key}-${n}`
abbrev pub numbered_key : String → ℕ → String
numbered_key key n = String.◌++◌ key (String.◌++◌ "-" (decimal n))

-- the assignments of one field: an array's items under keys numbered from one
abbrev pub numbered : String → ℕ → Items → List (String × Json)
numbered key n nil = []
numbered key n (cons v vs) = (numbered_key key n, v) ∷ numbered key (n + 1) vs

abbrev pub assignments_of : String → Json → List (String × Json)
assignments_of key (arr xs) = numbered key 1 xs
assignments_of key v = (key, v) ∷ []

abbrev pub assignments : List (String × Json) → List (String × Json)
assignments [] = []
assignments ((key, v) ∷ fs) = assignments_of key v ++ assignments fs

-- `result[key] = item`, one after the other
abbrev pub assign_all : List (String × Json) → Fields → Fields
assign_all [] result = result
assign_all ((key, v) ∷ more) result = assign_all more (put_field key v result)

-- normaliseFormFields
unfoldable pub normalise_form_fields : Json → Json
normalise_form_fields form =
    if is_object form then obj (assign_all (assignments (object_entries form)) end) else form
