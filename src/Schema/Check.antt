-- ===== src/Schema/Check.antt =====
-- A validator by recursion on the schema, and that the library's laws leave no other answer.
use fcp_sfd_object_processor.Common.{
  ◌≡◌, refl, Bool, true, ◌&&◌, ◌||◌, not, any, leb, if◌then◌else◌, ◌∙◌,
}
use fcp_sfd_object_processor.Json.{Json, Fields, end, find_field, same}
use fcp_sfd_object_processor.Schema.{
  Schema, Keys, no_keys, key, Base, to_number, to_boolean, to_array, to_object, anything, boolean,
  number, forbidden, integer, string, valid, array, object, loose, entries_of, either, conditional,
  when_object, also, min_keys, custom, required, strict, is_undefined, is_boolean, is_number,
  is_integer, is_string, coerced, items_of, fields_of, holds, known, field_count,
}
use fcp_sfd_object_processor.Schema.Joi.{Joi, keys_accept, entries_accept, items_accept}

unfoldable mutual
  pub check : Base → Bool → Fields → Schema → Json → Bool
  check b m p anything v = true
  check b m p boolean v = is_undefined v || is_boolean (coerced b m to_boolean v)
  check b m p number v = is_undefined v || is_number (coerced b m to_number v)
  check b m p forbidden v = is_undefined v
  check b m p (integer rs) v = is_undefined v || is_integer rs (coerced b m to_number v)
  check b m p (string rs) v = is_undefined v || is_string b rs v
  check b m p (valid vs) v = is_undefined v || any (same v) vs
  check b m p (array s) v =
      is_undefined v || holds (items_accept (check b m end s)) (items_of (coerced b m to_array v))
  check b m p (object ks) v =
      is_undefined v
      || holds (λ fs. check_keys b m fs ks fs && known ks fs)
          (fields_of b (coerced b m to_object v))
  check b m p (loose ks) v =
      is_undefined v
      || holds (λ fs. check_keys b m fs ks fs) (fields_of b (coerced b m to_object v))
  check b m p (entries_of k s) v =
      is_undefined v
      || holds (λ fs. entries_accept (check b m fs k) (check b m fs s) fs)
          (fields_of b (coerced b m to_object v))
  check b m p (either s t) v = check b m p s v || check b m p t v
  check b m p (conditional k is s t) v =
      if same (find_field k p) is then check b m p s v else check b m p t v
  check b m p (when_object c ks) v =
      is_undefined v
      || not (check b m p c v)
      || holds (λ fs. check_keys b m fs ks fs) (fields_of b (coerced b m to_object v))
  check b m p (also s t) v = check b m p s v && check b m p t v
  check b m p (min_keys n s) v =
      check b m p s v
      && (is_undefined v
          || holds (λ fs. leb n (field_count fs)) (fields_of b (coerced b m to_object v)))
  check b m p (custom f s) v = check b m p s v && (is_undefined v || f v)
  check b m p (required s) v = not (is_undefined v) && check b m p s v
  check b m p (strict s) v = check b true p s v

  -- the named keys, in an object with the fields `p`
  pub check_keys : Base → Bool → Fields → Keys → Fields → Bool
  check_keys b m p no_keys fs = true
  check_keys b m p (key k s ks) fs = check b m p s (find_field k fs) && check_keys b m p ks fs

module _ (joi : Joi) where
  mutual
    unfolding check check_keys

    accepts-eq :
        (s : Schema) (m : Bool) (p : Fields) (v : Json)
        → joi.accepts m p s v ≡ check joi.base m p s v
    accepts-eq anything m p v = joi.anything_law m p v
    accepts-eq boolean m p v = joi.boolean_law m p v
    accepts-eq number m p v = joi.number_law m p v
    accepts-eq forbidden m p v = joi.forbidden_law m p v
    accepts-eq (integer rs) m p v = joi.integer_law m p rs v
    accepts-eq (string rs) m p v = joi.string_law m p rs v
    accepts-eq (valid vs) m p v = joi.valid_law m p vs v
    accepts-eq (array s) m p v = joi.array_law m p s v ∙ λ i.
        is_undefined v
        || holds (items_accept (λ x. accepts-eq s m end x i))
            (items_of (coerced joi.base m to_array v))
    accepts-eq (object ks) m p v = joi.object_law m p ks v ∙ λ i.
        is_undefined v
        || holds (λ fs. keys-eq ks m fs fs i && known ks fs)
            (fields_of joi.base (coerced joi.base m to_object v))
    accepts-eq (loose ks) m p v = joi.loose_law m p ks v ∙ λ i.
        is_undefined v
        || holds (λ fs. keys-eq ks m fs fs i) (fields_of joi.base (coerced joi.base m to_object v))
    accepts-eq (entries_of k s) m p v = joi.entries_law m p k s v ∙ λ i.
        is_undefined v
        || holds (λ fs. entries_accept (λ x. accepts-eq k m fs x i) (λ x. accepts-eq s m fs x i) fs)
            (fields_of joi.base (coerced joi.base m to_object v))
    accepts-eq (either s t) m p v =
        rw (joi.either_law m p s t v, accepts-eq s m p v, accepts-eq t m p v) refl
    accepts-eq (conditional k is s t) m p v =
        rw (joi.conditional_law m p k is s t v, accepts-eq s m p v, accepts-eq t m p v) refl
    accepts-eq (when_object c ks) m p v = joi.when_law m p c ks v ∙ λ i.
        is_undefined v
        || not (accepts-eq c m p v i)
        || holds (λ fs. keys-eq ks m fs fs i) (fields_of joi.base (coerced joi.base m to_object v))
    accepts-eq (also s t) m p v =
        rw (joi.also_law m p s t v, accepts-eq s m p v, accepts-eq t m p v) refl
    accepts-eq (min_keys n s) m p v = rw (joi.min_keys_law m p n s v, accepts-eq s m p v) refl
    accepts-eq (custom f s) m p v = rw (joi.custom_law m p f s v, accepts-eq s m p v) refl
    accepts-eq (required s) m p v = rw (joi.required_law m p s v, accepts-eq s m p v) refl
    accepts-eq (strict s) m p v = rw (joi.strict_law m p s v) (accepts-eq s true p v)

    keys-eq :
        (ks : Keys) (m : Bool) (p fs : Fields)
        → keys_accept (joi.accepts m p) ks fs ≡ check_keys joi.base m p ks fs
    keys-eq no_keys m p fs = refl
    keys-eq (key k s ks) m p fs = rw (accepts-eq s m p (find_field k fs), keys-eq ks m p fs) refl

  -- The library accepts what the validator does.
  pub accepts-check :
      (m : Bool) (p : Fields) (s : Schema) (v : Json) → joi.accepts m p s v ≡ check joi.base m p s v
  accepts-check m p s v = accepts-eq s m p v

-- The validator is such a library, whatever the library leaves open.
keys_accept-check :
    (b : Base) (m : Bool) (p : Fields) (ks : Keys) (fs : Fields)
    → check_keys b m p ks fs ≡ keys_accept (check b m p) ks fs
unfolding check
keys_accept-check b m p no_keys fs = refl
keys_accept-check b m p (key k s ks) fs =
    λ i. check b m p s (find_field k fs) && keys_accept-check b m p ks fs i

module _ (b : Base) where
  object_lem :
      (m : Bool) (p : Fields) (ks : Keys) (v : Json)
      → check b m p (object ks) v ≡ (
          is_undefined v
          || holds
              (λ fs. keys_accept (check b m fs) ks fs && known ks fs)
              (fields_of b (coerced b m to_object v)))
  unfolding check
  object_lem m p ks v = λ i.
      is_undefined v
      || holds (λ fs. keys_accept-check b m fs ks fs i && known ks fs)
          (fields_of b (coerced b m to_object v))

  loose_lem :
      (m : Bool) (p : Fields) (ks : Keys) (v : Json)
      → check b m p (loose ks) v ≡ (
          is_undefined v
          || holds (λ fs. keys_accept (check b m fs) ks fs) (fields_of b (coerced b m to_object v)))
  unfolding check
  loose_lem m p ks v = λ i.
      is_undefined v
      || holds (λ fs. keys_accept-check b m fs ks fs i) (fields_of b (coerced b m to_object v))

  when_lem :
      (m : Bool) (p : Fields) (c : Schema) (ks : Keys) (v : Json)
      → check b m p (when_object c ks) v ≡ (
          is_undefined v
          || not (check b m p c v)
          || holds (λ fs. keys_accept (check b m fs) ks fs) (fields_of b (coerced b m to_object v)))
  unfolding check
  when_lem m p c ks v = λ i.
      is_undefined v
      || not (check b m p c v)
      || holds (λ fs. keys_accept-check b m fs ks fs i) (fields_of b (coerced b m to_object v))

  unfoldable pub checking : Joi
  unfolding check object_lem loose_lem when_lem keys_accept-check
  checking = record {
    base = b;
    accepts = check b;
    anything_law = λ m p v. refl;
    boolean_law = λ m p v. refl;
    number_law = λ m p v. refl;
    forbidden_law = λ m p v. refl;
    integer_law = λ m p rs v. refl;
    string_law = λ m p rs v. refl;
    valid_law = λ m p vs v. refl;
    array_law = λ m p s v. refl;
    object_law = object_lem;
    loose_law = loose_lem;
    entries_law = λ m p k s v. refl;
    either_law = λ m p s t v. refl;
    conditional_law = λ m p k is s t v. refl;
    when_law = when_lem;
    also_law = λ m p s t v. refl;
    min_keys_law = λ m p n s v. refl;
    custom_law = λ m p f s v. refl;
    required_law = λ m p s v. refl;
    strict_law = λ m p s v. refl;
  }
