-- ===== src/Form/Normalise.antt =====
-- Numbering grouped uploads keeps every upload, where no two of the new keys are equal.
use fcp_sfd_object_processor.Common.{
  ℕ, ◌+◌, String, str_eq, ◌≡◌, refl, sym, ap, ◌∙◌, inl, inr, false, List, [], ◌∷◌, ◌++◌, map,
  Bool-cases, append-nil, append_assoc, map-append, eq_refl,
}
use fcp_sfd_object_processor.Json.{
  Json, arr, obj, Items, nil, cons, Fields, end, field, elements, field_values, entries, put_field,
  has_field,
}
use fcp_sfd_object_processor.Form.{
  values, spread, flat, flatten_form_values, numbered, assignments_of, assignments, assign_all,
  normalise_form_fields, numbered_key,
}

abbrev second : String × Json → Json
second (k, v) = v

-- a new key stands behind the others
field_values-put_field :
    (k : String) (v : Json) (fs : Fields)
    → has_field k fs ≡ false
    → field_values (put_field k v fs) ≡ field_values fs ++ (v ∷ [])
field_values-put_field k v end h = refl
field_values-put_field k v (field j w fs) h = elim (Bool-cases (str_eq j k)) [
  | inl t ↦ absurd (cc (rw t at h))
  | inr t ↦ rw t (ap (λ r. w ∷ r) (field_values-put_field k v fs (rw t at h)))
]

-- no key is assigned twice, or stands in the object already
abbrev pub AreFresh : List (String × Json) → Fields → Type 0
AreFresh [] fs = Unit
AreFresh ((k, v) ∷ more) fs = (has_field k fs ≡ false) × AreFresh more (put_field k v fs)

field_values-assign_all :
    (more : List (String × Json)) (fs : Fields)
    → AreFresh more fs
    → field_values (assign_all more fs) ≡ field_values fs ++ map second more
field_values-assign_all [] fs h = sym (append-nil (field_values fs))
field_values-assign_all ((k, v) ∷ more) fs h =
    field_values-assign_all more (put_field k v fs) h.1
    ∙ rw (field_values-put_field k v fs h.0)
        (append_assoc (field_values fs) (v ∷ []) (map second more))

seconds-numbered : (k : String) (n : ℕ) (xs : Items) → map second (numbered k n xs) ≡ elements xs
seconds-numbered k n nil = refl
seconds-numbered k n (cons v vs) = ap (λ r. v ∷ r) (seconds-numbered k (n + 1) vs)

seconds-assignments_of : (k : String) (v : Json) → map second (assignments_of k v) ≡ spread v
seconds-assignments_of k (arr xs) = seconds-numbered k 1 xs
seconds-assignments_of k _ = refl

seconds-assignments : (fs : Fields) → map second (assignments (entries fs)) ≡ flat (field_values fs)
seconds-assignments end = refl
seconds-assignments (field k v fs) =
    rw (map-append, seconds-assignments_of k v, seconds-assignments fs)

-- Where the numbered keys meet no other key of the form, normalising keeps every value of the
-- flattened form, in order.
pub values-normalise_form_fields :
    (fs : Fields)
    → AreFresh (assignments (entries fs)) end
    → values (normalise_form_fields (obj fs)) ≡ flatten_form_values (obj fs)
unfolding normalise_form_fields flatten_form_values
values-normalise_form_fields fs h =
    field_values-assign_all (assignments (entries fs)) end h ∙ seconds-assignments fs

-- Where the first upload of a grouped field and a plain field meet in a key, only the upload of the
-- plain field is kept.
pub values-normalise_form_fields_clash :
    (k : String) (v : Json) (gs : Fields)
    → values (
        normalise_form_fields
          (obj (field k (arr (cons v nil)) (field (numbered_key k 1) (obj gs) end))))
      ≡ obj gs ∷ []
unfolding normalise_form_fields
values-normalise_form_fields_clash k v gs = rw (eq_refl (numbered_key k 1))
