-- ===== src/Schema/Parsed.antt =====
-- Payloads as they are parsed from JSON: they hold no missing values and no ObjectIds.
use fcp_sfd_object_processor.Common.{
  String, ◌≡◌, inl, inr, Bool, true, false, ◌&&◌, str_eq, Bool-cases, refl,
}
use fcp_sfd_object_processor.Json.{
  Json, undefined, oid, arr, obj, Items, nil, cons, Fields, end, field, find_field, has_field,
}
use fcp_sfd_object_processor.Schema.{is_undefined}
use fcp_sfd_object_processor.Schema.Inversion.{and_true}

unfoldable mutual
  pub is_parsed : Json → Bool
  is_parsed undefined = false
  is_parsed (oid n) = false
  is_parsed (arr xs) = items_parsed xs
  is_parsed (obj fs) = fields_parsed fs
  is_parsed _ = true

  pub items_parsed : Items → Bool
  items_parsed nil = true
  items_parsed (cons x xs) = is_parsed x && items_parsed xs

  pub fields_parsed : Fields → Bool
  fields_parsed end = true
  fields_parsed (field k v fs) = is_parsed v && fields_parsed fs

pub field_parsed :
    (k : String) (fs : Fields)
    → fields_parsed fs ≡ true
    → has_field k fs ≡ true
    → is_parsed (find_field k fs) ≡ true
unfolding is_parsed fields_parsed
field_parsed k end h i = absurd (cc i)
field_parsed k (field j v fs) h i =
    let (h0, h1) = and_true (is_parsed v) (fields_parsed fs) h in
    elim (Bool-cases (str_eq j k)) [
      | inl t ↦ rw t h0
      | inr t ↦ rw t (field_parsed k fs h1 (rw t at i))
    ]

-- a key with no value is absent
pub has_field-of-undefined :
    (k : String) (fs : Fields)
    → fields_parsed fs ≡ true
    → find_field k fs ≡ undefined
    → has_field k fs ≡ false
unfolding is_parsed fields_parsed
has_field-of-undefined k fs h e = elim (Bool-cases (has_field k fs)) [
  | inr t ↦ t
  | inl t ↦ absurd (cc (rw e at (field_parsed k fs h t)))
]

pub has_field-of-value :
    (k : String) (fs : Fields) (v : Json)
    → find_field k fs ≡ v
    → is_undefined v ≡ false
    → has_field k fs ≡ true
has_field-of-value k end v e d = absurd (cc (rw (← e) at d))
has_field-of-value k (field j w fs) v e d = elim (Bool-cases (str_eq j k)) [
  | inl t ↦ rw t refl
  | inr t ↦ rw t (has_field-of-value k fs v (rw t at e) d)
]
