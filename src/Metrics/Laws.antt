-- ===== src/Metrics/Laws.antt =====
-- Which dimensions reach the metrics library.
use fcp_sfd_object_processor.Common.{String, ◌≡◌, inl, inr, true, Bool-cases, All, str_eq}
use fcp_sfd_object_processor.Json.{Json, Fields, end, field, put_field, entries}
use fcp_sfd_object_processor.Metrics.{is_allowed, sanitise_onto, sanitise_dimensions}

abbrev pub AreAllowed : Fields → Type 0
AreAllowed fs = All (λ e. is_allowed e.0 ≡ true) (entries fs)

put_field-AreAllowed :
    (k : String) (v : Json) (fs : Fields)
    → is_allowed k ≡ true
    → AreAllowed fs
    → AreAllowed (put_field k v fs)
put_field-AreAllowed k v end h a = (h, tt)
put_field-AreAllowed k v (field j w fs) h a = elim (Bool-cases (str_eq j k)) [
  | inl t ↦ rw t a
  | inr t ↦ rw t (a.0, put_field-AreAllowed k v fs h a.1)
]

sanitise_onto-AreAllowed :
    (allowed dimensions : Fields)
    → AreAllowed allowed
    → AreAllowed (sanitise_onto allowed dimensions)
sanitise_onto-AreAllowed allowed end a = a
sanitise_onto-AreAllowed allowed (field k v fs) a = elim (Bool-cases (is_allowed k)) [
  | inl t ↦
      rw t
        (sanitise_onto-AreAllowed (put_field k v allowed) fs (put_field-AreAllowed k v allowed t a))
  | inr t ↦ rw t (sanitise_onto-AreAllowed allowed fs a)
]

-- No dimension outside the budget reaches the metrics library.
pub sanitise_dimensions-AreAllowed : (fs : Fields) → AreAllowed (sanitise_dimensions fs)
unfolding sanitise_dimensions
sanitise_dimensions-AreAllowed fs = sanitise_onto-AreAllowed end fs tt
