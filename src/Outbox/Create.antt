-- ===== src/Outbox/Create.antt =====
-- Which documents get an outbox entry.
use fcp_sfd_object_processor.Common.{
  ℕ, ◌≡◌, refl, ap, inl, inr, Bool, List, [], ◌∷◌, arith, map, filter, length, Bool-cases, All, ◌≤◌,
}
use fcp_sfd_object_processor.Json.{is_the_text}
use fcp_sfd_object_processor.Document.{Document}
use fcp_sfd_object_processor.Outbox.{Entry, pending, new_entries}

abbrev pub is_complete : Document → Bool
is_complete d = is_the_text d.file.file_status "complete"

abbrev pub IsNew : ℕ → Entry → Type 0
IsNew now e = (e.status ≡ pending) × (e.attempts ≡ 0) × (e.created_at ≡ now)

-- With an identifier for each document, the new entries carry the documents whose file is complete,
-- each once and in order, and all of them are pending and were never attempted.
pub new_entries_complete :
    (now : ℕ) (ids metadata_ids : List ℕ) (documents : List Document)
    → length documents ≤ length ids
    → length documents ≤ length metadata_ids
    → (map (λ (e : Entry). e.payload) (new_entries now ids metadata_ids documents)
        ≡ filter is_complete documents)
      × All (IsNew now) (new_entries now ids metadata_ids documents)
unfolding new_entries
new_entries_complete now [] metadata_ids [] h k = (refl, tt)
new_entries_complete now (i ∷ ids) [] [] h k = (refl, tt)
new_entries_complete now (i ∷ ids) (m ∷ metadata_ids) [] h k = (refl, tt)
new_entries_complete now [] metadata_ids (d ∷ ds) h k = elim h [ ]
new_entries_complete now (i ∷ ids) [] (d ∷ ds) h k = elim k [ ]
new_entries_complete now (i ∷ ids) (m ∷ metadata_ids) (d ∷ ds) h k =
    elim (Bool-cases (is_complete d)) [
      | inl t ↦
          let (same, all) =
            new_entries_complete now ids metadata_ids ds (omega arith) (omega arith) in
          rw t (ap (λ r. d ∷ r) same, ((refl, refl, refl), all))
      | inr t ↦
          rw t (new_entries_complete now (i ∷ ids) metadata_ids ds (omega arith) (omega arith))
    ]
