-- ===== src/Outbox/Effects.antt =====
-- What an operation that throws or returns does to the entries, by the laws of the driver.
use fcp_sfd_object_processor.Common.{
  ℕ, String, ◌≡◌, refl, ◌⊎◌, inl, inr, false, Option, List, [], ◌∷◌, ◌++◌, append-nil, arith, map,
  ok, Bool-cases, any, count, sym,
}
use fcp_sfd_object_processor.Document.{Document}
use fcp_sfd_object_processor.Mongo.{Collection, replace_matching, any_clash}
use fcp_sfd_object_processor.Outbox.{
  Entry, EntryError, Config, DeliveryOutcome, succeeded, failed, other, is_finalizable, sent_update,
  failed_update, new_entries, insert_entries, create_outbox_entries, acknowledge,
  finalize_claimed_outbox_entries,
}
use fcp_sfd_object_processor.Outbox.Runs.{after_result}

any-false : (xs : List Entry) → any (λ b. false) xs ≡ false
any-false [] = refl
any-false (x ∷ xs) = any-false xs

no_clash : (news c : List Entry) → any_clash (λ a b. false) news c ≡ false
no_clash [] c = refl
no_clash (n ∷ news) c = rw (any-false c, any-false news) (no_clash news c)

-- the update of a delivery outcome
abbrev pub outcome_update : Config → DeliveryOutcome → Option EntryError → ℕ → Entry → Entry
outcome_update cfg succeeded error now e = sent_update now e
outcome_update cfg failed error now e = failed_update cfg.max_attempts error now e
outcome_update cfg (other s) error now e = e

module _ (db : Collection Entry) where
  insert_entries-cases :
      (news c : List Entry)
      → (after_result c (insert_entries db news c) ≡ c)
        ⊎ (after_result c (insert_entries db news c) ≡ c ++ news)
  unfolding insert_entries
  insert_entries-cases [] c = inl refl
  insert_entries-cases (n ∷ news) c = elim (Bool-cases db.acknowledged) [
    | inl t ↦ inr (rw (db.insert_many_lem, no_clash (n ∷ news) c, t))
    | inr t ↦ inl (rw (db.insert_many_lem, no_clash (n ∷ news) c, t))
  ]

  inserted_entries :
      (news c : List Entry) (r : List ℕ × List Entry)
      → insert_entries db news c ≡ ok r
      → r.1 ≡ c ++ news
  unfolding insert_entries
  inserted_entries [] c r h = let e : r ≡ ([], c) = cc in rw e (sym (append-nil c))
  inserted_entries (n ∷ news) c r h = elim (Bool-cases db.acknowledged) [
    | inl t ↦
        let h' = rw (db.insert_many_lem, no_clash (n ∷ news) c, t) at h in
        let e : (map (λ (x : Entry). x.id) (n ∷ news), c ++ (n ∷ news)) ≡ r = cc in rw (← e)
    | inr t ↦ absurd (cc (rw (db.insert_many_lem, no_clash (n ∷ news) c, t) at h))
  ]

  -- A creation appends its entries or changes nothing.
  pub create-cases :
      (now : ℕ) (ids metadata_ids : List ℕ) (documents : List Document) (c : List Entry)
      → (after_result c (create_outbox_entries db now ids metadata_ids documents c) ≡ c)
        ⊎ (after_result c (create_outbox_entries db now ids metadata_ids documents c)
            ≡ c ++ new_entries now ids metadata_ids documents)
  unfolding create_outbox_entries
  create-cases now ids metadata_ids documents c =
      insert_entries-cases (new_entries now ids metadata_ids documents) c

  -- A finalization updates the entries that match, or changes nothing.
  pub finalize-cases :
      (cfg : Config) (ids : List ℕ) (worker : String) (outcome : DeliveryOutcome)
      (error : Option EntryError) (now : ℕ) (c : List Entry)
      → (after_result c (finalize_claimed_outbox_entries db cfg ids worker outcome error now c) ≡ c)
        ⊎ (after_result c (finalize_claimed_outbox_entries db cfg ids worker outcome error now c)
            ≡ replace_matching
                (is_finalizable ids worker now)
                (outcome_update cfg outcome error now)
                c)
  unfolding finalize_claimed_outbox_entries
  finalize-cases cfg ids worker succeeded error now c = elim (Bool-cases db.acknowledged) [
    | inl t ↦ inr (rw (t, db.update_many_lem))
    | inr t ↦ inl (rw t)
  ]
  finalize-cases cfg ids worker failed error now c = elim (Bool-cases db.acknowledged) [
    | inl t ↦ inr (rw (t, db.update_many_lem))
    | inr t ↦ inl (rw t)
  ]
  finalize-cases cfg ids worker (other s) error now c = inl refl

  -- A finalization that returns has the matched count and the updated entries.
  pub finalize-eq-ok :
      (cfg : Config) (ids : List ℕ) (worker : String) (outcome : DeliveryOutcome)
      (error : Option EntryError) (now : ℕ) (c : List Entry) (r : ℕ × List Entry)
      → finalize_claimed_outbox_entries db cfg ids worker outcome error now c ≡ ok r
      → r ≡ (
        count (is_finalizable ids worker now) c,
        replace_matching (is_finalizable ids worker now) (outcome_update cfg outcome error now) c,
      )
  unfolding finalize_claimed_outbox_entries acknowledge
  finalize-eq-ok cfg ids worker succeeded error now c r h =
      ground (arith, db.update_many_lem (is_finalizable ids worker now) (sent_update now) c)
  finalize-eq-ok cfg ids worker failed error now c r h = ground (
    arith,
    db.update_many_lem (is_finalizable ids worker now) (failed_update cfg.max_attempts error now) c,
  )
  finalize-eq-ok cfg ids worker (other s) error now c r h = cc

  -- A creation that returns has appended its entries.
  pub create-eq-ok :
      (now : ℕ) (ids metadata_ids : List ℕ) (documents : List Document) (c : List Entry)
      (r : List ℕ × List Entry)
      → create_outbox_entries db now ids metadata_ids documents c ≡ ok r
      → r.1 ≡ c ++ new_entries now ids metadata_ids documents
  unfolding create_outbox_entries
  create-eq-ok now ids metadata_ids documents c r h =
      inserted_entries (new_entries now ids metadata_ids documents) c r h
