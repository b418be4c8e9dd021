-- ===== src/Journey/Laws.antt =====
-- An identifier from outside is trusted only where a session vouches for it.
use fcp_sfd_object_processor.Common.{
  String, str_eq, ◌≡◌, refl, ◌⊎◌, inl, inr, Bool, true, false, ◌&&◌, Option, none, some, arith,
  Result, ok, err, Bool-cases, eq_iff,
}
use fcp_sfd_object_processor.Json.{
  Json, obj, str, Fields, end, field, find_field, remove_field, remove_field-absent, get, has, same,
}
use fcp_sfd_object_processor.Journey.{
  journey_id_key, split_journey_id, Session, session, generated, Resolution, JourneyEnv,
  matches_session, resolve_found, resolve_journey_id,
}

-- What makes the session of an upload vouch for an identifier that a callback carries.
pub record IsVouched (env : JourneyEnv) (raw metadata : Json) (journey_id : String) : Type 0 where
  pub text : raw ≡ str journey_id
  pub uuid : env.is_uuid journey_id ≡ true
  pub found : Session
  pub stored : env.session_by_journey_id journey_id ≡ ok (some found)
  pub same_sbi : same (get found.metadata "sbi") (get metadata "sbi") ≡ true
  pub same_submission :
      same (get found.metadata "submissionId") (get metadata "submissionId") ≡ true

abbrev pub IsGenerated : JourneyEnv → Resolution → Type 0
IsGenerated env r = (r.journey_id ≡ env.random_uuid) × (r.source ≡ generated) × (r.counted ≡ true)

and_parts : (a b : Bool) → (a && b) ≡ true → (a ≡ true) × (b ≡ true)
and_parts a b h = ground arith

module _ (env : JourneyEnv) where
  resolve_found-cases :
      (raw : String) (metadata : Json) (r : Result (Option Session))
      → env.is_uuid raw ≡ true
      → env.session_by_journey_id raw ≡ r
      → (IsVouched env (str raw) metadata raw
          × (resolve_found env raw metadata r
              ≡ record { journey_id = raw; source = session; counted = false }))
        ⊎ IsGenerated env (resolve_found env raw metadata r)
  resolve_found-cases raw metadata (err f) u e = inr (refl, refl, refl)
  resolve_found-cases raw metadata (ok none) u e = inr (refl, refl, refl)
  resolve_found-cases raw metadata (ok (some s)) u e =
      elim (Bool-cases (matches_session s metadata)) [
        | inl t ↦
            let (sbi, submission) = and_parts _ _ t in
            inl (
              record {
                text = refl;
                uuid = u;
                found = s;
                stored = e;
                same_sbi = sbi;
                same_submission = submission;
              },
              rw t,
            )
        | inr t ↦ inr (rw t (refl, refl, refl))
      ]

  -- Whatever a callback carries, and whether or not the lookup is rejected, the resolved identifier
  -- is the carried one, and then a session stored under it has the same business identifier and
  -- submission; or it is a fresh one, and the unresolved counter is incremented.
  pub resolve_journey_id-cases :
      (raw metadata : Json)
      → (IsVouched env raw metadata (resolve_journey_id env raw metadata).journey_id
          × ((resolve_journey_id env raw metadata).source ≡ session))
        ⊎ IsGenerated env (resolve_journey_id env raw metadata)
  unfolding resolve_journey_id
  resolve_journey_id-cases (str raw) metadata = elim (Bool-cases (env.is_uuid raw)) [
    | inl u ↦ elim (resolve_found-cases raw metadata (env.session_by_journey_id raw) u refl) [
      | inl (v, eq) ↦ inl (rw (u, eq) (v, refl))
      | inr g ↦ inr (rw u g)
    ]
    | inr u ↦ inr (rw u (refl, refl, refl))
  ]
  resolve_journey_id-cases raw metadata = inr (refl, refl, refl)

find_field-remove_field :
    (k j : String) (fs : Fields)
    → str_eq k j ≡ false
    → find_field j (remove_field k fs) ≡ find_field j fs
find_field-remove_field k j end h = refl
find_field-remove_field k j (field i w fs) h =
    ground (arith, eq_iff i k, eq_iff i j, eq_iff k j, find_field-remove_field k j fs h)

-- The metadata that is passed on never has the journey identifier, and every other key of it reads
-- as it did.
pub split_journey_id-strips :
    (metadata : Json) (k : String)
    → str_eq journey_id_key k ≡ false
    → (has (split_journey_id metadata).1 journey_id_key ≡ false)
      × (get (split_journey_id metadata).1 k ≡ get metadata k)
unfolding split_journey_id
split_journey_id-strips (obj fs) k h =
    (remove_field-absent journey_id_key fs, find_field-remove_field journey_id_key k fs h)
split_journey_id-strips metadata k h = (refl, refl)
