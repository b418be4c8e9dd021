-- ===== src/Status/Query.antt =====
-- repos/status.js: the query that reads the records of an upload, up to a limit. The configured
-- limit is positive.
use fcp_sfd_object_processor.Common.{
  ℕ, zero, suc, ◌<◌, ◌≤◌, ◌≡◌, refl, ap, ◌⊎◌, inl, inr, String, Bool, true, false, List, [], ◌∷◌,
  ◌==◌, str_eq, length, take, filter, In, arith, here, there, In-filter, filter-In, All-In,
  All-filter, All, length-take, length-map, map, map-In, In-map, Option, eq_iff, Bool-cases,
}
use fcp_sfd_object_processor.Mongo.{Collection, IsOldestFirst}
use fcp_sfd_object_processor.Json.{Json}
use fcp_sfd_object_processor.Status.{StatusRecord, StatusError}

abbrev pub is_of_correlation : String → StatusRecord → Bool
is_of_correlation correlation_id r = str_eq r.correlation_id correlation_id

-- a record without the fields that the projection drops
pub record StatusView : Type 0 where
  pub sbi : Json
  pub file_id : Json
  pub timestamp : ℕ
  pub validated : Bool
  pub errors : Option (List StatusError)

abbrev pub project : StatusRecord → StatusView
project r = record {
  sbi = r.sbi;
  file_id = r.file_id;
  timestamp = r.timestamp;
  validated = r.validated;
  errors = r.errors;
}

-- the records, and whether the warning about the limit was logged
abbrev warned : ℕ → List StatusView → List StatusView × Bool
warned limit results = (results, length results == limit)

-- getStatusByCorrelationId
unfoldable pub get_status_by_correlation_id :
    Collection StatusRecord → ℕ → String → List StatusRecord → List StatusView × Bool
get_status_by_correlation_id db limit correlation_id c =
    let p = is_of_correlation correlation_id in
    warned limit (map project (db.find_oldest p (λ r. r.timestamp) limit c))

-- a record stored under the identifier that the query shows so
abbrev pub IsStoredIn : String → List StatusRecord → StatusView → Type 0
IsStoredIn correlation_id c v =
    (r : StatusRecord) × In r c × (r.correlation_id ≡ correlation_id) × (v ≡ project r)

project-All :
    (n : ℕ) (rs : List StatusRecord)
    → All (λ r. n ≤ r.timestamp) rs
    → All (λ v. n ≤ v.timestamp) (map project rs)
project-All n [] a = tt
project-All n (r ∷ rs) a = (a.0, project-All n rs a.1)

project-IsOldestFirst :
    (rs : List StatusRecord)
    → IsOldestFirst (λ r. r.timestamp) rs
    → IsOldestFirst (λ v. v.timestamp) (map project rs)
project-IsOldestFirst [] s = tt
project-IsOldestFirst (r ∷ rs) s = (project-All r.timestamp rs s.0, project-IsOldestFirst rs s.1)

take_of_few : (n : ℕ) (xs : List StatusRecord) → (length (take n xs) == n) ≡ false → take n xs ≡ xs
take_of_few zero xs h = absurd (cc h)
take_of_few (suc n) [] h = refl
take_of_few (suc n) (x ∷ xs) h = ap (λ r. x ∷ r) (take_of_few n xs (ground (arith, h)))

In-take : (n : ℕ) (r : StatusRecord) (xs : List StatusRecord) → In r (take n xs) → In r xs
In-take zero r xs m = elim m [ ]
In-take (suc n) r [] m = elim m [ ]
In-take (suc n) r (x ∷ xs) here = here
In-take (suc n) r (x ∷ xs) (there m) = there (In-take n r xs m)

module _ (limit : ℕ) (correlation_id : String) (c sorted : List StatusRecord)
    (ordered : IsOldestFirst (λ (r : StatusRecord). r.timestamp) sorted)
    (all : (r : StatusRecord) → In r (filter (is_of_correlation correlation_id) c) → In r sorted)
    (only : (r : StatusRecord)
      → In r sorted
      → In r (filter (is_of_correlation correlation_id) c)) where
  stored :
      (r : StatusRecord) → In r (take limit sorted) → In r c × (r.correlation_id ≡ correlation_id)
  stored r m =
      let p = is_of_correlation correlation_id in
      let n = only r (In-take limit r sorted m) in
      let t = All-In (λ s. p s ≡ true) (filter p c) r (All-filter p c) n in
      (In-filter p r c n, (eq_iff r.correlation_id correlation_id).0 t)

  -- the first records of a sorted list
  first_complete :
      let views = map project (take limit sorted) in
      (length views ≤ limit)
      × ((v : StatusView) → In v views → IsStoredIn correlation_id c v)
      × (((length views == limit) ≡ true)
          ⊎ (IsOldestFirst (λ v. v.timestamp) views
              × ((r : StatusRecord)
                  → In r c
                  → r.correlation_id ≡ correlation_id
                  → In (project r) views)))
  first_complete = (few, of_stored, rw (length-map project (take limit sorted)) whole)
    where
      few : length (map project (take limit sorted)) ≤ limit
      few =
          let e = length-take limit sorted in
          let e' = length-map project (take limit sorted) in omega arith

      of_stored :
          (v : StatusView) → In v (map project (take limit sorted)) → IsStoredIn correlation_id c v
      of_stored v m =
          let (r, n, e) = In-map project v (take limit sorted) m in
          let (i, q) = stored r n in (r, i, q, e)

      whole :
          ((length (take limit sorted) == limit) ≡ true)
          ⊎ (IsOldestFirst (λ v. v.timestamp) (map project (take limit sorted))
              × ((r : StatusRecord)
                  → In r c
                  → r.correlation_id ≡ correlation_id
                  → In (project r) (map project (take limit sorted))))
      whole = elim (Bool-cases (length (take limit sorted) == limit)) [
        | inl t ↦ inl t
        | inr t ↦
            let w = take_of_few limit sorted t in
            inr (
              rw w (project-IsOldestFirst sorted ordered),
              λ r m q. rw w (
                  map-In project r sorted (
                    all r (
                      filter-In (is_of_correlation correlation_id) r c
                        ((eq_iff r.correlation_id correlation_id).1 q) m))),
            )
      ]

module _ (db : Collection StatusRecord) (limit : ℕ) (correlation_id : String)
    (c : List StatusRecord) (positive : 0 < limit) where
  abbrev results : List StatusView
  results = (get_status_by_correlation_id db limit correlation_id c).0

  -- With a limit that is not 0, no more records than the limit are read, and each of them is that of
  -- a record stored under the identifier. Either the warning about the limit is logged, or the records
  -- are sorted, oldest first, and every stored record of the identifier is among them.
  pub get_status_by_correlation_id_complete :
      (length results ≤ limit)
      × ((v : StatusView) → In v results → IsStoredIn correlation_id c v)
      × (((get_status_by_correlation_id db limit correlation_id c).1 ≡ true)
          ⊎ (IsOldestFirst (λ v. v.timestamp) results
              × ((r : StatusRecord)
                  → In r c
                  → r.correlation_id ≡ correlation_id
                  → In (project r) results)))
  unfolding get_status_by_correlation_id
  get_status_by_correlation_id_complete =
      let (sorted, ordered, all, only, e) =
        db.find_oldest_lem (is_of_correlation correlation_id) (λ r. r.timestamp) limit c positive in
      rw e (first_complete limit correlation_id c sorted ordered all only)
