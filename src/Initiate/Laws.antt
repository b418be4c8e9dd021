-- ===== src/Initiate/Laws.antt =====
-- Initiation and callback agree on the identifier of a journey.
use fcp_sfd_object_processor.Common.{
  ℕ, String, str_eq, ◌≡◌, refl, ◌∙◌, ap, ◌⊎◌, inl, inr, Bool, true, false, ◌&&◌, Option, none, some,
  List, [], ◌∷◌, ◌++◌, arith, leb, find, is_empty_text, ok, Bool-cases, eq_refl, eq_iff, All,
}
use fcp_sfd_object_processor.Json.{
  Json, obj, str, Fields, end, field, find_field, put_field, get, truthy, same,
}
use fcp_sfd_object_processor.Journey.{
  journey_id_key, own_fields, split_journey_id, Session, session, JourneyEnv, resolve_journey_id,
}
use fcp_sfd_object_processor.Journey.Laws.{split_journey_id-strips}
use fcp_sfd_object_processor.Mongo.{Collection, any_clash}
use fcp_sfd_object_processor.Initiate.{
  Fetched, timed_out, broken, responded, InitiateEnv, Initiated, initiated, session_clash,
  has_journey, session_by_journey_id, new_session, insert_session, enriched, rewrite_response_urls,
  answer_body, answer_fetched, initiate, build_cdp_uploader_payload,
}

find_field-put_field : (k : String) (v : Json) (fs : Fields) → find_field k (put_field k v fs) ≡ v
find_field-put_field k v end = rw (eq_refl k) refl
find_field-put_field k v (field j w fs) = elim (Bool-cases (str_eq j k)) [
  | inl t ↦ rw t (rw t refl)
  | inr t ↦ rw t (rw t (find_field-put_field k v fs))
]

find_field-put_field_other :
    (k j : String) (v : Json) (fs : Fields)
    → str_eq k j ≡ false
    → find_field j (put_field k v fs) ≡ find_field j fs
find_field-put_field_other k j v end h = rw h refl
find_field-put_field_other k j v (field i w fs) h =
    ground (arith, eq_iff i k, eq_iff i j, eq_iff k j, find_field-put_field_other k j v fs h)

abbrev pub is_initiated : Initiated → Bool
is_initiated (initiated u a b) = true
is_initiated _ = false

module _ (env : InitiateEnv) (journey_id : String) (now : ℕ) (client : Json)
    (c : List Session) where
  insert_session-cases :
      (s : Session)
      → env.sessions.acknowledged ≡ true
      → (insert_session env.sessions s c ≡ (false, c ++ (s ∷ [])))
        ⊎ (insert_session env.sessions s c ≡ (true, c))
  unfolding insert_session
  insert_session-cases s a = elim (Bool-cases (any_clash session_clash (s ∷ []) c)) [
    | inl t ↦
        inr (rw (insert_session, env.sessions.insert_many_lem session_clash (s ∷ []) c, t) refl)
    | inr t ↦
        inl (rw (insert_session, env.sessions.insert_many_lem session_clash (s ∷ []) c, t, a) refl)
  ]

  abbrev pub Outcome : Initiated × List Session → Type 0
  Outcome r =
      ((u : Json) × (r.0 ≡ rewrite_response_urls env u)
        × (truthy u ≡ true)
        × (r.1 ≡ c ++ (new_session u journey_id (get client "metadata") now ∷ [])))
      ⊎ ((is_initiated r.0 ≡ false) × (r.1 ≡ c))

  answer_body-Outcome :
      (body : Json)
      → env.sessions.acknowledged ≡ true
      → Outcome (answer_body env journey_id now client c (some body))
  unfolding rewrite_response_urls
  answer_body-Outcome body a = elim (Bool-cases (truthy (get body "uploadId"))) [
    | inr t ↦ rw t (inr (refl, refl))
    | inl t ↦
        elim (insert_session-cases
          (new_session (get body "uploadId") journey_id (get client "metadata") now) a) [
            | inr e ↦ rw (t, e) (inr (refl, refl))
            | inl e ↦ rw (t, e) (inl (get body "uploadId", refl, t, refl))
          ]
  ]

  fetched-Outcome :
      (r : Fetched)
      → env.sessions.acknowledged ≡ true
      → Outcome (answer_fetched env journey_id now client c r)
  fetched-Outcome timed_out a = inr (refl, refl)
  fetched-Outcome broken a = inr (refl, refl)
  fetched-Outcome (responded status body) a = elim (Bool-cases (leb 200 status && leb status 299)) [
    | inr t ↦ rw t (inr (refl, refl))
    | inl t ↦ rw t (by_body body)
  ]
    where
      by_body : (b : Option Json) → Outcome (answer_body env journey_id now client c b)
      by_body none = inr (refl, refl)
      by_body (some b) = answer_body-Outcome b a

  -- The handler answers with an identifier and stores the session, or leaves the sessions alone.
  pub initiate-cases :
      env.sessions.acknowledged ≡ true → Outcome (initiate env journey_id now client c)
  unfolding initiate
  initiate-cases a = fetched-Outcome (env.fetch _) a

find-append :
    (p : Session → Bool) (c : List Session) (s : Session)
    → All (λ x. p x ≡ false) c
    → p s ≡ true
    → find p (c ++ (s ∷ [])) ≡ some s
find-append p [] s h t = rw t refl
find-append p (x ∷ c) s h t = rw h.0 (find-append p c s h.1 t)

get-own_fields : (v : Json) (k : String) → find_field k (own_fields v) ≡ get v k
get-own_fields (obj fs) k = refl
get-own_fields v k = refl

-- the metadata of a callback that carries back what was sent reads as the client's metadata
get-split_journey_id :
    (metadata : Json) (j k : String)
    → str_eq journey_id_key k ≡ false
    → get (split_journey_id (enriched metadata j)).1 k ≡ get metadata k
get-split_journey_id metadata j k h =
    (split_journey_id-strips (enriched metadata j) k h).1
    ∙ (find_field-put_field_other journey_id_key k (str j) (own_fields metadata) h
        ∙ get-own_fields metadata k)

resolve_journey_id-found :
    (jenv : JourneyEnv) (raw metadata : Json) (j : String) (s : Session)
    → raw ≡ str j
    → jenv.is_uuid j ≡ true
    → jenv.session_by_journey_id j ≡ ok (some s)
    → same (get s.metadata "sbi") (get metadata "sbi") ≡ true
    → same (get s.metadata "submissionId") (get metadata "submissionId") ≡ true
    → resolve_journey_id jenv raw metadata
      ≡ record { journey_id = j; source = session; counted = false }
unfolding resolve_journey_id
resolve_journey_id-found jenv raw metadata j s e u f a b = rw (e, u, f, a, b) refl

-- the lookups of the callback, on the stored sessions
abbrev pub journey_env : Collection Session → List Session → (String → Bool) → String → JourneyEnv
journey_env db c is_uuid fresh = record {
  is_uuid = is_uuid;
  session_by_journey_id = session_by_journey_id db c;
  random_uuid = fresh;
}

module _ (env : InitiateEnv) (journey_id : String) (now : ℕ) (client : Json)
    (c : List Session) where
  abbrev after : List Session
  after = (initiate env journey_id now client c).1

  abbrev given : Json
  given = get client "metadata"

  stored-found :
      (u : Json)
      → is_empty_text journey_id ≡ false
      → All (λ s. has_journey journey_id s ≡ false) c
      → after ≡ c ++ (new_session u journey_id given now ∷ [])
      → session_by_journey_id env.sessions after journey_id
        ≡ ok (some (new_session u journey_id given now))
  unfolding session_by_journey_id
  stored-found u n h e =
      rw (e, env.sessions.find_first_lem (has_journey journey_id) _)
        (ap ok (
          find-append (has_journey journey_id) c (new_session u journey_id given now) h
            (rw n (eq_refl journey_id))))

  -- After an initiation that the handler answers with an upload, a callback that carries back the
  -- metadata that was sent upstream resolves to the identifier of that journey, with its session for
  -- a source: where writes are acknowledged, the identifier is a v4 UUID that no earlier session has,
  -- and the client's business identifier and submission equal themselves, as numbers and texts do.
  pub initiate-resolves :
      (is_uuid : String → Bool) (fresh : String)
      → env.sessions.acknowledged ≡ true
      → is_uuid journey_id ≡ true
      → is_empty_text journey_id ≡ false
      → All (λ s. has_journey journey_id s ≡ false) c
      → same (get given "sbi") (get given "sbi") ≡ true
      → same (get given "submissionId") (get given "submissionId") ≡ true
      → is_initiated (initiate env journey_id now client c).0 ≡ true
      → resolve_journey_id
          (journey_env env.sessions after is_uuid fresh)
          (split_journey_id (get (build_cdp_uploader_payload env client journey_id) "metadata")).0
          (split_journey_id (get (build_cdp_uploader_payload env client journey_id) "metadata")).1
        ≡ record { journey_id = journey_id; source = session; counted = false }
  unfolding build_cdp_uploader_payload split_journey_id
  initiate-resolves is_uuid fresh k v n h a b told =
      elim (initiate-cases env journey_id now client c k) [
        | inr (other, e) ↦ absurd (cc (other, told))
        | inl (u, e, t, stored) ↦
            resolve_journey_id-found (journey_env env.sessions after is_uuid fresh) _ _ journey_id
              (new_session u journey_id given now)
              (find_field-put_field journey_id_key (str journey_id) (own_fields given)) v
              (stored-found u n h stored) (rw (get-split_journey_id given journey_id "sbi" refl) a)
              (rw (get-split_journey_id given journey_id "submissionId" refl) b)
      ]
