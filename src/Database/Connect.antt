-- ===== src/Database/Connect.antt =====
-- What is left of a connection, and of the driver's clients, when connectDb ends.
use fcp_sfd_object_processor.Common.{
  ℕ, String, ◌≡◌, refl, ◌∙◌, ◌⊎◌, inl, inr, Option, none, some, List, ◌∷◌, ap, Bool-cases, find,
  ◌==◌, Result, ok, err, Failure, message, coded, not_found, Result-cases, if◌then◌else◌,
}
use fcp_sfd_object_processor.Json.{num, nat, same}
use fcp_sfd_object_processor.Database.{
  Coll, statuses, uploads, sessions, outbox, Index, Driver, disconnected, create_indexes,
  connect_db, close_db, existing_or_none, reconcile, reconcile_outbox, status_indexes,
  metadata_indexes, session_indexes, outbox_indexes, ◌then◌, outbox_sent_ttl_index_name,
  spec_matches, is_sent_ttl_index,
}

-- What the driver's calls do to the clients that are open, newest first: a connection adds one, a
-- closed one is gone, and the calls on indexes open and close none.
pub record Tracks {W : Type 0} (driver : Driver W) (clients : W → List ℕ) : Type 0 where
  pub connect_ok :
      (k : ℕ) (w : W) → (driver.connect w).0 ≡ ok k → clients (driver.connect w).1 ≡ (k ∷ clients w)
  pub connect_err :
      (f : Failure) (w : W)
      → (driver.connect w).0 ≡ err f
      → clients (driver.connect w).1 ≡ clients w
  pub close_ok :
      (k : ℕ) (rest : List ℕ) (w : W)
      → clients w ≡ (k ∷ rest)
      → (driver.close k w).0 ≡ ok tt
      → clients (driver.close k w).1 ≡ rest
  pub create_lem :
      (c : Coll) (is : List Index) (w : W) → clients (driver.create_indexes c is w).1 ≡ clients w
  pub indexes_lem : (c : Coll) (w : W) → clients (driver.indexes c w).1 ≡ clients w
  pub drop_lem : (c : Coll) (n : String) (w : W) → clients (driver.drop_index c n w).1 ≡ clients w
  pub mod_lem :
      (c : Coll) (n : String) (ttl : ℕ) (w : W) → clients (driver.coll_mod c n ttl w).1 ≡ clients w

module _ {W : Type 0} (driver : Driver W) (clients : W → List ℕ) (tracks : Tracks driver clients)
    (ttl : ℕ) where
  then-clients :
      {A B : Type 0} {before : List ℕ} (x : Result A × W) (f : A → W → Result B × W)
      → clients x.1 ≡ before
      → ((a : A) (v : W) → clients v ≡ before → clients (f a v).1 ≡ before)
      → clients (x then f).1 ≡ before
  unfolding ◌then◌
  then-clients (ok a, v) f h g = g a v h
  then-clients (err e, v) f h g = h

  existing_or_none-clients :
      (x : Result (List Index) × W) → clients (existing_or_none x).1 ≡ clients x.1
  existing_or_none-clients (ok is, w) = refl
  existing_or_none-clients (err (coded n m), w) = elim (Bool-cases (n == 26)) [
    | inl t ↦ rw t refl
    | inr t ↦ rw t refl
  ]
  existing_or_none-clients (err (message m), w) = refl
  existing_or_none-clients (err (not_found m), w) = refl

  reconcile-clients :
      (found : Option Index) (w : W) → clients (reconcile driver ttl found w).1 ≡ clients w
  reconcile-clients none w = refl
  reconcile-clients (some i) w = elim (Bool-cases (spec_matches i)) [
    | inr t ↦ rw t (tracks.drop_lem outbox outbox_sent_ttl_index_name w)
    | inl t ↦ elim (Bool-cases (same i.expire_after_seconds (num (nat ttl)))) [
      | inl u ↦ rw (t, u) refl
      | inr u ↦ rw (t, u) (tracks.mod_lem outbox outbox_sent_ttl_index_name ttl w)
    ]
  ]

  reconcile_outbox-clients : (w : W) → clients (reconcile_outbox driver ttl w).1 ≡ clients w
  unfolding reconcile_outbox
  reconcile_outbox-clients w =
      then-clients _ _
        (then-clients _ _
          (existing_or_none-clients (driver.indexes outbox w) ∙ tracks.indexes_lem outbox w)
          (λ is v e. reconcile-clients (find is_sent_ttl_index is) v ∙ e))
        (λ a v e. tracks.create_lem outbox (outbox_indexes ttl) v ∙ e)

  create_indexes-clients : (w : W) → clients (create_indexes driver ttl w).1 ≡ clients w
  unfolding create_indexes
  create_indexes-clients w =
      then-clients _ _
        (then-clients _ _
          (then-clients _ _ (tracks.create_lem statuses status_indexes w)
            (λ a v e. tracks.create_lem uploads metadata_indexes v ∙ e))
          (λ a v e. tracks.create_lem sessions session_indexes v ∙ e))
        (λ a v e. reconcile_outbox-clients v ∙ e)

  -- a client that is closed is gone, or its closing was refused
  closed :
      (k : ℕ) (v : W) (rest : List ℕ)
      → clients v ≡ (k ∷ rest)
      → (clients (driver.close k v).1 ≡ rest)
        ⊎ ((j : ℕ) × (u : W) × (g : Failure) × (driver.close j u ≡ (err g, (driver.close k v).1)))
  closed k v rest h = elim (Result-cases (driver.close k v).0) [
    | inl (done, e) ↦ inl (tracks.close_ok k rest v h e)
    | inr (g, e) ↦ inr (k, v, g, ap (λ r. (r, (driver.close k v).1)) e)
  ]

  -- connectDb, without a connection, either makes one, with one client more and every index that it
  -- asks for, or throws what the connection or an index was refused with. Then no connection is
  -- kept, and no client is left open, but for one whose closing was refused too.
  pub connect_db-cases :
      (w : W)
      → ((k : ℕ) × ((connect_db driver ttl disconnected w) ≡ (
        ok tt,
        record { client = some k; db = some k },
        (create_indexes driver ttl (driver.connect w).1).1,
      ))
          × ((create_indexes driver ttl (driver.connect w).1).0 ≡ ok tt)
          × (clients (create_indexes driver ttl (driver.connect w).1).1 ≡ (k ∷ clients w)))
        ⊎ ((f : Failure) × (after : W) × (connect_db driver ttl disconnected w
              ≡ (err f, disconnected, after))
            × (((driver.connect w).0 ≡ err f)
                ⊎ ((create_indexes driver ttl (driver.connect w).1).0 ≡ err f))
            × ((clients after ≡ clients w)
                ⊎ ((k : ℕ) × (v : W) × (g : Failure) × (driver.close k v ≡ (err g, after)))))
  unfolding connect_db close_db
  connect_db-cases w = elim (Result-cases (driver.connect w).0) [
    | inr (f, e) ↦ inr (f, (driver.connect w).1, rw e refl, inl e, inl (tracks.connect_err f w e))
    | inl (k, e) ↦
        let made = create_indexes driver ttl (driver.connect w).1 in
        let opened : clients made.1 ≡ (k ∷ clients w) =
          create_indexes-clients (driver.connect w).1 ∙ tracks.connect_ok k w e in
        elim (Result-cases made.0) [
          | inl (done, u) ↦ inl (k, rw (e, u) refl, u, opened)
          | inr (f, u) ↦ inr (
            f,
            (driver.close k made.1).1,
            rw (e, u) refl,
            inr u,
            closed k made.1 (clients w) opened,
          )
        ]
  ]
