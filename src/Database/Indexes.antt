-- ===== src/Database/Indexes.antt =====
-- What the outbox's indexes are after createIndexes.
use fcp_sfd_object_processor.Common.{
  ℕ, ◌≡◌, refl, sym, ◌∙◌, ◌⊎◌, inl, inr, true, List, All, In, find, Result, ok, All-of-In, All-imp,
  In-append,
}
use fcp_sfd_object_processor.Database.{
  Coll, statuses, uploads, sessions, outbox, Index, Driver, Outcome, create_indexes,
  existing_or_none, reconcile, reconcile_outbox, status_indexes, metadata_indexes, session_indexes,
  outbox_indexes, ◌then◌, is_sent_ttl_index,
}
use fcp_sfd_object_processor.Database.Server.{Agrees, AreUnique, Serves, IsExact, In-missing}
use fcp_sfd_object_processor.Database.Reconcile.{reconcile-Reconciles}

then-ok :
    {W A B : Type 0} (x : Result A × W) (f : A → W → Result B × W) (a : A)
    → x.0 ≡ ok a
    → (x then f) ≡ f a x.1
unfolding ◌then◌
then-ok x f a e = rw e refl

All-eq : (P : Index → Type 0) (is js : List Index) → is ≡ js → All P is → All P js
All-eq P is js e h = rw (← e) h

AreUnique-eq : (is js : List Index) → is ≡ js → AreUnique is → AreUnique js
AreUnique-eq is js e h = rw (← e) h

-- what is asked of the outbox's indexes: a TTL index differs from the wanted one in the ways that
-- are looked at, and the others do not clash with the wanted ones
abbrev pub IsOwn : ℕ → Index → Type 0
IsOwn ttl i =
    ((is_sent_ttl_index i ≡ true) → IsExact i)
    × ((is_sent_ttl_index i ≡ true) ⊎ Agrees (outbox_indexes ttl) i)

-- all wanted indexes are there, and the others are kept
abbrev pub HasIndexes : ℕ → List Index → List Index → Type 0
HasIndexes ttl before after =
    All (λ s. In s after) (outbox_indexes ttl)
    × All (λ i. (is_sent_ttl_index i ≡ true) ⊎ In i after) before

module _ {W : Type 0} (driver : Driver W) (stored : Coll → W → List Index)
    (serves : Serves driver stored) (ttl : ℕ) where
  -- the world once the indexes are listed
  abbrev after_list : W → W
  after_list w = (driver.indexes outbox w).1

  listed :
      (w : W)
      → existing_or_none (driver.indexes outbox w)
        ≡ (ok (stored outbox (after_list w)), after_list w)
  listed w =
      let (l, r) = serves.indexes_lem outbox w in
      elim r [ inl e ↦ rw (l, e) refl | inr (m, e, n) ↦ rw (l, e, n) refl ]

  after_list-eq : (w : W) → stored outbox (after_list w) ≡ stored outbox w
  after_list-eq w = (serves.indexes_lem outbox w).0

  HasIndexes-create :
      (before : List Index) (u : W)
      → All (Agrees (outbox_indexes ttl)) (stored outbox u)
      → All (λ i. (is_sent_ttl_index i ≡ true) ⊎ In i (stored outbox u)) before
      → ((driver.create_indexes outbox (outbox_indexes ttl) u).0 ≡ ok tt)
        × HasIndexes ttl before
            (stored outbox (driver.create_indexes outbox (outbox_indexes ttl) u).1)
  HasIndexes-create before u a k =
      let (e, l) = serves.create_lem outbox (outbox_indexes ttl) u a in
      (
        e,
        rw l (
          All-of-In _ (outbox_indexes ttl)
              (λ s m. In-missing (stored outbox u) (outbox_indexes ttl) s a m),
          All-imp _ _
              (λ i c. elim c [ inl t ↦ inl t | inr m ↦ inr (In-append i (stored outbox u) _ m) ])
              before k,
        ),
      )

  reconcile_outbox-eq :
      (w : W) (r : Outcome × W)
      → r
        ≡ reconcile driver ttl
            (find is_sent_ttl_index (stored outbox (after_list w)))
            (after_list w)
      → r.0 ≡ ok tt
      → reconcile_outbox driver ttl w ≡ driver.create_indexes outbox (outbox_indexes ttl) r.1
  unfolding reconcile_outbox ◌then◌
  reconcile_outbox-eq w r e o = rw (listed w, ← e, o) refl

  reconcile_outbox-HasIndexes :
      (w : W)
      → AreUnique (stored outbox w)
      → All (IsOwn ttl) (stored outbox w)
      → ((reconcile_outbox driver ttl w).0 ≡ ok tt)
        × HasIndexes ttl (stored outbox w) (stored outbox (reconcile_outbox driver ttl w).1)
  reconcile_outbox-HasIndexes w unique h =
      let v = after_list w in
      let h' : All (IsOwn ttl) (stored outbox v) = rw (after_list-eq w) h in
      let r = reconcile driver ttl (find is_sent_ttl_index (stored outbox v)) v in
      let (o, a, k) =
        reconcile-Reconciles driver stored serves ttl v
          (All-imp (IsOwn ttl) _ (λ i p. p.0) (stored outbox v) h')
          (AreUnique-eq _ _ (sym (after_list-eq w)) unique)
          (All-imp (IsOwn ttl) _ (λ i p. p.1) (stored outbox v) h') in
      rw (reconcile_outbox-eq w r refl o) (
        HasIndexes-create (stored outbox w) r.1 a
          (All-eq _ (stored outbox v) (stored outbox w) (after_list-eq w) k))

  -- the worlds once the indexes of the other collections are made
  abbrev with_statuses : W → W
  with_statuses w = (driver.create_indexes statuses status_indexes w).1

  abbrev with_uploads : W → W
  with_uploads w = (driver.create_indexes uploads metadata_indexes (with_statuses w)).1

  abbrev with_sessions : W → W
  with_sessions w = (driver.create_indexes sessions session_indexes (with_uploads w)).1

  create_indexes-eq :
      (w : W)
      → (driver.create_indexes statuses status_indexes w).0 ≡ ok tt
      → (driver.create_indexes uploads metadata_indexes (with_statuses w)).0 ≡ ok tt
      → (driver.create_indexes sessions session_indexes (with_uploads w)).0 ≡ ok tt
      → create_indexes driver ttl w ≡ reconcile_outbox driver ttl (with_sessions w)
  unfolding create_indexes ◌then◌
  create_indexes-eq w e1 e2 e3 = rw (e1, e2, e3) refl

  -- createIndexes succeeds on a server that is reached, whatever the outbox's TTL index was before:
  -- there was none, or not even the collection, it had another key or filter, or another retention.
  -- Afterwards the outbox has every index that is asked for, the TTL index with the configured
  -- retention among them, and every other index that it had. The indexes that exist have different
  -- names and must not clash with those asked for, and a TTL index that passes the code's test must
  -- have no more in its key and filter than the test looks at.
  pub create_indexes-HasIndexes :
      (w : W)
      → All (Agrees status_indexes) (stored statuses w)
      → All (Agrees metadata_indexes) (stored uploads w)
      → All (Agrees session_indexes) (stored sessions w)
      → AreUnique (stored outbox w)
      → All (IsOwn ttl) (stored outbox w)
      → ((create_indexes driver ttl w).0 ≡ ok tt)
        × HasIndexes ttl (stored outbox w) (stored outbox (create_indexes driver ttl w).1)
  create_indexes-HasIndexes w h1 h2 h3 unique h =
      let w1 = with_statuses w in
      let w2 = with_uploads w in
      let w3 = with_sessions w in
      let uploads1 : stored uploads w1 ≡ stored uploads w =
        serves.create_other statuses uploads status_indexes w (λ e. absurd (cc e)) in
      let sessions2 : stored sessions w2 ≡ stored sessions w =
        serves.create_other uploads sessions metadata_indexes w1 (λ e. absurd (cc e))
        ∙ serves.create_other statuses sessions status_indexes w (λ e. absurd (cc e)) in
      let outbox3 : stored outbox w3 ≡ stored outbox w =
        serves.create_other sessions outbox session_indexes w2 (λ e. absurd (cc e))
        ∙ (serves.create_other uploads outbox metadata_indexes w1 (λ e. absurd (cc e))
            ∙ serves.create_other statuses outbox status_indexes w (λ e. absurd (cc e))) in
      let (e1, l1) = serves.create_lem statuses status_indexes w h1 in
      let (e2, l2) =
        serves.create_lem uploads metadata_indexes w1 (All-eq _ _ _ (sym uploads1) h2) in
      let (e3, l3) =
        serves.create_lem sessions session_indexes w2 (All-eq _ _ _ (sym sessions2) h3) in
      let (o, (wanted, kept)) =
        reconcile_outbox-HasIndexes w3 (AreUnique-eq _ _ (sym outbox3) unique)
          (All-eq _ _ _ (sym outbox3) h) in
      rw (create_indexes-eq w e1 e2 e3) (o, (wanted, All-eq _ _ _ outbox3 kept))
