-- ===== src/Database/Reconcile.antt =====
-- What createIndexes makes of the TTL index that the outbox has.
use fcp_sfd_object_processor.Common.{
  ℕ, ◌≡◌, refl, sym, ap, ◌∙◌, ◌⊎◌, inl, inr, true, false, not, none, List, map, find, any, All, In,
  arith, eq_iff, Bool-cases, Option-cases, Result, ok, In-filter, All-filter, filter-In, find-In,
  find-eq-none, any-In, All-In, All-of-In, In-map, map-In,
}
use fcp_sfd_object_processor.Json.{num, nat, same}
use fcp_sfd_object_processor.Database.{
  Coll, outbox, Index, Driver, reconcile, outbox_indexes, outbox_sent_ttl_index_name,
  sent_ttl_index, spec_matches, is_sent_ttl_index,
}
use fcp_sfd_object_processor.Database.Server.{
  with_retention, Agrees, Serves, same-num, sent_ttl_index-Agrees, Agrees-eq, AreUnique, IsExact,
}

module _ {W : Type 0} (driver : Driver W) (stored : Coll → W → List Index)
    (serves : Serves driver stored) (ttl : ℕ) (w : W)
    (exact : All (λ i. (is_sent_ttl_index i ≡ true) → IsExact i) (stored outbox w))
    (unique : AreUnique (stored outbox w))
    (others : All
      (λ i. (is_sent_ttl_index i ≡ true) ⊎ Agrees (outbox_indexes ttl) i)
      (stored outbox w)) where
  abbrev pub Keeps : W → Type 0
  Keeps v = All (λ i. (is_sent_ttl_index i ≡ true) ⊎ In i (stored outbox v)) (stored outbox w)

  -- the call succeeds, what is left agrees with what is asked for, and the other indexes are kept
  abbrev pub Reconciles : Result {0} Unit × W → Type 0
  Reconciles r = (r.0 ≡ ok tt) × All (Agrees (outbox_indexes ttl)) (stored outbox r.1) × Keeps r.1

  other-Agrees :
      (i : Index)
      → In i (stored outbox w)
      → is_sent_ttl_index i ≡ false
      → Agrees (outbox_indexes ttl) i
  other-Agrees i m f = elim (All-In _ (stored outbox w) i others m) [
    | inl t ↦ absurd (cc (t, f))
    | inr a ↦ a
  ]

  reconcile-none :
      find is_sent_ttl_index (stored outbox w) ≡ none → Reconciles (reconcile driver ttl none w)
  reconcile-none e = (
    refl,
    All-of-In _ (stored outbox w) (λ i m. other-Agrees i m (
        All-In (λ x. is_sent_ttl_index x ≡ false) (stored outbox w) i
          (find-eq-none is_sent_ttl_index (stored outbox w) e) m)),
    All-of-In _ (stored outbox w) (λ i m. inr m),
  )

  reconcile-dropped :
      any is_sent_ttl_index (stored outbox w) ≡ true
      → Reconciles (driver.drop_index outbox outbox_sent_ttl_index_name w)
  reconcile-dropped t =
      let (e, l) = serves.drop_lem outbox outbox_sent_ttl_index_name w t in
      (
        e,
        rw l (
            All-of-In _ _ (λ i m. other-Agrees i (In-filter _ i (stored outbox w) m) (
              let q =
                All-In (λ x. not (is_sent_ttl_index x) ≡ true) _ i (All-filter _ (stored outbox w))
                  m in
              ground arith))),
        rw l (
            All-of-In _ (stored outbox w) (λ i m. elim (Bool-cases (is_sent_ttl_index i)) [
              | inl u ↦ inl u
              | inr u ↦ inr (filter-In _ i (stored outbox w) (rw u refl) m)
            ])),
      )

  same_name :
      (i j : Index)
      → In i (stored outbox w)
      → In j (stored outbox w)
      → is_sent_ttl_index i ≡ true
      → is_sent_ttl_index j ≡ true
      → i ≡ j
  same_name i j m n t u = unique i j m n (
      (eq_iff i.name outbox_sent_ttl_index_name).0 t
      ∙ sym ((eq_iff j.name outbox_sent_ttl_index_name).0 u))

  reconcile-modified :
      (i : Index)
      → In i (stored outbox w)
      → is_sent_ttl_index i ≡ true
      → spec_matches i ≡ true
      → Reconciles (driver.coll_mod outbox outbox_sent_ttl_index_name ttl w)
  reconcile-modified i m t q =
      let (e, l) =
        serves.mod_lem outbox outbox_sent_ttl_index_name ttl w
          (any-In is_sent_ttl_index i (stored outbox w) m t) in
      (
        e,
        rw l (
            All-of-In _ _ (λ k n.
              let (j, n', same_k) =
                In-map (with_retention outbox_sent_ttl_index_name ttl) k (stored outbox w) n in
              rw same_k (modified j n'))),
        rw l (All-of-In _ (stored outbox w) (λ j n. kept j n)),
      )
    where
      modified :
          (j : Index)
          → In j (stored outbox w)
          → Agrees (outbox_indexes ttl) (with_retention outbox_sent_ttl_index_name ttl j)
      modified j n = elim (Bool-cases (is_sent_ttl_index j)) [
        | inr u ↦ rw u (other-Agrees j n u)
        | inl u ↦
            let same_ij : i ≡ j = same_name i j m n t u in
            let e = All-In _ (stored outbox w) j exact n u (rw same_ij at q) in
            let f = ap {A = Index} (λ k. record k { expire_after_seconds = num (nat ttl) }) e in
            Agrees-eq (outbox_indexes ttl) (with_retention outbox_sent_ttl_index_name ttl j)
              (sent_ttl_index (num (nat ttl))) (rw u f) (sent_ttl_index-Agrees ttl)
      ]

      kept :
          (j : Index)
          → In j (stored outbox w)
          → (is_sent_ttl_index j ≡ true)
            ⊎ In j (map (with_retention outbox_sent_ttl_index_name ttl) (stored outbox w))
      kept j n = elim (Bool-cases (is_sent_ttl_index j)) [
        | inl u ↦ inl u
        | inr u ↦
            inr (
              rw u at
                (map-In (with_retention outbox_sent_ttl_index_name ttl) j (stored outbox w) n))
      ]

  reconcile-unchanged :
      (i : Index)
      → In i (stored outbox w)
      → is_sent_ttl_index i ≡ true
      → spec_matches i ≡ true
      → same i.expire_after_seconds (num (nat ttl)) ≡ true
      → Reconciles (ok tt, w)
  reconcile-unchanged i m t q r = (
    refl,
    All-of-In _ (stored outbox w) (λ j n. elim (Bool-cases (is_sent_ttl_index j)) [
      | inr u ↦ other-Agrees j n u
      | inl u ↦
          let e = All-In _ (stored outbox w) i exact m t q in
          let f = ap sent_ttl_index (same-num ttl i.expire_after_seconds r) in
          Agrees-eq (outbox_indexes ttl) j (sent_ttl_index (num (nat ttl)))
            (sym (same_name i j m n t u) ∙ (e ∙ f)) (sent_ttl_index-Agrees ttl)
    ]),
    All-of-In _ (stored outbox w) (λ j n. inr n),
  )

  pub reconcile-Reconciles :
      Reconciles (reconcile driver ttl (find is_sent_ttl_index (stored outbox w)) w)
  reconcile-Reconciles = elim (Option-cases (find is_sent_ttl_index (stored outbox w))) [
    | inl e ↦ rw e (reconcile-none e)
    | inr (i, e) ↦
        let (m, t) = find-In is_sent_ttl_index (stored outbox w) i e in
        elim (Bool-cases (spec_matches i)) [
          | inr q ↦ rw (e, q) (reconcile-dropped (any-In is_sent_ttl_index i (stored outbox w) m t))
          | inl q ↦ elim (Bool-cases (same i.expire_after_seconds (num (nat ttl)))) [
            | inr r ↦ rw (e, q, r) (reconcile-modified i m t q)
            | inl r ↦ rw (e, q, r) (reconcile-unchanged i m t q r)
          ]
        ]
  ]
