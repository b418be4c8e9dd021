-- ===== src/Metadata/Paging/Newest.antt =====
-- Sorting documents with distinct keys, and filtering what was sorted.
use fcp_sfd_object_processor.Common.{
  ℕ, ◌≤◌, ◌<◌, ◌≡◌, ◌≢◌, refl, sym, ap, ◌∙◌, inl, inr, Bool, true, List, [], ◌∷◌, arith, leb,
  filter, All, All-imp, if◌then◌else◌, Bool-cases,
}
use fcp_sfd_object_processor.Mongo.{insert_newest, newest_first, AreDistinct}

module _ {D : Type 0} (P : D → Type 0) where
  pub All-filter : (p : D → Bool) (c : List D) → All P c → All P (filter p c)
  All-filter p [] h = tt
  All-filter p (d ∷ c) h = elim (Bool-cases (p d)) [
    | inl t ↦ rw t (h.0, All-filter p c h.1)
    | inr t ↦ rw t (All-filter p c h.1)
  ]

  All-insert_newest :
      (key : D → ℕ) (d : D) (c : List D) → P d → All P c → All P (insert_newest key d c)
  All-insert_newest key d [] p h = (p, tt)
  All-insert_newest key d (e ∷ c) p h = elim (Bool-cases (leb (key e) (key d))) [
    | inl t ↦ rw t (p, h)
    | inr t ↦ rw t (h.0, All-insert_newest key d c p h.1)
  ]

  pub All-newest_first : (key : D → ℕ) (c : List D) → All P c → All P (newest_first key c)
  All-newest_first key [] h = tt
  All-newest_first key (d ∷ c) h =
      All-insert_newest key d (newest_first key c) h.0 (All-newest_first key c h.1)

module _ {D : Type 0} (key : D → ℕ) where
  abbrev pub IsNewestFirst : List D → Type 0
  IsNewestFirst [] = Unit
  IsNewestFirst (d ∷ c) = All (λ e. key e < key d) c × IsNewestFirst c

  insert_newest-IsNewestFirst :
      (d : D) (c : List D)
      → All (λ e. key e ≢ key d) c
      → IsNewestFirst c
      → IsNewestFirst (insert_newest key d c)
  insert_newest-IsNewestFirst d [] n s = (tt, tt)
  insert_newest-IsNewestFirst d (e ∷ c) n s = elim (Bool-cases (leb (key e) (key d))) [
    | inl t ↦
        let lt : key e < key d = ground (arith, n.0) in
        rw t ((lt, All-imp (λ x. key x < key e) (λ x. key x < key d) (λ x h. omega arith) c s.0), s)
    | inr t ↦ rw t (
      All-insert_newest (λ x. key x < key e) key d c (ground arith) s.0,
      insert_newest-IsNewestFirst d c n.1 s.1,
    )
  ]

  pub newest_first-IsNewestFirst :
      (c : List D) → AreDistinct key c → IsNewestFirst (newest_first key c)
  newest_first-IsNewestFirst [] h = tt
  newest_first-IsNewestFirst (d ∷ c) h =
      insert_newest-IsNewestFirst d (newest_first key c)
        (All-newest_first (λ e. key e ≢ key d) key c h.0) (newest_first-IsNewestFirst c h.1)

  pub filter-AreDistinct :
      (p : D → Bool) (c : List D) → AreDistinct key c → AreDistinct key (filter p c)
  filter-AreDistinct p [] h = tt
  filter-AreDistinct p (d ∷ c) h = elim (Bool-cases (p d)) [
    | inl t ↦ rw t (All-filter (λ e. key e ≢ key d) p c h.0, filter-AreDistinct p c h.1)
    | inr t ↦ rw t (filter-AreDistinct p c h.1)
  ]

  -- a document that no other is above is inserted in front
  insert_newest_front :
      (d : D) (c : List D) → All (λ e. key e ≤ key d) c → insert_newest key d c ≡ d ∷ c
  insert_newest_front d [] h = refl
  insert_newest_front d (e ∷ c) h = let t : leb (key e) (key d) ≡ true = ground arith in rw t refl

  filter-insert_newest :
      (p : D → Bool) (d : D) (c : List D)
      → IsNewestFirst c
      → filter p (insert_newest key d c)
        ≡ (if p d then insert_newest key d (filter p c) else filter p c)
  filter-insert_newest p d [] s = refl
  filter-insert_newest p d (e ∷ c) s = elim (Bool-cases (leb (key e) (key d))) [
    | inl t ↦ elim (Bool-cases (p d)) [
      | inr o ↦ rw (t, o) refl
      | inl o ↦
          let le = All-imp (λ x. key x < key e) (λ x. key x ≤ key d) (λ x h. ground arith) c s.0 in
          rw (t, o)
            (sym (
              insert_newest_front d (filter p (e ∷ c))
                (All-filter (λ x. key x ≤ key d) p (e ∷ c) (ground arith, le))))
    ]
    | inr t ↦
        let ih = filter-insert_newest p d c s.1 in
        elim (Bool-cases (p d)) [
          | inl o ↦ elim (Bool-cases (p e)) [
            | inl q ↦ rw (t, o, q) (rw t (ap (λ r. e ∷ r) (rw o at ih)))
            | inr q ↦ rw (t, o, q) ((rw o at ih))
          ]
          | inr o ↦ elim (Bool-cases (p e)) [
            | inl q ↦ rw (t, o, q) ((ap (λ r. e ∷ r) (rw o at ih)))
            | inr q ↦ rw (t, o, q) ((rw o at ih))
          ]
        ]
  ]

  pub filter-newest_first :
      (p : D → Bool) (c : List D)
      → AreDistinct key c
      → filter p (newest_first key c) ≡ newest_first key (filter p c)
  filter-newest_first p [] h = refl
  filter-newest_first p (d ∷ c) h =
      let kept = filter-insert_newest p d (newest_first key c) (newest_first-IsNewestFirst c h.1) in
      let ih = filter-newest_first p c h.1 in
      elim (Bool-cases (p d)) [
        | inl t ↦ rw t ((rw t at kept) ∙ ap (insert_newest key d) ih)
        | inr t ↦ rw t ((rw t at kept) ∙ ih)
      ]

  pub filter-IsNewestFirst :
      (p : D → Bool) (c : List D) → IsNewestFirst c → IsNewestFirst (filter p c)
  filter-IsNewestFirst p [] h = tt
  filter-IsNewestFirst p (d ∷ c) h = elim (Bool-cases (p d)) [
    | inl t ↦ rw t (All-filter (λ e. key e < key d) p c h.0, filter-IsNewestFirst p c h.1)
    | inr t ↦ rw t (filter-IsNewestFirst p c h.1)
  ]
