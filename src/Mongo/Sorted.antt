-- ===== src/Mongo/Sorted.antt =====
-- Sorting a list by a key, oldest first.
use fcp_sfd_object_processor.Common.{
  ℕ, ◌≤◌, inl, inr, List, [], ◌∷◌, leb, leb→le, arith, if◌then◌else◌, All, All-imp, All-In, In,
  here, there, Bool-cases,
}
use fcp_sfd_object_processor.Mongo.{IsOldestFirst}

module _ {D : Type 0} (key : D → ℕ) where
  abbrev insert_oldest : D → List D → List D
  insert_oldest d [] = d ∷ []
  insert_oldest d (e ∷ es) =
      let rest = insert_oldest d es in if leb (key d) (key e) then d ∷ e ∷ es else e ∷ rest

  abbrev pub oldest_first : List D → List D
  oldest_first [] = []
  oldest_first (d ∷ ds) = insert_oldest d (oldest_first ds)

  insert_oldest-All :
      (P : D → Type 0) (d : D) (c : List D) → P d → All P c → All P (insert_oldest d c)
  insert_oldest-All P d [] p a = (p, tt)
  insert_oldest-All P d (e ∷ c) p a = elim (Bool-cases (leb (key d) (key e))) [
    | inl t ↦ rw t (p, a)
    | inr t ↦ rw t (a.0, insert_oldest-All P d c p a.1)
  ]

  insert_oldest-IsOldestFirst :
      (d : D) (c : List D) → IsOldestFirst key c → IsOldestFirst key (insert_oldest d c)
  insert_oldest-IsOldestFirst d [] s = (tt, tt)
  insert_oldest-IsOldestFirst d (e ∷ c) s = elim (Bool-cases (leb (key d) (key e))) [
    | inl t ↦
        let l = leb→le (key d) (key e) t in
        rw t ((l, All-imp (λ x. key e ≤ key x) (λ x. key d ≤ key x) (λ x h. omega arith) c s.0), s)
    | inr t ↦
        let l : key e ≤ key d = ground (arith, t) in
        rw t (insert_oldest-All (λ x. key e ≤ key x) d c l s.0, insert_oldest-IsOldestFirst d c s.1)
  ]

  pub oldest_first-IsOldestFirst : (c : List D) → IsOldestFirst key (oldest_first c)
  oldest_first-IsOldestFirst [] = tt
  oldest_first-IsOldestFirst (d ∷ c) =
      insert_oldest-IsOldestFirst d (oldest_first c) (oldest_first-IsOldestFirst c)

  insert_oldest-self : (d : D) (c : List D) → In d (insert_oldest d c)
  insert_oldest-self d [] = here
  insert_oldest-self d (e ∷ c) = elim (Bool-cases (leb (key d) (key e))) [
    | inl t ↦ rw t here
    | inr t ↦ rw t (there (insert_oldest-self d c))
  ]

  insert_oldest-keeps : (d x : D) (c : List D) → In x c → In x (insert_oldest d c)
  insert_oldest-keeps d x [] m = elim m [ ]
  insert_oldest-keeps d x (e ∷ c) here = elim (Bool-cases (leb (key d) (key e))) [
    | inl t ↦ rw t (there here)
    | inr t ↦ rw t here
  ]
  insert_oldest-keeps d x (e ∷ c) (there m) = elim (Bool-cases (leb (key d) (key e))) [
    | inl t ↦ rw t (there (there m))
    | inr t ↦ rw t (there (insert_oldest-keeps d x c m))
  ]

  pub oldest_first-In : (x : D) (c : List D) → In x c → In x (oldest_first c)
  oldest_first-In x [] m = elim m [ ]
  oldest_first-In x (d ∷ c) here = insert_oldest-self d (oldest_first c)
  oldest_first-In x (d ∷ c) (there m) =
      insert_oldest-keeps d x (oldest_first c) (oldest_first-In x c m)

  -- each element of a sorted list was in the list
  pub In-oldest_first : (x : D) (c : List D) → In x (oldest_first c) → In x c
  In-oldest_first x c m = All-In (λ y. In y c) (oldest_first c) x (all_from c) m
    where
      all_from : (c : List D) → All (λ y. In y c) (oldest_first c)
      all_from [] = tt
      all_from (d ∷ c) =
          insert_oldest-All (λ y. In y (d ∷ c)) d (oldest_first c) here
            (All-imp (λ y. In y c) (λ y. In y (d ∷ c)) (λ y n. there n) (oldest_first c)
              (all_from c))
