-- ===== src/Mongo/Lists.antt =====
-- A collection that meets the laws of the driver, for the tests and the concrete instances.
use fcp_sfd_object_processor.Common.{
  ℕ, ◌≤◌, ◌≡◌, refl, ap, inl, inr, Bool, true, false, Option, none, some, List, [], ◌∷◌, ◌++◌,
  arith, leb, leb→le, take, if◌then◌else◌, All, filter, find, count, Bool-cases,
}
use fcp_sfd_object_processor.Mongo.{
  Collection, FindOne, replace_matching, insert_result, newest_first,
}
use fcp_sfd_object_processor.Mongo.Sorted.{
  oldest_first, oldest_first-IsOldestFirst, oldest_first-In, In-oldest_first,
}

module _ {D : Type 0} (key : D → ℕ) (p : D → Bool) where
  -- the place of a matching document with the least key
  abbrev least : List D → Option (List D × D × List D)
  least [] = none
  least (d ∷ c) = elim (least c) [
    | none ↦ if p d then some ([], d, c) else none
    | some (xs, e, ys) ↦
        if p d
        then (if leb (key d) (key e) then some ([], d, c) else some (d ∷ xs, e, ys))
        else some (d ∷ xs, e, ys)
  ]

abbrev update_least : {D : Type 0} → (D → ℕ) → (D → Bool) → (D → D) → List D → Option D × List D
update_least key p f c = elim (least key p c) [
  | none ↦ (none, c)
  | some (xs, d, ys) ↦ (some d, xs ++ (f d ∷ ys))
]

module _ {D : Type 0} (key : D → ℕ) (p : D → Bool) where
  abbrev IsLeast : List D → Option (List D × D × List D) → Type 0
  IsLeast c none = All (λ d. p d ≡ false) c
  IsLeast c (some (xs, d, ys)) =
      (c ≡ xs ++ (d ∷ ys)) × (p d ≡ true) × All (λ e. p e ≡ true → key d ≤ key e) c

  trivially : (k : ℕ) (c : List D) → All (λ d. p d ≡ false) c → All (λ e. p e ≡ true → k ≤ key e) c
  trivially k [] h = tt
  trivially k (d ∷ c) h = (λ e. ground (arith, h.0), trivially k c h.1)

  lower :
      (k m : ℕ) (c : List D)
      → k ≤ m
      → All (λ e. p e ≡ true → m ≤ key e) c
      → All (λ e. p e ≡ true → k ≤ key e) c
  lower k m [] h a = tt
  lower k m (d ∷ c) h a = (λ e. omega (arith, a.0 e), lower k m c h a.1)

  IsLeast-add :
      (d : D) (c : List D) (r : Option (List D × D × List D))
      → IsLeast c r
      → IsLeast (d ∷ c) (elim r [
        | none ↦ if p d then some ([], d, c) else none
        | some (xs, e, ys) ↦
            if p d
            then (if leb (key d) (key e) then some ([], d, c) else some (d ∷ xs, e, ys))
            else some (d ∷ xs, e, ys)
      ])
  IsLeast-add d c none h = elim (Bool-cases (p d)) [
    | inl t ↦ rw t (refl, t, ((λ _. omega arith), trivially (key d) c h))
    | inr t ↦ rw t (t, h)
  ]
  IsLeast-add d c (some (xs, e, ys)) (eq, pe, a) = elim (Bool-cases (p d)) [
    | inl t ↦ elim (Bool-cases (leb (key d) (key e))) [
      | inl l ↦ rw (t, l) (refl, t, ((λ _. omega arith), lower (key d) (key e) c (leb→le _ _ l) a))
      | inr l ↦ rw (t, l) (ap (λ r. d ∷ r) eq, pe, ((λ _. ground arith), a))
    ]
    | inr t ↦ rw t (ap (λ r. d ∷ r) eq, pe, ((λ s. ground arith), a))
  ]

  least_lem : (c : List D) → IsLeast c (least key p c)
  least_lem [] = tt
  least_lem (d ∷ c) = IsLeast-add d c (least key p c) (least_lem c)

  update_least_from :
      (f : D → D) (c : List D) (r : Option (List D × D × List D))
      → IsLeast c r
      → FindOne key p f c
          (elim r [ none ↦ (none, c) | some (xs, d, ys) ↦ (some d, xs ++ (f d ∷ ys)) ])
  update_least_from f c none h = inl (h, refl)
  update_least_from f c (some (xs, d, ys)) (eq, pd, a) = inr (xs, d, ys, eq, pd, a, refl)

  pub update_least_lem : (f : D → D) (c : List D) → FindOne key p f c (update_least key p f c)
  update_least_lem f c = update_least_from f c (least key p c) (least_lem c)

abbrev pub list_collection : {D : Type 0} → Collection D
list_collection {D} = record {
  acknowledged = true;
  find_one_and_update = update_least;
  find_one_and_update_lem = update_least_lem;
  update_many = λ p f c. (count p c, replace_matching p f c);
  update_many_lem = λ p f c. refl;
  find_all = filter;
  find_all_lem = λ p c. refl;
  find_newest = λ p key n c. take n (newest_first key (filter p c));
  find_newest_lem = λ p key n c h. refl;
  find_oldest = λ p key n c. take n (oldest_first key (filter p c));
  find_oldest_lem = λ p key n c h. (
    oldest_first key (filter p c),
    oldest_first-IsOldestFirst key (filter p c),
    (λ d m. oldest_first-In key d (filter p c) m),
    (λ d m. In-oldest_first key d (filter p c) m),
    refl,
  );
  find_first = find;
  find_first_lem = λ p c. refl;
  insert_many = insert_result;
  insert_many_lem = λ clash news c. refl;
}
