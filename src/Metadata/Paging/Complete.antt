-- ===== src/Metadata/Paging/Complete.antt =====
-- The pages of a business, read one after the other, are its documents.
use fcp_sfd_object_processor.Common.{
  ℕ, zero, suc, ◌+◌, ◌≤◌, ◌<◌, min, ◌≡◌, refl, sym, ap, ◌∙◌, inl, inr, Bool, true, false, ◌&&◌,
  Option, none, some, List, [], ◌∷◌, ◌++◌, arith, ltb, filter, length, take, drop, is_empty, All,
  All-imp, Bool-cases, take-append-drop, length-take, length-drop,
}
use fcp_sfd_object_processor.Json.{Json}
use fcp_sfd_object_processor.Document.{Stored}
use fcp_sfd_object_processor.Mongo.{Collection, newest_first, AreDistinct}
use fcp_sfd_object_processor.Metadata.{
  below, is_of_sbi, last_id, is_none, metadata_page, metadata_page_by_sbi,
}
use fcp_sfd_object_processor.Metadata.Paging.{
  id_of, continue_from, after_page, read_all, filter-and, filter-All, All-below-filter, last_id-lt,
  All-take, filter-below-last,
}
use fcp_sfd_object_processor.Metadata.Paging.Newest.{
  IsNewestFirst, newest_first-IsNewestFirst, filter-newest_first, filter-AreDistinct,
  filter-IsNewestFirst,
}

take-take : (n m : ℕ) (c : List Stored) → n ≤ m → take n (take m c) ≡ take n c
take-take zero m c h = refl
take-take (suc n) zero c h = elim h [ ]
take-take (suc n) (suc m) [] h = refl
take-take (suc n) (suc m) (d ∷ c) h = ap (λ r. d ∷ r) (take-take n m c (omega arith))

take_of_short : (m : ℕ) (c : List Stored) → length c ≤ m → take m c ≡ c
take_of_short zero [] h = refl
take_of_short zero (d ∷ c) h = elim h [ ]
take_of_short (suc m) [] h = refl
take_of_short (suc m) (d ∷ c) h = ap (λ r. d ∷ r) (take_of_short m c (omega arith))

last_id-cons : (d : Stored) (c : List Stored) → (k : ℕ) × (last_id (d ∷ c) ≡ some k)
last_id-cons d [] = (d.id, refl)
last_id-cons d (x ∷ c) = last_id-cons x c

last_id_of_page :
    (n : ℕ) (c : List Stored) → 0 < n → 0 < length c → (k : ℕ) × (last_id (take n c) ≡ some k)
last_id_of_page zero c h l = elim h [ ]
last_id_of_page (suc n) [] h l = elim l [ ]
last_id_of_page (suc n) (d ∷ c) h l = last_id-cons d (take n c)

is_empty-false : (c : List Stored) → 0 < length c → is_empty c ≡ false
is_empty-false [] h = elim h [ ]
is_empty-false (d ∷ c) h = refl

goes_on :
    (next : ℕ → Option (List Stored)) (documents : List Stored) (j : ℕ) {rest : List Stored}
    → next j ≡ some rest
    → continue_from next (record { documents = documents; has_more = true; next_cursor = some j })
      ≡ some (documents ++ rest)
goes_on next documents j h = rw (continue_from, h) refl

-- One page of what is left, with a client that goes on behind it.
page-reads :
    (n : ℕ) (cursor : Option ℕ) (rest : List Stored) (next : ℕ → Option (List Stored))
    → 0 < n
    → ((k : ℕ) → n < length rest → last_id (take n rest) ≡ some k → next k ≡ some (drop n rest))
    → after_page next (metadata_page n cursor (take (n + 1) rest)) ≡ some rest
unfolding metadata_page
page-reads n cursor [] next h k =
    let t : ltb n 0 ≡ false = ground arith in
    elim (Bool-cases (is_none cursor)) [
      | inl c ↦ rw (take_of_short (n + 1) [] (omega arith), c) refl
      | inr c ↦ rw (take_of_short (n + 1) [] (omega arith), c, t) refl
    ]
page-reads n cursor (d ∷ rest) next h k =
    let size : length (take (n + 1) (d ∷ rest)) ≡ min (n + 1) (length (d ∷ rest)) =
      length-take (n + 1) (d ∷ rest) in
    elim (Bool-cases (ltb n (length (d ∷ rest)))) [
      | inl t ↦
          let e = is_empty-false (take (n + 1) (d ∷ rest)) (omega (arith, size)) in
          let u : ltb n (length (take (n + 1) (d ∷ rest))) ≡ true = ground (arith, size) in
          let (j, l) = last_id_of_page n (d ∷ rest) h (omega arith) in
          let same = take-take n (n + 1) (d ∷ rest) (omega arith) in
          rw (e, u, same, l)
            (goes_on next (take n (d ∷ rest)) j (k j (ground arith) l)
              ∙ ap some (take-append-drop n (d ∷ rest)))
      | inr t ↦ rw (take_of_short (n + 1) (d ∷ rest) (ground arith), t) refl
    ]

filter-cong :
    (p q : Stored → Bool) (c : List Stored) → ((s : Stored) → p s ≡ q s) → filter p c ≡ filter q c
filter-cong p q [] h = refl
filter-cong p q (s ∷ c) h = rw (h s, filter-cong p q c h) refl

-- A cursor below another selects below both.
filter-below-below :
    (k : ℕ) (cursor : Option ℕ) (c : List Stored)
    → ((s : Stored) → s.id < k → below cursor s ≡ true)
    → filter (below (some k)) (filter (below cursor) c) ≡ filter (below (some k)) c
filter-below-below k cursor c h =
    sym (filter-and (below cursor) (below (some k)) c)
    ∙ filter-cong (λ s. below cursor s && below (some k) s) (below (some k)) c
        (λ s. ground (arith, h s))

cursor_above :
    (k n : ℕ) (cursor : Option ℕ) (rest : List Stored)
    → All (λ s. below cursor s ≡ true) rest
    → last_id (take n rest) ≡ some k
    → (s : Stored) → s.id < k
    → below cursor s ≡ true
cursor_above k n none rest h l s lt = refl
cursor_above k n (some b) rest h l s lt =
    let up : k < b =
      last_id-lt b k (take n rest)
        (All-take (λ x. x.id < b) n rest
          (All-imp (λ x. below (some b) x ≡ true) (λ x. x.id < b) (λ x t. ground arith) rest h))
        l in
    ground arith

module _ (db : Collection Stored) (sbi : Json) (n : ℕ) (c : List Stored)
    (distinct : AreDistinct id_of c) where
  -- the documents of the business, newest first
  abbrev sorted : List Stored
  sorted = newest_first id_of (filter (is_of_sbi sbi) c)

  sorted-IsNewestFirst : IsNewestFirst id_of sorted
  sorted-IsNewestFirst =
      newest_first-IsNewestFirst id_of (filter (is_of_sbi sbi) c)
        (filter-AreDistinct id_of (is_of_sbi sbi) c distinct)

  found :
      (cursor : Option ℕ)
      → db.find_newest (λ s. is_of_sbi sbi s && below cursor s) id_of (n + 1) c
        ≡ take (n + 1) (filter (below cursor) sorted)
  found cursor =
      db.find_newest_lem (λ s. is_of_sbi sbi s && below cursor s) id_of (n + 1) c distinct
      ∙ ap (take (n + 1)) (
          ap (newest_first id_of) (filter-and (is_of_sbi sbi) (below cursor) c)
          ∙ sym (
              filter-newest_first id_of (below cursor) (filter (is_of_sbi sbi) c)
                (filter-AreDistinct id_of (is_of_sbi sbi) c distinct)))

  read_all-from :
      (fuel : ℕ) (cursor : Option ℕ) (rest : List Stored)
      → 0 < n
      → filter (below cursor) sorted ≡ rest
      → length rest < fuel
      → read_all db sbi n c fuel cursor ≡ some rest
  unfolding read_all metadata_page_by_sbi
  read_all-from zero cursor rest h e l = elim l [ ]
  read_all-from (suc fuel) cursor rest h e l =
      rw (found cursor, e)
        (page-reads n cursor rest (λ k. read_all db sbi n c fuel (some k)) h
          (λ k longer last.
            read_all-from fuel (some k) (drop n rest) h (next_rest k last)
              (omega (arith, length-drop n rest))))
    where
      next_rest :
          (k : ℕ) → last_id (take n rest) ≡ some k → filter (below (some k)) sorted ≡ drop n rest
      next_rest k last =
          sym (
            filter-below-below k cursor sorted
              (cursor_above k n cursor rest (rw e at (All-below-filter cursor sorted)) last))
          ∙ (rw e (
              filter-below-last n k rest
                (rw e at (filter-IsNewestFirst id_of (below cursor) sorted sorted-IsNewestFirst))
                last))

  -- A client that starts without a cursor and asks for a page until one has no further cursor gets
  -- the documents of the business, all of them, each once, newest first, where the page size is
  -- positive and no two documents have the same identifier. It needs no more requests than there
  -- are documents of the business, and one.
  pub read_all-newest_first :
      (fuel : ℕ)
      → 0 < n
      → length (newest_first id_of (filter (is_of_sbi sbi) c)) < fuel
      → read_all db sbi n c fuel none ≡ some (newest_first id_of (filter (is_of_sbi sbi) c))
  read_all-newest_first fuel h l =
      read_all-from fuel none sorted h (filter-All (below none) sorted (all_below sorted)) l
    where
      all_below : (c : List Stored) → All (λ s. below none s ≡ true) c
      all_below [] = tt
      all_below (s ∷ c) = (refl, all_below c)
