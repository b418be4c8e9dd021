-- ===== src/Metadata/Paging.antt =====
-- Following the cursors of the metadata pages reads every document of a business once, newest
-- first.
pub mod Newest
pub mod Complete
use fcp_sfd_object_processor.Common.{
  ℕ, zero, suc, ◌+◌, ◌≤◌, ◌<◌, ◌≡◌, refl, sym, ap, ◌∙◌, inl, inr, Bool, true, false, ◌&&◌, Option,
  none, some, List, [], ◌∷◌, ◌++◌, arith, ltb, filter, length, take, drop, is_empty, All, All-imp,
  if◌then◌else◌, Result, ok, err, Bool-cases, append-nil, take-append-drop, length-take,
}
use fcp_sfd_object_processor.Json.{Json}
use fcp_sfd_object_processor.Document.{Stored}
use fcp_sfd_object_processor.Mongo.{Collection, newest_first, AreDistinct}
use fcp_sfd_object_processor.Metadata.{
  Page, below, is_of_sbi, last_id, is_none, page_of, metadata_page, metadata_page_by_sbi,
}
use Newest.{IsNewestFirst}

abbrev pub id_of : Stored → ℕ
id_of s = s.id

-- A client that asks for pages until one has no cursor, on fuel; `none` means that it ran out.
abbrev pub continue_from : (ℕ → Option (List Stored)) → Page → Option (List Stored)
continue_from next page = elim page.next_cursor [
  | none ↦ some page.documents
  | some k ↦ elim (next k) [ none ↦ none | some rest ↦ some (page.documents ++ rest) ]
]

abbrev pub after_page : (ℕ → Option (List Stored)) → Result Page → Option (List Stored)
after_page next (err f) = some []
after_page next (ok page) = continue_from next page

module _ (db : Collection Stored) (sbi : Json) (page_size : ℕ) (c : List Stored) where
  unfoldable pub read_all : ℕ → Option ℕ → Option (List Stored)
  read_all zero cursor = none
  read_all (suc fuel) cursor =
      after_page (λ k. read_all fuel (some k)) (metadata_page_by_sbi db sbi page_size cursor c)

pub filter-and :
    (p q : Stored → Bool) (c : List Stored) → filter (λ s. p s && q s) c ≡ filter q (filter p c)
filter-and p q [] = refl
filter-and p q (s ∷ c) = elim (Bool-cases (p s)) [
  | inr t ↦ rw t (filter-and p q c)
  | inl t ↦ elim (Bool-cases (q s)) [
    | inl u ↦ rw (t, u) ((ap (λ r. s ∷ r) (filter-and p q c)))
    | inr u ↦ rw (t, u) ((filter-and p q c))
  ]
]

pub filter-All : (p : Stored → Bool) (c : List Stored) → All (λ s. p s ≡ true) c → filter p c ≡ c
filter-All p [] h = refl
filter-All p (s ∷ c) h = rw h.0 (ap (λ r. s ∷ r) (filter-All p c h.1))

pub All-below-filter :
    (cursor : Option ℕ) (c : List Stored)
    → All (λ s. below cursor s ≡ true) (filter (below cursor) c)
All-below-filter cursor [] = tt
All-below-filter cursor (s ∷ c) = elim (Bool-cases (below cursor s)) [
  | inl t ↦ rw t (t, All-below-filter cursor c)
  | inr t ↦ rw t (All-below-filter cursor c)
]

pub last_id-lt : (b k : ℕ) (c : List Stored) → All (λ s. s.id < b) c → last_id c ≡ some k → k < b
last_id-lt b k [] h e = absurd (cc e)
last_id-lt b k (s ∷ []) h e = ground arith
last_id-lt b k (s ∷ t ∷ c) h e = last_id-lt b k (t ∷ c) h.1 e

pub All-take : (P : Stored → Type 0) (n : ℕ) (c : List Stored) → All P c → All P (take n c)
All-take P zero c h = tt
All-take P (suc n) [] h = tt
All-take P (suc n) (s ∷ c) h = (h.0, All-take P n c h.1)

-- Below the last document of a full page there are exactly the documents behind the page.
pub filter-below-last :
    (n k : ℕ) (rest : List Stored)
    → IsNewestFirst id_of rest
    → last_id (take n rest) ≡ some k
    → filter (below (some k)) rest ≡ drop n rest
filter-below-last zero k rest s e = absurd (cc e)
filter-below-last (suc n) k [] s e = absurd (cc e)
filter-below-last (suc zero) k (d ∷ rest) s e =
    let same : d.id ≡ k = cc e in
    let t : ltb d.id k ≡ false = ground arith in
    rw t (
      filter-All (below (some k)) rest
        (All-imp (λ x. x.id < d.id) (λ x. below (some k) x ≡ true) (λ x h. ground arith) rest s.0))
filter-below-last (suc (suc n)) k (d ∷ []) s e =
    let t : ltb d.id k ≡ false = ground (arith, e) in rw t refl
filter-below-last (suc (suc n)) k (d ∷ x ∷ rest) s e =
    let lt : k < d.id =
      last_id-lt d.id k (take (suc n) (x ∷ rest)) (All-take _ (suc n) (x ∷ rest) s.0) e in
    let t : ltb d.id k ≡ false = ground arith in rw t (filter-below-last (suc n) k (x ∷ rest) s.1 e)
