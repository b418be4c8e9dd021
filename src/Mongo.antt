-- ===== src/Mongo.antt =====
-- The database driver, which is not part of the repository: its collection methods are parameters,
-- with what its documentation says of them. A collection is the list of its documents.
pub mod Sorted
pub mod Lists
use fcp_sfd_object_processor.Common.{
  ℕ, String, ◌≤◌, ◌<◌, ◌≡◌, ◌≢◌, ◌⊎◌, leb, take, Bool, true, false, ◌||◌, Option, none, some, List,
  [], ◌∷◌, ◌++◌, if◌then◌else◌, All, In, filter, find, count, any, Result, ok, err, coded, message,
}

-- What `updateMany` does: the documents that match are replaced where they stand.
abbrev pub replace_matching : {D : Type 0} → (D → Bool) → (D → D) → List D → List D
replace_matching p f [] = []
replace_matching p f (d ∷ c) = (if p d then f d else d) ∷ replace_matching p f c

-- `findOneAndUpdate` with an ascending `sort`: no document matches and nothing changes, or a
-- matching document with the least key is replaced where it stands, and returned as it was.
abbrev pub FindOne :
    {D : Type 0} → (D → ℕ) → (D → Bool) → (D → D) → List D → Option D × List D → Type 0
FindOne {D} key p f c r =
    (All (λ d. p d ≡ false) c × (r ≡ (none, c)))
    ⊎ ((xs : List D) × (d : D) × (ys : List D) × (c ≡ xs ++ (d ∷ ys))
        × (p d ≡ true)
        × All (λ e. p e ≡ true → key d ≤ key e) c
        × (r ≡ (some d, xs ++ (f d ∷ ys))))

-- A new document clashes with a stored one or with an earlier new one on a unique index.
abbrev pub any_clash : {D : Type 0} → (D → D → Bool) → List D → List D → Bool
any_clash clash [] c = false
any_clash clash (n ∷ news) c = any (clash n) c || any (clash n) news || any_clash clash news c

abbrev pub duplicate_key_error_code : ℕ
duplicate_key_error_code = 11000

-- What `insertMany` does: an empty batch is refused, and one document that breaks a unique index
-- fails the whole batch, as the source inserts under a transaction.
abbrev pub insert_result : {D : Type 0} → (D → D → Bool) → List D → List D → Result (List D)
insert_result clash [] c = err (message "Invalid BulkOperation, Batch cannot be empty")
insert_result clash (n ∷ news) c =
    if any_clash clash (n ∷ news) c
    then err (coded duplicate_key_error_code "E11000 duplicate key error collection")
    else ok (c ++ (n ∷ news))

-- Descending by a key, as `.sort({ _id: -1 })` orders documents whose keys differ.
abbrev pub insert_newest : {D : Type 0} → (D → ℕ) → D → List D → List D
insert_newest key d [] = d ∷ []
insert_newest key d (e ∷ es) =
    let rest = insert_newest key d es in if leb (key e) (key d) then d ∷ e ∷ es else e ∷ rest

abbrev pub newest_first : {D : Type 0} → (D → ℕ) → List D → List D
newest_first key [] = []
newest_first key (d ∷ ds) = insert_newest key d (newest_first key ds)

-- no two documents have the same key
abbrev pub AreDistinct : {D : Type 0} → (D → ℕ) → List D → Type 0
AreDistinct key [] = Unit
AreDistinct key (d ∷ ds) = All (λ e. key e ≢ key d) ds × AreDistinct key ds

-- Ascending by a key, where documents with the same key come in any order.
abbrev pub IsOldestFirst : {D : Type 0} → (D → ℕ) → List D → Type 0
IsOldestFirst key [] = Unit
IsOldestFirst key (d ∷ ds) = All (λ e. key d ≤ key e) ds × IsOldestFirst key ds

-- What `.find(p).sort({ key: 1 }).limit(n)` returns: the first of the documents that match, sorted.
abbrev pub OldestOf : {D : Type 0} → (D → Bool) → (D → ℕ) → ℕ → List D → List D → Type 0
OldestOf {D} p key n c r =
    (sorted : List D) × IsOldestFirst key sorted
    × ((d : D) → In d (filter p c) → In d sorted)
    × ((d : D) → In d sorted → In d (filter p c))
    × (r ≡ take n sorted)

pub record Collection (D : Type 0) : Type 0 where
  -- whether the write concern acknowledges writes
  pub acknowledged : Bool
  pub find_one_and_update : (D → ℕ) → (D → Bool) → (D → D) → List D → Option D × List D
  pub find_one_and_update_lem :
      (key : D → ℕ) (p : D → Bool) (f : D → D) (c : List D)
      → FindOne key p f c (find_one_and_update key p f c)
  -- the matched count, and the documents afterwards
  pub update_many : (D → Bool) → (D → D) → List D → ℕ × List D
  pub update_many_lem :
      (p : D → Bool) (f : D → D) (c : List D)
      → update_many p f c ≡ (count p c, replace_matching p f c)
  pub find_all : (D → Bool) → List D → List D
  pub find_all_lem : (p : D → Bool) (c : List D) → find_all p c ≡ filter p c
  -- `.find(p).sort({ key: -1 }).limit(n)`
  pub find_newest : (D → Bool) → (D → ℕ) → ℕ → List D → List D
  pub find_newest_lem :
      (p : D → Bool) (key : D → ℕ) (n : ℕ) (c : List D)
      → AreDistinct key c
      → find_newest p key n c ≡ take n (newest_first key (filter p c))
  -- for a limit that is not 0, which would be none
  pub find_oldest : (D → Bool) → (D → ℕ) → ℕ → List D → List D
  pub find_oldest_lem :
      (p : D → Bool) (key : D → ℕ) (n : ℕ) (c : List D)
      → 0 < n
      → OldestOf p key n c (find_oldest p key n c)
  pub find_first : (D → Bool) → List D → Option D
  pub find_first_lem : (p : D → Bool) (c : List D) → find_first p c ≡ find p c
  -- under the collection's unique indexes, which the first argument states
  pub insert_many : (D → D → Bool) → List D → List D → Result (List D)
  pub insert_many_lem :
      (clash : D → D → Bool) (news c : List D)
      → insert_many clash news c ≡ insert_result clash news c
