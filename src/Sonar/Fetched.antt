-- ===== src/Sonar/Fetched.antt =====
-- The pages of accepted issues, from a service that serves a fixed list.
use fcp_sfd_object_processor.Common.{
  ℕ, zero, suc, ◌+◌, ◌*◌, ◌≤◌, ◌<◌, ◌≡◌, refl, sym, ap, ◌∙◌, inl, inr, Bool, true, false, ◌||◌,
  some, List, [], ◌∷◌, ◌++◌, Result, ok, leb, ltb, length, take, drop, Bool-cases, arith,
  length-append, length-take, length-drop, take-append-drop, min,
}
use fcp_sfd_object_processor.Json.{Json}
use fcp_sfd_object_processor.Sonar.{SearchPage, fetch_pages, fetch_accepted_issues}

-- Page `k + 1` holds the next `size` issues after the first `k * size`, and every page the total.
abbrev pub Serves : (ℕ → Result SearchPage) → ℕ → List Json → Type 0
Serves fetch size all =
    (k : ℕ)
    → fetch (suc k)
      ≡ ok (record { issues = take size (drop (k * size) all); total = some (length all) })

take_of_short : (n : ℕ) (xs : List Json) → length xs ≤ n → take n xs ≡ xs
take_of_short zero [] h = refl
take_of_short zero (x ∷ xs) h = absurd (omega arith)
take_of_short (suc n) [] h = refl
take_of_short (suc n) (x ∷ xs) h = ap (λ r. x ∷ r) (take_of_short n xs (omega arith))

drop-nil : (m : ℕ) → drop {A = Json} m [] ≡ []
drop-nil zero = refl
drop-nil (suc m) = refl

drop-drop : (m n : ℕ) (xs : List Json) → drop m (drop n xs) ≡ drop (m + n) xs
drop-drop m zero xs = let e : m + 0 ≡ m = omega arith in rw e refl
drop-drop m (suc n) [] = let e : m + suc n ≡ suc (m + n) = omega arith in rw (e, drop-nil m) refl
drop-drop m (suc n) (x ∷ xs) =
    let e : m + suc n ≡ suc (m + n) = omega arith in rw e (drop-drop m n xs)

take-append_more : (m n : ℕ) (xs : List Json) → take n xs ++ take m (drop n xs) ≡ take (m + n) xs
take-append_more m zero xs = let e : m + 0 ≡ m = omega arith in rw e refl
take-append_more zero (suc n) [] = let e : 0 + suc n ≡ suc n = omega arith in rw e refl
take-append_more (suc m) (suc n) [] =
    let e : suc m + suc n ≡ suc (suc (m + n)) = omega arith in rw e refl
take-append_more m (suc n) (x ∷ xs) =
    let e : m + suc n ≡ suc (m + n) = omega arith in
    rw e (ap (λ r. x ∷ r) (take-append_more m n xs))

module _ (fetch : ℕ → Result SearchPage) (size : ℕ) (all : List Json) (positive : 0 < size)
    (serves : Serves fetch size all) where
  -- what is left after `k` pages
  abbrev left : ℕ → List Json
  left k = drop (k * size) all

  length-left : (k : ℕ) → length (take (k * size) all) + length (left k) ≡ length all
  length-left k =
      sym (length-append (take (k * size) all) (left k))
      ∙ ap length (take-append-drop (k * size) all)

  next_take : (k : ℕ) → take (k * size) all ++ take size (left k) ≡ take (suc k * size) all
  next_take k =
      let e : suc k * size ≡ size + k * size = grind arith in
      rw e (take-append_more size (k * size) all)

  next_left : (k : ℕ) → left (suc k) ≡ drop size (left k)
  next_left k =
      let e : suc k * size ≡ size + k * size = grind arith in
      rw e (sym (drop-drop size (k * size) all))

  -- the test that ends the loop
  abbrev is_last : ℕ → Bool
  is_last k =
      leb (length all) (length (take (k * size) all ++ take size (left k)))
      || ltb (length (take size (left k))) size

  length_page : (k : ℕ) → length (take size (left k)) ≡ min size (length (left k))
  length_page k = length-take size (left k)

  length_fetched :
      (k : ℕ)
      → length (take (k * size) all ++ take size (left k))
        ≡ length (take (k * size) all) + length (take size (left k))
  length_fetched k = length-append (take (k * size) all) (take size (left k))

  last_short : (k : ℕ) → is_last k ≡ true → length (left k) ≤ size
  last_short k h =
      short (length all) (length (take (k * size) all ++ take size (left k)))
        (length (take size (left k))) (length (take (k * size) all)) (length (left k)) h
        (length-left k) (length_fetched k) (length_page k)
    where
      short :
          (a b p t l : ℕ)
          → (leb a b || ltb p size) ≡ true
          → t + l ≡ a
          → b ≡ t + p
          → p ≡ min size l
          → l ≤ size
      short a b p t l h e1 e2 e3 = ground arith

  more_left : (k : ℕ) → is_last k ≡ false → size < length (left k)
  more_left k h =
      more (length all) (length (take (k * size) all ++ take size (left k)))
        (length (take size (left k))) (length (take (k * size) all)) (length (left k)) h
        (length-left k) (length_fetched k) (length_page k)
    where
      more :
          (a b p t l : ℕ)
          → (leb a b || ltb p size) ≡ false
          → t + l ≡ a
          → b ≡ t + p
          → p ≡ min size l
          → size < l
      more a b p t l h e1 e2 e3 = ground arith

  last_complete : (k : ℕ) → is_last k ≡ true → take (k * size) all ++ take size (left k) ≡ all
  last_complete k h =
      ap (λ r. take (k * size) all ++ r) (take_of_short size (left k) (last_short k h))
      ∙ take-append-drop (k * size) all

  length_next :
      (k fuel : ℕ)
      → length (left k) < suc fuel
      → size < length (left k)
      → length (left (suc k)) < fuel
  length_next k fuel h l = let e = length-drop size (left k) in rw (next_left k) (omega (arith, e))

  -- the loop from the page after the first `k`
  fetch_pages_from :
      (fuel k : ℕ)
      → length (left k) < fuel
      → fetch_pages fetch size fuel (suc k) (take (k * size) all) ≡ some (ok all)
  unfolding fetch_pages
  fetch_pages_from zero k h = absurd (omega arith)
  fetch_pages_from (suc fuel) k h = rw (serves k) (elim (Bool-cases (is_last k)) [
    | inl t ↦ rw t (ap (λ r. some (ok r)) (last_complete k t))
    | inr t ↦
        let n : suc k + 1 ≡ suc (suc k) = omega arith in
        rw (t, n, next_take k)
          (fetch_pages_from fuel (suc k) (length_next k fuel h (more_left k t)))
  ])

-- From a service that serves a fixed list in pages of 500, with its total, the loop ends with the
-- whole list, if it is given one round more than there are issues, or further ones.
pub fetch_accepted_issues_complete :
    (fetch : ℕ → Result SearchPage) (all : List Json) (rounds : ℕ)
    → Serves fetch 500 all
    → length all < rounds
    → fetch_accepted_issues fetch rounds ≡ some (ok all)
unfolding fetch_accepted_issues
fetch_accepted_issues_complete fetch all rounds s h =
    fetch_pages_from fetch 500 all (omega arith) s rounds 0 h
