-- ===== src/Sonar/Concurrent/Places.antt =====
-- Places of a list, read and written.
use fcp_sfd_object_processor.Common.{
  ℕ, zero, suc, ◌<◌, ◌≤◌, ◌≡◌, refl, ap, ◌⊎◌, inl, inr, none, some, List, [], ◌∷◌, ◌++◌, length,
  take, In, here, there, arith,
}
use fcp_sfd_object_processor.Sonar.Concurrent.{get_elem?, set, replicate}

module _ {A : Type 0} where
  pub get_elem?-bound : (xs : List A) (i : ℕ) (x : A) → get_elem? xs i ≡ some x → i < length xs
  get_elem?-bound [] i x h = absurd (cc h)
  get_elem?-bound (y ∷ xs) zero x h = omega arith
  get_elem?-bound (y ∷ xs) (suc i) x h = omega (arith, get_elem?-bound xs i x h)

  pub get_elem?-end : (xs : List A) (i : ℕ) → get_elem? xs i ≡ none → length xs ≤ i
  get_elem?-end [] i h = omega arith
  get_elem?-end (y ∷ xs) zero h = absurd (cc h)
  get_elem?-end (y ∷ xs) (suc i) h = omega (arith, get_elem?-end xs i h)

  pub get_elem?-In : (xs : List A) (i : ℕ) (x : A) → get_elem? xs i ≡ some x → In x xs
  get_elem?-In [] i x h = absurd (cc h)
  get_elem?-In (y ∷ xs) zero x h = let e : y ≡ x = cc h in rw e here
  get_elem?-In (y ∷ xs) (suc i) x h = there (get_elem?-In xs i x h)

  pub get_elem?-set_self :
      (xs : List A) (i : ℕ) (v : A) → i < length xs → get_elem? (set xs i v) i ≡ some v
  get_elem?-set_self [] i v h = absurd (omega arith)
  get_elem?-set_self (x ∷ xs) zero v h = refl
  get_elem?-set_self (x ∷ xs) (suc i) v h = get_elem?-set_self xs i v (omega arith)

  pub get_elem?-set_other :
      (xs : List A) (i j : ℕ) (v : A) → (i ≡ j → ⊥) → get_elem? (set xs i v) j ≡ get_elem? xs j
  get_elem?-set_other [] i j v n = refl
  get_elem?-set_other (x ∷ xs) zero zero v n = absurd (n refl)
  get_elem?-set_other (x ∷ xs) zero (suc j) v n = refl
  get_elem?-set_other (x ∷ xs) (suc i) zero v n = refl
  get_elem?-set_other (x ∷ xs) (suc i) (suc j) v n =
      get_elem?-set_other xs i j v (λ e. n (ap suc e))

  pub length-set : (xs : List A) (i : ℕ) (v : A) → length (set xs i v) ≡ length xs
  length-set [] i v = refl
  length-set (x ∷ xs) zero v = refl
  length-set (x ∷ xs) (suc i) v = ap suc (length-set xs i v)

  pub length-replicate : (n : ℕ) (x : A) → length (replicate n x) ≡ n
  length-replicate zero x = refl
  length-replicate (suc n) x = ap suc (length-replicate n x)

  pub get_elem?-replicate : (n i : ℕ) (x y : A) → get_elem? (replicate n x) i ≡ some y → x ≡ y
  get_elem?-replicate zero i x y h = absurd (cc h)
  get_elem?-replicate (suc n) zero x y h = cc h
  get_elem?-replicate (suc n) (suc i) x y h = get_elem?-replicate n i x y h

  -- what stands at a place after a write is the new value or was there before
  pub get_elem?-set_cases :
      (xs : List A) (i j : ℕ) (v u : A)
      → get_elem? (set xs i v) j ≡ some u
      → (v ≡ u) ⊎ (get_elem? xs j ≡ some u)
  get_elem?-set_cases [] i j v u h = inr h
  get_elem?-set_cases (x ∷ xs) zero zero v u h = inl (cc h)
  get_elem?-set_cases (x ∷ xs) zero (suc j) v u h = inr h
  get_elem?-set_cases (x ∷ xs) (suc i) zero v u h = inr h
  get_elem?-set_cases (x ∷ xs) (suc i) (suc j) v u h = get_elem?-set_cases xs i j v u h

  pub take-suc :
      (xs : List A) (n : ℕ) (x : A)
      → get_elem? xs n ≡ some x
      → take n xs ++ x ∷ [] ≡ take (suc n) xs
  take-suc [] n x h = absurd (cc h)
  take-suc (y ∷ xs) zero x h = let e : y ≡ x = cc h in rw e refl
  take-suc (y ∷ xs) (suc n) x h = ap (λ r. y ∷ r) (take-suc xs n x h)
