-- ===== src/Common/Membership.antt =====
-- Members of lists that are searched, filtered, mapped and joined.
use mathlib.Core.Path.{◌≡◌, refl}
use mathlib.Core.Logic.{inl, inr}
use mathlib.Core.Bool.{Bool, true, false}
use mathlib.Core.Option.{none, some}
use mathlib.Core.List.{List, [], ◌∷◌, ◌++◌, map}
use fcp_sfd_object_processor.Common.Tests.{Bool-cases}
use fcp_sfd_object_processor.Common.Lists.{All, In, here, there, filter, find, any}

module _ {A : Type 0} where
  In-cons : {x : A} (y : A) (xs ys : List A) → (In x xs → In x ys) → In x (y ∷ xs) → In x (y ∷ ys)
  In-cons y xs ys f here = here
  In-cons y xs ys f (there m) = there (f m)

  pub In-filter : (p : A → Bool) (x : A) (xs : List A) → In x (filter p xs) → In x xs
  In-filter p x [] m = elim m [ ]
  In-filter p x (y ∷ xs) m = elim (Bool-cases (p y)) [
    | inr t ↦ there (In-filter p x xs (rw t at m))
    | inl t ↦ In-cons y (filter p xs) xs (In-filter p x xs) (rw t at m)
  ]

  pub All-filter : (p : A → Bool) (xs : List A) → All (λ x. p x ≡ true) (filter p xs)
  All-filter p [] = tt
  All-filter p (x ∷ xs) = elim (Bool-cases (p x)) [
    | inl t ↦ rw t (t, All-filter p xs)
    | inr t ↦ rw t (All-filter p xs)
  ]

  pub filter-In : (p : A → Bool) (x : A) (xs : List A) → p x ≡ true → In x xs → In x (filter p xs)
  filter-In p x [] h m = elim m [ ]
  filter-In p x (y ∷ xs) h here = rw h here
  filter-In p x (y ∷ xs) h (there m) = elim (Bool-cases (p y)) [
    | inr t ↦ rw t (filter-In p x xs h m)
    | inl t ↦ rw t (there (filter-In p x xs h m))
  ]

  pub find-In : (p : A → Bool) (c : List A) (a : A) → find p c ≡ some a → In a c × (p a ≡ true)
  find-In p [] a h = absurd (cc h)
  find-In p (x ∷ c) a h = elim (Bool-cases (p x)) [
    | inl t ↦ let e : x ≡ a = cc (rw t at h) in rw (← e) (here, t)
    | inr t ↦ let (m, q) = find-In p c a (rw t at h) in (there m, q)
  ]

  pub find-eq-none : (p : A → Bool) (c : List A) → find p c ≡ none → All (λ x. p x ≡ false) c
  find-eq-none p [] h = tt
  find-eq-none p (x ∷ c) h = elim (Bool-cases (p x)) [
    | inl t ↦ absurd (cc (rw t at h))
    | inr t ↦ (t, find-eq-none p c (rw t at h))
  ]

  pub any-true : (p : A → Bool) (xs : List A) → any p xs ≡ true → (x : A) × In x xs × (p x ≡ true)
  any-true p [] h = absurd (cc h)
  any-true p (x ∷ xs) h = elim (Bool-cases (p x)) [
    | inl t ↦ (x, here, t)
    | inr t ↦ let (y, m, q) = any-true p xs (rw t at h) in (y, there m, q)
  ]

  pub any-In : (p : A → Bool) (a : A) (xs : List A) → In a xs → p a ≡ true → any p xs ≡ true
  any-In p a [] m h = elim m [ ]
  any-In p a (x ∷ xs) here h = rw h refl
  any-In p a (x ∷ xs) (there m) h = elim (Bool-cases (p x)) [
    | inl t ↦ rw t refl
    | inr t ↦ rw t (any-In p a xs m h)
  ]

  pub In-append : (a : A) (xs ys : List A) → In a xs → In a (xs ++ ys)
  In-append a [] ys m = elim m [ ]
  In-append a (x ∷ xs) ys here = here
  In-append a (x ∷ xs) ys (there m) = there (In-append a xs ys m)

  pub In-append_right : (a : A) (xs ys : List A) → In a ys → In a (xs ++ ys)
  In-append_right a [] ys m = m
  In-append_right a (x ∷ xs) ys m = there (In-append_right a xs ys m)

  pub All-In : (P : A → Type 0) (xs : List A) (a : A) → All P xs → In a xs → P a
  All-In P [] a h m = elim m [ ]
  All-In P (x ∷ xs) a h here = h.0
  All-In P (x ∷ xs) a h (there m) = All-In P xs a h.1 m

  pub All-of-In : (P : A → Type 0) (xs : List A) → ((a : A) → In a xs → P a) → All P xs
  All-of-In P [] f = tt
  All-of-In P (x ∷ xs) f = (f x here, All-of-In P xs (λ a m. f a (there m)))

pub map-In : {A B : Type 0} (f : A → B) (a : A) (xs : List A) → In a xs → In (f a) (map f xs)
map-In f a [] m = elim m [ ]
map-In f a (x ∷ xs) here = here
map-In f a (x ∷ xs) (there m) = there (map-In f a xs m)

pub In-map :
    {A B : Type 0} (f : A → B) (b : B) (xs : List A)
    → In b (map f xs)
    → (a : A) × In a xs × (b ≡ f a)
In-map f b [] m = elim m [ ]
In-map f b (x ∷ xs) here = (x, here, refl)
In-map f b (x ∷ xs) (there m) = let (a, n, e) = In-map f b xs m in (a, there n, e)
