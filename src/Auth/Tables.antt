-- ===== src/Auth/Tables.antt =====
-- What a table of issuers finds.
use fcp_sfd_object_processor.Common.{
  ◌≡◌, refl, inl, inr, String, true, some, List, [], ◌∷◌, map, Bool-cases, Option-cases, All,
  All-append, All-imp, In, here, there, In-filter,
}
use fcp_sfd_object_processor.Json.{Json, is_the_text}
use fcp_sfd_object_processor.Auth.{distinct, issuer_table, lookup}

-- the value is one of the texts
abbrev pub IsOneOf : Json → List String → Type 0
IsOneOf v xs = (t : String) × In t xs × (is_the_text v t ≡ true)

-- a row of a table is one of the items under one of its issuers
abbrev IsRow : {A : Type 0} → (A → List String) → List A → String × A → Type 0
IsRow issuers items r = In r.1 items × In r.0 (issuers r.1)

issuer_rows-IsRow :
    {A : Type 0} (issuers : A → List String) (a : A) (items : List A) (is : List String)
    → ((i : String) → In i is → In i (issuers a))
    → All (IsRow issuers (a ∷ items)) (map (λ i. (i, a)) is)
issuer_rows-IsRow issuers a items [] k = tt
issuer_rows-IsRow issuers a items (i ∷ is) k =
    ((here, k i here), issuer_rows-IsRow issuers a items is (λ j m. k j (there m)))

issuer_table-IsRow :
    {A : Type 0} (issuers : A → List String) (items : List A)
    → All (IsRow issuers items) (issuer_table issuers items)
issuer_table-IsRow issuers [] = tt
issuer_table-IsRow issuers (a ∷ items) =
    All-append (IsRow issuers (a ∷ items)) (map (λ i. (i, a)) (issuers a)) _
      (issuer_rows-IsRow issuers a items (issuers a) (λ j m. m))
      (All-imp (IsRow issuers items) (IsRow issuers (a ∷ items)) (λ r h. (there h.0, h.1)) _
        (issuer_table-IsRow issuers items))

lookup-eq-some :
    {A : Type 0} (P : String × A → Type 0) (v : Json) (rows : List (String × A)) (a : A)
    → All P rows
    → lookup v rows ≡ some a
    → (i : String) × P (i, a) × (is_the_text v i ≡ true)
lookup-eq-some P v [] a h e = absurd (cc e)
lookup-eq-some P v ((i, b) ∷ rows) a h e = elim (Option-cases (lookup v rows)) [
  | inr (c, t) ↦ lookup-eq-some P v rows a h.1 (cc (t, rw t at e))
  | inl t ↦ elim (Bool-cases (is_the_text v i)) [
    | inl s ↦
        let same : b ≡ a = cc (rw (t, s) at e) in let p : P (i, b) = h.0 in (i, rw same at p, s)
    | inr s ↦ absurd (cc (rw (t, s) at e))
  ]
]

pub found-IsRow :
    {A : Type 0} (issuers : A → List String) (items : List A) (v : Json) (a : A)
    → lookup v (issuer_table issuers items) ≡ some a
    → In a items × IsOneOf v (issuers a)
found-IsRow issuers items v a e =
    let (i, r, t) =
      lookup-eq-some (IsRow issuers items) v _ a (issuer_table-IsRow issuers items) e in
    (r.0, (i, r.1, t))

pub In-distinct : (x : String) (xs : List String) → In x (distinct xs) → In x xs
In-distinct x [] m = elim m [ ]
In-distinct x (y ∷ xs) here = here
In-distinct x (y ∷ xs) (there m) = there (In-distinct x xs (In-filter _ x (distinct xs) m))

pub In-lookup :
    {A : Type 0} (v : Json) (i : String) (rows : List (String × A))
    → is_the_text v i ≡ true
    → In i (map (λ r. r.0) rows)
    → (a : A) × (lookup v rows ≡ some a)
In-lookup v i [] t m = elim m [ ]
In-lookup v i ((j, a) ∷ rows) t here = elim (Option-cases (lookup v rows)) [
  | inr (b, e) ↦ (b, rw e refl)
  | inl e ↦ (a, rw (e, t) refl)
]
In-lookup v i ((j, a) ∷ rows) t (there m) = let (b, e) = In-lookup v i rows t m in (b, rw e refl)
