-- ===== src/Schema/Tables.antt =====
-- Which schema a route documents for a status code.
use fcp_sfd_object_processor.Common.{
  ℕ, ◌≡◌, refl, sym, ◌∙◌, inl, inr, Bool, true, false, Option, none, some, List, [], ◌∷◌, ◌==◌,
  if◌then◌else◌, Bool-cases, any, arith, ==_iff,
}
use fcp_sfd_object_processor.Schema.{Schema}
use fcp_sfd_object_processor.Schema.Responses.{
  Responses, put_response, put_responses, delete_response, delete_responses, default_responses,
  generate_response_schemas, bad_request_response_schema, unauthorized_response_schema,
  not_found_response_schema, server_error_response_schema,
}

abbrev pub find_response : ℕ → Responses → Option Schema
find_response code [] = none
find_response code ((c, s) ∷ rs) = if c == code then some s else find_response code rs

abbrev pub or_none : Option Schema → Option Schema → Option Schema
or_none none later = later
or_none (some s) later = some s

-- a later entry counts
abbrev pub last_response : ℕ → Responses → Option Schema
last_response code [] = none
last_response code ((c, s) ∷ rs) =
    or_none (last_response code rs) (if c == code then some s else none)

find_response-put :
    (code c : ℕ) (s : Schema) (rs : Responses)
    → find_response code (put_response c s rs)
      ≡ (if c == code then some s else find_response code rs)
find_response-put code c s [] = refl
find_response-put code c s ((d, t) ∷ rs) = elim (Bool-cases (d == c)) [
  | inl e ↦
      let q : d ≡ c = (==_iff d c).0 e in
      rw (e, q) (elim (Bool-cases (c == code)) [ inl u ↦ rw u refl | inr u ↦ rw u refl ])
  | inr e ↦ elim (Bool-cases (d == code)) [
    | inr u ↦ rw (e, u) (find_response-put code c s rs)
    | inl u ↦
        let q : d ≡ code = (==_iff d code).0 u in
        let n : (c == code) ≡ false = ground (arith, e, q) in rw (e, u, n) refl
  ]
]

or_none_assoc : (a b c : Option Schema) → or_none (or_none a b) c ≡ or_none a (or_none b c)
or_none_assoc none b c = refl
or_none_assoc (some s) b c = refl

find_response-put_all :
    (code : ℕ) (rs custom : Responses)
    → find_response code (put_responses rs custom)
      ≡ or_none (last_response code custom) (find_response code rs)
find_response-put_all code rs [] = refl
find_response-put_all code rs ((c, s) ∷ custom) =
    find_response-put_all code (put_response c s rs) custom
    ∙ (λ i. or_none (last_response code custom) (find_response-put code c s rs i))
    ∙ (λ i. or_none (last_response code custom) (as_choice (c == code) i))
    ∙ sym (
        or_none_assoc (last_response code custom) (if c == code then some s else none)
          (find_response code rs))
  where
    as_choice :
        (b : Bool)
        → (if b then some s else find_response code rs)
          ≡ or_none (if b then some s else none) (find_response code rs)
    as_choice true = refl
    as_choice false = refl

find_response-delete :
    (code c : ℕ) (rs : Responses)
    → find_response code (delete_response c rs)
      ≡ (if c == code then none else find_response code rs)
find_response-delete code c [] = elim (Bool-cases (c == code)) [
  | inl e ↦ rw e refl
  | inr e ↦ rw e refl
]
find_response-delete code c ((d, s) ∷ rs) = elim (Bool-cases (d == c)) [
  | inl e ↦
      let q : d ≡ c = (==_iff d c).0 e in
      elim (Bool-cases (c == code)) [
        | inl u ↦ rw (e, u) (rw u at (find_response-delete code c rs))
        | inr u ↦ rw (e, u) (rw (q, u) (rw u at (find_response-delete code c rs)))
      ]
  | inr e ↦ elim (Bool-cases (d == code)) [
    | inr u ↦ rw (e, u) (find_response-delete code c rs)
    | inl u ↦
        let q : d ≡ code = (==_iff d code).0 u in
        let n : (c == code) ≡ false = ground (arith, e, q) in rw (e, u, n) refl
  ]
]

find_response-delete_all :
    (code : ℕ) (omit : List ℕ) (rs : Responses)
    → find_response code (delete_responses omit rs)
      ≡ (if any (λ c. c == code) omit then none else find_response code rs)
find_response-delete_all code [] rs = refl
find_response-delete_all code (c ∷ omit) rs = elim (Bool-cases (c == code)) [
  | inr e ↦ rw e (
      rw e at (
        find_response-delete_all code omit (delete_response c rs) ∙ λ i.
        if any (λ d. d == code) omit then none else find_response-delete code c rs i))
  | inl e ↦ rw e (find_response-delete_all code omit (delete_response c rs) ∙ gone e)
]
  where
    gone :
        (c == code) ≡ true
        → (if any (λ d. d == code) omit then none else find_response code (delete_response c rs))
          ≡ none
    gone e = elim (Bool-cases (any (λ d. d == code) omit)) [
      | inl t ↦ rw t refl
      | inr t ↦ rw t (find_response-delete code c rs ∙ rw e refl)
    ]

-- the four standard codes differ
standard_once :
    (code : ℕ) (a b c d : Schema)
    → last_response code ((400, a) ∷ (401, b) ∷ (404, c) ∷ (500, d) ∷ [])
      ≡ find_response code ((400, a) ∷ (401, b) ∷ (404, c) ∷ (500, d) ∷ [])
standard_once code a b c d = ground arith

-- A route documents no omitted status code. For any other it documents its own schema for the code,
-- the last if there are several, then that of the standard errors, then that of the success.
pub find_response-generate :
    (success : Schema) (success_code : ℕ) (custom : Responses) (omit : List ℕ) (code : ℕ)
    → find_response code (generate_response_schemas success success_code custom omit) ≡ (
        if any (λ c. c == code) omit
        then none
        else or_none (last_response code custom) (
            or_none
              (find_response code default_responses)
              (if success_code == code then some success else none)))
unfolding generate_response_schemas
find_response-generate success success_code custom omit code =
    find_response-delete_all code omit
      (put_responses (put_responses ((success_code, success) ∷ []) default_responses) custom)
    ∙ λ i.
        if any (λ c. c == code) omit
        then none
        else (find_response-put_all code
                (put_responses ((success_code, success) ∷ []) default_responses) custom
              ∙ λ k. or_none (last_response code custom) (standard k))
            i
  where
    standard :
        find_response code (put_responses ((success_code, success) ∷ []) default_responses)
        ≡ or_none
            (find_response code default_responses)
            (if success_code == code then some success else none)
    standard = find_response-put_all code ((success_code, success) ∷ []) default_responses ∙ λ i.
        or_none
          (standard_once code bad_request_response_schema unauthorized_response_schema
            not_found_response_schema server_error_response_schema i)
          (if success_code == code then some success else none)
