-- ===== src/Formats/Laws.antt =====
-- Which lists of a configuration are accepted, and that they are loaded as they were checked.
use Prim.Native.Char.{code}
use Prim.Native.String.{String}
use fcp_sfd_object_processor.Common.{
  ℕ, suc, ◌≡◌, refl, sym, ap, ◌∙◌, ◌↔◌, inl, inr, Bool, true, false, ◌&&◌, List, ◌∷◌, map, all, All,
  is_empty_text, split, Bool-cases, ◌==◌, Result, ok, arith,
}
use fcp_sfd_object_processor.Json.{
  Json, undefined, null, bool, num, str, oid, arr, obj, Items, nil, cons, elements, to_items,
}
use fcp_sfd_object_processor.Formats.{
  is_text_that, validate_values, coerce_list, group_error, validate_client_ids, coerce_client_ids,
  validate_mime_types, coerce_mime_types, validate_security_groups, coerce_security_groups,
}
use fcp_sfd_object_processor.Formats.Patterns.{
  is_client_id, is_mime_type, is_uuid, is_uuid_list, uuid_from, uuids_from, uuid_char,
}

-- what is loaded is a list of texts, each of which passes a test
abbrev pub Loads : (String → Bool) → Result Json → Type 0
Loads p loaded =
    (ts : List String) × (loaded ≡ ok (arr (to_items (map str ts)))) × All (λ t. p t ≡ true) ts

to_items-elements : (items : Items) → to_items (elements items) ≡ items
to_items-elements nil = refl
to_items-elements (cons v items) = ap (cons v) (to_items-elements items)

elements-to_items : (vs : List Json) → elements (to_items vs) ≡ vs
elements-to_items List.[] = refl
elements-to_items (v ∷ vs) = ap (λ r. v ∷ r) (elements-to_items vs)

module _ (p : String → Bool) where
  all-texts :
      (vs : List Json)
      → all (is_text_that p) vs ≡ true
      → (ts : List String) × (vs ≡ map str ts) × All (λ t. p t ≡ true) ts
  all-texts List.[] h = (List.[], refl, tt)
  all-texts (str s ∷ vs) h = elim (Bool-cases (p s)) [
    | inr t ↦ absurd (cc (rw t at h))
    | inl t ↦ let (ts, e, a) = all-texts vs (rw t at h) in (s ∷ ts, ap (λ r. str s ∷ r) e, (t, a))
  ]
  all-texts (undefined ∷ vs) h = absurd (cc h)
  all-texts (null ∷ vs) h = absurd (cc h)
  all-texts (bool b ∷ vs) h = absurd (cc h)
  all-texts (num n ∷ vs) h = absurd (cc h)
  all-texts (oid n ∷ vs) h = absurd (cc h)
  all-texts (arr is ∷ vs) h = absurd (cc h)
  all-texts (obj fs ∷ vs) h = absurd (cc h)

  texts-all :
      (ts : List String) → All (λ t. p t ≡ true) ts → all (is_text_that p) (map str ts) ≡ true
  texts-all List.[] a = refl
  texts-all (t ∷ ts) a = rw a.0 (texts-all ts a.1)

  module _ (error : String) where
    validate_values-Loads : (v : Json) → validate_values p error v ≡ ok tt → Loads p (coerce_list v)
    validate_values-Loads (arr items) h =
        elim (Bool-cases (all (is_text_that p) (elements items))) [
          | inr t ↦ absurd (cc (rw t at h))
          | inl t ↦
              let (ts, e, a) = all-texts (elements items) t in
              (ts, ap (λ r. ok (arr r)) (sym (to_items-elements items) ∙ ap to_items e), a)
        ]
    validate_values-Loads (str s) h = elim (Bool-cases (is_empty_text s)) [
      | inl b ↦ (List.[], rw b refl, tt)
      | inr b ↦ elim (Bool-cases (all (is_text_that p) (map str (split 44 s)))) [
        | inr t ↦ absurd (cc (rw (b, t) at h))
        | inl t ↦ let (ts, e, a) = all-texts (map str (split 44 s)) t in (ts, rw (b, e) refl, a)
      ]
    ]
    validate_values-Loads null h = (List.[], refl, tt)
    validate_values-Loads v h = absurd (cc h)

    Loads-validate_values : (v : Json) → Loads p (coerce_list v) → validate_values p error v ≡ ok tt
    Loads-validate_values (arr items) (ts, e, a) =
        let same : items ≡ to_items (map str ts) = cc e in
        rw (same, elements-to_items (map str ts), texts-all ts a) refl
    Loads-validate_values (str s) (ts, e, a) = elim (Bool-cases (is_empty_text s)) [
      | inl b ↦ rw b refl
      | inr b ↦
          let same : to_items (map str (split 44 s)) ≡ to_items (map str ts) = cc (rw b at e) in
          let texts =
            sym (elements-to_items _) ∙ (ap elements same ∙ elements-to_items (map str ts)) in
          rw (b, texts, texts-all ts a) refl
    ]
    Loads-validate_values null l = refl
    Loads-validate_values v (ts, e, a) = absurd (cc e)

-- the pieces of a text, the first of them from a place of a UUID on
pieces_from : ℕ → List String → Bool
pieces_from n List.[] = false
pieces_from n (t ∷ ts) = uuid_from n t && all is_uuid ts

split-cons : (c : ℕ) (s : String) → (t : String) × (ts : List String) × (split c s ≡ (t ∷ ts))
split-cons c String.[] = (String.[], List.[], refl)
split-cons c (String.◌∷◌ d s) =
    let (t, ts, e) = split-cons c s in
    elim (Bool-cases (code d == c)) [
      | inl u ↦ (String.[], split c s, rw u refl)
      | inr u ↦ (String.◌∷◌ d t, ts, rw (u, e) refl)
    ]

&&_assoc : (a b c : Bool) → (a && (b && c)) ≡ ((a && b) && c)
&&_assoc true b c = refl
&&_assoc false b c = refl

comma_in_uuid : (n : ℕ) → uuid_char n 44 ≡ false
comma_in_uuid n = ground arith

uuids_from-split : (n : ℕ) (s : String) → uuids_from n s ≡ pieces_from n (split 44 s)
unfolding pieces_from is_uuid
uuids_from-split n String.[] = ground arith
uuids_from-split n (String.◌∷◌ d s) =
    let (t, ts, e) = split-cons 44 s in
    elim (Bool-cases (code d == 44)) [
      | inl u ↦
          let comma : code d ≡ 44 = ground (arith, u) in
          elim (Bool-cases (n == 36)) [
            | inl v ↦ rw (uuids_from, v, u) (rw (uuids_from-split 0 s, e) (rw v refl))
            | inr v ↦ rw (uuids_from, v, u, comma, comma_in_uuid n) (rw v refl)
          ]
      | inr u ↦ elim (Bool-cases (n == 36)) [
        | inl v ↦ rw (uuids_from, v, u, e) (rw (uuid_from, v) refl)
        | inr v ↦
            rw (uuids_from, v, u, e)
              (rw (uuids_from-split (suc n) s, e, uuid_from, v)
                (&&_assoc (uuid_char n (code d)) (uuid_from (suc n) t) (all is_uuid ts)))
      ]
    ]

is_uuid_list-split : (s : String) → is_uuid_list s ≡ all is_uuid (split 44 s)
unfolding is_uuid_list pieces_from is_uuid
is_uuid_list-split s = let (t, ts, e) = split-cons 44 s in uuids_from-split 0 s ∙ rw e refl

all-is_text_that :
    (p : String → Bool) (ts : List String) → all (is_text_that p) (map str ts) ≡ all p ts
all-is_text_that p List.[] = refl
all-is_text_that p (t ∷ ts) = ap (λ b. p t && b) (all-is_text_that p ts)

-- the test of the whole text agrees with the test of its parts
validate_security_groups-eq :
    (v : Json)
    → (validate_security_groups v ≡ ok tt) ↔ (validate_values is_uuid group_error v ≡ ok tt)
unfolding validate_security_groups
validate_security_groups-eq (arr items) = ((λ h. h), (λ h. h))
validate_security_groups-eq (str s) =
    let parts = is_uuid_list-split s ∙ sym (all-is_text_that is_uuid (split 44 s)) in
    elim (Bool-cases (is_empty_text s)) [
      | inl b ↦ rw b ((λ h. h), (λ h. h))
      | inr b ↦ rw (b, parts) ((λ h. h), (λ h. h))
    ]
validate_security_groups-eq null = ((λ h. h), (λ h. h))
validate_security_groups-eq v = ((λ h. absurd (cc h)), (λ h. absurd (cc h)))

-- A list of client identifiers, of media types or of security groups is accepted exactly when what
-- is loaded from it is a list of texts that each match the pattern. This holds of every value: a
-- text with commas, a list, and no value, which is loaded as the empty list. For the groups it says
-- that the pattern of the whole text and the pattern of one group agree.
pub validate-Loads :
    (v : Json)
    → ((validate_client_ids v ≡ ok tt) ↔ Loads is_client_id (coerce_client_ids v))
      × ((validate_mime_types v ≡ ok tt) ↔ Loads is_mime_type (coerce_mime_types v))
      × ((validate_security_groups v ≡ ok tt) ↔ Loads is_uuid (coerce_security_groups v))
unfolding validate_client_ids coerce_client_ids validate_mime_types coerce_mime_types
    coerce_security_groups
validate-Loads v = (
  (validate_values-Loads is_client_id _ v, Loads-validate_values is_client_id _ v),
  (validate_values-Loads is_mime_type _ v, Loads-validate_values is_mime_type _ v),
  (
    (λ h. validate_values-Loads is_uuid group_error v ((validate_security_groups-eq v).0 h)),
    (λ l. (validate_security_groups-eq v).1 (Loads-validate_values is_uuid group_error v l)),
  ),
)
