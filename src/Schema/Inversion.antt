-- ===== src/Schema/Inversion.antt =====
-- What a value is like that the validator accepts, for each kind of schema.
use fcp_sfd_object_processor.Common.{
  ℕ, suc, String, ◌≡◌, refl, inl, inr, Bool, true, false, ◌&&◌, ◌||◌, not, Option, none, some, List,
  [], ◌∷◌, leb, leb→le, ◌≤◌, arith, str_eq, eq_iff, is_empty_text, if◌then◌else◌, Bool-cases, all,
  any, In, here, there,
}
use fcp_sfd_object_processor.Json.{
  Json, undefined, null, bool, num, str, arr, obj, oid, nat, neg, frac, inf, nan, Fields,
  find_field, same,
}
use fcp_sfd_object_processor.Schema.{
  Schema, Keys, no_keys, key, NumberRule, at_least, StringRule, Base, required, string, valid,
  integer, number_rule, with_keys, string_rule, is_undefined, is_string, is_integer,
}
use fcp_sfd_object_processor.Schema.Check.{check, check_keys}
use fcp_sfd_object_processor.Schema.Uploader.{texts}

pub and_true : (a b : Bool) → (a && b) ≡ true → (a ≡ true) × (b ≡ true)
and_true a b h = ground arith

pub or_true : (a b : Bool) → (a || b) ≡ true → a ≡ false → b ≡ true
or_true a b h k = ground arith

false_of_not : (a : Bool) → not a ≡ true → a ≡ false
false_of_not a h = ground arith

-- a text with at least one character
abbrev pub IsFilled : Json → Type 0
IsFilled v = (s : String) × (v ≡ str s) × (is_empty_text s ≡ false)

-- one of the texts
abbrev pub IsOneOf : List String → Json → Type 0
IsOneOf ts v = (s : String) × (v ≡ str s) × In s ts

-- an integer between two bounds
abbrev pub IsIntegerIn : ℕ → ℕ → Json → Type 0
IsIntegerIn lo hi v = (n : ℕ) × (v ≡ num (nat n)) × (lo ≤ n) × (n ≤ hi)

-- the schema of a key
abbrev pub find_key : Keys → String → Option Schema
find_key no_keys k = none
find_key (key j s ks) k = if str_eq j k then some s else find_key ks k

-- Keys that come first are found first.
pub find_key-with_keys :
    (ks more : Keys) (k : String) (s : Schema)
    → find_key ks k ≡ some s
    → find_key (with_keys ks more) k ≡ some s
find_key-with_keys no_keys more k s h = absurd (cc h)
find_key-with_keys (key j t ks) more k s h = elim (Bool-cases (str_eq j k)) [
  | inl e ↦ rw e (rw e at h)
  | inr e ↦ rw e (find_key-with_keys ks more k s (rw e at h))
]

pub undefined_of : (v : Json) → is_undefined v ≡ true → v ≡ undefined
undefined_of undefined h = refl
undefined_of v h = absurd (cc h)

pub valid-IsOneOf : (ts : List String) (v : Json) → any (same v) (texts ts) ≡ true → IsOneOf ts v
valid-IsOneOf [] v h = absurd (cc h)
valid-IsOneOf (t ∷ ts) (str s) h = elim (Bool-cases (str_eq s t)) [
  | inl e ↦ let q : s ≡ t = (eq_iff s t).0 e in rw q (t, refl, here)
  | inr e ↦ let (r, q, m) = valid-IsOneOf ts (str s) (rw e at h) in (r, q, there m)
]
valid-IsOneOf (t ∷ ts) undefined h = let (s, q, m) = valid-IsOneOf ts undefined h in absurd (cc q)
valid-IsOneOf (t ∷ ts) null h = let (s, q, m) = valid-IsOneOf ts null h in absurd (cc q)
valid-IsOneOf (t ∷ ts) (bool true) h =
    let (s, q, m) = valid-IsOneOf ts (bool true) h in absurd (cc q)
valid-IsOneOf (t ∷ ts) (bool false) h =
    let (s, q, m) = valid-IsOneOf ts (bool false) h in absurd (cc q)
valid-IsOneOf (t ∷ ts) (num n) h = let (s, q, m) = valid-IsOneOf ts (num n) h in absurd (cc q)
valid-IsOneOf (t ∷ ts) (oid n) h = let (s, q, m) = valid-IsOneOf ts (oid n) h in absurd (cc q)
valid-IsOneOf (t ∷ ts) (arr xs) h = let (s, q, m) = valid-IsOneOf ts (arr xs) h in absurd (cc q)
valid-IsOneOf (t ∷ ts) (obj fs) h = let (s, q, m) = valid-IsOneOf ts (obj fs) h in absurd (cc q)

module _ (b : Base) where
  pub is_string_text :
      (rs : List StringRule) (v : Json)
      → is_string b rs v ≡ true
      → (s : String) × (v ≡ str s) × (is_empty_text s ≡ false) × (all (string_rule b s) rs ≡ true)
  is_string_text rs (str s) h =
      let (e, a) = and_true (not (is_empty_text s)) (all (string_rule b s) rs) h in
      (s, refl, false_of_not _ e, a)
  is_string_text rs undefined h = absurd (cc h)
  is_string_text rs null h = absurd (cc h)
  is_string_text rs (bool c) h = absurd (cc h)
  is_string_text rs (num n) h = absurd (cc h)
  is_string_text rs (oid n) h = absurd (cc h)
  is_string_text rs (arr xs) h = absurd (cc h)
  is_string_text rs (obj fs) h = absurd (cc h)

  pub is_string-IsFilled : (rs : List StringRule) (v : Json) → is_string b rs v ≡ true → IsFilled v
  is_string-IsFilled rs v h = let (s, e, f, _) = is_string_text rs v h in (s, e, f)

  -- the schema of a named key accepts the field
  pub key_accepted :
      (m : Bool) (p : Fields) (fs : Fields) (ks : Keys) (k : String) (s : Schema)
      → find_key ks k ≡ some s
      → check_keys b m p ks fs ≡ true
      → check b m p s (find_field k fs) ≡ true
  unfolding check_keys
  key_accepted m p fs no_keys k s f h = absurd (cc f)
  key_accepted m p fs (key j t ks) k s f h =
      let (h0, h1) = and_true (check b m p t (find_field j fs)) (check_keys b m p ks fs) h in
      elim (Bool-cases (str_eq j k)) [
        | inl e ↦
            let q : j ≡ k = (eq_iff j k).0 e in let r : t ≡ s = cc (rw e at f) in rw (← r, ← q) h0
        | inr e ↦ key_accepted m p fs ks k s (rw e at f) h1
      ]

  module _ (m : Bool) (p : Fields) where
    pub required_accepted :
        (s : Schema) (v : Json)
        → check b m p (required s) v ≡ true
        → (is_undefined v ≡ false) × (check b m p s v ≡ true)
    unfolding check
    required_accepted s v h =
        let (d, a) = and_true (not (is_undefined v)) (check b m p s v) h in (false_of_not _ d, a)

    pub required_string :
        (rs : List StringRule) (v : Json)
        → check b m p (required (string rs)) v ≡ true
        → is_string b rs v ≡ true
    unfolding check
    required_string rs v h = let (d, a) = required_accepted (string rs) v h in or_true _ _ a d

    pub required_text :
        (rs : List StringRule) (v : Json)
        → check b m p (required (string rs)) v ≡ true
        → (s : String) × (v ≡ str s) × (is_empty_text s ≡ false) × (all (string_rule b s) rs ≡ true)
    required_text rs v h = is_string_text rs v (required_string rs v h)

    pub required-IsFilled :
        (rs : List StringRule) (v : Json) → check b m p (required (string rs)) v ≡ true → IsFilled v
    required-IsFilled rs v h = is_string-IsFilled rs v (required_string rs v h)

    pub required-IsOneOf :
        (ts : List String) (v : Json)
        → check b m p (required (valid (texts ts))) v ≡ true
        → IsOneOf ts v
    unfolding check
    required-IsOneOf ts v h =
        let (d, a) = required_accepted (valid (texts ts)) v h in
        valid-IsOneOf ts v (or_true _ _ a d)

  -- in strict mode
  pub required_integer :
      (p : Fields) (lo : ℕ) (rs : List NumberRule) (v : Json)
      → check b true p (required (integer (at_least lo ∷ rs))) v ≡ true
      → (n : ℕ) × (v ≡ num (nat n))
        × (lo ≤ n)
        × (leb n 9007199254740991 ≡ true)
        × (all (number_rule n) rs ≡ true)
  unfolding check
  required_integer p lo rs v h =
      let (d, a) = required_accepted true p (integer (at_least lo ∷ rs)) v h in
      natural v (or_true _ _ a d)
    where
      natural :
          (w : Json)
          → is_integer (at_least lo ∷ rs) w ≡ true
          → (n : ℕ) × (w ≡ num (nat n))
            × (lo ≤ n)
            × (leb n 9007199254740991 ≡ true)
            × (all (number_rule n) rs ≡ true)
      natural (num (nat n)) q =
          let (safe, a) = and_true (leb n 9007199254740991) _ q in
          let (l, r) = and_true (leb lo n) _ a in (n, refl, leb→le lo n l, safe, r)
      natural (num (neg n)) q =
          let (_, q') = and_true (leb (suc n) 9007199254740991) false q in absurd (cc q')
      natural (num (frac s t)) q = absurd (cc q)
      natural (num (inf s)) q = absurd (cc q)
      natural (num nan) q = absurd (cc q)
      natural undefined q = absurd (cc q)
      natural null q = absurd (cc q)
      natural (bool c) q = absurd (cc q)
      natural (str s) q = absurd (cc q)
      natural (oid n) q = absurd (cc q)
      natural (arr xs) q = absurd (cc q)
      natural (obj fs) q = absurd (cc q)
