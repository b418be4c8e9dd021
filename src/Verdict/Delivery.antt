-- ===== src/Verdict/Delivery.antt =====
-- When a file counts as undelivered, said of the entries and documents that the queries returned.
use fcp_sfd_object_processor.Common.{
  ℕ, String, ◌≡◌, ◌≢◌, refl, ◌∙◌, ◌⊎◌, inl, inr, ◌↔◌, true, false, ◌&&◌, Option, none, some, List,
  [], ◌∷◌, All, arith, Bool-cases, Option-cases, eq_iff, eq_refl,
}
use fcp_sfd_object_processor.Json.{
  Json, undefined, null, bool, num, str, oid, arr, obj, same, is_text,
}
use fcp_sfd_object_processor.Outbox.{Status, pending, processing, sent, permanent_failure}
use fcp_sfd_object_processor.Verdict.{
  delivery_of, published_of, has_permanent_failure, is_undelivered,
}

-- The last entry of the file has the status.
abbrev pub LastIs : String → Status → List (Json × Status) → Type 0
LastIs t s [] = ⊥
LastIs t s (x ∷ rs) = LastIs t s rs ⊎ ((x.0 ≡ str t) × (x.1 ≡ s) × All (λ y. y.0 ≢ str t) rs)

-- The first document of the file has the date, or none.
abbrev pub FirstIs : String → Option ℕ → List (Json × Option ℕ) → Type 0
FirstIs t d [] = ⊥
FirstIs t d (x ∷ ms) = ((x.0 ≡ str t) × (x.1 ≡ d)) ⊎ ((x.0 ≢ str t) × FirstIs t d ms)

-- The last entry of the file failed for good, and its document is not there or has no date.
abbrev pub IsUndelivered : String → List (Json × Status) → List (Json × Option ℕ) → Type 0
IsUndelivered t outbox metadata =
    LastIs t permanent_failure outbox × ((d : ℕ) → FirstIs t (some d) metadata → ⊥)

same-text : (j : Json) (t : String) → same j (str t) ≡ true → j ≡ str t
same-text (str s) t h = let e : s ≡ t = (eq_iff s t).0 h in rw e refl
same-text undefined t h = absurd (cc h)
same-text null t h = absurd (cc h)
same-text (bool true) t h = absurd (cc h)
same-text (bool false) t h = absurd (cc h)
same-text (num n) t h = absurd (cc h)
same-text (oid n) t h = absurd (cc h)
same-text (arr xs) t h = absurd (cc h)
same-text (obj fs) t h = absurd (cc h)

text-same : (j : Json) (t : String) → j ≡ str t → same j (str t) ≡ true
text-same j t e = rw e (eq_refl t)

text-key : (j : Json) (t : String) → j ≡ str t → (is_text j && same j (str t)) ≡ true
text-key j t e = rw e (eq_refl t)

other-same : (j : Json) (t : String) → same j (str t) ≡ false → j ≢ str t
other-same j t h e = cc (h, text-same j t e)

other-key : (j : Json) (t : String) → (is_text j && same j (str t)) ≡ false → j ≢ str t
other-key j t h e = cc (h, text-key j t e)

same-other : (j : Json) (t : String) → j ≢ str t → same j (str t) ≡ false
same-other j t n = elim (Bool-cases (same j (str t))) [
  | inl h ↦ absurd (n (same-text j t h))
  | inr h ↦ h
]

key-other : (j : Json) (t : String) → j ≢ str t → (is_text j && same j (str t)) ≡ false
key-other j t n = let h = same-other j t n in ground arith

key-text : (j : Json) (t : String) → (is_text j && same j (str t)) ≡ true → j ≡ str t
key-text j t h = same-text j t (ground arith)

module _ (t : String) where
  none-delivery_of :
      (rs : List (Json × Status)) → All (λ y. y.0 ≢ str t) rs → delivery_of (str t) rs ≡ none
  none-delivery_of [] a = refl
  none-delivery_of ((j, s) ∷ rs) a = rw (none-delivery_of rs a.1, key-other j t a.0) refl

  delivery_of-none :
      (rs : List (Json × Status)) → delivery_of (str t) rs ≡ none → All (λ y. y.0 ≢ str t) rs
  delivery_of-none [] h = tt
  delivery_of-none ((j, s) ∷ rs) h = elim (Option-cases (delivery_of (str t) rs)) [
    | inr (u, e) ↦ absurd (cc (rw e at h))
    | inl e ↦ elim (Bool-cases (is_text j && same j (str t))) [
      | inl k ↦ absurd (cc (rw (e, k) at h))
      | inr k ↦ (other-key j t k, delivery_of-none rs e)
    ]
  ]

  delivery_of-LastIs :
      (s : Status) (rs : List (Json × Status)) → delivery_of (str t) rs ≡ some s → LastIs t s rs
  delivery_of-LastIs s [] h = cc h
  delivery_of-LastIs s ((j, u) ∷ rs) h = elim (Option-cases (delivery_of (str t) rs)) [
    | inr (v, e) ↦ inl (delivery_of-LastIs s rs (e ∙ (rw e at h)))
    | inl e ↦ elim (Bool-cases (is_text j && same j (str t))) [
      | inl k ↦ inr (key-text j t k, cc (rw (e, k) at h), delivery_of-none rs e)
      | inr k ↦ absurd (cc (rw (e, k) at h))
    ]
  ]

  LastIs-delivery_of :
      (s : Status) (rs : List (Json × Status)) → LastIs t s rs → delivery_of (str t) rs ≡ some s
  LastIs-delivery_of s [] l = elim l [ ]
  LastIs-delivery_of s ((j, u) ∷ rs) (inl l) = rw (LastIs-delivery_of s rs l) refl
  LastIs-delivery_of s ((j, u) ∷ rs) (inr (e, q, a)) =
      rw (none-delivery_of rs a, text-key j t e, q) refl

  published_of-FirstIs :
      (d : ℕ) (ms : List (Json × Option ℕ))
      → published_of (str t) ms ≡ some d
      → FirstIs t (some d) ms
  published_of-FirstIs d [] h = cc h
  published_of-FirstIs d ((j, e) ∷ ms) h = elim (Bool-cases (same j (str t))) [
    | inl k ↦ inl (same-text j t k, rw k at h)
    | inr k ↦ inr (other-same j t k, published_of-FirstIs d ms (rw k at h))
  ]

  FirstIs-published_of :
      (d : ℕ) (ms : List (Json × Option ℕ))
      → FirstIs t (some d) ms
      → published_of (str t) ms ≡ some d
  FirstIs-published_of d [] f = elim f [ ]
  FirstIs-published_of d ((j, e) ∷ ms) (inl (k, q)) = rw (text-same j t k) q
  FirstIs-published_of d ((j, e) ∷ ms) (inr (k, f)) =
      rw (same-other j t k) (FirstIs-published_of d ms f)

  failed_for_good :
      (o : Option Status) → has_permanent_failure o ≡ true → o ≡ some permanent_failure
  failed_for_good none h = absurd (cc h)
  failed_for_good (some pending) h = absurd (cc h)
  failed_for_good (some processing) h = absurd (cc h)
  failed_for_good (some sent) h = absurd (cc h)
  failed_for_good (some permanent_failure) h = refl

  -- the test of the source is this condition
  pub is_undelivered_iff :
      (o : List (Json × Status)) (m : List (Json × Option ℕ))
      → (is_undelivered o m (str t) ≡ false) ↔ (IsUndelivered t o m → ⊥)
  is_undelivered_iff o m = (to, from)
    where
      to : is_undelivered o m (str t) ≡ false → IsUndelivered t o m → ⊥
      to h (l, n) = elim (Option-cases (published_of (str t) m)) [
        | inr (d, e) ↦ n d (published_of-FirstIs d m e)
        | inl e ↦ cc (rw (LastIs-delivery_of permanent_failure o l, e) at h)
      ]

      from : (IsUndelivered t o m → ⊥) → is_undelivered o m (str t) ≡ false
      from k = elim (Bool-cases (has_permanent_failure (delivery_of (str t) o))) [
        | inr h ↦ rw h refl
        | inl h ↦ elim (Option-cases (published_of (str t) m)) [
          | inr (d, e) ↦ rw (h, e) refl
          | inl e ↦ absurd (
              k (
                delivery_of-LastIs permanent_failure o (failed_for_good (delivery_of (str t) o) h),
                λ d f. cc (e, FirstIs-published_of d m f),
              ))
        ]
      ]
