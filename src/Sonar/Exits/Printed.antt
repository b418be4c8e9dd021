-- ===== src/Sonar/Exits/Printed.antt =====
-- When the summary of a scan is printed as a success, and when the list of issues without a comment
-- fails nothing, said of the answers of the service.
use fcp_sfd_object_processor.Common.{
  String, ◌≡◌, ◌≢◌, refl, ◌⊎◌, inl, inr, ◌↔◌, Bool, true, false, ◌||◌, some, List, [], ◌∷◌, all, In,
  here, there, Result, ok, err, Failure, Bool-cases, Option-cases, arith, eq_iff, eq_refl,
}
use fcp_sfd_object_processor.Json.{
  Json, undefined, null, bool, num, str, oid, arr, obj, Items, elements, get, is_nullish, is_text,
  is_the_text,
}
use fcp_sfd_object_processor.Sonar.Scan.{
  array_or_empty, search_ends, summary_keys, has_includes, condition_printed, gate_status,
  measures_printed, conditions_printed, is_printed, print_summary, has_uncommented,
}

-- The value is a list, or missing, which counts as the empty list.
abbrev pub IsListOf : Json → List Json → Type 0
IsListOf v xs =
    ((is_nullish v ≡ true) × (xs ≡ []))
    ⊎ ((items : Items) × (v ≡ arr items) × (xs ≡ elements items))

-- No null comes before the first measure of the metric.
abbrev pub Searched : String → List Json → Type 0
Searched key [] = Unit
Searched key (m ∷ ms) = (is_nullish m ≡ false) × ((get m "metric" ≡ str key) ⊎ Searched key ms)

-- A failed condition has a metric that is a text or an array.
abbrev pub IsCondition : Json → Type 0
IsCondition c =
    (is_nullish c ≡ false)
    × (get c "status" ≡ str "ERROR"
        → ((s : String) × (get c "metricKey" ≡ str s))
          ⊎ ((xs : Items) × (get c "metricKey" ≡ arr xs)))

-- The gate passed, or warned with conditions that can be printed, and so can the measures.
pub record IsSummary (gate measures : Json) : Type 0 where
  pub gate_given : is_nullish gate ≡ false
  pub measures_given : is_nullish measures ≡ false
  pub listed :
      (ms : List Json) × IsListOf (get (get measures "component") "measures") ms
      × ((k : String) → In k summary_keys → Searched k ms)
  pub passed :
      (get (get gate "projectStatus") "status" ≡ str "OK")
      ⊎ ((get (get gate "projectStatus") "status" ≡ str "WARN")
          × (cs : List Json) × IsListOf (get (get gate "projectStatus") "conditions") cs
          × ((c : Json) → In c cs → IsCondition c))

-- The issues could not be fetched, or there are none, or one has a component that is no text.
abbrev pub NoneUncommented : Result (List Json) → Type 0
NoneUncommented r =
    ((f : Failure) × (r ≡ err f))
    ⊎ ((r ≡ ok [])
        ⊎ ((issues : List Json) × (r ≡ ok issues)
            × (i : Json) × In i issues
            × ((t : String) → get i "component" ≢ str t)))

the_text : (v : Json) (t : String) → is_the_text v t ≡ true → v ≡ str t
the_text (str s) t h = let e : s ≡ t = (eq_iff s t).0 h in rw e refl
the_text undefined t h = absurd (cc h)
the_text null t h = absurd (cc h)
the_text (bool b) t h = absurd (cc h)
the_text (num n) t h = absurd (cc h)
the_text (oid n) t h = absurd (cc h)
the_text (arr xs) t h = absurd (cc h)
the_text (obj fs) t h = absurd (cc h)

text_is : (v : Json) (t : String) → v ≡ str t → is_the_text v t ≡ true
text_is v t e = rw e (eq_refl t)

list-to : (v : Json) (xs : List Json) → array_or_empty v ≡ some xs → IsListOf v xs
list-to undefined xs h = inl (refl, cc h)
list-to null xs h = inl (refl, cc h)
list-to (arr items) xs h = inr (items, refl, cc h)
list-to (bool b) xs h = absurd (cc h)
list-to (num n) xs h = absurd (cc h)
list-to (str s) xs h = absurd (cc h)
list-to (oid n) xs h = absurd (cc h)
list-to (obj fs) xs h = absurd (cc h)

list-from : (v : Json) (xs : List Json) → IsListOf v xs → array_or_empty v ≡ some xs
list-from v xs (inr (items, e, q)) = rw (e, q) refl
list-from undefined xs (inl (n, q)) = rw q refl
list-from null xs (inl (n, q)) = rw q refl
list-from (arr items) xs (inl (n, q)) = absurd (cc n)
list-from (bool b) xs (inl (n, q)) = absurd (cc n)
list-from (num m) xs (inl (n, q)) = absurd (cc n)
list-from (str s) xs (inl (n, q)) = absurd (cc n)
list-from (oid m) xs (inl (n, q)) = absurd (cc n)
list-from (obj fs) xs (inl (n, q)) = absurd (cc n)

search-to : (k : String) (ms : List Json) → search_ends k ms ≡ true → Searched k ms
search-to k [] h = tt
search-to k (m ∷ ms) h = (
  ground arith,
  elim (Bool-cases (is_the_text (get m "metric") k)) [
    | inl t ↦ inl (the_text (get m "metric") k t)
    | inr t ↦ inr (search-to k ms (ground arith))
  ],
)

search-from : (k : String) (ms : List Json) → Searched k ms → search_ends k ms ≡ true
search-from k [] s = refl
search-from k (m ∷ ms) (n, inl e) = let t = text_is (get m "metric") k e in ground arith
search-from k (m ∷ ms) (n, inr s) = let t = search-from k ms s in ground arith

includes-to :
    (v : Json)
    → has_includes v ≡ true
    → ((s : String) × (v ≡ str s)) ⊎ ((xs : Items) × (v ≡ arr xs))
includes-to (str s) h = inl (s, refl)
includes-to (arr xs) h = inr (xs, refl)
includes-to undefined h = absurd (cc h)
includes-to null h = absurd (cc h)
includes-to (bool b) h = absurd (cc h)
includes-to (num n) h = absurd (cc h)
includes-to (oid n) h = absurd (cc h)
includes-to (obj fs) h = absurd (cc h)

includes-from :
    (v : Json)
    → ((s : String) × (v ≡ str s)) ⊎ ((xs : Items) × (v ≡ arr xs))
    → has_includes v ≡ true
includes-from v (inl (s, e)) = rw e refl
includes-from v (inr (xs, e)) = rw e refl

condition_printed-IsCondition : (c : Json) → condition_printed c ≡ true → IsCondition c
condition_printed-IsCondition c h = (
  ground arith,
  λ e. let t = text_is (get c "status") "ERROR" e in includes-to (get c "metricKey") (ground arith),
)

IsCondition-condition_printed : (c : Json) → IsCondition c → condition_printed c ≡ true
IsCondition-condition_printed c (n, f) = elim (Bool-cases (is_the_text (get c "status") "ERROR")) [
  | inr t ↦ ground arith
  | inl t ↦
      let i = includes-from (get c "metricKey") (f (the_text (get c "status") "ERROR" t)) in
      ground arith
]

module _ {A : Type 0} (p : A → Bool) where
  all-In : (xs : List A) → all p xs ≡ true → (a : A) → In a xs → p a ≡ true
  all-In [] h a m = elim m [ ]
  all-In (x ∷ xs) h a here = ground arith
  all-In (x ∷ xs) h a (there m) = all-In xs (ground arith) a m

  In-all : (xs : List A) → ((a : A) → In a xs → p a ≡ true) → all p xs ≡ true
  In-all [] f = refl
  In-all (x ∷ xs) f = let t = f x here in let ts = In-all xs (λ a m. f a (there m)) in ground arith

module _ (v : Json) where
  measures-to :
      measures_printed (array_or_empty v) ≡ true
      → (ms : List Json) × IsListOf v ms × ((k : String) → In k summary_keys → Searched k ms)
  measures-to h = elim (Option-cases (array_or_empty v)) [
    | inl e ↦ absurd (cc (rw e at h))
    | inr (ms, e) ↦ (
      ms,
      list-to v ms e,
      λ k n. search-to k ms (all-In (λ k. search_ends k ms) summary_keys (rw e at h) k n),
    )
  ]

  measures-from :
      (ms : List Json)
      → IsListOf v ms
      → ((k : String) → In k summary_keys → Searched k ms)
      → measures_printed (array_or_empty v) ≡ true
  measures-from ms l f =
      rw (list-from v ms l)
        (In-all (λ k. search_ends k ms) summary_keys (λ k n. search-from k ms (f k n)))

  conditions-to :
      conditions_printed (array_or_empty v) ≡ true
      → (cs : List Json) × IsListOf v cs × ((c : Json) → In c cs → IsCondition c)
  conditions-to h = elim (Option-cases (array_or_empty v)) [
    | inl e ↦ absurd (cc (rw e at h))
    | inr (cs, e) ↦ (
      cs,
      list-to v cs e,
      λ c n. condition_printed-IsCondition c (all-In condition_printed cs (rw e at h) c n),
    )
  ]

  conditions-from :
      (cs : List Json)
      → IsListOf v cs
      → ((c : Json) → In c cs → IsCondition c)
      → conditions_printed (array_or_empty v) ≡ true
  conditions-from cs l f =
      rw (list-from v cs l)
        (In-all condition_printed cs (λ c n. IsCondition-condition_printed c (f c n)))

module _ (gate measures : Json) where
  abbrev listed_measures : Json
  listed_measures = get (get measures "component") "measures"

  abbrev listed_conditions : Json
  listed_conditions = get (get gate "projectStatus") "conditions"

  printed-to :
      is_printed gate measures ≡ true
      → (is_the_text (gate_status gate) "OK" || is_the_text (gate_status gate) "WARN") ≡ true
      → IsSummary gate measures
  printed-to h w = record {
    gate_given = ground arith;
    measures_given = ground arith;
    listed = measures-to listed_measures (ground arith);
    passed = elim (Bool-cases (is_the_text (gate_status gate) "OK")) [
      | inl t ↦ inl (the_text (gate_status gate) "OK" t)
      | inr t ↦
          let (cs, l, f) = conditions-to listed_conditions (ground arith) in
          inr (the_text (gate_status gate) "WARN" (ground arith), cs, l, f)
    ];
  }

  printed-from : IsSummary gate measures → print_summary gate measures ≡ some true
  unfolding print_summary
  printed-from s =
      let (ms, l, f) = s.listed in
      let m = measures-from listed_measures ms l f in
      elim s.passed [
        | inl e ↦
            let t = text_is (gate_status gate) "OK" e in
            rw (s.measures_given, s.gate_given, m, t) refl
        | inr (e, cs, k, g) ↦
            let t = text_is (gate_status gate) "WARN" e in
            let c = conditions-from listed_conditions cs k g in
            let n : is_the_text (gate_status gate) "OK" ≡ false = rw e refl in
            rw (s.measures_given, s.gate_given, m, n, c, t) refl
      ]

  pub print_summary_iff : (print_summary gate measures ≡ some true) ↔ IsSummary gate measures
  unfolding print_summary
  print_summary_iff = (
    λ h. elim (Bool-cases (is_printed gate measures)) [
      | inr n ↦ absurd (cc (rw n at h))
      | inl t ↦ printed-to t (cc (rw t at h))
    ],
    printed-from,
  )

text_of_component : (v : Json) → is_text v ≡ true → (t : String) × (v ≡ str t)
text_of_component (str t) h = (t, refl)
text_of_component undefined h = absurd (cc h)
text_of_component null h = absurd (cc h)
text_of_component (bool b) h = absurd (cc h)
text_of_component (num n) h = absurd (cc h)
text_of_component (oid n) h = absurd (cc h)
text_of_component (arr xs) h = absurd (cc h)
text_of_component (obj fs) h = absurd (cc h)

all-false :
    {A : Type 0} (p : A → Bool) (xs : List A) → all p xs ≡ false → (a : A) × In a xs × (p a ≡ false)
all-false p [] h = absurd (cc h)
all-false p (x ∷ xs) h = elim (Bool-cases (p x)) [
  | inr t ↦ (x, here, t)
  | inl t ↦ let (a, m, q) = all-false p xs (ground arith) in (a, there m, q)
]

pub has_uncommented_iff : (r : Result (List Json)) → (has_uncommented r ≡ false) ↔ NoneUncommented r
has_uncommented_iff r = (to r, from r)
  where
    to : (r : Result (List Json)) → has_uncommented r ≡ false → NoneUncommented r
    to (err f) h = inl (f, refl)
    to (ok []) h = inr (inl refl)
    to (ok (i ∷ is)) h =
        let (j, m, q) = all-false (λ i. is_text (get i "component")) (i ∷ is) h in
        inr (inr (i ∷ is, refl, j, m, λ t e. cc (rw e at q)))

    from : (r : Result (List Json)) → NoneUncommented r → has_uncommented r ≡ false
    from r (inl (f, e)) = rw e refl
    from r (inr (inl e)) = rw e refl
    from r (inr (inr (issues, e, i, m, n))) =
        elim (Bool-cases (all (λ i. is_text (get i "component")) issues)) [
          | inr h ↦ rw (e, h) (ground arith)
          | inl h ↦
              let (t, q) =
                text_of_component (get i "component")
                  (all-In (λ i. is_text (get i "component")) issues h i m) in
              absurd (n t q)
        ]
