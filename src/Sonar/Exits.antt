-- ===== src/Sonar/Exits.antt =====
-- When the scan exits as a success.
pub mod Printed
use fcp_sfd_object_processor.Common.{
  ℕ, String, ◌≡◌, ◌≢◌, refl, ◌⊎◌, inl, inr, ◌↔◌, true, false, Option, none, some, Result, ok, err,
  Failure, Bool-cases, Result-cases, Option-cases, arith, if◌then◌else◌, ◌==◌, ◌&&◌, ◌||◌, not,
  List, [], ◌∷◌,
}
use fcp_sfd_object_processor.Json.{Json, is_nullish}
use fcp_sfd_object_processor.Sonar.Scan.{
  ScanEnv, is_set, print_summary, has_uncommented, after_summary, after_answers, sonar_scan,
}
use fcp_sfd_object_processor.Sonar.Exits.Printed.{
  IsSummary, print_summary_iff, NoneUncommented, has_uncommented_iff,
}

-- the scanner ran to its end, or to a signal
pub record Scanned (env : ScanEnv) (code : Option ℕ) : Type 0 where
  pub token : is_set env.sonar_token ≡ true
  pub key : (k : Option String) × (env.project_key ≡ ok k) × (is_set k ≡ true)
  pub branch : (b : String) × (env.branch ≡ ok b)
  pub scanner : env.scanner ≡ ok code

-- The service answered, the gate passed or warned, the summary could be printed, and no accepted
-- issues without a comment were listed.
pub record IsClean (env : ScanEnv) : Type 0 where
  pub gate : Json
  pub measures : Json
  pub gate_answer : env.quality_gate ≡ ok gate
  pub measures_answer : env.measures ≡ ok measures
  pub summary : IsSummary gate measures
  pub comments : NoneUncommented env.without_comment

-- the service did not answer one of the two requests
pub NoAnswer : ScanEnv → Type 0
NoAnswer env =
    ((f : Failure) × (env.quality_gate ≡ err f)) ⊎ ((f : Failure) × (env.measures ≡ err f))

one_is_not_zero : ◌≡◌ {A = ℕ} 1 0 → ⊥
one_is_not_zero e = absurd (omega arith)

answered_zero :
    (code : Option ℕ) (env : ScanEnv) (gate measures : Result Json)
    → env.quality_gate ≡ gate
    → env.measures ≡ measures
    → after_answers code env.without_comment gate measures ≡ 0
    → IsClean env ⊎ (NoAnswer env × (code ≡ none))
unfolding NoAnswer
answered_zero code env (ok g) (ok m) p q h = elim (Option-cases (print_summary g m)) [
  | inl n ↦ absurd (one_is_not_zero (rw n at h))
  | inr (passed, e) ↦ elim (Bool-cases passed) [
    | inr n ↦ absurd (one_is_not_zero (rw (e, n) at h))
    | inl t ↦ elim (Bool-cases (has_uncommented env.without_comment)) [
      | inl u ↦ absurd (one_is_not_zero (rw (e, t, u) at h))
      | inr u ↦ inl (record {
        gate = g;
        measures = m;
        gate_answer = p;
        measures_answer = q;
        summary = (print_summary_iff g m).0 (rw t at e);
        comments = (has_uncommented_iff env.without_comment).0 u;
      })
    ]
  ]
]
answered_zero none env (err f) m p q h = inr (inl (f, p), refl)
answered_zero none env (ok g) (err f) p q h = inr (inr (f, q), refl)
answered_zero (some n) env (err f) m p q h = absurd (nonzero n h)
  where
    nonzero : (n : ℕ) → (if n == 0 then 1 else n) ≡ 0 → ⊥
    nonzero n e = absurd (ground arith)
answered_zero (some n) env (ok g) (err f) p q h = absurd (nonzero n h)
  where
    nonzero : (n : ℕ) → (if n == 0 then 1 else n) ≡ 0 → ⊥
    nonzero n e = absurd (ground arith)

-- The scan exits with 0 exactly when the token, the project's key and the branch were found, the
-- scanner ran, and one of two cases holds. In one the service answered, the status of the gate is OK
-- or WARN, the summary of the answers could be printed, and of the accepted issues without a comment
-- the fetch failed, there were none, or one could not be listed, since its component is no text;
-- the code of the scanner is whatever it was. In the other the service did not answer, and the
-- scanner was ended by a signal.
pub sonar_scan-zero_iff :
    (env : ScanEnv)
    → (sonar_scan env ≡ 0)
      ↔ ((code : Option ℕ) × Scanned env code × (IsClean env ⊎ (NoAnswer env × (code ≡ none))))
unfolding sonar_scan NoAnswer
sonar_scan-zero_iff env = (to, from)
  where
    no_measures :
        (f : Failure) (r : Result Json) → after_answers none env.without_comment r (err f) ≡ 0
    no_measures f (ok g) = refl
    no_measures f (err e) = refl

    to :
        sonar_scan env ≡ 0
        → (code : Option ℕ) × Scanned env code × (IsClean env ⊎ (NoAnswer env × (code ≡ none)))
    to h = elim (Bool-cases (is_set env.sonar_token)) [
      | inr n ↦ absurd (one_is_not_zero (rw n at h))
      | inl t ↦ elim (Result-cases env.project_key) [
        | inr (f, e) ↦ absurd (one_is_not_zero (rw (t, e) at h))
        | inl (k, e) ↦ elim (Bool-cases (is_set k)) [
          | inr n ↦ absurd (one_is_not_zero (rw (t, e, n) at h))
          | inl u ↦ elim (Result-cases env.branch) [
            | inr (f, q) ↦ absurd (one_is_not_zero (rw (t, e, u, q) at h))
            | inl (b, q) ↦ elim (Result-cases env.scanner) [
              | inr (f, r) ↦ absurd (one_is_not_zero (rw (t, e, u, q, r) at h))
              | inl (code, r) ↦ (
                code,
                record { token = t; key = (k, e, u); branch = (b, q); scanner = r },
                answered_zero code env env.quality_gate env.measures refl refl
                    (rw (t, e, u, q, r) at h),
              )
            ]
          ]
        ]
      ]
    ]

    from :
        ((code : Option ℕ) × Scanned env code × (IsClean env ⊎ (NoAnswer env × (code ≡ none))))
        → sonar_scan env ≡ 0
    from (code, s, inl c) =
        let (k, e, u') = s.key in
        let (b, q) = s.branch in
        let t = (print_summary_iff c.gate c.measures).1 c.summary in
        let u = (has_uncommented_iff env.without_comment).1 c.comments in
        rw (s.token, e, u', q, s.scanner, c.gate_answer, c.measures_answer, t, u) refl
    from (code, s, inr (inl (f, p), z)) =
        let (k, e, u) = s.key in
        let (b, q) = s.branch in rw (s.token, e, u, q, s.scanner, z, p) refl
    from (code, s, inr (inr (f, p), z)) =
        let (k, e, u) = s.key in
        let (b, q) = s.branch in
        rw (s.token, e, u, q, s.scanner, z, p) (no_measures f env.quality_gate)
