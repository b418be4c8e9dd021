-- ===== src/Sonar/Scan.antt =====
-- scripts/sonar-scan.js: the scan itself, up to its exit code. What is printed is left out, but not
-- where printing throws: the answers of the service are any values that JSON has. A value is taken to
-- have a text, and texts to be well-formed, as encodeURIComponent wants. The scanner and the
-- environment are parameters too, and a scanner that a signal has ended has no exit code.
use fcp_sfd_object_processor.Common.{
  ℕ, String, Bool, true, false, ◌&&◌, ◌||◌, not, Option, none, some, List, [], ◌∷◌, ◌==◌, all,
  is_empty, if◌then◌else◌, is_empty_text, Result, ok, err,
}
use fcp_sfd_object_processor.Json.{
  Json, undefined, null, str, arr, elements, get, is_nullish, is_text, is_the_text,
}

-- What a scan meets: the variable with the token, the property with the project's key, the branch,
-- the scanner, whose exit code is missing if a signal ended it, the answers about the quality gate
-- and the measures, and the accepted issues that have no comment.
pub record ScanEnv : Type 0 where
  pub sonar_token : Option String
  pub project_key : Result (Option String)
  pub branch : Result String
  pub scanner : Result (Option ℕ)
  pub quality_gate : Result Json
  pub measures : Result Json
  pub without_comment : Result (List Json)

abbrev pub is_set : Option String → Bool
is_set none = false
is_set (some s) = not (is_empty_text s)

-- `v ?? []`, where a list is read: none for a value that has not the methods of an array
abbrev pub array_or_empty : Json → Option (List Json)
array_or_empty undefined = some []
array_or_empty null = some []
array_or_empty (arr xs) = some (elements xs)
array_or_empty _ = none

-- The search of getMeasureValue reads the metric of each measure, up to one of the key.
abbrev pub search_ends : String → List Json → Bool
search_ends key [] = true
search_ends key (m ∷ ms) =
    let rest = search_ends key ms in
    not (is_nullish m) && (is_the_text (get m "metric") key || rest)

abbrev pub summary_keys : List String
summary_keys =
    "new_violations" ∷ "accepted_issues" ∷ "security_hotspots" ∷ "new_coverage"
    ∷ "new_duplicated_lines_density" ∷ []

abbrev pub measures_printed : Option (List Json) → Bool
measures_printed none = false
measures_printed (some ms) = all (λ k. search_ends k ms) summary_keys

-- `v.includes(...)` is called of a text or an array
abbrev pub has_includes : Json → Bool
has_includes (str s) = true
has_includes (arr xs) = true
has_includes _ = false

abbrev pub condition_printed : Json → Bool
condition_printed c =
    not (is_nullish c)
    && (not (is_the_text (get c "status") "ERROR") || has_includes (get c "metricKey"))

-- printFailedConditions, as far as that it does not throw
abbrev pub conditions_printed : Option (List Json) → Bool
conditions_printed none = false
conditions_printed (some cs) = all condition_printed cs

abbrev pub gate_status : Json → Json
gate_status gate = get (get gate "projectStatus") "status"

abbrev pub is_printed : Json → Json → Bool
is_printed gate measures =
    not (is_nullish measures)
    && not (is_nullish gate)
    && measures_printed (array_or_empty (get (get measures "component") "measures"))
    && (is_the_text (gate_status gate) "OK"
        || conditions_printed (array_or_empty (get (get gate "projectStatus") "conditions")))

-- printSummary: what it returns, or none where it throws
unfoldable pub print_summary : Json → Json → Option Bool
print_summary gate measures =
    if is_printed gate measures
    then some (is_the_text (gate_status gate) "OK" || is_the_text (gate_status gate) "WARN")
    else none

-- `process.exit(code)`, which exits with 0 where there is no code
abbrev pub exit_with : Option ℕ → ℕ
exit_with none = 0
exit_with (some n) = n

abbrev is_zero_code : Option ℕ → Bool
is_zero_code none = false
is_zero_code (some n) = n == 0

-- The flag hasAcceptedIssuesWithoutComment. A failure to fetch the issues is only logged, and so is
-- the error of printing an issue whose component is no text.
abbrev pub has_uncommented : Result (List Json) → Bool
has_uncommented (err f) = false
has_uncommented (ok issues) = not (is_empty issues) && all (λ i. is_text (get i "component")) issues

abbrev pub after_summary : Result (List Json) → Option Bool → ℕ
after_summary issues none = 1
after_summary issues (some passed) = if not passed || has_uncommented issues then 1 else 0

abbrev pub after_answers : Option ℕ → Result (List Json) → Result Json → Result Json → ℕ
after_answers scan_code issues (ok gate) (ok measures) =
    after_summary issues (print_summary gate measures)
after_answers scan_code issues _ _ = if is_zero_code scan_code then 1 else exit_with scan_code

abbrev after_scan : ScanEnv → Result (Option ℕ) → ℕ
after_scan env (err f) = 1
after_scan env (ok scan_code) =
    after_answers scan_code env.without_comment env.quality_gate env.measures

abbrev after_branch : ScanEnv → Result String → ℕ
after_branch env (err f) = 1
after_branch env (ok branch) = after_scan env env.scanner

abbrev after_key : ScanEnv → Result (Option String) → ℕ
after_key env (err f) = 1
after_key env (ok key) = if is_set key then after_branch env env.branch else 1

-- sonarScan: the exit code of the process
unfoldable pub sonar_scan : ScanEnv → ℕ
unfolding print_summary
sonar_scan env = if is_set env.sonar_token then after_key env env.project_key else 1
