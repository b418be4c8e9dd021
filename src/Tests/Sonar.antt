-- ===== src/Tests/Sonar.antt =====
-- Instances of the theorems on the scan.
use fcp_sfd_object_processor.Common.{
  ℕ, zero, suc, ◌+◌, ◌*◌, ◌≤◌, ◌≡◌, refl, ◌⊎◌, ◌↔◌, String, Bool, true, false, Option, none, some,
  List, [], ◌∷◌, Result, ok, err, Failure, message, map, filter, take, drop, length, In, ltb, arith,
  trim, if◌then◌else◌, ◌&&◌, str_eq,
}
use fcp_sfd_object_processor.Json.{text_of, Json, str, num, nat, arr, obj, nil, cons, end, field}
use fcp_sfd_object_processor.Sonar.{
  SearchPage, fetch_accepted_issues, Issue, group_by_file, sort_by, print_accepted_issues,
  issue_has_comment, extract_file_path,
}
use fcp_sfd_object_processor.Sonar.Scan.{ScanEnv, print_summary, sonar_scan}
use fcp_sfd_object_processor.Sonar.Concurrent.{turn, turns, start, all_stopped, get_elem?}
use fcp_sfd_object_processor.Sonar.Concurrent.Settled.{map_concurrent-settled}
use fcp_sfd_object_processor.Sonar.Concurrent.Ends.{is_live, map_concurrent-ends}
use fcp_sfd_object_processor.Sonar.Exits.{Scanned, IsClean, NoAnswer, sonar_scan-zero_iff}
use fcp_sfd_object_processor.Sonar.Fetched.{Serves, fetch_accepted_issues_complete}
use fcp_sfd_object_processor.Sonar.Shown.{
  shown, issues_of, find_file, is_in, print_accepted_issues-shown,
}

-- a scanner that a signal has ended, and a service that does not answer
abbrev killed : ScanEnv
killed = record {
  sonar_token = some "token";
  project_key = ok (some "project");
  branch = ok "main";
  scanner = ok none;
  quality_gate = err (message "fetch failed");
  measures = err (message "fetch failed");
  without_comment = ok [];
}

-- a gate that passed, with an issue that has neither a comment nor a component
abbrev clean : ScanEnv
clean = record {
  sonar_token = some "token";
  project_key = ok (some "project");
  branch = ok "main";
  scanner = ok (some 3);
  quality_gate = ok (obj (field "projectStatus" (obj (field "status" (str "OK") end)) end));
  measures = ok (obj (field "component" (obj end) end));
  without_comment = ok (obj (field "key" (str "issue") end) ∷ []);
}

clean_succeeds : sonar_scan clean ≡ 0
unfolding sonar_scan print_summary
clean_succeeds = refl

sonar_scan-zero_iff_example :
    (sonar_scan clean ≡ 0)
    ↔ ((code : Option ℕ) × Scanned clean code × (IsClean clean ⊎ (NoAnswer clean × (code ≡ none))))
sonar_scan-zero_iff_example = sonar_scan-zero_iff clean

killed_succeeds : sonar_scan killed ≡ 0
unfolding sonar_scan
killed_succeeds = refl

-- three issues, in one page
abbrev many : ℕ → List Json
many zero = []
many (suc n) = num (nat n) ∷ many n

abbrev three : List Json
three = many 3

abbrev serve : ℕ → Result SearchPage
serve zero = err (message "no page")
serve (suc k) = ok (record { issues = take 500 (drop (k * 500) three); total = some 3 })

serve-Serves : Serves serve 500 three
serve-Serves k = refl

fetch_accepted_issues_complete_example : fetch_accepted_issues serve 4 ≡ some (ok three)
fetch_accepted_issues_complete_example =
    fetch_accepted_issues_complete serve three 4 serve-Serves (omega arith)

-- two workers, three items, and calls that return in another order
abbrev half : ℕ → Result ℕ
half n = if ltb n 9 then ok (n + n) else err (message "large")

abbrev items : List ℕ
items = 1 ∷ 2 ∷ 3 ∷ []

abbrev schedule : List ℕ
schedule = 0 ∷ 1 ∷ 1 ∷ 1 ∷ 1 ∷ 0 ∷ 1 ∷ 0 ∷ []

all_done : all_stopped (turns half items schedule (start half items 2)).workers ≡ true
unfolding turns turn start
all_done = refl

map_concurrent-settled_example :
    (((turns half items schedule (start half items 2)).rejected ≡ none)
      × ((bs : List ℕ) × (map half items ≡ map ok bs)
          × ((turns half items schedule (start half items 2)).results ≡ map some bs)))
    ⊎ ((e : Failure) × ((turns half items schedule (start half items 2)).rejected ≡ some e)
        × ((x : ℕ) × In x items × (half x ≡ err e)))
map_concurrent-settled_example = map_concurrent-settled half items 2 schedule (omega arith) all_done

map_concurrent-ends_example :
    (length schedule ≤ 4 * length items)
    × ((all_stopped (turns half items schedule (start half items 2)).workers ≡ true)
        ⊎ ((w : ℕ) × (is_live (get_elem? (turns half items schedule (start half items 2)).workers w)
              ≡ true)))
unfolding turns turn start
map_concurrent-ends_example =
    map_concurrent-ends half items 2 schedule
      (refl, (refl, (refl, (refl, (refl, (refl, (refl, (refl, tt))))))))

abbrev listed : String → String → Issue
listed key component = record {
  key = key;
  component = component;
  severity = "MAJOR";
  status = "ACCEPTED";
  text = "message";
}

abbrev issues : List Issue
issues = listed "1" "project:b.js" ∷ listed "2" "project:a.js" ∷ listed "3" "project:b.js" ∷ []

abbrev before : String → String → Bool
before a b = str_eq a "a.js" && str_eq b "b.js"

shown_test :
    (shown (print_accepted_issues before "project" issues)
      ≡ take 30 (issues_of (sort_by (λ a b. before a.0 b.0) (group_by_file "project" issues))))
    × ((path : String)
        → find_file path (group_by_file "project" issues) ≡ filter (is_in "project" path) issues)
shown_test = print_accepted_issues-shown "project" before issues

path_test : extract_file_path "project:src/a.js" "project" ≡ "src/a.js"
unfolding extract_file_path
path_test = refl

-- a comment of blanks is none
comment_test :
    issue_has_comment (
      obj (
        field "changelog"
          (arr (
            cons
              (obj (
                field "items"
                  (arr (
                    cons
                      (obj (field "field" (str "comment") (field "newValue" (str " ") end)))
                      nil))
                  end))
              nil))
          end))
    ≡ false
unfolding issue_has_comment trim text_of
comment_test = refl
