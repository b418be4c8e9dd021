-- ===== src/Sonar.antt =====
-- scripts/sonar-scan.js: what the scan fetches and what it shows. The answers of the service are
-- parameters; where it answers with a list of issues, it is taken to be an array.
pub mod Concurrent
pub mod Fetched
pub mod Shown
pub mod Scan
pub mod Exits
use Prim.Native.String
use fcp_sfd_object_processor.Common.{
  ℕ, zero, suc, ◌+◌, ◌-◌, String, Bool, true, false, ◌&&◌, ◌||◌, not, Option, none, some, List, [],
  ◌∷◌, ◌++◌, ◌==◌, ltb, leb, length, any, find, filter, is_empty, if◌then◌else◌, str_eq,
  is_empty_text, trim, text_length, starts_with, decimal, Result, ok, err, Failure,
}
use fcp_sfd_object_processor.Json.{Json, str, arr, elements, get, is_nullish, is_the_text, text_of}

-- `a ?? b`
abbrev pub or_nullish : Json → Json → Json
or_nullish a b = if is_nullish a then b else a

-- `v ?? []`
abbrev pub list_of : Json → List Json
list_of (arr xs) = elements xs
list_of _ = []

abbrev is_comment : Json → Bool
is_comment item =
    is_the_text (get item "field") "comment"
    && not (
        is_empty_text (
          trim (
            text_of
              (or_nullish (get item "newValue") (or_nullish (get item "newString") (str ""))))))

-- issueHasComment
unfoldable pub issue_has_comment : Json → Bool
issue_has_comment response =
    any (λ entry. any is_comment (list_of (get entry "items"))) (list_of (get response "changelog"))

-- one page of a search, whose total may be missing
pub record SearchPage : Type 0 where
  pub issues : List Json
  pub total : Option ℕ

abbrev total_of : SearchPage → ℕ → ℕ
total_of r fetched = elim r.total [ none ↦ fetched | some n ↦ n ]

-- the end of the loop, or its next round
abbrev after_page :
    ℕ
    → List Json
    → (List Json → Option (Result (List Json)))
    → Result SearchPage
    → Option (Result (List Json))
after_page page_size issues next (err f) = some (err f)
after_page page_size issues next (ok r) =
    let all = issues ++ r.issues in
    if leb (total_of r (length all)) (length all) || ltb (length r.issues) page_size
    then some (ok all)
    else next all

-- the loop of fetchAcceptedIssues, for so many rounds; `none` if it has not ended by then
pub fetch_pages : (ℕ → Result SearchPage) → ℕ → ℕ → ℕ → List Json → Option (Result (List Json))
fetch_pages fetch page_size zero page issues = none
fetch_pages fetch page_size (suc fuel) page issues =
    after_page page_size issues (fetch_pages fetch page_size fuel (page + 1)) (fetch page)

-- fetchAcceptedIssues
unfoldable pub fetch_accepted_issues : (ℕ → Result SearchPage) → ℕ → Option (Result (List Json))
unfolding fetch_pages
fetch_accepted_issues fetch fuel = fetch_pages fetch 500 fuel 1 []

abbrev first_of : List Json → Json
first_of [] = Json.undefined
first_of (x ∷ xs) = x

abbrev not_available : Json
not_available = str "N/A"

abbrev measure_value : Option Json → Json
measure_value none = not_available
measure_value (some m) =
    or_nullish (get m "value")
      (or_nullish (get (first_of (list_of (get m "periods"))) "value") not_available)

-- getMeasureValue
unfoldable pub get_measure_value : List Json → String → Json
get_measure_value measures key =
    measure_value (find (λ m. is_the_text (get m "metric") key) measures)

abbrev pub drop_text : ℕ → String → String
drop_text zero s = s
drop_text (suc n) String.[] = String.[]
drop_text (suc n) (String.◌∷◌ c s) = drop_text n s

-- extractFilePath
unfoldable pub extract_file_path : String → String → String
extract_file_path component project_key =
    let prefix = String.◌++◌ project_key ":" in
    if starts_with prefix component then drop_text (text_length prefix) component else component

-- An issue as the lists show it.
pub record Issue : Type 0 where
  pub key : String
  pub component : String
  pub severity : String
  pub status : String
  pub text : String

-- `byFile.get(path).push(issue)`, for a path that may be new
abbrev pub push_to_file : String → Issue → List (String × List Issue) → List (String × List Issue)
push_to_file path issue [] = (path, issue ∷ []) ∷ []
push_to_file path issue ((p, is) ∷ files) =
    let rest = (p, is) ∷ push_to_file path issue files in
    if str_eq p path then (p, is ++ issue ∷ []) ∷ files else rest

abbrev pub group_onto :
    String → List Issue → List (String × List Issue) → List (String × List Issue)
group_onto project_key [] files = files
group_onto project_key (i ∷ is) files =
    group_onto project_key is (push_to_file (extract_file_path i.component project_key) i files)

-- the map byFile
unfoldable pub group_by_file : String → List Issue → List (String × List Issue)
group_by_file project_key issues = group_onto project_key issues []

-- `SEVERITY_ORDER.indexOf(severity) + 1`
unfoldable pub severity_rank : String → ℕ
severity_rank s =
    if str_eq s "BLOCKER"
    then 1
    else if str_eq s "CRITICAL"
    then 2
    else if str_eq s "MAJOR"
    then 3
    else if str_eq s "MINOR"
    then 4
    else if str_eq s "INFO"
    then 5
    else 0

abbrev pub insert_by : {A : Type 0} → (A → A → Bool) → A → List A → List A
insert_by before x [] = x ∷ []
insert_by before x (y ∷ ys) =
    let rest = y ∷ insert_by before x ys in if before y x then rest else x ∷ y ∷ ys

-- a stable sort: `before y x` puts the later element `y` first
abbrev pub sort_by : {A : Type 0} → (A → A → Bool) → List A → List A
sort_by before [] = []
sort_by before (x ∷ xs) = insert_by before x (sort_by before xs)

-- what the two lists of issues print: a file, or an issue of it
pub data Line : Type 0 where
  file : String → Line
  issue : Issue → Line

abbrev pub max_issues_displayed : ℕ
max_issues_displayed = 30

abbrev pub show_issues : ℕ → List Issue → List Line
show_issues displayed [] = []
show_issues displayed (i ∷ is) =
    let rest = issue i ∷ show_issues (displayed + 1) is in
    if leb max_issues_displayed displayed then [] else rest

-- how many are displayed after the issues of one file
abbrev pub displayed_after : ℕ → List Issue → ℕ
displayed_after displayed [] = displayed
displayed_after displayed (i ∷ is) =
    let rest = displayed_after (displayed + 1) is in
    if leb max_issues_displayed displayed then displayed else rest

abbrev pub show_files : ℕ → List (String × List Issue) → List Line
show_files displayed [] = []
show_files displayed ((path, is) ∷ files) =
    let rest =
      file path ∷ show_issues displayed is ++ show_files (displayed_after displayed is) files in
    if leb max_issues_displayed displayed then [] else rest

-- the lines of printIssues: by severity, then by file, in the order of `localeCompare`
unfoldable pub print_issues : (String → String → Bool) → String → List Issue → List Line
unfolding severity_rank group_by_file
print_issues locale_before project_key issues = show_files 0 (
    sort_by (λ a b. locale_before a.0 b.0)
      (group_by_file project_key
        (sort_by (λ a b. ltb (severity_rank a.severity) (severity_rank b.severity)) issues)))

-- the lines of printAcceptedIssuesWithoutComment
unfoldable pub print_accepted_issues : (String → String → Bool) → String → List Issue → List Line
unfolding group_by_file
print_accepted_issues locale_before project_key issues =
    show_files 0 (sort_by (λ a b. locale_before a.0 b.0) (group_by_file project_key issues))

-- formatIssueStatus
unfoldable pub format_issue_status : Json → String
format_issue_status (str s) =
    if str_eq s "FALSE_POSITIVE"
    then "False positive"
    else if str_eq s "ACCEPTED"
    then "Accepted"
    else s
format_issue_status v = text_of (or_nullish v (str "Unknown"))
