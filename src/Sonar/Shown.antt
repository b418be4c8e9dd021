-- ===== src/Sonar/Shown.antt =====
-- What the lists of issues show.
use fcp_sfd_object_processor.Common.{
  ℕ, zero, suc, ◌+◌, ◌-◌, ◌≡◌, refl, sym, ap, ◌∙◌, inl, inr, String, Bool, true, false, List, [],
  ◌∷◌, ◌++◌, append-nil, append_assoc, leb, length, take, filter, str_eq, eq_iff, if◌then◌else◌,
  Bool-cases, arith,
}
use fcp_sfd_object_processor.Sonar.{
  Issue, push_to_file, group_onto, group_by_file, extract_file_path, sort_by, Line, file, issue,
  show_issues, displayed_after, show_files, print_accepted_issues,
}

-- the issues among the lines
abbrev pub shown : List Line → List Issue
shown [] = []
shown (file path ∷ ls) = shown ls
shown (issue i ∷ ls) = i ∷ shown ls

-- the issues of all files, in their order
abbrev pub issues_of : List (String × List Issue) → List Issue
issues_of [] = []
issues_of ((path, is) ∷ files) = is ++ issues_of files

shown-append : (ls ms : List Line) → shown (ls ++ ms) ≡ shown ls ++ shown ms
shown-append [] ms = refl
shown-append (file path ∷ ls) ms = shown-append ls ms
shown-append (issue i ∷ ls) ms = ap (λ r. i ∷ r) (shown-append ls ms)

shown-issues :
    (displayed m : ℕ) (is : List Issue)
    → displayed + m ≡ 30
    → shown (show_issues displayed is) ≡ take m is
shown-issues displayed zero [] h = refl
shown-issues displayed (suc m) [] h = refl
shown-issues displayed zero (i ∷ is) h =
    let t : leb 30 displayed ≡ true = ground (arith, h) in rw t refl
shown-issues displayed (suc m) (i ∷ is) h =
    let t : leb 30 displayed ≡ false = ground (arith, h) in
    rw t (ap (λ r. i ∷ r) (shown-issues (displayed + 1) m is (omega arith)))

displayed_after-eq :
    (displayed m : ℕ) (is : List Issue)
    → displayed + m ≡ 30
    → displayed_after displayed is + (m - length is) ≡ 30
displayed_after-eq displayed m [] h = omega arith
displayed_after-eq displayed zero (i ∷ is) h =
    let t : leb 30 displayed ≡ true = ground (arith, h) in rw t (omega arith)
displayed_after-eq displayed (suc m) (i ∷ is) h =
    let t : leb 30 displayed ≡ false = ground (arith, h) in
    let e = displayed_after-eq (displayed + 1) m is (omega arith) in rw t (omega arith)

take-append :
    (m : ℕ) (xs ys : List Issue) → take m (xs ++ ys) ≡ take m xs ++ take (m - length xs) ys
take-append m [] ys = let e : m - 0 ≡ m = omega arith in rw e (none_taken m)
  where
    none_taken : (n : ℕ) → take n ys ≡ take {A = Issue} n [] ++ take n ys
    none_taken zero = refl
    none_taken (suc n) = refl
take-append zero (x ∷ xs) ys = let e : 0 - suc (length xs) ≡ 0 = omega arith in rw e refl
take-append (suc m) (x ∷ xs) ys =
    let e : suc m - suc (length xs) ≡ m - length xs = omega arith in
    rw e (ap (λ r. x ∷ r) (take-append m xs ys))

-- the two loops show the first issues of the files, up to the limit
shown-files :
    (displayed m : ℕ) (files : List (String × List Issue))
    → displayed + m ≡ 30
    → shown (show_files displayed files) ≡ take m (issues_of files)
shown-files displayed zero [] h = refl
shown-files displayed (suc m) [] h = refl
shown-files displayed zero ((path, is) ∷ files) h =
    let t : leb 30 displayed ≡ true = ground (arith, h) in rw t refl
shown-files displayed (suc m) ((path, is) ∷ files) h =
    let t : leb 30 displayed ≡ false = ground (arith, h) in
    rw t (
      shown-append (show_issues displayed is) (show_files (displayed_after displayed is) files)
      ∙ (λ k.
          shown-issues displayed (suc m) is h k
          ++ shown-files (displayed_after displayed is) (suc m - length is) files
              (displayed_after-eq displayed (suc m) is h) k)
      ∙ sym (take-append (suc m) is (issues_of files)))

-- the issues under a path
abbrev pub find_file : String → List (String × List Issue) → List Issue
find_file path [] = []
find_file path ((p, is) ∷ files) = if str_eq p path then is else find_file path files

find_file-push :
    (path q : String) (i : Issue) (files : List (String × List Issue))
    → find_file path (push_to_file q i files)
      ≡ (if str_eq q path then find_file path files ++ i ∷ [] else find_file path files)
find_file-push path q i [] = elim (Bool-cases (str_eq q path)) [
  | inl t ↦ rw t refl
  | inr t ↦ rw t refl
]
find_file-push path q i ((p, is) ∷ files) = elim (Bool-cases (str_eq p q)) [
  | inl e ↦
      let u : p ≡ q = (eq_iff p q).0 e in
      elim (Bool-cases (str_eq q path)) [ inl t ↦ rw (e, u, t) refl | inr t ↦ rw (e, u, t) refl ]
  | inr e ↦ elim (Bool-cases (str_eq p path)) [
    | inr t ↦ rw (e, t) (find_file-push path q i files)
    | inl t ↦
        let u : p ≡ path = (eq_iff p path).0 t in
        let n : str_eq q path ≡ false = ground (arith, eq_iff q path, eq_iff p q, e, u) in
        rw (e, t, n) refl
  ]
]

module _ (project_key : String) where
  abbrev pub is_in : String → Issue → Bool
  is_in path i = str_eq (extract_file_path i.component project_key) path

  find_file-group :
      (path : String) (is : List Issue) (files : List (String × List Issue))
      → find_file path (group_onto project_key is files)
        ≡ find_file path files ++ filter (is_in path) is
  find_file-group path [] files = sym (append-nil (find_file path files))
  find_file-group path (i ∷ is) files =
      let e =
        find_file-group path is
          (push_to_file (extract_file_path i.component project_key) i files) in
      let p = find_file-push path (extract_file_path i.component project_key) i files in
      elim (Bool-cases (is_in path i)) [
        | inr t ↦ rw t (rw (p, t) at e)
        | inl t ↦ rw t (
            (rw (p, t) at e)
            ∙ append_assoc (find_file path files) (i ∷ []) (filter (is_in path) is))
      ]

  -- The list shows the first thirty issues, file by file in the order of the paths, and the issues
  -- of a file are all those of its path, in their order.
  pub print_accepted_issues-shown :
      (locale_before : String → String → Bool) (issues : List Issue)
      → (shown (print_accepted_issues locale_before project_key issues)
          ≡ take 30 (
              issues_of
                (sort_by (λ a b. locale_before a.0 b.0) (group_by_file project_key issues))))
        × ((path : String)
            → find_file path (group_by_file project_key issues) ≡ filter (is_in path) issues)
  unfolding print_accepted_issues group_by_file
  print_accepted_issues-shown locale_before issues = (
    shown-files 0 30 (sort_by (λ a b. locale_before a.0 b.0) (group_by_file project_key issues))
        refl,
    λ path. find_file-group path issues [],
  )
