-- ===== src/Masking.antt =====
-- utils/mask-crn.js: a CRN in a log line keeps its last four characters.
pub mod Laws
use Prim.Native.String.{String, [], ◌∷◌, ◌++◌}
use fcp_sfd_object_processor.Common.{
  ℕ, zero, suc, ◌-◌, Bool, true, false, ◌&&◌, ◌||◌, text_length, starts_with, is_empty_text, leb,
  if◌then◌else◌, ◌==◌,
}
use fcp_sfd_object_processor.Json.{Json, str, text_of, is_text, is_nullish, is_the_text}

-- `'*'.repeat(n)`
abbrev pub stars : ℕ → String
stars zero = []
stars (suc n) = "*" ∷ stars n

-- `s.slice(n)`
abbrev pub slice_from : ℕ → String → String
slice_from zero s = s
slice_from (suc n) [] = []
slice_from (suc n) (c ∷ s) = slice_from n s

abbrev pub mask_text : String → String
mask_text value =
    if leb (text_length value) 4
    then value
    else stars (text_length value - 4) ++ slice_from (text_length value - 4) value

-- maskCrn
unfoldable pub mask_crn : Json → String
mask_crn crn = mask_text (text_of crn)

-- `s.replaceAll(p, r)` where `p` has the first character `c` and then `cs`, and no `$` is in `r`.
-- The first argument counts the characters that are left of an occurrence.
abbrev pub replace_all : String → String → String → ℕ → String → String
replace_all p r rest n [] = []
replace_all p r rest (suc n) (d ∷ s) = replace_all p r rest n s
replace_all p r rest zero (d ∷ s) = elim (starts_with p (d ∷ s)) [
  | true ↦ r ++ replace_all p r rest (text_length rest) s
  | false ↦ d ∷ replace_all p r rest zero s
]

abbrev pub replace_text : String → String → String → String
replace_text [] r s = s
replace_text (c ∷ rest) r s = replace_all (c ∷ rest) r rest zero s

-- maskCrnInText
unfoldable pub mask_crn_in_text : Json → Json → Json
mask_crn_in_text (str s) crn =
    if is_nullish crn || is_the_text crn ""
    then str s
    else str (replace_text (text_of crn) (mask_crn crn) s)
mask_crn_in_text text crn = text
