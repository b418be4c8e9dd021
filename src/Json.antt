-- ===== src/Json.antt =====
-- The values of the source's language, as the callback and the upstream service deliver them.
-- `undefined` is a value; `oid` is an ObjectId of the database, known by its number.
use Prim.Native.String
use fcp_sfd_object_processor.Common.{
  ℕ, suc, ◌≡◌, refl, inl, inr, Bool-cases, String, str_eq, Bool, true, false, ◌||◌, List, [], ◌∷◌,
  ◌==◌, if◌then◌else◌, is_empty_text, decimal,
}

-- `neg n` is -(n + 1). A `frac` is finite, no integer and carries the text that it prints as.
pub data Number : Type 0 where
  nat neg : ℕ → Number
  frac : Bool → String → Number
  inf : Bool → Number
  nan : Number

mutual
  pub data Json : Type 0 where
    undefined null : Json
    bool : Bool → Json
    num : Number → Json
    str : String → Json
    oid : ℕ → Json
    arr : Items → Json
    obj : Fields → Json

  pub data Items : Type 0 where
    nil : Items
    cons : Json → Items → Items

  pub data Fields : Type 0 where
    end : Fields
    field : String → Json → Fields → Fields

abbrev pub elements : Items → List Json
elements nil = []
elements (cons x xs) = x ∷ elements xs

abbrev pub to_items : List Json → Items
to_items [] = nil
to_items (x ∷ xs) = cons x (to_items xs)

-- `Object.values` and `Object.entries` of an object literal, in the order of its keys.
abbrev pub field_values : Fields → List Json
field_values end = []
field_values (field k v fs) = v ∷ field_values fs

abbrev pub entries : Fields → List (String × Json)
entries end = []
entries (field k v fs) = (k, v) ∷ entries fs

abbrev pub find_field : String → Fields → Json
find_field k end = undefined
find_field k (field j v fs) = if str_eq j k then v else find_field k fs

abbrev pub has_field : String → Fields → Bool
has_field k end = false
has_field k (field j v fs) = str_eq j k || has_field k fs

-- `o[k] = v`: an own key keeps its place.
abbrev pub put_field : String → Json → Fields → Fields
put_field k v end = field k v end
put_field k v (field j w fs) = if str_eq j k then field j v fs else field j w (put_field k v fs)

abbrev pub remove_field : String → Fields → Fields
remove_field k end = end
remove_field k (field j w fs) =
    let rest = remove_field k fs in if str_eq j k then rest else field j w rest

-- `v?.k`
abbrev pub get : Json → String → Json
get (obj fs) k = find_field k fs
get _ k = undefined

-- `k in v`, for an object `v` that is no array
abbrev pub has : Json → String → Bool
has (obj fs) k = has_field k fs
has _ k = false

-- `typeof v === 'object' && v !== null`
abbrev pub is_object : Json → Bool
is_object (oid n) = true
is_object (arr xs) = true
is_object (obj fs) = true
is_object _ = false

abbrev pub is_text : Json → Bool
is_text (str s) = true
is_text _ = false

abbrev pub is_nullish : Json → Bool
is_nullish undefined = true
is_nullish null = true
is_nullish _ = false

abbrev is_zero_or_nan : Number → Bool
is_zero_or_nan (nat n) = n == 0
is_zero_or_nan nan = true
is_zero_or_nan _ = false

-- what a test `if (v)` reads
abbrev pub truthy : Json → Bool
truthy undefined = false
truthy null = false
truthy (bool b) = b
truthy (num n) = if is_zero_or_nan n then false else true
truthy (str s) = if is_empty_text s then false else true
truthy _ = true

-- `a || b`
abbrev pub or_else : Json → Json → Json
or_else a b = if truthy a then a else b

-- `v === 'text'`
abbrev pub is_the_text : Json → String → Bool
is_the_text (str s) t = str_eq s t
is_the_text _ t = false

abbrev pub same_number : Number → Number → Bool
same_number (nat a) (nat b) = a == b
same_number (neg a) (neg b) = a == b
same_number (frac true a) (frac true b) = str_eq a b
same_number (frac false a) (frac false b) = str_eq a b
same_number (inf true) (inf true) = true
same_number (inf false) (inf false) = true
same_number _ _ = false

-- `a === b`. Two objects of one payload are never one object, and an ObjectId is only ever
-- compared with the object that it was read as.
abbrev pub same : Json → Json → Bool
same undefined undefined = true
same null null = true
same (bool true) (bool true) = true
same (bool false) (bool false) = true
same (num a) (num b) = same_number a b
same (str a) (str b) = str_eq a b
same (oid a) (oid b) = a == b
same _ _ = false

abbrev negative_text : String → String
negative_text s = String.◌++◌ "-" s

-- `String(n)`
abbrev pub number_text : Number → String
number_text (nat n) = decimal n
number_text (neg n) = negative_text (decimal (suc n))
number_text (frac s t) = t
number_text (inf true) = "-Infinity"
number_text (inf false) = "Infinity"
number_text nan = "NaN"

-- `${v}` and `String(v)`. An ObjectId prints as its identifier, here its number.
unfoldable mutual
  pub text_of : Json → String
  text_of undefined = "undefined"
  text_of null = "null"
  text_of (bool true) = "true"
  text_of (bool false) = "false"
  text_of (num n) = number_text n
  text_of (str s) = s
  text_of (oid n) = decimal n
  text_of (obj fs) = "[object Object]"
  text_of (arr nil) = ""
  text_of (arr (cons x xs)) = String.◌++◌ (element_text x) (joined xs)

  -- an element of a printed array, which prints nothing for a missing value
  pub element_text : Json → String
  element_text undefined = ""
  element_text null = ""
  element_text (bool true) = "true"
  element_text (bool false) = "false"
  element_text (num n) = number_text n
  element_text (str s) = s
  element_text (oid n) = decimal n
  element_text (obj fs) = "[object Object]"
  element_text (arr nil) = ""
  element_text (arr (cons x xs)) = String.◌++◌ (element_text x) (joined xs)

  pub joined : Items → String
  joined nil = ""
  joined (cons x xs) = String.◌++◌ "," (String.◌++◌ (element_text x) (joined xs))

-- a removed key is gone
pub remove_field-absent : (k : String) (fs : Fields) → has_field k (remove_field k fs) ≡ false
remove_field-absent k end = refl
remove_field-absent k (field j w fs) = elim (Bool-cases (str_eq j k)) [
  | inl t ↦ rw t (remove_field-absent k fs)
  | inr t ↦ rw t (rw t (remove_field-absent k fs))
]
