-- ===== src/Formats/Numbers.antt =====
-- config/formats/positive-int.js, ttl-seconds.js and endpoint-path.js.
use Prim.Native.Char.{code}
use Prim.Native.String.{String, [], ◌∷◌}
use fcp_sfd_object_processor.Common.{
  ℕ, zero, suc, ◌+◌, ◌-◌, ◌*◌, ◌≤◌, ◌≡◌, refl, ◌↔◌, inl, inr, Bool, true, false, ◌&&◌, Option, none,
  some, trim, leb, arith, if◌then◌else◌, starts_with, ◌==◌, Result, ok, err, message, Bool-cases,
}
use fcp_sfd_object_processor.Json.{Json, Number, num, str, nat, neg, nan}

-- the digits that a text starts with, if any
abbrev digits_from : Option ℕ → String → Option ℕ
digits_from acc [] = acc
digits_from acc (c ∷ s) =
    let next =
      digits_from (some (elim acc [ none ↦ code c - 48 | some n ↦ n * 10 + (code c - 48) ])) s in
    if leb 48 (code c) && leb (code c) 57 then next else acc

abbrev number_of : Bool → Option ℕ → Number
number_of negative none = nan
number_of negative (some zero) = nat zero
number_of true (some (suc n)) = neg n
number_of false (some (suc n)) = nat (suc n)

abbrev signed : String → Number
signed [] = nan
signed (c ∷ s) =
    if code c == 45
    then number_of true (digits_from none s)
    else if code c == 43
    then number_of false (digits_from none s)
    else number_of false (digits_from none (c ∷ s))

-- `Number.parseInt(s, 10)`, of up to fifteen digits
unfoldable pub parse_int : String → Number
parse_int s = signed (trim s)

-- coerce of positive-int.js and of ttl-seconds.js
abbrev pub coerce_number : Json → Json
coerce_number (str s) = num (parse_int s)
coerce_number v = v

abbrev pub min_ttl_seconds : ℕ
min_ttl_seconds = 60

-- `Number.isInteger(v) && v >= least`, where `least` is not negative
abbrev pub is_integer_from : ℕ → Json → Bool
is_integer_from least (num (nat n)) = leb least n
is_integer_from least v = false

unfoldable pub validate_positive_int : Json → Result {0} Unit
validate_positive_int v =
    if is_integer_from 1 v then ok tt else err (message "must be a positive integer")

unfoldable pub validate_ttl_seconds : Json → Result {0} Unit
validate_ttl_seconds v =
    if is_integer_from min_ttl_seconds v
    then ok tt
    else err (message "must be an integer of at least 60 seconds")

-- validate of endpoint-path.js
unfoldable pub validate_endpoint_path : Json → Result {0} Unit
validate_endpoint_path (str s) =
    if starts_with "/" s then ok tt else err (message "must start with a forward slash (/)")
validate_endpoint_path v = err (message "must be a string")

is_integer_from_iff :
    (least : ℕ) (v : Json)
    → (is_integer_from least v ≡ true) ↔ ((n : ℕ) × (v ≡ num (nat n)) × (least ≤ n))
is_integer_from_iff least (num (nat n)) =
    ((λ h. (n, refl, ground arith)), (λ (m, e, l). let same : n ≡ m = cc e in ground arith))
is_integer_from_iff least v = ((λ h. absurd (cc h)), (λ (m, e, l). absurd (cc e)))

-- A retention is accepted exactly when it is loaded as a number of seconds that is at least the
-- least one, so that no text and no fraction reaches the database.
pub validate_ttl_seconds_iff :
    (v : Json)
    → (validate_ttl_seconds (coerce_number v) ≡ ok tt)
      ↔ ((n : ℕ) × (coerce_number v ≡ num (nat n)) × (min_ttl_seconds ≤ n))
unfolding validate_ttl_seconds
validate_ttl_seconds_iff v = elim (Bool-cases (is_integer_from min_ttl_seconds (coerce_number v))) [
  | inl t ↦ rw t ((λ h. (is_integer_from_iff min_ttl_seconds (coerce_number v)).0 t), (λ l. refl))
  | inr t ↦ rw t (
    (λ h. absurd (cc h)),
    (λ l. absurd (cc ((is_integer_from_iff min_ttl_seconds (coerce_number v)).1 l, t))),
  )
]

parsed : coerce_number (str " 3600s") ≡ num (nat 3600)
unfolding parse_int trim
parsed = refl
