-- ===== src/Common/Text.antt =====
-- Text as the source walks it: prefixes, trimming, joining and decimal numbers.
use Prim.Native.Nat.{ℕ, zero, suc, ◌/◌, ◌%◌, ◌≤◌}
use Prim.Native.Char.{Char, code}
use Prim.Native.String.{String, [], ◌∷◌, ◌++◌}
use text.Mathlib.Text.{◌==◌ as str_eq}
use mathlib.Core.Path.{◌≡◌, refl}
use mathlib.Core.Logic.{inl, inr}
use mathlib.Core.List.{List}
use mathlib.Core.Bool.{Bool, true, false, ◌&&◌, ◌||◌}
use native.Mathlib.Omega.{arith}
use fcp_sfd_object_processor.Common.Tests.{Bool-cases, ltb, leb, ◌==◌, if◌then◌else◌}

-- `s.length`, where every character is one UTF-16 unit.
abbrev pub text_length : String → ℕ
text_length [] = 0
text_length (c ∷ s) = suc (text_length s)

-- `s.slice(0, n)`
abbrev pub slice : ℕ → String → String
slice zero s = []
slice (suc n) [] = []
slice (suc n) (c ∷ s) = c ∷ slice n s

abbrev pub is_empty_text : String → Bool
is_empty_text [] = true
is_empty_text (c ∷ s) = false

-- `s.split(c)[0]`, where `c` is a character by its code
abbrev pub until : ℕ → String → String
until c [] = []
until c (d ∷ s) = if code d == c then [] else d ∷ until c s

-- `(s.match(/c/g) ?? []).length`
abbrev pub occurrences : ℕ → String → ℕ
occurrences c [] = 0
occurrences c (d ∷ s) = if code d == c then suc (occurrences c s) else occurrences c s

-- the white space and line terminators that `trim` removes
abbrev pub is_space : ℕ → Bool
is_space c =
    (leb 9 c && leb c 13)
    || c == 32
    || c == 160
    || c == 0x1680
    || (leb 0x2000 c && leb c 0x200a)
    || c == 0x2028
    || c == 0x2029
    || c == 0x202f
    || c == 0x205f
    || c == 0x3000
    || c == 0xfeff

trim_start : String → String
trim_start [] = []
trim_start (c ∷ s) = let rest = trim_start s in if is_space (code c) then rest else c ∷ s

trim_end : String → String
trim_end [] = []
trim_end (c ∷ s) =
    let rest = trim_end s in if is_space (code c) && is_empty_text rest then [] else c ∷ rest

-- `s.trim()`
unfoldable pub trim : String → String
unfolding trim_start trim_end
trim s = trim_end (trim_start s)

abbrev digit : ℕ → String
digit zero = "0"
digit (suc zero) = "1"
digit (suc (suc zero)) = "2"
digit (suc (suc (suc zero))) = "3"
digit (suc (suc (suc (suc zero)))) = "4"
digit (suc (suc (suc (suc (suc zero))))) = "5"
digit (suc (suc (suc (suc (suc (suc zero)))))) = "6"
digit (suc (suc (suc (suc (suc (suc (suc zero))))))) = "7"
digit (suc (suc (suc (suc (suc (suc (suc (suc zero)))))))) = "8"
digit _ = "9"

decimal_from : ℕ → ℕ → String → String
decimal_from zero n acc = acc
decimal_from (suc fuel) n acc =
    let longer = decimal_from fuel (n / 10) (digit (n % 10) ++ acc) in
    if ltb n 10 then digit n ++ acc else longer

-- `String(n)` for an integer below 10 ^ 21, which has at most twenty-one digits.
unfoldable pub decimal : ℕ → String
unfolding decimal_from
decimal n = decimal_from 22 n ""

pub text_length-slice : (n : ℕ) (s : String) → text_length (slice n s) ≤ n
text_length-slice zero s = omega arith
text_length-slice (suc n) [] = omega arith
text_length-slice (suc n) (c ∷ s) = omega (arith, text_length-slice n s)

pub slice_of_short : (n : ℕ) (s : String) → text_length s ≤ n → slice n s ≡ s
slice_of_short zero [] h = refl
slice_of_short zero (c ∷ s) h = elim h [ ]
slice_of_short (suc n) [] h = refl
slice_of_short (suc n) (c ∷ s) h = λ i. c ∷ slice_of_short n s (omega arith) i

decimal_test : decimal 105000000 ≡ "105000000"
unfolding decimal
decimal_test = refl

trim_test : trim "  " ≡ ""
unfolding trim
trim_test = refl

-- `s.startsWith(p)`
abbrev pub starts_with : String → String → Bool
starts_with [] s = true
starts_with (c ∷ p) [] = false
starts_with (c ∷ p) (d ∷ s) = code c == code d && starts_with p s

-- `s.includes(p)`
abbrev pub includes : String → String → Bool
includes p [] = is_empty_text p
includes p (c ∷ s) = starts_with p (c ∷ s) || includes p s

-- `s.endsWith(p)`
abbrev pub ends_with : String → String → Bool
ends_with p [] = is_empty_text p
ends_with p (c ∷ s) = str_eq p (c ∷ s) || ends_with p s

abbrev pub onto_first : Char → List String → List String
onto_first d List.[] = List.◌∷◌ (d ∷ []) List.[]
onto_first d (List.◌∷◌ s ss) = List.◌∷◌ (d ∷ s) ss

-- `s.split(c)`, where `c` is a character by its code
abbrev pub split : ℕ → String → List String
split c [] = List.◌∷◌ [] List.[]
split c (d ∷ s) =
    let rest = split c s in if code d == c then List.◌∷◌ [] rest else onto_first d rest

pub occurrences-until : (c : ℕ) (s : String) → occurrences c (until c s) ≡ 0
occurrences-until c [] = refl
occurrences-until c (d ∷ s) = elim (Bool-cases (code d == c)) [
  | inl t ↦ rw t refl
  | inr t ↦ rw (t, t) (occurrences-until c s)
]

pub occurrences-until_le : (c b : ℕ) (s : String) → occurrences b (until c s) ≤ occurrences b s
occurrences-until_le c b [] = omega arith
occurrences-until_le c b (d ∷ s) = elim (Bool-cases (code d == c)) [
  | inl t ↦ rw t (omega arith)
  | inr t ↦ elim (Bool-cases (code d == b)) [
    | inl u ↦ rw (t, u) (omega (arith, occurrences-until_le c b s))
    | inr u ↦ rw (t, u) (occurrences-until_le c b s)
  ]
]

occurrences-trim_start : (b : ℕ) (s : String) → occurrences b (trim_start s) ≤ occurrences b s
unfolding trim_start
occurrences-trim_start b [] = omega arith
occurrences-trim_start b (d ∷ s) = ground (arith, occurrences-trim_start b s)

occurrences-trim_end : (b : ℕ) (s : String) → occurrences b (trim_end s) ≤ occurrences b s
unfolding trim_end
occurrences-trim_end b [] = omega arith
occurrences-trim_end b (d ∷ s) = ground (arith, occurrences-trim_end b s)

pub occurrences-trim : (b : ℕ) (s : String) → occurrences b (trim s) ≤ occurrences b s
unfolding trim
occurrences-trim b s =
    omega (arith, occurrences-trim_end b (trim_start s), occurrences-trim_start b s)
