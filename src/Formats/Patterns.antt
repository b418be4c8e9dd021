-- ===== src/Formats/Patterns.antt =====
-- The regular expressions of config/formats and constants/mime-types.js, as functions that walk the
-- text.
use Prim.Native.Char.{code}
use Prim.Native.String.{String, [], ◌∷◌}
use fcp_sfd_object_processor.Common.{
  ℕ, suc, Bool, true, false, ◌&&◌, ◌||◌, leb, ◌==◌, if◌then◌else◌, is_empty_text,
}

abbrev is_digit : ℕ → Bool
is_digit c = leb 48 c && leb c 57

-- `[a-zA-Z0-9]`
abbrev is_alphanumeric : ℕ → Bool
is_alphanumeric c = is_digit c || ((leb 65 c && leb c 90) || (leb 97 c && leb c 122))

-- `[0-9a-fA-F]`
abbrev pub is_hex : ℕ → Bool
is_hex c = is_digit c || ((leb 65 c && leb c 70) || (leb 97 c && leb c 102))

abbrev pub all_chars : (ℕ → Bool) → String → Bool
all_chars p [] = true
all_chars p (c ∷ s) = p (code c) && all_chars p s

-- `/^[a-zA-Z0-9]+$/`
unfoldable pub is_client_id : String → Bool
is_client_id s = if is_empty_text s then false else all_chars is_alphanumeric s

-- `[a-zA-Z0-9!#$&^_+-]`
abbrev is_type_char : ℕ → Bool
is_type_char c =
    is_alphanumeric c
    || (c == 33
        || (c == 35 || (c == 36 || (c == 38 || (c == 94 || (c == 95 || (c == 43 || c == 45)))))))

-- after the `/`: `[a-zA-Z0-9][a-zA-Z0-9!#$&^_+.-]*$`
abbrev is_subtype : String → Bool
is_subtype [] = false
is_subtype (c ∷ s) = is_alphanumeric (code c) && all_chars (λ d. is_type_char d || d == 46) s

abbrev type_rest : String → Bool
type_rest [] = false
type_rest (c ∷ s) = if code c == 47 then is_subtype s else is_type_char (code c) && type_rest s

-- mimeTypePattern
unfoldable pub is_mime_type : String → Bool
is_mime_type [] = false
is_mime_type (c ∷ s) = is_alphanumeric (code c) && type_rest s

-- the character at a place of a UUID
abbrev pub uuid_char : ℕ → ℕ → Bool
uuid_char n c = if n == 8 || (n == 13 || (n == 18 || n == 23)) then c == 45 else is_hex c

-- the rest of a UUID from a place on, to the end of the text
abbrev pub uuid_from : ℕ → String → Bool
uuid_from n [] = n == 36
uuid_from n (c ∷ s) = elim (n == 36) [
  | true ↦ false
  | false ↦ uuid_char n (code c) && uuid_from (suc n) s
]

-- `^uuidPattern$`
unfoldable pub is_uuid : String → Bool
is_uuid s = uuid_from 0 s

-- the rest of a UUID from a place on, and further ones after commas
abbrev pub uuids_from : ℕ → String → Bool
uuids_from n [] = n == 36
uuids_from n (c ∷ s) = elim (n == 36) [
  | true ↦ code c == 44 && uuids_from 0 s
  | false ↦ uuid_char n (code c) && uuids_from (suc n) s
]

-- `^uuidPattern(,uuidPattern)*$`
unfoldable pub is_uuid_list : String → Bool
is_uuid_list s = uuids_from 0 s
