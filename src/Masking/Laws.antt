-- ===== src/Masking/Laws.antt =====
-- What masking keeps of a CRN and of the text round it.
use Prim.Native.String.{String, [], ◌∷◌, ◌++◌}
use text.Mathlib.TextLemmas.{nil-append, cons-append}
use fcp_sfd_object_processor.Common.{
  ℕ, zero, suc, ◌+◌, ◌-◌, ◌≡◌, refl, ap, inl, inr, Bool-cases, arith, text_length, leb,
}
use fcp_sfd_object_processor.Masking.{stars, slice_from, mask_text}

length-append : (s t : String) → text_length (s ++ t) ≡ text_length s + text_length t
length-append [] t = rw (nil-append t) (omega arith)
length-append (c ∷ s) t = rw (cons-append c s t) (omega (arith, length-append s t))

length-stars : (n : ℕ) → text_length (stars n) ≡ n
length-stars zero = refl
length-stars (suc n) = ap suc (length-stars n)

length-slice_from : (n : ℕ) (s : String) → text_length (slice_from n s) ≡ text_length s - n
length-slice_from zero s = omega arith
length-slice_from (suc n) [] = omega arith
length-slice_from (suc n) (c ∷ s) = omega (arith, length-slice_from n s)

-- A masked CRN is as long as the CRN.
pub length-mask_text : (s : String) → text_length (mask_text s) ≡ text_length s
length-mask_text s = elim (Bool-cases (leb (text_length s) 4)) [
  | inl t ↦ rw (mask_text, t) refl
  | inr t ↦
      rw (mask_text, t)
        (omega (
          arith,
          length-append (stars (text_length s - 4)) (slice_from (text_length s - 4) s),
          length-stars (text_length s - 4),
          length-slice_from (text_length s - 4) s,
        ))
]

slice_from-stars : (n : ℕ) (s : String) → slice_from n (stars n ++ s) ≡ s
slice_from-stars zero s = nil-append s
slice_from-stars (suc n) s = rw (cons-append "*" (stars n) s) (slice_from-stars n s)

-- Its last four characters are those of the CRN.
pub slice_from-mask_text :
    (s : String) → slice_from (text_length s - 4) (mask_text s) ≡ slice_from (text_length s - 4) s
slice_from-mask_text s = elim (Bool-cases (leb (text_length s) 4)) [
  | inl t ↦ rw (mask_text, t) refl
  | inr t ↦
      rw (mask_text, t) (slice_from-stars (text_length s - 4) (slice_from (text_length s - 4) s))
]
