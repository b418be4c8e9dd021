-- ===== src/Publish/Run/Batches.antt =====
-- The batch loop takes every entry once, in batches that the message service accepts.
use fcp_sfd_object_processor.Common.{
  ℕ, zero, suc, ◌≤◌, ◌<◌, ◌≡◌, refl, List, [], ◌∷◌, ◌++◌, arith, length, drop, take-append-drop,
  length-take, length-drop, All,
}
use fcp_sfd_object_processor.Outbox.{batch_size}
use fcp_sfd_object_processor.Publish.Run.{batches_from, batches}

abbrev pub flatten : {A : Type 0} → List (List A) → List A
flatten [] = []
flatten (xs ∷ xss) = xs ++ flatten xss

module _ {A : Type 0} where
  flatten-batches_from :
      (fuel : ℕ) (xs : List A) → length xs ≤ fuel → flatten (batches_from fuel xs) ≡ xs
  unfolding batches_from
  flatten-batches_from zero [] h = refl
  flatten-batches_from zero (x ∷ xs) h = elim h [ ]
  flatten-batches_from (suc fuel) [] h = refl
  flatten-batches_from (suc fuel) (x ∷ xs) h =
      rw
        (flatten-batches_from fuel (drop batch_size (x ∷ xs))
          (omega (arith, length-drop batch_size (x ∷ xs))))
        (take-append-drop batch_size (x ∷ xs))

  abbrev pub FitsRequest : List A → Type 0
  FitsRequest b = (0 < length b) × (length b ≤ batch_size)

  batches_from-FitsRequest : (fuel : ℕ) (xs : List A) → All FitsRequest (batches_from fuel xs)
  unfolding batches_from
  batches_from-FitsRequest zero xs = tt
  batches_from-FitsRequest (suc fuel) [] = tt
  batches_from-FitsRequest (suc fuel) (x ∷ xs) = (
    (
      omega (arith, length-take batch_size (x ∷ xs)),
      omega (arith, length-take batch_size (x ∷ xs)),
    ),
    batches_from-FitsRequest fuel (drop batch_size (x ∷ xs)),
  )

  -- The batches of a run, in order, are the claimed entries, none left out or repeated, and each
  -- has at least one entry and at most ten.
  pub batches-partition : (xs : List A) → (flatten (batches xs) ≡ xs) × All FitsRequest (batches xs)
  unfolding batches
  batches-partition xs =
      (flatten-batches_from (length xs) xs (omega arith), batches_from-FitsRequest (length xs) xs)
