-- ===== src/Publish/Run/Answered.antt =====
-- What it means that the message service confirmed an entry, said of its answer alone, and that the
-- entries which a batch counts as published are of this kind.
use fcp_sfd_object_processor.Common.{
  ◌≡◌, refl, ◌∙◌, ◌⊎◌, inl, inr, true, Option, none, some, List, [], ◌∷◌, ◌++◌, any, any-true, In,
  here, there, Bool-cases, Option-cases, arith, ◌==◌,
}
use fcp_sfd_object_processor.Json.{Json, same, oid, or_else}
use fcp_sfd_object_processor.Outbox.{Entry, entry_id}
use fcp_sfd_object_processor.Publish.Env.{PublishResults, Answer, answered, rejected}
use fcp_sfd_object_processor.Publish.Results.{
  publish_results, entry_with_id, to_list, entries_of_results,
}

-- The service answered, and the answer lists as successful the identifier of an entry of the batch
-- that is stored under the same identifier as `d`: its file's, or that of its message without one.
pub record IsConfirmed (answer : Answer) (batch : List Entry) (d : Entry) : Type 0 where
  pub results : PublishResults
  pub answers : answer ≡ answered results
  pub entry : Entry
  pub in_batch : In entry batch
  pub same_id : entry.id ≡ d.id
  pub reported : Json
  pub is_successful : In reported results.successful
  pub is_its : same reported (or_else entry.payload.file.file_id (oid entry.message_id)) ≡ true

In-split : {A : Type 0} (a : A) (xs ys : List A) → In a (xs ++ ys) → In a xs ⊎ In a ys
In-split a [] ys m = inr m
In-split a (x ∷ xs) ys here = inl here
In-split a (x ∷ xs) ys (there m) = elim (In-split a xs ys m) [
  | inl n ↦ inl (there n)
  | inr n ↦ inr n
]

In-to_list : (e : Entry) (o : Option Entry) → In e (to_list o) → o ≡ some e
In-to_list e none m = elim m [ ]
In-to_list e (some x) here = refl
In-to_list e (some x) (there m) = elim m [ ]

entry_with_id-In :
    (i : Json) (batch : List Entry) (e : Entry)
    → entry_with_id i batch ≡ some e
    → In e batch × (same i (entry_id e) ≡ true)
entry_with_id-In i [] e h = absurd (cc h)
entry_with_id-In i (x ∷ batch) e h = elim (Option-cases (entry_with_id i batch)) [
  | inr (y, p) ↦ let (m, q) = entry_with_id-In i batch e (p ∙ (rw p at h)) in (there m, q)
  | inl p ↦ elim (Bool-cases (same i (entry_id x))) [
    | inl t ↦ let q : x ≡ e = cc (rw (p, t) at h) in rw (← q) (here, t)
    | inr t ↦ absurd (cc (rw (p, t) at h))
  ]
]

-- each of the entries is of the batch, and its identifier is among the given ones
In-entries_of_results :
    (batch : List Entry) (ids : List Json) (e : Entry)
    → In e (entries_of_results batch ids)
    → In e batch × (i : Json) × In i ids × (same i (entry_id e) ≡ true)
unfolding entries_of_results
In-entries_of_results batch [] e m = elim m [ ]
In-entries_of_results batch (i ∷ ids) e m =
    elim (In-split e (to_list (entry_with_id i batch)) (entries_of_results batch ids) m) [
      | inl n ↦
          let (b, q) = entry_with_id-In i batch e (In-to_list e (entry_with_id i batch) n) in
          (b, i, here, q)
      | inr n ↦ let (b, j, k, q) = In-entries_of_results batch ids e n in (b, j, there k, q)
    ]

pub published-IsConfirmed :
    (answer : Answer) (batch : List Entry) (d : Entry)
    → any
        (λ (e : Entry). e.id == d.id)
        (entries_of_results batch (publish_results batch answer).successful)
      ≡ true
    → IsConfirmed answer batch d
unfolding publish_results entries_of_results
published-IsConfirmed (rejected name reason) batch d h = absurd (cc h)
published-IsConfirmed (answered r) batch d h =
    let (e, m, q) =
      any-true (λ (e : Entry). e.id == d.id) (entries_of_results batch r.successful) h in
    let (b, i, k, s) = In-entries_of_results batch r.successful e m in
    record {
      results = r;
      answers = refl;
      entry = e;
      in_batch = b;
      same_id = ground (arith, q);
      reported = i;
      is_successful = k;
      is_its = s;
    }
