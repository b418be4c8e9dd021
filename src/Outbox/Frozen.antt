-- ===== src/Outbox/Frozen.antt =====
-- Entries that no later operation changes, whatever the workers do.
use fcp_sfd_object_processor.Common.{
  ℕ, zero, suc, ◌≤◌, String, str_eq, ◌≡◌, refl, sym, ap, inl, inr, Bool, true, false, some, List,
  [], ◌∷◌, ◌++◌, arith, All, All-imp, In, here, there,
}
use fcp_sfd_object_processor.Mongo.{Collection, replace_matching}
use fcp_sfd_object_processor.Outbox.{
  Status, processing, sent, permanent_failure, Entry, Config, is_processable, claim_update,
  is_finalizable, claim_loop, claim_processable_outbox_entries,
}
use fcp_sfd_object_processor.Outbox.Effects.{create-cases, finalize-cases, outcome_update}
use fcp_sfd_object_processor.Outbox.Runs.{Operation, create, claim, finalize, step, run}

In-append_left : {A : Type 0} {a : A} (xs ys : List A) → In a xs → In a (xs ++ ys)
In-append_left [] ys m = elim m [ ]
In-append_left (x ∷ xs) ys here = here
In-append_left (x ∷ xs) ys (there m) = there (In-append_left xs ys m)

In-middle :
    {A : Type 0} {a : A} (d d' : A) (xs ys : List A)
    → (a ≡ d → ⊥)
    → In a (xs ++ (d ∷ ys))
    → In a (xs ++ (d' ∷ ys))
In-middle d d' [] ys ne here = absurd (ne refl)
In-middle d d' [] ys ne (there m) = there m
In-middle d d' (x ∷ xs) ys ne here = here
In-middle d d' (x ∷ xs) ys ne (there m) = there (In-middle d d' xs ys ne m)

In-replace_matching :
    {A : Type 0} {a : A} (p : A → Bool) (f : A → A) (c : List A)
    → p a ≡ false
    → In a c
    → In a (replace_matching p f c)
In-replace_matching p f [] h m = elim m [ ]
In-replace_matching {a} p f (x ∷ c) h here = rw h here
In-replace_matching p f (x ∷ c) h (there m) = there (In-replace_matching p f c h m)

-- the operation cannot touch the entry: its filter does not match it
abbrev pub Spares : Config → Entry → Operation → Type 0
Spares cfg e (create now ids metadata_ids documents) = Unit
Spares cfg e (claim worker now) = is_processable cfg now e ≡ false
Spares cfg e (finalize ids worker outcome error now) = is_finalizable ids worker now e ≡ false

module _ (db : Collection Entry) (cfg : Config) where
  module _ {e : Entry} (worker : String) (now : ℕ) (spared : is_processable cfg now e ≡ false) where
    claim_loop-spares :
        (rounds : ℕ) (c : List Entry) → In e c → In e (claim_loop db cfg worker now rounds c).1
    unfolding claim_loop
    claim_loop-spares zero c m = m
    claim_loop-spares (suc rounds) c m =
        elim (db.find_one_and_update_lem (λ x. x.created_at) (is_processable cfg now)
          (claim_update cfg worker now) c) [
            | inl (all, eq) ↦ rw eq m
            | inr (xs, d, ys, split, pd, least, eq) ↦ rw eq (
                claim_loop-spares rounds (xs ++ (claim_update cfg worker now d ∷ ys)) (
                  In-middle d (claim_update cfg worker now d) xs ys
                    (λ same. cc (sym spared, ap (is_processable cfg now) same, pd))
                    (rw split at m)))
          ]

  step-Spares :
      {e : Entry} (o : Operation) (c : List Entry)
      → Spares cfg e o
      → In e c
      → In e (step db cfg o c)
  unfolding step claim_processable_outbox_entries
  step-Spares (create now ids metadata_ids documents) c h m =
      elim (create-cases db now ids metadata_ids documents c) [
        | inl eq ↦ rw eq m
        | inr eq ↦ rw eq (In-append_left c _ m)
      ]
  step-Spares (claim worker now) c h m = claim_loop-spares worker now h cfg.query_limit c m
  step-Spares (finalize ids worker outcome error now) c h m =
      elim (finalize-cases db cfg ids worker outcome error now c) [
        | inl eq ↦ rw eq m
        | inr eq ↦ rw eq (
            In-replace_matching (is_finalizable ids worker now)
              (outcome_update cfg outcome error now) c h m)
      ]

  -- An entry that no operation of a run can touch is there unchanged after the run.
  run-Spares :
      {e : Entry} (os : List Operation) (c : List Entry)
      → All (Spares cfg e) os
      → In e c
      → In e (run db cfg os c)
  unfolding run
  run-Spares [] c h m = m
  run-Spares (o ∷ os) c h m = run-Spares os (step db cfg o c) h.1 (step-Spares o c h.0 m)

abbrev pub operation_time : Operation → ℕ
operation_time (create now ids metadata_ids documents) = now
operation_time (claim worker now) = now
operation_time (finalize ids worker outcome error now) = now

abbrev pub is_terminal : Status → Bool
is_terminal sent = true
is_terminal permanent_failure = true
is_terminal _ = false

-- The worker of a claim or a finalization is another than `w`.
abbrev pub IsByOther : String → Operation → Type 0
IsByOther w (create now ids metadata_ids documents) = Unit
IsByOther w (claim worker now) = Unit
IsByOther w (finalize ids worker outcome error now) = str_eq w worker ≡ false

module _ (cfg : Config) (e : Entry) where
  terminal-Spares : is_terminal e.status ≡ true → (o : Operation) → Spares cfg e o
  unfolding is_processable is_finalizable
  terminal-Spares h (create now ids metadata_ids documents) = tt
  terminal-Spares h (claim worker now) = ground arith
  terminal-Spares h (finalize ids worker outcome error now) = ground arith

  stranded-Spares :
      (t : ℕ)
      → cfg.max_attempts ≤ e.attempts
      → e.claimed_until ≡ some t
      → (o : Operation) → t ≤ operation_time o
      → Spares cfg e o
  unfolding is_processable is_finalizable
  stranded-Spares t h u (create now ids metadata_ids documents) late = tt
  stranded-Spares t h u (claim worker now) late = ground arith
  stranded-Spares t h u (finalize ids worker outcome error now) late = ground arith

  leased-Spares :
      (w : String) (t : ℕ)
      → e.status ≡ processing
      → e.claimed_by ≡ some w
      → e.claimed_until ≡ some t
      → (o : Operation) → operation_time o ≤ t
      → IsByOther w o
      → Spares cfg e o
  unfolding is_processable is_finalizable
  leased-Spares w t s b u (create now ids metadata_ids documents) early by = tt
  leased-Spares w t s b u (claim worker now) early by = ground arith
  leased-Spares w t s b u (finalize ids worker outcome error now) early by = ground arith

All-of : {A : Type 0} (P : A → Type 0) → ((a : A) → P a) → (xs : List A) → All P xs
All-of P f [] = tt
All-of P f (x ∷ xs) = (f x, All-of P f xs)

module _ (db : Collection Entry) (cfg : Config) (e : Entry) (os : List Operation)
    (c : List Entry) where
  -- A SENT or PERMANENT_FAILURE entry stays as it is under every sequence of creations, claims and
  -- finalizations, by any workers at any times.
  pub run-terminal : is_terminal e.status ≡ true → In e c → In e (run db cfg os c)
  run-terminal h m = run-Spares db cfg os c (All-of (Spares cfg e) (terminal-Spares cfg e h) os) m

  -- An entry that a worker claimed for its last attempt and did not finalize before the lease ran
  -- out stays as it is: no operation from then on, by any worker, claims or finalizes it.
  pub run-stranded :
      (t : ℕ)
      → cfg.max_attempts ≤ e.attempts
      → e.claimed_until ≡ some t
      → All (λ o. t ≤ operation_time o) os
      → In e c
      → In e (run db cfg os c)
  run-stranded t h u late m =
      run-Spares db cfg os c
        (All-imp (λ o. t ≤ operation_time o) (Spares cfg e) (stranded-Spares cfg e t h u) os late) m

  -- A claim is exclusive while its lease lasts: until then no creation, no claim by anyone and no
  -- finalization by another worker changes the entry.
  pub run-leased :
      (w : String) (t : ℕ)
      → e.status ≡ processing
      → e.claimed_by ≡ some w
      → e.claimed_until ≡ some t
      → All (λ o. (operation_time o ≤ t) × IsByOther w o) os
      → In e c
      → In e (run db cfg os c)
  run-leased w t s b u early m =
      run-Spares db cfg os c
        (All-imp (λ o. (operation_time o ≤ t) × IsByOther w o) (Spares cfg e)
          (λ o h. leased-Spares cfg e w t s b u o h.0 h.1) os early)
        m
