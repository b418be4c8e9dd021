-- ===== src/Outbox/Claim.antt =====
-- What a claim run takes: the entries that can be processed, oldest first, each of them once.
use fcp_sfd_object_processor.Common.{
  ℕ, zero, suc, ◌+◌, ◌-◌, ◌≤◌, min, String, ◌≡◌, refl, inl, inr, Bool, true, false, some, List, [],
  ◌∷◌, ◌++◌, arith, length, count, All, Bool-cases,
}
use fcp_sfd_object_processor.Mongo.{Collection}
use fcp_sfd_object_processor.Outbox.{
  processing, Entry, Config, is_processable, claim_update, claimed_copy, claim_loop,
}

count-append :
    {A : Type 0} (p : A → Bool) (xs ys : List A) → count p (xs ++ ys) ≡ count p xs + count p ys
count-append p [] ys = omega arith
count-append p (x ∷ xs) ys = elim (Bool-cases (p x)) [
  | inl t ↦ rw t (omega (arith, count-append p xs ys))
  | inr t ↦ rw t (count-append p xs ys)
]

count_none : {A : Type 0} (p : A → Bool) (xs : List A) → All (λ x. p x ≡ false) xs → count p xs ≡ 0
count_none p [] h = refl
count_none p (x ∷ xs) h = rw h.0 (count_none p xs h.1)

-- What the worker is handed is what the database holds for the entry.
pub claimed_copy-eq-claim_update :
    (cfg : Config) (worker : String) (now : ℕ) (e : Entry)
    → claimed_copy cfg worker now e ≡ claim_update cfg worker now e
unfolding claimed_copy claim_update
claimed_copy-eq-claim_update cfg worker now e = refl

-- A claimed entry is out of reach of every claim until its lease has run out.
pub not_processable_of_lease :
    (cfg : Config) (e : Entry) (now t : ℕ)
    → e.status ≡ processing
    → e.claimed_until ≡ some t
    → now ≤ t
    → is_processable cfg now e ≡ false
unfolding is_processable
not_processable_of_lease cfg e now t p q h = ground arith

pub claim_update-not_processable :
    (cfg : Config) (worker : String) (now : ℕ) (e : Entry)
    → is_processable cfg now (claim_update cfg worker now e) ≡ false
unfolding claim_update
claim_update-not_processable cfg worker now e =
    not_processable_of_lease cfg _ now (now + cfg.claim_lease_ms) refl refl (omega arith)

module _ (db : Collection Entry) (cfg : Config) (worker : String) (now : ℕ) where
  abbrev p : Entry → Bool
  p = is_processable cfg now

  abbrev f : Entry → Entry
  f = claim_update cfg worker now

  count-claim :
      (xs ys : List Entry) (d : Entry)
      → p d ≡ true
      → count p (xs ++ (d ∷ ys)) ≡ suc (count p (xs ++ (f d ∷ ys)))
  count-claim xs ys d h =
      rw (count-append p xs (d ∷ ys), count-append p xs (f d ∷ ys), h, claim_update-not_processable)
        (omega arith)

  -- A claim run takes exactly as many entries as can be processed, up to the query limit, and
  -- leaves the others processable.
  pub claim_loop-counts :
      (rounds : ℕ) (c : List Entry)
      → (length (claim_loop db cfg worker now rounds c).0 ≡ min rounds (count p c))
        × (count p (claim_loop db cfg worker now rounds c).1 ≡ count p c - rounds)
  unfolding claim_loop
  claim_loop-counts zero c = (omega arith, omega arith)
  claim_loop-counts (suc rounds) c = elim (db.find_one_and_update_lem (λ e. e.created_at) p f c) [
    | inl (all, eq) ↦ rw eq (rw (count_none p c all) (omega arith, omega arith))
    | inr (xs, d, ys, split, pd, least, eq) ↦
        let (taken, left) = claim_loop-counts rounds (xs ++ (f d ∷ ys)) in
        rw (eq, split, count-claim xs ys d pd) (omega arith, omega arith)
  ]
