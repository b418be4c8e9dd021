-- ===== src/Outbox/Order.antt =====
-- A claim run is fair: what it takes is at least as old as what it leaves, and is taken in order.
use fcp_sfd_object_processor.Common.{
  ℕ, zero, suc, ◌≤◌, String, ◌≡◌, inl, inr, true, List, [], ◌∷◌, ◌++◌, arith, All,
}
use fcp_sfd_object_processor.Mongo.{Collection}
use fcp_sfd_object_processor.Outbox.{
  Entry, Config, is_processable, claim_update, claimed_copy, claim_loop,
}
use fcp_sfd_object_processor.Outbox.Claim.{claim_update-not_processable}

All-append_left : {A : Type 0} (P : A → Type 0) (xs ys : List A) → All P (xs ++ ys) → All P xs
All-append_left P [] ys h = tt
All-append_left P (x ∷ xs) ys h = (h.0, All-append_left P xs ys h.1)

module _ (db : Collection Entry) (cfg : Config) (worker : String) (now : ℕ) where
  abbrev pub NoOlder : ℕ → List Entry → Type 0
  NoOlder k c = All (λ e. is_processable cfg now e ≡ true → k ≤ e.created_at) c

  -- replacing a taken entry keeps the bound
  NoOlder-replace :
      (k : ℕ) (xs ys : List Entry) (d : Entry)
      → NoOlder k (xs ++ (d ∷ ys))
      → NoOlder k (xs ++ (claim_update cfg worker now d ∷ ys))
  NoOlder-replace k [] ys d h =
      ((λ t. ground (arith, claim_update-not_processable cfg worker now d)), h.1)
  NoOlder-replace k (x ∷ xs) ys d h = (h.0, NoOlder-replace k xs ys d h.1)

  NoOlder-at :
      (k : ℕ) (xs ys : List Entry) (d : Entry)
      → NoOlder k (xs ++ (d ∷ ys))
      → is_processable cfg now d ≡ true
      → k ≤ d.created_at
  NoOlder-at k [] ys d h t = h.0 t
  NoOlder-at k (x ∷ xs) ys d h t = NoOlder-at k xs ys d h.1 t

  abbrev pub IsSortedFrom : ℕ → List Entry → Type 0
  IsSortedFrom k [] = Unit
  IsSortedFrom k (e ∷ es) = (k ≤ e.created_at) × IsSortedFrom e.created_at es

  -- the creation time of the last entry of a claimed list
  abbrev pub latest : ℕ → List Entry → ℕ
  latest k [] = k
  latest k (e ∷ es) = latest e.created_at es

  ordered_from :
      (k rounds : ℕ) (c : List Entry)
      → NoOlder k c
      → IsSortedFrom k (claim_loop db cfg worker now rounds c).0
        × NoOlder
            (latest k (claim_loop db cfg worker now rounds c).0)
            (claim_loop db cfg worker now rounds c).1
  unfolding claim_loop claimed_copy
  ordered_from k zero c h = (tt, h)
  ordered_from k (suc rounds) c h =
      elim (db.find_one_and_update_lem (λ e. e.created_at) (is_processable cfg now)
        (claim_update cfg worker now) c) [
          | inl (all, eq) ↦ rw eq (tt, h)
          | inr (xs, d, ys, split, pd, least, eq) ↦
              let h' : NoOlder k (xs ++ (d ∷ ys)) = rw split at h in
              let least' : NoOlder d.created_at (xs ++ (d ∷ ys)) = rw split at least in
              let (sorted, left) =
                ordered_from d.created_at rounds (xs ++ (claim_update cfg worker now d ∷ ys))
                  (NoOlder-replace d.created_at xs ys d least') in
              rw eq ((NoOlder-at k xs ys d h' pd, sorted), left)
        ]

  NoOlder-zero : (c : List Entry) → NoOlder 0 c
  NoOlder-zero [] = tt
  NoOlder-zero (e ∷ c) = ((λ _. omega arith), NoOlder-zero c)

  -- A claim run returns its entries oldest first, and no entry that it leaves processable is older
  -- than the last one that it took.
  pub claim_loop-ordered :
      (rounds : ℕ) (c : List Entry)
      → IsSortedFrom 0 (claim_loop db cfg worker now rounds c).0
        × NoOlder
            (latest 0 (claim_loop db cfg worker now rounds c).0)
            (claim_loop db cfg worker now rounds c).1
  claim_loop-ordered rounds c = ordered_from 0 rounds c (NoOlder-zero c)
