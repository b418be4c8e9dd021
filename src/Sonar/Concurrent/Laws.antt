-- ===== src/Sonar/Concurrent/Laws.antt =====
-- What holds of the workers in every interleaving.
use fcp_sfd_object_processor.Common.{
  ℕ, suc, ◌<◌, ◌≤◌, ◌≡◌, sym, ap, ◌∙◌, ◌⊎◌, inl, inr, Option, none, some, List, [], ◌∷◌, ◌++◌, ◌==◌,
  Result, ok, err, Failure, length, take, In, arith, Bool-cases, ==_iff,
}
use fcp_sfd_object_processor.Sonar.Concurrent.{
  get_elem?, set, Worker, ready, busy, finished, failed, Pool,
}
use fcp_sfd_object_processor.Sonar.Concurrent.Places.{
  get_elem?-bound, get_elem?-end, get_elem?-set_self, get_elem?-set_other, get_elem?-set_cases,
  length-set, take-suc,
}

module _ {A B : Type 0} (f : A → Result B) (items : List A) where
  -- the item at a place has its result, a worker waits for it, or the promise is rejected
  abbrev pub IsHandled : Pool A B → ℕ → Type 0
  IsHandled s i =
      ((b : B) × (get_elem? s.results i ≡ some (some b)))
      ⊎ (((w : ℕ) × (get_elem? s.workers w ≡ some (busy i)))
          ⊎ ((e : Failure) × (s.rejected ≡ some e)))

  -- how the pool stands between two turns
  pub record IsFair (s : Pool A B) : Type 0 where
    pub bound : s.next ≤ length items
    pub size : length s.results ≡ length items
    pub called : s.calls ≡ take s.next items
    pub sound :
        (i : ℕ) (b : B)
        → get_elem? s.results i ≡ some (some b)
        → (x : A) × (get_elem? items i ≡ some x) × (f x ≡ ok b)
    pub taken : (w i : ℕ) → get_elem? s.workers w ≡ some (busy i) → i < s.next
    pub handled : (i : ℕ) → i < s.next → IsHandled s i
    pub ended : (w : ℕ) → get_elem? s.workers w ≡ some finished → length items ≤ s.next
    pub broken :
        (w : ℕ) → get_elem? s.workers w ≡ some failed → (e : Failure) × (s.rejected ≡ some e)
    pub cause : (e : Failure) → s.rejected ≡ some e → (x : A) × In x items × (f x ≡ err e)

  -- another worker stays as it was when one moves on
  still_busy :
      (ws : List Worker) (w j i : ℕ) (old v : Worker)
      → get_elem? ws w ≡ some old
      → (old ≡ busy i → ⊥)
      → get_elem? ws j ≡ some (busy i)
      → get_elem? (set ws w v) j ≡ some (busy i)
  still_busy ws w j i old v o n h = get_elem?-set_other ws w j v different ∙ h
    where
      different : w ≡ j → ⊥
      different e = n (cc (o, h, ap (get_elem? ws) e))

  module _ (s : Pool A B) (inv : IsFair s) (w : ℕ) where
    pub leaves :
        get_elem? s.workers w ≡ some ready
        → get_elem? items s.next ≡ none
        → IsFair (record s { workers = set s.workers w finished })
    leaves o h = record {
      bound = inv.bound;
      size = inv.size;
      called = inv.called;
      sound = inv.sound;
      taken = λ j i q. elim (get_elem?-set_cases s.workers w j finished (busy i) q) [
        | inl e ↦ absurd (cc e)
        | inr e ↦ inv.taken j i e
      ];
      handled = λ i l. elim (inv.handled i l) [
        | inl r ↦ inl r
        | inr (inl (j, q)) ↦
            inr (inl (j, still_busy s.workers w j i ready finished o (λ e. absurd (cc e)) q))
        | inr (inr r) ↦ inr (inr r)
      ];
      ended = λ j q. get_elem?-end items s.next h;
      broken = λ j q. elim (get_elem?-set_cases s.workers w j finished failed q) [
        | inl e ↦ absurd (cc e)
        | inr e ↦ inv.broken j e
      ];
      cause = inv.cause;
    }

    pub takes :
        (x : A)
        → get_elem? s.workers w ≡ some ready
        → get_elem? items s.next ≡ some x
        → IsFair (record s {
          next = suc s.next;
          workers = set s.workers w (busy s.next);
          calls = s.calls ++ x ∷ [];
        })
    takes x o h = record {
      bound = omega (arith, get_elem?-bound items s.next x h);
      size = inv.size;
      called = ap (λ c. c ++ x ∷ []) inv.called ∙ take-suc items s.next x h;
      sound = inv.sound;
      taken = λ j i q. elim (get_elem?-set_cases s.workers w j (busy s.next) (busy i) q) [
        | inl e ↦ let n : s.next ≡ i = cc e in omega arith
        | inr e ↦ let l = inv.taken j i e in omega arith
      ];
      handled = λ i l. elim (Bool-cases (s.next == i)) [
        | inl e ↦
            let n : s.next ≡ i = (==_iff s.next i).0 e in
            inr (
              inl (
                w,
                rw (← n) (
                    get_elem?-set_self s.workers w (busy s.next)
                      (get_elem?-bound s.workers w ready o)),
              ))
        | inr e ↦ elim (inv.handled i (ground (arith, l, e))) [
          | inl r ↦ inl r
          | inr (inl (j, q)) ↦
              inr (inl (j, still_busy s.workers w j i ready (busy s.next) o (λ u. absurd (cc u)) q))
          | inr (inr r) ↦ inr (inr r)
        ]
      ];
      ended = λ j q. elim (get_elem?-set_cases s.workers w j (busy s.next) finished q) [
        | inl e ↦ absurd (cc e)
        | inr e ↦ let l = inv.ended j e in omega arith
      ];
      broken = λ j q. elim (get_elem?-set_cases s.workers w j (busy s.next) failed q) [
        | inl e ↦ absurd (cc e)
        | inr e ↦ inv.broken j e
      ];
      cause = inv.cause;
    }

    -- a call ends, and its worker goes back to the loop or throws
    module _ (k : ℕ) (x : A) (waits : get_elem? s.workers w ≡ some (busy k)) where
      pub returns :
          (b : B)
          → get_elem? items k ≡ some x
          → f x ≡ ok b
          → IsFair
              (record s { results = set s.results k (some b); workers = set s.workers w ready })
      returns b h q = record {
        bound = inv.bound;
        size = length-set s.results k (some b) ∙ inv.size;
        called = inv.called;
        sound = λ i c r. elim (Bool-cases (k == i)) [
          | inl e ↦
              let n : k ≡ i = (==_iff k i).0 e in
              let l : k < length s.results = rw inv.size (get_elem?-bound items k x h) in
              let v : b ≡ c = cc (n, r, get_elem?-set_self s.results k (some b) l) in
              (x, rw (← n) h, rw (← v) q)
          | inr e ↦
              inv.sound i c
                (sym (get_elem?-set_other s.results k i (some b) (λ n. ground (arith, n, e))) ∙ r)
        ];
        taken = λ j i r. elim (get_elem?-set_cases s.workers w j ready (busy i) r) [
          | inl e ↦ absurd (cc e)
          | inr e ↦ inv.taken j i e
        ];
        handled = λ i l. elim (Bool-cases (k == i)) [
          | inl e ↦
              let n : k ≡ i = (==_iff k i).0 e in
              let m : k < length s.results = rw inv.size (get_elem?-bound items k x h) in
              inl (b, rw (← n) (get_elem?-set_self s.results k (some b) m))
          | inr e ↦ elim (inv.handled i l) [
            | inl (c, r) ↦
                inl (c, get_elem?-set_other s.results k i (some b) (λ n. ground (arith, n, e)) ∙ r)
            | inr (inl (j, r)) ↦ inr (
                inl (
                  j,
                  still_busy s.workers w j i (busy k) ready waits
                      (λ u. let n : k ≡ i = cc u in ground (arith, n, e)) r,
                ))
            | inr (inr r) ↦ inr (inr r)
          ]
        ];
        ended = λ j r. elim (get_elem?-set_cases s.workers w j ready finished r) [
          | inl e ↦ absurd (cc e)
          | inr e ↦ inv.ended j e
        ];
        broken = λ j r. elim (get_elem?-set_cases s.workers w j ready failed r) [
          | inl e ↦ absurd (cc e)
          | inr e ↦ inv.broken j e
        ];
        cause = inv.cause;
      }

      pub throws :
          (e : Failure) (r : Option Failure)
          → get_elem? items k ≡ some x
          → f x ≡ err e
          → ((d : Failure) × (r ≡ some d) × ((y : A) × In y items × (f y ≡ err d)))
          → IsFair (record s { workers = set s.workers w failed; rejected = r })
      throws e r h q (d, p, (y, m, z)) = record {
        bound = inv.bound;
        size = inv.size;
        called = inv.called;
        sound = inv.sound;
        taken = λ j i t. elim (get_elem?-set_cases s.workers w j failed (busy i) t) [
          | inl u ↦ absurd (cc u)
          | inr u ↦ inv.taken j i u
        ];
        handled = λ i l. inr (inr (d, p));
        ended = λ j t. elim (get_elem?-set_cases s.workers w j failed finished t) [
          | inl u ↦ absurd (cc u)
          | inr u ↦ inv.ended j u
        ];
        broken = λ j t. (d, p);
        cause = λ c t. let u : d ≡ c = cc (p, t) in (y, m, rw (← u) z);
      }
