-- ===== src/Sonar/Concurrent/Settled.antt =====
-- What the joint promise holds when all workers have stopped.
use fcp_sfd_object_processor.Common.{
  ℕ, suc, ◌<◌, ◌≡◌, refl, ap, ◌∙◌, ◌⊎◌, inl, inr, true, Option, none, some, List, [], ◌∷◌, map,
  Result, ok, err, Failure, length, min, In, arith, Option-cases,
}
use fcp_sfd_object_processor.Sonar.Concurrent.{
  get_elem?, Worker, ready, busy, finished, failed, Pool, turn, turns, start, all_stopped,
  take_item, end_call, settle_call, worker_turn,
}
use fcp_sfd_object_processor.Sonar.Concurrent.Places.{length-set, length-replicate}
use fcp_sfd_object_processor.Sonar.Concurrent.Laws.{IsFair}
use fcp_sfd_object_processor.Sonar.Concurrent.Runs.{stopped_worker, start-IsFair, turns-IsFair}

first_worker : (ws : List Worker) → 0 < length ws → (v : Worker) × (get_elem? ws 0 ≡ some v)
first_worker [] h = absurd (omega arith)
first_worker (v ∷ ws) h = (v, refl)

module _ {A B : Type 0} (f : A → Result B) where
  -- results at all places are the results of the function
  collect :
      (items : List A) (results : List (Option B))
      → length results ≡ length items
      → ((i : ℕ) → i < length items → (b : B) × (get_elem? results i ≡ some (some b)))
      → ((i : ℕ) (b : B)
          → get_elem? results i ≡ some (some b)
          → (x : A) × (get_elem? items i ≡ some x) × (f x ≡ ok b))
      → (bs : List B) × (map f items ≡ map ok bs) × (results ≡ map some bs)
  collect [] [] e full sound = ([], refl, refl)
  collect [] (r ∷ rs) e full sound = absurd (omega arith)
  collect (x ∷ xs) [] e full sound = absurd (omega arith)
  collect (x ∷ xs) (r ∷ rs) e full sound =
      let (b, p) = full 0 (omega arith) in
      let (y, q, t) = sound 0 b p in
      let u : x ≡ y = cc q in
      let v : r ≡ some b = cc p in
      let (bs, m, n) =
        collect xs rs (omega arith) (λ i l. full (suc i) (omega arith)) (λ i c. sound (suc i) c) in
      (b ∷ bs, (λ i. (ap f u ∙ t) i ∷ m i), (λ i. v i ∷ n i))

  length-turn :
      (items : List A) (w : ℕ) (s : Pool A B) → length (turn f items w s).workers ≡ length s.workers
  unfolding turn
  length-turn items w s = by_worker (get_elem? s.workers w)
    where
      by_item : (x : Option A) → length (take_item f items w s x).workers ≡ length s.workers
      by_item none = length-set s.workers w finished
      by_item (some x) = length-set s.workers w (busy s.next)

      by_result :
          (i : ℕ) (r : Result B) → length (settle_call f items w i s r).workers ≡ length s.workers
      by_result i (ok b) = length-set s.workers w ready
      by_result i (err e) = length-set s.workers w failed

      by_call :
          (i : ℕ) (x : Option A) → length (end_call f items w i s x).workers ≡ length s.workers
      by_call i none = refl
      by_call i (some x) = by_result i (f x)

      by_worker :
          (v : Option Worker) → length (worker_turn f items w s v).workers ≡ length s.workers
      by_worker none = refl
      by_worker (some ready) = by_item (get_elem? items s.next)
      by_worker (some (busy i)) = by_call i (get_elem? items i)
      by_worker (some finished) = refl
      by_worker (some failed) = refl

  pub length-turns :
      (items : List A) (ws : List ℕ) (s : Pool A B)
      → length (turns f items ws s).workers ≡ length s.workers
  unfolding turns
  length-turns items [] s = refl
  length-turns items (w ∷ ws) s = length-turns items ws (turn f items w s) ∙ length-turn items w s

  -- In a fair pool of stopped workers, with one at least unless there are no items, and with no
  -- error, the index is past the items and every place has its result.
  filled :
      (items : List A) (s : Pool A B)
      → IsFair f items s
      → all_stopped s.workers ≡ true
      → s.rejected ≡ none
      → (0 < length items → 0 < length s.workers)
      → (i : ℕ) → i < length items
      → (b : B) × (get_elem? s.results i ≡ some (some b))
  filled items s inv stopped n some_worker i l = elim (inv.handled i past) [
    | inl r ↦ r
    | inr (inl (w, q)) ↦ elim (stopped_worker s.workers stopped w (busy i) q) [
      | inl e ↦ absurd (cc e)
      | inr e ↦ absurd (cc e)
    ]
    | inr (inr (e, q)) ↦ absurd (cc (q, n))
  ]
    where
      past : i < s.next
      past =
          let (v, q) = first_worker s.workers (some_worker (omega arith)) in
          elim (stopped_worker s.workers stopped 0 v q) [
            | inl e ↦ let k = inv.ended 0 (rw e at q) in omega arith
            | inr e ↦ let (d, r) = inv.broken 0 (rw e at q) in absurd (cc (r, n))
          ]

-- With at least one worker allowed, whatever the order in which the calls return: once all workers
-- have stopped, either nothing was thrown, the function returned for every item, and the results are
-- what it returned, each at the place of its item; or the promise was rejected with an error that
-- the function threw for one of the items.
pub map_concurrent-settled :
    {A B : Type 0} (f : A → Result B) (items : List A) (concurrency : ℕ) (schedule : List ℕ)
    → 0 < concurrency
    → all_stopped (turns f items schedule (start f items concurrency)).workers ≡ true
    → (((turns f items schedule (start f items concurrency)).rejected ≡ none)
        × ((bs : List B) × (map f items ≡ map ok bs)
            × ((turns f items schedule (start f items concurrency)).results ≡ map some bs)))
      ⊎ ((e : Failure) × ((turns f items schedule (start f items concurrency)).rejected ≡ some e)
          × ((x : A) × In x items × (f x ≡ err e)))
unfolding start
map_concurrent-settled f items concurrency schedule positive stopped =
    let s = turns f items schedule (start f items concurrency) in
    let inv = turns-IsFair f items schedule _ (start-IsFair f items concurrency) in
    let workers : length s.workers ≡ min concurrency (length items) =
      length-turns f items schedule (start f items concurrency)
      ∙ length-replicate (min concurrency (length items)) ready in
    elim (Option-cases s.rejected) [
      | inr (e, q) ↦ inr (e, q, inv.cause e q)
      | inl n ↦ inl (
        n,
        collect f items s.results inv.size (filled f items s inv stopped n (λ l. omega arith))
            inv.sound,
      )
    ]
