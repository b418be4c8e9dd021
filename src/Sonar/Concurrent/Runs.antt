-- ===== src/Sonar/Concurrent/Runs.antt =====
-- Every schedule of the workers, and what the joint promise holds when all of them have stopped.
use fcp_sfd_object_processor.Common.{
  ℕ, zero, suc, ◌≡◌, refl, ◌⊎◌, inl, inr, true, Option, none, some, List, [], ◌∷◌, Result, ok, err,
  Failure, length, min, In, arith, Option-cases,
}
use fcp_sfd_object_processor.Sonar.Concurrent.{
  get_elem?, replicate, Worker, ready, busy, finished, failed, Pool, turn, turns, start,
  all_stopped, first_error, settle_call, end_call, take_item, worker_turn,
}
use fcp_sfd_object_processor.Sonar.Concurrent.Places.{
  get_elem?-In, get_elem?-replicate, length-replicate,
}
use fcp_sfd_object_processor.Sonar.Concurrent.Laws.{IsFair, leaves, takes, returns, throws}

pub stopped_worker :
    (ws : List Worker)
    → all_stopped ws ≡ true
    → (w : ℕ) (v : Worker) → get_elem? ws w ≡ some v
    → (v ≡ finished) ⊎ (v ≡ failed)
stopped_worker [] h w v e = absurd (cc e)
stopped_worker (finished ∷ ws) h zero v e = inl (cc e)
stopped_worker (finished ∷ ws) h (suc w) v e = stopped_worker ws h w v e
stopped_worker (failed ∷ ws) h zero v e = inr (cc e)
stopped_worker (failed ∷ ws) h (suc w) v e = stopped_worker ws h w v e
stopped_worker (ready ∷ ws) h w v e = absurd (cc h)
stopped_worker (busy i ∷ ws) h w v e = absurd (cc h)

module _ {A B : Type 0} (f : A → Result B) (items : List A) where
  pub turn-IsFair : (w : ℕ) (s : Pool A B) → IsFair f items s → IsFair f items (turn f items w s)
  unfolding turn
  turn-IsFair w s inv = by_worker (get_elem? s.workers w) refl
    where
      by_call :
          (i : ℕ) (x : A)
          → get_elem? s.workers w ≡ some (busy i)
          → get_elem? items i ≡ some x
          → (r : Result B) → f x ≡ r
          → IsFair f items (settle_call f items w i s r)
      by_call i x o h (ok b) q = returns f items s inv w i x o b h q
      by_call i x o h (err e) q =
          throws f items s inv w i x o e (first_error f items s.rejected e) h q
            (first_cause (Option-cases s.rejected))
        where
          first_cause :
              (s.rejected ≡ none) ⊎ ((d : Failure) × (s.rejected ≡ some d))
              → (d : Failure) × (first_error f items s.rejected e ≡ some d)
                × ((y : A) × In y items × (f y ≡ err d))
          first_cause (inl n) = (e, rw n refl, (x, get_elem?-In items i x h, q))
          first_cause (inr (d, n)) = (d, rw n refl, inv.cause d n)

      by_worker :
          (v : Option Worker)
          → get_elem? s.workers w ≡ v
          → IsFair f items (worker_turn f items w s v)
      by_worker none o = inv
      by_worker (some ready) o = by_item (get_elem? items s.next) refl
        where
          by_item :
              (x : Option A) → get_elem? items s.next ≡ x → IsFair f items (take_item f items w s x)
          by_item none h = leaves f items s inv w o h
          by_item (some x) h = takes f items s inv w x o h
      by_worker (some (busy i)) o = by_item (get_elem? items i) refl
        where
          by_item :
              (x : Option A) → get_elem? items i ≡ x → IsFair f items (end_call f items w i s x)
          by_item none h = inv
          by_item (some x) h = by_call i x o h (f x) refl
      by_worker (some finished) o = inv
      by_worker (some failed) o = inv

  pub start-IsFair : (concurrency : ℕ) → IsFair f items (start f items concurrency)
  unfolding start
  start-IsFair concurrency = record {
    bound = omega arith;
    size = length-replicate (length items) none;
    called = refl;
    sound = λ i b h. absurd (cc (get_elem?-replicate (length items) i none (some b) h));
    taken = λ w i h. absurd (cc (all_ready w (busy i) h));
    handled = λ i h. absurd (omega arith);
    ended = λ w h. absurd (cc (all_ready w finished h));
    broken = λ w h. absurd (cc (all_ready w failed h));
    cause = λ e h. absurd (cc h);
  }
    where
      all_ready :
          (w : ℕ) (v : Worker)
          → get_elem? (replicate (min concurrency (length items)) ready) w ≡ some v
          → ready ≡ v
      all_ready w v h = get_elem?-replicate (min concurrency (length items)) w ready v h

  pub turns-IsFair :
      (ws : List ℕ) (s : Pool A B) → IsFair f items s → IsFair f items (turns f items ws s)
  unfolding turns
  turns-IsFair [] s inv = inv
  turns-IsFair (w ∷ ws) s inv = turns-IsFair ws (turn f items w s) (turn-IsFair w s inv)
