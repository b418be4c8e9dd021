-- ===== src/Sonar/Concurrent/Ends.antt =====
-- That the workers stop.
use fcp_sfd_object_processor.Common.{
  ℕ, zero, suc, ◌+◌, ◌-◌, ◌*◌, ◌<◌, ◌≤◌, ◌≡◌, refl, ◌⊎◌, inl, inr, Bool, true, false, Option, none,
  some, List, [], ◌∷◌, Result, ok, err, length, min, arith,
}
use fcp_sfd_object_processor.Sonar.Concurrent.{
  get_elem?, set, replicate, Worker, ready, busy, finished, failed, Pool, turn, turns, start,
  all_stopped, take_item, end_call, settle_call, worker_turn,
}
use fcp_sfd_object_processor.Sonar.Concurrent.Places.{get_elem?-bound, get_elem?-end}
use fcp_sfd_object_processor.Sonar.Concurrent.Laws.{IsFair}
use fcp_sfd_object_processor.Sonar.Concurrent.Runs.{turn-IsFair, start-IsFair}

-- a worker that has not stopped
abbrev pub is_live : Option Worker → Bool
is_live (some ready) = true
is_live (some (busy i)) = true
is_live _ = false

abbrev weight : Worker → ℕ
weight ready = 1
weight (busy i) = 2
weight finished = 0
weight failed = 0

abbrev load : List Worker → ℕ
load [] = 0
load (w ∷ ws) = weight w + load ws

load-set :
    (ws : List Worker) (w : ℕ) (old v : Worker)
    → get_elem? ws w ≡ some old
    → load (set ws w v) + weight old ≡ load ws + weight v
load-set [] w old v h = absurd (cc h)
load-set (u ∷ ws) zero old v h = let e : u ≡ old = cc h in rw e (omega arith)
load-set (u ∷ ws) (suc w) old v h = omega (arith, load-set ws w old v h)

load-replicate : (n : ℕ) → load (replicate n ready) ≡ n
load-replicate zero = refl
load-replicate (suc n) = omega (arith, load-replicate n)

live_worker :
    (ws : List Worker) → (all_stopped ws ≡ true) ⊎ ((w : ℕ) × (is_live (get_elem? ws w) ≡ true))
live_worker [] = inl refl
live_worker (ready ∷ ws) = inr (0, refl)
live_worker (busy i ∷ ws) = inr (0, refl)
live_worker (finished ∷ ws) = elim (live_worker ws) [ inl h ↦ inl h | inr (w, h) ↦ inr (suc w, h) ]
live_worker (failed ∷ ws) = elim (live_worker ws) [ inl h ↦ inl h | inr (w, h) ↦ inr (suc w, h) ]

module _ {A B : Type 0} (f : A → Result B) (items : List A) where
  abbrev work : Pool A B → ℕ
  work s = 3 * (length items - s.next) + load s.workers

  -- each turn is that of a worker that has not stopped
  abbrev pub AllLive : List ℕ → Pool A B → Type 0
  AllLive [] s = Unit
  AllLive (w ∷ ws) s = (is_live (get_elem? s.workers w) ≡ true) × AllLive ws (turn f items w s)

  work-turn :
      (w : ℕ) (s : Pool A B)
      → IsFair f items s
      → is_live (get_elem? s.workers w) ≡ true
      → work (turn f items w s) < work s
  unfolding turn
  work-turn w s inv live = by_worker (get_elem? s.workers w) refl live
    where
      by_item :
          (x : Option A)
          → get_elem? s.workers w ≡ some ready
          → get_elem? items s.next ≡ x
          → work (take_item f items w s x) < work s
      by_item none o h = let e = load-set s.workers w ready finished o in omega arith
      by_item (some x) o h =
          let e = load-set s.workers w ready (busy s.next) o in
          let l = get_elem?-bound items s.next x h in omega arith

      by_result :
          (i : ℕ) (r : Result B)
          → get_elem? s.workers w ≡ some (busy i)
          → work (settle_call f items w i s r) < work s
      by_result i (ok b) o = let e = load-set s.workers w (busy i) ready o in omega arith
      by_result i (err d) o = let e = load-set s.workers w (busy i) failed o in omega arith

      by_call :
          (i : ℕ) (x : Option A)
          → get_elem? s.workers w ≡ some (busy i)
          → get_elem? items i ≡ x
          → work (end_call f items w i s x) < work s
      by_call i none o h =
          let l = get_elem?-end items i h in
          let k = inv.taken w i o in let b = inv.bound in absurd (omega arith)
      by_call i (some x) o h = by_result i (f x) o

      by_worker :
          (v : Option Worker)
          → get_elem? s.workers w ≡ v
          → is_live v ≡ true
          → work (worker_turn f items w s v) < work s
      by_worker none o t = absurd (cc t)
      by_worker (some ready) o t = by_item (get_elem? items s.next) o refl
      by_worker (some (busy i)) o t = by_call i (get_elem? items i) o refl
      by_worker (some finished) o t = absurd (cc t)
      by_worker (some failed) o t = absurd (cc t)

  work-turns : (ws : List ℕ) (s : Pool A B) → IsFair f items s → AllLive ws s → length ws ≤ work s
  work-turns [] s inv live = omega arith
  work-turns (w ∷ ws) s inv live = omega (
    arith,
    work-turn w s inv live.0,
    work-turns ws (turn f items w s) (turn-IsFair f items w s inv) live.1,
  )

  -- A schedule of turns by workers that have not stopped has at most four turns for each item, and
  -- after it either all workers have stopped or another such turn can follow.
  pub map_concurrent-ends :
      (concurrency : ℕ) (schedule : List ℕ)
      → AllLive schedule (start f items concurrency)
      → (length schedule ≤ 4 * length items)
        × ((all_stopped (turns f items schedule (start f items concurrency)).workers ≡ true)
            ⊎ ((w : ℕ) × (is_live
                    (get_elem? (turns f items schedule (start f items concurrency)).workers w)
                  ≡ true)))
  unfolding start
  map_concurrent-ends concurrency schedule live =
      let e = load-replicate (min concurrency (length items)) in
      let l =
        work-turns schedule (start f items concurrency) (start-IsFair f items concurrency) live in
      (omega arith, live_worker _)
