-- ===== src/Sonar/Concurrent.antt =====
-- mapConcurrent of scripts/sonar-scan.js: workers that share the index of the next item. A worker's
-- turn is what it does between two waits, so a schedule is the list of the workers whose turn it is.
pub mod Places
pub mod Laws
pub mod Runs
pub mod Settled
pub mod Ends
use fcp_sfd_object_processor.Common.{
  ℕ, zero, suc, ◌+◌, Bool, true, false, Option, none, some, List, [], ◌∷◌, ◌++◌, Result, ok, err,
  Failure, ltb, length, min, if◌then◌else◌,
}

abbrev pub get_elem? : {A : Type 0} → List A → ℕ → Option A
get_elem? [] i = none
get_elem? (x ∷ xs) zero = some x
get_elem? (x ∷ xs) (suc i) = get_elem? xs i

abbrev pub set : {A : Type 0} → List A → ℕ → A → List A
set [] i v = []
set (x ∷ xs) zero v = v ∷ xs
set (x ∷ xs) (suc i) v = x ∷ set xs i v

abbrev pub replicate : {A : Type 0} → ℕ → A → List A
replicate zero x = []
replicate (suc n) x = x ∷ replicate n x

-- A worker is before the test of its loop, waits for the call on the item with an index, has left
-- the loop, or has thrown.
pub data Worker : Type 0 where
  ready : Worker
  busy : ℕ → Worker
  finished failed : Worker

-- the shared index, the results with their holes, the items that the function was called on, and
-- the error that the joint promise was rejected with
pub record Pool (A B : Type 0) : Type 0 where
  pub next : ℕ
  pub results : List (Option B)
  pub workers : List Worker
  pub calls : List A
  pub rejected : Option Failure

module _ {A B : Type 0} (f : A → Result B) (items : List A) where
  abbrev first_error : Option Failure → Failure → Option Failure
  first_error none e = some e
  first_error (some e) later = some e

  -- the call on the item with an index has ended
  abbrev settle_call : ℕ → ℕ → Pool A B → Result B → Pool A B
  settle_call w i s (ok b) = record s {
    results = set s.results i (some b);
    workers = set s.workers w ready;
  }
  settle_call w i s (err e) = record s {
    workers = set s.workers w failed;
    rejected = first_error s.rejected e;
  }

  abbrev end_call : ℕ → ℕ → Pool A B → Option A → Pool A B
  end_call w i s none = s
  end_call w i s (some x) = settle_call w i s (f x)

  -- the test of the loop, `nextIndex++` and the call
  abbrev take_item : ℕ → Pool A B → Option A → Pool A B
  take_item w s none = record s { workers = set s.workers w finished }
  take_item w s (some x) = record s {
    next = suc s.next;
    workers = set s.workers w (busy s.next);
    calls = s.calls ++ x ∷ [];
  }

  abbrev worker_turn : ℕ → Pool A B → Option Worker → Pool A B
  worker_turn w s none = s
  worker_turn w s (some ready) = take_item w s (get_elem? items s.next)
  worker_turn w s (some (busy i)) = end_call w i s (get_elem? items i)
  worker_turn w s (some finished) = s
  worker_turn w s (some failed) = s

  unfoldable pub turn : ℕ → Pool A B → Pool A B
  turn w s = worker_turn w s (get_elem? s.workers w)

  -- the turns of a schedule
  unfoldable pub turns : List ℕ → Pool A B → Pool A B
  turns [] s = s
  turns (w ∷ ws) s = turns ws (turn w s)

  -- `new Array(items.length)` and the workers
  unfoldable pub start : ℕ → Pool A B
  start concurrency = record {
    next = 0;
    results = replicate (length items) none;
    workers = replicate (min concurrency (length items)) ready;
    calls = [];
    rejected = none;
  }

abbrev pub all_stopped : List Worker → Bool
all_stopped [] = true
all_stopped (finished ∷ ws) = all_stopped ws
all_stopped (failed ∷ ws) = all_stopped ws
all_stopped (w ∷ ws) = false
