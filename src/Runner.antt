-- ===== src/Runner.antt =====
-- messaging/outbound/index.js: the polling loop, from its start to shutdown.
pub mod Laws
use fcp_sfd_object_processor.Common.{
  ℕ, ◌+◌, ◌-◌, ◌==◌, Bool, true, false, List, [], ◌∷◌, if◌then◌else◌, ltb,
}

-- What the module keeps: whether shutdown has begun, whether a timer is set, whether a run was ever
-- started, and how many runs are in progress. `started` counts the runs for the statements. The module
-- knows the timer that it set last; since the boot starts one run, no other one is set beside it.
pub record Loop : Type 0 where
  pub is_stopping : Bool
  pub timer : Bool
  pub current_run : Bool
  pub in_progress : ℕ
  pub started : ℕ

abbrev pub initial : Loop
initial = record {
  is_stopping = false;
  timer = false;
  current_run = false;
  in_progress = 0;
  started = 0;
}

-- scheduleNextRun
pub schedule_next_run : Loop → Loop
schedule_next_run l = if l.is_stopping then l else record l { timer = true }

-- startOutbox, up to the first wait of the run
unfoldable pub start_outbox : Loop → Loop
start_outbox l =
    if l.is_stopping
    then l
    else record l { current_run = true; in_progress = l.in_progress + 1; started = l.started + 1 }

-- the timer fires
unfoldable pub fire : Loop → Loop
unfolding start_outbox
fire l = if l.timer then start_outbox (record l { timer = false }) else l

-- The end of runOutbox, whether the run failed or not: the error is only logged.
unfoldable pub finish_run : Loop → Loop
unfolding schedule_next_run
finish_run l =
    if l.in_progress == 0
    then l
    else schedule_next_run (record l { in_progress = l.in_progress - 1 })

-- stopOutbox, up to its wait; `clearTimeout` cancels the timer
unfoldable pub stop_outbox : Loop → Loop
stop_outbox l = record l { is_stopping = true; timer = false }

-- how the wait of stopOutbox ends
pub data Drain : Type 0 where
  nothing_to_wait_for drained timed_out : Drain

-- `Promise.race` of the current run and the timer of the drain, by the time at which each settles
pub drain_result : Loop → ℕ → ℕ → Drain
drain_result l run_ends_at drain_timeout_ms =
    if l.current_run
    then (if ltb drain_timeout_ms run_ends_at then timed_out else drained)
    else nothing_to_wait_for

-- what can happen: the boot calls `start`, the timer fires, a run ends, shutdown begins
pub data Event : Type 0 where
  start timer_fires run_ends stop : Event

unfoldable pub react : Event → Loop → Loop
unfolding start_outbox fire finish_run stop_outbox
react start l = start_outbox l
react timer_fires l = fire l
react run_ends l = finish_run l
react stop l = stop_outbox l

unfoldable pub react_all : List Event → Loop → Loop
react_all [] l = l
react_all (e ∷ es) l = react_all es (react e l)
