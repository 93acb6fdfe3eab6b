-- ===== src/Outbox/Scheduler.antt =====
-- outbox/scheduler.ts: the cron driver of the poller. A tick is in flight from the call of
-- `poller.tick()` to the end of its promise, whether it resolves or rejects.
use openzigs_social.Prelude.{
  ℕ, ◌+◌, ◌-◌, ◌==◌, ◌≤◌, Bool, true, false, List, [], ◌∷◌, ◌≡◌, refl, arith, inl, inr,
  if◌then◌else◌, Bool-cases,
}

pub record OutboxScheduler : Type 0 where
  pub task : Bool
  pub running : Bool
  pub in_flight : ℕ
  pub ticks : ℕ

abbrev pub new_scheduler : OutboxScheduler
new_scheduler = record { task = false; running = false; in_flight = 0; ticks = 0 }

unfoldable pub start : OutboxScheduler → OutboxScheduler
start s = if s.task then s else record s { task = true }

unfoldable pub stop : OutboxScheduler → OutboxScheduler
stop s = record s { task = false }

-- `runTick` to its await.
unfoldable pub run_tick : OutboxScheduler → OutboxScheduler
run_tick s =
    if s.running
    then s
    else record s { running = true; in_flight = s.in_flight + 1; ticks = s.ticks + 1 }

-- What comes after the await, and the `finally`.
unfoldable pub end_tick : OutboxScheduler → OutboxScheduler
end_tick s =
    if s.in_flight == 0 then s else record s { running = false; in_flight = s.in_flight - 1 }

-- A cron firing, which happens while the task is there; `runTick` may be called on its own too.
pub data Event : Type 0 where
  start_event stop_event cron_fires run_tick_event tick_ends : Event

unfoldable pub step : Event → OutboxScheduler → OutboxScheduler
step start_event s = start s
step stop_event s = stop s
step cron_fires s = if s.task then run_tick s else s
step run_tick_event s = run_tick s
step tick_ends s = end_tick s

unfoldable pub run : List Event → OutboxScheduler → OutboxScheduler
run [] s = s
run (e ∷ es) s = run es (step e s)

-- `running` says whether a tick is in flight, and no more than one is.
abbrev pub IsSingle : OutboxScheduler → Type 0
IsSingle s = s.in_flight ≡ (if s.running then 1 else 0)

run_tick-IsSingle : (s : OutboxScheduler) → IsSingle s → IsSingle (run_tick s)
unfolding run_tick
run_tick-IsSingle s h = elim (Bool-cases s.running) [
  | inl busy ↦ rw busy (rw busy at h)
  | inr idle ↦ rw idle (omega (arith, rw idle at h))
]

if-IsSingle :
    (b : Bool) (s s' : OutboxScheduler) → IsSingle s → IsSingle s' → IsSingle (if b then s else s')
if-IsSingle true s s' h h' = h
if-IsSingle false s s' h h' = h'

step-IsSingle : (e : Event) (s : OutboxScheduler) → IsSingle s → IsSingle (step e s)
unfolding step start stop end_tick
step-IsSingle start_event s h = if-IsSingle s.task s (record s { task = true }) h h
step-IsSingle stop_event s h = h
step-IsSingle cron_fires s h = if-IsSingle s.task (run_tick s) s (run_tick-IsSingle s h) h
step-IsSingle run_tick_event s h = run_tick-IsSingle s h
step-IsSingle tick_ends s h = elim (Bool-cases (s.in_flight == 0)) [
  | inl none' ↦ rw none' h
  | inr some' ↦ rw some' (ground (arith, h, some'))
]

run-IsSingle : (es : List Event) (s : OutboxScheduler) → IsSingle s → IsSingle (run es s)
unfolding run
run-IsSingle [] s h = h
run-IsSingle (e ∷ es) s h = run-IsSingle es (step e s) (step-IsSingle e s h)

-- After any sequence of starts, stops, cron firings, direct calls of `runTick` and ends of ticks
-- on a new scheduler, at most one tick is in flight.
pub in_flight-run : (es : List Event) → (run es new_scheduler).in_flight ≤ 1
in_flight-run es = ground (arith, run-IsSingle es new_scheduler refl)
