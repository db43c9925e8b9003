-- ===== src/Timer/Tests.antt =====
-- Runs of the timers (Timer.cc), and their theorems at small states.
use lftp.Prelude.{ℕ, ◌≡◌, refl, Option, none, some, Bytes, arith, Bool}
use lftp.Heap.{Heap, siftup, siftdown, fix, remove_at, add, remove, pop_min}
use lftp.Heap.Laws.{Gives}
use lftp.Timer.{
  Interval, finite, infinite, interval_less, Timers, with_running, re_sort, pop_stopped,
  get_timeout, new_interval, update_now,
}
use lftp.Timer.Running.{IsRunning, no_timers, no_timers-IsRunning}
use lftp.Timer.Steps.{op_new_interval, step, step-IsRunning}
use lftp.Timer.Timeout.{Earliest, get_timeout-Earliest}

abbrev no_query : Bytes → Option Bytes → Interval
no_query r c = finite 0

abbrev and_then : Option Timers → (Timers → Option Timers) → Option Timers
and_then none f = none
and_then (some s) f = f s

abbrev timeout : Option Timers → Option (Option ℕ)
timeout none = none
timeout (some s) = elim (get_timeout s) [ none ↦ none | some (t, s') ↦ some t ]

abbrev two_timers : Option Timers
two_timers =
    and_then (new_interval (finite 500) 0 1 (no_timers 100)) (new_interval (finite 300) 0 2)

first_stop : timeout two_timers ≡ some (some 300)
unfolding re_sort add siftup remove pop_stopped
first_stop = refl

-- When 400 microseconds have passed the second timer has stopped.
second_stop : timeout (and_then two_timers (λ s. some (update_now 500 s))) ≡ some (some 100)
unfolding re_sort add siftup siftdown fix remove remove_at pop_min pop_stopped
second_stop = refl

-- An infinite interval comes before one of a microsecond.
infinite_first : interval_less infinite (finite 1) ≡ Bool.true
infinite_first = refl

step-IsRunning_example :
    Gives IsRunning (step no_query (op_new_interval (finite 500) 0 1) (no_timers 100))
step-IsRunning_example =
    step-IsRunning no_query (op_new_interval (finite 500) 0 1) (no_timers 100) (omega arith, refl)
      (no_timers-IsRunning 100)

abbrev ticking : Gives IsRunning (step no_query (op_new_interval (finite 500) 0 1) (no_timers 100))
ticking =
    step-IsRunning no_query (op_new_interval (finite 500) 0 1) (no_timers 100) (omega arith, refl)
      (no_timers-IsRunning 100)

get_timeout-Earliest_example :
    Gives
      (λ r. (h : Heap) × (r.1 ≡ with_running ticking.0 h) × IsRunning r.1 × Earliest ticking.0 r.0)
      (get_timeout ticking.0)
get_timeout-Earliest_example = get_timeout-Earliest ticking.0 ticking.2
