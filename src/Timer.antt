-- ===== src/Timer.antt =====
-- The timers of Timer.cc: a heap of the running ones, in the order of the time they have left.
pub mod Running
pub mod Kept
pub mod Steps
pub mod Timeout
mod Tests
use lftp.Prelude.{
  ℕ, zero, suc, ◌+◌, ◌-◌, ◌*◌, Bool, true, false, not, ◌&&◌, ◌||◌, Option, none, some, List, [],
  ◌∷◌, Bytes, same, ◌==◌, ltb, leb, if◌then◌else◌,
}
use lftp.Prelude.Int.{ℤ, pos, eq_ℤ, ◌+ℤ◌, ◌-ℤ◌}
use lftp.Prelude.Write.{write}
use lftp.Heap
use lftp.Heap.{Heap, get_min}

-- A `TimeInterval`, in microseconds. A `Time` is a number of them.
pub record Interval : Type 0 where
  pub span : ℕ
  pub infty : Bool

abbrev pub finite : ℕ → Interval
finite s = record { span = s; infty = false }

abbrev pub infinite : Interval
infinite = record { span = 0; infty = true }

-- `TimeInterval::operator<`.
abbrev pub interval_less : Interval → Interval → Bool
interval_less a b = not a.infty && b.infty || ltb a.span b.span

-- What a timer is set from: the setting and the closure of `ResMgr`.
pub record Timer : Type 0 where
  pub start : ℕ
  pub stop : ℕ
  pub last_setting : Interval
  pub random_max : ℕ
  pub resource : Option Bytes
  pub closure : Option Bytes

-- The static members and the clock, with the timers at their addresses.
pub record Timers : Type 0 where
  pub now : ℕ
  pub timer : ℕ → Timer
  pub all_timers : List ℕ
  pub running : Heap
  pub infty_count : ℤ

abbrev pub is_infty : Timer → Bool
is_infty t = t.last_setting.infty

abbrev pub time_left : ℕ → Timer → Interval
time_left now t =
    if is_infty t then infinite else if leb t.stop now then finite 0 else finite (t.stop - now)

abbrev pub stopped : ℕ → Timer → Bool
stopped now t = if is_infty t then false else leb t.stop now

-- `operator<(const Timer&,const Timer&)`.
abbrev pub timer_less : Timers → ℕ → ℕ → Bool
timer_less s a b = interval_less (time_left s.now (s.timer a)) (time_left s.now (s.timer b))

abbrev pub with_running : Timers → Heap → Timers
with_running s h = record s { running = h }

abbrev pub put : Timers → ℕ → Timer → Timers
put s n t = record s { timer = write s.timer n t }

abbrev pub lift : Timers → Option Heap → Option Timers
lift s none = none
lift s (some h) = some (with_running s h)

-- A timer runs when it has to be in the heap.
abbrev pub runs : ℕ → Timer → Bool
runs now t = ltb now t.stop && not (is_infty t)

abbrev pub add_running : ℕ → Timers → Option Timers
add_running n s =
    if runs s.now (s.timer n) then lift s (Heap.add (timer_less s) n s.running) else some s

abbrev pub then_add : ℕ → Option Timers → Option Timers
then_add n none = none
then_add n (some s) = add_running n s

unfoldable pub re_sort : ℕ → Timers → Option Timers
re_sort n s = then_add n (lift s (Heap.remove (timer_less s) n s.running))

-- `drawn` is the random part of `random_max`, which is left out when that is 0.0001 s or less.
abbrev pub add_random : ℕ → Timer → Timer
add_random drawn t = if ltb 100 t.random_max then record t { stop = t.stop + drawn } else t

abbrev pub re_set : ℕ → ℕ → Timers → Option Timers
re_set drawn n s =
    let t = s.timer n in
    re_sort n (put s n (add_random drawn (record t { stop = t.start + t.last_setting.span })))

abbrev pub infty_part : Timer → ℤ
infty_part t = if is_infty t then pos 1 else pos 0

abbrev pub set_last_setting : Interval → ℕ → ℕ → Timers → Option Timers
set_last_setting i drawn n s =
    let t = s.timer n in
    let t' = record t { last_setting = i } in
    re_set drawn n
      (record (put s n t') { infty_count = s.infty_count -ℤ infty_part t +ℤ infty_part t' })

abbrev pub set : Interval → ℕ → ℕ → Timers → Option Timers
set i drawn n s =
    set_last_setting i drawn n
      (put s n (record (s.timer n) { resource = none; closure = none; start = s.now }))

abbrev pub set_random : ℕ → ℕ → ℕ → Timers → Option Timers
set_random max drawn n s =
    re_sort n (put s n (add_random drawn (record (s.timer n) { random_max = max })))

abbrev pub reset : ℕ → ℕ → ℕ → Timers → Option Timers
reset time drawn n s =
    let t = s.timer n in
    if leb time t.start && ltb time t.stop
    then some s
    else re_set drawn n (put s n (record t { start = time }))

abbrev pub reset_delayed : ℕ → ℕ → ℕ → Timers → Option Timers
reset_delayed seconds drawn n s = reset (s.now + seconds * 1000000) drawn n s

-- `Stop` is the delay 0.
abbrev pub stop_delayed : ℕ → ℕ → Timers → Option Timers
stop_delayed seconds n s =
    re_sort n (put s n (record (s.timer n) { stop = s.now + seconds * 1000000 }))

-- `init`, and what the constructors have set before it.
abbrev pub init : Interval → ℕ → Timers → Timers
init i n s =
    record (put s n (record {
      start = s.now;
      stop = s.now;
      last_setting = i;
      random_max = 0;
      resource = none;
      closure = none;
    })) { all_timers = n ∷ s.all_timers }

abbrev pub without : ℕ → List ℕ → List ℕ
without n [] = []
without n (m ∷ ms) = if m == n then without n ms else m ∷ without n ms

abbrev pub unlist : ℕ → Option Timers → Option Timers
unlist n none = none
unlist n (some s) = some (record s {
  all_timers = without n s.all_timers;
  infty_count = s.infty_count -ℤ infty_part (s.timer n);
})

-- The destructor.
abbrev pub destroy : ℕ → Timers → Option Timers
destroy n s = unlist n (lift s (Heap.remove (timer_less s) n s.running))

-- `Timer()`, `Timer(const TimeInterval&)` and `Timer(int,int)`.
abbrev pub new_timer : ℕ → Timers → Option Timers
new_timer n s = some (init (finite 1000000) n s)

abbrev pub new_interval : Interval → ℕ → ℕ → Timers → Option Timers
new_interval i drawn n s =
    let s' = init i n s in
    re_set drawn n (record s' { infty_count = s.infty_count +ℤ infty_part (s'.timer n) })

abbrev pub new_seconds : Interval → ℕ → ℕ → Timers → Option Timers
new_seconds i drawn n s = set i drawn n (init infinite n s)

abbrev pub names : Option Bytes → Bytes → Bool
names none r = true
names (some m) r = same m r

-- `query` is `ResMgr::Query`.
module _ (query : Bytes → Option Bytes → Interval) where
  -- `resource` is that of the timer, and `name` the setting that changed, or none for all of them.
  abbrev pub reconfig_from : Option Bytes → Option Bytes → ℕ → ℕ → Timers → Option Timers
  reconfig_from none name drawn n s = some s
  reconfig_from (some r) name drawn n s =
      if names name r then set_last_setting (query r (s.timer n).closure) drawn n s else some s

  abbrev pub reconfig : Option Bytes → ℕ → ℕ → Timers → Option Timers
  reconfig name drawn n s = reconfig_from (s.timer n).resource name drawn n s

  -- `resource!=r` compares addresses, and the timer keeps a copy, so it holds for every text.
  abbrev pub set_resource : Bytes → Option Bytes → ℕ → ℕ → Timers → Option Timers
  set_resource r c drawn n s =
      reconfig (some r) drawn n
        (put s n (record (s.timer n) { resource = some r; closure = c; start = s.now }))

  abbrev pub new_resource : Bytes → Option Bytes → ℕ → ℕ → Timers → Option Timers
  new_resource r c drawn n s =
      let s' = init (finite 0) n s in
      reconfig (some r) drawn n (put s' n (record (s'.timer n) { resource = some r; closure = c }))

abbrev pub then_pop :
    Timers → (Timers → Option (ℕ × Timers)) → Option (ℕ × Heap) → Option (ℕ × Timers)
then_pop s rest none = none
then_pop s rest (some (m, h)) = rest (with_running s h)

-- The loop of `GetTimeoutTV`: the first running timer, or 0, when the stopped ones are popped.
unfoldable pub pop_stopped : ℕ → Timers → Option (ℕ × Timers)
pop_stopped zero s = some (get_min s.running, s)
pop_stopped (suc fuel) s =
    let t = get_min s.running in
    let popped = then_pop s (pop_stopped fuel) (Heap.pop_min (timer_less s) s.running) in
    if t == 0 then some (0, s) else if stopped s.now (s.timer t) then popped else some (t, s)

-- In microseconds, with none for the -1 that is no timeout.
abbrev pub timeout_of : ℕ → Timers → Option ℕ
timeout_of t s =
    if t == 0
    then (if eq_ℤ s.infty_count (pos 0) then none else some 3600000000)
    else some ((s.timer t).stop - s.now)

abbrev pub then_timeout : Option (ℕ × Timers) → Option (Option ℕ × Timers)
then_timeout none = none
then_timeout (some (t, s)) = some (timeout_of t s, s)

-- Every round of the loop takes a timer out of the heap.
abbrev pub get_timeout : Timers → Option (Option ℕ × Timers)
get_timeout s = then_timeout (pop_stopped (s.running.count + 1) s)

-- `SMTask::UpdateNow`.
abbrev pub update_now : ℕ → Timers → Timers
update_now time s = record s { now = time }
