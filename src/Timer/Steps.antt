-- ===== src/Timer/Steps.antt =====
-- Timer.cc: every operation on the timers succeeds and leaves every running timer in the heap.
use lftp.Prelude.{
  ℕ, ◌+◌, ◌*◌, ◌≤◌, ◌≡◌, ◌≢◌, refl, true, false, Option, none, some, ◌∷◌, Bytes, arith,
}
use lftp.Prelude.Int.{◌+ℤ◌}
use lftp.Prelude.Write.{write}
use lftp.Heap.Laws.{Gives}
use lftp.Timer.{
  Interval, infinite, finite, Timers, infty_part, add_random, set, set_random, reset, reset_delayed,
  stop_delayed, init, destroy, new_timer, new_interval, new_seconds, reconfig, set_resource,
  new_resource, update_now,
}
use lftp.Timer.Running.{listed, IsRunning}
use lftp.Timer.Kept.{
  put-IsRunning, re_set-IsRunning, destroy-IsRunning, head_listed, named-IsRunning, new,
  new_timer-IsRunning, old, reconfig-IsRunning, reset-IsRunning, set_last-IsRunning,
  update_now-IsRunning,
}

-- The operations. `drawn` is the random part, and `n` the timer.
pub data Op : Type 0 where
  op_new : ℕ → Op
  op_new_interval : Interval → ℕ → ℕ → Op
  op_new_seconds : Interval → ℕ → ℕ → Op
  op_new_resource : Bytes → Option Bytes → ℕ → ℕ → Op
  op_set : Interval → ℕ → ℕ → Op
  op_set_random : ℕ → ℕ → ℕ → Op
  op_set_resource : Bytes → Option Bytes → ℕ → ℕ → Op
  op_reset : ℕ → ℕ → ℕ → Op
  op_reset_delayed : ℕ → ℕ → ℕ → Op
  op_stop_delayed : ℕ → ℕ → Op
  op_reconfig : Option Bytes → ℕ → ℕ → Op
  op_destroy : ℕ → Op
  op_update_now : ℕ → Op

-- A constructor is called on a new address, the others on a timer that there is, and the clock does
-- not go back.
abbrev pub Allowed : Op → Timers → Type 0
Allowed (op_new n) s = (n ≢ 0) × (listed n s.all_timers ≡ false)
Allowed (op_new_interval i d n) s = (n ≢ 0) × (listed n s.all_timers ≡ false)
Allowed (op_new_seconds i d n) s = (n ≢ 0) × (listed n s.all_timers ≡ false)
Allowed (op_new_resource r c d n) s = (n ≢ 0) × (listed n s.all_timers ≡ false)
Allowed (op_set i d n) s = listed n s.all_timers ≡ true
Allowed (op_set_random m d n) s = listed n s.all_timers ≡ true
Allowed (op_set_resource r c d n) s = listed n s.all_timers ≡ true
Allowed (op_reset t d n) s = listed n s.all_timers ≡ true
Allowed (op_reset_delayed t d n) s = listed n s.all_timers ≡ true
Allowed (op_stop_delayed t n) s = listed n s.all_timers ≡ true
Allowed (op_reconfig m d n) s = listed n s.all_timers ≡ true
Allowed (op_destroy n) s = listed n s.all_timers ≡ true
Allowed (op_update_now t) s = s.now ≤ t

abbrev pub step : (Bytes → Option Bytes → Interval) → Op → Timers → Option Timers
step query (op_new n) s = new_timer n s
step query (op_new_interval i d n) s = new_interval i d n s
step query (op_new_seconds i d n) s = new_seconds i d n s
step query (op_new_resource r c d n) s = new_resource query r c d n s
step query (op_set i d n) s = set i d n s
step query (op_set_random m d n) s = set_random m d n s
step query (op_set_resource r c d n) s = set_resource query r c d n s
step query (op_reset t d n) s = reset t d n s
step query (op_reset_delayed t d n) s = reset_delayed t d n s
step query (op_stop_delayed t n) s = stop_delayed t n s
step query (op_reconfig m d n) s = reconfig query m d n s
step query (op_destroy n) s = destroy n s
step query (op_update_now t) s = some (update_now t s)

-- Every operation on the timers that is allowed succeeds, and leaves the running timers in a heap in
-- the order of the time they have left, with every timer in it that is not infinite and has time left, and with no
-- infinite timer in it.
pub step-IsRunning :
    (query : Bytes → Option Bytes → Interval) (o : Op) (s : Timers)
    → Allowed o s
    → IsRunning s
    → Gives IsRunning (step query o s)
step-IsRunning query (op_new n) s (z, e) v =
    (init (finite 1000000) n s, refl, new_timer-IsRunning n s z e v)
step-IsRunning query (op_new_interval i d n) s (z, e) v =
    let s' = init i n s in
    re_set-IsRunning n s (n ∷ s.all_timers) (head_listed n s.all_timers) (new n s z e v) s'.timer
      (s.infty_count +ℤ infty_part (s'.timer n)) (λ m y. ground arith) d
step-IsRunning query (op_new_seconds i d n) s (z, e) v =
    let s' = init infinite n s in
    set_last-IsRunning n s (n ∷ s.all_timers) (head_listed n s.all_timers) (new n s z e v)
      (write s'.timer n (record (s'.timer n) { resource = none; closure = none; start = s.now }))
      s.infty_count (λ m y. ground arith) i d
step-IsRunning query (op_new_resource r c d n) s (z, e) v =
    let s' = init (finite 0) n s in
    named-IsRunning query n s (n ∷ s.all_timers) (head_listed n s.all_timers) (new n s z e v)
      s'.timer (λ m y. ground arith) (record (s'.timer n) { resource = some r; closure = c }) r d
      refl
step-IsRunning query (op_set i d n) s e v =
    set_last-IsRunning n s s.all_timers e (old n s v)
      (write s.timer n (record (s.timer n) { resource = none; closure = none; start = s.now }))
      s.infty_count (λ m y. ground arith) i d
step-IsRunning query (op_set_random x d n) s e v =
    put-IsRunning n s s.all_timers e (old n s v) s.timer s.infty_count (λ m y. refl)
      (add_random d (record (s.timer n) { random_max = x }))
step-IsRunning query (op_set_resource r c d n) s e v =
    named-IsRunning query n s s.all_timers e (old n s v) s.timer (λ m y. refl)
      (record (s.timer n) { resource = some r; closure = c; start = s.now }) r d refl
step-IsRunning query (op_reset t d n) s e v = reset-IsRunning t d n s e v
step-IsRunning query (op_reset_delayed t d n) s e v =
    reset-IsRunning (s.now + t * 1000000) d n s e v
step-IsRunning query (op_stop_delayed t n) s e v =
    put-IsRunning n s s.all_timers e (old n s v) s.timer s.infty_count (λ m y. refl)
      (record (s.timer n) { stop = s.now + t * 1000000 })
step-IsRunning query (op_reconfig name d n) s e v =
    reconfig-IsRunning query (s.timer n).resource name d n s e v
step-IsRunning query (op_destroy n) s e v = destroy-IsRunning n s e v
step-IsRunning query (op_update_now t) s le v =
    (update_now t s, refl, update_now-IsRunning t s le v)
