-- ===== src/Scheduler.antt =====
-- The cooperative scheduler: SMTask.cc and SMTask.h, on the lists of xlist.h.
mod Lists
pub use Lists.*
mod Methods
unfoldable pub use Methods.*
pub mod Links
pub mod Sound
pub mod Calls
pub mod Nesting
pub mod Turns
pub mod Rounds
pub mod Cover
pub mod NewLoop
pub mod Roll
pub mod Drops
pub mod Dying
pub mod Destroying
pub mod Pass
pub mod Garbage
pub mod ReadyLoop
pub mod Schedule
mod Tests
use lftp.Prelude.{
  ℕ, zero, suc, ◌+◌, ◌-◌, Bool, true, false, not, ◌&&◌, ◌||◌, Option, none, some, List, [], ◌∷◌,
  ◌++◌, length, ◌*◌, ◌==◌, ltb, if◌then◌else◌,
}
use lftp.Prelude.Write.{write}

-- `Do` of a task. It answers whether it moved.
abbrev pub Do : Type 0
Do = ℕ → Tasks → Run (Bool × Tasks)

abbrev pub then_leave : ℕ → Bool × Tasks → Run (Bool × Tasks)
then_leave p (m, s) = do s' ← leave p s; done (m, s')

unfoldable pub roll_loop : Do → ℕ → ℕ → Bool → Tasks → Run (Bool × Tasks)
roll_loop act zero p m s = no_fuel
roll_loop act (suc fuel) p m s =
    if (s.task p).deleting
    then done (m, s)
    else act p s >>= (λ r. if r.0 then roll_loop act fuel p true r.1 else done (m, r.1))

unfoldable pub roll : Do → ℕ → ℕ → Tasks → Run (Bool × Tasks)
roll act fuel p s =
    if not ((s.task p).running == 0) || (s.task p).deleting
    then done (false, s)
    else (do s' ← enter p s; r ← roll_loop act fuel p false s'; then_leave p r)

-- The destructor of SMTask.
unfoldable pub destroy : ℕ → Tasks → Run Tasks
destroy p s =
    if (s.task p).running == 0
      && ((s.task p).ref_count == 0 && ((s.task p).deleting && not (listed p s.deleted_tasks)))
    then (do
      all ← remove p s.all_tasks
      done (record s {
        all_tasks = all;
        ready_tasks = remove_listed p s.ready_tasks;
        new_tasks = remove_listed p s.new_tasks;
      }))
    else fault

abbrev pub is_busy : Task → Bool
is_busy t = not (t.running == 0) || not (t.ref_count == 0)

-- What the destructor of a derived class does, before that of SMTask, which `destroy` is.
abbrev pub Dtor : Type 0
Dtor = ℕ → Tasks → Run Tasks

-- The body of the loop of `CollectGarbage`, with 1 for a task that it deletes.
unfoldable pub collect_one : Dtor → ℕ → Tasks → Run (ℕ × Tasks)
collect_one die p s = if is_busy (s.task p) then done (0, s) else (do
  deleted ← remove p s.deleted_tasks
  s1 ← die p (record s { deleted_tasks = deleted })
  s2 ← destroy p s1
  done (1, s2))

-- The loop, from a node and the one behind it.
unfoldable pub collect : Dtor → ℕ → ℕ → ℕ → ℕ → Tasks → Run (ℕ × Tasks)
collect die zero p next count s = no_fuel
collect die (suc fuel) p next count s = if p == 0 then done (count, s) else (do
  r ← collect_one die p s
  n ← next_of next (r.1).deleted_tasks
  collect die fuel next n (count + r.0) r.1)

-- There are as many rounds as tasks, and a last one: a task is passed by or it is gone.
unfoldable pub collect_garbage : Dtor → Tasks → Run (ℕ × Tasks)
collect_garbage die s = do
  n ← next_of (head_or 0 s.deleted_tasks) s.deleted_tasks
  collect die (suc (length s.all_tasks)) (head_or 0 s.deleted_tasks) n 0 s

-- `ScheduleThis`
unfoldable pub schedule_this : Do → ℕ → Tasks → Run (Bool × Tasks)
schedule_this act p s =
    if not (listed p s.ready_tasks)
    then fault
    else if not ((s.task p).running == 0)
    then done (false, s)
    else if (s.task p).deleting || is_suspended (s.task p)
    then (do ready ← remove p s.ready_tasks; done (false, record s { ready_tasks = ready }))
    else (do s' ← enter p s; r ← act p s'; then_leave p r)

abbrev pub protect : ℕ → Tasks → Tasks
protect p s = if p == 0 then s else inc_ref_count p s

abbrev pub unprotect : ℕ → Tasks → Tasks
unprotect p s = if p == 0 then s else dec_ref_count p s

abbrev pub moved_to_ready : ℕ → Tasks → Run Tasks
moved_to_ready p s = do
  new ← remove p s.new_tasks
  ready ← add p s.ready_tasks
  done (record s { new_tasks = new; ready_tasks = ready })

-- The loop of `ScheduleNew`, from a node and the one behind it.
unfoldable pub new_loop : Do → ℕ → ℕ → ℕ → Bool → Tasks → Run (Bool × Tasks)
new_loop act zero p next m s = no_fuel
new_loop act (suc fuel) p next m s = if p == 0 then done (m, s) else (do
  s1 ← moved_to_ready p s
  r ← schedule_this act p (protect next s1)
  let s2 = unprotect next r.1
  n ← next_of next s2.new_tasks
  new_loop act fuel next n (m || r.0) s2)

-- Rounds enough for `n` tasks: a task that ran is not listed again, and between two that run a round takes one off.
abbrev pub enough : ℕ → ℕ
enough n = (n + 1) * (n + 1)

unfoldable pub schedule_new : Do → Tasks → Run (Bool × Tasks)
schedule_new act s = do
  n ← next_of (head_or 0 s.new_tasks) s.new_tasks
  new_loop act (enough (length s.all_tasks)) (head_or 0 s.new_tasks) n false s

-- The loop of `Schedule`.
unfoldable pub ready_loop : Do → ℕ → ℕ → ℕ → Bool → Tasks → Run (Bool × Tasks)
ready_loop act zero p next m s = no_fuel
ready_loop act (suc fuel) p next m s = if p == 0 then done (m, s) else (do
  r ← schedule_this act p (protect next s)
  r' ← schedule_new act r.1
  let s2 = unprotect next r'.1
  n ← next_of next s2.ready_tasks
  ready_loop act fuel next n (m || (r.0 || r'.0)) s2)

-- `Schedule` without the poll vector: whether a task moved. There are as many rounds as ready tasks, and a last one.
unfoldable pub schedule : Do → Dtor → Tasks → Run (Bool × Tasks)
schedule act die s = do
  r ← schedule_new act s
  let s1 = r.1
  n ← next_of (head_or 0 s1.ready_tasks) s1.ready_tasks
  r' ← ready_loop act (suc (length s1.ready_tasks)) (head_or 0 s1.ready_tasks) n r.0 s1
  g ← collect_garbage die r'.1
  done (r'.0, g.1)
