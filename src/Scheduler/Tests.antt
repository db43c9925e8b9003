-- ===== src/Scheduler/Tests.antt =====
-- Runs of the scheduler (SMTask.cc) with three tasks, and its theorems there.
use lftp.Prelude.{ℕ, ◌≡◌, refl, Bool, true, false, ◌&&◌, List, [], ◌∷◌, ◌==◌, arith, if◌then◌else◌}
use lftp.Scheduler.{
  Tasks, Run, fault, no_fuel, done, ◌>>=◌, listed, fresh_task, new_task, enter, leave, Do, Dtor,
  delete_later, delete_ref, destroy, collect_one, collect, collect_garbage, roll, roll_loop,
  schedule_this, new_loop, schedule_new, ready_loop, schedule,
}
use lftp.Scheduler.Sound.{IsSound, Goes}
use lftp.Scheduler.Calls.{makes, deletes}
use lftp.Scheduler.Nesting.{Calls, no_calls, call, Calls-Goes, Entered, enter-Entered}
use lftp.Scheduler.Drops.{Drops}

abbrev nothing : Tasks
nothing = record {
  task = λ p. fresh_task;
  all_tasks = [];
  ready_tasks = [];
  new_tasks = [];
  deleted_tasks = [];
  current = 0;
  stack = [];
  made = 0;
}

nothing-IsSound : IsSound nothing
nothing-IsSound = record {
  all_distinct = tt;
  ready_distinct = tt;
  new_distinct = tt;
  deleted_distinct = tt;
  ready_live = λ p e. absurd (ground arith);
  new_live = λ p e. absurd (ground arith);
  deleted_live = λ p e. absurd (ground arith);
  stack_live = λ p z e. absurd (ground arith);
  apart = λ p e. absurd (ground arith);
  marked = λ p e. absurd (ground arith);
  counted = λ p z. ground arith;
  given = λ p e. absurd (ground arith);
}

abbrev done_or : Tasks → Run Tasks → Tasks
done_or s (done t) = t
done_or s r = s

-- The first task runs, as SMTaskInit does; the second is new, and the third is to be deleted.
abbrev first : Tasks
unfolding new_task
first = done_or nothing (new_task nothing)

abbrev entered : Tasks
unfolding enter
entered = done_or first (enter 1 first)

abbrev second : Tasks
unfolding new_task
second = done_or entered (new_task entered)

abbrev third : Tasks
unfolding new_task
third = done_or second (new_task second)

abbrev three : Tasks
unfolding new_task enter
three = done_or third (delete_later 3 third)

entered-Entered : Entered 1 first entered
unfolding new_task enter
entered-Entered =
    enter-Entered first (Calls-Goes (call {s = nothing} makes tt refl no_calls) nothing-IsSound).0 1
      (omega arith) refl

entered-three : Calls entered three
unfolding new_task enter
entered-three = call makes tt refl (call makes tt refl (call (deletes 3) refl refl no_calls))

-- A fourth task, and the second one is to be deleted behind the third.
abbrev fourth : Tasks
unfolding new_task enter
fourth = done_or three (new_task three)

abbrev four : Tasks
unfolding new_task enter
four = done_or fourth (delete_later 2 fourth)

-- The third task holds a reference to the fourth one, which its destructor drops.
abbrev drops_fourth : Dtor
drops_fourth p s = if p == 3 && listed 4 s.all_tasks then delete_ref 4 s else done s

count_after : Run (ℕ × Tasks) → ℕ × List ℕ
count_after (done (n, t)) = (n, t.all_tasks)
count_after r = (0, [])

-- The fourth task is destroyed in the pass that destroys the third.
collects : count_after (collect_garbage drops_fourth four) ≡ (3, 1 ∷ [])
unfolding collect_garbage collect collect_one destroy new_task enter count_after
collects = refl

-- A task that has nothing to do.
abbrev stalls : Do
stalls p s = done (false, s)

-- The second task makes a fourth one, and then rolls that whenever it runs; the others do nothing.
abbrev moved : Run Tasks → Run (Bool × Tasks)
moved r = r >>= (λ t. done (true, t))

abbrev rolls_fourth : Do
rolls_fourth p s =
    if p == 2
    then (if listed 4 s.all_tasks then roll stalls 1 4 s else moved (new_task s))
    else done (false, s)

abbrev Ends : {A : Type 0} → Run A → Type 0
Ends fault = Unit {0}
Ends no_fuel = ⊥
Ends (done a) = Unit {0}

tasks_after : Run (Bool × Tasks) → List ℕ
tasks_after (done (m, t)) = t.all_tasks
tasks_after r = []

-- The second task ran as a new one and as a ready one, and the third one is gone.
schedules : tasks_after (schedule rolls_fourth drops_fourth three) ≡ 4 ∷ 2 ∷ 1 ∷ []
unfolding schedule schedule_new new_loop ready_loop schedule_this roll roll_loop enter leave
    collect_garbage collect collect_one destroy new_task tasks_after
schedules = refl

Calls-Goes_example : Goes entered three
Calls-Goes_example = Calls-Goes entered-three entered-Entered.sound
