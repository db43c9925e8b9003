-- ===== src/Scheduler/Schedule.antt =====
-- `Schedule` (SMTask.cc) as a whole.
use lftp.Prelude.{ℕ, ◌≡◌, ◌⊎◌, Bool, true, false}
use lftp.Scheduler.{Tasks, Run, done, ◌>>=◌, listed, is_busy}
use lftp.Scheduler.Sound.{IsSound}

-- The lists stay sound and the stack is as before, and a task that is gone was to be deleted, did not run and was not
-- referred to.
pub record Schedules (s t : Tasks) : Type 0 where
  pub sound : IsSound t
  pub same_current : t.current ≡ s.current
  pub same_stack : t.stack ≡ s.stack
  pub gone :
      (p : ℕ)
      → listed p s.all_tasks ≡ true
      → (listed p t.all_tasks ≡ true)
        ⊎ ((listed p t.deleted_tasks ≡ false)
            × ((t.task p).deleting ≡ true)
            × (is_busy (t.task p) ≡ false))

then_done : Bool → Run (ℕ × Tasks) → Run (Bool × Tasks)
then_done m r = r >>= (λ g. done (m, g.1))
