-- ===== src/Scheduler/Methods.antt =====
-- Tasks and what is called on them (SMTask.cc and SMTask.h).
use lftp.Prelude.{
  ℕ, suc, ◌+◌, ◌-◌, Bool, true, false, not, ◌&&◌, ◌||◌, List, [], ◌∷◌, length, ◌==◌, ltb,
  if◌then◌else◌,
}
use lftp.Prelude.Write.{write}
use lftp.Scheduler.Lists.{Run, fault, done, ◌>>=◌, listed, add, add_tail}

pub record Task : Type 0 where
  pub suspended : Bool
  pub suspended_slave : Bool
  pub running : ℕ
  pub ref_count : ℕ
  pub deleting : Bool

-- The static members, and the tasks at their addresses, of which 0 is null and those up to `made` are given out.
pub record Tasks : Type 0 where
  pub task : ℕ → Task
  pub all_tasks : List ℕ
  pub ready_tasks : List ℕ
  pub new_tasks : List ℕ
  pub deleted_tasks : List ℕ
  pub current : ℕ
  pub stack : List ℕ
  pub made : ℕ

abbrev pub set_task : ℕ → Task → Tasks → Tasks
set_task p t s = record s { task = write s.task p t }

abbrev pub fresh_task : Task
fresh_task = record {
  suspended = false;
  suspended_slave = false;
  running = 0;
  ref_count = 0;
  deleting = false;
}

-- The constructor.
unfoldable pub new_task : Tasks → Run Tasks
new_task s = do
  let p = suc s.made
  all ← add p s.all_tasks
  new ← add p s.new_tasks
  done (record (set_task p fresh_task s) { all_tasks = all; new_tasks = new; made = p })

abbrev pub is_suspended : Task → Bool
is_suspended t = t.suspended || t.suspended_slave

abbrev pub resume_internal : ℕ → Tasks → Run Tasks
resume_internal p s =
    if not (listed p s.new_tasks) && not (listed p s.ready_tasks)
    then (do new ← add_tail p s.new_tasks; done (record s { new_tasks = new }))
    else done s

-- `SuspendInternal` of SMTask does nothing; classes with slaves suspend these.
abbrev pub suspend : ℕ → Tasks → Run Tasks
suspend p s =
    if (s.task p).suspended
    then done s
    else done (set_task p (record (s.task p) { suspended = true }) s)

abbrev pub resumed : ℕ → Task → Tasks → Run Tasks
resumed p t s = let s' = set_task p t s in if is_suspended t then done s' else resume_internal p s'

abbrev pub resume : ℕ → Tasks → Run Tasks
resume p s =
    if (s.task p).suspended then resumed p (record (s.task p) { suspended = false }) s else done s

abbrev pub suspend_slave : ℕ → Tasks → Run Tasks
suspend_slave p s =
    if (s.task p).suspended_slave
    then done s
    else done (set_task p (record (s.task p) { suspended_slave = true }) s)

abbrev pub resume_slave : ℕ → Tasks → Run Tasks
resume_slave p s =
    if (s.task p).suspended_slave
    then resumed p (record (s.task p) { suspended_slave = false }) s
    else done s

-- `PrepareToDie` of SMTask does nothing.
abbrev pub delete_later : ℕ → Tasks → Run Tasks
delete_later p s = if (s.task p).deleting then done s else (do
  deleted ← add_tail p s.deleted_tasks
  done (record (set_task p (record (s.task p) { deleting = true }) s) { deleted_tasks = deleted }))

abbrev pub delete : ℕ → Tasks → Run Tasks
delete p s = if p == 0 then done s else delete_later p s

abbrev pub inc_ref_count : ℕ → Tasks → Tasks
inc_ref_count p s = set_task p (record (s.task p) { ref_count = (s.task p).ref_count + 1 }) s

abbrev pub dec_ref_count : ℕ → Tasks → Tasks
dec_ref_count p s =
    if ltb 0 (s.task p).ref_count
    then set_task p (record (s.task p) { ref_count = (s.task p).ref_count - 1 }) s
    else s

abbrev pub make_ref : ℕ → Tasks → Tasks
make_ref p s = if p == 0 then s else inc_ref_count p s

abbrev pub delete_ref : ℕ → Tasks → Run Tasks
delete_ref p s = if p == 0 then done s else delete p (dec_ref_count p s)

abbrev pub set_ref : ℕ → ℕ → Tasks → Run Tasks
set_ref p q s = do s' ← delete_ref p s; done (make_ref q s')

-- `Enter` and `Leave`. The stack holds SMTASK_MAX_DEPTH tasks.
unfoldable pub enter : ℕ → Tasks → Run Tasks
enter p s =
    if ltb (length s.stack) 64
    then done (record (set_task p (record (s.task p) { running = (s.task p).running + 1 }) s) {
      stack = s.current ∷ s.stack;
      current = p;
    })
    else fault

abbrev pub pop_stack : List ℕ → Tasks → Run Tasks
pop_stack [] s = fault
pop_stack (c ∷ rest) s = done (record s { current = c; stack = rest })

unfoldable pub leave : ℕ → Tasks → Run Tasks
leave p s =
    if s.current == p
    then pop_stack s.stack (set_task p (record (s.task p) { running = (s.task p).running - 1 }) s)
    else fault
