-- ===== src/Queue/Jobs.antt =====
-- The operations of `QueueFeeder` (QueueFeeder.cc) on its state: `NextCmd`, `QueueCmd`, `JobCount`,
-- `DelJob` and `MoveJob`. The text that an operation prints is a part of its result.
use lftp.Prelude.{
  ℕ, zero, suc, ◌+◌, Bool, true, false, [], ◌∷◌, ◌++◌, Option, none, some, Bytes, codes, same, ◌==◌,
  ◌||◌, if◌then◌else◌,
}
use lftp.Prelude.Int.{ℤ, pos, negsuc, eq_ℤ, ◌+ℤ◌}
use lftp.Parse.Args.{quoted}
use lftp.Bencode.Decimal.{decimal_ℤ}
use lftp.Queue.Store.{
  Job, Store, Ends, write, insert_jobs, get_job, grab_job, grab_matching, skip_matches,
}
use lftp.Queue.Format.{format_jobs}

pub record Queue : Type 0 where
  pub store : Store
  pub ends : Ends
  pub cur_pwd : Bytes
  pub cur_lpwd : Bytes

-- The text without the newline at its end, if there is one.
unfoldable pub without_newline : Bytes → Bytes
without_newline [] = []
without_newline (c ∷ []) = if c == b'\n' then [] else c ∷ []
without_newline (c ∷ d ∷ s) = c ∷ without_newline (d ∷ s)

-- `new QueueJob` with its texts set.
abbrev pub new_job : Store → Job → Store
new_job h j = record {
  job = write h.job h.top j;
  next = write h.next h.top 0;
  prev = write h.prev h.top 0;
  top = h.top + 1;
}

-- `buffer.append("cd ").append_quoted(dir).append("; ")` where the directory changes.
abbrev pub change_dir : Bytes → Bytes → Bytes → Bytes
change_dir command current dir =
    if same current dir then [] else command ++ quoted dir ++ codes "; "

unfoldable pub next_cmd : Queue → Option (Bytes × Queue)
next_cmd q =
    let (p, (h, e)) = grab_job q.store q.ends (pos 0) in
    let j = h.job p in
    let text =
      change_dir (codes "cd ") q.cur_pwd j.pwd
      ++ change_dir (codes "lcd ") q.cur_lpwd j.lpwd
      ++ j.cmd
      ++ b'\n' ∷ [] in
    if q.ends.first == 0
    then none
    else some (text, record { store = h; ends = e; cur_pwd = j.pwd; cur_lpwd = j.lpwd })

abbrev pub with_list : Queue → Store × Ends → Queue
with_list q (h, e) = record q { store = h; ends = e }

-- The links that `QueueCmd` makes; `-1` is the end.
unfoldable pub queue_job : Queue → Job → ℤ → Queue
queue_job q j n =
    let h = new_job q.store j in
    let before = if eq_ℤ n (negsuc 0) then 0 else get_job h q.ends n in
    with_list q (insert_jobs h q.store.top q.ends before)

-- What `DelJob` or `MoveJob` did: it found no job, an assertion failed, or it took the list with
-- this head out of the queue. The list is printed from the store as it is then; the queue is the
-- one at the end.
pub data Taken : Type 0 where
  no_job aborted : Taken
  taken : ℕ → Store → Queue → Taken

unfoldable pub move_job : Queue → ℤ → ℤ → Taken
move_job q from to =
    let before = if eq_ℤ to (negsuc 0) then 0 else get_job q.store q.ends to in
    let (p, (h, e)) = grab_job q.store q.ends from in
    if eq_ℤ from to
    then no_job
    else if p == 0
    then no_job
    else if p == before
    then aborted
    else taken p h (with_list q (insert_jobs h p e before))

unfoldable pub del_job : Queue → ℤ → Taken
del_job q from =
    let (p, (h, e)) = grab_job q.store q.ends from in
    if p == 0 then no_job else taken p h (with_list q (h, e))

module _ (matches : Bytes → Bytes → Bool) where
  unfoldable pub move_matching : Queue → Bytes → ℤ → Taken
  move_matching q pattern to =
      let start = if eq_ℤ to (negsuc 0) then 0 else get_job q.store q.ends to in
      let before = skip_matches matches q.store.top q.store pattern start in
      let (p, (h, e)) = grab_matching matches q.store q.ends pattern in
      if p == 0 then no_job else taken p h (with_list q (insert_jobs h p e before))

  unfoldable pub del_matching : Queue → Bytes → Taken
  del_matching q pattern =
      let (p, (h, e)) = grab_matching matches q.store q.ends pattern in
      if p == 0 then no_job else taken p h (with_list q (h, e))

-- What the operations print. `plural` gives the text of a message for a number of jobs; `_()` is
-- the identity.
module _ (plural : Bytes → ℕ → Bytes) where
  -- `QueueCmd`. The list that it prints is the new job and all that follow it.
  unfoldable pub queue_cmd : Queue → Bytes → Bytes → Bytes → ℤ → ℕ → Bytes × Queue
  queue_cmd q cmd pwd lpwd n v =
      let j : Job = record { cmd = without_newline cmd; pwd = pwd; lpwd = lpwd } in
      let q' = queue_job q j n in
      (format_jobs plural q'.store q.cur_pwd q.cur_lpwd q.store.top v (codes "Added job$|s$"), q')

  -- What `DelJob` prints, with `v > 0`, where there is no job.
  abbrev pub missing_job : Queue → ℤ → ℕ → Bytes
  missing_job q from zero = []
  missing_job q from (suc v) =
      if eq_ℤ from (negsuc 0) || q.ends.first == 0
      then codes "No queued jobs.\n"
      else codes "No queued job #" ++ decimal_ℤ (from +ℤ pos 1) ++ codes ".\n"

  abbrev pub missing_match : Queue → Bytes → ℕ → Bytes
  missing_match q pattern zero = []
  missing_match q pattern (suc v) =
      if q.ends.first == 0
      then codes "No queued jobs.\n"
      else codes "No queued jobs match \"" ++ pattern ++ codes "\".\n"

  -- The value of `DelJob` or `MoveJob`, what it prints, and the queue; nothing where it aborts.
  unfoldable pub report : Queue → Taken → ℕ → Bytes → Bytes → Option (Bool × (Bytes × Queue))
  report q no_job v plur missing = some (false, (missing, q))
  report q aborted v plur missing = none
  report q (taken p h q') v plur missing =
      some (true, (format_jobs plural h q.cur_pwd q.cur_lpwd p v plur, q'))
