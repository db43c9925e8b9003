-- ===== src/Queue/Format.antt =====
-- `JobCount`, `FormatJobs` and `FormatStatus` (QueueFeeder.cc). `plural` stands for the function of
-- that name, and `_()` for the identity.
use lftp.Prelude.{
  ℕ, zero, suc, ◌+◌, Bool, true, ◌&&◌, not, [], ◌∷◌, ◌++◌, Option, none, some, Bytes, codes, same,
  ◌==◌, ltb, if◌then◌else◌,
}
use lftp.Parse.Args.{quoted}
use lftp.Bencode.Decimal.{decimal}
use lftp.Queue.Store.{Store}

-- The loop of `JobCount`.
unfoldable pub job_count : ℕ → Store → ℕ → ℕ
job_count zero h p = 0
job_count (suc fuel) h p = let rest = job_count fuel h (h.next p) in if p == 0 then 0 else suc rest

-- `xstrcmp(a, b) != 0`, where `b` is not null.
abbrev pub differs : Option Bytes → Bytes → Bool
differs none b = true
differs (some a) b = not (same a b)

-- `%2d`
abbrev pub pad2 : ℕ → Bytes
pad2 n = if ltb n 10 then b' ' ∷ decimal n else decimal n

abbrev pub print_requeue : ℕ
print_requeue = 9999

module _ (h : Store) (head : ℕ) where
  -- The loop for `PrintRequeue`: it walks with `j`, and prints the texts of the head.
  unfoldable pub requeue : ℕ → ℕ → Option Bytes → Option Bytes → Bytes
  requeue zero j pwd lpwd = []
  requeue (suc fuel) j pwd lpwd =
      let job = h.job head in
      let line =
        (if differs pwd job.pwd then codes "cd " ++ quoted job.pwd ++ codes " &\n" else [])
        ++ (if differs lpwd job.lpwd then codes "lcd " ++ quoted job.lpwd ++ codes " &\n" else [])
        ++ codes "queue "
        ++ quoted job.cmd
        ++ b'\n' ∷ [] in
      let rest = requeue fuel (h.next j) (some job.pwd) (some job.lpwd) in
      if j == 0 then [] else line ++ rest

  -- The loop for other `v`: the directories are those of the head, the commands those of `j`.
  unfoldable pub list_jobs : ℕ → ℕ → ℕ → Bytes → ℕ → ℕ → Bytes → Bytes → Bytes
  list_jobs zero j v text count n pwd lpwd = []
  list_jobs (suc fuel) j v text count n pwd lpwd =
      let job = h.job head in
      let line =
        (if not (same pwd job.pwd) && ltb 2 v
          then codes "\tcd " ++ quoted job.pwd ++ b'\n' ∷ []
          else [])
        ++ (if not (same lpwd job.lpwd) && ltb 2 v
            then codes "\tlcd " ++ quoted job.lpwd ++ b'\n' ∷ []
            else [])
        ++ (if count == 1 then text ++ codes ": " else b'\t' ∷ (pad2 n ++ codes ". "))
        ++ (h.job j).cmd
        ++ b'\n' ∷ [] in
      let number = if count == 1 then n else n + 1 in
      let rest = list_jobs fuel (h.next j) v text count number job.pwd job.lpwd in
      if j == 0 then [] else line ++ rest

  -- `FormatStatus` behind its heading: `v` below 2 stops behind the fourth of more than five.
  unfoldable pub status_lines : ℕ → ℕ → ℕ → Bytes → ℕ → Bytes → Bytes → Bytes
  status_lines zero j v prefix n pwd lpwd = []
  status_lines (suc fuel) j v prefix n pwd lpwd =
      let job = h.job j in
      let line =
        (if not (ltb v 2) && not (same pwd job.pwd)
          then prefix ++ codes "    cd " ++ job.pwd ++ b'\n' ∷ []
          else [])
        ++ (if not (ltb v 2) && not (same lpwd job.lpwd)
            then prefix ++ codes "    lcd " ++ job.lpwd ++ b'\n' ∷ []
            else [])
        ++ prefix
        ++ pad2 n
        ++ codes ". "
        ++ job.cmd
        ++ b'\n' ∷ [] in
      let rest = status_lines fuel (h.next j) v prefix (n + 1) job.pwd job.lpwd in
      if j == 0
      then []
      else if ltb v 2 && ltb 4 n && not (h.next j == 0)
      then prefix ++ pad2 n ++ codes ". ...\n"
      else line ++ rest

module _ (plural : Bytes → ℕ → Bytes) where
  unfoldable pub format_jobs : Store → Bytes → Bytes → ℕ → ℕ → Bytes → Bytes
  format_jobs h cur_pwd cur_lpwd p v plur =
      let count = job_count h.top h p in
      let text = plural plur count in
      if v == 0
      then []
      else if v == print_requeue
      then requeue h p h.top p none none
      else (if ltb 1 count then text ++ codes ":\n" else [])
        ++ list_jobs h p h.top p v text count 1 cur_pwd cur_lpwd

  unfoldable pub format_status : Store → Bytes → Bytes → ℕ → ℕ → Bytes → Bytes
  format_status h cur_pwd cur_lpwd first v prefix =
      if first == 0
      then []
      else if v == print_requeue
      then format_jobs h cur_pwd cur_lpwd first v []
      else prefix
        ++ codes "Commands queued:\n"
        ++ status_lines h first h.top first v prefix 1 cur_pwd cur_lpwd
