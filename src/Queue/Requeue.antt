-- ===== src/Queue/Requeue.antt =====
-- The text of `FormatJobs` for `PrintRequeue` (QueueFeeder.cc).
use lftp.Prelude.{
  ℕ, zero, suc, ◌≤◌, ◌≡◌, refl, ap, ◌∙◌, not, Bool, true, List, [], ◌∷◌, ◌++◌, none, some, Bytes,
  codes, same, same_refl, append_assoc, if◌then◌else◌, arith, length,
}
use lftp.Parse.Args.{quoted}
use lftp.Queue.Store.{Job, Store}
use lftp.Queue.Linked.{head_or, Linked, if_nonzero}
use lftp.Queue.Format.{requeue}

abbrev pub queue_line : Job → Bytes
queue_line j = codes "queue " ++ quoted j.cmd ++ b'\n' ∷ []

-- The commands that change to the directories of a job.
abbrev pub cd_lines : Job → Bytes
cd_lines j =
    (codes "cd " ++ quoted j.pwd ++ codes " &\n") ++ (codes "lcd " ++ quoted j.lpwd ++ codes " &\n")

unfoldable pub times : ℕ → Bytes → Bytes
times zero s = []
times (suc n) s = s ++ times n s

module _ (h : Store) (first : ℕ) where
  requeue-times :
      (fuel b : ℕ) (xs : List ℕ)
      → Linked h b xs 0
      → length xs ≤ fuel
      → requeue h first fuel (head_or 0 xs) (some (h.job first).pwd) (some (h.job first).lpwd)
        ≡ times (length xs) (queue_line (h.job first))
  unfolding requeue times
  requeue-times zero b [] l n = refl
  requeue-times (suc fuel) b [] l n = refl
  requeue-times zero b (x ∷ xs) l n = absurd (omega arith)
  requeue-times (suc fuel) b (x ∷ xs) (z, u, w, l) n =
      let j = h.job first in
      let rest = requeue h first fuel (h.next x) (some j.pwd) (some j.lpwd) in
      let line : Bool → Bool → Bytes = λ o o'.
        (if not o then codes "cd " ++ quoted j.pwd ++ codes " &\n" else [])
        ++ (if not o' then codes "lcd " ++ quoted j.lpwd ++ codes " &\n" else [])
        ++ codes "queue "
        ++ quoted j.cmd
        ++ b'\n' ∷ [] in
      if_nonzero x [] (line (same j.pwd j.pwd) (same j.lpwd j.lpwd) ++ rest) z
      ∙ ap (λ o. line o (same j.lpwd j.lpwd) ++ rest) (same_refl j.pwd)
      ∙ ap (λ o. line true o ++ rest) (same_refl j.lpwd)
      ∙ ap (λ q. queue_line j ++ requeue h first fuel q (some j.pwd) (some j.lpwd)) w
      ∙ ap (λ t. queue_line j ++ t) (requeue-times fuel x xs l (omega arith))

  -- The requeue text of a list of jobs changes to the directories of the first one, and then has the
  -- command of that one as many times as there are jobs: the other commands are not in it.
  pub requeue-first :
      (fuel : ℕ) (xs : List ℕ)
      → Linked h 0 (first ∷ xs) 0
      → length (first ∷ xs) ≤ fuel
      → requeue h first fuel first none none
        ≡ cd_lines (h.job first) ++ times (length (first ∷ xs)) (queue_line (h.job first))
  unfolding requeue times
  requeue-first zero xs l n = absurd (omega arith)
  requeue-first (suc fuel) xs (z, u, w, l) n =
      let j = h.job first in
      let rest = requeue h first fuel (h.next first) (some j.pwd) (some j.lpwd) in
      let front = cd_lines j in
      if_nonzero first [] ((front ++ codes "queue " ++ quoted j.cmd ++ b'\n' ∷ []) ++ rest) z
      ∙ ap (λ t. (t ++ b'\n' ∷ []) ++ rest) (append_assoc front (codes "queue ") (quoted j.cmd))
      ∙ ap (λ t. t ++ rest) (append_assoc front (codes "queue " ++ quoted j.cmd) (b'\n' ∷ []))
      ∙ append_assoc front (queue_line j) rest
      ∙ ap (λ q. front ++ (queue_line j ++ requeue h first fuel q (some j.pwd) (some j.lpwd))) w
      ∙ ap (λ t. front ++ (queue_line j ++ t)) (requeue-times fuel first xs l (omega arith))
