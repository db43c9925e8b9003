-- ===== src/Queue/Tests.antt =====
-- The theorems on the command queue at a queue of three jobs.
use lftp.Prelude.{
  ℕ, ◌≡◌, refl, List, [], ◌∷◌, arith, Bytes, codes, same, none, ◌++◌, ◌==◌, if◌then◌else◌,
}
use lftp.Prelude.Int.{pos, negsuc}
use lftp.Queue.Store.{Job, Store}
use lftp.Queue.Unlink.{IsAlone}
use lftp.Queue.Jobs.{Queue, queue_job, del_job, taken}
use lftp.Queue.Represent.{Holds}
use lftp.Queue.Refine.{queue_job-Holds}
use lftp.Queue.Remove.{del_job-Holds, Next, next_cmd-Next}
use lftp.Queue.Deleting.{Deletes, del_matching-Deletes}
use lftp.Queue.Format.{requeue}
use lftp.Queue.Requeue.{queue_line, cd_lines, times, requeue-first}
use lftp.Queue.Moves.{MovesTo, move_job-later}

abbrev job : Bytes → Job
job s = record { cmd = s; pwd = codes "/pub"; lpwd = codes "/tmp" }

abbrev get_a : Job
get_a = job (codes "get a")

abbrev get_b : Job
get_b = job (codes "get b")

abbrev get_c : Job
get_c = job (codes "get c")

abbrev no_jobs : Queue
no_jobs = record {
  store = record { job = λ p. job []; next = λ p. 0; prev = λ p. 0; top = 1 };
  ends = record { first = 0; last = 0 };
  cur_pwd = codes "/";
  cur_lpwd = codes "/tmp";
}

no_jobs-Holds : Holds no_jobs []
no_jobs-Holds = record {
  places = [];
  shape = record { links = (tt, tt, refl, refl); given = tt; few = omega arith };
  texts = refl;
}

abbrev two_jobs : Queue
two_jobs = queue_job (queue_job no_jobs get_a (negsuc 0)) get_c (negsuc 0)

two_jobs-Holds : Holds two_jobs (get_a ∷ get_c ∷ [])
two_jobs-Holds =
    queue_job-Holds (queue_job no_jobs get_a (negsuc 0)) get_c (negsuc 0) (get_a ∷ [])
      (queue_job-Holds no_jobs get_a (negsuc 0) [] no_jobs-Holds)

abbrev three_jobs : Queue
three_jobs = queue_job two_jobs get_b (pos 1)

abbrev three : List Job
three = get_a ∷ get_b ∷ get_c ∷ []

three_jobs-Holds : Holds three_jobs three
three_jobs-Holds = queue_job-Holds two_jobs get_b (pos 1) (get_a ∷ get_c ∷ []) two_jobs-Holds

queue_job-Holds_example : Holds (queue_job two_jobs get_b (pos 1)) three
queue_job-Holds_example = queue_job-Holds two_jobs get_b (pos 1) (get_a ∷ get_c ∷ []) two_jobs-Holds

del_job-Holds_example :
    (p : ℕ) × (h : Store) × (q' : Queue) × (del_job three_jobs (pos 1) ≡ taken p h q')
    × (h.job p ≡ get_b)
    × IsAlone h p
    × Holds q' (get_a ∷ get_c ∷ [])
del_job-Holds_example = del_job-Holds three_jobs (get_a ∷ []) get_b (get_c ∷ []) three_jobs-Holds

next_cmd-Next_example : Next three_jobs three
next_cmd-Next_example = next_cmd-Next three_jobs three three_jobs-Holds

move_job-later_example : MovesTo three_jobs (pos 0) (pos 2) (get_b ∷ get_a ∷ get_c ∷ [])
move_job-later_example =
    move_job-later three_jobs [] get_a (get_b ∷ []) (get_c ∷ []) three_jobs-Holds

del_matching-Deletes_example :
    Deletes same (codes "get b") three_jobs (get_a ∷ get_c ∷ []) (get_b ∷ [])
unfolding same
del_matching-Deletes_example =
    del_matching-Deletes same (codes "get b") three_jobs three three_jobs-Holds

-- Two jobs, at the addresses 1 and 2.
abbrev pair_store : Store
pair_store = record {
  job = λ p. if p == 1 then get_a else get_b;
  next = λ p. if p == 1 then 2 else 0;
  prev = λ p. if p == 2 then 1 else 0;
  top = 3;
}

requeue-first_example :
    requeue pair_store 1 3 1 none none ≡ cd_lines get_a ++ times 2 (queue_line get_a)
requeue-first_example =
    requeue-first pair_store 1 3 (2 ∷ []) (omega arith, refl, refl, (omega arith, refl, refl, tt))
      (omega arith)
