-- ===== src/Queue/Remove.antt =====
-- `NextCmd` and `DelJob` (QueueFeeder.cc) take one job out of the queue.
use lftp.Prelude.{
  ℕ, ◌<◌, ◌≡◌, ◌≢◌, refl, sym, ap, ◌∙◌, subst, List, [], ◌∷◌, ◌++◌, map, length, length-map, arith,
  drop, Bytes, Option, none, some, codes, ◌==◌, if◌then◌else◌,
}
use lftp.Prelude.Int.{pos}
use lftp.Queue.Store.{Job, Store, Ends, unlink_job, get_job, grab_job, nth_job}
use lftp.Queue.Linked.{head_or, if_nonzero, if_zero, Linked-append}
use lftp.Queue.Unlink.{IsAlone, unlink_job-IsList}
use lftp.Queue.Jobs.{Queue, with_list, next_cmd, change_dir, del_job, no_job, taken}
use lftp.Queue.Represent.{
  Below, IsQueue, Holds, map-append, Below-append, append-Below, get_nth, unlink_job-Keeps,
}
use lftp.Queue.Refine.{length-cons}

-- A job behind `xs` is taken out.
module _ (q : Queue) (xs : List ℕ) (p : ℕ) (ys : List ℕ) (w : IsQueue q (xs ++ p ∷ ys)) where
  abbrev pub without : Queue
  without = with_list q (unlink_job q.store q.ends p)

  pub without-IsQueue : IsQueue without (xs ++ ys)
  without-IsQueue =
      let kept = unlink_job-Keeps q.store q.ends p in
      let (a, (b, c)) = append-Below q.store.top xs (p ∷ ys) w.given in
      let shorter : length (xs ++ ys) < q.store.top =
        omega (arith, subst (λ n. n < q.store.top) (length-cons xs p ys) w.few) in
      record {
        links = (unlink_job-IsList q.store q.ends xs p ys w.links).0;
        given = subst (λ t. Below t (xs ++ ys)) (sym kept.1) (Below-append q.store.top xs ys a c);
        few = subst (λ t. length (xs ++ ys) < t) (sym kept.1) shorter;
      }

  pub without-texts : map without.store.job (xs ++ ys) ≡ map q.store.job xs ++ map q.store.job ys
  without-texts =
      ap (λ f. map f (xs ++ ys)) (unlink_job-Keeps q.store q.ends p).0
      ∙ map-append q.store.job xs ys

  pub job_at : nth_job q.store q.ends.first (length xs) ≡ p
  job_at =
      ap (λ r. nth_job q.store r (length xs)) w.links.2
      ∙ get_nth q.store 0 (length xs) (xs ++ p ∷ ys) w.links.0
      ∙ ap (head_or 0) (drop-length xs)
    where
      drop-length : (zs : List ℕ) → drop (length zs) (zs ++ p ∷ ys) ≡ p ∷ ys
      drop-length [] = refl
      drop-length (z ∷ zs) = drop-length zs

  pub not_null : p ≢ 0
  not_null = (Linked-append q.store 0 xs (p ∷ ys) 0 w.links.0).1.0

  pub grab_job-at : grab_job q.store q.ends (pos (length xs)) ≡ (p, unlink_job q.store q.ends p)
  unfolding grab_job get_job
  grab_job-at =
      ap (λ r. (r, if r == 0 then (q.store, q.ends) else unlink_job q.store q.ends r)) job_at
      ∙ ap (λ r. (p, r)) (if_nonzero p (q.store, q.ends) (unlink_job q.store q.ends p) not_null)

-- A list whose texts are two lists, one behind the other, is two lists.
pub record Split {A B : Type 0} (f : A → B) (xs : List A) (bs cs : List B) : Type 0 where
  pub left : List A
  pub right : List A
  pub whole : xs ≡ left ++ right
  pub left_is : map f left ≡ bs
  pub right_is : map f right ≡ cs

pub split :
    {A B : Type 0} (f : A → B) (xs : List A) (bs cs : List B)
    → map f xs ≡ bs ++ cs
    → Split f xs bs cs
split f xs [] cs e = record { left = []; right = xs; whole = refl; left_is = refl; right_is = e }
split f [] (b ∷ bs) cs e = absurd cc
split f (x ∷ xs) (b ∷ bs) cs e =
    let e1 : f x ≡ b = cc in
    let e2 : map f xs ≡ bs ++ cs = cc in
    let s = split f xs bs cs e2 in
    record {
      left = x ∷ s.left;
      right = s.right;
      whole = ap (λ l. x ∷ l) s.whole;
      left_is = ap (λ b'. b' ∷ map f s.left) e1 ∙ ap (λ l. b ∷ l) s.left_is;
      right_is = s.right_is;
    }

-- Deleting the job at a position leaves the other jobs in their order, and the job on its own.
pub del_job-Holds :
    (q : Queue) (as' : List Job) (j : Job) (bs : List Job)
    → Holds q (as' ++ j ∷ bs)
    → (p : ℕ) × (h : Store) × (q' : Queue) × (del_job q (pos (length as')) ≡ taken p h q')
      × (h.job p ≡ j)
      × IsAlone h p
      × Holds q' (as' ++ bs)
unfolding del_job
del_job-Holds q as' j bs d =
    let s = split q.store.job d.places as' (j ∷ bs) d.texts in
    go s.left s.right (subst (IsQueue q) s.whole d.shape) s.left_is s.right_is
  where
    go :
        (xs zs : List ℕ)
        → IsQueue q (xs ++ zs)
        → map q.store.job xs ≡ as'
        → map q.store.job zs ≡ j ∷ bs
        → (p : ℕ) × (h : Store) × (q' : Queue) × (del_job q (pos (length as')) ≡ taken p h q')
          × (h.job p ≡ j)
          × IsAlone h p
          × Holds q' (as' ++ bs)
    go xs [] w e f = absurd cc
    go xs (p ∷ ys) w e f =
        let h = (unlink_job q.store q.ends p).0 in
        let same_length : length as' ≡ length xs = sym (ap length e) ∙ length-map xs q.store.job in
        let f1 : q.store.job p ≡ j = cc in
        let f2 : map q.store.job ys ≡ bs = cc in
        (
          p,
          h,
          without q xs p ys w,
          ap (λ n. del_job q (pos n)) same_length
              ∙ ap (λ g. if g.0 == 0 then no_job else taken g.0 g.1.0 (with_list q g.1))
                  (grab_job-at q xs p ys w)
              ∙ if_nonzero p no_job (taken p h (without q xs p ys w)) (not_null q xs p ys w),
          ap (λ k. k p) (unlink_job-Keeps q.store q.ends p).0 ∙ f1,
          (unlink_job-IsList q.store q.ends xs p ys w.links).1,
          record {
            places = xs ++ ys;
            shape = without-IsQueue q xs p ys w;
            texts =
                without-texts q xs p ys w
                ∙ ap (λ l. l ++ map q.store.job ys) e
                ∙ ap (λ l. as' ++ l) f2;
          },
        )

-- The text of a job in the directories of the queue, ended by a newline.
abbrev pub job_text : Queue → Job → Bytes
job_text q j =
    change_dir (codes "cd ") q.cur_pwd j.pwd
    ++ change_dir (codes "lcd ") q.cur_lpwd j.lpwd
    ++ j.cmd
    ++ b'\n' ∷ []

abbrev next_of : Queue → ℕ × (Store × Ends) → Option (Bytes × Queue)
next_of q (p, (h, e)) = some (
  job_text q (h.job p),
  record { store = h; ends = e; cur_pwd = (h.job p).pwd; cur_lpwd = (h.job p).lpwd },
)

-- The next command of a queue of the jobs `js`, and the queue it leaves.
abbrev pub Next : Queue → List Job → Type 0
Next q [] = next_cmd q ≡ none
Next q (j ∷ js) =
    (q' : Queue) × (next_cmd q ≡ some (job_text q j, q'))
    × Holds q' js
    × (q'.cur_pwd ≡ j.pwd)
    × (q'.cur_lpwd ≡ j.lpwd)

-- The next command of an empty queue is none. Else it is that of the first job, behind the
-- commands that change to its directories where they are others; the queue keeps the other jobs,
-- and the directories are those of the job.
pub next_cmd-Next : (q : Queue) (js : List Job) → Holds q js → Next q js
unfolding next_cmd grab_job get_job nth_job
next_cmd-Next q js d = go d.places d.shape js d.texts
  where
    go : (xs : List ℕ) → IsQueue q xs → (js' : List Job) → map q.store.job xs ≡ js' → Next q js'
    go [] w [] e = if_zero q.ends.first none _ w.links.2
    go [] w (j ∷ js') e = absurd cc
    go (p ∷ xs) w [] e = absurd cc
    go (p ∷ xs) w (j ∷ js') e =
        let h = (unlink_job q.store q.ends p).0 in
        let e' = (unlink_job q.store q.ends p).1 in
        let q' : Queue = record {
          store = h;
          ends = e';
          cur_pwd = (h.job p).pwd;
          cur_lpwd = (h.job p).lpwd;
        } in
        let is_job : h.job p ≡ j = ap (λ k. k p) (unlink_job-Keeps q.store q.ends p).0 ∙ cc in
        let left = without-IsQueue q [] p xs w in
        let others : map q.store.job xs ≡ js' = cc in
        (
          q',
          if_nonzero q.ends.first none _ (λ z. not_null q [] p xs w (sym w.links.2 ∙ z))
              ∙ ap (next_of q) (grab_job-at q [] p xs w)
              ∙ ap (λ k. some (job_text q k, q')) is_job,
          record {
            places = xs;
            shape = record { links = left.links; given = left.given; few = left.few };
            texts = without-texts q [] p xs w ∙ others;
          },
          ap (λ k. k.pwd) is_job,
          ap (λ k. k.lpwd) is_job,
        )
