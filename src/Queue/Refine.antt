-- ===== src/Queue/Refine.antt =====
-- What `QueueCmd`, `NextCmd`, `DelJob` and `MoveJob` (QueueFeeder.cc) do to the list of jobs.
use lftp.Prelude.{
  ℕ, zero, suc, ◌+◌, ◌<◌, ◌≡◌, refl, sym, ap, ◌∙◌, subst, List, [], ◌∷◌, ◌++◌, append-nil, map,
  length, arith, take, drop, take-append-drop,
}
use lftp.Prelude.Int.{ℤ, pos, negsuc}
use lftp.Queue.Store.{Job, insert_jobs, get_job, nth_job}
use lftp.Queue.Linked.{head_or, if_nonzero}
use lftp.Prelude.Write.{write_same}
use lftp.Queue.Unlink.{IsList}
use lftp.Queue.Insertion.{insert_jobs-IsList}
use lftp.Queue.Jobs.{Queue, new_job, with_list, queue_job}
use lftp.Queue.Represent.{
  Below, IsQueue, Holds, map-append, map-take, map-drop, Below-append, append-Below, Below-Absent,
  Below-suc, get_nth, insert_jobs-Keeps, new_job-Linked, write-map,
}

pub length-cons :
    (xs : List ℕ) (p : ℕ) (ys : List ℕ) → length (xs ++ p ∷ ys) ≡ suc (length (xs ++ ys))
length-cons [] p ys = refl
length-cons (x ∷ xs) p ys = ap suc (length-cons xs p ys)

-- A new job before the first of `ys`, or at the end where there is none.
module _ (q : Queue) (j : Job) (xs ys : List ℕ) (w : IsQueue q (xs ++ ys)) where
  abbrev made : Queue
  made = with_list q (insert_jobs (new_job q.store j) q.store.top q.ends (head_or 0 ys))

  made-IsQueue : IsQueue made (xs ++ q.store.top ∷ ys)
  made-IsQueue =
      let n = q.store.top in
      let h = new_job q.store j in
      let m = Below-Absent n (xs ++ ys) w.given in
      let l : IsList h q.ends (xs ++ ys) =
        (new_job-Linked q.store j (xs ++ ys) w.given w.links.0, w.links.1, w.links.2, w.links.3) in
      let kept = insert_jobs-Keeps h n q.ends (head_or 0 ys) in
      let (a, b) = append-Below n xs ys w.given in
      let positive = w.few in
      record {
        links =
            insert_jobs-IsList h q.ends xs n [] ys l
              (omega arith, write_same q.store.prev n 0, write_same q.store.next n 0, tt) (tt, tt)
              (m, tt) (omega arith);
        given =
            subst (λ t. Below t (xs ++ n ∷ ys)) (sym kept.1)
              (Below-append (n + 1) xs (n ∷ ys) (Below-suc n xs a) (omega arith, Below-suc n ys b));
        few =
            subst (λ t. length (xs ++ n ∷ ys) < t) (sym kept.1)
              (subst (λ t. t < n + 1) (sym (length-cons xs n ys)) (omega arith));
      }

  made-texts :
      map made.store.job (xs ++ q.store.top ∷ ys) ≡ map q.store.job xs ++ j ∷ map q.store.job ys
  made-texts =
      let n = q.store.top in
      let h = new_job q.store j in
      let (a, b) = append-Below n xs ys w.given in
      ap (λ f. map f (xs ++ n ∷ ys)) (insert_jobs-Keeps h n q.ends (head_or 0 ys)).0
      ∙ map-append h.job xs (n ∷ ys)
      ∙ ap (λ l. l ++ map h.job (n ∷ ys)) (write-map q.store.job n j xs (Below-Absent n xs a))
      ∙ ap (λ l. map q.store.job xs ++ h.job n ∷ l)
          (write-map q.store.job n j ys (Below-Absent n ys b))
      ∙ ap (λ y. map q.store.job xs ++ y ∷ map q.store.job ys) (write_same q.store.job n j)

-- The jobs with a new one before that at a position; a position past the end, or a negative one,
-- is the end.
abbrev pub inserted : {A : Type 0} → ℤ → A → List A → List A
inserted (pos n) j js = take n js ++ j ∷ drop n js
inserted (negsuc n) j js = js ++ j ∷ []

queue_end :
    (q : Queue) (j : Job) (xs : List ℕ) (w : IsQueue q xs)
    → Holds
        (with_list q (insert_jobs (new_job q.store j) q.store.top q.ends 0))
        (map q.store.job xs ++ j ∷ [])
queue_end q j xs w =
    let w' : IsQueue q (xs ++ []) = subst (IsQueue q) (sym (append-nil xs)) w in
    record {
      places = xs ++ q.store.top ∷ [];
      shape = made-IsQueue q j xs [] w';
      texts = made-texts q j xs [] w';
    }

queue_inside :
    (q : Queue) (j : Job) (n : ℕ) (xs : List ℕ) (w : IsQueue q xs)
    → Holds
        (with_list q (insert_jobs (new_job q.store j) q.store.top q.ends (head_or 0 (drop n xs))))
        (take n (map q.store.job xs) ++ j ∷ drop n (map q.store.job xs))
queue_inside q j n xs w =
    let w' : IsQueue q (take n xs ++ drop n xs) =
      subst (IsQueue q) (sym (take-append-drop n xs)) w in
    record {
      places = take n xs ++ q.store.top ∷ drop n xs;
      shape = made-IsQueue q j (take n xs) (drop n xs) w';
      texts =
          made-texts q j (take n xs) (drop n xs) w'
          ∙ ap (λ l. l ++ j ∷ map q.store.job (drop n xs)) (map-take q.store.job n xs)
          ∙ ap (λ l. take n (map q.store.job xs) ++ j ∷ l) (map-drop q.store.job n xs);
    }

nth_new :
    (q : Queue) (j : Job) (xs : List ℕ) (w : IsQueue q xs) (n : ℕ)
    → nth_job (new_job q.store j) q.ends.first n ≡ head_or 0 (drop n xs)
nth_new q j xs w n =
    ap (λ p. nth_job (new_job q.store j) p n) w.links.2
    ∙ get_nth (new_job q.store j) 0 n xs (new_job-Linked q.store j xs w.given w.links.0)

-- Queueing a job puts it before the job at the given position, and at the end of the queue where
-- the position is negative or there is no job at it; the other jobs keep their order.
pub queue_job-Holds :
    (q : Queue) (j : Job) (n : ℤ) (js : List Job)
    → Holds q js
    → Holds (queue_job q j n) (inserted n j js)
unfolding queue_job get_job
queue_job-Holds q j (pos n) js d =
    subst (λ l. Holds (queue_job q j (pos n)) (take n l ++ j ∷ drop n l)) d.texts
      (subst
        (λ p.
          Holds (with_list q (insert_jobs (new_job q.store j) q.store.top q.ends p))
            (take n (map q.store.job d.places) ++ j ∷ drop n (map q.store.job d.places)))
        (sym (nth_new q j d.places d.shape n)) (queue_inside q j n d.places d.shape))
queue_job-Holds q j (negsuc zero) js d =
    subst (λ l. Holds (queue_job q j (negsuc zero)) (l ++ j ∷ [])) d.texts
      (queue_end q j d.places d.shape)
queue_job-Holds q j (negsuc (suc n)) js d =
    subst (λ l. Holds (queue_job q j (negsuc (suc n))) (l ++ j ∷ [])) d.texts
      (subst
        (λ p.
          Holds (with_list q (insert_jobs (new_job q.store j) q.store.top q.ends p))
            (map q.store.job d.places ++ j ∷ []))
        (sym (if_nonzero (suc n) 0 0 (omega arith))) (queue_end q j d.places d.shape))
