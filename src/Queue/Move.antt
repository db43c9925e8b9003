-- ===== src/Queue/Move.antt =====
-- `MoveJob` (QueueFeeder.cc) takes a job out of the queue and puts it in again.
use lftp.Prelude.{
  ℕ, suc, ◌<◌, ◌≡◌, ◌≢◌, refl, sym, ap, ◌∙◌, subst, false, List, [], ◌∷◌, ◌++◌, map, length, arith,
  drop, ◌==◌, if◌then◌else◌,
}
use lftp.Prelude.Int.{ℤ, pos, negsuc, eq_ℤ}
use lftp.Queue.Store.{Store, Ends, insert_jobs, get_job, grab_job, nth_job}
use lftp.Queue.Linked.{head_or, Absent, if_nonzero, Distinct-append, append-Absent, Apart-cons}
use lftp.Queue.Unlink.{unlink_job-IsList}
use lftp.Queue.Insertion.{insert_jobs-IsList}
use lftp.Queue.Jobs.{Queue, with_list, move_job, Taken, no_job, aborted, taken}
use lftp.Queue.Represent.{
  Below, IsQueue, Holds, map-append, Below-append, append-Below, get_nth, unlink_job-Keeps,
  insert_jobs-Keeps,
}
use lftp.Queue.Refine.{length-cons}
use lftp.Queue.Remove.{without, without-IsQueue, grab_job-at, not_null}

-- The job `p` behind `xs` goes to between `us` and `vs`.
module _ (q : Queue) (xs : List ℕ) (p : ℕ) (ys us vs : List ℕ) (w : IsQueue q (xs ++ p ∷ ys))
    (cut : xs ++ ys ≡ us ++ vs) where
  abbrev left : Queue
  left = without q xs p ys w

  abbrev put : Queue
  put = with_list q (insert_jobs left.store p left.ends (head_or 0 vs))

  outside : Absent p (us ++ vs)
  outside =
      let (_, (m, _), k) = Distinct-append xs (p ∷ ys) w.links.1 in
      subst (Absent p) cut (append-Absent p xs ys (Apart-cons p xs ys k).0 m)

  put-IsQueue : IsQueue put (us ++ p ∷ vs)
  put-IsQueue =
      let h = left.store in
      let n = q.store.top in
      let l : IsQueue left (us ++ vs) = subst (IsQueue left) cut (without-IsQueue q xs p ys w) in
      let alone = (unlink_job-IsList q.store q.ends xs p ys w.links).1 in
      let kept0 = unlink_job-Keeps q.store q.ends p in
      let kept1 = insert_jobs-Keeps h p left.ends (head_or 0 vs) in
      let kept : put.store.top ≡ n = kept1.1 ∙ kept0.1 in
      let given : Below n (us ++ vs) = subst (λ t. Below t (us ++ vs)) kept0.1 l.given in
      let (a, b) = append-Below n us vs given in
      let c = (append-Below n xs (p ∷ ys) w.given).1.0 in
      let size : length (us ++ p ∷ vs) ≡ length (xs ++ p ∷ ys) =
        length-cons us p vs ∙ ap (λ l'. suc (length l')) (sym cut) ∙ sym (length-cons xs p ys) in
      record {
        links =
            insert_jobs-IsList h left.ends us p [] vs l.links
              (not_null q xs p ys w, alone.1, alone.0, tt) (tt, tt) (outside, tt) (omega arith);
        given =
            subst (λ t. Below t (us ++ p ∷ vs)) (sym kept) (Below-append n us (p ∷ vs) a (c, b));
        few =
            subst (λ t. length (us ++ p ∷ vs) < t) (sym kept) (subst (λ t. t < n) (sym size) w.few);
      }

  put-texts :
      map put.store.job (us ++ p ∷ vs) ≡ map q.store.job us ++ q.store.job p ∷ map q.store.job vs
  put-texts =
      let kept0 = unlink_job-Keeps q.store q.ends p in
      let kept1 = insert_jobs-Keeps left.store p left.ends (head_or 0 vs) in
      ap (λ f. map f (us ++ p ∷ vs)) (kept1.0 ∙ kept0.0) ∙ map-append q.store.job us (p ∷ vs)

  not_before : p ≢ head_or 0 vs
  not_before = go vs (subst (λ l. Absent p l) refl (split-Absent us vs outside))
    where
      split-Absent : (a b : List ℕ) → Absent p (a ++ b) → Absent p b
      split-Absent [] b m = m
      split-Absent (x ∷ a) b (n, m) = split-Absent a b m

      go : (l : List ℕ) → Absent p l → p ≢ head_or 0 l
      go [] m = not_null q xs p ys w
      go (x ∷ l) (n, m) = n

  if_other : {A : Type 0} (a b : ℕ) (x y : A) → a ≢ b → (if a == b then x else y) ≡ y
  if_other a b x y n = ground arith

  module _ (to : ℤ) where
    abbrev before : ℕ
    before = if eq_ℤ to (negsuc 0) then 0 else get_job q.store q.ends to

    abbrev take_it : ℕ → ℕ × (Store × Ends) → Taken
    take_it b (r, (h, e)) =
        if r == 0
        then no_job
        else if r == b
        then aborted
        else taken r h (with_list q (insert_jobs h r e b))

    move_job-put :
        eq_ℤ (pos (length xs)) to ≡ false
        → before ≡ head_or 0 vs
        → move_job q (pos (length xs)) to ≡ taken p left.store put
    unfolding move_job
    move_job-put ne is =
        ap (λ b. if b then no_job else take_it before (grab_job q.store q.ends (pos (length xs))))
          ne
        ∙ ap (take_it before) (grab_job-at q xs p ys w)
        ∙ ap (λ b. take_it b (p, (left.store, left.ends))) is
        ∙ if_nonzero p no_job _ (not_null q xs p ys w)
        ∙ if_other p (head_or 0 vs) aborted _ not_before

    -- A move that finds its place.
    pub move_job-at :
        eq_ℤ (pos (length xs)) to ≡ false
        → before ≡ head_or 0 vs
        → (h : Store) × (q' : Queue) × (move_job q (pos (length xs)) to ≡ taken p h q')
          × Holds q' (map q.store.job us ++ q.store.job p ∷ map q.store.job vs)
    move_job-at ne is = (
      left.store,
      put,
      move_job-put ne is,
      record { places = us ++ p ∷ vs; shape = put-IsQueue; texts = put-texts },
    )

pub drop-length : (xs ys : List ℕ) → drop (length xs) (xs ++ ys) ≡ ys
drop-length [] ys = refl
drop-length (x ∷ xs) ys = drop-length xs ys

-- The job at the position behind `us` is the first of the others.
pub place :
    (q : Queue) (us vs : List ℕ)
    → IsQueue q (us ++ vs)
    → get_job q.store q.ends (pos (length us)) ≡ head_or 0 vs
unfolding get_job
place q us vs w =
    ap (λ r. nth_job q.store r (length us)) w.links.2
    ∙ get_nth q.store 0 (length us) (us ++ vs) w.links.0
    ∙ ap (head_or 0) (drop-length us vs)
