-- ===== src/Queue/Moves.antt =====
-- The moves of `MoveJob` (QueueFeeder.cc) on the list of jobs.
use lftp.Prelude.{
  ℕ, suc, ◌+◌, ◌≡◌, ◌≢◌, refl, sym, ap, ◌∙◌, subst, false, List, [], ◌∷◌, ◌++◌, append-nil,
  append_assoc, map, length, length-map, length-append, arith,
}
use lftp.Prelude.Int.{ℤ, pos, negsuc, eq_ℤ}
use lftp.Queue.Store.{Job, Store, get_job}
use lftp.Queue.Jobs.{Queue, move_job, taken}
use lftp.Queue.Represent.{IsQueue, Holds, map-append}
use lftp.Queue.Remove.{split}
use lftp.Queue.Move.{move_job-at, place}

-- The result of moving a job: it was taken, and the queue holds `js`.
abbrev pub MovesTo : Queue → ℤ → ℤ → List Job → Type 0
MovesTo q from to js =
    (p : ℕ) × (h : Store) × (q' : Queue) × (move_job q from to ≡ taken p h q') × Holds q' js

-- Moving the job at a position to the end (position -1) puts it behind the others, which keep
-- their order.
pub move_job-last :
    (q : Queue) (as' : List Job) (j : Job) (bs : List Job)
    → Holds q (as' ++ j ∷ bs)
    → MovesTo q (pos (length as')) (negsuc 0) (as' ++ bs ++ j ∷ [])
move_job-last q as' j bs d =
    let s = split q.store.job d.places as' (j ∷ bs) d.texts in
    go s.left s.right (subst (IsQueue q) s.whole d.shape) s.left_is s.right_is
  where
    go :
        (xs zs : List ℕ)
        → IsQueue q (xs ++ zs)
        → map q.store.job xs ≡ as'
        → map q.store.job zs ≡ j ∷ bs
        → MovesTo q (pos (length as')) (negsuc 0) (as' ++ bs ++ j ∷ [])
    go xs [] w e f = absurd cc
    go xs (p ∷ ys) w e f =
        let same_length : length xs ≡ length as' = sym (length-map xs q.store.job) ∙ ap length e in
        let f1 : q.store.job p ≡ j = cc in
        let f2 : map q.store.job ys ≡ bs = cc in
        let (h, q', m, held) =
          move_job-at q xs p ys (xs ++ ys) [] w (sym (append-nil (xs ++ ys))) (negsuc 0) refl
            refl in
        (
          p,
          h,
          q',
          ap (λ n. move_job q (pos n) (negsuc 0)) (sym same_length) ∙ m,
          subst (Holds q')
              (ap (λ l. l ++ q.store.job p ∷ []) (map-append q.store.job xs ys)
                ∙ ap (λ l. (l ++ map q.store.job ys) ++ q.store.job p ∷ []) e
                ∙ ap (λ l. (as' ++ l) ++ q.store.job p ∷ []) f2
                ∙ ap (λ k. (as' ++ bs) ++ k ∷ []) f1)
              held,
        )

before_at : (m n : ℕ) → m ≢ n → eq_ℤ (pos m) (pos n) ≡ false
before_at m n h = ground arith

texts_moved :
    (f : ℕ → Job) (xs : List ℕ) (p : ℕ) (us : List ℕ) (as' : List Job) (j : Job) (bs : List Job)
    → map f xs ≡ as'
    → f p ≡ j
    → map f us ≡ bs
    → map f xs ++ f p ∷ map f us ≡ as' ++ j ∷ bs
texts_moved f xs p us as' j bs a b c = cc

-- Moving a job to a later position, at most the number of jobs, puts it before the job that is there, and at the
-- end where the position is the number of jobs; the others keep their order.
pub move_job-later :
    (q : Queue) (as' : List Job) (j : Job) (bs cs : List Job)
    → Holds q (as' ++ j ∷ (bs ++ cs))
    → MovesTo q (pos (length as')) (pos (length as' + suc (length bs))) ((as' ++ bs) ++ j ∷ cs)
move_job-later q as' j bs cs d =
    let s = split q.store.job d.places as' (j ∷ (bs ++ cs)) d.texts in
    go s.left s.right (subst (IsQueue q) s.whole d.shape) s.left_is s.right_is
  where
    go :
        (xs zs : List ℕ)
        → IsQueue q (xs ++ zs)
        → map q.store.job xs ≡ as'
        → map q.store.job zs ≡ j ∷ (bs ++ cs)
        → MovesTo q (pos (length as')) (pos (length as' + suc (length bs))) ((as' ++ bs) ++ j ∷ cs)
    go xs [] w e f = absurd cc
    go xs (p ∷ ys) w e f =
        let f1 : q.store.job p ≡ j = cc in
        let f2 : map q.store.job ys ≡ bs ++ cs = cc in
        let s = split q.store.job ys bs cs f2 in
        let us = s.left in
        let vs = s.right in
        let n1 : length xs ≡ length as' = sym (length-map xs q.store.job) ∙ ap length e in
        let n2 : length us ≡ length bs = sym (length-map us q.store.job) ∙ ap length s.left_is in
        let to = length as' + suc (length bs) in
        let to_eq : length (xs ++ p ∷ us) ≡ to = length-append xs (p ∷ us) ∙ omega arith in
        let whole : xs ++ p ∷ ys ≡ (xs ++ p ∷ us) ++ vs =
          ap (λ l. xs ++ p ∷ l) s.whole ∙ sym (append_assoc xs (p ∷ us) vs) in
        let there = place q (xs ++ p ∷ us) vs (subst (IsQueue q) whole w) in
        let (h, q', m, held) =
          move_job-at q xs p ys (xs ++ us) vs w
            (ap (λ l. xs ++ l) s.whole ∙ sym (append_assoc xs us vs)) (pos to)
            (before_at (length xs) to (omega arith))
            (ap (λ n. get_job q.store q.ends (pos n)) (sym to_eq) ∙ there) in
        (
          p,
          h,
          q',
          ap (λ n. move_job q (pos n) (pos to)) (sym n1) ∙ m,
          subst (Holds q')
              (texts_moved q.store.job (xs ++ us) p vs (as' ++ bs) j cs
                (map-append q.store.job xs us
                  ∙ ap (λ l. l ++ map q.store.job us) e
                  ∙ ap (λ l. as' ++ l) s.left_is)
                f1 s.right_is)
              held,
        )

-- Moving a job to an earlier position puts it before the job that is there; the others keep
-- their order.
pub move_job-earlier :
    (q : Queue) (as' bs : List Job) (j : Job) (cs : List Job)
    → Holds q ((as' ++ bs) ++ j ∷ cs)
    → bs ≢ []
    → MovesTo q (pos (length as' + length bs)) (pos (length as')) (as' ++ j ∷ (bs ++ cs))
move_job-earlier q as' bs j cs d ne =
    let s = split q.store.job d.places (as' ++ bs) (j ∷ cs) d.texts in
    let s' = split q.store.job s.left as' bs s.left_is in
    go s'.left s'.right s.right
      (subst (IsQueue q) (s.whole ∙ ap (λ l. l ++ s.right) s'.whole) d.shape) s'.left_is s'.right_is
      s.right_is
  where
    go :
        (xs us zs : List ℕ)
        → IsQueue q ((xs ++ us) ++ zs)
        → map q.store.job xs ≡ as'
        → map q.store.job us ≡ bs
        → map q.store.job zs ≡ j ∷ cs
        → MovesTo q (pos (length as' + length bs)) (pos (length as')) (as' ++ j ∷ (bs ++ cs))
    go xs us [] w e e' f = absurd cc
    go xs [] (p ∷ vs) w e e' f = absurd (ne (sym e'))
    go xs (u ∷ us) (p ∷ vs) w e e' f =
        let f1 : q.store.job p ≡ j = cc in
        let f2 : map q.store.job vs ≡ cs = cc in
        let n1 : length xs ≡ length as' = sym (length-map xs q.store.job) ∙ ap length e in
        let n2 : suc (length us) ≡ length bs =
          sym (length-map (u ∷ us) q.store.job) ∙ ap length e' in
        let from_eq : length (xs ++ u ∷ us) ≡ length as' + length bs =
          length-append xs (u ∷ us) ∙ omega arith in
        let there =
          place q xs ((u ∷ us) ++ p ∷ vs)
            (subst (IsQueue q) (append_assoc xs (u ∷ us) (p ∷ vs)) w) in
        let (h, q', m, held) =
          move_job-at q (xs ++ u ∷ us) p vs xs ((u ∷ us) ++ vs) w (append_assoc xs (u ∷ us) vs)
            (pos (length as')) (before_at (length (xs ++ u ∷ us)) (length as') (omega arith))
            (ap (λ n. get_job q.store q.ends (pos n)) (sym n1) ∙ there) in
        (
          p,
          h,
          q',
          ap (λ n. move_job q (pos n) (pos (length as'))) (sym from_eq) ∙ m,
          subst (Holds q')
              (texts_moved q.store.job xs p ((u ∷ us) ++ vs) as' j (bs ++ cs) e f1 (
                map-append q.store.job (u ∷ us) vs
                ∙ ap (λ l. l ++ map q.store.job vs) e'
                ∙ ap (λ l. bs ++ l) f2))
              held,
        )
