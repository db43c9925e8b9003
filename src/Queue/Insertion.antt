-- ===== src/Queue/Insertion.antt =====
-- `insert_jobs` (QueueFeeder.cc) puts its jobs before the one it is given, or at the end.
use lftp.Prelude.{
  ℕ, ◌≤◌, ◌≡◌, sym, ap, ◌∙◌, subst, List, [], ◌∷◌, ◌++◌, append-nil, length, arith, ◌==◌,
  if◌then◌else◌,
}
use lftp.Queue.Store.{Store, Ends, set_next, set_prev, link_next, insert_before, insert_jobs}
use lftp.Queue.Linked.{
  head_or, last_or, Absent, Apart, Distinct, Linked, last_or-Absent, Linked-append, set_next-Linked,
  set_prev-Linked, relink_last, relink_first, if_nonzero,
}
use lftp.Prelude.Write.{write_same}
use lftp.Queue.Unlink.{IsList, link_next-other}
use lftp.Queue.Insert.{
  Parts, parts, Parts-Distinct, joined_eq, joined-Linked, joined-out, joined-in, first_is, last_is,
  last_of-last_or,
}

-- The new jobs `p ∷ js` end up between `xs` and `ys`.
module _ (h : Store) (e : Ends) (xs : List ℕ) (p : ℕ) (js : List ℕ) where
  abbrev Out : List ℕ → Store → Type 0
  Out ys a =
      Linked a 0 xs (head_or 0 ys)
      × Linked a (last_or 0 xs) (p ∷ js) (head_or 0 ys)
      × Linked a (last_or 0 xs) ys 0
      × (a.next (last_or p js) ≡ head_or 0 ys)

  abbrev out : ℕ → Store
  out before =
      if before == 0
      then set_next (set_prev h p e.last) (last_or p js) 0
      else set_prev (set_next h (last_or p js) before) p (h.prev before)

  out-Out :
      (ys : List ℕ)
      → IsList h e (xs ++ ys)
      → Linked h 0 (p ∷ js) 0
      → Parts xs (p ∷ js) ys
      → Out ys (out (head_or 0 ys))
  out-Out [] (l, d, f, g) m t =
      let tail = last_or p js in
      let front = (Linked-append h 0 xs [] 0 l).0 in
      let k = set_prev h p e.last in
      (
        set_next-Linked k tail 0 0 xs 0 (last_or-Absent p js xs t.crossed)
            (set_prev-Linked h p e.last 0 xs 0 t.crossed.0 front),
        subst (λ b. Linked (set_next k tail 0) b (p ∷ js) 0) (g ∙ ap (last_or 0) (append-nil xs))
            (relink_last k e.last p js 0 0 t.distinct.1
              (relink_first h 0 p js 0 e.last t.distinct.1 m)),
        tt,
        write_same k.next tail 0,
      )
  out-Out (y ∷ ys) (l, d, f, g) m t =
      let tail = last_or p js in
      let (front, back) = Linked-append h 0 xs (y ∷ ys) 0 l in
      let k = set_next h tail y in
      let a = set_prev k p (h.prev y) in
      let made : Out (y ∷ ys) a = (
        set_prev-Linked k p (h.prev y) 0 xs y t.crossed.0
            (set_next-Linked h tail y 0 xs y (last_or-Absent p js xs t.crossed) front),
        subst (λ b. Linked a b (p ∷ js) y) back.1
            (relink_first k 0 p js y (h.prev y) t.distinct.1
              (relink_last h 0 p js 0 y t.distinct.1 m)),
        set_prev-Linked k p (h.prev y) (last_or 0 xs) (y ∷ ys) 0 t.apart.2.0 (
            set_next-Linked h tail y (last_or 0 xs) (y ∷ ys) 0
              (last_or-Absent p js (y ∷ ys) t.apart.2) back),
        write_same h.next tail y,
      ) in
      subst (Out (y ∷ ys)) (sym (if_nonzero y _ a back.0)) made

  insert_before-IsList :
      (ys : List ℕ)
      → IsList h e (xs ++ ys)
      → Linked h 0 (p ∷ js) 0
      → Parts xs (p ∷ js) ys
      → IsList
          (insert_before h p (last_or p js) e (head_or 0 ys)).0
          (insert_before h p (last_or p js) e (head_or 0 ys)).1
          (xs ++ ((p ∷ js) ++ ys))
  unfolding insert_before
  insert_before-IsList ys l m t =
      let a = out (head_or 0 ys) in
      let (front, new, back, after) = out-Out ys l m t in
      let (_, _, f, g) = l in
      (
        joined-Linked a xs p js ys t front new back after,
        Parts-Distinct xs (p ∷ js) ys t,
        first_is a xs p js ys t e.first _ f (joined-in a xs p js ys t front new back after) front,
        last_is a xs p js ys t e.last _ g (joined-out a xs p js ys t front new back after) back,
      )

  -- `insert_jobs` before the first of `ys`, or at the end where there is none.
  pub insert_jobs-IsList :
      (ys : List ℕ)
      → IsList h e (xs ++ ys)
      → Linked h 0 (p ∷ js) 0
      → Distinct (p ∷ js)
      → Apart (p ∷ js) (xs ++ ys)
      → length js ≤ h.top
      → IsList
          (insert_jobs h p e (head_or 0 ys)).0
          (insert_jobs h p e (head_or 0 ys)).1
          (xs ++ ((p ∷ js) ++ ys))
  unfolding insert_jobs
  insert_jobs-IsList ys l m d k n =
      subst
        (λ tail.
          IsList (insert_before h p tail e (head_or 0 ys)).0
            (insert_before h p tail e (head_or 0 ys)).1 (xs ++ ((p ∷ js) ++ ys)))
        (sym (last_of-last_or h.top h 0 p js n m))
        (insert_before-IsList ys l m (parts xs (p ∷ js) ys l.1 d k))

-- A single job goes to the end of a list: the store is this one, and another list keeps its links.
module _ (h : Store) (e : Ends) (xs : List ℕ) (p : ℕ) where
  abbrev at_end : Store
  at_end = link_next (last_or 0 xs) p (set_next (set_prev h p e.last) p 0)

  insert_jobs-at_end :
      IsList h e xs → Linked h 0 (p ∷ []) 0 → Apart (p ∷ []) xs → (insert_jobs h p e 0).0 ≡ at_end
  unfolding insert_jobs insert_before
  insert_jobs-at_end l m k =
      let l' = subst (IsList h e) (sym (append-nil xs)) l in
      let k' = subst (Apart (p ∷ [])) (sym (append-nil xs)) k in
      let t = parts xs (p ∷ []) [] l'.1 (tt, tt) k' in
      let (front, new, back, after) = out-Out h e xs p [] [] l' m t in
      ap (λ tail. (insert_before h p tail e 0).0) (last_of-last_or h.top h 0 p [] (omega arith) m)
      ∙ joined_eq (set_next (set_prev h p e.last) p 0) xs p [] [] t front new back after

  pub insert_jobs-other :
      (b : ℕ) (zs : List ℕ)
      → IsList h e xs
      → Linked h 0 (p ∷ []) 0
      → Apart (p ∷ []) xs
      → Apart xs zs
      → Absent p zs
      → Linked h b zs 0
      → Linked (insert_jobs h p e 0).0 b zs 0
  insert_jobs-other b zs l m k n o z =
      subst (λ s. Linked s b zs 0) (sym (insert_jobs-at_end l m k))
        (link_next-other (set_next (set_prev h p e.last) p 0) xs zs b 0 p n (
          set_next-Linked (set_prev h p e.last) p 0 b zs 0 o
            (set_prev-Linked h p e.last b zs 0 o z)))
