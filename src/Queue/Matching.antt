-- ===== src/Queue/Matching.antt =====
-- `grab_job` and `DelJob` by a pattern (QueueFeeder.cc) split the list of jobs.
use lftp.Prelude.{
  ℕ, zero, suc, ◌+◌, ◌≤◌, ◌<◌, ◌≡◌, refl, sym, ap, ◌∙◌, subst, Bool, true, false, List, [], ◌∷◌,
  ◌++◌, append-nil, append_assoc, length, length-append, arith, ◌==◌, if◌then◌else◌, ◌⊎◌, inl, inr,
  Bytes,
}
use lftp.Queue.Store.{Job, Store, Ends, unlink_job, insert_jobs, get_next_match, grab_matches}
use lftp.Queue.Linked.{
  head_or, last_or, Absent, Apart, Linked, if_nonzero, append-Absent, Apart-cons, Linked-append,
}
use lftp.Queue.Unlink.{IsList, unlink_job-IsList, unlink_job-other, IsList-Around}
use lftp.Queue.Insert.{Apart-append, append-Apart, Apart-sym}
use lftp.Queue.Insertion.{insert_jobs-IsList, insert_jobs-other}
use lftp.Queue.Represent.{unlink_job-Keeps, insert_jobs-Keeps}

-- The members that pass a test, and those that do not.
abbrev pub filter {ℓ} : {A : Type ℓ} → (A → Bool) → List A → List A
filter f [] = []
filter f (x ∷ xs) = let rest = filter f xs in if f x then x ∷ rest else rest

abbrev pub others {ℓ} : {A : Type ℓ} → (A → Bool) → List A → List A
others f [] = []
others f (x ∷ xs) = let rest = others f xs in if f x then rest else x ∷ rest

Apart-snoc :
    (xs : List ℕ) (y : ℕ) (zs : List ℕ) → Apart xs zs → Absent y zs → Apart (xs ++ y ∷ []) zs
Apart-snoc [] y zs a b = (b, tt)
Apart-snoc (x ∷ xs) y zs (n, a) b = (n, Apart-snoc xs y zs a b)

module _ (matches : Bytes → Bytes → Bool) (pattern : Bytes) (text : ℕ → Job) where
  abbrev pub test : ℕ → Bool
  test x = matches pattern (text x).cmd

  -- Where the search from a place in the list ends.
  abbrev pub First : ℕ → Store → List ℕ → Type 0
  First fuel h rest =
      ((get_next_match matches fuel h pattern (head_or 0 rest) ≡ 0)
        × (filter test rest ≡ [])
        × (others test rest ≡ rest))
      ⊎ ((ws : List ℕ) × (x : ℕ) × (bs : List ℕ) × (get_next_match matches fuel h pattern
              (head_or 0 rest)
            ≡ x)
          × (rest ≡ ws ++ x ∷ bs)
          × (filter test rest ≡ x ∷ filter test bs)
          × (others test rest ≡ ws ++ others test bs))

  next_match-First :
      (fuel : ℕ) (h : Store) (b : ℕ) (rest : List ℕ)
      → Linked h b rest 0
      → length rest ≤ fuel
      → h.job ≡ text
      → First fuel h rest
  unfolding get_next_match
  next_match-First zero h b [] l n e = inl (refl, refl, refl)
  next_match-First (suc fuel) h b [] l n e = inl (refl, refl, refl)
  next_match-First zero h b (x ∷ xs) l n e = absurd (omega arith)
  next_match-First (suc fuel) h b (x ∷ xs) (z, u, w, l) n e =
      go (next_match-First fuel h x xs l (omega arith) e) (test x) refl
    where
      F : ℕ → Bool → ℕ
      F r o = if o then x else get_next_match matches fuel h pattern r

      found :
          (o : Bool)
          → test x ≡ o
          → get_next_match matches (suc fuel) h pattern x ≡ F (head_or 0 xs) o
      found o t =
          if_nonzero x 0 (F (h.next x) (matches pattern (h.job x).cmd)) z
          ∙ ap (λ f. F (h.next x) (matches pattern (f x).cmd)) e
          ∙ ap (λ r. F r (test x)) w
          ∙ ap (F (head_or 0 xs)) t

      go : First fuel h xs → (o : Bool) → test x ≡ o → First (suc fuel) h (x ∷ xs)
      go r true t = inr (
        [],
        x,
        xs,
        found true t,
        refl,
        ap (λ o. if o then x ∷ filter test xs else filter test xs) t,
        ap (λ o. if o then others test xs else x ∷ others test xs) t,
      )
      go (inl (a, b', c)) false t = inl (
        found false t ∙ a,
        ap (λ o. if o then x ∷ filter test xs else filter test xs) t ∙ b',
        ap (λ o. if o then others test xs else x ∷ others test xs) t ∙ ap (λ m. x ∷ m) c,
      )
      go (inr (ws, y, bs, a, b', c, d)) false t = inr (
        x ∷ ws,
        y,
        bs,
        found false t ∙ a,
        ap (λ m. x ∷ m) b',
        ap (λ o. if o then x ∷ filter test xs else filter test xs) t ∙ c,
        ap (λ o. if o then others test xs else x ∷ others test xs) t ∙ ap (λ m. x ∷ m) d,
      )

  -- The end of the loop of `grab_job` from a place in the list.
  abbrev pub Grabs : ℕ → Store → Ends → Ends → List ℕ → List ℕ → List ℕ → Type 0
  Grabs fuel h e g done rest gs =
      (k : Store) × (e' : Ends) × (grab_matches matches fuel pattern (head_or 0 rest) h e g
        ≡ (head_or 0 (gs ++ filter test rest), (k, e')))
      × IsList k e' (done ++ others test rest)
      × Linked k 0 (gs ++ filter test rest) 0
      × (k.job ≡ h.job)
      × (k.top ≡ h.top)

  -- The loop ends as it should, with this fuel.
  abbrev pub Loops : ℕ → Type 0
  Loops fuel =
      (h : Store) (e g : Ends) (done rest gs : List ℕ)
      → IsList h e (done ++ rest)
      → IsList h g gs
      → Apart gs (done ++ rest)
      → h.job ≡ text
      → length rest < fuel
      → length rest ≤ h.top
      → Grabs fuel h e g done rest gs

  grab_matches-suc : (fuel : ℕ) → Loops fuel → Loops (suc fuel)
  unfolding grab_matches
  grab_matches-suc fuel ih h e g done rest gs l m a j n t =
      go (next_match-First h.top h (last_or 0 done) rest (Linked-append h 0 done rest 0 l.0).1 t j)
    where
      F : ℕ → ℕ × (Store × Ends)
      F x =
          let c = insert_jobs (unlink_job h e x).0 x g 0 in
          let next = grab_matches matches fuel pattern (h.next x) c.0 (unlink_job h e x).1 c.1 in
          if x == 0 then (g.first, (h, e)) else next

      go : First h.top h rest → Grabs (suc fuel) h e g done rest gs
      go (inl (x, y, z)) =
          let kept : gs ≡ gs ++ filter test rest =
            sym (append-nil gs) ∙ ap (λ s. gs ++ s) (sym y) in
          (
            h,
            e,
            ap F x ∙ ap (λ q. (q, (h, e))) (m.2 ∙ ap (head_or 0) kept),
            subst (λ s. IsList h e (done ++ s)) (sym z) l,
            subst (λ s. Linked h 0 s 0) kept m.0,
            refl,
            refl,
          )
      go (inr (ws, x, bs, y, z, v, w)) =
          let front = done ++ ws in
          let whole : done ++ rest ≡ front ++ x ∷ bs =
            ap (λ s. done ++ s) z ∙ sym (append_assoc done ws (x ∷ bs)) in
          let l' = subst (IsList h e) whole l in
          let around = IsList-Around h e front x bs l' in
          let (a1, a2) = Apart-append gs front (x ∷ bs) (subst (Apart gs) whole a) in
          let (a3, a4) = Apart-cons x gs bs a2 in
          let outside = append-Absent x front bs around.outside.0 around.outside.1 in
          let h1 = (unlink_job h e x).0 in
          let e1 = (unlink_job h e x).1 in
          let (l1, alone) = unlink_job-IsList h e front x bs l' in
          let m1 : IsList h1 g gs = (
            unlink_job-other h e front x bs 0 gs l' (Apart-sym gs front a1) a3 a4 m.0,
            m.1,
            m.2,
            m.3,
          ) in
          let single : Linked h1 0 (x ∷ []) 0 = (around.present, alone.1, alone.0, tt) in
          let kept1 = unlink_job-Keeps h e x in
          let kept2 = insert_jobs-Keeps h1 x g 0 in
          let h2 = (insert_jobs h1 x g 0).0 in
          let g2 = (insert_jobs h1 x g 0).1 in
          let m2 : IsList h2 g2 (gs ++ x ∷ []) =
            insert_jobs-IsList h1 g gs x [] [] (subst (IsList h1 g) (sym (append-nil gs)) m1) single
              (tt, tt) (subst (Absent x) (sym (append-nil gs)) a3, tt) (omega arith) in
          let both = append-Apart gs front bs a1 a4 in
          let l2 : IsList h2 e1 (front ++ bs) = (
            insert_jobs-other h1 g gs x 0 (front ++ bs) m1 single (a3, tt) both outside l1.0,
            l1.1,
            l1.2,
            l1.3,
          ) in
          let top : h2.top ≡ h.top = kept2.1 ∙ kept1.1 in
          let size : length rest ≡ length ws + suc (length bs) =
            ap length z ∙ length-append ws (x ∷ bs) in
          let (k, e', eq, i1, i2, i3, i4) =
            ih h2 e1 g2 front bs (gs ++ x ∷ []) l2 m2 (Apart-snoc gs x (front ++ bs) both outside)
              (kept2.0 ∙ kept1.0 ∙ j) (omega arith) (omega arith) in
          let grabbed : (gs ++ x ∷ []) ++ filter test bs ≡ gs ++ filter test rest =
            append_assoc gs (x ∷ []) (filter test bs) ∙ ap (λ s. gs ++ s) (sym v) in
          (
            k,
            e',
            ap F y
                ∙ if_nonzero x (g.first, (h, e))
                    (grab_matches matches fuel pattern (h.next x) h2 e1 g2) around.present
                ∙ ap (λ p. grab_matches matches fuel pattern p h2 e1 g2) around.after
                ∙ eq
                ∙ ap (λ s. (head_or 0 s, (k, e'))) grabbed,
            subst (IsList k e')
                (append_assoc done ws (others test bs) ∙ ap (λ s. done ++ s) (sym w)) i1,
            subst (λ s. Linked k 0 s 0) grabbed i2,
            i3 ∙ kept2.0 ∙ kept1.0,
            i4 ∙ top,
          )

pub grab_matches-Loops :
    (matches : Bytes → Bytes → Bool) (pattern : Bytes) (text : ℕ → Job) (fuel : ℕ)
    → Loops matches pattern text fuel
grab_matches-Loops matches pattern text zero =
    λ h e g done rest gs l m a j n t. absurd (omega arith)
grab_matches-Loops matches pattern text (suc fuel) =
    grab_matches-suc matches pattern text fuel (grab_matches-Loops matches pattern text fuel)
