-- ===== src/Queue/Deleting.antt =====
-- `DelJob` by a pattern (QueueFeeder.cc) on the list of jobs.
use lftp.Prelude.{
  ℕ, ◌≤◌, ◌<◌, ◌≡◌, refl, sym, ap, ◌∙◌, subst, Bool, true, false, List, [], ◌∷◌, map, length, arith,
  ◌==◌, if◌then◌else◌, Bytes,
}
use lftp.Queue.Store.{Job, Store, Ends, grab_matches, grab_matching}
use lftp.Queue.Linked.{head_or, Linked, if_nonzero}
use lftp.Queue.Jobs.{Queue, with_list, del_matching, Taken, no_job, taken}
use lftp.Queue.Represent.{Below, Holds}
use lftp.Queue.Matching.{filter, others, grab_matches-Loops}

length-others : {A : Type 0} (f : A → Bool) (xs : List A) → length (others f xs) ≤ length xs
length-others f [] = omega arith
length-others f (x ∷ xs) = ground (arith, length-others f xs)

others-Below : (f : ℕ → Bool) (n : ℕ) (xs : List ℕ) → Below n xs → Below n (others f xs)
others-Below f n [] b = tt
others-Below f n (x ∷ xs) (l, b) = ground (arith, others-Below f n xs b)

map-filter :
    {A B : Type 0} (g : A → B) (f : B → Bool) (xs : List A)
    → map g (filter (λ x. f (g x)) xs) ≡ filter f (map g xs)
map-filter g f [] = refl
map-filter g f (x ∷ xs) = go (f (g x)) (map-filter g f xs)
  where
    go :
        (o : Bool)
        → map g (filter (λ y. f (g y)) xs) ≡ filter f (map g xs)
        → map g (if o then x ∷ filter (λ y. f (g y)) xs else filter (λ y. f (g y)) xs)
          ≡ (if o then g x ∷ filter f (map g xs) else filter f (map g xs))
    go true e = ap (λ m. g x ∷ m) e
    go false e = e

map-others :
    {A B : Type 0} (g : A → B) (f : B → Bool) (xs : List A)
    → map g (others (λ x. f (g x)) xs) ≡ others f (map g xs)
map-others g f [] = refl
map-others g f (x ∷ xs) = go (f (g x)) (map-others g f xs)
  where
    go :
        (o : Bool)
        → map g (others (λ y. f (g y)) xs) ≡ others f (map g xs)
        → map g (if o then others (λ y. f (g y)) xs else x ∷ others (λ y. f (g y)) xs)
          ≡ (if o then others f (map g xs) else g x ∷ others f (map g xs))
    go true e = e
    go false e = ap (λ m. g x ∷ m) e

module _ (matches : Bytes → Bytes → Bool) (pattern : Bytes) where
  abbrev pub is_match : Job → Bool
  is_match j = matches pattern j.cmd

  -- Where jobs match, the first of them heads the list that was taken, and the queue holds the
  -- other jobs `js`; else nothing was done.
  abbrev pub Deletes : Queue → List Job → List Job → Type 0
  Deletes q js [] = del_matching matches q pattern ≡ no_job
  Deletes q js (k ∷ ks) =
      (p : ℕ) × (h : Store) × (q' : Queue) × (del_matching matches q pattern ≡ taken p h q')
      × Holds q' js
      × (gs : List ℕ) × (head_or 0 gs ≡ p)
      × Linked h 0 gs 0
      × (map h.job gs ≡ k ∷ ks)

  abbrev take_them : Queue → ℕ × (Store × Ends) → Taken
  take_them q (p, (h, e)) = if p == 0 then no_job else taken p h (with_list q (h, e))

  -- Deleting by a pattern takes the jobs that match out of the queue, as a list in their order, and
  -- leaves the others in theirs; where no job matches it does nothing.
  pub del_matching-Deletes :
      (q : Queue) (js : List Job) → Holds q js → Deletes q (others is_match js) (filter is_match js)
  unfolding del_matching grab_matching
  del_matching-Deletes q js d =
      let xs = d.places in
      let h = q.store in
      let w = d.shape in
      let test = λ (x : ℕ). is_match (h.job x) in
      let (k, e', eq, i1, i2, i3, i4) =
        grab_matches-Loops matches pattern h.job h.top h q.ends (record { first = 0; last = 0 }) []
          xs [] w.links (tt, tt, refl, refl) tt refl w.few (omega (arith, w.few)) in
      let start : grab_matching matches h q.ends pattern ≡ (head_or 0 (filter test xs), (k, e')) =
        ap (λ p. grab_matches matches h.top pattern p h q.ends (record { first = 0; last = 0 }))
          w.links.2
        ∙ eq in
      let held : Holds (with_list q (k, e')) (others is_match js) = record {
        places = others test xs;
        shape = record {
          links = i1;
          given =
              subst (λ t. Below t (others test xs)) (sym i4) (others-Below test h.top xs w.given);
          few =
              subst (λ t. length (others test xs) < t) (sym i4)
                (omega (arith, length-others test xs, w.few));
        };
        texts =
            ap (λ f. map f (others test xs)) i3
            ∙ map-others h.job is_match xs
            ∙ ap (others is_match) d.texts;
      } in
      go k e' (filter test xs) (filter is_match js) start held i2 (
        ap (λ f. map f (filter test xs)) i3
        ∙ map-filter h.job is_match xs
        ∙ ap (filter is_match) d.texts)
    where
      go :
          (k : Store) (e' : Ends) (gs : List ℕ) (ks : List Job)
          → grab_matching matches q.store q.ends pattern ≡ (head_or 0 gs, (k, e'))
          → Holds (with_list q (k, e')) (others is_match js)
          → Linked k 0 gs 0
          → map k.job gs ≡ ks
          → Deletes q (others is_match js) ks
      go k e' [] [] eq held l t = ap (take_them q) eq
      go k e' [] (j ∷ ks) eq held l t = absurd cc
      go k e' (g ∷ gs) [] eq held l t = absurd cc
      go k e' (g ∷ gs) (j ∷ ks) eq held l t = (
        g,
        k,
        with_list q (k, e'),
        ap (take_them q) eq ∙ if_nonzero g no_job (taken g k (with_list q (k, e'))) l.0,
        held,
        g ∷ gs,
        refl,
        l,
        t,
      )
