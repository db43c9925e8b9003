-- ===== src/Queue/Unlink.antt =====
-- `unlink_job` (QueueFeeder.cc) takes one job out of the list.
use lftp.Prelude.{ℕ, ◌≡◌, ◌≢◌, refl, sym, ap, ◌∙◌, subst, List, [], ◌∷◌, ◌++◌, append-nil, arith}
use lftp.Queue.Store.{
  Store, Ends, set_next, set_prev, link_next, link_prev, unlinked_ends, unlink_job,
}
use lftp.Queue.Linked.{
  head_or, last_or, last_or-append, Absent, Apart, Distinct, Linked, append-Absent, Distinct-append,
  append-Distinct, Apart-cons, last_or-Absent, Absent-last_or, Linked-append, append-Linked,
  set_next-Linked, set_prev-Linked, relink_last, relink_first,
}

-- The list of the pointers `e` is `xs`.
abbrev pub IsList : Store → Ends → List ℕ → Type 0
IsList h e xs = Linked h 0 xs 0 × Distinct xs × (e.first ≡ head_or 0 xs) × (e.last ≡ last_or 0 xs)

-- `p` is a list of its own.
abbrev pub IsAlone : Store → ℕ → Type 0
IsAlone h p = (h.next p ≡ 0) × (h.prev p ≡ 0)

pub last_or-nonzero :
    (h : Store) (b x : ℕ) (xs : List ℕ) (a : ℕ) → Linked h b (x ∷ xs) a → last_or x xs ≢ 0
last_or-nonzero h b x [] a (z, u, w, l) = z
last_or-nonzero h b x (y ∷ xs) a (z, u, w, l) = last_or-nonzero h x y xs a l

-- The link out of the front jobs, when these are between null and `a`.
pub link_next-front :
    (h : Store) (xs : List ℕ) (a c : ℕ)
    → Distinct xs
    → Linked h 0 xs a
    → Linked (link_next (last_or 0 xs) c h) 0 xs c
link_next-front h [] a c d l = tt
link_next-front h (x ∷ xs) a c d l =
    let n = last_or-nonzero h 0 x xs a l in let k = relink_last h 0 x xs a c d l in ground arith

pub link_next-other :
    (h : Store) (xs ys : List ℕ) (b a c : ℕ)
    → Apart xs ys
    → Linked h b ys a
    → Linked (link_next (last_or 0 xs) c h) b ys a
link_next-other h [] ys b a c k l = l
link_next-other h (x ∷ xs) ys b a c k l =
    let m = set_next-Linked h (last_or x xs) c b ys a (last_or-Absent x xs ys k) l in ground arith

pub link_prev-back :
    (h : Store) (ys : List ℕ) (b c : ℕ)
    → Distinct ys
    → Linked h b ys 0
    → Linked (link_prev (head_or 0 ys) c h) c ys 0
link_prev-back h [] b c d l = tt
link_prev-back h (y ∷ ys) b c d l = let k = relink_first h b y ys 0 c d l in ground arith

pub link_prev-other :
    (h : Store) (xs ys : List ℕ) (b a c : ℕ)
    → Apart xs ys
    → Linked h b xs a
    → Linked (link_prev (head_or 0 ys) c h) b xs a
link_prev-other h xs [] b a c k l = l
link_prev-other h xs (y ∷ ys) b a c k l =
    let m = set_prev-Linked h y c b xs a (Apart-cons y xs ys k).0 l in ground arith

pub link_next-next :
    (h : Store) (xs : List ℕ) (p c : ℕ)
    → Absent p xs
    → (link_next (last_or 0 xs) c h).next p ≡ h.next p
link_next-next h [] p c m = refl
link_next-next h (x ∷ xs) p c m = let n = Absent-last_or p x xs m in ground arith

pub link_next-prev : (q c : ℕ) (h : Store) (p : ℕ) → (link_next q c h).prev p ≡ h.prev p
link_next-prev q c h p = ground arith

-- A list with the job `p` in it, taken apart.
module _ (h : Store) (e : Ends) (xs : List ℕ) (p : ℕ) (ys : List ℕ) where
  pub record Around : Type 0 where
    pub front : Linked h 0 xs p
    pub back : Linked h p ys 0
    pub before : h.prev p ≡ last_or 0 xs
    pub after : h.next p ≡ head_or 0 ys
    pub present : p ≢ 0
    pub distinct : Distinct xs × Distinct ys
    pub apart : Apart xs ys
    pub outside : Absent p xs × Absent p ys

  pub IsList-Around : IsList h e (xs ++ p ∷ ys) → Around
  IsList-Around (l, d, f, g) =
      let (l1, (z, u, w, l2)) = Linked-append h 0 xs (p ∷ ys) 0 l in
      let (d1, (n, d2), k) = Distinct-append xs (p ∷ ys) d in
      let (m, k') = Apart-cons p xs ys k in
      record {
        front = l1;
        back = l2;
        before = u;
        after = w;
        present = z;
        distinct = (d1, d2);
        apart = k';
        outside = (m, n);
      }

  unlinked_ends-first :
      Around
      → e.first ≡ head_or 0 (xs ++ p ∷ ys)
      → (unlinked_ends h e p).first ≡ head_or 0 (xs ++ ys)
  unlinked_ends-first a f = go xs a.before a.front f
    where
      go :
          (xs' : List ℕ)
          → h.prev p ≡ last_or 0 xs'
          → Linked h 0 xs' p
          → e.first ≡ head_or 0 (xs' ++ p ∷ ys)
          → (unlinked_ends h e p).first ≡ head_or 0 (xs' ++ ys)
      go [] u l f' = rw (u, f') a.after
      go (x ∷ xs') u l f' = let n = last_or-nonzero h 0 x xs' p l in ground arith

  unlinked_ends-last :
      Around → e.last ≡ last_or 0 (xs ++ p ∷ ys) → (unlinked_ends h e p).last ≡ last_or 0 (xs ++ ys)
  unlinked_ends-last a g = go ys a.after a.back g
    where
      go :
          (ys' : List ℕ)
          → h.next p ≡ head_or 0 ys'
          → Linked h p ys' 0
          → e.last ≡ last_or 0 (xs ++ p ∷ ys')
          → (unlinked_ends h e p).last ≡ last_or 0 (xs ++ ys')
      go [] w l g' = rw (w, g' ∙ last_or-append 0 xs p [], append-nil) a.before
      go (y ∷ ys') w (z, u, v, l) g' =
          let last = g' ∙ last_or-append 0 xs p (y ∷ ys') ∙ sym (last_or-append 0 xs y ys') in
          ground arith

  -- The store when the job is out, as writes at its neighbours and at itself.
  abbrev pub unlinked : Store
  unlinked =
      let l = last_or 0 xs in
      let r = head_or 0 ys in set_next (set_prev (link_prev r l (link_next l r h)) p 0) p 0

  pub unlink_job-unlinked : Around → (unlink_job h e p).0 ≡ unlinked
  unfolding unlink_job
  unlink_job-unlinked a =
      let l = last_or 0 xs in
      let r = head_or 0 ys in
      let h1 = link_next l r h in
      let after1 = link_next-next h xs p r a.outside.0 ∙ a.after in
      let before1 = link_next-prev l r h p ∙ a.before in
      ap (λ s. set_next (set_prev s p 0) p 0)
        (ap (λ s. link_prev (s.next p) (s.prev p) s)
            (ap (λ q. link_next q (h.next p) h) a.before ∙ ap (λ q. link_next l q h) a.after)
          ∙ ap (λ q. link_prev q (h1.prev p) h1) after1
          ∙ ap (λ q. link_prev r q h1) before1)

  unlink_job-links : Around → Linked (unlink_job h e p).0 0 (xs ++ ys) 0
  unlink_job-links a =
      let l = last_or 0 xs in
      let r = head_or 0 ys in
      let h1 = link_next l r h in
      let front1 = link_next-front h xs p r a.distinct.0 a.front in
      let back1 = link_next-other h xs ys p 0 r a.apart a.back in
      let h2 = link_prev r l h1 in
      let front2 = link_prev-other h1 xs ys 0 r l a.apart front1 in
      let back2 = link_prev-back h1 ys p l a.distinct.1 back1 in
      let all2 = append-Linked h2 0 xs ys 0 front2 back2 in
      let m = append-Absent p xs ys a.outside.0 a.outside.1 in
      let all3 = set_prev-Linked h2 p 0 0 (xs ++ ys) 0 m all2 in
      let all4 = set_next-Linked (set_prev h2 p 0) p 0 0 (xs ++ ys) 0 m all3 in
      subst (λ s. Linked s 0 (xs ++ ys) 0) (sym (unlink_job-unlinked a)) all4

  -- Another list of jobs keeps its links.
  pub unlink_job-other :
      (b : ℕ) (zs : List ℕ)
      → IsList h e (xs ++ p ∷ ys)
      → Apart xs zs
      → Absent p zs
      → Apart zs ys
      → Linked h b zs 0
      → Linked (unlink_job h e p).0 b zs 0
  unlink_job-other b zs w k m n l =
      let q = last_or 0 xs in
      let r = head_or 0 ys in
      let h1 = link_next q r h in
      let l1 = link_next-other h xs zs b 0 r k l in
      let h2 = link_prev r q h1 in
      let l2 = link_prev-other h1 zs ys b 0 q n l1 in
      subst (λ s. Linked s b zs 0) (sym (unlink_job-unlinked (IsList-Around w)))
        (set_next-Linked (set_prev h2 p 0) p 0 b zs 0 m (set_prev-Linked h2 p 0 b zs 0 m l2))

  unlink_job-IsAlone : IsAlone (unlink_job h e p).0 p
  unfolding unlink_job
  unlink_job-IsAlone = ground arith

  append-back : IsList h e (xs ++ p ∷ ys) → Distinct (xs ++ ys)
  append-back l = let a = IsList-Around l in append-Distinct xs ys a.distinct.0 a.distinct.1 a.apart

  -- Unlinking a job of the list leaves the list without it, and the job on its own.
  pub unlink_job-IsList :
      IsList h e (xs ++ p ∷ ys)
      → IsList (unlink_job h e p).0 (unlink_job h e p).1 (xs ++ ys) × IsAlone (unlink_job h e p).0 p
  unfolding unlink_job
  unlink_job-IsList l =
      let a = IsList-Around l in
      let (_, _, f, g) = l in
      (
        (unlink_job-links a, append-back l, unlinked_ends-first a f, unlinked_ends-last a g),
        unlink_job-IsAlone,
      )
