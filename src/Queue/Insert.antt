-- ===== src/Queue/Insert.antt =====
-- `insert_jobs` (QueueFeeder.cc) links a list of jobs into another one.
use lftp.Prelude.{
  ℕ, zero, suc, ◌≤◌, ◌≡◌, ◌≢◌, refl, sym, ap, ◌∙◌, subst, List, [], ◌∷◌, ◌++◌, append-nil, length,
  arith, ◌==◌, if◌then◌else◌,
}
use lftp.Queue.Store.{Store, link_next, link_prev, last_of}
use lftp.Queue.Linked.{
  head_or, last_or, last_or-append, Absent, Apart, Distinct, Linked, Absent-append, append-Absent,
  Distinct-append, append-Distinct, Apart-cons, last_or-Absent, append-Linked,
}
use lftp.Queue.Unlink.{
  last_or-nonzero, link_next-front, link_next-other, link_prev-back, link_prev-other,
  link_next-next, link_next-prev,
}

-- The jobs of three lists: what comes before, what is inserted, what comes behind.
pub record Parts (xs js ys : List ℕ) : Type 0 where
  pub distinct : Distinct xs × Distinct js × Distinct ys
  pub apart : Apart xs js × Apart xs ys × Apart js ys
  pub crossed : Apart js xs

pub Apart-append : (xs ys zs : List ℕ) → Apart xs (ys ++ zs) → Apart xs ys × Apart xs zs
Apart-append [] ys zs a = (tt, tt)
Apart-append (x ∷ xs) ys zs (n, a) =
    let (u, v) = Absent-append x ys zs n in let (p, q) = Apart-append xs ys zs a in ((u, p), (v, q))

pub append-Apart : (xs ys zs : List ℕ) → Apart xs ys → Apart xs zs → Apart xs (ys ++ zs)
append-Apart [] ys zs a b = tt
append-Apart (x ∷ xs) ys zs (n, a) (m, b) = (append-Absent x ys zs n m, append-Apart xs ys zs a b)

pub Apart-nil : (xs : List ℕ) → Apart xs []
Apart-nil [] = tt
Apart-nil (x ∷ xs) = (tt, Apart-nil xs)

pub Apart-sym : (xs ys : List ℕ) → Apart xs ys → Apart ys xs
Apart-sym xs [] a = tt
Apart-sym xs (y ∷ ys) a = let (u, v) = Apart-cons y xs ys a in (u, Apart-sym xs ys v)

pub parts :
    (xs js ys : List ℕ) → Distinct (xs ++ ys) → Distinct js → Apart js (xs ++ ys) → Parts xs js ys
parts xs js ys d e a =
    let (d1, d2, k) = Distinct-append xs ys d in
    let (a1, a2) = Apart-append js xs ys a in
    record { distinct = (d1, e, d2); apart = (Apart-sym js xs a1, k, a2); crossed = a1 }

pub Parts-Distinct : (xs js ys : List ℕ) → Parts xs js ys → Distinct (xs ++ (js ++ ys))
Parts-Distinct xs js ys t =
    append-Distinct xs (js ++ ys) t.distinct.0
      (append-Distinct js ys t.distinct.1 t.distinct.2 t.apart.2)
      (append-Apart xs js ys t.apart.0 t.apart.1)

pick : (q p r v : ℕ) → q ≢ 0 → r ≡ v → (if q == 0 then p else r) ≡ v
pick q p r v n e = ground arith

-- With enough fuel `last_of` finds the end of a list.
pub last_of-last_or :
    (fuel : ℕ) (h : Store) (b p : ℕ) (js : List ℕ)
    → length js ≤ fuel
    → Linked h b (p ∷ js) 0
    → last_of fuel h p ≡ last_or p js
unfolding last_of
last_of-last_or zero h b p [] n l = refl
last_of-last_or zero h b p (j ∷ js) n l = absurd (omega arith)
last_of-last_or (suc fuel) h b p [] n (z, u, w, l) = ground arith
last_of-last_or (suc fuel) h b p (j ∷ js) n (z, u, w, l) =
    let ih = last_of-last_or fuel h p j js (omega arith) l in
    pick (h.next p) p _ (last_or j js) (λ e. l.0 (sym w ∙ e)) (ap (last_of fuel h) w ∙ ih)

abbrev pub joined : Store → ℕ → ℕ → Store
joined a p tail = let b = link_next (a.prev p) p a in link_prev (b.next tail) tail b

-- The links out of the new jobs are made; the links into them follow.
module _ (a : Store) (xs : List ℕ) (p : ℕ) (js ys : List ℕ) (t : Parts xs (p ∷ js) ys) where
  new_last-outside : Absent (last_or p js) xs
  new_last-outside = last_or-Absent p js xs t.crossed

  module _ (front : Linked a 0 xs (head_or 0 ys))
      (new : Linked a (last_or 0 xs) (p ∷ js) (head_or 0 ys)) (back : Linked a (last_or 0 xs) ys 0)
      (out : a.next (last_or p js) ≡ head_or 0 ys) where
    pub joined_eq :
        joined a p (last_or p js)
        ≡ link_prev (head_or 0 ys) (last_or p js) (link_next (last_or 0 xs) p a)
    joined_eq =
        let tail = last_or p js in
        ap (λ q. link_prev ((link_next q p a).next tail) tail (link_next q p a)) (new.1)
        ∙ ap (λ q. link_prev q tail (link_next (last_or 0 xs) p a))
            (link_next-next a xs tail p new_last-outside ∙ out)

    pub joined-Linked : Linked (joined a p (last_or p js)) 0 (xs ++ ((p ∷ js) ++ ys)) 0
    joined-Linked =
        let l = last_or 0 xs in
        let r = head_or 0 ys in
        let tail = last_or p js in
        let b = link_next l p a in
        let front1 = link_next-front a xs r p t.distinct.0 front in
        let new1 = link_next-other a xs (p ∷ js) l r p t.apart.0 new in
        let back1 = link_next-other a xs ys l 0 p t.apart.1 back in
        let c = link_prev r tail b in
        let front2 = link_prev-other b xs ys 0 p tail t.apart.1 front1 in
        let new2 = link_prev-other b (p ∷ js) ys l r tail t.apart.2 new1 in
        let back2 = link_prev-back b ys l tail t.distinct.2 back1 in
        subst (λ s. Linked s 0 (xs ++ ((p ∷ js) ++ ys)) 0) (sym joined_eq)
          (append-Linked c 0 xs ((p ∷ js) ++ ys) 0 front2
            (append-Linked c l (p ∷ js) ys 0 new2 back2))

    pub joined-out : (joined a p (last_or p js)).next (last_or p js) ≡ head_or 0 ys
    joined-out =
        ap (λ s. s.next (last_or p js)) joined_eq
        ∙ go (head_or 0 ys) (last_or p js) (link_next (last_or 0 xs) p a) (last_or p js)
        ∙ link_next-next a xs (last_or p js) p new_last-outside
        ∙ out
      where
        go : (q v : ℕ) (h : Store) (z : ℕ) → (link_prev q v h).next z ≡ h.next z
        go q v h z = ground arith

    pub joined-in : (joined a p (last_or p js)).prev p ≡ last_or 0 xs
    joined-in =
        ap (λ s. s.prev p) joined_eq ∙ go ys t.apart.2 ∙ link_next-prev (last_or 0 xs) p a p ∙ new.1
      where
        go :
            (zs : List ℕ)
            → Apart (p ∷ js) zs
            → (link_prev (head_or 0 zs) (last_or p js) (link_next (last_or 0 xs) p a)).prev p
              ≡ (link_next (last_or 0 xs) p a).prev p
        go [] k = refl
        go (z ∷ zs) ((n, m), k) = ground arith

  pub first_is :
      (e r : ℕ)
      → e ≡ head_or 0 (xs ++ ys)
      → r ≡ last_or 0 xs
      → Linked a 0 xs (head_or 0 ys)
      → (if r == 0 then p else e) ≡ head_or 0 (xs ++ ((p ∷ js) ++ ys))
  first_is e r f g l = go xs l f g
    where
      go :
          (zs : List ℕ)
          → Linked a 0 zs (head_or 0 ys)
          → e ≡ head_or 0 (zs ++ ys)
          → r ≡ last_or 0 zs
          → (if r == 0 then p else e) ≡ head_or 0 (zs ++ ((p ∷ js) ++ ys))
      go [] k f' g' = rw g' refl
      go (z ∷ zs) k f' g' =
          pick r p e z (λ q. last_or-nonzero a 0 z zs (head_or 0 ys) k (sym g' ∙ q)) f'

  pub last_is :
      (e r : ℕ)
      → e ≡ last_or 0 (xs ++ ys)
      → r ≡ head_or 0 ys
      → Linked a (last_or 0 xs) ys 0
      → (if r == 0 then last_or p js else e) ≡ last_or 0 (xs ++ ((p ∷ js) ++ ys))
  last_is e r f g l = go ys l f g
    where
      go :
          (zs : List ℕ)
          → Linked a (last_or 0 xs) zs 0
          → e ≡ last_or 0 (xs ++ zs)
          → r ≡ head_or 0 zs
          → (if r == 0 then last_or p js else e) ≡ last_or 0 (xs ++ ((p ∷ js) ++ zs))
      go [] k f' g' = rw (g', append-nil) (sym (last_or-append 0 xs p js))
      go (z ∷ zs) (n, u, w, k) f' g' =
          pick r (last_or p js) e _ (λ q. n (sym g' ∙ q))
            (f'
              ∙ last_or-append 0 xs z zs
              ∙ sym (last_or-append p js z zs)
              ∙ sym (last_or-append 0 xs p (js ++ z ∷ zs)))
