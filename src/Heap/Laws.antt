-- ===== src/Heap/Laws.antt =====
-- The operations of a heap (xheap.h): `add`, `remove`, `get_min` and `pop_min`.
use lftp.Prelude.{
  ℕ, zero, suc, ◌+◌, ◌-◌, ◌/◌, ◌≤◌, ◌<◌, ◌≡◌, ◌≢◌, ◌↔◌, ◌⊎◌, inl, inr, refl, sym, ap, ◌∙◌, subst,
  Bool, Option, none, some, ◌&&◌, if_cases, if_nonzero, ◌==◌, if◌then◌else◌, ltb, leb, arith,
}
use lftp.Heap.{
  Heap, swap, chop, append, get_min, siftup, fix, add, remove_at, checked, remove, taken, pop_min,
}
use lftp.Heap.Links.{IsLinked}
use lftp.Heap.Order.{at, IsOrdered, Up, Sorted}
use lftp.Heap.Sift.{siftup-Sorted, fix-Sorted}
use lftp.Heap.Removal.{IsHeap, Changed, chop-members, chop-last, moved-Open, moved-members}

-- The operation returns, and what it returns has the property `P`.
abbrev pub Gives {ℓ κ} : {A : Type ℓ} → (A → Type κ) → Option A → Type (ℓ ⊔ κ)
Gives {A} P o = (a : A) × (o ≡ some a) × P a

-- The members of `h'` are those of `h` and `n`, or those but `n`.
abbrev pub With : ℕ → Heap → Heap → Type 0
With n h h' = (m : ℕ) → (h'.index m ≡ 0) ↔ ((m ≢ n) × (h.index m ≡ 0))

abbrev pub Without : ℕ → Heap → Heap → Type 0
Without n h h' = (m : ℕ) → (h'.index m ≡ 0) ↔ ((m ≡ n) ⊎ (h.index m ≡ 0))

append-IsLinked : (h : Heap) (n : ℕ) → IsLinked h → h.index n ≡ 0 → IsLinked (append n h)
append-IsLinked h n l e = record {
  at_place = λ i p q. ground (arith, l.at_place i);
  place = λ m z. ground (arith, l.place m);
  back = λ m z. ground (arith, l.back m, l.place m);
}

module _ {ℓ} (key : ℕ → ℕ) (Good : ℕ → Type ℓ) where
  append-Up :
      (h : Heap) (n : ℕ)
      → IsHeap key Good h
      → Good n
      → h.index n ≡ 0
      → Up key Good (append n h) (h.count + 1)
  append-Up h n v g e = record {
    opened = record {
      good = λ i p q.
          if_cases Good (i == h.count + 1) n (h.ptr i) (λ f. g) (λ f. v.good i p (ground arith));
      linked = append-IsLinked h n v.linked e;
      edges = λ i p q r s. ground (arith, v.ordered i);
      bridged = λ i p q r s. absurd (omega arith);
    };
    under = λ i p q r. absurd (omega arith);
  }

  root-Least :
      (fuel i : ℕ) (h : Heap)
      → IsOrdered key Good h
      → i ≤ fuel
      → 1 ≤ i
      → i ≤ h.count
      → at key Good h 1 ≤ at key Good h i
  root-Least zero i h o f p q = absurd (omega arith)
  root-Least (suc fuel) zero h o f p q = absurd (omega arith)
  root-Least (suc fuel) (suc zero) h o f p q = omega arith
  root-Least (suc fuel) (suc (suc i)) h o f p q = omega (
    arith,
    o (suc (suc i)),
    root-Least fuel (suc (suc i) / 2) h o (omega arith) (omega arith) (omega arith),
  )

  -- No node of a heap comes before the one that `get_min` returns, which is a node of it.
  pub get_min-Least :
      (h : Heap)
      → IsHeap key Good h
      → 1 ≤ h.count
      → (h.index (get_min h) ≢ 0) × ((n : ℕ) → h.index n ≢ 0 → key (get_min h) ≤ key n)
  get_min-Least h v c =
      let e : get_min h ≡ h.ptr 1 = ground arith in
      rw e (
        λ z. omega (arith, v.linked.at_place 1, z),
        λ n z.
            subst (λ m. at key Good h 1 ≤ key m) (v.linked.back n z)
              (root-Least (h.index n) (h.index n) h v.ordered (omega arith) (omega arith)
                (v.linked.place n z)),
      )

module _ {ℓ} (less : ℕ → ℕ → Bool) (key : ℕ → ℕ) (Good : ℕ → Type ℓ)
    (agrees : (a b : ℕ) → Good a → Good b → less a b ≡ ltb (key a) (key b)) where
  Sorted-IsHeap : {h h' : Heap} → h.index 0 ≡ 0 → Sorted key Good h h' → IsHeap key Good h'
  Sorted-IsHeap z s = record {
    good = s.good;
    linked = s.shuffled.linked;
    ordered = s.ordered;
    null_out = (s.shuffled.members 0).1 z;
  }

  -- Adding a node to a heap succeeds. It gives a heap whose members are those of the old one and the
  -- node, which may have been there before.
  pub add-IsHeap :
      (h : Heap) (n : ℕ)
      → IsHeap key Good h
      → Good n
      → n ≢ 0
      → Gives (λ h'. IsHeap key Good h' × With n h h') (add less n h)
  unfolding add
  add-IsHeap h n v g z =
      let h' = append n h in
      let old = if leb (h.index n) h.count && h.ptr (h.index n) == n then some h else none in
      if_cases (Gives (λ k. IsHeap key Good k × With n h k)) (h.index n == 0)
        (some (siftup less h'.count h'.count h')) old
        (λ e.
          let s =
            siftup-Sorted less key Good agrees h'.count h'.count h'
              (append-Up key Good h n v g (ground arith)) (omega arith) (omega arith)
              (omega arith) in
          (
            siftup less h'.count h'.count h',
            refl,
            (
              Sorted-IsHeap (ground (arith, v.null_out)) s,
              λ m. ground (arith, s.shuffled.members m),
            ),
          ))
        (λ e.
          let p : h.index n ≢ 0 = ground arith in
          let f : old ≡ some h = ground (arith, v.linked.place n p, v.linked.back n p) in
          (h, f, (v, λ m. ground arith)))

  remove_at-IsHeap :
      (h : Heap) (n : ℕ)
      → Changed key Good n h
      → h.index n ≢ 0
      → Gives
          (λ h'. IsHeap key Good h' × Without n h h' × (h'.count ≡ h.count - 1))
          (remove_at less (h.index n) h)
  unfolding remove_at
  remove_at-IsHeap h n v z =
      let i = h.index n in
      let p = v.linked.place n z in
      let moved = chop (swap i h.count h) in
      let rest = if ltb 0 i && ltb i h.count then some (fix less i moved) else none in
      if_cases (Gives (λ k. IsHeap key Good k × Without n h k × (k.count ≡ h.count - 1)))
        (i == h.count) (some (chop h)) rest
        (λ e. (
          chop h,
          refl,
          (
            chop-last key Good h n v (omega arith) (ground arith),
            chop-members h n (ground (arith, v.linked.back n z)),
            refl,
          ),
        ))
        (λ e.
          let q : i < h.count = ground arith in
          let s =
            fix-Sorted less key Good agrees i moved (moved-Open key Good h n v (omega arith) q)
              (omega arith) (omega arith) in
          let t = moved-members key Good h n v (omega arith) q in
          let f : rest ≡ some (fix less i moved) = ground arith in
          (
            fix less i moved,
            f,
            (
              Sorted-IsHeap ((t 0).1 (inr v.null_out)) s,
              λ m. ground (arith, s.shuffled.members m, t m),
              s.shuffled.counts,
            ),
          ))

  pub Changed-0 : (h : Heap) (n : ℕ) → Changed key Good n h → h.index n ≡ 0 → IsHeap key Good h
  Changed-0 h n v e = record {
    good = λ i p q. v.good i p q (λ f. ground (arith, v.linked.at_place i));
    linked = v.linked;
    ordered = λ i p q. v.edges i p q (omega arith) (omega arith);
    null_out = v.null_out;
  }

  -- Removing a node succeeds, wherever the node should now stand in the order, and whether or not
  -- it is in the heap. It gives a heap whose members are those of the old one but the node.
  pub remove-IsHeap :
      (h : Heap) (n : ℕ)
      → Changed key Good n h
      → Gives (λ h'. IsHeap key Good h' × Without n h h') (remove less n h)
  unfolding remove
  remove-IsHeap h n v =
      let P = Gives (λ k. IsHeap key Good k × Without n h k) in
      let i = h.index n in
      let rest = checked n (remove_at less i h) in
      if_cases P (i == 0) (some h) (if h.ptr i == n then rest else none)
        (λ e. (h, refl, (Changed-0 h n v (ground arith), λ m. ground arith)))
        (λ e.
          let z : i ≢ 0 = ground arith in
          let (h', f, (w, members, c')) = remove_at-IsHeap h n v z in
          let c : checked n (some h') ≡ some h' = ground (arith, (members n).1 (inl refl)) in
          if_cases P (h.ptr i == n) rest none (λ g. (h', ap (checked n) f ∙ c, (w, members)))
            (λ g. absurd (ground (arith, v.linked.back n z))))

  pub IsHeap-Changed : (h : Heap) (n : ℕ) → IsHeap key Good h → Changed key Good n h
  IsHeap-Changed h n v = record {
    good = λ i p q z. v.good i p q;
    linked = v.linked;
    edges = λ i p q y z. v.ordered i p q;
    bridged = λ i p q y z.
        subst (λ j. at key Good h (j / 2) ≤ at key Good h i) y
          (omega (arith, v.ordered i p q, v.ordered (i / 2) (omega arith) (omega arith)));
    null_out = v.null_out;
  }

  -- From a heap with a node in it `pop_min` takes the node that `get_min` returns, and no other.
  pub pop_min-IsHeap :
      (h : Heap)
      → IsHeap key Good h
      → 1 ≤ h.count
      → Gives
          (λ r.
            (r.0 ≡ get_min h) × IsHeap key Good r.1 × Without r.0 h r.1 × (r.1.count ≡ h.count - 1))
          (pop_min less h)
  unfolding pop_min
  pop_min-IsHeap h v c =
      let m = get_min h in
      let e : m ≡ h.ptr 1 = ground arith in
      let i : h.index m ≡ 1 = ap h.index e ∙ v.linked.at_place 1 (omega arith) c in
      let z : h.index m ≢ 0 = omega arith in
      let (h', f, (w, out, c')) = remove_at-IsHeap h m (IsHeap-Changed h m v) z in
      let g : remove_at less 1 h ≡ some h' = ap (λ j. remove_at less j h) (sym i) ∙ f in
      let y : m ≢ 0 = λ n. z (ap h.index n ∙ v.null_out) in
      (
        (m, h'),
        if_nonzero m (some (0, h)) (taken m (remove_at less 1 h)) y ∙ ap (taken m) g,
        (refl, w, out, c'),
      )
