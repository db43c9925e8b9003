-- ===== src/Heap/Sift.antt =====
-- The loops of the heap (xheap.h): `siftup`, `siftdown` and, with both, `fix`.
use lftp.Prelude.{
  ℕ, zero, suc, ◌+◌, ◌*◌, ◌/◌, ◌≤◌, ◌<◌, ◌≡◌, ◌⊎◌, Bool, true, false, ◌&&◌, if_cases, ltb, leb,
  arith, if◌then◌else◌,
}
use lftp.Heap.{Heap, swap, below, siftup, siftdown, heir, fix}
use lftp.Heap.Links.{All, Shuffled, Shuffled-refl, Shuffled-trans, swap-Shuffled}
use lftp.Heap.Order.{
  at, Open, Up, Down, Sorted, Sorted-trans, Down-Sorted, swap-Good, Up-edges, Up-Bridged,
  down_edges, down-Bridged,
}

module _ {ℓ} (less : ℕ → ℕ → Bool) (key : ℕ → ℕ) (Good : ℕ → Type ℓ)
    (agrees : (a b : ℕ) → Good a → Good b → less a b ≡ ltb (key a) (key b)) where
  below-lt :
      (h : Heap) (i j : ℕ)
      → All Good h
      → 1 ≤ i
      → i ≤ h.count
      → 1 ≤ j
      → j ≤ h.count
      → below less h i j ≡ ltb (at key Good h i) (at key Good h j)
  below-lt h i j g p q r s = agrees (h.ptr i) (h.ptr j) (g i p q) (g j r s)

  Up-swap :
      (h : Heap) (j : ℕ)
      → Up key Good h j
      → 2 ≤ j
      → j ≤ h.count
      → at key Good h j < at key Good h (j / 2)
      → Up key Good (swap j (j / 2) h) (j / 2)
  Up-swap h j u p q lt =
      let e = Up-edges key Good h j u p q lt in
      record {
        opened = record {
          good =
              swap-Good key Good h j (j / 2) (omega arith) q (omega arith) (omega arith)
                u.opened.good;
          linked =
              (swap-Shuffled h u.opened.linked j (j / 2) (omega arith) q (omega arith)
                (omega arith)).linked;
          edges = λ i r s n m. e i r s n;
          bridged = Up-Bridged key Good h j u p q lt;
        };
        under = λ i r s t. ground (arith, e i r s);
      }

  Up-Sorted :
      (h : Heap) (j : ℕ)
      → Up key Good h j
      → (2 ≤ j → at key Good h (j / 2) ≤ at key Good h j)
      → Sorted key Good h h
  Up-Sorted h j u a = Down-Sorted key Good h j (record { opened = u.opened; above = a }) u.under

  pub siftup-Sorted :
      (fuel j : ℕ) (h : Heap)
      → Up key Good h j
      → 1 ≤ j
      → j ≤ h.count
      → j ≤ fuel
      → Sorted key Good h (siftup less fuel j h)
  unfolding siftup
  siftup-Sorted zero j h u p q f = absurd (omega arith)
  siftup-Sorted (suc fuel) j h u p q f =
      let b : 2 ≤ j → below less h j (j / 2) ≡ ltb (at key Good h j) (at key Good h (j / 2)) =
        λ r. below-lt h j (j / 2) u.opened.good p q (omega arith) (omega arith) in
      if_cases (Sorted key Good h) (ltb 1 j && below less h j (j / 2))
        (siftup less fuel (j / 2) (swap j (j / 2) h)) h
        (λ e.
          let r : 2 ≤ j = ground arith in
          let lt : at key Good h j < at key Good h (j / 2) = ground (arith, b r) in
          Sorted-trans key Good
            (swap-Shuffled h u.opened.linked j (j / 2) p q (omega arith) (omega arith))
            (siftup-Sorted fuel (j / 2) (swap j (j / 2) h) (Up-swap h j u r q lt) (omega arith)
              (omega arith) (omega arith)))
        (λ e. Up-Sorted h j u (λ r. ground (arith, b r)))

  -- The heir is in the heap, and no heir is smaller.
  heir-Least :
      (h : Heap) (j : ℕ)
      → All Good h
      → 1 ≤ j
      → j ≤ h.count / 2
      → (heir less h j / 2 ≡ j)
        × (heir less h j ≤ h.count)
        × ((i : ℕ)
            → 2 ≤ i
            → i ≤ h.count
            → i / 2 ≡ j
            → at key Good h (heir less h j) ≤ at key Good h i)
  heir-Least h j g p q =
      let b : j * 2 < h.count
          → below less h (j * 2 + 1) (j * 2)
            ≡ ltb (at key Good h (j * 2 + 1)) (at key Good h (j * 2)) =
        λ r.
          below-lt h (j * 2 + 1) (j * 2) g (omega arith) (omega arith) (omega arith)
            (omega arith) in
      let two : (i : ℕ) → i / 2 ≡ j → (i ≡ j * 2) ⊎ (i ≡ j * 2 + 1) = λ i e. omega arith in
      if_cases
        (λ k.
          (k / 2 ≡ j)
          × (k ≤ h.count)
          × ((i : ℕ) → 2 ≤ i → i ≤ h.count → i / 2 ≡ j → at key Good h k ≤ at key Good h i))
        (ltb (j * 2) h.count && below less h (j * 2 + 1) (j * 2)) (j * 2 + 1) (j * 2)
        (λ e. (omega arith, ground arith, λ i r s t. ground (arith, b, two i t)))
        (λ e. (omega arith, omega arith, λ i r s t. ground (arith, b, two i t)))

  Down-swap :
      (h : Heap) (j : ℕ)
      → Open key Good h j
      → 1 ≤ j
      → j ≤ h.count / 2
      → at key Good h (heir less h j) ≤ at key Good h j
      → Shuffled h (swap j (heir less h j) h)
        × Down key Good (swap j (heir less h j) h) (heir less h j)
  Down-swap h j o p q le =
      let (e, r, least) = heir-Least h j o.good p q in
      let k = heir less h j in
      let s = swap-Shuffled h o.linked j k p (omega arith) (omega arith) r in
      let d = down_edges key Good h j k o p e (omega arith) r least le in
      (
        s,
        record {
          opened = record {
            good = swap-Good key Good h j k p (omega arith) (omega arith) r o.good;
            linked = s.linked;
            edges = λ i u v n m. d i u v m;
            bridged = down-Bridged key Good h j k o p e (omega arith) r;
          };
          above = λ u. d k u r (omega arith);
        },
      )

  -- When `siftdown` stops, the heirs are in order.
  stopped_under :
      (h : Heap) (j : ℕ)
      → Open key Good h j
      → 1 ≤ j
      → j ≤ h.count / 2
      → below less h j (heir less h j) ≡ true
      → (i : ℕ) → 2 ≤ i
      → i ≤ h.count
      → i / 2 ≡ j
      → at key Good h j ≤ at key Good h i
  stopped_under h j o p q e i r s t =
      let (f, k, least) = heir-Least h j o.good p q in
      ground
        (arith, below-lt h j (heir less h j) o.good p (omega arith) (omega arith) k, least i r s t)

  not_stopped :
      (h : Heap) (j : ℕ)
      → Open key Good h j
      → 1 ≤ j
      → j ≤ h.count / 2
      → below less h j (heir less h j) ≡ false
      → at key Good h (heir less h j) ≤ at key Good h j
  not_stopped h j o p q e =
      let (f, k, least) = heir-Least h j o.good p q in
      ground (arith, below-lt h j (heir less h j) o.good p (omega arith) (omega arith) k)

  siftdown-Sorted :
      (fuel j : ℕ) (h : Heap)
      → Down key Good h j
      → 1 ≤ j
      → j ≤ h.count
      → h.count ≤ j + fuel
      → Sorted key Good h (siftdown less fuel j h)
  unfolding siftdown
  siftdown-Sorted zero j h d p q f = Down-Sorted key Good h j d (λ i r s t. absurd (omega arith))
  siftdown-Sorted (suc fuel) j h d p q f =
      let k = heir less h j in
      let rest = siftdown less fuel k (swap j k h) in
      if_cases (Sorted key Good h) (leb j (h.count / 2)) (if below less h j k then h else rest) h
        (λ e.
          let in_half : j ≤ h.count / 2 = ground arith in
          if_cases (Sorted key Good h) (below less h j k) h rest
            (λ stop. Down-Sorted key Good h j d (stopped_under h j d.opened p in_half stop))
            (λ go.
              let (c, r, least) = heir-Least h j d.opened.good p in_half in
              let (s, d') =
                Down-swap h j d.opened p in_half (not_stopped h j d.opened p in_half go) in
              Sorted-trans key Good s
                (siftdown-Sorted fuel k (swap j k h) d' (omega arith) r (omega arith))))
        (λ e. Down-Sorted key Good h j d (λ i r s t. ground arith))

  Sorted-Up : {h k : Heap} (j : ℕ) → Sorted key Good h k → Up key Good k j
  Sorted-Up j s = record {
    opened = record {
      good = s.good;
      linked = s.shuffled.linked;
      edges = λ i p q n m. s.ordered i p q;
      bridged = λ i p q e r. ground (arith, s.ordered i p q, s.ordered j r);
    };
    under = λ i p q e. ground (arith, s.ordered i p q);
  }

  Open-Up :
      (h : Heap) (j : ℕ)
      → Open key Good h j
      → ((i : ℕ) → 2 ≤ i → i ≤ h.count → i / 2 ≡ j → at key Good h j ≤ at key Good h i)
      → Shuffled h h × Up key Good h j
  Open-Up h j o u = (Shuffled-refl h o.linked, record { opened = o; under = u })

  siftdown-Up :
      (fuel j : ℕ) (h : Heap)
      → Open key Good h j
      → 1 ≤ j
      → j ≤ h.count
      → h.count ≤ j + fuel
      → Shuffled h (siftdown less fuel j h) × Up key Good (siftdown less fuel j h) j
  unfolding siftdown
  siftdown-Up zero j h o p q f = Open-Up h j o (λ i r s t. absurd (omega arith))
  siftdown-Up (suc fuel) j h o p q f =
      let k = heir less h j in
      let rest = siftdown less fuel k (swap j k h) in
      let P = λ (m : Heap). Shuffled h m × Up key Good m j in
      if_cases P (leb j (h.count / 2)) (if below less h j k then h else rest) h
        (λ e.
          let in_half : j ≤ h.count / 2 = ground arith in
          if_cases P (below less h j k) h rest
            (λ stop. Open-Up h j o (stopped_under h j o p in_half stop))
            (λ go.
              let (c, r, least) = heir-Least h j o.good p in_half in
              let (s, d) = Down-swap h j o p in_half (not_stopped h j o p in_half go) in
              let t = siftdown-Sorted fuel k (swap j k h) d (omega arith) r (omega arith) in
              (Shuffled-trans s t.shuffled, Sorted-Up j t)))
        (λ e. Open-Up h j o (λ i r s t. ground arith))

  pub fix-Sorted :
      (j : ℕ) (h : Heap)
      → Open key Good h j
      → 1 ≤ j
      → j ≤ h.count
      → Sorted key Good h (fix less j h)
  unfolding fix
  fix-Sorted j h o p q =
      let (s, u) = siftdown-Up h.count j h o p q (omega arith) in
      Sorted-trans key Good s
        (siftup-Sorted j j (siftdown less h.count j h) u p (omega (arith, s.counts)) (omega arith))
