-- ===== src/Heap/Removal.antt =====
-- A node leaves a heap (xheap.h): what the last node does that takes its place.
use lftp.Prelude.{ℕ, ◌-◌, ◌/◌, ◌≤◌, ◌<◌, ◌≡◌, ◌≢◌, ◌↔◌, ◌⊎◌, if_cases, ◌==◌, if◌then◌else◌, arith}
use lftp.Heap.{Heap, swap, chop}
use lftp.Heap.Links.{IsLinked, All, swap-Shuffled}
use lftp.Heap.Order.{at, IsOrdered, Bridged, Open}

-- A heap in order: its nodes are `Good`, know their places, and null is none of them.
pub record IsHeap {ℓ} (key : ℕ → ℕ) (Good : ℕ → Type ℓ) (h : Heap) : Type ℓ where
  pub good : All Good h
  pub linked : IsLinked h
  pub ordered : IsOrdered key Good h
  pub null_out : h.index 0 ≡ 0

-- A heap that is in order but for the node `n`, which may stand anywhere in the order.
pub record Changed {ℓ} (key : ℕ → ℕ) (Good : ℕ → Type ℓ) (n : ℕ) (h : Heap) : Type ℓ where
  pub good : All (λ m. m ≢ n → Good m) h
  pub linked : IsLinked h
  pub edges :
      (i : ℕ)
      → 2 ≤ i
      → i ≤ h.count
      → i ≢ h.index n
      → i / 2 ≢ h.index n
      → at key Good h (i / 2) ≤ at key Good h i
  pub bridged : Bridged key Good h (h.index n)
  pub null_out : h.index 0 ≡ 0

chop-at_place :
    (h : Heap)
    → IsLinked h
    → 1 ≤ h.count
    → (i : ℕ) → 1 ≤ i
    → i ≤ h.count - 1
    → (chop h).index (h.ptr i) ≡ i
chop-at_place h l c i p q = ground (arith, l.at_place i, l.at_place h.count)

chop-place :
    (h : Heap)
    → IsLinked h
    → 1 ≤ h.count
    → (n : ℕ) → (chop h).index n ≢ 0
    → (chop h).index n ≤ h.count - 1
chop-place h l c n z = ground (arith, l.place n, l.back n)

pub chop-IsLinked : (h : Heap) → IsLinked h → 1 ≤ h.count → IsLinked (chop h)
chop-IsLinked h l c = record {
  at_place = chop-at_place h l c;
  place = chop-place h l c;
  back = λ n z. ground (arith, l.back n);
}

-- The members that are left.
pub chop-members :
    (h : Heap) (n : ℕ)
    → h.ptr h.count ≡ n
    → (m : ℕ) → ((chop h).index m ≡ 0) ↔ ((m ≡ n) ⊎ (h.index m ≡ 0))
chop-members h n e m = ground arith

module _ {ℓ} (key : ℕ → ℕ) (Good : ℕ → Type ℓ) where
  -- The last node leaves.
  pub chop-last :
      (h : Heap) (n : ℕ)
      → Changed key Good n h
      → 1 ≤ h.count
      → h.index n ≡ h.count
      → IsHeap key Good (chop h)
  chop-last h n v c e = record {
    good = λ i p q. v.good i p (omega arith) (λ f. ground (arith, v.linked.at_place i));
    linked = chop-IsLinked h v.linked c;
    ordered = λ i p q. v.edges i p (omega arith) (omega arith) (omega arith);
    null_out = ground (arith, v.null_out);
  }

  module _ (h : Heap) (n : ℕ) (v : Changed key Good n h) (inside : 1 ≤ h.index n)
      (early : h.index n < h.count) where
    moved-Good : All Good (chop (swap (h.index n) h.count h))
    moved-Good i p q =
        let i0 = h.index n in
        if_cases Good (i == i0) (h.ptr h.count) (if i == h.count then h.ptr i0 else h.ptr i)
          (λ e.
            v.good h.count (omega arith) (omega arith)
              (λ f. ground (arith, v.linked.at_place h.count)))
          (λ e.
            if_cases Good (i == h.count) (h.ptr i0) (h.ptr i) (λ f. absurd (ground arith))
              (λ f. v.good i p (omega arith) (λ g. ground (arith, v.linked.at_place i))))

    moved_edges :
        (i : ℕ)
        → 2 ≤ i
        → i ≤ h.count - 1
        → i ≢ h.index n
        → i / 2 ≢ h.index n
        → at key Good (swap (h.index n) h.count h) (i / 2)
          ≤ at key Good (swap (h.index n) h.count h) i
    moved_edges i p q r s = ground (arith, v.edges i)

    -- The last node in the place of `n`, and `n` gone.
    pub moved-Open : Open key Good (chop (swap (h.index n) h.count h)) (h.index n)
    moved-Open = record {
      good = moved-Good;
      linked =
          chop-IsLinked (swap (h.index n) h.count h)
            (swap-Shuffled h v.linked (h.index n) h.count inside (omega arith) (omega arith)
              (omega arith)).linked
            (omega arith);
      edges = moved_edges;
      bridged = λ i p q e r. ground (arith, v.bridged i);
    }

    pub moved-members :
        (m : ℕ) → ((chop (swap (h.index n) h.count h)).index m ≡ 0) ↔ ((m ≡ n) ⊎ (h.index m ≡ 0))
    moved-members m = ground (
      arith,
      v.linked.back n,
      (swap-Shuffled h v.linked (h.index n) h.count inside (omega arith) (omega arith)
            (omega arith)).members
          m,
    )
