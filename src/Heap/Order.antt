-- ===== src/Heap/Order.antt =====
-- The order of a heap (xheap.h): what `siftup` and `siftdown` need of it and what they restore.
use lftp.Prelude.{ℕ, ◌/◌, ◌≤◌, ◌<◌, ◌≡◌, ◌≢◌, if_cases, arith, ◌==◌, if◌then◌else◌}
use lftp.Heap.{Heap, swap}
use lftp.Heap.Links.{IsLinked, All, Shuffled, Shuffled-refl, Shuffled-trans}

-- `less` compares the `key`s of the nodes that are `Good`.
module _ {ℓ} (key : ℕ → ℕ) (Good : ℕ → Type ℓ) where
  abbrev pub at : Heap → ℕ → ℕ
  at h i = key (h.ptr i)

  abbrev pub IsOrdered : Heap → Type 0
  IsOrdered h = (i : ℕ) → 2 ≤ i → i ≤ h.count → at h (i / 2) ≤ at h i

  -- Across `j`, the nodes under it are in order with the one above it.
  abbrev pub Bridged : Heap → ℕ → Type 0
  Bridged h j = (i : ℕ) → 2 ≤ i → i ≤ h.count → i / 2 ≡ j → 2 ≤ j → at h (j / 2) ≤ at h i

  -- All is in order but the edges at `j`.
  pub record Open (h : Heap) (j : ℕ) : Type ℓ where
    pub good : All Good h
    pub linked : IsLinked h
    pub edges : (i : ℕ) → 2 ≤ i → i ≤ h.count → i ≢ j → i / 2 ≢ j → at h (i / 2) ≤ at h i
    pub bridged : Bridged h j

  -- Only the edge above `j` may be out of order.
  pub record Up (h : Heap) (j : ℕ) : Type ℓ where
    pub opened : Open h j
    pub under : (i : ℕ) → 2 ≤ i → i ≤ h.count → i / 2 ≡ j → at h j ≤ at h i

  -- Only the edges under `j` may be out of order.
  pub record Down (h : Heap) (j : ℕ) : Type ℓ where
    pub opened : Open h j
    pub above : 2 ≤ j → at h (j / 2) ≤ at h j

  -- What the loops return for `h`.
  pub record Sorted (h h' : Heap) : Type ℓ where
    pub good : All Good h'
    pub shuffled : Shuffled h h'
    pub ordered : IsOrdered h'

  pub Sorted-trans : {h k m : Heap} → Shuffled h k → Sorted k m → Sorted h m
  Sorted-trans s t = record {
    good = t.good;
    shuffled = Shuffled-trans s t.shuffled;
    ordered = t.ordered;
  }

  pub Down-Sorted :
      (h : Heap) (j : ℕ)
      → Down h j
      → ((i : ℕ) → 2 ≤ i → i ≤ h.count → i / 2 ≡ j → at h j ≤ at h i)
      → Sorted h h
  Down-Sorted h j d u = record {
    good = d.opened.good;
    shuffled = Shuffled-refl h d.opened.linked;
    ordered = λ i p q. ground (arith, d.opened.edges i p q, d.above, u i p q);
  }

  module _ (h : Heap) where
    pub swap-Good :
        (a b : ℕ) → 1 ≤ a → a ≤ h.count → 1 ≤ b → b ≤ h.count → All Good h → All Good (swap a b h)
    swap-Good a b p q r s g i u v =
        if_cases Good (i == a) (h.ptr b) (if i == b then h.ptr a else h.ptr i) (λ e. g b r s)
          (λ e. if_cases Good (i == b) (h.ptr a) (h.ptr i) (λ e. g a p q) (λ e. g i u v))

    -- One step of `siftup`.
    pub Up-edges :
        (j : ℕ)
        → Up h j
        → 2 ≤ j
        → j ≤ h.count
        → at h j < at h (j / 2)
        → (i : ℕ) → 2 ≤ i
        → i ≤ h.count
        → i ≢ j / 2
        → at (swap j (j / 2) h) (i / 2) ≤ at (swap j (j / 2) h) i
    Up-edges j u p q lt i r s n = ground (arith, u.opened.edges i, u.opened.bridged i, u.under i)

    pub Up-Bridged :
        (j : ℕ)
        → Up h j
        → 2 ≤ j
        → j ≤ h.count
        → at h j < at h (j / 2)
        → Bridged (swap j (j / 2) h) (j / 2)
    Up-Bridged j u p q lt i r s e t = ground (arith, u.opened.edges i, u.opened.edges (j / 2))

    -- One step of `siftdown`, to the heir `k`.
    pub down_edges :
        (j k : ℕ)
        → Open h j
        → 1 ≤ j
        → k / 2 ≡ j
        → 2 ≤ k
        → k ≤ h.count
        → ((i : ℕ) → 2 ≤ i → i ≤ h.count → i / 2 ≡ j → at h k ≤ at h i)
        → at h k ≤ at h j
        → (i : ℕ) → 2 ≤ i
        → i ≤ h.count
        → i / 2 ≢ k
        → at (swap j k h) (i / 2) ≤ at (swap j k h) i
    down_edges j k o p e q r least le i s t n =
        ground (arith, o.edges i s t, o.bridged k, least i s t)

    pub down-Bridged :
        (j k : ℕ) → Open h j → 1 ≤ j → k / 2 ≡ j → 2 ≤ k → k ≤ h.count → Bridged (swap j k h) k
    down-Bridged j k o p e q r i s t f u = ground (arith, o.edges i s t)
