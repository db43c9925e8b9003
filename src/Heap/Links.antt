-- ===== src/Heap/Links.antt =====
-- The nodes of a heap (xheap.h) know their places, and sifting moves them without losing one.
use lftp.Prelude.{ℕ, ◌≤◌, ◌≡◌, ◌≢◌, ◌↔◌, refl, arith}
use lftp.Heap.{Heap, swap}

pub record IsLinked (h : Heap) : Type 0 where
  pub at_place : (i : ℕ) → 1 ≤ i → i ≤ h.count → h.index (h.ptr i) ≡ i
  pub place : (n : ℕ) → h.index n ≢ 0 → h.index n ≤ h.count
  pub back : (n : ℕ) → h.index n ≢ 0 → h.ptr (h.index n) ≡ n

-- Every node of the heap has the property `P`.
abbrev pub All {ℓ} : (ℕ → Type ℓ) → Heap → Type ℓ
All P h = (i : ℕ) → 1 ≤ i → i ≤ h.count → P (h.ptr i)

-- `h'` holds the nodes of `h`, at other places perhaps.
pub record Shuffled (h h' : Heap) : Type 0 where
  pub linked : IsLinked h'
  pub counts : h'.count ≡ h.count
  pub members : (n : ℕ) → (h'.index n ≡ 0) ↔ (h.index n ≡ 0)

pub Shuffled-refl : (h : Heap) → IsLinked h → Shuffled h h
Shuffled-refl h l = record { linked = l; counts = refl; members = λ n. (λ e. e, λ e. e) }

pub Shuffled-trans : {h k m : Heap} → Shuffled h k → Shuffled k m → Shuffled h m
Shuffled-trans s t = record {
  linked = t.linked;
  counts = ground (arith, s.counts, t.counts);
  members = λ n. ground (arith, s.members n, t.members n);
}

module _ (h : Heap) (l : IsLinked h) (a b : ℕ) where
  swap-back :
      1 ≤ a
      → a ≤ h.count
      → 1 ≤ b
      → b ≤ h.count
      → (n : ℕ) → (swap a b h).index n ≢ 0
      → (swap a b h).ptr ((swap a b h).index n) ≡ n
  swap-back p q r s n z = ground (arith, l.at_place a, l.at_place b, l.back n)

  swap-at_place :
      1 ≤ a
      → a ≤ h.count
      → 1 ≤ b
      → b ≤ h.count
      → (i : ℕ) → 1 ≤ i
      → i ≤ h.count
      → (swap a b h).index ((swap a b h).ptr i) ≡ i
  swap-at_place p q r s i u v = ground (arith, l.at_place a, l.at_place b, l.at_place i)

  swap-place :
      1 ≤ a
      → a ≤ h.count
      → 1 ≤ b
      → b ≤ h.count
      → (n : ℕ) → (swap a b h).index n ≢ 0
      → (swap a b h).index n ≤ h.count
  swap-place p q r s n z = ground (arith, l.place n)

  swap-members :
      1 ≤ a
      → a ≤ h.count
      → 1 ≤ b
      → b ≤ h.count
      → (n : ℕ) → ((swap a b h).index n ≡ 0) ↔ (h.index n ≡ 0)
  swap-members p q r s n = ground (arith, l.at_place a, l.at_place b)

  pub swap-Shuffled : 1 ≤ a → a ≤ h.count → 1 ≤ b → b ≤ h.count → Shuffled h (swap a b h)
  swap-Shuffled p q r s = record {
    linked = record {
      at_place = swap-at_place p q r s;
      place = swap-place p q r s;
      back = swap-back p q r s;
    };
    counts = refl;
    members = swap-members p q r s;
  }
