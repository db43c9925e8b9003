-- ===== src/Heap.antt =====
-- The binary heap of xheap.h: nodes in an array, each of which keeps its own place.
pub mod Links
pub mod Order
pub mod Sift
pub mod Removal
pub mod Laws
mod Tests
use lftp.Prelude.{
  ℕ, zero, suc, ◌+◌, ◌-◌, ◌*◌, ◌/◌, Bool, ◌&&◌, ◌||◌, Option, none, some, ◌==◌, ltb, leb,
  if◌then◌else◌,
}
use lftp.Prelude.Write.{write}

-- Nodes are addresses. `ptr` counts from 1, and `index` is 0 for a node outside the heap.
pub record Heap : Type 0 where
  pub count : ℕ
  pub ptr : ℕ → ℕ
  pub index : ℕ → ℕ

abbrev pub empty : Heap
empty = record { count = 0; ptr = λ i. 0; index = λ n. 0 }

-- `replace_value` writes `ptr(a)` to `ptr(b)` and returns what stood there.
abbrev pub swap : ℕ → ℕ → Heap → Heap
swap a b h =
    let ptr = write (write h.ptr b (h.ptr a)) a (h.ptr b) in
    record h { ptr = ptr; index = write (write h.index (ptr a) a) (ptr b) b }

abbrev pub chop : Heap → Heap
chop h = record h { count = h.count - 1; index = write h.index (h.ptr h.count) 0 }

-- `heap.append(&n)` and `n.heap_index=count()`.
abbrev pub append : ℕ → Heap → Heap
append n h = record {
  count = h.count + 1;
  ptr = write h.ptr (h.count + 1) n;
  index = write h.index n (h.count + 1);
}

-- The node at the root, or 0.
abbrev pub get_min : Heap → ℕ
get_min h = if ltb 0 h.count then h.ptr 1 else 0

-- The `assert(!x.heap_index)` behind the removal is `checked`.
abbrev pub checked : ℕ → Option Heap → Option Heap
checked n none = none
checked n (some h) = if h.index n == 0 then some h else none

abbrev pub taken : ℕ → Option Heap → Option (ℕ × Heap)
taken m none = none
taken m (some h) = some (m, h)

-- `less` is the `operator<` of what the nodes stand for.
module _ (less : ℕ → ℕ → Bool) where
  abbrev pub below : Heap → ℕ → ℕ → Bool
  below h i j = less (h.ptr i) (h.ptr j)

  unfoldable pub siftup : ℕ → ℕ → Heap → Heap
  siftup zero i h = h
  siftup (suc fuel) i h =
      let rest = siftup fuel (i / 2) (swap i (i / 2) h) in
      if ltb 1 i && below h i (i / 2) then rest else h

  -- The smallest of the heirs of `i`.
  abbrev pub heir : Heap → ℕ → ℕ
  heir h i = if ltb (i * 2) h.count && below h (i * 2 + 1) (i * 2) then i * 2 + 1 else i * 2

  unfoldable pub siftdown : ℕ → ℕ → Heap → Heap
  siftdown zero i h = h
  siftdown (suc fuel) i h =
      let j = heir h i in
      let rest = siftdown fuel j (swap i j h) in
      if leb i (h.count / 2) then (if below h i j then h else rest) else h

  -- `siftup` halves `i` and `siftdown` at least doubles it, up to the count.
  unfoldable pub fix : ℕ → Heap → Heap
  fix i h = siftup i i (siftdown h.count i h)

  -- `none` is a failed `assert`.
  unfoldable pub remove_at : ℕ → Heap → Option Heap
  remove_at i h =
      let h' = swap i h.count h in
      if i == h.count
      then some (chop h)
      else if ltb 0 i && ltb i h.count
      then some (fix i (chop h'))
      else none

  unfoldable pub add : ℕ → Heap → Option Heap
  add n h =
      let i = h.index n in
      let h' = append n h in
      if i == 0
      then some (siftup h'.count h'.count h')
      else if leb i h.count && h.ptr i == n
      then some h
      else none

  unfoldable pub remove : ℕ → Heap → Option Heap
  remove n h =
      let i = h.index n in
      let rest = checked n (remove_at i h) in
      if i == 0 then some h else if h.ptr i == n then rest else none

  -- The node at the root, or 0, and the heap without it.
  unfoldable pub pop_min : Heap → Option (ℕ × Heap)
  pop_min h = let m = get_min h in if m == 0 then some (0, h) else taken m (remove_at 1 h)
