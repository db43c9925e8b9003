-- ===== src/Heap/Tests.antt =====
-- Runs of the heap (xheap.h), and its theorems at small heaps.
use lftp.Prelude.{ℕ, ◌≤◌, ◌≡◌, refl, Option, none, some, ltb, arith, Bool}
use lftp.Prelude.Write.{write}
use lftp.Heap.{Heap, empty, get_min, siftup, siftdown, fix, remove_at, add, remove}
use lftp.Heap.Removal.{IsHeap}
use lftp.Heap.Laws.{Gives, Without, remove-IsHeap, IsHeap-Changed}

-- Nodes in the order of their addresses.
abbrev less : ℕ → ℕ → Bool
less a b = ltb a b

abbrev key : ℕ → ℕ
key n = n

abbrev Good : ℕ → Type 0
Good n = 1 ≤ n

abbrev and_then : Option Heap → (Heap → Option Heap) → Option Heap
and_then none f = none
and_then (some h) f = f h

abbrev root : Option Heap → ℕ
root none = 0
root (some h) = get_min h

abbrev four : Option Heap
four = and_then (and_then (and_then (add less 7 empty) (add less 5)) (add less 9)) (add less 2)

least_first : root four ≡ 2
unfolding add siftup
least_first = refl

next_least : root (and_then four (remove less 2)) ≡ 5
unfolding add siftup remove remove_at fix siftdown
next_least = refl

abbrev one : Heap
one = record { count = 1; ptr = write (λ i. 0) 1 5; index = write (λ n. 0) 5 1 }

one-IsHeap : IsHeap key Good one
one-IsHeap = record {
  good = λ i p q. ground arith;
  linked = record {
    at_place = λ i p q. ground arith;
    place = λ n z. ground arith;
    back = λ n z. ground arith;
  };
  ordered = λ i p q. absurd (omega arith);
  null_out = refl;
}

remove-IsHeap_example : Gives (λ h'. IsHeap key Good h' × Without 5 one h') (remove less 5 one)
remove-IsHeap_example =
    remove-IsHeap less key Good (λ a b p q. refl) one 5
      (IsHeap-Changed less key Good (λ a b p q. refl) one 5 one-IsHeap)
