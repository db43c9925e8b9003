-- ===== src/Scheduler/Lists.antt =====
-- The lists of xlist.h, whose nodes stand in the tasks of SMTask.cc: a list of addresses, none of them twice.
use lftp.Prelude.{ℕ, Bool, false, ◌||◌, List, [], ◌∷◌, ◌++◌, ◌==◌, if◌then◌else◌}
pub use lftp.Prelude.{head_or}

-- A failed assertion or a null pointer is a fault.
pub data Run {ℓ} (A : Type ℓ) : Type ℓ where
  fault : Run A
  no_fuel : Run A
  done : A → Run A

infixl 5 ◌>>=◌ ◌>>◌
abbrev pub ◌>>=◌ {ℓ κ} : {A : Type ℓ} {B : Type κ} → Run A → (A → Run B) → Run B
fault >>= f = fault
no_fuel >>= f = no_fuel
done a >>= f = f a

abbrev pub ◌>>◌ {ℓ κ} : {A : Type ℓ} {B : Type κ} → Run A → Run B → Run B
m >> k = m >>= λ _. k

-- `listed`, `add`, `add_tail` and `remove` of a node, with what they assert.
abbrev pub listed : ℕ → List ℕ → Bool
listed p [] = false
listed p (x ∷ l) = p == x || listed p l

abbrev pub without : ℕ → List ℕ → List ℕ
without p [] = []
without p (x ∷ l) = if p == x then l else x ∷ without p l

abbrev pub add : ℕ → List ℕ → Run (List ℕ)
add p l = if listed p l then fault else done (p ∷ l)

abbrev pub add_tail : ℕ → List ℕ → Run (List ℕ)
add_tail p l = if listed p l then fault else done (l ++ p ∷ [])

abbrev pub remove : ℕ → List ℕ → Run (List ℕ)
remove p l = if listed p l then done (without p l) else fault

abbrev pub remove_listed : ℕ → List ℕ → List ℕ
remove_listed p l = if listed p l then without p l else l

-- The node behind `p`, 0 for the head of the list. A node that is not listed has none.
abbrev pub behind : ℕ → List ℕ → Run ℕ
behind p [] = fault
behind p (x ∷ l) = if p == x then done (head_or 0 l) else behind p l

abbrev pub next_of : ℕ → List ℕ → Run ℕ
next_of p l = if p == 0 then done (head_or 0 l) else behind p l
