-- ===== src/Scheduler/Links.antt =====
-- Laws of the lists of xlist.h: a node is listed at most once.
use lftp.Prelude.{
  ℕ, suc, length, ◌≤◌, ◌≡◌, refl, true, false, not, ◌&&◌, ◌||◌, List, [], ◌∷◌, ◌++◌, arith, ◌==◌,
  if◌then◌else◌,
}
use lftp.Scheduler.Lists.{
  Run, fault, no_fuel, done, ◌>>=◌, listed, without, remove_listed, head_or, behind,
}

abbrev pub Distinct : List ℕ → Type 0
Distinct [] = Unit {0}
Distinct (x ∷ l) = (listed x l ≡ false) × Distinct l

pub listed-append : (q : ℕ) (l r : List ℕ) → listed q (l ++ r) ≡ (listed q l || listed q r)
listed-append q [] r = refl
listed-append q (x ∷ l) r = ground (arith, listed-append q l r)

pub listed-tail : (q p : ℕ) (l : List ℕ) → listed q (l ++ p ∷ []) ≡ (listed q l || q == p)
listed-tail q p l = ground (arith, listed-append q l (p ∷ []))

pub listed-without :
    (q p : ℕ) (l : List ℕ) → Distinct l → listed q (without p l) ≡ (not (q == p) && listed q l)
listed-without q p [] d = ground arith
listed-without q p (x ∷ l) (n, d) = ground (arith, listed-without q p l d)

pub listed-remove_listed :
    (q p : ℕ) (l : List ℕ)
    → Distinct l
    → listed q (remove_listed p l) ≡ (not (q == p) && listed q l)
listed-remove_listed q p l d = ground (arith, listed-without q p l d)

pub length-without :
    (p : ℕ) (l : List ℕ) → listed p l ≡ true → length l ≡ suc (length (without p l))
length-without p [] m = absurd (ground arith)
length-without p (x ∷ l) m = ground (arith, length-without p l)

pub Distinct-tail : (p : ℕ) (l : List ℕ) → listed p l ≡ false → Distinct l → Distinct (l ++ p ∷ [])
Distinct-tail p [] e d = (refl, tt)
Distinct-tail p (x ∷ l) e (n, d) =
    (ground (arith, listed-tail x p l), Distinct-tail p l (ground arith) d)

pub Distinct-without : (p : ℕ) (l : List ℕ) → Distinct l → Distinct (without p l)
Distinct-without p [] d = d
Distinct-without p (x ∷ l) (n, d) = ground (arith, listed-without x p l d, Distinct-without p l d)

pub Distinct-remove_listed : (p : ℕ) (l : List ℕ) → Distinct l → Distinct (remove_listed p l)
Distinct-remove_listed p l d = ground (arith, Distinct-without p l d)

-- The part of a list before a node does not have it.
pub Distinct-before : (p : ℕ) (l r : List ℕ) → Distinct (l ++ p ∷ r) → listed p l ≡ false
Distinct-before p [] r d = refl
Distinct-before p (x ∷ l) r (n, d) =
    ground (arith, Distinct-before p l r d, listed-append x l (p ∷ r))

pub without-middle : (p : ℕ) (l r : List ℕ) → listed p l ≡ false → without p (l ++ p ∷ r) ≡ l ++ r
without-middle p [] r e = ground arith
without-middle p (x ∷ l) r e = ground (arith, without-middle p l r)

pub behind-middle :
    (p : ℕ) (l r : List ℕ) → listed p l ≡ false → behind p (l ++ p ∷ r) ≡ done (head_or 0 r)
behind-middle p [] r e = ground arith
behind-middle p (x ∷ l) r e = ground (arith, behind-middle p l r)

pub listed-middle : (p : ℕ) (l r : List ℕ) → listed p (l ++ p ∷ r) ≡ true
listed-middle p [] r = ground arith
listed-middle p (x ∷ l) r = ground (arith, listed-middle p l r)

abbrev pub count : ℕ → List ℕ → ℕ
count p [] = 0
count p (x ∷ l) = if p == x then suc (count p l) else count p l

-- A call ends without a fault, and what it gives has `P`.
abbrev pub Returns : {A : Type 0} → Run A → (A → Type 0) → Type 0
Returns fault P = ⊥
Returns no_fuel P = ⊥
Returns (done a) P = P a

pub Returns-bind :
    {A B : Type 0} (Q : A → Type 0) (P : B → Type 0) (m : Run A) (f : A → Run B)
    → Returns m Q
    → ((a : A) → Q a → Returns (f a) P)
    → Returns (m >>= f) P
Returns-bind Q P fault f h k = absurd h
Returns-bind Q P no_fuel f h k = absurd h
Returns-bind Q P (done a) f h k = k a h

-- Distinct nodes of a list are no more than its nodes.
pub Distinct-length :
    (l w : List ℕ)
    → Distinct l
    → Distinct w
    → ((q : ℕ) → listed q l ≡ true → listed q w ≡ true)
    → length l ≤ length w
Distinct-length [] w d e f = omega arith
Distinct-length (p ∷ l) w (n, d) e f =
    let m : listed p w ≡ true = f p (ground arith) in
    omega (
      arith,
      Distinct-length l (without p w) d (Distinct-without p w e)
          (λ q h. ground (arith, f q, listed-without q p w e)),
      length-without p w m,
    )
