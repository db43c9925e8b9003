-- ===== src/Queue/Linked.antt =====
-- The list that a head and a tail pointer of QueueFeeder.cc stand for, as the list of its
-- addresses, and what writes of single links do to it.
use lftp.Prelude.{ℕ, ◌≡◌, ◌≢◌, refl, sym, List, [], ◌∷◌, ◌++◌, arith}
pub use lftp.Prelude.{head_or, if_nonzero, if_zero}
use lftp.Queue.Store.{Store, set_next, set_prev}

abbrev pub last_or : ℕ → List ℕ → ℕ
last_or b [] = b
last_or b (x ∷ xs) = last_or x xs

abbrev pub Absent : ℕ → List ℕ → Type 0
Absent p [] = Unit {0}
Absent p (x ∷ xs) = (p ≢ x) × Absent p xs

abbrev pub Apart : List ℕ → List ℕ → Type 0
Apart [] ys = Unit {0}
Apart (x ∷ xs) ys = Absent x ys × Apart xs ys

abbrev pub Distinct : List ℕ → Type 0
Distinct [] = Unit {0}
Distinct (x ∷ xs) = Absent x xs × Distinct xs

-- The jobs `xs`, linked both ways, between the jobs `b` and `a`; either may be null.
abbrev pub Linked : Store → ℕ → List ℕ → ℕ → Type 0
Linked h b [] a = Unit {0}
Linked h b (x ∷ xs) a = (x ≢ 0) × (h.prev x ≡ b) × (h.next x ≡ head_or a xs) × Linked h x xs a

pub Absent-append : (p : ℕ) (xs ys : List ℕ) → Absent p (xs ++ ys) → Absent p xs × Absent p ys
Absent-append p [] ys h = (tt, h)
Absent-append p (x ∷ xs) ys (n, h) = let (a, b) = Absent-append p xs ys h in ((n, a), b)

pub append-Absent : (p : ℕ) (xs ys : List ℕ) → Absent p xs → Absent p ys → Absent p (xs ++ ys)
append-Absent p [] ys h k = k
append-Absent p (x ∷ xs) ys (n, h) k = (n, append-Absent p xs ys h k)

pub Distinct-append :
    (xs ys : List ℕ) → Distinct (xs ++ ys) → Distinct xs × Distinct ys × Apart xs ys
Distinct-append [] ys d = (tt, d, tt)
Distinct-append (x ∷ xs) ys (n, d) =
    let (a, b, c) = Distinct-append xs ys d in
    let (u, v) = Absent-append x xs ys n in ((u, a), b, (v, c))

pub append-Distinct :
    (xs ys : List ℕ) → Distinct xs → Distinct ys → Apart xs ys → Distinct (xs ++ ys)
append-Distinct [] ys d e a = e
append-Distinct (x ∷ xs) ys (n, d) e (k, a) =
    (append-Absent x xs ys n k, append-Distinct xs ys d e a)

pub Apart-cons : (y : ℕ) (xs ys : List ℕ) → Apart xs (y ∷ ys) → Absent y xs × Apart xs ys
Apart-cons y [] ys h = (tt, tt)
Apart-cons y (x ∷ xs) ys ((n, k), h) =
    let (a, b) = Apart-cons y xs ys h in (((λ e. n (sym e)), a), (k, b))

-- The last of the jobs is none of the jobs that all of them are apart from.
pub last_or-Absent : (x : ℕ) (xs ys : List ℕ) → Apart (x ∷ xs) ys → Absent (last_or x xs) ys
last_or-Absent x [] ys (k, h) = k
last_or-Absent x (y ∷ xs) ys (k, h) = last_or-Absent y xs ys h

pub Absent-last_or : (p x : ℕ) (xs : List ℕ) → Absent p (x ∷ xs) → p ≢ last_or x xs
Absent-last_or p x [] (n, h) = n
Absent-last_or p x (y ∷ xs) (n, h) = Absent-last_or p y xs h

pub Linked-append :
    (h : Store) (b : ℕ) (xs ys : List ℕ) (a : ℕ)
    → Linked h b (xs ++ ys) a
    → Linked h b xs (head_or a ys) × Linked h (last_or b xs) ys a
Linked-append h b [] ys a l = (tt, l)
Linked-append h b (x ∷ []) ys a (n, p, q, l) = ((n, p, q, tt), l)
Linked-append h b (x ∷ y ∷ xs) ys a (n, p, q, l) =
    let (u, v) = Linked-append h x (y ∷ xs) ys a l in ((n, p, q, u), v)

pub append-Linked :
    (h : Store) (b : ℕ) (xs ys : List ℕ) (a : ℕ)
    → Linked h b xs (head_or a ys)
    → Linked h (last_or b xs) ys a
    → Linked h b (xs ++ ys) a
append-Linked h b [] ys a l k = k
append-Linked h b (x ∷ []) ys a (n, p, q, l) k = (n, p, q, k)
append-Linked h b (x ∷ y ∷ xs) ys a (n, p, q, l) k = (n, p, q, append-Linked h x (y ∷ xs) ys a l k)

-- A write at an address that is none of the jobs.
module _ (h : Store) (p v : ℕ) where
  pub set_next-Linked :
      (b : ℕ) (xs : List ℕ) (a : ℕ) → Absent p xs → Linked h b xs a → Linked (set_next h p v) b xs a
  set_next-Linked b [] a n l = tt
  set_next-Linked b (x ∷ xs) a (n, m) (z, u, w, l) =
      (z, u, ground arith, set_next-Linked x xs a m l)

  pub set_prev-Linked :
      (b : ℕ) (xs : List ℕ) (a : ℕ) → Absent p xs → Linked h b xs a → Linked (set_prev h p v) b xs a
  set_prev-Linked b [] a n l = tt
  set_prev-Linked b (x ∷ xs) a (n, m) (z, u, w, l) =
      (z, ground arith, w, set_prev-Linked x xs a m l)

-- The last job can be given another successor, and the first one another predecessor.
pub relink_last :
    (h : Store) (b x : ℕ) (xs : List ℕ) (a c : ℕ)
    → Distinct (x ∷ xs)
    → Linked h b (x ∷ xs) a
    → Linked (set_next h (last_or x xs) c) b (x ∷ xs) c
relink_last h b x [] a c d (z, u, w, l) = (z, u, ground arith, tt)
relink_last h b x (y ∷ xs) a c (n, d) (z, u, w, l) =
    let apart = Absent-last_or x y xs n in (z, u, ground arith, relink_last h x y xs a c d l)

pub relink_first :
    (h : Store) (b x : ℕ) (xs : List ℕ) (a c : ℕ)
    → Distinct (x ∷ xs)
    → Linked h b (x ∷ xs) a
    → Linked (set_prev h x c) c (x ∷ xs) a
relink_first h b x xs a c (n, d) (z, u, w, l) =
    (z, ground arith, w, set_prev-Linked h x c x xs a n l)

pub last_or-append :
    (b : ℕ) (xs : List ℕ) (y : ℕ) (ys : List ℕ) → last_or b (xs ++ y ∷ ys) ≡ last_or y ys
last_or-append b [] y ys = refl
last_or-append b (x ∷ xs) y ys = last_or-append x xs y ys
