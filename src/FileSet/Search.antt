-- ===== src/FileSet/Search.antt =====
-- `FileSet::FindGEIndByName` (FileSet.cc): the binary search finds the first name that is not less.
use lftp.Prelude.{
  ℕ, zero, suc, ◌+◌, ◌-◌, ◌/◌, ◌≤◌, ◌<◌, ◌≡◌, inl, inr, subst, Bool, true, false, ◌||◌, List, [],
  ◌∷◌, Bytes, Bool-cases, length, if_cases, if◌then◌else◌, arith, ltb, ◌==◌,
}
use lftp.Prelude.Order.{less, less_asym, less_trans, less_total}
use lftp.FileSet.{FileInfo, name_at, bisect, find_ge}

-- The names behind `name`, and names in order, none of them twice.
pub data Above (name : Bytes) : List FileInfo → Type 0 where
  none_above : Above name []
  above :
      {f : FileInfo} {fs : List FileInfo}
      → less name f.name ≡ true
      → Above name fs
      → Above name (f ∷ fs)

pub data IsSorted : List FileInfo → Type 0 where
  none_sorted : IsSorted []
  sorted : {f : FileInfo} {fs : List FileInfo} → Above f.name fs → IsSorted fs → IsSorted (f ∷ fs)

-- How many names in front are less.
abbrev pub position : Bytes → List FileInfo → ℕ
position name [] = 0
position name (f ∷ fs) = if less f.name name then suc (position name fs) else 0

pub Above-trans : (a b : Bytes) (fs : List FileInfo) → less a b ≡ true → Above b fs → Above a fs
Above-trans a b [] l v = none_above
Above-trans a b (f ∷ fs) l (above m v) = above (less_trans a b f.name l m) (Above-trans a b fs l v)

Above-name_at :
    (name : Bytes) (fs : List FileInfo) (i : ℕ)
    → Above name fs
    → i < length fs
    → less name (name_at fs i) ≡ true
Above-name_at name [] i v p = absurd (omega arith)
Above-name_at name (f ∷ fs) zero (above l v) p = l
Above-name_at name (f ∷ fs) (suc i) (above l v) p = Above-name_at name fs i v (omega arith)

-- What is not less than `b` stands behind it or is the same.
less-not_less : (a b c : Bytes) → less a b ≡ false → less a c ≡ true → less b c ≡ true
less-not_less a b c n l = elim (Bool-cases (less b a)) [
  | inl m ↦ less_trans b a c m l
  | inr m ↦ subst (λ x. less x c ≡ true) (less_total a b n m) l
]

pub position-le : (name : Bytes) (fs : List FileInfo) → position name fs ≤ length fs
position-le name [] = omega arith
position-le name (f ∷ fs) = ground (arith, position-le name fs)

before_position :
    (name : Bytes) (fs : List FileInfo) (i : ℕ)
    → i < position name fs
    → less (name_at fs i) name ≡ true
before_position name [] i p = absurd (omega arith)
before_position name (f ∷ fs) zero p = ground arith
before_position name (f ∷ fs) (suc i) p = ground (arith, before_position name fs i)

behind_position :
    (name : Bytes) (fs : List FileInfo) (i : ℕ)
    → IsSorted fs
    → position name fs < i
    → i < length fs
    → less name (name_at fs i) ≡ true
behind_position name [] i s p q = absurd (omega arith)
behind_position name (f ∷ fs) zero s p q = absurd (omega arith)
behind_position name (f ∷ fs) (suc i) (sorted v s) p q = elim (Bool-cases (less f.name name)) [
  | inl l ↦ behind_position name fs i s (ground arith) (omega arith)
  | inr l ↦ less-not_less f.name name (name_at fs i) l (Above-name_at f.name fs i v (omega arith))
]

at_position :
    (name : Bytes) (fs : List FileInfo)
    → position name fs < length fs
    → less (name_at fs (position name fs)) name ≡ false
at_position name [] p = absurd (omega arith)
at_position name (f ∷ fs) p = elim (Bool-cases (less f.name name)) [
  | inl l ↦ rw l (at_position name fs (ground arith))
  | inr l ↦ rw l l
]

true-false : {b : Bool} → b ≡ true → b ≡ false → ⊥
true-false p q = ground arith

module _ (fs : List FileInfo) (name : Bytes) (s : IsSorted fs) where
  -- A name that is less stands before the position, and one that is greater at it or behind.
  less-before : (m : ℕ) → m < length fs → less (name_at fs m) name ≡ true → m < position name fs
  less-before m p l =
      if_cases (λ (x : Bool). m < position name fs) (ltb m (position name fs)) true false
        (λ e. ground arith)
        (λ e. absurd (
          if_cases (λ (x : Bool). ⊥) (m == position name fs) true false
            (λ f.
              true-false (subst (λ i. less (name_at fs i) name ≡ true) (equal f) l)
                (at_position name fs (ground arith)))
            (λ f.
              true-false l
                (less_asym name (name_at fs m) (behind_position name fs m s (ground arith) p)))))
    where
      equal : (m == position name fs) ≡ true → m ≡ position name fs
      equal f = ground arith

  not_less-behind : (m : ℕ) → less (name_at fs m) name ≡ false → position name fs ≤ m
  not_less-behind m l =
      if_cases (λ (x : Bool). position name fs ≤ m) (ltb m (position name fs)) true false
        (λ e. absurd (true-false (before_position name fs m (ground arith)) l)) (λ e. ground arith)

  not_behind : (m : ℕ) → m < length fs → less name (name_at fs m) ≡ false → m ≤ position name fs
  not_behind m p l =
      if_cases (λ (x : Bool). m ≤ position name fs) (ltb (position name fs) m) true false
        (λ e. absurd (true-false (behind_position name fs m s (ground arith) p) l))
        (λ e. ground arith)

  bisect-position :
      (fuel l u : ℕ)
      → l ≤ position name fs
      → position name fs ≤ u
      → u < length fs
      → u ≤ l + fuel
      → bisect fuel fs name l u ≡ position name fs
  unfolding bisect
  bisect-position zero l u p q r f = omega arith
  bisect-position (suc fuel) l u p q r f =
      let m = (l + u) / 2 in
      let P = λ (x : ℕ). x ≡ position name fs in
      let lower = bisect fuel fs name l m in
      let upper = bisect fuel fs name (m + 1) u in
      if_cases P (ltb l u)
        (if less name (name_at fs m) then lower else if less (name_at fs m) name then upper else m)
        u
        (λ e.
          let lt : l < u = ground arith in
          if_cases P (less name (name_at fs m)) lower
            (if less (name_at fs m) name then upper else m)
            (λ g.
              bisect-position fuel l m p (not_less-behind m (less_asym name (name_at fs m) g))
                (omega arith) (omega arith))
            (λ g.
              if_cases P (less (name_at fs m) name) upper m
                (λ h.
                  bisect-position fuel (m + 1) u (omega (arith, less-before m (omega arith) h)) q r
                    (omega arith))
                (λ h. omega (arith, not_less-behind m h, not_behind m (omega arith) g))))
        (λ e. ground arith)

  -- In a set in order by name, the binary search finds the first file whose name is not less than the
  -- given one, and the number of files when all are less.
  pub find_ge-position : find_ge fs name ≡ position name fs
  unfolding find_ge
  find_ge-position =
      let n = length fs in
      if_cases (λ x. x ≡ position name fs) (n == 0 || less (name_at fs (n - 1)) name) n
        (bisect n fs name 0 (n - 1)) (λ e. all e)
        (λ e.
          bisect-position n 0 (n - 1) (omega arith) (not_less-behind (n - 1) (ground arith))
            (ground arith) (omega arith))
    where
      all :
          (length fs == 0 || less (name_at fs (length fs - 1)) name) ≡ true
          → length fs ≡ position name fs
      all e =
          if_cases (λ (x : Bool). length fs ≡ position name fs) (length fs == 0) true false
            (λ f. ground (arith, position-le name fs))
            (λ f. ground (arith, position-le name fs, less-before (length fs - 1)))
