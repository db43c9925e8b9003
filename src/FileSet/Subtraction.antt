-- ===== src/FileSet/Subtraction.antt =====
-- `FileSet::SubtractAny` and `FileSet::SubtractNotIn` (FileSet.cc) as operations on maps from names.
use lftp.Prelude.{
  ◌≡◌, inl, inr, refl, sym, ap, ◌∙◌, Bool, not, none, List, [], ◌∷◌, Bytes, same, same_iff,
  Bool-cases, if_cases, if_both, if◌then◌else◌,
}
use lftp.FileSet.{FileInfo, find_by_name, sub_if, is_some, subtract_any, subtract_not_in}
use lftp.FileSet.Search.{Above, above, IsSorted, sorted}
use lftp.FileSet.Look.{look, find_by_name-look}
use lftp.FileSet.Names.{look-hit, look-miss}

sub_if-Above :
    (p : FileInfo → Bool) (a : Bytes) (fs : List FileInfo) → Above a fs → Above a (sub_if p fs)
sub_if-Above p a [] v = v
sub_if-Above p a (f ∷ fs) (above l v) =
    if_both (Above a) (p f) (sub_if p fs) (f ∷ sub_if p fs) (sub_if-Above p a fs v)
      (above l (sub_if-Above p a fs v))

sub_if-IsSorted : (p : FileInfo → Bool) (fs : List FileInfo) → IsSorted fs → IsSorted (sub_if p fs)
sub_if-IsSorted p [] s = s
sub_if-IsSorted p (f ∷ fs) (sorted v s) =
    if_both IsSorted (p f) (sub_if p fs) (f ∷ sub_if p fs) (sub_if-IsSorted p fs s)
      (sorted (sub_if-Above p f.name fs v) (sub_if-IsSorted p fs s))

-- A test of the names takes away what stands under them.
look-sub_if :
    (p : FileInfo → Bool) (q : Bytes → Bool) (fs : List FileInfo) (n : Bytes)
    → ((f : FileInfo) → p f ≡ q f.name)
    → look n (sub_if p fs) ≡ (if q n then none else look n fs)
look-sub_if p q [] n e = sym (if_both (λ o. o ≡ none) (q n) none none refl refl)
look-sub_if p q (f ∷ fs) n e =
    let r = sub_if p fs in
    let h = look-sub_if p q fs n e in
    elim (Bool-cases (same f.name n)) [
      | inl m ↦
          let g : p f ≡ q n = e f ∙ ap q ((same_iff f.name n).0 m) in
          if_cases (λ o. look n o ≡ (if q n then none else look n (f ∷ fs))) (p f) r (f ∷ r)
            (λ y. h ∙ rw (sym g ∙ y) refl)
            (λ y. look-hit n f r m ∙ sym (rw (sym g ∙ y) (look-hit n f fs m)))
      | inr m ↦
          if_both (λ o. look n o ≡ (if q n then none else look n (f ∷ fs))) (p f) r (f ∷ r)
            (h ∙ ap (λ o. if q n then none else o) (sym (look-miss n f fs m)))
            (look-miss n f r m ∙ h ∙ ap (λ o. if q n then none else o) (sym (look-miss n f fs m)))
    ]

-- Taking a set in order away from another in order leaves a set in order, in which nothing stands under a name that
-- the first set has, and under the other names what stood there. Taking away what is not in it leaves a set in order,
-- in which nothing stands under a name that the first set does not have, and under the others what stood there.
pub subtract_any-subtract_not_in :
    (set fs : List FileInfo)
    → IsSorted set
    → IsSorted fs
    → (IsSorted (subtract_any set fs)
        × ((n : Bytes)
            → look n (subtract_any set fs) ≡ (if is_some (look n set) then none else look n fs)))
      × (IsSorted (subtract_not_in set fs)
          × ((n : Bytes)
              → look n (subtract_not_in set fs)
                ≡ (if not (is_some (look n set)) then none else look n fs)))
subtract_any-subtract_not_in set fs s t =
    let found = λ (f : FileInfo). is_some (find_by_name set f.name) in
    let other = λ (f : FileInfo). not (is_some (find_by_name set f.name)) in
    (
      (
        sub_if-IsSorted found fs t,
        λ n.
            look-sub_if found (λ m. is_some (look m set)) fs n
              (λ f. ap is_some (find_by_name-look set f.name s)),
      ),
      (
        sub_if-IsSorted other fs t,
        λ n.
            look-sub_if other (λ m. not (is_some (look m set))) fs n
              (λ f. ap (λ o. not (is_some o)) (find_by_name-look set f.name s)),
      ),
    )
