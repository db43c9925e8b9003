-- ===== src/FileSet/Look.antt =====
-- The files of a set (FileSet.cc) by name, and the search for one.
use lftp.Prelude.{
  ℕ, suc, ◌≡◌, inl, inr, refl, sym, ap, ◌∙◌, true, false, ◌&&◌, Option, none, some, List, [], ◌∷◌,
  Bytes, same, same_iff, same_refl, Bool-cases, length, if_cases, if_both, if◌then◌else◌, arith,
  ltb,
}
use lftp.Prelude.Order.{less, less_irrefl, less_total}
use lftp.FileSet.{FileInfo, merge_info, basename, merged, name_at, file_at, is_at, find_by_name}
use lftp.FileSet.Known.{merge_info-known}
use lftp.FileSet.Search.{Above, above, IsSorted, sorted, position, Above-trans, find_ge-position}

-- What stands under a name.
abbrev pub look : Bytes → List FileInfo → Option FileInfo
look name [] = none
look name (f ∷ fs) = if same f.name name then some f else look name fs

pub merged-name : (t f : FileInfo) → (merged t f).name ≡ t.name
unfolding merged
merged-name t f =
    if_both (λ r. r.name ≡ t.name) (same (basename t.name) (basename f.name)) (merge_info f t) t
      (ap (λ r. r.name) (merge_info-known f t)) refl

pub less-same : (a b : Bytes) → less a b ≡ true → same a b ≡ false
less-same a b l = elim (Bool-cases (same a b)) [
  | inl e ↦ absurd (go (sym l ∙ ap (less a) (sym ((same_iff a b).0 e)) ∙ less_irrefl a))
  | inr e ↦ e
]
  where
    go : true ≡ false → ⊥
    go y = ground arith

pub greater-same : (a b : Bytes) → less b a ≡ true → same a b ≡ false
greater-same a b l = elim (Bool-cases (same a b)) [
  | inl e ↦ absurd (go (sym l ∙ ap (less b) ((same_iff a b).0 e) ∙ less_irrefl b))
  | inr e ↦ e
]
  where
    go : true ≡ false → ⊥
    go y = ground arith

-- What is neither less nor the same is greater.
pub other-less : (a b : Bytes) → less a b ≡ false → same a b ≡ false → less b a ≡ true
other-less a b l s = elim (Bool-cases (less b a)) [
  | inl m ↦ m
  | inr m ↦ absurd (go (sym (same_refl a) ∙ ap (same a) (less_total a b l m) ∙ s))
]
  where
    go : true ≡ false → ⊥
    go y = ground arith

pub look-Above : (name : Bytes) (fs : List FileInfo) → Above name fs → look name fs ≡ none
look-Above name [] v = refl
look-Above name (f ∷ fs) (above l v) = rw (greater-same f.name name l) (look-Above name fs v)

-- The search at the position, from the front.
abbrev found_at : List FileInfo → Bytes → ℕ → Option FileInfo
found_at fs name n = if is_at fs name n then file_at fs n else none

found_at-suc :
    (f : FileInfo) (fs : List FileInfo) (name : Bytes) (n : ℕ)
    → found_at (f ∷ fs) name (suc n) ≡ found_at fs name n
found_at-suc f fs name n = ap (λ b. if b && same (name_at fs n) name then file_at fs n else none) e
  where
    e : ltb (suc n) (suc (length fs)) ≡ ltb n (length fs)
    e = ground arith

found_at-zero :
    (f : FileInfo) (fs : List FileInfo) (name : Bytes)
    → found_at (f ∷ fs) name 0 ≡ (if same f.name name then some f else none)
found_at-zero f fs name = ap (λ b. if b && same f.name name then some f else none) e
  where
    e : ltb 0 (suc (length fs)) ≡ true
    e = ground arith

found_at-look :
    (fs : List FileInfo) (name : Bytes)
    → IsSorted fs
    → found_at fs name (position name fs) ≡ look name fs
found_at-look [] name s = ground arith
found_at-look (f ∷ fs) name (sorted v s) = elim (Bool-cases (less f.name name)) [
  | inl l ↦
      ap (found_at (f ∷ fs) name) (rw l refl)
      ∙ found_at-suc f fs name (position name fs)
      ∙ found_at-look fs name s
      ∙ rw (less-same f.name name l) refl
  | inr l ↦
      ap (found_at (f ∷ fs) name) (rw l refl)
      ∙ found_at-zero f fs name
      ∙ if_cases (λ (o : Option FileInfo). (if same f.name name then some f else none) ≡ o)
          (same f.name name) (some f) (look name fs) (λ e. rw e refl)
          (λ e.
            rw e (
              sym (look-Above name fs (Above-trans name f.name fs (other-less f.name name l e) v))))
]

pub find_by_name-look :
    (fs : List FileInfo) (name : Bytes) → IsSorted fs → find_by_name fs name ≡ look name fs
unfolding find_by_name
find_by_name-look fs name s =
    ap (found_at fs name) (find_ge-position fs name s) ∙ found_at-look fs name s
