-- ===== src/FileSet/Names.antt =====
-- FileSet.cc: a set of files as a map from names, with its search and its insertion.
use lftp.Prelude.{
  ℕ, suc, ◌≡◌, inl, inr, refl, sym, ap, ◌∙◌, subst, Bool, true, false, ◌&&◌, Option, none, some,
  List, [], ◌∷◌, Bytes, same, same_iff, same_refl, Bool-cases, length, if_cases, if_both,
  if◌then◌else◌, arith, ltb,
}
use lftp.Prelude.Order.{less}
use lftp.FileSet.{FileInfo, merged, name_at, is_at, add_before, merge_at, insert_info}
use lftp.FileSet.Search.{
  Above, none_above, above, IsSorted, none_sorted, sorted, position, Above-trans, find_ge-position,
}
use lftp.FileSet.Look.{less-same, look, look-Above, merged-name, other-less}

-- Insertion from the front.
abbrev pub put : FileInfo → List FileInfo → List FileInfo
put f [] = f ∷ []
put f (t ∷ fs) =
    if less t.name f.name
    then t ∷ put f fs
    else if same t.name f.name
    then merged t f ∷ fs
    else f ∷ t ∷ fs

abbrev put_at : FileInfo → List FileInfo → ℕ → List FileInfo
put_at f fs n = if is_at fs f.name n then merge_at n f fs else add_before n f fs

put_at-suc :
    (f t : FileInfo) (fs : List FileInfo) (n : ℕ) → put_at f (t ∷ fs) (suc n) ≡ t ∷ put_at f fs n
put_at-suc f t fs n =
    ap (λ b. if b && same (name_at fs n) f.name then t ∷ merge_at n f fs else t ∷ add_before n f fs)
      e
    ∙ go (is_at fs f.name n)
  where
    e : ltb (suc n) (suc (length fs)) ≡ ltb n (length fs)
    e = ground arith

    go :
        (b : Bool)
        → (if b then t ∷ merge_at n f fs else t ∷ add_before n f fs)
          ≡ t ∷ (if b then merge_at n f fs else add_before n f fs)
    go true = refl
    go false = refl

put_at-zero :
    (f t : FileInfo) (fs : List FileInfo)
    → put_at f (t ∷ fs) 0 ≡ (if same t.name f.name then merged t f ∷ fs else f ∷ t ∷ fs)
put_at-zero f t fs = ap (λ b. if b && same t.name f.name then merged t f ∷ fs else f ∷ t ∷ fs) e
  where
    e : ltb 0 (suc (length fs)) ≡ true
    e = ground arith

put_at-put : (f : FileInfo) (fs : List FileInfo) → put_at f fs (position f.name fs) ≡ put f fs
put_at-put f [] = ground arith
put_at-put f (t ∷ fs) = elim (Bool-cases (less t.name f.name)) [
  | inl l ↦
      ap (put_at f (t ∷ fs)) (rw l refl)
      ∙ put_at-suc f t fs (position f.name fs)
      ∙ ap (λ r. t ∷ r) (put_at-put f fs)
      ∙ rw l refl
  | inr l ↦ ap (put_at f (t ∷ fs)) (rw l refl) ∙ put_at-zero f t fs ∙ rw l refl
]

pub insert_info-put :
    (f : FileInfo) (fs : List FileInfo) → IsSorted fs → insert_info f fs ≡ put f fs
unfolding insert_info
insert_info-put f fs s = ap (put_at f fs) (find_ge-position fs f.name s) ∙ put_at-put f fs

-- What two sets have under a name, when they are merged.
abbrev pub combine : Option FileInfo → Option FileInfo → Option FileInfo
combine none o = o
combine (some t) none = some t
combine (some t) (some f) = some (merged t f)

put-Above :
    (a : Bytes) (f : FileInfo) (fs : List FileInfo)
    → less a f.name ≡ true
    → Above a fs
    → Above a (put f fs)
put-Above a f [] l v = above l none_above
put-Above a f (t ∷ fs) l (above m v) =
    if_cases (Above a) (less t.name f.name) (t ∷ put f fs)
      (if same t.name f.name then merged t f ∷ fs else f ∷ t ∷ fs)
      (λ e. above m (put-Above a f fs l v))
      (λ e.
        if_both (Above a) (same t.name f.name) (merged t f ∷ fs) (f ∷ t ∷ fs)
          (above (ap (less a) (merged-name t f) ∙ m) v) (above l (above m v)))

pub put-IsSorted : (f : FileInfo) (fs : List FileInfo) → IsSorted fs → IsSorted (put f fs)
put-IsSorted f [] s = sorted none_above none_sorted
put-IsSorted f (t ∷ fs) (sorted v s) =
    if_cases IsSorted (less t.name f.name) (t ∷ put f fs)
      (if same t.name f.name then merged t f ∷ fs else f ∷ t ∷ fs)
      (λ e. sorted (put-Above t.name f fs e v) (put-IsSorted f fs s))
      (λ e.
        if_cases IsSorted (same t.name f.name) (merged t f ∷ fs) (f ∷ t ∷ fs)
          (λ g. sorted (subst (λ a. Above a fs) (sym (merged-name t f)) v) s)
          (λ g.
            let l = other-less t.name f.name e g in
            sorted (above l (Above-trans f.name t.name fs l v)) (sorted v s)))

pub look-hit :
    (n : Bytes) (f : FileInfo) (fs : List FileInfo)
    → same f.name n ≡ true
    → look n (f ∷ fs) ≡ some f
look-hit n f fs e = rw e refl

pub look-miss :
    (n : Bytes) (f : FileInfo) (fs : List FileInfo)
    → same f.name n ≡ false
    → look n (f ∷ fs) ≡ look n fs
look-miss n f fs e = rw e refl

-- Under the name of `f` stands `f` with what was there.
look-put_same :
    (f : FileInfo) (fs : List FileInfo)
    → IsSorted fs
    → look f.name (put f fs) ≡ combine (look f.name fs) (some f)
look-put_same f [] s = look-hit f.name f [] (same_refl f.name)
look-put_same f (t ∷ fs) (sorted v s) =
    let P = λ (r : List FileInfo). look f.name r ≡ combine (look f.name (t ∷ fs)) (some f) in
    if_cases P (less t.name f.name) (t ∷ put f fs)
      (if same t.name f.name then merged t f ∷ fs else f ∷ t ∷ fs)
      (λ l.
        let m = less-same t.name f.name l in
        look-miss f.name t (put f fs) m
        ∙ look-put_same f fs s
        ∙ ap (λ o. combine o (some f)) (sym (look-miss f.name t fs m)))
      (λ l.
        if_cases P (same t.name f.name) (merged t f ∷ fs) (f ∷ t ∷ fs)
          (λ e.
            look-hit f.name (merged t f) fs (ap (λ x. same x f.name) (merged-name t f) ∙ e)
            ∙ ap (λ o. combine o (some f)) (sym (look-hit f.name t fs e)))
          (λ e.
            let m = other-less t.name f.name l e in
            look-hit f.name f (t ∷ fs) (same_refl f.name)
            ∙ ap (λ o. combine o (some f))
                (sym (look-Above f.name (t ∷ fs) (above m (Above-trans f.name t.name fs m v))))))

-- Under other names stands what was there.
look-put_other :
    (f : FileInfo) (fs : List FileInfo) (n : Bytes)
    → same f.name n ≡ false
    → look n (put f fs) ≡ look n fs
look-put_other f [] n e = look-miss n f [] e
look-put_other f (t ∷ fs) n e =
    let P = λ (r : List FileInfo). look n r ≡ look n (t ∷ fs) in
    if_cases P (less t.name f.name) (t ∷ put f fs)
      (if same t.name f.name then merged t f ∷ fs else f ∷ t ∷ fs)
      (λ l. ap (λ o. if same t.name n then some t else o) (look-put_other f fs n e))
      (λ l.
        if_cases P (same t.name f.name) (merged t f ∷ fs) (f ∷ t ∷ fs)
          (λ g.
            let m : same t.name n ≡ false = ap (λ x. same x n) ((same_iff t.name f.name).0 g) ∙ e in
            look-miss n (merged t f) fs (ap (λ x. same x n) (merged-name t f) ∙ m)
            ∙ sym (look-miss n t fs m))
          (λ g. look-miss n f (t ∷ fs) e))

pub look-put :
    (f : FileInfo) (fs : List FileInfo) (n : Bytes)
    → IsSorted fs
    → look n (put f fs) ≡ (if same f.name n then combine (look n fs) (some f) else look n fs)
look-put f fs n s =
    if_cases (λ o. look n (put f fs) ≡ o) (same f.name n) (combine (look n fs) (some f)) (look n fs)
      (λ e.
        subst (λ m. look m (put f fs) ≡ combine (look m fs) (some f)) ((same_iff f.name n).0 e)
          (look-put_same f fs s))
      (λ e. look-put_other f fs n e)
