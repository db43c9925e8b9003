-- ===== src/KeyValue/Lines.antt =====
-- One line of a key-value file (keyvalue.cc) read back.
use lftp.Prelude.{
  ℕ, zero, suc, ◌-◌, ◌≡◌, ◌≢◌, refl, ap, ◌∙◌, Bool, true, false, ◌||◌, List, [], ◌∷◌, ◌++◌,
  append_assoc, Bytes, arith, if◌then◌else◌, ◌==◌, length, replicate,
}
use lftp.KeyValue.{
  Pair, Db, add, line, is_blank, skip_blank, read_key, read_value, c_str, stop, pair, item,
  before_value, behind_key, at_key, read_item,
}

if_false : {A : Type 0} (b : Bool) (x y : A) → b ≡ false → (if b then x else y) ≡ y
if_false b x y h = ap (λ c. if c then x else y) h

is_newline : (c : ℕ) → c ≢ b'\n' → (c == b'\n') ≡ false
is_newline c h = ground arith

-- No byte ends a line or a C string.
abbrev pub IsLine : Bytes → Type 0
IsLine [] = Unit {0}
IsLine (c ∷ s) = (c ≢ b'\n') × (c ≢ 0) × IsLine s

abbrev pub NoBlank : Bytes → Type 0
NoBlank [] = Unit {0}
NoBlank (c ∷ s) = (is_blank c ≡ false) × NoBlank s

-- A value that begins with a byte that is no blank.
abbrev pub IsValue : Bytes → Type 0
IsValue [] = ⊥
IsValue (c ∷ s) = (is_blank c ≡ false) × IsLine (c ∷ s)

-- Keys have no blanks, and neither keys nor values are empty or have line ends or NULs.
abbrev pub AreRecords : List Pair → Type 0
AreRecords [] = Unit {0}
AreRecords (p ∷ ps) = (p.key ≢ []) × NoBlank p.key × IsLine p.key × IsValue p.value × AreRecords ps

read_key-blank :
    (k : Bytes) (c : ℕ) (t : Bytes)
    → NoBlank k
    → IsLine k
    → is_blank c ≡ true
    → read_key (k ++ c ∷ t) ≡ (k, c ∷ t)
unfolding read_key
read_key-blank [] c t n l h = ground arith
read_key-blank (x ∷ k) c t (n, m) (a, b, l) h =
    if_false (is_blank x || x == b'\n') _ _ (ground arith)
    ∙ ap (λ q. (x ∷ q.0, q.1)) (read_key-blank k c t m l h)

read_value-newline : (v rest : Bytes) → IsLine v → read_value (v ++ b'\n' ∷ rest) ≡ (v, rest)
unfolding read_value
read_value-newline [] rest l = refl
read_value-newline (x ∷ v) rest (a, b, l) =
    if_false (x == b'\n') _ _ (is_newline x a)
    ∙ ap (λ q. (x ∷ q.0, q.1)) (read_value-newline v rest l)

pub c_str-IsLine : (s : Bytes) → IsLine s → c_str s ≡ s
unfolding c_str
c_str-IsLine [] l = refl
c_str-IsLine (x ∷ s) (a, b, l) = ground (arith, c_str-IsLine s l)

skip_blank-head : (c : ℕ) (t : Bytes) → is_blank c ≡ false → skip_blank (c ∷ t) ≡ c ∷ t
unfolding skip_blank
skip_blank-head c t h = rw (h, skip_blank) refl

skip_blank-replicate :
    (n : ℕ) (s : Bytes) → skip_blank (replicate n b' ' ++ b'\t' ∷ s) ≡ skip_blank s
unfolding skip_blank
skip_blank-replicate zero s = refl
skip_blank-replicate (suc n) s = skip_blank-replicate n s

-- What stands between the key and the value.
abbrev pub gap : ℕ → Bytes → Bytes
gap n t = replicate n b' ' ++ b'\t' ∷ t

behind_key-gap :
    (n : ℕ) (k : Bytes) (x : ℕ) (v rest : Bytes)
    → IsValue (x ∷ v)
    → behind_key (k, gap n (x ∷ v ++ b'\n' ∷ rest)) ≡ pair k (x ∷ v) rest
behind_key-gap n k x v rest (h, (a, z, l)) =
    go n
    ∙ ap (before_value k) (skip_blank-head x (v ++ b'\n' ∷ rest) h)
    ∙ if_false (x == b'\n') stop _ (is_newline x a)
    ∙ ap (item k) (read_value-newline (x ∷ v) rest (a, z, l))
  where
    go :
        (m : ℕ)
        → behind_key (k, gap m (x ∷ v ++ b'\n' ∷ rest))
          ≡ before_value k (skip_blank (x ∷ v ++ b'\n' ∷ rest))
    go zero = ap (before_value k) (skip_blank-replicate zero (x ∷ v ++ b'\n' ∷ rest))
    go (suc m) = ap (before_value k) (skip_blank-replicate (suc m) (x ∷ v ++ b'\n' ∷ rest))

pub read_item-line :
    (width : ℕ) (k v rest : Bytes)
    → k ≢ []
    → NoBlank k
    → IsLine k
    → IsValue v
    → read_item (line width k v ++ rest) ≡ pair k v rest
unfolding read_item
read_item-line width [] v rest ne n l i = absurd (ne refl)
read_item-line width (c ∷ k) [] rest ne n l i = absurd i
read_item-line width (c ∷ k) (x ∷ v) rest ne (h, n) (a, z, l) i =
    let m = width - length (c ∷ k) in
    let text = x ∷ v ++ b'\n' ∷ rest in
    let shape : line width (c ∷ k) (x ∷ v) ++ rest ≡ c ∷ (k ++ gap m text) =
      append_assoc (c ∷ k) _ rest
      ∙ ap (λ t. c ∷ (k ++ t))
          (append_assoc (replicate m b' ') _ rest
            ∙ ap (λ t. gap m (x ∷ t)) (append_assoc v (b'\n' ∷ []) rest)) in
    ap (λ s. at_key (skip_blank s)) shape
    ∙ ap at_key (skip_blank-head c (k ++ gap m text) h)
    ∙ if_false (c == b'\n') _ _ (is_newline c a)
    ∙ ap behind_key (go m)
    ∙ behind_key-gap m (c ∷ k) x v rest i
  where
    go :
        (m : ℕ)
        → read_key ((c ∷ k) ++ gap m (x ∷ v ++ b'\n' ∷ rest))
          ≡ (c ∷ k, gap m (x ∷ v ++ b'\n' ∷ rest))
    go zero = read_key-blank (c ∷ k) b'\t' (x ∷ v ++ b'\n' ∷ rest) (h, n) (a, z, l) refl
    go (suc m) = read_key-blank (c ∷ k) b' ' (gap m (x ∷ v ++ b'\n' ∷ rest)) (h, n) (a, z, l) refl

-- Each pair added in its turn.
unfoldable pub add_all : List Pair → Db → Db
add_all [] db = db
add_all (p ∷ ps) db = add_all ps (add p.key p.value db)

abbrev pub same_text : Bytes → Bytes
same_text v = v
