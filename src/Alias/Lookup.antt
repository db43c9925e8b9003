-- ===== src/Alias/Lookup.antt =====
-- The sorted table as a map from names, compared without case, to values.
use lftp.Prelude.{◌≡◌, refl, ◌⊎◌, inl, inr, [], ◌∷◌, none, some, arith, Bytes}
use lftp.Alias.{Cmp, less, equal, greater, casecmp, Entry, Table, add, del, find}
use lftp.Alias.Order.{casecmp_flip, casecmp_unflip, casecmp_left, casecmp_right, casecmp_trans}

abbrev pub Above : Bytes → Table → Type 0
Above a [] = Unit {0}
Above a (e ∷ es) = casecmp a e.alias ≡ less

-- The names rise along the list.
abbrev pub IsSorted : Table → Type 0
IsSorted [] = Unit {0}
IsSorted (e ∷ es) = Above e.alias es × IsSorted es

abbrev pub on_equal {ℓ} : {A : Type ℓ} → Cmp → A → A → A
on_equal equal x y = x
on_equal _ x y = y

-- After `add a v` the name `a`, in any case, finds `v`, and every other name what it found before.
pub find-add :
    (a b v : Bytes) (t : Table) → find b (add a v t) ≡ on_equal (casecmp a b) (some v) (find b t)
unfolding find add
find-add a b v [] = ground arith
find-add a b v (e ∷ es) = ground (
  arith,
  find-add a b v es,
  casecmp_left e.alias a b,
  casecmp_right a b e.alias,
  casecmp_unflip e.alias a,
  casecmp_unflip a b,
  casecmp_trans b a e.alias,
  casecmp_flip b e.alias,
)

add-Above : (c a v : Bytes) (t : Table) → casecmp c a ≡ less → Above c t → Above c (add a v t)
unfolding add
add-Above c a v [] h k = h
add-Above c a v (e ∷ es) h k = ground arith

Cmp-cases : (c : Cmp) → (c ≡ less) ⊎ (c ≡ equal) ⊎ (c ≡ greater)
Cmp-cases less = inl refl
Cmp-cases equal = inr (inl refl)
Cmp-cases greater = inr (inr refl)

-- `add` keeps the list sorted.
pub add-IsSorted : (a v : Bytes) (t : Table) → IsSorted t → IsSorted (add a v t)
unfolding add
add-IsSorted a v [] s = (tt, tt)
add-IsSorted a v (e ∷ es) s = elim (Cmp-cases (casecmp e.alias a)) [
  | inl h ↦ rw (h, add) (add-Above e.alias a v es h s.0, add-IsSorted a v es s.1)
  | inr (inl h) ↦ rw (h, add) s
  | inr (inr h) ↦ rw (h, add) (casecmp_unflip e.alias a h, s)
]

Above-trans :
    (c : Bytes) (e : Entry) (es : Table) → casecmp c e.alias ≡ less → Above e.alias es → Above c es
Above-trans c e [] h k = tt
Above-trans c e (x ∷ es) h k = casecmp_trans c e.alias x.alias h k

del-Above : (c a : Bytes) (t : Table) → IsSorted t → Above c t → Above c (del a t)
unfolding del
del-Above c a [] s k = tt
del-Above c a (e ∷ es) s k = ground (arith, Above-trans c e es k s.0)

-- `del` keeps the list sorted.
pub del-IsSorted : (a : Bytes) (t : Table) → IsSorted t → IsSorted (del a t)
unfolding del
del-IsSorted a [] s = tt
del-IsSorted a (e ∷ es) s =
    let kept : Above e.alias (del a es) = del-Above e.alias a es s.1 s.0 in
    elim (Cmp-cases (casecmp e.alias a)) [
      | inl h ↦ rw (h, del) (kept, del-IsSorted a es s.1)
      | inr (inl h) ↦ rw (h, del) s.1
      | inr (inr h) ↦ rw (h, del) (kept, del-IsSorted a es s.1)
    ]

-- A name below the whole table is not found.
find_below : (a : Bytes) (t : Table) → Above a t → find a t ≡ none
unfolding find
find_below a [] h = refl
find_below a (e ∷ es) h = ground (arith, casecmp_flip a e.alias)

Above-equal : (a c : Bytes) (t : Table) → casecmp c a ≡ equal → Above c t → Above a t
Above-equal a c [] h k = tt
Above-equal a c (e ∷ es) h k = ground (arith, casecmp_left c a e.alias)

-- In a sorted table `del a` removes the name `a`, in any case, and no other name.
pub find-del :
    (a b : Bytes) (t : Table)
    → IsSorted t
    → find b (del a t) ≡ on_equal (casecmp a b) none (find b t)
unfolding find del
find-del a b [] s = ground arith
find-del a b (e ∷ es) s = ground (
  arith,
  find-del a b es s.1,
  casecmp_left e.alias a b,
  casecmp_right a b e.alias,
  find_below b es,
  Above-equal b e.alias es,
  Above-trans b e es,
  casecmp_unflip e.alias b,
)
