-- ===== src/KeyValue/Lookup.antt =====
-- The chain of keyvalue.cc as a map from keys to values.
use lftp.Prelude.{
  ℕ, ◌≡◌, refl, sym, ap, ◌∙◌, true, false, List, [], ◌∷◌, none, some, inl, inr, Bytes, same,
  same_iff, arith, Bool-cases, Option-cases, if◌then◌else◌,
}
use lftp.Bencode.Printer.{less}
use lftp.KeyValue.{
  Pair, Db, lookup_pair, lookup, set_value, add, purge, remove, insert_pair, sort_chain,
}

-- No pair of the chain has this key.
abbrev pub NoKey : Bytes → List Pair → Type 0
NoKey k [] = Unit {0}
NoKey k (p ∷ ps) = (same k p.key ≡ false) × NoKey k ps

-- No key stands twice.
abbrev pub AreUnique : List Pair → Type 0
AreUnique [] = Unit {0}
AreUnique (p ∷ ps) = NoKey p.key ps × AreUnique ps

pub same_sym : (a b : Bytes) → same a b ≡ same b a
unfolding same
same_sym [] [] = refl
same_sym [] (y ∷ b) = refl
same_sym (x ∷ a) [] = refl
same_sym (x ∷ a) (y ∷ b) = ground (arith, same_sym a b)

pub same_subst : (a b c : Bytes) → same a b ≡ true → same a c ≡ same b c
same_subst a b c h = ap (λ x. same x c) ((same_iff a b).0 h)

same_right : (a b c : Bytes) → same b c ≡ true → same a c ≡ same a b
same_right a b c h = ap (same a) (sym ((same_iff b c).0 h))

lookup-set_value :
    (j k v : Bytes) (ps : List Pair)
    → (p : Pair) → lookup_pair k ps ≡ some p
    → lookup j (set_value k v ps) ≡ (if same j k then some v else lookup j ps)
unfolding lookup set_value lookup_pair
lookup-set_value j k v [] p h = absurd cc
lookup-set_value j k v (q ∷ qs) p h =
    ground (arith, lookup-set_value j k v qs p, same_subst j k q.key, same_right j k q.key)

-- After `Add` of a key that key has the new value, and every other key what it had before.
pub lookup-add :
    (j k v : Bytes) (db : Db)
    → lookup j (add k v db).chain ≡ (if same j k then some v else lookup j db.chain)
unfolding add lookup
lookup-add j k v db = elim (Option-cases (lookup_pair k db.chain)) [
  | inl h ↦ rw (h, add) refl
  | inr (p, h) ↦ rw (h, add) (lookup-set_value j k v db.chain p h)
]

pub NoKey-lookup : (k : Bytes) (ps : List Pair) → NoKey k ps → lookup k ps ≡ none
unfolding lookup
NoKey-lookup k [] n = refl
NoKey-lookup k (p ∷ ps) (n, m) = ground (arith, NoKey-lookup k ps m)

NoKey-purge : (j k : Bytes) (c : ℕ) (ps : List Pair) → NoKey j ps → NoKey j (purge k c ps).0
unfolding purge
NoKey-purge j k c [] n = tt
NoKey-purge j k c (p ∷ ps) (n, m) = elim (Bool-cases (same k p.key)) [
  | inl h ↦ rw (h, purge) m
  | inr h ↦ rw (h, purge) (n, NoKey-purge j k c ps m)
]

purge-AreUnique : (k : Bytes) (c : ℕ) (ps : List Pair) → AreUnique ps → AreUnique (purge k c ps).0
unfolding purge
purge-AreUnique k c [] u = tt
purge-AreUnique k c (p ∷ ps) (n, u) = elim (Bool-cases (same k p.key)) [
  | inl h ↦ rw (h, purge) u
  | inr h ↦ rw (h, purge) (NoKey-purge p.key k c ps n, purge-AreUnique k c ps u)
]

-- `Remove` keeps the keys unique.
pub remove-AreUnique : (k : Bytes) (db : Db) → AreUnique db.chain → AreUnique (remove k db).chain
unfolding remove
remove-AreUnique k db u = purge-AreUnique k db.current db.chain u

lookup-purge :
    (j k : Bytes) (c : ℕ) (ps : List Pair)
    → AreUnique ps
    → lookup j (purge k c ps).0 ≡ (if same j k then none else lookup j ps)
unfolding lookup purge
lookup-purge j k c [] u = ground arith
lookup-purge j k c (p ∷ ps) (n, u) =
    let gone : same j p.key ≡ true → lookup j ps ≡ none =
      λ e. ap (λ a. lookup a ps) ((same_iff j p.key).0 e) ∙ NoKey-lookup p.key ps n in
    ground (arith, gone, lookup-purge j k c ps u, same_subst j k p.key, same_right j k p.key)

-- Where no key stands twice, `Remove` removes its key and no other one.
pub lookup-remove :
    (j k : Bytes) (db : Db)
    → AreUnique db.chain
    → lookup j (remove k db).chain ≡ (if same j k then none else lookup j db.chain)
unfolding remove
lookup-remove j k db u = lookup-purge j k db.current db.chain u

NoKey-set_value : (j k v : Bytes) (ps : List Pair) → NoKey j ps → NoKey j (set_value k v ps)
unfolding set_value
NoKey-set_value j k v [] n = tt
NoKey-set_value j k v (p ∷ ps) (n, m) = elim (Bool-cases (same k p.key)) [
  | inl h ↦ rw (h, set_value) (n, m)
  | inr h ↦ rw (h, set_value) (n, NoKey-set_value j k v ps m)
]

set_value-AreUnique : (k v : Bytes) (ps : List Pair) → AreUnique ps → AreUnique (set_value k v ps)
unfolding set_value
set_value-AreUnique k v [] u = tt
set_value-AreUnique k v (p ∷ ps) (n, u) = elim (Bool-cases (same k p.key)) [
  | inl h ↦ rw (h, set_value) (n, u)
  | inr h ↦ rw (h, set_value) (NoKey-set_value p.key k v ps n, set_value-AreUnique k v ps u)
]

lookup_pair-NoKey : (k : Bytes) (ps : List Pair) → lookup_pair k ps ≡ none → NoKey k ps
unfolding lookup_pair
lookup_pair-NoKey k [] h = tt
lookup_pair-NoKey k (p ∷ ps) h = ground (arith, lookup_pair-NoKey k ps)

-- `Add` keeps the keys unique.
pub add-AreUnique : (k v : Bytes) (db : Db) → AreUnique db.chain → AreUnique (add k v db).chain
unfolding add
add-AreUnique k v db u = elim (Option-cases (lookup_pair k db.chain)) [
  | inl h ↦ rw (h, add) (lookup_pair-NoKey k db.chain h, u)
  | inr (p, h) ↦ rw (h, add) (set_value-AreUnique k v db.chain u)
]

lookup-insert_pair :
    (j : Bytes) (p : Pair) (ps : List Pair)
    → NoKey p.key ps
    → lookup j (insert_pair p ps) ≡ (if same j p.key then some p.value else lookup j ps)
unfolding lookup insert_pair
lookup-insert_pair j p [] n = refl
lookup-insert_pair j p (q ∷ qs) (n, m) =
    ground (arith, lookup-insert_pair j p qs m, same_subst j p.key q.key)

pub NoKey-insert_pair :
    (j : Bytes) (p : Pair) (ps : List Pair)
    → same j p.key ≡ false
    → NoKey j ps
    → NoKey j (insert_pair p ps)
unfolding insert_pair
NoKey-insert_pair j p [] h n = (h, tt)
NoKey-insert_pair j p (q ∷ qs) h (n, m) = elim (Bool-cases (less q.key p.key)) [
  | inl e ↦ rw (e, insert_pair) (n, NoKey-insert_pair j p qs h m)
  | inr e ↦ rw (e, insert_pair) (h, (n, m))
]

pub NoKey-sort_chain : (j : Bytes) (ps : List Pair) → NoKey j ps → NoKey j (sort_chain ps)
unfolding sort_chain
NoKey-sort_chain j [] n = tt
NoKey-sort_chain j (p ∷ ps) (n, m) =
    NoKey-insert_pair j p (sort_chain ps) n (NoKey-sort_chain j ps m)

-- Sorting a chain of unique keys keeps what each key finds.
pub lookup-sort_chain :
    (j : Bytes) (ps : List Pair) → AreUnique ps → lookup j (sort_chain ps) ≡ lookup j ps
unfolding lookup sort_chain
lookup-sort_chain j [] u = refl
lookup-sort_chain j (p ∷ ps) (n, u) =
    lookup-insert_pair j p (sort_chain ps) (NoKey-sort_chain p.key ps n)
    ∙ ap (λ r. if same j p.key then some p.value else r) (lookup-sort_chain j ps u)
