-- ===== src/IdNameCache/Find.antt =====
-- The two tables of the cache of users and groups (IdNameCache.cc) after a pair is added.
use lftp.Prelude.{
  ◌≡◌, refl, sym, ap, ◌∙◌, Bool, true, false, not, ◌&&◌, Option, none, some, List, ◌∷◌, ℕ, Bytes,
  inl, inr, Bool-cases, same, same_iff, arith, if_cases, if_both, ◌==◌, if◌then◌else◌,
}
use lftp.Prelude.Int.{ℤ, negsuc, eq_ℤ}
use lftp.IdNameCache.{
  IdNamePair, Cache, Records, hash_id, hash_name, add, scan_id, has_name, scan_name, add_named,
  add_known,
}

abbrev pub find_id : Cache → ℤ → Option IdNamePair
find_id c id = scan_id id (c.table_id (hash_id id))

abbrev pub find_name : Cache → Bytes → Option IdNamePair
find_name c name = scan_name name (c.table_name (hash_name name))

abbrev pub absent : Option IdNamePair → Bool
absent none = true
absent (some r) = false

-- The records of an id have that id, and those of a name that name.
abbrev pub IsFaithful : Records → Type 0
IsFaithful g =
    ((i : ℤ) (r : IdNamePair) → g.by_id i ≡ some r → r.id ≡ i)
    × ((n : Bytes) (r : IdNamePair) → g.by_name n ≡ some r → r.name ≡ some n)

pub eq_ℤ-true : (a b : ℤ) → eq_ℤ a b ≡ true → a ≡ b
eq_ℤ-true a b e = ground arith

eq_ℤ_refl : (a : ℤ) → eq_ℤ a a ≡ true
eq_ℤ_refl a = ground arith

pub scan_id-add :
    (p : ℕ → List IdNamePair) (r : IdNamePair) (j : ℤ)
    → scan_id j (add (hash_id r.id) p r (hash_id j))
      ≡ (if eq_ℤ j r.id then some r else scan_id j (p (hash_id j)))
scan_id-add p r j =
    let h = hash_id r.id in
    if_cases (λ x. scan_id j x ≡ (if eq_ℤ j r.id then some r else scan_id j (p (hash_id j))))
      (hash_id j == h) (r ∷ p h) (p (hash_id j))
      (λ e.
        let same_place : h ≡ hash_id j = ground arith in
        ap (λ k. if eq_ℤ j r.id then some r else scan_id j (p k)) same_place)
      (λ e. elim (Bool-cases (eq_ℤ j r.id)) [
        | inl y ↦ absurd (other e (ap hash_id (eq_ℤ-true j r.id y)))
        | inr y ↦ sym (rw y refl)
      ])
  where
    other : (hash_id j == hash_id r.id) ≡ false → hash_id j ≡ hash_id r.id → ⊥
    other e y = ground arith

pub scan_name-add :
    (p : ℕ → List IdNamePair) (r : IdNamePair) (n m : Bytes)
    → r.name ≡ some n
    → scan_name m (add (hash_name n) p r (hash_name m))
      ≡ (if same m n then some r else scan_name m (p (hash_name m)))
scan_name-add p r n m g =
    let h = hash_name n in
    if_cases (λ x. scan_name m x ≡ (if same m n then some r else scan_name m (p (hash_name m))))
      (hash_name m == h) (r ∷ p h) (p (hash_name m))
      (λ e.
        let same_place : h ≡ hash_name m = ground arith in
        ap (λ o. if has_name m o then some r else scan_name m (p h)) g
        ∙ ap (λ k. if same m n then some r else scan_name m (p k)) same_place)
      (λ e. elim (Bool-cases (same m n)) [
        | inl y ↦ absurd (other e (ap hash_name ((same_iff m n).0 y)))
        | inr y ↦ sym (rw y refl)
      ])
  where
    other : (hash_name m == hash_name n) ≡ false → hash_name m ≡ hash_name n → ⊥
    other e y = ground arith

pub find_id-add_named :
    (r : IdNamePair) (o : Option Bytes) (c : Cache) (j : ℤ)
    → find_id (add_named r o c) j ≡ find_id c j
find_id-add_named r none c j = refl
find_id-add_named r (some n) c j = refl

pub find_name-add_named :
    (r : IdNamePair) (o : Option Bytes) (c : Cache) (m : Bytes)
    → r.name ≡ o
    → find_name (add_named r o c) m ≡ (if has_name m o then some r else find_name c m)
find_name-add_named r none c m e = refl
find_name-add_named r (some n) c m e = scan_name-add c.table_name r n m e

pub find_name-add_known :
    (r : IdNamePair) (c : Cache) (m : Bytes) → find_name (add_known r c) m ≡ find_name c m
find_name-add_known r c m =
    if_both (λ x. find_name x m ≡ find_name c m) (eq_ℤ r.id (negsuc 0)) c
      (record c { table_id = add (hash_id r.id) c.table_id r }) refl refl

pub find_id-add_known :
    (r : IdNamePair) (c : Cache) (j : ℤ)
    → find_id (add_known r c) j
      ≡ (if not (eq_ℤ r.id (negsuc 0)) && eq_ℤ j r.id then some r else find_id c j)
find_id-add_known r c j = elim (Bool-cases (eq_ℤ r.id (negsuc 0))) [
  | inl y ↦ rw y refl
  | inr y ↦ rw y (scan_id-add c.table_id r j)
]
