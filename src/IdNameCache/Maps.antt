-- ===== src/IdNameCache/Maps.antt =====
-- The two tables of IdNameCache.cc as maps, and what a lookup does to them.
use lftp.Prelude.{
  ◌≡◌, refl, sym, ap, ◌∙◌, subst, not, ◌&&◌, Option, none, some, Bytes, same, same_iff, arith,
  if_cases, if◌then◌else◌,
}
use lftp.Prelude.Int.{ℤ, negsuc, eq_ℤ}
use lftp.IdNameCache.{
  IdNamePair, Cache, Records, hash_id, hash_name, add, scan_id, has_name, or_pair, fetch_id,
  or_fetch, lookup_id, fetch_name, lookup_name, system_records, record_of_id, record_of_name,
}
use lftp.IdNameCache.Find.{
  IsFaithful, absent, eq_ℤ-true, find_id, find_id-add_known, find_id-add_named, find_name,
  find_name-add_known, find_name-add_named, scan_id-add, scan_name-add,
}

or_pair-id :
    (id : ℤ) (o : Option IdNamePair) (x : IdNamePair)
    → ((r : IdNamePair) → o ≡ some r → r.id ≡ id)
    → x.id ≡ id
    → (or_pair o x).id ≡ id
or_pair-id id none x f e = e
or_pair-id id (some r) x f e = f r refl

or_pair-name :
    (n : Bytes) (o : Option IdNamePair) (x : IdNamePair)
    → ((r : IdNamePair) → o ≡ some r → r.name ≡ some n)
    → x.name ≡ some n
    → (or_pair o x).name ≡ some n
or_pair-name n none x f e = e
or_pair-name n (some r) x f e = f r refl

-- What the lookup of an id that was found as `o` gives.
abbrev pub GivesId : Records → ℤ → Cache → Option IdNamePair → IdNamePair × Cache → Type 0
GivesId g id c o (r, d) =
    (r ≡ or_pair o (or_pair (g.by_id id) (record { id = id; name = none })))
    × ((j : ℤ) → find_id d j ≡ (if eq_ℤ j id then some r else find_id c j))
    × ((m : Bytes)
        → find_name d m ≡ (if absent o && has_name m r.name then some r else find_name c m))

or_fetch-GivesId :
    (g : Records) (id : ℤ) (c : Cache) (o : Option IdNamePair)
    → IsFaithful g
    → find_id c id ≡ o
    → GivesId g id c o (or_fetch o (fetch_id g id c) c)
or_fetch-GivesId g id c (some r) v e = (refl, under, λ m. refl)
  where
    under : (j : ℤ) → find_id c j ≡ (if eq_ℤ j id then some r else find_id c j)
    under j =
        if_cases (λ x. find_id c j ≡ x) (eq_ℤ j id) (some r) (find_id c j)
          (λ y. ap (find_id c) (eq_ℤ-true j id y) ∙ e) (λ y. refl)
or_fetch-GivesId g id c none v e =
    let r = or_pair (g.by_id id) (record { id = id; name = none }) in
    let w : r.id ≡ id =
      or_pair-id id (g.by_id id) (record { id = id; name = none }) (v.0 id) refl in
    let d = record c { table_id = add (hash_id id) c.table_id r } in
    (
      refl,
      λ j.
          find_id-add_named r r.name d j
          ∙ subst
              (λ i.
                scan_id j (add (hash_id i) c.table_id r (hash_id j))
                ≡ (if eq_ℤ j i then some r else find_id c j))
              w (scan_id-add c.table_id r j),
      λ m. find_name-add_named r r.name d m refl,
    )

-- The lookup of an id gives the pair that the table of ids has for it, or else the record of the id, or a pair without
-- a name. The table then has that pair for the id, and the table of names has it for its name when it is new; both
-- have what they had for all other ids and names, in whatever chains these are.
pub lookup_id-GivesId :
    (g : Records) (id : ℤ) (c : Cache)
    → IsFaithful g
    → GivesId g id c (find_id c id) (lookup_id g id c)
unfolding lookup_id
lookup_id-GivesId g id c v = or_fetch-GivesId g id c (find_id c id) v refl

-- What the lookup of a name that was found as `o` gives.
abbrev pub GivesName : Records → Bytes → Cache → Option IdNamePair → IdNamePair × Cache → Type 0
GivesName g name c o (r, d) =
    (r ≡ or_pair o (or_pair (g.by_name name) (record { id = negsuc 0; name = some name })))
    × ((m : Bytes) → find_name d m ≡ (if same m name then some r else find_name c m))
    × ((j : ℤ)
        → find_id d j ≡ (
            if absent o && (not (eq_ℤ r.id (negsuc 0)) && eq_ℤ j r.id)
            then some r
            else find_id c j))

or_fetch-GivesName :
    (g : Records) (name : Bytes) (c : Cache) (o : Option IdNamePair)
    → IsFaithful g
    → find_name c name ≡ o
    → GivesName g name c o (or_fetch o (fetch_name g name c) c)
or_fetch-GivesName g name c (some r) v e = (refl, under, λ j. refl)
  where
    under : (m : Bytes) → find_name c m ≡ (if same m name then some r else find_name c m)
    under m =
        if_cases (λ x. find_name c m ≡ x) (same m name) (some r) (find_name c m)
          (λ y. ap (find_name c) ((same_iff m name).0 y) ∙ e) (λ y. refl)
or_fetch-GivesName g name c none v e =
    let x : IdNamePair = record { id = negsuc 0; name = some name } in
    let r = or_pair (g.by_name name) x in
    let d = record c { table_name = add (hash_name name) c.table_name r } in
    (
      refl,
      λ m.
          find_name-add_known r d m
          ∙ scan_name-add c.table_name r name m
              (or_pair-name name (g.by_name name) x (v.1 name) refl),
      λ j. find_id-add_known r d j,
    )

-- The lookup of a name gives the pair that the table of names has for it, or else the record of the name, or a pair
-- with the id -1. The table then has that pair for the name, and when it is new and its id is not -1 the table of ids
-- has it for its id, in place of what was there; both have what they had for all other names and ids.
pub lookup_name-GivesName :
    (g : Records) (name : Bytes) (c : Cache)
    → IsFaithful g
    → GivesName g name c (find_name c name) (lookup_name g name c)
unfolding lookup_name
lookup_name-GivesName g name c v = or_fetch-GivesName g name c (find_name c name) v refl

record_of_id-id :
    (i : ℤ) (o : Option (ℤ × Bytes)) (r : IdNamePair)
    → ((u : ℤ) (n : Bytes) → o ≡ some (u, n) → u ≡ i)
    → record_of_id o ≡ some r
    → r.id ≡ i
record_of_id-id i none r f e = absurd (ground arith)
record_of_id-id i (some (u, n)) r f e = sym (ap (id_or u) e) ∙ f u n refl
  where
    id_or : ℤ → Option IdNamePair → ℤ
    id_or u none = u
    id_or u (some r) = r.id

record_of_name-name :
    (n : Bytes) (o number : Option ℤ) (r : IdNamePair)
    → record_of_name n o number ≡ some r
    → r.name ≡ some n
record_of_name-name n none none r e = absurd (ground arith)
record_of_name-name n none (some i) r e = sym (ap (name_or (some n)) e)
  where
    name_or : Option Bytes → Option IdNamePair → Option Bytes
    name_or o none = o
    name_or o (some r) = r.name
record_of_name-name n (some i) number r e = sym (ap (name_or (some n)) e)
  where
    name_or : Option Bytes → Option IdNamePair → Option Bytes
    name_or o none = o
    name_or o (some r) = r.name

pub system_records-IsFaithful :
    (get_by_id : ℤ → Option (ℤ × Bytes)) (get_by_name number : Bytes → Option ℤ)
    → ((i u : ℤ) (n : Bytes) → get_by_id i ≡ some (u, n) → u ≡ i)
    → IsFaithful (system_records get_by_id get_by_name number)
system_records-IsFaithful get_by_id get_by_name number f = (
  λ i r e. record_of_id-id i (get_by_id i) r (f i) e,
  λ n r e. record_of_name-name n (get_by_name n) (number n) r e,
)
