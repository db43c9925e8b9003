-- ===== src/IdNameCache.antt =====
-- The cache of users and groups with their names: IdNameCache.cc and IdNameCache.h.
pub mod Find
pub mod Maps
mod Tests
use lftp.Prelude.{
  ℕ, zero, suc, ◌+◌, ◌-◌, ◌*◌, ◌/◌, ◌%◌, ◌^◌, Bool, true, false, not, ◌&&◌, ◌||◌, Option, none,
  some, List, [], ◌∷◌, Bytes, same, ◌==◌, ltb, if◌then◌else◌,
}
use lftp.Prelude.Int.{ℤ, pos, negsuc, eq_ℤ}
use lftp.Prelude.Write.{write}
use lftp.Bencode.Decimal.{decimal_ℤ}
use lftp.HashMap.{char_value}

pub record IdNamePair : Type 0 where
  pub id : ℤ
  pub name : Option Bytes

-- The chains of the two tables.
pub record Cache : Type 0 where
  pub table_id : ℕ → List IdNamePair
  pub table_name : ℕ → List IdNamePair

-- The two functions `get_record` of a class of caches.
pub record Records : Type 0 where
  pub by_id : ℤ → Option IdNamePair
  pub by_name : Bytes → Option IdNamePair

-- `init`, and what `Clear` leaves.
abbrev pub empty_cache : Cache
empty_cache = record { table_id = λ h. []; table_name = λ h. [] }

-- An `int` as an `unsigned` of 32 bits.
abbrev pub as_unsigned : ℤ → ℕ
as_unsigned (pos n) = n % 2 ^ 32
as_unsigned (negsuc n) = 2 ^ 32 - 1 - n % 2 ^ 32

abbrev pub hash_id : ℤ → ℕ
hash_id id = as_unsigned id % 131

-- `h+=(h<<4)+*name++`
abbrev pub hash_from : ℕ → Bytes → ℕ
hash_from h [] = h
hash_from h (c ∷ s) = hash_from ((h + h * 16 + char_value c) % 2 ^ 32) s

unfoldable pub hash_name : Bytes → ℕ
hash_name name = hash_from 0 name % 131

abbrev pub add : ℕ → (ℕ → List IdNamePair) → IdNamePair → ℕ → List IdNamePair
add h p r = write p h (r ∷ p h)

-- The loops of the two `lookup`.
abbrev pub scan_id : ℤ → List IdNamePair → Option IdNamePair
scan_id id [] = none
scan_id id (r ∷ rs) = if eq_ℤ id r.id then some r else scan_id id rs

abbrev pub has_name : Bytes → Option Bytes → Bool
has_name name none = false
has_name name (some a) = same name a

abbrev pub scan_name : Bytes → List IdNamePair → Option IdNamePair
scan_name name [] = none
scan_name name (r ∷ rs) = if has_name name r.name then some r else scan_name name rs

abbrev pub or_pair : Option IdNamePair → IdNamePair → IdNamePair
or_pair none r = r
or_pair (some r) x = r

abbrev pub add_named : IdNamePair → Option Bytes → Cache → Cache
add_named r none c = c
add_named r (some name) c = record c { table_name = add (hash_name name) c.table_name r }

-- `lookup` of an id that is not in the table.
abbrev pub fetch_id : Records → ℤ → Cache → IdNamePair × Cache
fetch_id g id c =
    let r = or_pair (g.by_id id) (record { id = id; name = none }) in
    (r, add_named r r.name (record c { table_id = add (hash_id id) c.table_id r }))

abbrev pub or_fetch : Option IdNamePair → IdNamePair × Cache → Cache → IdNamePair × Cache
or_fetch none fetched c = fetched
or_fetch (some r) fetched c = (r, c)

unfoldable pub lookup_id : Records → ℤ → Cache → IdNamePair × Cache
lookup_id g id c = or_fetch (scan_id id (c.table_id (hash_id id))) (fetch_id g id c) c

abbrev pub add_known : IdNamePair → Cache → Cache
add_known r c =
    if eq_ℤ r.id (negsuc 0) then c else record c { table_id = add (hash_id r.id) c.table_id r }

-- `lookup` of a name that is not in the table.
abbrev pub fetch_name : Records → Bytes → Cache → IdNamePair × Cache
fetch_name g name c =
    let r = or_pair (g.by_name name) (record { id = negsuc 0; name = some name }) in
    (r, add_known r (record c { table_name = add (hash_name name) c.table_name r }))

unfoldable pub lookup_name : Records → Bytes → Cache → IdNamePair × Cache
lookup_name g name c =
    or_fetch (scan_name name (c.table_name (hash_name name))) (fetch_name g name c) c

-- `Lookup` of an id: the name, or the number where there is none or an empty one.
abbrev pub name_or_number : ℤ → Option Bytes → Bytes
name_or_number id none = decimal_ℤ id
name_or_number id (some []) = decimal_ℤ id
name_or_number id (some (c ∷ s)) = c ∷ s

unfoldable pub name_of : Records → ℤ → Cache → Bytes × Cache
name_of g id c = let found = lookup_id g id c in (name_or_number id found.0.name, found.1)

unfoldable pub id_of : Records → Bytes → Cache → ℤ × Cache
id_of g name c = let found = lookup_name g name c in (found.0.id, found.1)

-- `get_record` of IdNameCache, from the answer of `sscanf` when it reads the whole name.
abbrev pub number_record : Bytes → Option ℤ → Option IdNamePair
number_record name none = none
number_record name (some id) = some (record { id = id; name = some name })

-- `get_record` of PasswdCache and of GroupCache, from the answers of `getpwuid` and `getpwnam`, or of `getgrgid` and
-- `getgrnam`: the id and the name, and the id of a name.
abbrev pub record_of_id : Option (ℤ × Bytes) → Option IdNamePair
record_of_id none = none
record_of_id (some (id, name)) = some (record { id = id; name = some name })

abbrev pub record_of_name : Bytes → Option ℤ → Option ℤ → Option IdNamePair
record_of_name name none number = number_record name number
record_of_name name (some id) number = some (record { id = id; name = some name })

abbrev pub system_records :
    (ℤ → Option (ℤ × Bytes)) → (Bytes → Option ℤ) → (Bytes → Option ℤ) → Records
system_records get_by_id get_by_name number = record {
  by_id = λ id. record_of_id (get_by_id id);
  by_name = λ name. record_of_name name (get_by_name name) (number name);
}
