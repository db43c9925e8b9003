-- ===== src/KeyValue.antt =====
-- keyvalue.cc and keyvalue.h: a list of pairs of texts, kept in a file with a pair on each line.
-- `place` is the address of a pair, and `current` that of the pair of the iteration, or 0; `top`
-- is the next address of `new`. The file is the list of its bytes.
pub mod Lookup
pub mod Lines
pub mod File
mod Tests
use lftp.Prelude.{
  ℕ, zero, suc, ◌+◌, ◌-◌, ◌*◌, ◌/◌, Bool, true, false, ◌||◌, not, List, [], ◌∷◌, ◌++◌, Option, none,
  some, Bytes, same, ltb, ◌==◌, if◌then◌else◌, length, replicate,
}
use lftp.Bencode.Printer.{less}

pub record Pair : Type 0 where
  pub place : ℕ
  pub key : Bytes
  pub value : Bytes

pub record Db : Type 0 where
  pub chain : List Pair
  pub current : ℕ
  pub top : ℕ

unfoldable pub lookup_pair : Bytes → List Pair → Option Pair
lookup_pair k [] = none
lookup_pair k (p ∷ ps) = if same k p.key then some p else lookup_pair k ps

unfoldable pub lookup : Bytes → List Pair → Option Bytes
lookup k [] = none
lookup k (p ∷ ps) = if same k p.key then some p.value else lookup k ps

-- `SetValue` on the pair that `LookupPair` finds.
unfoldable pub set_value : Bytes → Bytes → List Pair → List Pair
set_value k v [] = []
set_value k v (p ∷ ps) = if same k p.key then record p { value = v } ∷ ps else p ∷ set_value k v ps

unfoldable pub add : Bytes → Bytes → Db → Db
unfolding lookup_pair
add k v db = elim (lookup_pair k db.chain) [
  | none ↦ record {
    chain = record { place = db.top; key = k; value = v } ∷ db.chain;
    current = db.current;
    top = db.top + 1;
  }
  | some p ↦ record db { chain = set_value k v db.chain }
]

abbrev pub place_of : List Pair → ℕ
place_of [] = 0
place_of (p ∷ ps) = p.place

-- The chain and the place of the iteration when the pair that `LookupPair` finds is purged.
unfoldable pub purge : Bytes → ℕ → List Pair → List Pair × ℕ
purge k current [] = ([], current)
purge k current (p ∷ ps) =
    let rest = purge k current ps in
    if same k p.key
    then (ps, if current == p.place then place_of ps else current)
    else (p ∷ rest.0, rest.1)

unfoldable pub remove : Bytes → Db → Db
remove k db = let r = purge k db.current db.chain in record db { chain = r.0; current = r.1 }

-- `Empty`: each pair is purged, from the head of the chain on.
unfoldable pub purge_all : List Pair → ℕ → ℕ
purge_all [] current = current
purge_all (p ∷ ps) current = purge_all ps (if current == p.place then place_of ps else current)

unfoldable pub empty : Db → Db
empty db = record db { chain = []; current = purge_all db.chain db.current }

unfoldable pub rewind : Db → Db
rewind db = record db { current = place_of db.chain }

unfoldable pub pair_at : ℕ → List Pair → Option Pair
pair_at n [] = none
pair_at n (p ∷ ps) = if n == p.place then some p else pair_at n ps

-- `p->next` for the pair at a place.
unfoldable pub next_place : ℕ → List Pair → ℕ
next_place n [] = 0
next_place n (p ∷ ps) = if n == p.place then place_of ps else next_place n ps

-- `Next`, with its result.
unfoldable pub next : Db → Bool × Db
next db =
    let n = next_place db.current db.chain in
    if db.current == 0 then (false, db) else (not (n == 0), record db { current = n })

-- The sort of `Sort`. Where no key stands twice every sort gives this list.
unfoldable pub insert_pair : Pair → List Pair → List Pair
unfolding less
insert_pair p [] = p ∷ []
insert_pair p (q ∷ qs) = if less q.key p.key then q ∷ insert_pair p qs else p ∷ q ∷ qs

unfoldable pub sort_chain : List Pair → List Pair
sort_chain [] = []
sort_chain (p ∷ ps) = insert_pair p (sort_chain ps)

unfoldable pub sort : Db → Db
sort db = record db { chain = sort_chain db.chain }

unfoldable pub max_length : ℕ → List Pair → ℕ
max_length n [] = n
max_length n (p ∷ ps) = max_length (if ltb n (length p.key) then length p.key else n) ps

-- `%-*s\t%s\n`
abbrev pub line : ℕ → Bytes → Bytes → Bytes
line width k v = k ++ (replicate (width - length k) b' ' ++ b'\t' ∷ (v ++ b'\n' ∷ []))

unfoldable pub lines : (Bytes → Bytes) → ℕ → List Pair → Bytes
lines mangle width [] = []
lines mangle width (p ∷ ps) = line width p.key (mangle p.value) ++ lines mangle width ps

-- `Format`: the width is the longest key's, less its last three bits.
unfoldable pub format : (Bytes → Bytes) → Db → Bytes × Db
format mangle db =
    let sorted = sort db in (lines mangle (max_length 0 sorted.chain / 8 * 8) sorted.chain, sorted)

abbrev pub is_blank : ℕ → Bool
is_blank c = c == b' ' || c == b'\t'

unfoldable pub skip_blank : Bytes → Bytes
skip_blank [] = []
skip_blank (c ∷ s) = if is_blank c then skip_blank s else c ∷ s

-- The bytes before one that ends the key, and the text from that byte on.
unfoldable pub read_key : Bytes → Bytes × Bytes
read_key [] = ([], [])
read_key (c ∷ s) =
    let (k, t) = read_key s in if is_blank c || c == b'\n' then ([], c ∷ s) else (c ∷ k, t)

-- The bytes before the end of the line, and the text behind it.
unfoldable pub read_value : Bytes → Bytes × Bytes
read_value [] = ([], [])
read_value (c ∷ s) = let (v, t) = read_value s in if c == b'\n' then ([], s) else (c ∷ v, t)

-- A text as C takes it, up to its first NUL.
unfoldable pub c_str : Bytes → Bytes
c_str [] = []
c_str (c ∷ s) = if c == 0 then [] else c ∷ c_str s

-- What a round of the loop of `Read` found: the end or an invalid line, an empty line, or a pair.
pub data Item : Type 0 where
  stop : Item
  empty_line : Bytes → Item
  pair : Bytes → Bytes → Bytes → Item

abbrev pub item : Bytes → Bytes × Bytes → Item
item k (v, rest) = pair k v rest

-- A line behind its key and the blanks that follow it.
abbrev pub before_value : Bytes → Bytes → Item
before_value k [] = stop
before_value k (c ∷ t) = if c == b'\n' then stop else item k (read_value (c ∷ t))

-- A line behind its key.
abbrev pub behind_key : Bytes × Bytes → Item
behind_key (k, []) = stop
behind_key (k, c ∷ t) = if c == b'\n' then stop else before_value k (skip_blank (c ∷ t))

abbrev pub at_key : Bytes → Item
at_key [] = stop
at_key (c ∷ t) = if c == b'\n' then empty_line t else behind_key (read_key (c ∷ t))

unfoldable pub read_item : Bytes → Item
unfolding read_key read_value
read_item s = at_key (skip_blank s)

-- The loop of `Read`. Each round takes a byte at least: the length of the text is enough fuel.
unfoldable pub read_lines : ℕ → Db → Bytes → Db
read_lines zero db s = db
read_lines (suc fuel) db s = elim (read_item s) [
  | stop ↦ db
  | empty_line rest ↦ read_lines fuel db rest
  | pair k v rest ↦ read_lines fuel (add (c_str k) (c_str v) db) rest
]

unfoldable pub read : Bytes → Db → Db
read s db = read_lines (length s + 1) db s
