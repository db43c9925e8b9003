-- ===== src/Bencode/Node.antt =====
-- `BeNode` (Bencode.h). A node is one of four kinds. `str` of a dictionary is the text that it was
-- parsed from. The map of a dictionary is a list of entries with no key twice, in any order: the
-- order in which the hash table iterates is never used by what is modelled here. The translated
-- copy `str_lc` is left out, which only the formats for people show.
use lftp.Prelude.{ℕ, ◌-◌, ◌^◌, Bytes, codes, Option, none, some, ltb, same, if◌then◌else◌}
use lftp.Prelude.Int.{ℤ, pos, negsuc}

mutual
  pub data Node : Type 0 where
    str : Bytes → Node
    int : ℤ → Node
    list : Nodes → Node
    dict : Bytes → Entries → Node

  pub data Nodes : Type 0 where
    nil : Nodes
    cons : Node → Nodes → Nodes

  pub data Entries : Type 0 where
    no_entries : Entries
    entry : Bytes → Node → Entries → Entries

pub data BeType : Type 0 where
  be_str be_int be_list be_dict : BeType

unfoldable pub type : Node → BeType
type (str s) = be_str
type (int n) = be_int
type (list vs) = be_list
type (dict s es) = be_dict

-- `BeNode::TypeName`.
unfoldable pub type_name : BeType → Bytes
type_name be_str = codes "STR"
type_name be_int = codes "INT"
type_name be_list = codes "LIST"
type_name be_dict = codes "DICT"

-- `xmap_p::add`: a key that is there gets the new value.
unfoldable pub map_add : Bytes → Node → Entries → Entries
map_add k v no_entries = entry k v no_entries
map_add k v (entry j w es) = if same j k then entry j v es else entry j w (map_add k v es)

-- `xmap_p::lookup`.
unfoldable pub map_lookup : Bytes → Entries → Option Node
map_lookup k no_entries = none
map_lookup k (entry j w es) = if same j k then some w else map_lookup k es

unfoldable pub lookup : Bytes → Node → Option Node
unfolding map_lookup
lookup k (dict s es) = map_lookup k es
lookup k _ = none

-- `lookup_str`, where `xstring::null` is `none`.
unfoldable pub lookup_str : Bytes → Node → Option Bytes
unfolding lookup
lookup_str k n = elim (lookup k n) [ none ↦ none | some v ↦ elim v [ str s ↦ some s | _ ↦ none ] ]

-- `lookup_int`, which is 0 where there is no such number.
unfoldable pub lookup_int : Bytes → Node → ℤ
unfolding lookup
lookup_int k n = elim (lookup k n) [ none ↦ pos 0 | some v ↦ elim v [ int z ↦ z | _ ↦ pos 0 ] ]

-- The `long long` that a 64-bit pattern stands for.
abbrev pub signed64 : ℕ → ℤ
signed64 w = if ltb w (2 ^ 63) then pos w else negsuc (2 ^ 64 - w - 1)
