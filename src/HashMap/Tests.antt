-- ===== src/HashMap/Tests.antt =====
-- Runs of the hash map (xmap.cc), and its theorems at small maps.
use lftp.Prelude.{ℕ, ◌≡◌, refl, none, some, Bytes, codes, length, same}
use lftp.HashMap.{
  Map, make_hash, find, get, add, remove, rebuild_map, move_chain, move_chains, no_entries,
  each_all,
}
use lftp.HashMap.Laws.{Changes, add-Changes, remove-Changes, no_entries-IsMap}
use lftp.HashMap.Iteration.{each_all-entries}

abbrev three : Map ℕ
three = add (codes "get") 3 (add (codes "put") 2 (add (codes "ls") 1 no_entries))

-- The third entry is one too many for a single chain.
grows : three.hash_size ≡ 17
unfolding add rebuild_map find make_hash same
grows = refl

finds : get three (codes "put") ≡ some 2
unfolding add rebuild_map find make_hash move_chain move_chains same
finds = refl

hash : make_hash 17 (codes "put") ≡ 3
unfolding make_hash
hash = refl

abbrev one : Map ℕ
one = add (codes "ls") 1 no_entries

abbrev one-IsMap : Changes (codes "ls") (some 1) no_entries one
one-IsMap = add-Changes (codes "ls") 1 no_entries no_entries-IsMap

add-Changes_example : Changes (codes "get") (some 3) one (add (codes "get") 3 one)
add-Changes_example = add-Changes (codes "get") 3 one one-IsMap.0

remove-Changes_example : Changes (codes "ls") none one (remove (codes "ls") one)
remove-Changes_example = remove-Changes (codes "ls") one one-IsMap.0

each_all-entries_example :
    (length (each_all one) ≡ one.entry_count) × ((k : Bytes) → find k (each_all one) ≡ get one k)
each_all-entries_example = each_all-entries one one-IsMap.0
