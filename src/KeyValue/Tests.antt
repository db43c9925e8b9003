-- ===== src/KeyValue/Tests.antt =====
-- The theorems on the key-value file at two bookmarks.
use lftp.Prelude.{or_else, ◌≡◌, refl, [], ◌∷◌, some, codes, same, arith}
use lftp.KeyValue.{
  Pair, Db, lookup, add, format, read, read_lines, read_item, skip_blank, read_key, read_value,
  c_str, lookup_pair, set_value,
}
use lftp.KeyValue.Lookup.{AreUnique}
use lftp.KeyValue.Lines.{AreRecords}
use lftp.KeyValue.File.{read-format}

abbrev gnu : Pair
gnu = record { place = 2; key = codes "gnu"; value = codes "ftp://ftp.gnu.org/" }

abbrev local : Pair
local = record { place = 1; key = codes "local"; value = codes "file:/tmp" }

abbrev bookmarks : Db
bookmarks = record { chain = local ∷ gnu ∷ []; current = 0; top = 3 }

abbrev no_bookmarks : Db
no_bookmarks = record { chain = []; current = 0; top = 1 }

bookmarks-AreUnique : AreUnique bookmarks.chain
unfolding same
bookmarks-AreUnique = ((refl, tt), (tt, tt))

bookmarks-AreRecords : AreRecords bookmarks.chain
bookmarks-AreRecords = ground arith

read-format_example :
    lookup (codes "gnu") (read (format (λ v. v) bookmarks).0 no_bookmarks).chain
    ≡ or_else (lookup (codes "gnu") bookmarks.chain) (lookup (codes "gnu") no_bookmarks.chain)
read-format_example =
    read-format (codes "gnu") bookmarks no_bookmarks bookmarks-AreUnique bookmarks-AreRecords

read_two :
    lookup (codes "b") (read (codes "a 1\n\n b \t two words\n") no_bookmarks).chain
    ≡ some (codes "two words")
unfolding lookup read read_lines read_item skip_blank read_key read_value c_str add lookup_pair
    set_value same
read_two = refl
