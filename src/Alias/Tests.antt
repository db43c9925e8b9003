-- ===== src/Alias/Tests.antt =====
-- The theorems on the alias table at small tables.
use lftp.Prelude.{◌≡◌, refl, [], ◌∷◌, some, codes}
use lftp.Alias.{casecmp, Table, entry, add, find}
use lftp.Alias.Lookup.{IsSorted, find-add}

abbrev two_entries : Table
two_entries = entry (codes "dir") (codes "ls") ∷ entry (codes "less") (codes "more") ∷ []

two_entries-IsSorted : IsSorted two_entries
unfolding casecmp
two_entries-IsSorted = (refl, (tt, tt))

find-add_example :
    find (codes "DIR") (add (codes "dir") (codes "cls") two_entries) ≡ some (codes "cls")
unfolding casecmp
find-add_example = find-add (codes "dir") (codes "DIR") (codes "cls") two_entries
