-- ===== src/FileSet/Merging.antt =====
-- `FileSet::Merge` and the subtractions (FileSet.cc) as operations on maps from names.
use lftp.Prelude.{◌≡◌, Option, none, some, List, Bytes}
use lftp.FileSet.{FileInfo}
use lftp.FileSet.Search.{IsSorted}
use lftp.FileSet.Look.{look}
use lftp.FileSet.Setters.{known}
use lftp.FileSet.Names.{combine}

-- `r` is in order, and has under each name what the two sets have there, by `merged`.
abbrev pub Merges : List FileInfo → List FileInfo → List FileInfo → Type 0
Merges set fs r = IsSorted r × ((n : Bytes) → look n r ≡ combine (look n fs) (look n set))

-- What two sets have under a name, put together.
abbrev pub both_known : Option FileInfo → Option FileInfo → Option FileInfo
both_known none o = o
both_known (some t) none = some t
both_known (some t) (some f) = some (known t f)

-- `r` is in order, and has under each name what the two sets have there, put together.
abbrev pub Combines : List FileInfo → List FileInfo → List FileInfo → Type 0
Combines set fs r = IsSorted r × ((n : Bytes) → look n r ≡ both_known (look n fs) (look n set))
