-- ===== src/FileSet/Tests.antt =====
-- Runs of the sets of files (FileSet.cc), and their theorems at small sets.
use lftp.Prelude.{
  ◌≡◌, refl, true, false, not, none, List, [], ◌∷◌, map, Bytes, codes, same, if◌then◌else◌,
}
use lftp.Prelude.Order.{less}
use lftp.FileSet.{
  FileInfo, Defined, unknown, normal, symbolic, merge_mode, merge_date, merge_size, merge_type,
  merge_symlink, merge_user, merge_group, merge_nlinks, merge_info, merged, bisect, find_ge,
  insert_info, merge_both, merge, is_some, subtract_any, subtract_not_in,
}
use lftp.FileSet.Search.{
  none_above, above, IsSorted, none_sorted, sorted, position, find_ge-position,
}
use lftp.FileSet.Look.{look}
use lftp.FileSet.Subtraction.{subtract_any-subtract_not_in}

abbrev nothing : Defined
nothing = record {
  mode = false;
  date = false;
  filetype = false;
  symlink = false;
  size = false;
  user = false;
  group = false;
  nlinks = false;
}

abbrev file : Bytes → FileInfo
file name = record {
  name = name;
  symlink = none;
  mode = 0;
  ts = 0;
  ts_prec = 0;
  size = 0;
  user = none;
  group = none;
  nlinks = 0;
  filetype = unknown;
  defined = nothing;
  need = nothing;
}

abbrev with_mode : FileInfo
with_mode = record (file (codes "b")) { mode = 420; defined = record nothing { mode = true } }

abbrev with_type : FileInfo
with_type = record (file (codes "b")) {
  filetype = normal;
  defined = record nothing { filetype = true };
}

abbrev ours : List FileInfo
ours = file (codes "a") ∷ with_type ∷ []

abbrev theirs : List FileInfo
theirs = with_mode ∷ file (codes "c") ∷ []

abbrev ours-IsSorted : IsSorted ours
unfolding less
ours-IsSorted = sorted (above refl none_above) (sorted none_above none_sorted)

abbrev theirs-IsSorted : IsSorted theirs
unfolding less
theirs-IsSorted = sorted (above refl none_above) (sorted none_above none_sorted)

-- The mode that the other entry has makes a normal file a symbolic link.
becomes_symbolic : (merge_info with_mode with_type).filetype ≡ symbolic
unfolding merge_mode merge_date merge_size merge_type merge_symlink merge_user merge_group
    merge_nlinks
becomes_symbolic = refl

merges : map (λ f. f.name) (merge theirs ours) ≡ codes "a" ∷ codes "b" ∷ codes "c" ∷ []
unfolding merge merge_both find_ge bisect insert_info merged less same merge_mode merge_date
    merge_size merge_type merge_symlink merge_user merge_group merge_nlinks
merges = refl

find_ge-position_example : find_ge theirs (codes "c") ≡ position (codes "c") theirs
find_ge-position_example = find_ge-position theirs (codes "c") theirs-IsSorted

subtract_any-subtract_not_in_example :
    (IsSorted (subtract_any theirs ours)
      × ((n : Bytes)
          → look n (subtract_any theirs ours)
            ≡ (if is_some (look n theirs) then none else look n ours)))
    × (IsSorted (subtract_not_in theirs ours)
        × ((n : Bytes)
            → look n (subtract_not_in theirs ours)
              ≡ (if not (is_some (look n theirs)) then none else look n ours)))
subtract_any-subtract_not_in_example =
    subtract_any-subtract_not_in theirs ours theirs-IsSorted ours-IsSorted
