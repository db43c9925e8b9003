-- ===== src/FileSet.antt =====
-- The sets of files of a directory: FileSet.cc and FileSet.h.
pub mod Search
pub mod Setters
pub mod Known
pub mod Look
pub mod Names
pub mod Merging
pub mod Subtraction
mod Tests
use lftp.Prelude.{
  ℕ, zero, suc, ◌+◌, ◌-◌, ◌*◌, ◌/◌, Bool, true, false, not, ◌&&◌, ◌||◌, Option, none, some, List,
  [], ◌∷◌, ◌++◌, map, Bytes, same, length, take, drop, get_or, ◌==◌, ltb, leb, if◌then◌else◌,
}
use lftp.Prelude.Order.{less}

pub data FileType : Type 0 where
  unknown : FileType
  directory : FileType
  symbolic : FileType
  normal : FileType
  redirect : FileType

-- The bits of `defined` and of `need`.
pub record Defined : Type 0 where
  pub mode : Bool
  pub date : Bool
  pub filetype : Bool
  pub symlink : Bool
  pub size : Bool
  pub user : Bool
  pub group : Bool
  pub nlinks : Bool

pub record FileInfo : Type 0 where
  pub name : Bytes
  pub symlink : Option Bytes
  pub mode : ℕ
  pub ts : ℕ
  pub ts_prec : ℕ
  pub size : ℕ
  pub user : Option Bytes
  pub group : Option Bytes
  pub nlinks : ℕ
  pub filetype : FileType
  pub defined : Defined
  pub need : Defined

-- `SYMLINK` and `REDIRECT`, the numbers 2 and 4 of two file types, stand for a mode here.
abbrev pub keeps_symlink : ℕ → Bool
keeps_symlink mode = mode == 2 || mode == 4

unfoldable pub merge_mode : Bool → FileInfo → FileInfo → FileInfo
merge_mode dif f t =
    if dif
    then record t {
      mode = f.mode;
      symlink = if keeps_symlink f.mode then t.symlink else none;
      defined = record t.defined { mode = true };
      need = record t.need { mode = false };
    }
    else t

unfoldable pub merge_date : Bool → FileInfo → FileInfo → FileInfo
merge_date dif f t =
    if dif || t.defined.date && f.defined.date && ltb f.ts_prec t.ts_prec
    then record t {
      ts = f.ts;
      ts_prec = f.ts_prec;
      defined = record t.defined { date = true };
      need = record t.need { date = false };
    }
    else t

unfoldable pub merge_size : Bool → FileInfo → FileInfo → FileInfo
merge_size dif f t =
    if dif
    then record t {
      size = f.size;
      defined = record t.defined { size = true };
      need = record t.need { size = false };
    }
    else t

unfoldable pub merge_type : Bool → FileInfo → FileInfo → FileInfo
merge_type dif f t =
    if dif
    then record t {
      filetype = f.filetype;
      defined = record t.defined { filetype = true };
      need = record t.need { filetype = false };
    }
    else t

-- `SetSymlink`. The test is of the bit 2, which is that of the mode.
unfoldable pub merge_symlink : Bool → FileInfo → FileInfo → FileInfo
merge_symlink dif f t =
    if dif
    then record t {
      symlink = f.symlink;
      filetype = symbolic;
      defined = record t.defined { filetype = true; symlink = true };
      need = record t.need { filetype = false; symlink = false };
    }
    else t

abbrev pub same_option : Option Bytes → Option Bytes → Bool
same_option none none = true
same_option (some a) (some b) = same a b
same_option _ _ = false

unfoldable pub merge_user : Bool → FileInfo → FileInfo → FileInfo
merge_user dif f t =
    if dif && not (same_option f.user t.user)
    then record t {
      user = f.user;
      defined = record t.defined { user = true };
      need = record t.need { user = false };
    }
    else t

unfoldable pub merge_group : Bool → FileInfo → FileInfo → FileInfo
merge_group dif f t =
    if dif && not (same_option f.group t.group)
    then record t {
      group = f.group;
      defined = record t.defined { group = true };
      need = record t.need { group = false };
    }
    else t

unfoldable pub merge_nlinks : Bool → FileInfo → FileInfo → FileInfo
merge_nlinks dif f t =
    if dif
    then record t {
      nlinks = f.nlinks;
      defined = record t.defined { nlinks = true };
      need = record t.need { nlinks = false };
    }
    else t

-- `MergeInfo` with what `t` has not defined.
abbrev pub merge_info : FileInfo → FileInfo → FileInfo
merge_info f t =
    let d = t.defined in
    let e = f.defined in
    let mode = not d.mode && e.mode in
    merge_nlinks (not d.nlinks && e.nlinks) f (
      merge_group (not d.group && e.group) f (
        merge_user (not d.user && e.user) f (
          merge_symlink mode f (
            merge_type (not d.filetype && e.filetype) f (
              merge_size (not d.size && e.size) f
                (merge_date (not d.date && e.date) f (merge_mode mode f t)))))))

-- `basename_ptr`: what is behind the last slash that has another byte behind it.
abbrev pub only_slashes : Bytes → Bool
only_slashes [] = true
only_slashes (c ∷ s) = c == b'/' && only_slashes s

abbrev pub has_dir : Bytes → Bool
has_dir [] = false
has_dir (c ∷ s) = c == b'/' && not (only_slashes s) || has_dir s

abbrev pub basename : Bytes → Bytes
basename [] = []
basename (c ∷ s) = if has_dir (c ∷ s) then basename s else c ∷ s

-- `Merge`: what `t` takes over from `f`, if their names are the same behind the last slash.
unfoldable pub merged : FileInfo → FileInfo → FileInfo
merged t f = if same (basename t.name) (basename f.name) then merge_info f t else t

abbrev pub name_at : List FileInfo → ℕ → Bytes
name_at fs i = get_or (map (λ f. f.name) fs) i []

-- The loop of `FindGEIndByName`. A round halves `u - l`, so the number of files is enough fuel.
unfoldable pub bisect : ℕ → List FileInfo → Bytes → ℕ → ℕ → ℕ
bisect zero fs name l u = u
bisect (suc fuel) fs name l u =
    let m = (l + u) / 2 in
    let lower = bisect fuel fs name l m in
    let upper = bisect fuel fs name (m + 1) u in
    if ltb l u
    then (if less name (name_at fs m) then lower else if less (name_at fs m) name then upper else m)
    else u

unfoldable pub find_ge : List FileInfo → Bytes → ℕ
find_ge fs name =
    let n = length fs in
    if n == 0 || less (name_at fs (n - 1)) name then n else bisect n fs name 0 (n - 1)

abbrev pub file_at : List FileInfo → ℕ → Option FileInfo
file_at [] i = none
file_at (f ∷ fs) zero = some f
file_at (f ∷ fs) (suc i) = file_at fs i

-- `pos<fnum && !strcmp(files[pos]->name,name)`
abbrev pub is_at : List FileInfo → Bytes → ℕ → Bool
is_at fs name pos = ltb pos (length fs) && same (name_at fs pos) name

unfoldable pub find_by_name : List FileInfo → Bytes → Option FileInfo
find_by_name fs name = let n = find_ge fs name in if is_at fs name n then file_at fs n else none

abbrev pub add_before : ℕ → FileInfo → List FileInfo → List FileInfo
add_before pos f fs = take pos fs ++ (f ∷ drop pos fs)

abbrev pub merge_at : ℕ → FileInfo → List FileInfo → List FileInfo
merge_at i f [] = []
merge_at zero f (t ∷ fs) = merged t f ∷ fs
merge_at (suc i) f (t ∷ fs) = t ∷ merge_at i f fs

-- `Add` of a file with a name to a set without a sort order, and a round of `Merge_insert`.
unfoldable pub insert_info : FileInfo → List FileInfo → List FileInfo
insert_info f fs =
    let pos = find_ge fs f.name in
    if is_at fs f.name pos then merge_at pos f fs else add_before pos f fs

abbrev pub merge_insert : List FileInfo → List FileInfo → List FileInfo
merge_insert [] fs = fs
merge_insert (f ∷ set) fs = merge_insert set (insert_info f fs)

-- The loops along both sets. `fuel` is the length of both, since a round leaves one file behind.
unfoldable pub merge_both : ℕ → List FileInfo → List FileInfo → List FileInfo
merge_both zero set fs = fs
merge_both (suc fuel) [] fs = fs
merge_both (suc fuel) (f ∷ set) [] = f ∷ set
merge_both (suc fuel) (f ∷ set) (t ∷ fs) =
    let both = merged t f ∷ merge_both fuel set fs in
    let theirs = f ∷ merge_both fuel set (t ∷ fs) in
    let ours = t ∷ merge_both fuel (f ∷ set) fs in
    if same t.name f.name then both else if less f.name t.name then theirs else ours

-- `Merge` of a set without a sort order. The test estimates which way is faster.
unfoldable pub merge : List FileInfo → List FileInfo → List FileInfo
merge [] fs = fs
merge (f ∷ set) fs =
    let n = length fs in
    if ltb (n - find_ge fs f.name) (n * 2 / length (f ∷ set))
    then merge_insert (f ∷ set) fs
    else merge_both (length (f ∷ set) + n) (f ∷ set) fs

-- The files without those that `p` holds of: the loops that call `Sub(i--)`.
abbrev pub sub_if : (FileInfo → Bool) → List FileInfo → List FileInfo
sub_if p [] = []
sub_if p (f ∷ fs) = if p f then sub_if p fs else f ∷ sub_if p fs

abbrev pub is_some : Option FileInfo → Bool
is_some none = false
is_some (some f) = true

abbrev pub subtract_any : List FileInfo → List FileInfo → List FileInfo
subtract_any set = sub_if (λ f. is_some (find_by_name set f.name))

abbrev pub subtract_not_in : List FileInfo → List FileInfo → List FileInfo
subtract_not_in set = sub_if (λ f. not (is_some (find_by_name set f.name)))
