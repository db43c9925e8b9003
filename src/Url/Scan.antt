-- ===== src/Url/Scan.antt =====
-- The scans of url.cc: `path_index` with its tests of slots and bookmarks, `find_password_pos`,
-- `hide_password`, `remove_password` and `dir_needs_trailing_slash`. `has_slot` tells whether
-- `ConnectionSlot::Find` finds a slot, and `bookmark` is `lftp_bookmarks.Lookup`.
use lftp.Prelude.{
  ℕ, suc, ◌+◌, ◌-◌, Bool, true, false, ◌&&◌, ◌||◌, not, [], ◌∷◌, ◌++◌, Option, none, some, Bytes,
  codes, peek, tail, one_of, leb, ltb, ◌==◌, if◌then◌else◌, length, take, drop,
}
use lftp.Alias.{Cmp, equal, casecmp}
use lftp.Url.Coding.{decode}

abbrev pub is_alpha : ℕ → Bool
is_alpha c = (leb b'A' c && leb c b'Z') || (leb b'a' c && leb c b'z')

-- The letters at the front, and the text behind them.
unfoldable pub span_alpha : Bytes → Bytes × Bytes
span_alpha [] = ([], [])
span_alpha (c ∷ s) = let (a, t) = span_alpha s in if is_alpha c then (c ∷ a, t) else ([], c ∷ s)

-- The text before the first byte `c`, and the text from that byte on.
unfoldable pub break_at : ℕ → Bytes → Bytes × Bytes
break_at c [] = ([], [])
break_at c (d ∷ s) = let (a, t) = break_at c s in if d == c then ([], d ∷ s) else (d ∷ a, t)

abbrev pub suc_some : Option ℕ → Option ℕ
suc_some none = none
suc_some (some n) = some (suc n)

-- `strchr(s, c) - s`, for a byte that is not NUL.
unfoldable pub index_of : ℕ → Bytes → Option ℕ
index_of c [] = none
index_of c (d ∷ s) = if d == c then some 0 else suc_some (index_of c s)

-- `strncmp(s, prefix, strlen(prefix)) == 0`
unfoldable pub starts : Bytes → Bytes → Bool
starts [] s = true
starts (c ∷ p) [] = false
starts (c ∷ p) (d ∷ s) = c == d && starts p s

-- `strstr(s, "://") - s`
unfoldable pub index_sep : Bytes → Option ℕ
unfolding starts
index_sep [] = none
index_sep (c ∷ s) = if c == b':' && starts (codes "//") s then some 0 else suc_some (index_sep s)

module _ (has_slot : Bytes → Bool) (bookmark : Bytes → Option Bytes) where
  abbrev pub valid_slot : Bytes → Bool
  valid_slot s = has_slot (decode false (break_at b'/' s).0)

  abbrev pub is_bookmark_url : Option Bytes → Bool
  is_bookmark_url none = false
  is_bookmark_url (some u) = not (one_of u b' ') && not (one_of u b'\t')

  abbrev pub valid_bm : Bytes → Bool
  valid_bm s = is_bookmark_url (bookmark (decode false (break_at b'/' s).0))

  -- `slot:` or `bm:`, and what it names is there.
  abbrev pub is_named : Bytes → Bool
  is_named base =
      (starts (codes "slot:") base && valid_slot (drop 5 base))
      || (starts (codes "bm:") base && valid_bm (drop 3 base))

  -- The place of the first slash behind the first `n` bytes, or the end.
  abbrev pub slash_from : Bytes → ℕ → Option ℕ → ℕ
  slash_from base n none = length base
  slash_from base n (some i) = n + i

  unfoldable pub path_index : Bytes → ℕ
  path_index base =
      let (a, s) = span_alpha base in
      let n = length a in
      if not (peek s == b':')
      then 0
      else if starts (codes "//") (tail s)
      then slash_from base (n + 3) (index_of b'/' (drop 3 s))
      else if starts (codes "file:") base
      then n + 1
      else if is_named base
      then slash_from base (n + 1) (index_of b'/' (tail s))
      else 0

-- The start and the length of the password: `colon` and `at` are places behind the `://`, and so is
-- the slash, if there is one.
abbrev pub password_pos : ℕ → Option ℕ → Option ℕ → Option ℕ → Option (ℕ × ℕ)
password_pos scan (some at) (some colon) none =
    if ltb at colon then none else some (scan + colon + 1, at - colon - 1)
password_pos scan (some at) (some colon) (some slash) =
    if ltb at colon
    then none
    else if ltb slash at
    then none
    else some (scan + colon + 1, at - colon - 1)
password_pos scan _ _ _ = none

abbrev pub behind_sep : Bytes → Option ℕ → Option (ℕ × ℕ)
behind_sep url none = none
behind_sep url (some n) =
    let s = drop (n + 3) url in
    password_pos (n + 3) (index_of b'@' s) (index_of b':' s) (index_of b'/' s)

unfoldable pub find_password_pos : Bytes → Option (ℕ × ℕ)
find_password_pos url = behind_sep url (index_sep url)

abbrev pub replace_at : Bytes → Bytes → ℕ → Option (ℕ × ℕ) → Bytes
replace_at url text back none = url
replace_at url text back (some (start, len)) =
    take (start - back) url ++ (text ++ drop (start + len) url)

unfoldable pub hide_password : Bytes → Bytes
hide_password url = replace_at url (codes "XXXX") 0 (find_password_pos url)

unfoldable pub remove_password : Bytes → Bytes
remove_password url = replace_at url [] 1 (find_password_pos url)

abbrev pub is_equal : Cmp → Bool
is_equal equal = true
is_equal _ = false

unfoldable pub dir_needs_trailing_slash : Option Bytes → Bool
unfolding casecmp
dir_needs_trailing_slash none = false
dir_needs_trailing_slash (some proto) =
    let p = (break_at b':' proto).0 in
    is_equal (casecmp p (codes "http")) || is_equal (casecmp p (codes "https"))
