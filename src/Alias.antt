-- ===== src/Alias.antt =====
-- alias.cc and alias.h: the table of command aliases, a list kept in the order of `strcasecmp`.
-- The head of the list is `base`; an empty result of `find` is the null pointer.
pub mod Order
pub mod Lookup
mod Tests
use lftp.Prelude.{
  ℕ, ◌+◌, Bool, true, false, ◌&&◌, ◌||◌, not, List, [], ◌∷◌, ◌++◌, Option, none, some, Bytes, codes,
  leb, ltb, ◌==◌, if◌then◌else◌, one_of, same,
}

pub data Cmp : Type 0 where
  less equal greater : Cmp

-- `tolower` of the C locale.
abbrev pub lower : ℕ → ℕ
lower c = if leb b'A' c && leb c b'Z' then c + 32 else c

-- The sign of `strcasecmp(a, b)`.
unfoldable pub casecmp : Bytes → Bytes → Cmp
casecmp [] [] = equal
casecmp [] (y ∷ ys) = less
casecmp (x ∷ xs) [] = greater
casecmp (x ∷ xs) (y ∷ ys) =
    if ltb (lower x) (lower y)
    then less
    else if ltb (lower y) (lower x)
    then greater
    else casecmp xs ys

pub record Entry : Type 0 where
  pub alias : Bytes
  pub value : Bytes

abbrev pub Table : Type 0
Table = List Entry

abbrev pub entry : Bytes → Bytes → Entry
entry a v = record { alias = a; value = v }

-- `Alias::Add`: a hit sets the value, a larger name or the end gets a new entry in front of it.
unfoldable pub add : Bytes → Bytes → Table → Table
add a v [] = entry a v ∷ []
add a v (e ∷ es) = elim (casecmp e.alias a) [
  | equal ↦ record e { value = v } ∷ es
  | greater ↦ entry a v ∷ e ∷ es
  | less ↦ e ∷ add a v es
]

-- `Alias::Del`, which scans on past a larger name.
unfoldable pub del : Bytes → Table → Table
del a [] = []
del a (e ∷ es) = elim (casecmp e.alias a) [ equal ↦ es | _ ↦ e ∷ del a es ]

-- `Alias::Find`, which stops at a larger name.
unfoldable pub find : Bytes → Table → Option Bytes
find a [] = none
find a (e ∷ es) = elim (casecmp e.alias a) [
  | equal ↦ some e.value
  | greater ↦ none
  | less ↦ find a es
]

-- The two loops of `Alias::Format` that put a backslash before the bytes of a set.
unfoldable pub backslashed : Bytes → Bytes → Bytes
backslashed set [] = []
backslashed set (c ∷ s) =
    let rest = backslashed set s in if one_of set c then b'\\' ∷ c ∷ rest else c ∷ rest

abbrev pub any_of : Bytes → Bytes → Bool
any_of set [] = false
any_of set (c ∷ s) = one_of set c || any_of set s

-- `*s==0 || strcspn(s," \t>|")!=strlen(s)`
abbrev pub needs_par : Bytes → Bool
needs_par [] = true
needs_par (c ∷ s) = any_of (codes " \t>|") (c ∷ s)

abbrev pub par : Bytes → Bytes
par s = if needs_par s then b'"' ∷ [] else []

unfoldable pub format : Table → Bytes
unfolding backslashed
format [] = []
format (e ∷ es) =
    codes "alias "
    ++ (backslashed (codes "\" \t\\>|") e.alias
        ++ (b' '
            ∷ (par e.value
                ++ (backslashed (codes "\"\\") e.value ++ (par e.value ++ (b'\n' ∷ format es))))))

-- The values of the aliases that were expanded, newest first: `TouchedAlias`.
unfoldable pub is_touched : Bytes → List Bytes → Bool
unfolding same
is_touched a [] = false
is_touched a (t ∷ ts) = same t a || is_touched a ts
