-- ===== src/PatternSet.antt =====
-- The patterns that exclude and include files: PatternSet.cc and PatternSet.h.
pub mod Rules
pub mod Chain
pub mod Glob
mod Tests
use lftp.Prelude.{
  ℕ, zero, suc, ◌+◌, ◌-◌, Bool, true, false, not, ◌&&◌, ◌||◌, List, [], ◌∷◌, Bytes, ◌==◌, length,
  drop, get_or, if◌then◌else◌,
}
use lftp.Prelude.Write.{write}

-- `Type`
pub data Kind : Type 0 where
  exclude : Kind
  include : Kind

abbrev pub same_kind : Kind → Kind → Bool
same_kind exclude exclude = true
same_kind include include = true
same_kind _ _ = false

-- `Match` of a pattern.
abbrev pub Pattern : Type 0
Pattern = Bytes → Bool

pub record PatternLink : Type 0 where
  pub type : Kind
  pub pattern : Pattern
  pub next : ℕ

-- The links stand at their addresses; 0 is null, and the addresses up to `made` are given out.
pub record PatternSet : Type 0 where
  pub chain : ℕ
  pub first : ℕ
  pub link : ℕ → PatternLink
  pub made : ℕ

abbrev pub no_patterns : PatternSet
no_patterns = record {
  chain = 0;
  first = 0;
  link = λ a. record { type = exclude; pattern = λ s. false; next = 0 };
  made = 0;
}

-- `new PatternLink`, at the next address.
abbrev pub new_link : Kind → Pattern → ℕ → PatternSet → PatternSet
new_link t p n s = record s {
  link = write s.link (suc s.made) (record { type = t; pattern = p; next = n });
  made = suc s.made;
}

unfoldable pub add : Kind → Pattern → PatternSet → PatternSet
add t p s =
    let a = suc s.made in
    record (new_link t p s.chain s) { chain = a; first = if s.first == 0 then a else s.first }

abbrev pub link_to : ℕ → ℕ → PatternSet → PatternSet
link_to a n s = record s { link = write s.link a (record (s.link a) { next = n }) }

unfoldable pub add_first : Kind → Pattern → PatternSet → PatternSet
add_first t p s =
    let a = suc s.made in
    let made = new_link t p 0 s in
    if s.first == 0 then record made { chain = a; first = a } else link_to s.first a made

-- The loop of `Match`. No more links than were made are fuel enough.
unfoldable pub match_from : ℕ → (ℕ → PatternLink) → Kind → Bytes → ℕ → Bool
match_from zero link t str scan = false
match_from (suc fuel) link t str scan =
    let l = link scan in
    let rest = match_from fuel link t str l.next in
    if scan == 0
    then false
    else (if l.pattern str
        then same_kind l.type t
        else if l.next == 0
        then not (same_kind l.type t)
        else rest)

unfoldable pub match_set : PatternSet → Kind → Bytes → Bool
match_set s t str = match_from s.made s.link t str s.chain

abbrev pub slashes : Bytes → ℕ
slashes [] = 0
slashes (c ∷ s) = if c == b'/' then suc (slashes s) else slashes s

-- The loop of `Glob::Match`, backwards over the string.
abbrev pub glob_scan : Bytes → ℕ → ℕ → ℕ
glob_scan str zero countdown = zero
glob_scan str (suc scan) countdown =
    if get_or str scan 0 == b'/'
    then (if countdown == 0 then suc scan else glob_scan str scan (countdown - 1))
    else glob_scan str scan countdown

-- `fnmatch` is that of the C library, with FNM_PATHNAME.
unfoldable pub glob_match : (Bytes → Bytes → Bool) → Bytes → Bytes → Bool
glob_match fnmatch pattern str =
    fnmatch pattern (drop (glob_scan str (length str) (slashes pattern)) str)
