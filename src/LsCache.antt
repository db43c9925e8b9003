-- ===== src/LsCache.antt =====
-- The cache of directory listings: LsCache.cc and LsCache.h, on the chain of Cache.cc and Cache.h.
pub mod Trimming
pub mod Adding
mod Tests
use lftp.Prelude.{
  ℕ, zero, suc, ◌+◌, ◌-◌, Bool, true, false, not, ◌&&◌, ◌||◌, Option, none, some, List, [], ◌∷◌,
  Bytes, same, length, ◌==◌, leb, if◌then◌else◌,
}
use lftp.Prelude.Int.{ℤ, pos, negsuc, eq_ℤ, ltb_ℤ}
use lftp.FileSet.{FileInfo}

-- `LsCacheEntryLoc`, and what a caller asks for; `L` is a FileAccess with its directory.
pub record Place (L : Type 0) : Type 0 where
  pub loc : L
  pub arg : Bytes
  pub mode : ℤ

-- `LsCacheEntryData`
pub record Listing : Type 0 where
  pub err_code : ℤ
  pub text : Bytes
  pub afset : Option (List FileInfo)

-- An entry with the time when its timer stops, or none for never.
pub record CacheEntry (L : Type 0) : Type 0 where
  pub place : Place L
  pub listing : Listing
  pub stop : Option ℕ

-- What the code takes from the settings, and from the classes of FileAccess and FileSet: whether two locations are the
-- same, whether a protocol is that of local files, the size of an entry without its texts and that of a set of files.
pub record Config (L : Type 0) : Type 0 where
  pub same_location : L → L → Bool
  pub is_local : L → Bool
  pub base_size : ℕ
  pub memory : List FileInfo → ℕ
  pub max_size : ℤ
  pub enabled : L → Bool
  pub empty_listings : L → Bool
  pub expire : ℤ → L → Option ℕ

abbrev pub is_past : ℕ → Option ℕ → Bool
is_past now none = false
is_past now (some t) = leb t now

abbrev pub is_stopped : {L : Type 0} → ℕ → CacheEntry L → Bool
is_stopped now e = is_past now e.stop

-- `Matches`. The mode -1 stands for any.
abbrev pub matches : {L : Type 0} → Config L → Place L → CacheEntry L → Bool
matches cfg p e =
    (eq_ℤ p.mode (negsuc 0) || eq_ℤ e.place.mode p.mode)
    && (same e.place.arg p.arg && cfg.same_location p.loc e.place.loc)

abbrev pub set_memory : (List FileInfo → ℕ) → Option (List FileInfo) → ℕ
set_memory memory none = 0
set_memory memory (some fs) = memory fs

abbrev pub estimate_size : {L : Type 0} → Config L → CacheEntry L → ℕ
estimate_size cfg e =
    cfg.base_size
    + (length e.place.arg + 1)
    + (length e.listing.text + set_memory cfg.memory e.listing.afset)

-- The first loop of `Trim`, with the size of what it leaves.
abbrev pub live : {L : Type 0} → Config L → ℕ → List (CacheEntry L) → List (CacheEntry L) × ℕ
live cfg now [] = ([], 0)
live cfg now (e ∷ es) =
    let rest = live cfg now es in
    if is_stopped now e then rest else (e ∷ rest.0, estimate_size cfg e + rest.1)

-- Its second loop.
abbrev pub trim_to : {L : Type 0} → Config L → ℕ → List (CacheEntry L) → List (CacheEntry L)
trim_to cfg size [] = []
trim_to cfg size (e ∷ es) =
    if ltb_ℤ cfg.max_size (pos size) then trim_to cfg (size - estimate_size cfg e) es else e ∷ es

unfoldable pub trim : {L : Type 0} → Config L → ℕ → List (CacheEntry L) → List (CacheEntry L)
trim cfg now es = let r = live cfg now es in trim_to cfg r.1 r.0

abbrev pub first_match :
    {L : Type 0} → Config L → Place L → List (CacheEntry L) → Option (CacheEntry L)
first_match cfg p [] = none
first_match cfg p (e ∷ es) = if matches cfg p e then some e else first_match cfg p es

-- `Find` of an entry, from the first that matches.
abbrev pub if_live :
    {L : Type 0}
    → Config L
    → ℕ
    → List (CacheEntry L)
    → Option (CacheEntry L)
    → Option (CacheEntry L) × List (CacheEntry L)
if_live cfg now es none = (none, es)
if_live cfg now es (some e) = if is_stopped now e then (none, trim cfg now es) else (some e, es)

abbrev pub find :
    {L : Type 0}
    → Config L
    → ℕ
    → Place L
    → List (CacheEntry L)
    → Option (CacheEntry L) × List (CacheEntry L)
find cfg now p es =
    if cfg.enabled p.loc then if_live cfg now es (first_match cfg p es) else (none, es)

-- `Find` with `GetData`.
abbrev pub listing_of : {L : Type 0} → Option (CacheEntry L) → Option Listing
listing_of none = none
listing_of (some e) = some e.listing

abbrev pub find_data : {L : Type 0} → Config L → ℕ → Place L → List (CacheEntry L) → Option Listing
find_data cfg now p es = listing_of (find cfg now p es).0

-- `SetData` of the entry that was found.
abbrev pub set_data :
    {L : Type 0} → Config L → Place L → Listing → List (CacheEntry L) → List (CacheEntry L)
set_data cfg p d [] = []
set_data cfg p d (e ∷ es) =
    if matches cfg p e then record e { listing = d } ∷ es else e ∷ set_data cfg p d es

abbrev pub after : ℕ → Option ℕ → Option ℕ
after now none = none
after now (some n) = some (now + n)

abbrev pub new_entry : {L : Type 0} → Config L → ℕ → Place L → Listing → CacheEntry L
new_entry cfg now p d = record {
  place = p;
  listing = d;
  stop = after now (cfg.expire d.err_code p.loc);
}

abbrev pub add_found :
    {L : Type 0}
    → Config L
    → ℕ
    → Place L
    → Listing
    → Option (CacheEntry L) × List (CacheEntry L)
    → List (CacheEntry L)
add_found cfg now p d (none, es) = if cfg.enabled p.loc then new_entry cfg now p d ∷ es else es
add_found cfg now p d (some e, es) = set_data cfg p d es

-- The answers that are kept: OK, and NO_FILE and NOT_SUPP, which are -97 and -90.
abbrev pub is_kept : ℤ → Bool
is_kept err = eq_ℤ err (pos 0) || eq_ℤ err (negsuc 96) || eq_ℤ err (negsuc 89)

-- The early returns of `Add`.
abbrev pub is_skipped : {L : Type 0} → Config L → Place L → Listing → Bool
is_skipped cfg p d =
    cfg.is_local p.loc
    || length d.text == 0 && not (cfg.empty_listings p.loc)
    || not (is_kept d.err_code)

unfoldable pub add :
    {L : Type 0} → Config L → ℕ → Place L → Listing → List (CacheEntry L) → List (CacheEntry L)
add cfg now p d es =
    if is_skipped cfg p d then es else add_found cfg now p d (find cfg now p (trim cfg now es))
