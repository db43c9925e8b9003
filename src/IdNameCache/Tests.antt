-- ===== src/IdNameCache/Tests.antt =====
-- Runs of the cache of ids and names (IdNameCache.cc), and its theorems at one with an entry.
use lftp.Prelude.{
  ◌≡◌, refl, sym, ap, ◌∙◌, Option, true, none, some, Bytes, codes, same, arith, if_cases,
  if◌then◌else◌,
}
use lftp.Prelude.Int.{ℤ, pos, eq_ℤ}
use lftp.Bencode.Decimal.{digits, decimal, decimal_ℤ}
use lftp.IdNameCache.{
  Cache, Records, empty_cache, hash_name, lookup_id, lookup_name, name_of, id_of, system_records,
}
use lftp.IdNameCache.Find.{find_id, find_name}
use lftp.IdNameCache.Maps.{
  GivesId, GivesName, lookup_id-GivesId, lookup_name-GivesName, system_records-IsFaithful,
}

-- The system knows the user 7 as `joe`, and `7` is a number.
abbrev user_7 : ℤ → Option (ℤ × Bytes)
user_7 i = if eq_ℤ i (pos 7) then some (pos 7, codes "joe") else none

abbrev id_of_joe : Bytes → Option ℤ
id_of_joe s = if same s (codes "joe") then some (pos 7) else none

abbrev number_7 : Bytes → Option ℤ
number_7 s = if same s (codes "7") then some (pos 7) else none

abbrev system : Records
system = system_records user_7 id_of_joe number_7

abbrev known : Cache
known = (lookup_id system (pos 7) empty_cache).1

names_joe : (name_of system (pos 7) known).0 ≡ codes "joe"
unfolding name_of lookup_id hash_name
names_joe = refl

-- The lookup of the text `7` takes the place of the user's name.
names_7 : (name_of system (pos 7) (id_of system (codes "7") known).1).0 ≡ codes "7"
unfolding name_of id_of lookup_id lookup_name hash_name same
names_7 = refl

unknown_number : (name_of system (pos 12) known).0 ≡ codes "12"
unfolding name_of lookup_id hash_name decimal_ℤ decimal digits
unknown_number = refl

answered : ℤ → Option (ℤ × Bytes) → ℤ
answered i none = i
answered i (some (u, n)) = u

user_7-id : (i u : ℤ) (n : Bytes) → user_7 i ≡ some (u, n) → u ≡ i
unfolding answered
user_7-id i u n =
    if_cases (λ o. o ≡ some (u, n) → u ≡ i) (eq_ℤ i (pos 7)) (some (pos 7, codes "joe")) none
      (λ y e. sym (ap (answered u) e) ∙ seven y) (λ y e. absurd (ground arith))
  where
    seven : eq_ℤ i (pos 7) ≡ true → pos 7 ≡ i
    seven y = ground arith

lookup_id-GivesId_example :
    GivesId system (pos 12) known (find_id known (pos 12)) (lookup_id system (pos 12) known)
lookup_id-GivesId_example =
    lookup_id-GivesId system (pos 12) known
      (system_records-IsFaithful user_7 id_of_joe number_7 user_7-id)

lookup_name-GivesName_example :
    GivesName system
      (codes "7")
      known
      (find_name known (codes "7"))
      (lookup_name system (codes "7") known)
lookup_name-GivesName_example =
    lookup_name-GivesName system (codes "7") known
      (system_records-IsFaithful user_7 id_of_joe number_7 user_7-id)
