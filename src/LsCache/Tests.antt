-- ===== src/LsCache/Tests.antt =====
-- Runs of the cache of listings (LsCache.cc), and its theorems at one with an entry.
use lftp.Prelude.{ℕ, ◌≡◌, refl, none, some, List, [], ◌==◌, true, false, codes, same, length}
use lftp.Prelude.Int.{pos}
use lftp.LsCache.{Place, Listing, CacheEntry, Config, trim, find_data, add}
use lftp.LsCache.Trimming.{not_stopped, longest_fit, trim-longest_fit}
use lftp.LsCache.Adding.{find_data-add}

-- Hosts are numbers, and the host 0 is the local one.
abbrev config : Config ℕ
config = record {
  same_location = λ a b. a == b;
  is_local = λ a. a == 0;
  base_size = 10;
  memory = λ fs. length fs;
  max_size = pos 30;
  enabled = λ a. true;
  empty_listings = λ a. false;
  expire = λ err a. some 60;
}

abbrev root : Place ℕ
root = record { loc = 1; arg = codes "/"; mode = pos 0 }

abbrev home : Place ℕ
home = record { loc = 1; arg = codes "~"; mode = pos 0 }

abbrev listing : Listing
listing = record { err_code = pos 0; text = codes "file"; afset = none }

abbrev one : List (CacheEntry ℕ)
one = add config 100 root listing []

finds : find_data config 120 root one ≡ some listing
unfolding add trim same
finds = refl

expires : find_data config 160 root one ≡ none
unfolding add trim same
expires = refl

-- Two entries are too large, and the new one goes.
trims : trim config 120 (add config 120 home listing one) ≡ one
unfolding add trim same
trims = refl

trim-longest_fit_example : trim config 120 one ≡ longest_fit config (not_stopped config 120 one)
trim-longest_fit_example = trim-longest_fit config 120 one

find_data-add_example : find_data config 120 home (add config 120 home listing one) ≡ some listing
find_data-add_example = find_data-add config 120 home listing one (refl, refl, refl, refl)
