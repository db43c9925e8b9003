-- ===== src/HashMap.antt =====
-- The hash map of xmap.cc and xmap.h: chains of entries under the hash of their keys.
pub mod Chain
pub mod Moving
pub mod Rebuild
pub mod Laws
pub mod Iteration
mod Tests
use lftp.Prelude.{
  ℕ, zero, suc, ◌+◌, ◌-◌, ◌*◌, ◌%◌, ◌^◌, Bool, true, false, Option, none, some, List, [], ◌∷◌, ◌++◌,
  Bytes, same, length, ◌==◌, ltb, leb, if◌then◌else◌,
}
use lftp.Prelude.Write.{write}

pub record MapEntry {ℓ} (A : Type ℓ) : Type ℓ where
  pub key : Bytes
  pub value : A

-- `hash_size`, `entry_count` and the chains of `map`, which ends with a null chain.
pub record Map {ℓ} (A : Type ℓ) : Type ℓ where
  pub hash_size : ℕ
  pub entry_count : ℕ
  pub bucket : ℕ → List (MapEntry A)

-- A `char` is signed, and joins the sum as an unsigned number of 32 bits.
abbrev pub char_value : ℕ → ℕ
char_value c = if ltb c 128 then c else 2 ^ 32 - 256 + c

-- `hash+=(hash<<5)+d`
abbrev pub hash_step : ℕ → ℕ → ℕ
hash_step hash d = (hash + (hash * 32) % 2 ^ 32 + d) % 2 ^ 32

abbrev pub hash_bytes : Bytes → ℕ → ℕ
hash_bytes [] hash = hash
hash_bytes (c ∷ s) hash = hash_bytes s (hash_step hash (char_value c))

unfoldable pub make_hash : ℕ → Bytes → ℕ
make_hash size s =
    let hash = hash_step (hash_bytes s 305419896) (length s % 2 ^ 32) in
    if size == 1 then 0 else hash % size

module _ {ℓ} {A : Type ℓ} where
  abbrev pub new_map : ℕ → List (MapEntry A)
  new_map i = []

  abbrev pub no_entries : Map A
  no_entries = record { hash_size = 1; entry_count = 0; bucket = new_map }

  unfoldable pub find : Bytes → List (MapEntry A) → Option A
  find k [] = none
  find k (e ∷ es) = if same e.key k then some e.value else find k es

  -- `_lookup_c` and the payload of what it finds.
  abbrev pub get : Map A → Bytes → Option A
  get m k = find k (m.bucket (make_hash m.hash_size k))

  abbrev pub is_some : Option A → Bool
  is_some none = false
  is_some (some v) = true

  abbrev pub exists : Map A → Bytes → Bool
  exists m k = is_some (get m k)

  -- `null` is the payload of no entry.
  abbrev pub or_null : A → Option A → A
  or_null null none = null
  or_null null (some v) = v

  abbrev pub lookup : A → Map A → Bytes → A
  lookup null m k = or_null null (get m k)

  -- The loop of `rebuild_map` along a chain, and along the chains from `i` on.
  abbrev pub push : ℕ → MapEntry A → (ℕ → List (MapEntry A)) → ℕ → List (MapEntry A)
  push size e b = let hash = make_hash size e.key in write b hash (e ∷ b hash)

  unfoldable pub move_chain :
      ℕ → List (MapEntry A) → (ℕ → List (MapEntry A)) → ℕ → List (MapEntry A)
  move_chain size [] b = b
  move_chain size (e ∷ es) b = move_chain size es (push size e b)

  unfoldable pub move_chains :
      ℕ → (ℕ → List (MapEntry A)) → ℕ → ℕ → (ℕ → List (MapEntry A)) → ℕ → List (MapEntry A)
  move_chains size old zero i b = b
  move_chains size old (suc n) i b = move_chains size old n (suc i) (move_chain size (old i) b)

abbrev pub primes : List ℕ
primes =
    17 ∷ 67 ∷ 257 ∷ 1031 ∷ 4099 ∷ 16411 ∷ 65537 ∷ 262147 ∷ 1048583 ∷ 4194319 ∷ 16777259 ∷ 67108879
    ∷ 268435459 ∷ 1073741827 ∷ []

abbrev pub prime_above : ℕ → List ℕ → ℕ
prime_above n [] = n
prime_above n (p ∷ ps) = if ltb n p then p else prime_above n ps

module _ {ℓ} {A : Type ℓ} where
  unfoldable pub rebuild_map : Map A → Map A
  rebuild_map m =
      let size = prime_above (m.entry_count * 2) primes in
      record m { hash_size = size; bucket = move_chains size m.bucket m.hash_size 0 new_map }

  -- The payload of the entry for `k`, which is the last of the chain when there was none.
  abbrev pub store : Bytes → A → List (MapEntry A) → List (MapEntry A)
  store k v [] = record { key = k; value = v } ∷ []
  store k v (e ∷ es) = if same e.key k then record e { value = v } ∷ es else e ∷ store k v es

  -- The chains with the payload stored, and the count of a new entry, which may grow the map.
  abbrev pub stored : Bytes → A → Map A → Map A
  stored k v m =
      let hash = make_hash m.hash_size k in
      record m { bucket = write m.bucket hash (store k v (m.bucket hash)) }

  abbrev pub grown : Map A → Map A
  grown m = if ltb (m.hash_size * 2) m.entry_count then rebuild_map m else m

  abbrev pub added : Option A → Map A → Map A
  added none m = grown (record m { entry_count = m.entry_count + 1 })
  added (some old) m = m

  -- `add`: the entry that `_add` returns takes the payload `v`.
  unfoldable pub add : Bytes → A → Map A → Map A
  add k v m = added (get m k) (stored k v m)

  abbrev pub or_added : A → Bytes → Map A → Option A → A × Map A
  or_added null k m none = (null, add k null m)
  or_added null k m (some v) = (v, m)

  abbrev pub lookup_lv : A → Bytes → Map A → A × Map A
  lookup_lv null k m = or_added null k m (get m k)

  -- The chain without the first entry for `k`.
  abbrev pub cut : Bytes → List (MapEntry A) → List (MapEntry A)
  cut k [] = []
  cut k (e ∷ es) = if same e.key k then es else e ∷ cut k es

  abbrev pub removed : Bytes → Map A → Option A → Map A
  removed k m none = m
  removed k m (some v) =
      let hash = make_hash m.hash_size k in
      record m {
        entry_count = m.entry_count - 1;
        bucket = write m.bucket hash (cut k (m.bucket hash));
      }

  -- `_remove(_lookup(key))`.
  unfoldable pub remove : Bytes → Map A → Map A
  remove k m = removed k m (get m k)

  -- What `borrow` returns and leaves.
  abbrev pub borrow : Bytes → Map A → Option A × Map A
  borrow k m = (get m k, remove k m)

  abbrev pub total : ℕ → (ℕ → List (MapEntry A)) → ℕ
  total zero b = 0
  total (suc n) b = total n b + length (b n)

  -- Every entry of every chain is removed. `none` is the failed `assert(entry_count==0)`.
  abbrev pub empty : Map A → Option (Map A)
  empty m =
      if m.entry_count == total m.hash_size m.bucket
      then some (record m { entry_count = 0; bucket = new_map })
      else none

  -- What `_move_here` leaves here and in `o`.
  abbrev pub move_here : Map A → Map A × Map A
  move_here o = (o, no_entries)

-- The iteration: `each_hash` and 1, and the chain at `each_entry`.
pub record Each {ℓ} (A : Type ℓ) : Type ℓ where
  pub at_hash : ℕ
  pub rest : List (MapEntry A)

module _ {ℓ} {A : Type ℓ} where
  abbrev pub each_start : Each A
  each_start = record { at_hash = 0; rest = [] }

  abbrev pub each_at :
      Each A → Option (MapEntry A) × Each A → List (MapEntry A) → Option (MapEntry A) × Each A
  each_at i next [] = next
  each_at i next (e ∷ es) = (some e, record i { rest = es })

  -- A round for each chain, and one more, is enough.
  unfoldable pub each_next : ℕ → Map A → Each A → Option (MapEntry A) × Each A
  each_next zero m i = (none, i)
  each_next (suc fuel) m i =
      let next = each_next fuel m (record { at_hash = suc i.at_hash; rest = m.bucket i.at_hash }) in
      if leb i.at_hash m.hash_size then each_at i next i.rest else (none, i)

  -- The entries that `each_begin` and `each_next` return, one after the other.
  abbrev pub each_step :
      (Each A → List (MapEntry A)) → Option (MapEntry A) × Each A → List (MapEntry A)
  each_step loop (none, i) = []
  each_step loop (some e, i) = e ∷ loop i

  unfoldable pub each_from : ℕ → Map A → Each A → List (MapEntry A)
  each_from zero m i = []
  each_from (suc fuel) m i = each_step (each_from fuel m) (each_next (m.hash_size + 2) m i)

  unfoldable pub each_all : Map A → List (MapEntry A)
  each_all m = each_from (m.entry_count + 1) m each_start
