-- ===== src/RateLimit.antt =====
-- The limits on the rates of transfers: RateLimit.cc and RateLimit.h.
pub mod Pool
pub mod Xfer
pub mod Made
pub mod Upper
pub mod Fresh
pub mod Counts
pub mod Share
mod Tests
use lftp.Prelude.{
  ℕ, zero, suc, ◌+◌, ◌-◌, ◌*◌, ◌/◌, Bool, true, false, not, ◌&&◌, ◌||◌, Option, none, some, List,
  [], ◌∷◌, Bytes, codes, ◌==◌, ltb, leb, if◌then◌else◌,
}
use lftp.Prelude.Int.{ℤ, pos, negsuc, ◌+ℤ◌}
use lftp.Prelude.Write.{write}
use lftp.HashMap
use lftp.HashMap.{Map, get}

-- `t` and the clock are in microseconds, and the rate is in bytes for a second.
pub record BytesPool : Type 0 where
  pub pool : ℕ
  pub rate : ℕ
  pub pool_max : ℕ
  pub t : ℕ

abbrev pub large : ℕ
large = 268435456

-- The quotient that the code compares is multiplied out.
abbrev pub pool_grown : ℕ → BytesPool → ℕ
pool_grown dif p =
    if ltb (large * 1000000) (p.rate * dif + p.pool * 1000000)
    then p.pool_max
    else p.pool + (dif * p.rate + 500000) / 1000000

abbrev pub at_most : ℕ → ℕ → ℕ
at_most max n = if ltb max n then max else n

unfoldable pub adjust_time : ℕ → BytesPool → BytesPool
adjust_time now p =
    if ltb p.t now
    then record p { pool = at_most p.pool_max (pool_grown (now - p.t) p); t = now }
    else p

abbrev pub used : ℕ → BytesPool → BytesPool
used bytes p =
    if ltb p.pool bytes then record p { pool = 0 } else record p { pool = p.pool - bytes }

abbrev pub reset : ℕ → BytesPool → BytesPool
reset now p = record p { pool = p.rate; t = now }

pub data Level : Type 0 where
  per_conn : Level
  per_host : Level
  total : Level

pub data Dir : Type 0 where
  get_dir : Dir
  put_dir : Dir

-- `pool[GET]` and `pool[PUT]` of the limit at each address.
pub record Pools : Type 0 where
  pub gets : ℕ → BytesPool
  pub puts : ℕ → BytesPool

abbrev pub pool_at : Dir → Pools → ℕ → BytesPool
pool_at get_dir ps = ps.gets
pool_at put_dir ps = ps.puts

abbrev pub with_pool : Dir → ℕ → BytesPool → Pools → Pools
with_pool get_dir p b ps = record ps { gets = write ps.gets p b }
with_pool put_dir p b ps = record ps { puts = write ps.puts p b }

-- The limits at their addresses, the map `total`, and the last address given.
pub record Limits : Type 0 where
  pub level : ℕ → Level
  pub parent : ℕ → ℕ
  pub xfer_number : ℕ → ℕ
  pub pools : Pools
  pub table : Map ℕ
  pub top : ℕ
  pub now : ℕ

-- `none` is the failed `assert(xfer_number>=0)`. There are three levels, the fuel of what follows.
abbrev pub nonnegative : ℤ → Option ℕ
nonnegative (pos n) = some n
nonnegative (negsuc n) = none

abbrev pub then_write : (ℕ → ℕ) → ℕ → Option ℕ → ((ℕ → ℕ) → Option (ℕ → ℕ)) → Option (ℕ → ℕ)
then_write f p none rest = none
then_write f p (some n) rest = rest (write f p n)

unfoldable pub add_xfer : ℕ → ℤ → ℕ → (ℕ → ℕ) → (ℕ → ℕ) → Option (ℕ → ℕ)
add_xfer zero add p parent xfer = none
add_xfer (suc fuel) add p parent xfer =
    then_write xfer p (nonnegative (pos (xfer p) +ℤ add))
      (λ f. if parent p == 0 then some f else add_xfer fuel add (parent p) parent f)

abbrev pub bytes_used : ℕ → ℕ → Dir → ℕ → (ℕ → ℕ) → Pools → Pools
bytes_used zero bytes dir p parent ps = ps
bytes_used (suc fuel) bytes dir p parent ps =
    let above = bytes_used fuel bytes dir (parent p) parent ps in
    let qs = if parent p == 0 then ps else above in
    with_pool dir p (used bytes (pool_at dir qs p)) qs

-- The division by `xfer_number` has no value at 0.
abbrev pub shared : ℕ → ℕ → ℕ → Pools → Option (ℕ × Pools)
shared xfer pool above ps = if xfer == 0 then none else some (at_most above (pool / xfer), ps)

-- What this level makes of the answer of its parent.
abbrev pub share : Dir → ℕ → Limits → Option (ℕ × Pools) → Option (ℕ × Pools)
share dir p s none = none
share dir p s (some (above, ps)) =
    let b = pool_at dir ps p in
    let b' = adjust_time s.now b in
    if b.rate == 0
    then some (above, ps)
    else shared (s.xfer_number p) b'.pool above (with_pool dir p b' ps)

unfoldable pub bytes_allowed : ℕ → Dir → ℕ → Limits → Option (ℕ × Pools)
bytes_allowed zero dir p s = none
bytes_allowed (suc fuel) dir p s =
    let above = bytes_allowed fuel dir (s.parent p) s in
    share dir p s (if s.parent p == 0 then some (large, s.pools) else above)

abbrev pub relax : Dir → ℕ → ℕ → Bool × Pools → Bool × Pools
relax dir p now (above, ps) =
    let b = pool_at dir ps p in
    let b' = adjust_time now b in
    if b.rate == 0
    then (above, ps)
    else (if ltb b'.pool (b'.pool_max / 2) then false else above, with_pool dir p b' ps)

abbrev pub relaxed : ℕ → Dir → ℕ → Limits → Bool × Pools
relaxed zero dir p s = (true, s.pools)
relaxed (suc fuel) dir p s =
    let above = relaxed fuel dir (s.parent p) s in
    relax dir p s.now (if s.parent p == 0 then (true, s.pools) else above)

abbrev pub limit_buffer_size : ℕ → Dir → ℕ → Pools → ℕ
limit_buffer_size size dir p ps =
    let b = pool_at dir ps p in
    if not (b.rate == 0) && ltb b.pool_max size then b.pool_max else size

-- `strncmp(s,prefix,n)==0`.
abbrev pub begins : Bytes → Bytes → Bool
begins [] s = true
begins (c ∷ cs) [] = false
begins (c ∷ cs) (d ∷ s) = c == d && begins cs s

abbrev pub is_relevant : Option Bytes → Bytes → Bool
is_relevant none prefix = true
is_relevant (some name) prefix = begins prefix name

-- `pool_max` 0 stands for twice the rate.
abbrev pub configured : ℕ → ℕ → ℕ → BytesPool
configured now rate max = record {
  pool = rate;
  rate = rate;
  pool_max = if max == 0 then rate * 2 else max;
  t = now;
}

abbrev pub is_total : Level → Bool
is_total total = true
is_total _ = false

abbrev pub is_conn : Level → Bool
is_conn per_conn = true
is_conn _ = false

abbrev pub with_xfer : ℕ → Limits → Option (ℕ → ℕ) → Option (ℕ × Limits)
with_xfer p s none = none
with_xfer p s (some f) = some (p, record s { xfer_number = f })

-- `p` gets the parent `q`.
abbrev pub linked : ℕ → ℕ → Limits → Option (ℕ × Limits)
linked p q s =
    let s' = record s { parent = write s.parent p q } in
    with_xfer p s' (add_xfer 3 (pos (s'.xfer_number p)) q s'.parent s'.xfer_number)

abbrev pub entered : Bytes → ℕ → Option (ℕ × Limits) → Option (ℕ × Limits)
entered c p none = none
entered c p (some (q, s)) = linked p q (record s { table = HashMap.add c q s.table })

-- `pair` is the pair of numbers of the setting that `ResMgr::Query` finds for a closure.
module _ (pair : Bytes → Option Bytes → ℕ × ℕ) where
  abbrev pub configure : ℕ → Level → Option Bytes → ℕ → Pools → Pools
  configure now level c p ps =
      let rates =
        pair (if is_conn level then codes "net:limit-rate" else codes "net:limit-total-rate") c in
      let maxes =
        pair (if is_conn level then codes "net:limit-max" else codes "net:limit-total-max") c in
      record {
        gets = write ps.gets p (configured now rates.0 maxes.0);
        puts = write ps.puts p (configured now rates.1 maxes.1);
      }

  abbrev pub reconfig : ℕ → Option Bytes → Option Bytes → ℕ → Limits → Pools → Pools
  reconfig zero name c p s ps = ps
  reconfig (suc fuel) name c p s ps =
      let level = s.level p in
      let config_total = is_relevant name (codes "net:limit-total-") in
      let c' = if is_total level then none else c in
      let here = configure s.now level c' p ps in
      let above = reconfig fuel name c' (s.parent p) s here in
      if not (is_relevant name (codes "net:limit-"))
      then ps
      else if not (is_conn level) && not config_total
      then ps
      else if config_total && not (s.parent p == 0)
      then above
      else here

  -- A new limit without a parent, behind the call of `Reconfig`.
  abbrev pub made : Level → Bytes → Limits → Limits
  made level c s =
      let p = suc s.top in
      let s' = record s {
        level = write s.level p level;
        parent = write s.parent p 0;
        xfer_number = write s.xfer_number p (if is_conn level then 1 else 0);
        top = p;
      } in
      record s' { pools = reconfig 3 none (some c) p s' s'.pools }

  -- A parent that was not in use is configured anew.
  abbrev pub refreshed : Bytes → ℕ → Limits → Limits
  refreshed c q s =
      if s.xfer_number q == 0 then record s { pools = reconfig 3 none (some c) q s s.pools } else s

  abbrev pub under_parent :
      Bytes → ℕ → Limits → Option (ℕ × Limits) → Option ℕ → Option (ℕ × Limits)
  under_parent c p s fresh (some q) = linked p q (refreshed c q s)
  under_parent c p s fresh none = entered c p fresh

  -- `init` of each level.
  unfoldable pub new_total : Bytes → Limits → Option (ℕ × Limits)
  new_total c s = let s' = made total c s in some (s'.top, s')

  unfoldable pub new_host : Bytes → Limits → Option (ℕ × Limits)
  new_host c s =
      let s' = made per_host c s in under_parent [] s'.top s' (new_total [] s') (get s'.table [])

  unfoldable pub new_conn : Bytes → Limits → Option (ℕ × Limits)
  new_conn c s =
      let s' = made per_conn c s in under_parent c s'.top s' (new_host c s') (get s'.table c)

-- The destructor. The memory of the limit is free, and counts for no transfer.
abbrev pub freed : ℕ → Limits → Option (ℕ → ℕ) → Option Limits
freed p s none = none
freed p s (some f) = some (record s { xfer_number = write f p 0 })

unfoldable pub destroy : ℕ → Limits → Option Limits
destroy p s =
    let n = s.xfer_number p in
    let q = s.parent p in
    if q == 0 || n == 0
    then freed p s (some s.xfer_number)
    else freed p s (add_xfer 3 (negsuc (n - 1)) q s.parent s.xfer_number)
