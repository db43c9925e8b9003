-- ===== src/RateLimit/Pool.antt =====
-- RateLimit.cc: the bytes that a pool holds.
use lftp.Prelude.{
  ℕ, zero, suc, ◌+◌, ◌-◌, ◌*◌, ◌/◌, ◌≤◌, ◌<◌, ◌≡◌, ◌≢◌, ◌⊎◌, inl, inr, refl, Bool, true, false,
  if_both, if_cases, if◌then◌else◌, arith, ltb, ◌==◌,
}
use lftp.RateLimit.{BytesPool, large, pool_grown, at_most, adjust_time}

pub at_most-le : (max n : ℕ) → (at_most max n ≤ max) × (at_most max n ≤ n)
at_most-le max n = ground arith

pub ruleset at_most_rules = (arith, at_most-le)

-- The sum fits in 31 bits, or is not made.
pool_grown-bound :
    (dif : ℕ) (p : BytesPool) → (pool_grown dif p ≡ p.pool_max) ⊎ (pool_grown dif p ≤ large)
pool_grown-bound dif p = ground arith

-- `AdjustTime` never adds up to more than `LARGE` bytes, however long the time. When time has passed,
-- no more than `pool_max` bytes are in the pool. At the same time it changes nothing.
pub adjust_time-bound :
    (now : ℕ) (p : BytesPool)
    → ((pool_grown (now - p.t) p ≡ p.pool_max) ⊎ (pool_grown (now - p.t) p ≤ large))
      × (p.t < now → (adjust_time now p).pool ≤ p.pool_max)
      × (adjust_time now (adjust_time now p) ≡ adjust_time now p)
unfolding adjust_time
adjust_time-bound now p = (pool_grown-bound (now - p.t) p, λ e. ground arith, ground arith)
