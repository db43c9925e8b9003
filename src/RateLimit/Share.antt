-- ===== src/RateLimit/Share.antt =====
-- `RateLimit::BytesAllowed` (RateLimit.cc): no connection gets more than its share of a limit.
use lftp.Prelude.{
  ℕ, suc, ◌*◌, ◌/◌, ◌≤◌, ◌≡◌, ◌≢◌, refl, sym, ap, ◌∙◌, subst, none, some, List, ◌∷◌, ◌++◌, if_cases,
  if_zero, if_nonzero, arith, ◌==◌,
}
use lftp.Prelude.Write.{write_same, write_other}
use lftp.Heap.Laws.{Gives}
use lftp.RateLimit.{
  BytesPool, large, at_most, adjust_time, Dir, get_dir, put_dir, Pools, pool_at, with_pool, Limits,
  shared, share, bytes_allowed,
}
use lftp.RateLimit.Pool.{at_most-le}
use lftp.RateLimit.Xfer.{Conn}
use lftp.RateLimit.Counts.{IsSound, In-middle, counted_above, whole_other, not_host, not_whole}

-- So many bytes for each transfer are no more than the pool of the limit `q`, if it has a rate.
abbrev pub IsShare : Dir → Limits → Pools → ℕ → ℕ → Type 0
IsShare dir s ps n q = (pool_at dir ps q).rate ≢ 0 → n * s.xfer_number q ≤ (pool_at dir ps q).pool

pool_at-with_same :
    (dir : Dir) (p : ℕ) (b : BytesPool) (ps : Pools) → pool_at dir (with_pool dir p b ps) p ≡ b
pool_at-with_same get_dir p b ps = write_same ps.gets p b
pool_at-with_same put_dir p b ps = write_same ps.puts p b

pool_at-with_other :
    (dir : Dir) (p q : ℕ) (b : BytesPool) (ps : Pools)
    → q ≢ p
    → pool_at dir (with_pool dir p b ps) q ≡ pool_at dir ps q
pool_at-with_other get_dir p q b ps n = write_other ps.gets p q b n
pool_at-with_other put_dir p q b ps n = write_other ps.puts p q b n

mul_mono : (a b c : ℕ) → a ≤ b → a * c ≤ b * c
mul_mono a b c p = grind arith

div_mul : (a c : ℕ) → 1 ≤ c → a / c * c ≤ a
div_mul a c p = grind arith

adjust_time-rate : (now : ℕ) (b : BytesPool) → (adjust_time now b).rate ≡ b.rate
unfolding adjust_time
adjust_time-rate now b = ground arith

-- What a level gives out of what its parent gives.
abbrev Given : Dir → ℕ → Limits → ℕ → Pools → ℕ × Pools → Type 0
Given dir p s above ps (n, qs) =
    (n ≤ above) × IsShare dir s qs n p × ((q : ℕ) → q ≢ p → pool_at dir qs q ≡ pool_at dir ps q)

share-Given :
    (dir : Dir) (p : ℕ) (s : Limits) (above : ℕ) (ps : Pools)
    → 1 ≤ s.xfer_number p
    → Gives (Given dir p s above ps) (share dir p s (some (above, ps)))
share-Given dir p s above ps z =
    let b = pool_at dir ps p in
    let b' = adjust_time s.now b in
    let qs = with_pool dir p b' ps in
    let xfer = s.xfer_number p in
    let n = at_most above (b'.pool / xfer) in
    let le = at_most-le above (b'.pool / xfer) in
    if_cases (Gives (Given dir p s above ps)) (b.rate == 0) (some (above, ps))
      (shared xfer b'.pool above qs)
      (λ e. ((above, ps), refl, (omega arith, λ r. absurd (r (ground arith)), λ q m. refl)))
      (λ e. (
        (n, qs),
        if_nonzero xfer none (some (n, qs)) (omega arith),
        (
          le.0,
          λ r.
              subst (λ c. n * xfer ≤ c.pool) (sym (pool_at-with_same dir p b' ps))
                (omega (arith, mul_mono n (b'.pool / xfer) xfer le.1, div_mul b'.pool xfer z)),
          λ q m. pool_at-with_other dir p q b' ps m,
        ),
      ))

-- A share stays one when less is taken of the same pool.
IsShare-less :
    (dir : Dir) (s : Limits) (ps qs : Pools) (n m q : ℕ)
    → m ≤ n
    → pool_at dir qs q ≡ pool_at dir ps q
    → IsShare dir s ps n q
    → IsShare dir s qs m q
IsShare-less dir s ps qs n m q le e h =
    subst (λ c. c.rate ≢ 0 → m * s.xfer_number q ≤ c.pool) (sym e)
      (λ r. omega (arith, h r, mul_mono m n (s.xfer_number q) le))

allowed_top :
    (fuel : ℕ) (dir : Dir) (p : ℕ) (s : Limits)
    → s.parent p ≡ 0
    → bytes_allowed (suc fuel) dir p s ≡ share dir p s (some (large, s.pools))
unfolding bytes_allowed
allowed_top fuel dir p s e =
    ap (share dir p s)
      (if_zero (s.parent p) (some (large, s.pools)) (bytes_allowed fuel dir (s.parent p) s) e)

allowed_under :
    (fuel : ℕ) (dir : Dir) (p q : ℕ) (s : Limits)
    → s.parent p ≡ q
    → q ≢ 0
    → bytes_allowed (suc fuel) dir p s ≡ share dir p s (bytes_allowed fuel dir q s)
unfolding bytes_allowed
allowed_under fuel dir p q s e z = ap (share dir p s) (
    if_nonzero (s.parent p) (some (large, s.pools)) (bytes_allowed fuel dir (s.parent p) s)
      (λ y. z (sym e ∙ y))
    ∙ ap (λ j. bytes_allowed fuel dir j s) e)

-- A connection is always told how many bytes it may transfer: no more than `LARGE`, and for each limit
-- of it that has a rate so few that as many for all transfers under that limit are in its pool.
pub bytes_allowed-IsShare :
    (dir : Dir) (s : Limits) (xs ys : List Conn) (x : Conn)
    → IsSound s (xs ++ x ∷ ys)
    → Gives
        (λ (n, ps).
          (n ≤ large)
          × IsShare dir s ps n x.conn
          × IsShare dir s ps n x.host
          × IsShare dir s ps n x.whole)
        (bytes_allowed 3 dir x.conn s)
bytes_allowed-IsShare dir s xs ys x v =
    let l = v.live x (In-middle x xs ys) in
    let c = l.conn in
    let (above, top) = counted_above s xs ys x v in
    let top_level = ap s.parent (sym c.whole) ∙ c.host.above.parent in
    let ((a, ps), e, (p, w, o)) = share-Given dir x.whole s large s.pools top in
    let ((b, qs), f, (q, w1, o1)) = share-Given dir x.host s a ps above in
    let ((n, rs), g, (r, w2, o2)) = share-Given dir x.conn s b qs (omega (arith, l.one)) in
    let not1 = not_host s x c x.conn c.level in
    let not2 = not_whole s x c x.conn c.level in
    let not3 = whole_other s x c in
    (
      (n, rs),
      allowed_under 2 dir x.conn x.host s c.parent c.host.given.0
          ∙ ap (share dir x.conn s) (
              allowed_under 1 dir x.host x.whole s c.whole
                (subst (λ j. j ≢ 0) c.whole c.host.above.given.0)
              ∙ ap (share dir x.host s) (allowed_top 0 dir x.whole s top_level ∙ e)
              ∙ f)
          ∙ g,
      (
        omega arith,
        w2,
        IsShare-less dir s qs rs b n x.host r (o2 x.host not1) w1,
        IsShare-less dir s ps rs a n x.whole (omega arith) (o2 x.whole not2 ∙ o1 x.whole not3) w,
      ),
    )
