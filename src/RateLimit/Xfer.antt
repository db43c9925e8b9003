-- ===== src/RateLimit/Xfer.antt =====
-- RateLimit.cc: the transfers that the limits count.
use lftp.Prelude.{
  ℕ, suc, ◌+◌, ◌-◌, ◌≤◌, ◌<◌, ◌≡◌, ◌≢◌, refl, sym, ap, ◌∙◌, subst, some, [], Bytes, if_zero,
  if_nonzero, if◌then◌else◌, arith, ◌==◌,
}
use lftp.Prelude.Int.{ℤ, pos, negsuc, ◌+ℤ◌}
use lftp.Prelude.Write.{write, write_other}
use lftp.HashMap.{get}
use lftp.HashMap.Rebuild.{IsMap}
use lftp.RateLimit.{per_conn, per_host, total, Limits, nonnegative, then_write, add_xfer}

pub plus_pos : (a b : ℕ) → nonnegative (pos a +ℤ pos b) ≡ some (a + b)
unfolding ◌+ℤ◌
plus_pos a b = ground arith

pub plus_neg : (a b : ℕ) → 1 ≤ a → nonnegative (pos a +ℤ negsuc 0) ≡ some (a - 1)
unfolding ◌+ℤ◌
plus_neg a b p = ground arith

-- Adding at the top level, and at a host.
module _ (parent xfer : ℕ → ℕ) (add : ℤ) where
  pub add_xfer-top :
      (fuel t n : ℕ)
      → parent t ≡ 0
      → nonnegative (pos (xfer t) +ℤ add) ≡ some n
      → add_xfer (suc fuel) add t parent xfer ≡ some (write xfer t n)
  unfolding add_xfer
  add_xfer-top fuel t n e f =
      ap
        (λ o.
          then_write xfer t o
            (λ g. if parent t == 0 then some g else add_xfer fuel add (parent t) parent g))
        f
      ∙ if_zero (parent t) (some (write xfer t n))
          (add_xfer fuel add (parent t) parent (write xfer t n)) e

pub add_xfer-host :
    (parent xfer : ℕ → ℕ) (add : ℤ) (fuel q t n m : ℕ)
    → parent q ≡ t
    → t ≢ 0
    → parent t ≡ 0
    → t ≢ q
    → nonnegative (pos (xfer q) +ℤ add) ≡ some n
    → nonnegative (pos (xfer t) +ℤ add) ≡ some m
    → add_xfer (suc (suc fuel)) add q parent xfer ≡ some (write (write xfer q n) t m)
unfolding add_xfer
add_xfer-host parent xfer add fuel q t n m e z f d a b =
    let f1 = write xfer q n in
    let up = add_xfer (suc fuel) add (parent q) parent f1 in
    let same_t : nonnegative (pos (f1 t) +ℤ add) ≡ some m =
      ap (λ j. nonnegative (pos j +ℤ add)) (write_other xfer q t n d) ∙ b in
    ap
      (λ o.
        then_write xfer q o
          (λ g. if parent q == 0 then some g else add_xfer (suc fuel) add (parent q) parent g))
      a
    ∙ if_nonzero (parent q) (some f1) up (λ y. z (sym e ∙ y))
    ∙ ap (λ j. add_xfer (suc fuel) add j parent f1) e
    ∙ add_xfer-top parent f1 add fuel t m f same_t

-- A connection with the limits above it.
pub record Conn : Type 0 where
  pub conn : ℕ
  pub host : ℕ
  pub whole : ℕ

pub record IsTotal (s : Limits) (q : ℕ) : Type 0 where
  pub given : (q ≢ 0) × (q ≤ s.top)
  pub level : s.level q ≡ total
  pub parent : s.parent q ≡ 0

pub record IsHost (s : Limits) (q : ℕ) : Type 0 where
  pub given : (q ≢ 0) × (q ≤ s.top)
  pub level : s.level q ≡ per_host
  pub above : IsTotal s (s.parent q)

-- The limits of a connection, one for each level.
pub record IsConn (s : Limits) (x : Conn) : Type 0 where
  pub given : (x.conn ≢ 0) × (x.conn ≤ s.top)
  pub level : s.level x.conn ≡ per_conn
  pub parent : s.parent x.conn ≡ x.host
  pub host : IsHost s x.host
  pub whole : s.parent x.host ≡ x.whole

-- The map `total` has the limit of each host, and under the empty key the one above them.
pub record IsTable (s : Limits) : Type 0 where
  pub fresh : (q : ℕ) → s.top < q → s.xfer_number q ≡ 0
  pub table : IsMap s.table
  pub hosts : (k : Bytes) (q : ℕ) → k ≢ [] → get s.table k ≡ some q → IsHost s q
  pub totals : (q : ℕ) → get s.table [] ≡ some q → IsTotal s q

-- The limits of `s` are as they were in `s'`, but for their pools.
pub record Keeps (s s' : Limits) : Type 0 where
  pub more : s.top ≤ s'.top
  pub levels : (q : ℕ) → q ≤ s.top → s'.level q ≡ s.level q
  pub parents : (q : ℕ) → q ≤ s.top → s'.parent q ≡ s.parent q

pub Keeps-refl : (s : Limits) → Keeps s s
Keeps-refl s = record { more = omega arith; levels = λ q p. refl; parents = λ q p. refl }

pub Keeps-trans : {s t u : Limits} → Keeps s t → Keeps t u → Keeps s u
Keeps-trans a b = record {
  more = omega (arith, a.more, b.more);
  levels = λ q p. b.levels q (omega (arith, a.more)) ∙ a.levels q p;
  parents = λ q p. b.parents q (omega (arith, a.more)) ∙ a.parents q p;
}

module _ {s s' : Limits} (k : Keeps s s') where
  pub Keeps-IsTotal : {q : ℕ} → IsTotal s q → IsTotal s' q
  Keeps-IsTotal {q} v = record {
    given = (v.given.0, omega (arith, v.given.1, k.more));
    level = k.levels q v.given.1 ∙ v.level;
    parent = k.parents q v.given.1 ∙ v.parent;
  }

  pub Keeps-IsHost : {q : ℕ} → IsHost s q → IsHost s' q
  Keeps-IsHost {q} v = record {
    given = (v.given.0, omega (arith, v.given.1, k.more));
    level = k.levels q v.given.1 ∙ v.level;
    above = subst (IsTotal s') (sym (k.parents q v.given.1)) (Keeps-IsTotal v.above);
  }

  pub Keeps-IsConn : {x : Conn} → IsConn s x → IsConn s' x
  Keeps-IsConn {x} v = record {
    given = (v.given.0, omega (arith, v.given.1, k.more));
    level = k.levels x.conn v.given.1 ∙ v.level;
    parent = k.parents x.conn v.given.1 ∙ v.parent;
    host = Keeps-IsHost v.host;
    whole = k.parents x.host v.host.given.1 ∙ v.whole;
  }
