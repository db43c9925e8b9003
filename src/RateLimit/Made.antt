-- ===== src/RateLimit/Made.antt =====
-- RateLimit.cc: the limits that `init` makes, finds and links.
use lftp.Prelude.{
  ℕ, ◌+◌, ◌<◌, ◌≡◌, ◌≢◌, refl, sym, ap, ◌∙◌, subst, Bool, true, false, Option, some, [], Bytes,
  same, same_iff, if◌then◌else◌, arith,
}
use lftp.Prelude.Int.{pos}
use lftp.Prelude.Write.{write, write_other}
use lftp.HashMap
use lftp.HashMap.{Map, get, or_null}
use lftp.HashMap.Rebuild.{IsMap}
use lftp.HashMap.Laws.{add-Changes}
use lftp.RateLimit.{per_host, total, Limits, Pools, with_xfer, linked}
use lftp.RateLimit.Xfer.{
  plus_pos, add_xfer-top, add_xfer-host, IsTotal, IsHost, IsTable, Keeps, Keeps-IsTotal,
  Keeps-IsHost,
}

-- With the same table.
pub keep_table :
    {s s' : Limits}
    → Keeps s s'
    → s'.table ≡ s.table
    → ((q : ℕ) → s'.top < q → s'.xfer_number q ≡ 0)
    → IsTable s
    → IsTable s'
keep_table k e f v = record {
  fresh = f;
  table = subst IsMap (sym e) v.table;
  hosts = λ c q n g. Keeps-IsHost k (v.hosts c q n (ap (λ t. get t c) (sym e) ∙ g));
  totals = λ q g. Keeps-IsTotal k (v.totals q (ap (λ t. get t []) (sym e) ∙ g));
}

pub pools-IsTable : (s : Limits) (ps : Pools) → IsTable s → IsTable (record s { pools = ps })
pools-IsTable s ps v =
    keep_table (record { more = omega arith; levels = λ q p. refl; parents = λ q p. refl }) refl
      v.fresh v

either :
    (P : ℕ → Type 0) (b : Bool) (q r : ℕ) (o : Option ℕ)
    → (b ≡ true → P q)
    → (o ≡ some r → P r)
    → (if b then some q else o) ≡ some r
    → P r
either P true q r o f g e = subst P (ap (λ x. or_null 0 x) e) (f refl)
either P false q r o f g e = g e

not_empty : (k : Bytes) → k ≢ [] → same [] k ≡ true → ⊥
not_empty k n e = n (sym ((same_iff [] k).0 e))

-- A limit in the table: under the empty key that for all hosts, and under another that of a host.
module _ (s : Limits) (v : IsTable s) (q : ℕ) where
  pub entered-IsTable :
      (c : Bytes)
      → (c ≢ [] → IsHost s q)
      → (c ≡ [] → IsTotal s q)
      → IsTable (record s { table = HashMap.add c q s.table })
  entered-IsTable c h t =
      let (w, g) = add-Changes c q s.table v.table in
      let s' = record s { table = HashMap.add c q s.table } in
      let k : Keeps s s' = record {
        more = omega arith;
        levels = λ r p. refl;
        parents = λ r p. refl;
      } in
      record {
        fresh = v.fresh;
        table = w;
        hosts = λ d r n e.
            either (IsHost s') (same c d) q r (get s.table d)
              (λ y. Keeps-IsHost k (h (λ z. n (sym ((same_iff c d).0 y) ∙ z))))
              (λ y. Keeps-IsHost k (v.hosts d r n y)) (sym (g d) ∙ e);
        totals = λ r e.
            either (IsTotal s') (same c []) q r (get s.table [])
              (λ y. Keeps-IsTotal k (t ((same_iff c []).0 y))) (λ y. Keeps-IsTotal k (v.totals r y))
              (sym (g []) ∙ e);
      }

-- `p` has no parent yet, and is not the limit for all hosts. Linking it leaves the others.
module _ (s : Limits) (p q : ℕ) (below : s.level p ≢ total) (alone : s.parent p ≡ 0) where
  abbrev pub relinked : (ℕ → ℕ) → Limits
  relinked f = record s { parent = write s.parent p q; xfer_number = f }

  total_other : (r : ℕ) → IsTotal s r → r ≢ p
  total_other r v e = below (ap s.level (sym e) ∙ v.level)

  host_other : (r : ℕ) → IsHost s r → r ≢ p
  host_other r v e = v.above.given.0 (ap s.parent e ∙ alone)

  pub relinked-IsTotal : (f : ℕ → ℕ) (r : ℕ) → IsTotal s r → IsTotal (relinked f) r
  relinked-IsTotal f r v = record {
    given = v.given;
    level = v.level;
    parent = write_other s.parent p r q (total_other r v) ∙ v.parent;
  }

  pub relinked-IsHost : (f : ℕ → ℕ) (r : ℕ) → IsHost s r → IsHost (relinked f) r
  relinked-IsHost f r v = record {
    given = v.given;
    level = v.level;
    above =
        subst (IsTotal (relinked f)) (sym (write_other s.parent p r q (host_other r v)))
          (relinked-IsTotal f (s.parent r) v.above);
  }

  pub relinked-IsTable :
      (f : ℕ → ℕ) → ((r : ℕ) → s.top < r → f r ≡ 0) → IsTable s → IsTable (relinked f)
  relinked-IsTable f z v = record {
    fresh = z;
    table = v.table;
    hosts = λ c r n e. relinked-IsHost f r (v.hosts c r n e);
    totals = λ r e. relinked-IsTotal f r (v.totals r e);
  }

  -- The counts of the limits above `p` when it is linked.
  abbrev pub counted_total : ℕ → ℕ
  counted_total = write s.xfer_number q (s.xfer_number q + s.xfer_number p)

  pub linked-total : IsTotal s q → linked p q s ≡ some (p, relinked counted_total)
  linked-total v = ap (with_xfer p (relinked s.xfer_number)) (
      add_xfer-top (write s.parent p q) s.xfer_number (pos (s.xfer_number p)) 2 q
        (s.xfer_number q + s.xfer_number p)
        (write_other s.parent p q q (total_other q v) ∙ v.parent)
        (plus_pos (s.xfer_number q) (s.xfer_number p)))

  abbrev pub counted_host : ℕ → ℕ
  counted_host = let t = s.parent q in write counted_total t (s.xfer_number t + s.xfer_number p)

  pub linked-host : IsHost s q → linked p q s ≡ some (p, relinked counted_host)
  linked-host v =
      let t = s.parent q in
      let n : t ≢ q = λ e. conflict (sym v.above.level ∙ ap s.level e ∙ v.level) in
      ap (with_xfer p (relinked s.xfer_number)) (
        add_xfer-host (write s.parent p q) s.xfer_number (pos (s.xfer_number p)) 1 q t
          (s.xfer_number q + s.xfer_number p) (s.xfer_number t + s.xfer_number p)
          (write_other s.parent p q q (host_other q v)) v.above.given.0
          (write_other s.parent p t q (total_other t v.above) ∙ v.above.parent) n
          (plus_pos (s.xfer_number q) (s.xfer_number p))
          (plus_pos (s.xfer_number t) (s.xfer_number p)))
    where
      conflict : total ≡ per_host → ⊥
      conflict e = ground arith
