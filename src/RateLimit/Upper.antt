-- ===== src/RateLimit/Upper.antt =====
-- RateLimit.cc: a host, or all of them, get a limit, which no transfer counts on yet.
use lftp.Prelude.{
  ℕ, suc, ◌+◌, ◌≤◌, ◌<◌, ◌≡◌, ◌≢◌, inl, inr, refl, sym, ap, ◌∙◌, subst, false, Option, none, some,
  Option-cases, [], Bytes, if_both, if◌then◌else◌, arith, ◌==◌,
}
use lftp.Prelude.Write.{write, write_same, write_other}
use lftp.HashMap
use lftp.HashMap.{Map, get}
use lftp.Heap.Laws.{Gives}
use lftp.RateLimit.{
  Level, per_host, total, Limits, Pools, reconfig, is_conn, made, linked, refreshed, entered,
  under_parent, new_total, new_host,
}
use lftp.RateLimit.Xfer.{IsTotal, IsHost, IsTable, Keeps, Keeps-trans, Keeps-IsTotal}
use lftp.RateLimit.Made.{
  keep_table, pools-IsTable, entered-IsTable, relinked, relinked-IsTable, relinked-IsTotal,
  counted_total, linked-total,
}

-- What `init` gives for a host, and for all of them.
abbrev pub Made : (Limits → ℕ → Type 0) → Limits → ℕ × Limits → Type 0
Made P s r =
    IsTable r.1
    × P r.1 r.0
    × Keeps s r.1
    × ((q : ℕ) → r.1.xfer_number q ≡ s.xfer_number q)
    × (s.top < r.0)

pub pools_Keeps : (s : Limits) (ps : Pools) → Keeps s (record s { pools = ps })
pools_Keeps s ps = record { more = omega arith; levels = λ q p. refl; parents = λ q p. refl }

-- The limit `p` made last but one or last gets its parent `q`.
module _ (s0 s : Limits) (q : ℕ) (k : Keeps s0 s) (top : suc s0.top ≤ s.top) (v : IsTable s)
    (alone : s.parent (suc s0.top) ≡ 0) where
  pub relinked_Keeps :
      (f : ℕ → ℕ) → Keeps s0 (record s { parent = write s.parent (suc s0.top) q; xfer_number = f })
  relinked_Keeps f = record {
    more = k.more;
    levels = k.levels;
    parents = λ r p. write_other s.parent (suc s0.top) r q (omega arith) ∙ k.parents r p;
  }

  linked-Made :
      IsTotal s q
      → s.level (suc s0.top) ≡ per_host
      → s.xfer_number (suc s0.top) ≡ 0
      → ((r : ℕ) → s.xfer_number r ≡ s0.xfer_number r)
      → Gives (Made IsHost s0) (linked (suc s0.top) q s)
  linked-Made t level none_yet counts =
      let p = suc s0.top in
      let below : s.level p ≢ total = λ e. not_total (sym level ∙ e) in
      let f = counted_total s p q below alone in
      (
        (p, relinked s p q below alone f),
        linked-total s p q below alone t,
        (
          relinked-IsTable s p q below alone f
              (λ r z.
                write_other s.xfer_number q r (s.xfer_number q + s.xfer_number p)
                  (omega (arith, t.given.1))
                ∙ v.fresh r z)
              v,
          record {
            given = (omega arith, top);
            level = level;
            above =
                subst (IsTotal (relinked s p q below alone f)) (sym (write_same s.parent p q))
                  (relinked-IsTotal s p q below alone f q t);
          },
          relinked_Keeps f,
          λ r. ground (arith, counts r, none_yet),
          omega arith,
        ),
      )
    where
      not_total : per_host ≡ total → ⊥
      not_total e = ground arith

module _ (pair : Bytes → Option Bytes → ℕ × ℕ) where
  pub made-Keeps : (level : Level) (c : Bytes) (s : Limits) → Keeps s (made pair level c s)
  made-Keeps level c s = record {
    more = omega arith;
    levels = λ q p. write_other s.level (suc s.top) q level (omega arith);
    parents = λ q p. write_other s.parent (suc s.top) q 0 (omega arith);
  }

  pub made-IsTable :
      (level : Level) (c : Bytes) (s : Limits) → IsTable s → IsTable (made pair level c s)
  made-IsTable level c s v =
      keep_table (made-Keeps level c s) refl
        (λ q p.
          write_other s.xfer_number (suc s.top) q (if is_conn level then 1 else 0) (omega arith)
          ∙ v.fresh q (omega arith))
        v

  -- A limit that no transfer counts on yet.
  made-xfer :
      (level : Level) (c : Bytes) (s : Limits)
      → IsTable s
      → is_conn level ≡ false
      → (r : ℕ) → (made pair level c s).xfer_number r ≡ s.xfer_number r
  made-xfer level c s v e r = ground (arith, v.fresh (suc s.top))

  new_total-Made :
      (c : Bytes) (s : Limits) → IsTable s → Gives (Made IsTotal s) (new_total pair c s)
  unfolding new_total
  new_total-Made c s v =
      let s' = made pair total c s in
      (
        (s'.top, s'),
        refl,
        (
          made-IsTable total c s v,
          record {
            given = (omega arith, omega arith);
            level = write_same s.level (suc s.top) total;
            parent = write_same s.parent (suc s.top) 0;
          },
          made-Keeps total c s,
          made-xfer total c s v refl,
          omega arith,
        ),
      )

  pub refreshed-pools :
      (c : Bytes) (q : ℕ) (s : Limits)
      → (ps : Pools) × (refreshed pair c q s ≡ record s { pools = ps })
  refreshed-pools c q s =
      let ps = reconfig pair 3 none (some c) q s s.pools in
      if_both (λ t. (qs : Pools) × (t ≡ record s { pools = qs })) (s.xfer_number q == 0)
        (record s { pools = ps }) s (ps, refl) (s.pools, refl)

  pub new_host-Made :
      (c : Bytes) (s : Limits) → IsTable s → Gives (Made IsHost s) (new_host pair c s)
  unfolding new_host
  new_host-Made c s v =
      let s1 = made pair per_host c s in
      let p = suc s.top in
      let v1 = made-IsTable per_host c s v in
      let k1 = made-Keeps per_host c s in
      let level = write_same s.level p per_host in
      let alone = write_same s.parent p 0 in
      let none_yet = write_same s.xfer_number p 0 in
      let counts = made-xfer per_host c s v refl in
      elim (Option-cases (get s1.table [])) [
        | inl e ↦
            let ((q, s2), f, (v2, t, k2, counts2, above)) = new_total-Made [] s1 v1 in
            let s3 = record s2 { table = HashMap.add [] q s2.table } in
            let k3 : Keeps s s3 =
              Keeps-trans k1
                (record { more = k2.more; levels = k2.levels; parents = k2.parents }) in
            let t3 : IsTotal s3 q = record {
              given = t.given;
              level = t.level;
              parent = t.parent;
            } in
            let (r, g, w) =
              linked-Made s s3 q k3 k2.more
                (entered-IsTable s2 v2 q [] (λ z. absurd (z refl)) (λ z. t))
                (k2.parents p (omega arith) ∙ alone) t3 (k2.levels p (omega arith) ∙ level)
                (counts2 p ∙ none_yet) (λ j. counts2 j ∙ counts j) in
            (
              r,
              ap (under_parent pair [] p s1 (new_total pair [] s1)) e ∙ ap (entered [] p) f ∙ g,
              w,
            )
        | inr (q, e) ↦
            let (ps, f) = refreshed-pools [] q s1 in
            let s2 = record s1 { pools = ps } in
            let t = Keeps-IsTotal (pools_Keeps s1 ps) (v1.totals q e) in
            let (r, g, w) =
              linked-Made s s2 q (Keeps-trans k1 (pools_Keeps s1 ps)) (omega arith)
                (pools-IsTable s1 ps v1) alone t level none_yet counts in
            (r, ap (under_parent pair [] p s1 (new_total pair [] s1)) e ∙ ap (linked p q) f ∙ g, w)
      ]
