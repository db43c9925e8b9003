-- ===== src/RateLimit/Fresh.antt =====
-- RateLimit.cc: a connection gets a limit, and the limits above it count it.
use lftp.Prelude.{
  ℕ, suc, ◌+◌, ◌≤◌, ◌<◌, ◌≡◌, ◌≢◌, inl, inr, refl, sym, ap, ◌∙◌, Option, Option-cases, [], Bytes,
  if◌then◌else◌, arith, ◌==◌,
}
use lftp.Prelude.Write.{write, write_same, write_other}
use lftp.HashMap
use lftp.HashMap.{Map, get}
use lftp.Heap.Laws.{Gives}
use lftp.RateLimit.{
  per_conn, per_host, total, Limits, made, linked, entered, under_parent, new_host, new_conn,
}
use lftp.RateLimit.Xfer.{Conn, IsConn, IsHost, IsTable, Keeps, Keeps-trans, Keeps-IsHost}
use lftp.RateLimit.Made.{
  pools-IsTable, entered-IsTable, relinked, relinked-IsTable, relinked-IsHost, counted_host,
  linked-host,
}
use lftp.RateLimit.Upper.{
  pools_Keeps, relinked_Keeps, made-Keeps, made-IsTable, refreshed-pools, new_host-Made,
}

-- How often a limit counts a connection.
abbrev pub hits : ℕ → Conn → ℕ
hits r x =
    (if x.conn == r then 1 else 0)
    + (if x.host == r then 1 else 0)
    + (if x.whole == r then 1 else 0)

-- What `init` gives for a connection: the limits above it count one more transfer.
abbrev pub IsCounted : Limits → ℕ × Limits → Type 0
IsCounted s (p, s') =
    (x : Conn) × (x.conn ≡ p)
    × (s.top < p)
    × IsConn s' x
    × IsTable s'
    × Keeps s s'
    × ((r : ℕ) → s'.xfer_number r ≡ s.xfer_number r + hits r x)

raised :
    (r q t p : ℕ) (before xfer : ℕ → ℕ)
    → t ≢ q
    → xfer p ≡ 1
    → xfer r ≡ before r + (if p == r then 1 else 0)
    → write (write xfer q (xfer q + xfer p)) t (xfer t + xfer p) r
      ≡ before r
        + ((if p == r then 1 else 0) + (if q == r then 1 else 0) + (if t == r then 1 else 0))
raised r q t p before xfer n one e = ground arith

-- The limit `p` made last but one or last gets its parent `q`.
module _ (s0 s : Limits) (q : ℕ) (k : Keeps s0 s) (top : suc s0.top ≤ s.top) (v : IsTable s)
    (alone : s.parent (suc s0.top) ≡ 0) where
  linked-IsCounted :
      IsHost s q
      → s.level (suc s0.top) ≡ per_conn
      → ((r : ℕ) → s.xfer_number r ≡ s0.xfer_number r + (if suc s0.top == r then 1 else 0))
      → IsTable s0
      → Gives (IsCounted s0) (linked (suc s0.top) q s)
  linked-IsCounted h level counts v0 =
      let p = suc s0.top in
      let below : s.level p ≢ total = λ e. not_total (sym level ∙ e) in
      let f = counted_host s p q below alone in
      let s' = relinked s p q below alone f in
      let t = s.parent q in
      let n : t ≢ q = λ e. not_host (sym h.above.level ∙ ap s.level e ∙ h.level) in
      let one : s.xfer_number p ≡ 1 = ground (arith, counts p, v0.fresh p) in
      (
        (p, s'),
        linked-host s p q below alone h,
        (
          record { conn = p; host = q; whole = t },
          refl,
          omega arith,
          record {
            given = (omega arith, top);
            level = level;
            parent = write_same s.parent p q;
            host = relinked-IsHost s p q below alone f q h;
            whole = write_other s.parent p q q (λ e. h.above.given.0 (ap s.parent e ∙ alone));
          },
          relinked-IsTable s p q below alone f
              (λ r z. ground (arith, v.fresh r z, h.given.1, h.above.given.1)) v,
          relinked_Keeps s0 s q k top v alone f,
          λ r. raised r q t p s0.xfer_number s.xfer_number n one (counts r),
        ),
      )
    where
      not_total : per_conn ≡ total → ⊥
      not_total e = ground arith

      not_host : total ≡ per_host → ⊥
      not_host e = ground arith

module _ (pair : Bytes → Option Bytes → ℕ × ℕ) where
  pub new_conn-IsCounted :
      (c : Bytes) (s : Limits) → c ≢ [] → IsTable s → Gives (IsCounted s) (new_conn pair c s)
  unfolding new_conn
  new_conn-IsCounted c s n v =
      let s1 = made pair per_conn c s in
      let p = suc s.top in
      let v1 = made-IsTable pair per_conn c s v in
      let k1 = made-Keeps pair per_conn c s in
      let level = write_same s.level p per_conn in
      let alone = write_same s.parent p 0 in
      let counts : (r : ℕ) → s1.xfer_number r ≡ s.xfer_number r + (if p == r then 1 else 0) =
        λ r. ground (arith, v.fresh p) in
      elim (Option-cases (get s1.table c)) [
        | inl e ↦
            let ((q, s2), f, (v2, h, k2, counts2, above)) = new_host-Made pair c s1 v1 in
            let s3 = record s2 { table = HashMap.add c q s2.table } in
            let k : Keeps s2 s3 = record {
              more = omega arith;
              levels = λ j z. refl;
              parents = λ j z. refl;
            } in
            let (r, g, w) =
              linked-IsCounted s s3 q (Keeps-trans k1 (Keeps-trans k2 k)) k2.more
                (entered-IsTable s2 v2 q c (λ z. h) (λ z. absurd (n z)))
                (k2.parents p (omega arith) ∙ alone) (Keeps-IsHost k h)
                (k2.levels p (omega arith) ∙ level) (λ j. counts2 j ∙ counts j) v in
            (r, ap (under_parent pair c p s1 (new_host pair c s1)) e ∙ ap (entered c p) f ∙ g, w)
        | inr (q, e) ↦
            let (ps, f) = refreshed-pools pair c q s1 in
            let s2 = record s1 { pools = ps } in
            let h = Keeps-IsHost (pools_Keeps s1 ps) (v1.hosts c q n e) in
            let (r, g, w) =
              linked-IsCounted s s2 q (Keeps-trans k1 (pools_Keeps s1 ps)) (omega arith)
                (pools-IsTable s1 ps v1) alone h level counts v in
            (r, ap (under_parent pair c p s1 (new_host pair c s1)) e ∙ ap (linked p q) f ∙ g, w)
      ]
