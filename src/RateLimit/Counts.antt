-- ===== src/RateLimit/Counts.antt =====
-- RateLimit.cc: the number of transfers of a limit is that of the connections under it.
use lftp.Prelude.{
  ℕ, ◌+◌, ◌-◌, ◌≤◌, ◌<◌, ◌≡◌, ◌≢◌, ◌⊎◌, inl, inr, refl, sym, ap, ◌∙◌, subst, Option, some, List, [],
  ◌∷◌, ◌++◌, Bytes, if◌then◌else◌, arith, ◌==◌,
}
use lftp.Prelude.Int.{negsuc}
use lftp.Prelude.Write.{write}
use lftp.Heap.Laws.{Gives}
use lftp.RateLimit.{Level, per_conn, per_host, total, Limits, new_conn, add_xfer, freed, destroy}
use lftp.RateLimit.Xfer.{Conn, IsConn, IsTable, Keeps, Keeps-IsConn, add_xfer-host, plus_neg}
use lftp.RateLimit.Made.{keep_table}
use lftp.RateLimit.Fresh.{hits, new_conn-IsCounted}

pub data In (x : Conn) : List Conn → Type 0 where
  first : {y : Conn} {xs : List Conn} → x ≡ y → In x (y ∷ xs)
  later : {y : Conn} {xs : List Conn} → In x xs → In x (y ∷ xs)

abbrev pub occurrences : ℕ → List Conn → ℕ
occurrences r [] = 0
occurrences r (x ∷ xs) = hits r x + occurrences r xs

pub record IsLive (s : Limits) (x : Conn) : Type 0 where
  pub conn : IsConn s x
  pub one : s.xfer_number x.conn ≡ 1

-- `cs` are the connections: each has its limits, and every limit counts those under it.
pub record IsSound (s : Limits) (cs : List Conn) : Type 0 where
  pub table : IsTable s
  pub live : (x : Conn) → In x cs → IsLive s x
  pub counts : (r : ℕ) → s.xfer_number r ≡ occurrences r cs

In-occurrences : (x : Conn) (cs : List Conn) → In x cs → 1 ≤ occurrences x.conn cs
In-occurrences x [] i = elim i [ ]
In-occurrences x (y ∷ cs) (first e) = let f = ap (λ z. z.conn) e in ground arith
In-occurrences x (y ∷ cs) (later i) = omega (arith, In-occurrences x cs i)

occurrences-append :
    (r : ℕ) (x : Conn) (xs ys : List Conn)
    → occurrences r (xs ++ x ∷ ys) ≡ hits r x + occurrences r (xs ++ ys)
occurrences-append r x [] ys = refl
occurrences-append r x (y ∷ xs) ys = omega (arith, occurrences-append r x xs ys)

In-append : (z x : Conn) (xs ys : List Conn) → In z (xs ++ ys) → In z (xs ++ x ∷ ys)
In-append z x [] ys i = later i
In-append z x (y ∷ xs) ys (first e) = first e
In-append z x (y ∷ xs) ys (later i) = later (In-append z x xs ys i)

pub In-middle : (x : Conn) (xs ys : List Conn) → In x (xs ++ x ∷ ys)
In-middle x [] ys = first refl
In-middle x (y ∷ xs) ys = later (In-middle x xs ys)

level_conflict : (a : ℕ) (f : ℕ → Level) → f a ≡ per_conn → (f a ≡ per_host) ⊎ (f a ≡ total) → ⊥
level_conflict a f e (inl h) = go (sym e ∙ h)
  where
    go : per_conn ≡ per_host → ⊥
    go y = ground arith
level_conflict a f e (inr h) = go (sym e ∙ h)
  where
    go : per_conn ≡ total → ⊥
    go y = ground arith

-- The limit of a connection is no limit of a host, nor that of all.
module _ (s : Limits) (x : Conn) (c : IsConn s x) (a : ℕ) (l : s.level a ≡ per_conn) where
  pub not_host : x.host ≢ a
  not_host e = level_conflict a s.level l (inl (ap s.level (sym e) ∙ c.host.level))

  pub not_whole : x.whole ≢ a
  not_whole e =
      level_conflict a s.level l (inr (ap s.level (sym e ∙ sym c.whole) ∙ c.host.above.level))

module _ (s : Limits) (x : Conn) (c : IsConn s x) where
  hits-own : hits x.conn x ≡ 1
  hits-own = ground (arith, not_host s x c x.conn c.level, not_whole s x c x.conn c.level)

  hits-other : (a : ℕ) → s.level a ≡ per_conn → x.conn ≢ a → hits a x ≡ 0
  hits-other a l n = ground (arith, not_host s x c a l, not_whole s x c a l)

new-IsLive :
    (s s' : Limits) (cs : List Conn) (x y : Conn)
    → IsSound s cs
    → IsConn s' x
    → Keeps s s'
    → ((r : ℕ) → s'.xfer_number r ≡ s.xfer_number r + hits r x)
    → s.top < x.conn
    → In y (x ∷ cs)
    → IsLive s' y
new-IsLive s s' cs x y v w k counts above (first e) = subst (IsLive s') (sym e) (record {
  conn = w;
  one = omega (arith, counts x.conn, hits-own s' x w, v.table.fresh x.conn above);
})
new-IsLive s s' cs x y v w k counts above (later i) =
    let l = v.live y i in
    let c = Keeps-IsConn k l.conn in
    record {
      conn = c;
      one = omega (
        arith,
        counts y.conn,
        l.one,
        hits-other s' x w y.conn c.level (omega (arith, l.conn.given.1)),
      );
    }

-- A new connection to a host whose name is not empty succeeds, whether there are limits for the host yet or not: the
-- limits that it gets are there, and every limit counts the connections under it.
pub new_conn-IsSound :
    (pair : Bytes → Option Bytes → ℕ × ℕ) (c : Bytes) (s : Limits) (cs : List Conn)
    → c ≢ []
    → IsSound s cs
    → Gives (λ r. (x : Conn) × (x.conn ≡ r.0) × IsSound r.1 (x ∷ cs)) (new_conn pair c s)
new_conn-IsSound pair c s cs n v =
    let ((p, s'), e, (x, f, above, w, t, k, counts)) = new_conn-IsCounted pair c s n v.table in
    (
      (p, s'),
      e,
      (
        x,
        f,
        record {
          table = t;
          live = λ y i. new-IsLive s s' cs x y v w k counts (omega (arith, f)) i;
          counts = λ r. omega (arith, counts r, v.counts r);
        },
      ),
    )

-- What is left when the limit of the connection `x` is gone.
lowered :
    (s : Limits) (xs ys : List Conn) (x : Conn)
    → IsSound s (xs ++ x ∷ ys)
    → (f : ℕ → ℕ) → ((r : ℕ) → f r + hits r x ≡ s.xfer_number r)
    → IsSound (record s { xfer_number = f }) (xs ++ ys)
lowered s xs ys x v f e =
    let s' = record s { xfer_number = f } in
    let k : Keeps s s' = record {
      more = omega arith;
      levels = λ q p. refl;
      parents = λ q p. refl;
    } in
    let sum : (r : ℕ) → f r ≡ occurrences r (xs ++ ys) =
      λ r. omega (arith, e r, v.counts r, occurrences-append r x xs ys) in
    record {
      table = keep_table k refl (λ q p. omega (arith, e q, v.table.fresh q p)) v.table;
      live = λ y i.
          let l = v.live y (In-append y x xs ys i) in
          let w = v.live x (In-middle x xs ys) in
          let n : x.conn ≢ y.conn = λ g. omega (
            arith,
            e y.conn,
            l.one,
            sum y.conn,
            In-occurrences y (xs ++ ys) i,
            ap (λ a. hits a x) g,
            hits-own s x w.conn,
          ) in
          record {
            conn = Keeps-IsConn k l.conn;
            one = omega (arith, e y.conn, l.one, hits-other s x w.conn y.conn l.conn.level n);
          };
      counts = sum;
    }

fallen :
    (xfer : ℕ → ℕ) (r h t p : ℕ)
    → t ≢ h
    → h ≢ p
    → t ≢ p
    → xfer p ≡ 1
    → 1 ≤ xfer h
    → 1 ≤ xfer t
    → write (write (write xfer h (xfer h - 1)) t (xfer t - 1)) p 0 r
        + ((if p == r then 1 else 0) + (if h == r then 1 else 0) + (if t == r then 1 else 0))
      ≡ xfer r
fallen xfer r h t p n m k one a b = ground arith

-- The limits above a connection count it.
pub counted_above :
    (s : Limits) (xs ys : List Conn) (x : Conn)
    → IsSound s (xs ++ x ∷ ys)
    → (1 ≤ s.xfer_number x.host) × (1 ≤ s.xfer_number x.whole)
counted_above s xs ys x v =
    let at_least : (r : ℕ) → hits r x ≤ s.xfer_number r =
      λ r. omega (arith, v.counts r, occurrences-append r x xs ys) in
    (hit_host (at_least x.host), hit_whole (at_least x.whole))
  where
    hit_host : hits x.host x ≤ s.xfer_number x.host → 1 ≤ s.xfer_number x.host
    hit_host a = ground arith

    hit_whole : hits x.whole x ≤ s.xfer_number x.whole → 1 ≤ s.xfer_number x.whole
    hit_whole a = ground arith

pub whole_other : (s : Limits) (x : Conn) → IsConn s x → x.whole ≢ x.host
whole_other s x c e = not_both (sym c.host.above.level ∙ ap s.level (c.whole ∙ e) ∙ c.host.level)
  where
    not_both : total ≡ per_host → ⊥
    not_both y = ground arith

-- Destroying the limit of a connection succeeds: no count gets below 0, and every limit counts the
-- other connections.
pub destroy-IsSound :
    (s : Limits) (xs ys : List Conn) (x : Conn)
    → IsSound s (xs ++ x ∷ ys)
    → Gives (λ s'. IsSound s' (xs ++ ys)) (destroy x.conn s)
unfolding destroy
destroy-IsSound s xs ys x v =
    let w = v.live x (In-middle x xs ys) in
    let c = w.conn in
    let p = x.conn in
    let h = x.host in
    let t = x.whole in
    let p1 = not_host s x c p c.level in
    let p2 = not_whole s x c p c.level in
    let n = whole_other s x c in
    let (above, top) = counted_above s xs ys x v in
    let f = write (write s.xfer_number h (s.xfer_number h - 1)) t (s.xfer_number t - 1) in
    let e : add_xfer 3 (negsuc 0) h s.parent s.xfer_number ≡ some f =
      add_xfer-host s.parent s.xfer_number (negsuc 0) 1 h t (s.xfer_number h - 1)
        (s.xfer_number t - 1) c.whole (subst (λ a. a ≢ 0) c.whole c.host.above.given.0)
        (ap s.parent (sym c.whole) ∙ c.host.above.parent) n (plus_neg (s.xfer_number h) 0 above)
        (plus_neg (s.xfer_number t) 0 top) in
    let rest =
      freed p s (add_xfer 3 (negsuc (s.xfer_number p - 1)) (s.parent p) s.parent s.xfer_number) in
    let guard : destroy p s ≡ rest = ground (arith, w.one, c.parent, c.host.given.0) in
    (
      record s { xfer_number = write f p 0 },
      guard
          ∙ ap (λ m. freed p s (add_xfer 3 (negsuc (m - 1)) (s.parent p) s.parent s.xfer_number))
              w.one
          ∙ ap (λ q. freed p s (add_xfer 3 (negsuc 0) q s.parent s.xfer_number)) c.parent
          ∙ ap (freed p s) e,
      lowered s xs ys x v (write f p 0) (λ r. fallen s.xfer_number r h t p n p1 p2 w.one above top),
    )
