-- ===== src/Scheduler/Cover.antt =====
-- The loop of `ScheduleNew` (SMTask.cc): the tasks that can still get ahead of it become fewer.
use lftp.Prelude.{
  ℕ, suc, ◌+◌, ◌*◌, ◌≡◌, ◌≤◌, ◌<◌, ◌⊎◌, refl, sym, ap, ◌∙◌, subst, Bool, true, false, not, inl, inr,
  Bool-cases, ◌&&◌, ◌||◌, List, [], ◌∷◌, ◌++◌, append-nil, append_assoc, arith, length, ◌==◌,
}
use lftp.Scheduler.{Tasks, listed, without}
use lftp.Scheduler.Links.{
  Distinct, listed-append, listed-without, length-without, Distinct-length, Distinct-without,
  Distinct-before, without-middle, listed-middle,
}
use lftp.Scheduler.Sound.{IsSound, IsIdle, Goes}
use lftp.Scheduler.Turns.{TakenOff}
use lftp.Scheduler.Rounds.{Ran, Moved}

-- The distinct tasks `w` are at most `n`, and have those of `l`, which are ahead, and those that can still be put behind.
pub record Covers (n : ℕ) (w l : List ℕ) (s : Tasks) : Type 0 where
  pub distinct : Distinct w
  pub few : length w ≤ n
  pub has_ahead : (q : ℕ) → listed q l ≡ true → listed q w ≡ true
  pub has_idle : (q : ℕ) → IsIdle s q → listed q w ≡ true

-- A round of the loop, with `suf` ahead before more; `rounds` are enough for the others.
pub record Round (rounds n : ℕ) (s t : Tasks) (suf : List ℕ) : Type 0 where
  pub ran : Ran s t
  pub pre : List ℕ
  pub back : List ℕ
  pub ahead : t.new_tasks ≡ pre ++ (suf ++ back)
  pub w : List ℕ
  pub covers : Covers n w (suf ++ back) t
  pub enough_left : length w * (n + 1) + length (suf ++ back) < rounds

pub product : (b m : ℕ) → suc b * m ≡ m + b * m
product b m = grind arith

-- A round that takes a task off `w` leaves rounds enough.
less_rounds :
    (n a b l m rounds : ℕ)
    → a ≡ suc b
    → b ≤ n
    → l ≤ b
    → a * (n + 1) + suc m < suc rounds
    → b * (n + 1) + l < rounds
less_rounds n a b l m rounds e g h f =
    let y : suc b * (n + 1) + suc m < suc rounds =
      subst (λ x. x * (n + 1) + suc m < suc rounds) e f in
    omega (arith, product b (n + 1))

Distinct-behind : (l r : List ℕ) → Distinct (l ++ r) → Distinct r
Distinct-behind [] r d = d
Distinct-behind (x ∷ l) r (n, d) = Distinct-behind l r d

module _ (rounds n : ℕ) (s t u : Tasks) (p : ℕ) (pre suf w : List ℕ) (v : IsSound s)
    (e : s.new_tasks ≡ pre ++ p ∷ suf) (k : Moved p s t) (c : Covers n w (p ∷ suf) s)
    (f : length w * (n + 1) + length (p ∷ suf) < suc rounds) where
  less : t.new_tasks ≡ pre ++ suf
  less =
      k.less_new
      ∙ ap (without p) e
      ∙ without-middle p pre suf (Distinct-before p pre suf (subst Distinct e v.new_distinct))

  p_new : listed p s.new_tasks ≡ true
  p_new = ap (listed p) e ∙ listed-middle p pre suf

  not_ahead : listed p suf ≡ false
  not_ahead = (Distinct-behind pre (p ∷ suf) (subst Distinct e v.new_distinct)).0

  in_w : listed p w ≡ true
  in_w = c.has_ahead p (ground arith)

  -- What is idle after the move was idle before, or is not idle for `p` only.
  idle_before :
      (q : ℕ)
      → (q == p) ≡ false
      → listed q t.all_tasks ≡ true
      → listed q s.ready_tasks ≡ false
      → listed q t.new_tasks ≡ false
      → listed q w ≡ true
  idle_before q y a b m = c.has_idle q (
    sym (ap (listed q) k.same_all) ∙ a,
    b,
    other y (sym (ap (listed q) k.less_new ∙ listed-without q p s.new_tasks v.new_distinct) ∙ m),
  )
    where
      other :
          (q == p) ≡ false
          → (not (q == p) && listed q s.new_tasks) ≡ false
          → listed q s.new_tasks ≡ false
      other y m = ground arith

  idle_moved : (q : ℕ) → IsIdle t q → listed q (without p w) ≡ true
  idle_moved q (a, b, m) =
      let x : (q == p || listed q s.ready_tasks) ≡ false = sym (ap (listed q) k.more_ready) ∙ b in
      let y : (q == p) ≡ false = ground arith in
      listed-without q p w c.distinct ∙ still q y (idle_before q y a (ground arith) m)
    where
      still : (q : ℕ) → (q == p) ≡ false → listed q w ≡ true → (not (q == p) && listed q w) ≡ true
      still q y m = ground arith

  ahead_moved : (q : ℕ) → listed q suf ≡ true → listed q (without p w) ≡ true
  ahead_moved q m =
      let y : (q == p) ≡ false = apart_of q m not_ahead in
      listed-without q p w c.distinct ∙ still q y (c.has_ahead q (ground arith))
    where
      apart_of : (q : ℕ) → listed q suf ≡ true → listed p suf ≡ false → (q == p) ≡ false
      apart_of q m n = elim (Bool-cases (q == p)) [
        | inl y ↦
            let z : p ≡ q = ground arith in absurd (clash (subst (λ x. listed x suf ≡ false) z n) m)
        | inr y ↦ y
      ]
        where
          clash : listed q suf ≡ false → listed q suf ≡ true → ⊥
          clash a b = ground arith

      still : (q : ℕ) → (q == p) ≡ false → listed q w ≡ true → (not (q == p) && listed q w) ≡ true
      still q y m = ground arith

  -- A task that keeps ready is not ahead any more.
  pub kept_Round : Goes t u → Round rounds n s u suf
  kept_Round (x, g) = record {
    ran = record {
      sound = x;
      same_current = g.same_current ∙ k.same_current;
      same_stack = g.same_stack ∙ k.same_stack;
      before = p ∷ [];
      ready_behind = g.same_ready ∙ k.more_ready;
      living = λ q l. g.living q (ap (listed q) k.same_all ∙ l);
    };
    pre = g.front ++ pre;
    back = g.back;
    ahead = all_ahead;
    w = without p w;
    covers = covered;
    enough_left =
        less_rounds n (length w) (length (without p w)) (length (suf ++ g.back)) (length suf) rounds
          (length-without p w in_w) covered.few
          (Distinct-length (suf ++ g.back) (without p w)
            (Distinct-behind (g.front ++ pre) (suf ++ g.back)
              (subst Distinct all_ahead x.new_distinct))
            covered.distinct covered.has_ahead)
          f;
  }
    where
      regroup : (k l m n : List ℕ) → k ++ ((l ++ m) ++ n) ≡ (k ++ l) ++ (m ++ n)
      regroup k l m n = simp append_assoc

      all_ahead : u.new_tasks ≡ (g.front ++ pre) ++ (suf ++ g.back)
      all_ahead = g.grown ∙ ap (λ l. g.front ++ (l ++ g.back)) less ∙ regroup g.front pre suf g.back

      ahead_of :
          (q : ℕ)
          → listed q (suf ++ g.back) ≡ true
          → (listed q suf ≡ true) ⊎ (listed q suf ≡ false)
          → listed q (without p w) ≡ true
      ahead_of q m (inl y) = ahead_moved q y
      ahead_of q m (inr y) =
          idle_moved q
            (g.was_idle q (second (listed q suf) y (sym (listed-append q suf g.back) ∙ m)))
        where
          second : (b : Bool) {x : Bool} → b ≡ false → (b || x) ≡ true → x ≡ true
          second true e m = absurd (ground arith)
          second false e m = m

      idle_of :
          (q : ℕ)
          → IsIdle u q
          → (listed q t.all_tasks ≡ true) ⊎ (listed q g.front ≡ true)
          → listed q (without p w) ≡ true
      idle_of q (a, b, m) o =
          let y : (listed q g.front || (listed q t.new_tasks || listed q g.back)) ≡ false =
            sym (
              ap (listed q) g.grown
              ∙ listed-append q g.front (t.new_tasks ++ g.back)
              ∙ ap (λ z. listed q g.front || z) (listed-append q t.new_tasks g.back))
            ∙ m in
          idle_moved q (alive o (ground arith), sym (ap (listed q) g.same_ready) ∙ b, ground arith)
        where
          alive :
              (listed q t.all_tasks ≡ true) ⊎ (listed q g.front ≡ true)
              → listed q g.front ≡ false
              → listed q t.all_tasks ≡ true
          alive (inl z) f = z
          alive (inr z) f = absurd (ground arith)

      covered : Covers n (without p w) (suf ++ g.back) u
      covered = record {
        distinct = Distinct-without p w c.distinct;
        few = below (length-without p w in_w) c.few;
        has_ahead = λ q m. ahead_of q m (Bool-cases (listed q suf));
        has_idle = λ q i. idle_of q i (g.was_made q i.0);
      }
        where
          below : {a b : ℕ} → a ≡ suc b → a ≤ n → b ≤ n
          below e l = omega arith

  -- A task that is taken off is idle.
  pub off_Round : TakenOff p t u → Round rounds n s u suf
  off_Round x = record {
    ran = record {
      sound = x.sound;
      same_current = x.same_current ∙ k.same_current;
      same_stack = x.same_stack ∙ k.same_stack;
      before = [];
      ready_behind =
          x.less_ready ∙ ap (without p) k.more_ready ∙ without-middle p [] s.ready_tasks refl;
      living = λ q l. ap (listed q) (x.same_all ∙ k.same_all) ∙ l;
    };
    pre = pre;
    back = [];
    ahead = x.same_new ∙ less ∙ ap (λ l. pre ++ l) (sym (append-nil suf));
    w = w;
    covers = record {
      distinct = c.distinct;
      few = c.few;
      has_ahead = λ q m. c.has_ahead q (more q (ap (listed q) (sym (append-nil suf)) ∙ m));
      has_idle = λ q i. idle_of q i (Bool-cases (q == p));
    };
    enough_left =
        subst (λ l. length w * (n + 1) + length l < rounds) (sym (append-nil suf)) (omega arith);
  }
    where
      more : (q : ℕ) → listed q suf ≡ true → listed q (p ∷ suf) ≡ true
      more q m = ground arith

      idle_of : (q : ℕ) → IsIdle u q → ((q == p) ≡ true) ⊎ ((q == p) ≡ false) → listed q w ≡ true
      idle_of q (a, b, m) (inl y) =
          let z : p ≡ q = ground arith in subst (λ x. listed x w ≡ true) z in_w
      idle_of q (a, b, m) (inr y) =
          idle_before q y (sym (ap (listed q) x.same_all) ∙ a)
            (sym (
                ap (listed q) (
                  x.less_ready
                  ∙ ap (without p) k.more_ready
                  ∙ without-middle p [] s.ready_tasks refl))
              ∙ b)
            (sym (ap (listed q) x.same_new) ∙ m)
