-- ===== src/Timer/Kept.antt =====
-- That each operation of the timers (Timer.cc) keeps the invariant.
use lftp.Prelude.{
  ℕ, ◌+◌, ◌≤◌, ◌≡◌, ◌≢◌, refl, sym, ap, ◌∙◌, subst, true, false, Option, none, some, List, [], ◌∷◌,
  Bytes, same, same_refl, ◌&&◌, if_cases, if_both, ltb, leb, arith,
}
use lftp.Prelude.Int.{ℤ, ◌+ℤ◌, ◌-ℤ◌}
use lftp.Prelude.Write.{write, write_same}
use lftp.Heap.Laws.{Gives, remove-IsHeap, Changed-0}
use lftp.Timer.{
  Interval, finite, Timer, Timers, timer_less, lift, put, infty_part, add_random, re_sort, re_set,
  set_last_setting, reset, init, without, unlist, destroy, names, reconfig_from, reconfig,
  update_now,
}
use lftp.Timer.Running.{
  listed, left, IsFinite, timer_less-left, IsRunning, Loosened, remade, loosen, loosen_new,
  re_sort-IsRunning,
}

other_listed : (n m : ℕ) (xs : List ℕ) → m ≢ n → listed m (without n xs) ≡ listed m xs
other_listed n m [] z = refl
other_listed n m (x ∷ xs) z = ground (arith, other_listed n m xs z)

not_listed : (n : ℕ) (xs : List ℕ) → listed n (without n xs) ≡ false
not_listed n [] = refl
not_listed n (x ∷ xs) = ground (arith, not_listed n xs)

-- Whatever is set in the timer `n` of `s`, and in the number of infinite timers.
abbrev pub Loosens : ℕ → Timers → List ℕ → Type 0
Loosens n s all =
    (g : ℕ → Timer) (c : ℤ) → ((m : ℕ) → m ≢ n → g m ≡ s.timer m) → Loosened n (remade s g c all)

module _ (n : ℕ) (s : Timers) (all : List ℕ) (e : listed n all ≡ true) (v : Loosens n s all) where
  -- The timers `g` are those of `s` but for `n`.
  module _ (g : ℕ → Timer) (c : ℤ) (same : (m : ℕ) → m ≢ n → g m ≡ s.timer m) where
    pub put-IsRunning : (t : Timer) → Gives IsRunning (re_sort n (put (remade s g c all) n t))
    put-IsRunning t =
        re_sort-IsRunning n (put (remade s g c all) n t) e
          (v (write g n t) c (λ m z. ground (arith, same m z)))

    pub re_set-IsRunning : (d : ℕ) → Gives IsRunning (re_set d n (remade s g c all))
    re_set-IsRunning d =
        put-IsRunning (add_random d (record (g n) { stop = (g n).start + (g n).last_setting.span }))

  pub set_last-IsRunning :
      (g : ℕ → Timer) (c : ℤ)
      → ((m : ℕ) → m ≢ n → g m ≡ s.timer m)
      → (i : Interval) (d : ℕ) → Gives IsRunning (set_last_setting i d n (remade s g c all))
  set_last-IsRunning g c same i d =
      let t' = record (g n) { last_setting = i } in
      re_set-IsRunning (write g n t') (c -ℤ infty_part (g n) +ℤ infty_part t')
        (λ m z. ground (arith, same m z)) d

module _ (query : Bytes → Option Bytes → Interval) (n : ℕ) (s : Timers) (all : List ℕ)
    (e : listed n all ≡ true) (v : Loosens n s all) (g : ℕ → Timer)
    (others : (m : ℕ) → m ≢ n → g m ≡ s.timer m) where
  -- The timer has the resource `r`, and it is the one that changed.
  pub named-IsRunning :
      (t : Timer) (r : Bytes) (d : ℕ)
      → t.resource ≡ some r
      → Gives IsRunning (reconfig query (some r) d n (put (remade s g s.infty_count all) n t))
  named-IsRunning t r d f =
      let s' = put (remade s g s.infty_count all) n t in
      let own : (s'.timer n).resource ≡ some r = ap (λ u. u.resource) (write_same g n t) ∙ f in
      subst (λ o. Gives IsRunning (reconfig_from query o (some r) d n s')) (sym own)
        (if_cases (Gives IsRunning) (same r r)
          (set_last_setting (query r (s'.timer n).closure) d n s') (some s')
          (λ y.
            set_last-IsRunning n s all e v (write g n t) s.infty_count
              (λ m z. ground (arith, others m z)) (query r (s'.timer n).closure) d)
          (λ y. absurd (ground (arith, same_refl r))))

pub reset-IsRunning :
    (t d n : ℕ) (s : Timers)
    → listed n s.all_timers ≡ true
    → IsRunning s
    → Gives IsRunning (reset t d n s)
reset-IsRunning t d n s e v =
    let later = put s n (record (s.timer n) { start = t }) in
    if_both (Gives IsRunning) (leb t (s.timer n).start && ltb t (s.timer n).stop) (some s)
      (re_set d n later) (s, refl, v)
      (re_set-IsRunning n s s.all_timers e (λ g c same. loosen s g n same v c) later.timer
        s.infty_count (λ m z. ground arith) d)

pub reconfig-IsRunning :
    (query : Bytes → Option Bytes → Interval) (o name : Option Bytes) (d n : ℕ) (s : Timers)
    → listed n s.all_timers ≡ true
    → IsRunning s
    → Gives IsRunning (reconfig_from query o name d n s)
reconfig-IsRunning query none name d n s e v = (s, refl, v)
reconfig-IsRunning query (some r) name d n s e v =
    if_both (Gives IsRunning) (names name r) (set_last_setting (query r (s.timer n).closure) d n s)
      (some s)
      (set_last-IsRunning n s s.all_timers e (λ g c same. loosen s g n same v c) s.timer
        s.infty_count (λ m z. refl) (query r (s.timer n).closure) d)
      (s, refl, v)

pub destroy-IsRunning :
    (n : ℕ) (s : Timers)
    → listed n s.all_timers ≡ true
    → IsRunning s
    → Gives IsRunning (destroy n s)
destroy-IsRunning n s e v =
    let w = loosen s s.timer n (λ m z. refl) v s.infty_count in
    let (h, f, (heap, out)) =
      remove-IsHeap (timer_less s) (left s) (IsFinite s) (timer_less-left s) s.running n w.heap in
    (
      record s {
        running = h;
        all_timers = without n s.all_timers;
        infty_count = s.infty_count -ℤ infty_part (s.timer n);
      },
      ap (λ o. unlist n (lift s o)) f,
      record {
        heap = heap;
        kept = λ m y.
            ground
              (arith, out m, not_listed n s.all_timers, other_listed n m s.all_timers, v.kept m);
        alive = λ m y. ground (arith, out m, other_listed n m s.all_timers, v.alive m);
        null_out =
            ground (arith, not_listed n s.all_timers, other_listed n 0 s.all_timers, v.null_out);
      },
    )

pub new_timer-IsRunning :
    (n : ℕ) (s : Timers)
    → n ≢ 0
    → listed n s.all_timers ≡ false
    → IsRunning s
    → IsRunning (init (finite 1000000) n s)
new_timer-IsRunning n s z e v =
    let s' = init (finite 1000000) n s in
    let w = loosen_new s s'.timer n (λ m y. ground arith) v s.infty_count z e in
    let out : s.running.index n ≡ 0 = ground (arith, v.alive n) in
    record {
      heap =
          Changed-0 (timer_less s') (left s') (IsFinite s') (timer_less-left s') s.running n w.heap
            out;
      kept = λ m y r f. w.kept m (λ g. ground arith) y r f;
      alive = w.alive;
      null_out = w.null_out;
    }

pub update_now-IsRunning :
    (t : ℕ) (s : Timers) → s.now ≤ t → IsRunning s → IsRunning (update_now t s)
update_now-IsRunning t s le v = record {
  heap = record {
    good = v.heap.good;
    linked = v.heap.linked;
    ordered = λ i p q. omega (arith, v.heap.ordered i p q);
    null_out = v.heap.null_out;
  };
  kept = λ m y r f. v.kept m y (omega arith) f;
  alive = v.alive;
  null_out = v.null_out;
}

pub old : (n : ℕ) (s : Timers) → IsRunning s → Loosens n s s.all_timers
old n s v g c same = loosen s g n same v c

pub new :
    (n : ℕ) (s : Timers)
    → n ≢ 0
    → listed n s.all_timers ≡ false
    → IsRunning s
    → Loosens n s (n ∷ s.all_timers)
new n s z e v g c same = loosen_new s g n same v c z e

pub head_listed : (n : ℕ) (xs : List ℕ) → listed n (n ∷ xs) ≡ true
head_listed n xs = ground arith
