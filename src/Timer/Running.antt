-- ===== src/Timer/Running.antt =====
-- Timer.cc: the running timers are in a heap, in the order of the time they have left.
use lftp.Prelude.{
  ℕ, ◌-◌, ◌/◌, ◌≤◌, ◌<◌, ◌≡◌, ◌≢◌, refl, sym, ap, ◌∙◌, subst, Bool, true, false, none, some, List,
  [], ◌∷◌, ◌||◌, if_cases, ◌==◌, ltb, arith,
}
use lftp.Prelude.Int.{ℤ, pos}
use lftp.Heap
use lftp.Heap.{Heap}
use lftp.Heap.Removal.{IsHeap, Changed}
use lftp.Heap.Laws.{Gives, Without, add-IsHeap, remove-IsHeap}
use lftp.Timer.{Timer, Timers, timer_less, with_running, lift, runs, add_running, then_add, re_sort}

abbrev pub listed : ℕ → List ℕ → Bool
listed n [] = false
listed n (m ∷ ms) = m == n || listed n ms

-- What the heap is ordered by, and what the order needs of a timer.
abbrev pub left : Timers → ℕ → ℕ
left s n = (s.timer n).stop - s.now

abbrev pub IsFinite : Timers → ℕ → Type 0
IsFinite s n = (s.timer n).last_setting.infty ≡ false

pub record IsRunning (s : Timers) : Type 0 where
  pub heap : IsHeap (left s) (IsFinite s) s.running
  pub kept :
      (n : ℕ)
      → listed n s.all_timers ≡ true
      → s.now < (s.timer n).stop
      → IsFinite s n
      → s.running.index n ≢ 0
  pub alive : (n : ℕ) → s.running.index n ≢ 0 → listed n s.all_timers ≡ true
  pub null_out : listed 0 s.all_timers ≡ false

-- The same but for the timer `n`, which has been set anew.
pub record Loosened (n : ℕ) (s : Timers) : Type 0 where
  pub heap : Changed (left s) (IsFinite s) n s.running
  pub kept :
      (m : ℕ)
      → m ≢ n
      → listed m s.all_timers ≡ true
      → s.now < (s.timer m).stop
      → IsFinite s m
      → s.running.index m ≢ 0
  pub alive : (m : ℕ) → s.running.index m ≢ 0 → listed m s.all_timers ≡ true
  pub null_out : listed 0 s.all_timers ≡ false

pub timer_less-left :
    (s : Timers) (a b : ℕ)
    → IsFinite s a
    → IsFinite s b
    → timer_less s a b ≡ ltb (left s a) (left s b)
timer_less-left s a b p q = ground arith

-- No timer is made yet.
abbrev pub no_timers : ℕ → Timers
no_timers now = record {
  now = now;
  timer = λ n. record {
    start = 0;
    stop = 0;
    last_setting = record { span = 0; infty = false };
    random_max = 0;
    resource = none;
    closure = none;
  };
  all_timers = [];
  running = Heap.empty;
  infty_count = pos 0;
}

pub no_timers-IsRunning : (now : ℕ) → IsRunning (no_timers now)
no_timers-IsRunning now = record {
  heap = record {
    good = λ i p q. absurd (omega arith);
    linked = record {
      at_place = λ i p q. absurd (omega arith);
      place = λ n z. absurd (z refl);
      back = λ n z. absurd (z refl);
    };
    ordered = λ i p q. absurd (omega arith);
    null_out = refl;
  };
  kept = λ n e. absurd (ground arith);
  alive = λ n z. absurd (z refl);
  null_out = refl;
}

-- `s` with other timers `f`, and `more` in front of all timers.
abbrev pub remade : Timers → (ℕ → Timer) → ℤ → List ℕ → Timers
remade s f c all = record s { timer = f; infty_count = c; all_timers = all }

module _ (s : Timers) (f : ℕ → Timer) (n : ℕ) (same : (m : ℕ) → m ≢ n → f m ≡ s.timer m)
    (v : IsRunning s) where
  other_left : (c : ℤ) (all : List ℕ) (m : ℕ) → m ≢ n → left (remade s f c all) m ≡ left s m
  other_left c all m z = rw (same m z) refl

  other-IsFinite :
      (c : ℤ) (all : List ℕ) (m : ℕ) → m ≢ n → IsFinite s m → IsFinite (remade s f c all) m
  other-IsFinite c all m z g = rw (same m z) g

  loosened_heap :
      (c : ℤ) (all : List ℕ)
      → Changed (left (remade s f c all)) (IsFinite (remade s f c all)) n s.running
  loosened_heap c all =
      let l = v.heap.linked in
      let s' = remade s f c all in
      record {
        good = λ i p q z. other-IsFinite c all (s.running.ptr i) z (v.heap.good i p q);
        linked = l;
        edges = λ i p q y z.
            let a : s.running.ptr i ≢ n = λ e. ground (arith, l.at_place i) in
            let b : s.running.ptr (i / 2) ≢ n = λ e. ground (arith, l.at_place (i / 2)) in
            rw (other_left c all (s.running.ptr i) a, other_left c all (s.running.ptr (i / 2)) b)
              (v.heap.ordered i p q);
        bridged = λ i p q y z.
            let j = s.running.index n in
            let a : s.running.ptr i ≢ n = λ e. ground (arith, l.at_place i) in
            let b : s.running.ptr (j / 2) ≢ n =
              λ e. ground (arith, l.at_place (j / 2), l.place n) in
            rw (other_left c all (s.running.ptr i) a, other_left c all (s.running.ptr (j / 2)) b)
              (subst (λ k. left s (s.running.ptr (k / 2)) ≤ left s (s.running.ptr i)) y
                (omega (
                  arith,
                  v.heap.ordered i p q,
                  v.heap.ordered (i / 2) (omega arith) (omega arith),
                )));
        null_out = v.heap.null_out;
      }

  pub loosen : (c : ℤ) → Loosened n (remade s f c s.all_timers)
  loosen c = record {
    heap = loosened_heap c s.all_timers;
    kept = λ m z e. rw (same m z) (v.kept m e);
    alive = v.alive;
    null_out = v.null_out;
  }

  -- The timer `n` is new.
  pub loosen_new :
      (c : ℤ) → n ≢ 0 → listed n s.all_timers ≡ false → Loosened n (remade s f c (n ∷ s.all_timers))
  loosen_new c z fresh = record {
    heap = loosened_heap c (n ∷ s.all_timers);
    kept = λ m y e. rw (same m y) (v.kept m (ground arith));
    alive = λ m e. ground (arith, v.alive m e);
    null_out = ground (arith, v.null_out);
  }

module _ (n : ℕ) (s : Timers) where
  -- The heap without `n` is in order, and `add_running` puts it there if it runs.
  add_running-IsRunning :
      (h : Heap)
      → listed n s.all_timers ≡ true
      → Loosened n s
      → IsHeap (left s) (IsFinite s) h
      → Without n s.running h
      → Gives IsRunning (add_running n (with_running s h))
  add_running-IsRunning h e v w out =
      let t = with_running s h in
      let P = Gives IsRunning in
      let here : (m : ℕ) → m ≡ n → listed m s.all_timers ≡ true =
        λ m f. subst (λ j. listed j s.all_timers ≡ true) (sym f) e in
      if_cases P (runs s.now (s.timer n)) (lift t (Heap.add (timer_less t) n h)) (some t)
        (λ r.
          let z : n ≢ 0 = λ f. ground (arith, v.null_out, here 0 (sym f)) in
          let (k, f, (heap, members)) =
            add-IsHeap (timer_less t) (left t) (IsFinite t) (timer_less-left t) h n w (ground arith)
              z in
          (
            with_running t k,
            ap (lift t) f,
            record {
              heap = heap;
              kept = λ m l r f. ground (arith, members m, out m, v.kept m);
              alive = λ m z. ground (arith, members m, out m, v.alive m, here m);
              null_out = v.null_out;
            },
          ))
        (λ r. (
          t,
          refl,
          record {
            heap = w;
            kept = λ m l q f. ground (arith, out m, v.kept m);
            alive = λ m z. ground (arith, out m, v.alive m, here m);
            null_out = v.null_out;
          },
        ))

  -- Sorting the timer that has been set anew succeeds, and every running timer is in the heap again.
  pub re_sort-IsRunning :
      listed n s.all_timers ≡ true → Loosened n s → Gives IsRunning (re_sort n s)
  unfolding re_sort
  re_sort-IsRunning e v =
      let (h, f, (w, out)) =
        remove-IsHeap (timer_less s) (left s) (IsFinite s) (timer_less-left s) s.running n v.heap in
      let (s', g, r) = add_running-IsRunning h e v w out in
      (s', ap (λ o. then_add n (lift s o)) f ∙ g, r)
