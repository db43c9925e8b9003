-- ===== src/Timer/Timeout.antt =====
-- `Timer::GetTimeoutTV` (Timer.cc): the time until the first timer stops.
use lftp.Prelude.{
  ℕ, zero, suc, ◌+◌, ◌≤◌, ◌<◌, ◌≡◌, ◌≢◌, ◌⊎◌, inl, inr, refl, sym, ap, ◌∙◌, subst, true, false,
  Option, none, some, if_cases, if_zero, if_nonzero, ◌==◌, if◌then◌else◌, arith,
}
use lftp.Prelude.Int.{pos, eq_ℤ}
use lftp.Heap
use lftp.Heap.{Heap, get_min}
use lftp.Heap.Removal.{IsHeap}
use lftp.Heap.Laws.{Gives, Without, get_min-Least, pop_min-IsHeap}
use lftp.Timer.{
  Timers, timer_less, with_running, stopped, then_pop, pop_stopped, timeout_of, then_timeout,
  get_timeout,
}
use lftp.Timer.Running.{listed, left, IsFinite, timer_less-left, IsRunning}

-- The timer is there and will stop.
abbrev pub Ticks : Timers → ℕ → Type 0
Ticks s n = (listed n s.all_timers ≡ true) × IsFinite s n × (s.now < (s.timer n).stop)

-- What the loop returns: a timer that ticks, which is the first to stop, or null when none ticks.
abbrev pub First : Timers → ℕ → Type 0
First s t =
    ((t ≡ 0) × ((n : ℕ) → Ticks s n → ⊥))
    ⊎ ((t ≢ 0) × Ticks s t × ((n : ℕ) → Ticks s n → left s t ≤ left s n))

-- `s'` is `s` with another heap.
abbrev pub Popped : Timers → ℕ × Timers → Type 0
Popped s (t, s') = (h : Heap) × (s' ≡ with_running s h) × IsRunning s' × First s t

module _ (s : Timers) (v : IsRunning s) where
  none-Ticks : get_min s.running ≡ 0 → (n : ℕ) → Ticks s n → ⊥
  none-Ticks e n (l, g, t) =
      let z : s.running.index n ≢ 0 = v.kept n l t g in
      let (y, least) =
        get_min-Least (left s) (IsFinite s) s.running v.heap
          (omega (arith, v.heap.linked.place n z)) in
      y (ap s.running.index e ∙ v.heap.null_out)

  min_First :
      get_min s.running ≢ 0
      → stopped s.now (s.timer (get_min s.running)) ≡ false
      → First s (get_min s.running)
  min_First e g =
      let t = get_min s.running in
      let l = v.heap.linked in
      let c : 1 ≤ s.running.count = ground arith in
      let (y, least) = get_min-Least (left s) (IsFinite s) s.running v.heap c in
      let q : IsFinite s t =
        subst (IsFinite s) (l.back t y)
          (v.heap.good (s.running.index t) (omega arith) (l.place t y)) in
      inr (e, (v.alive t y, q, go q g), λ n (a, b, d). least n (v.kept n a d b))
    where
      go :
          IsFinite s (get_min s.running)
          → stopped s.now (s.timer (get_min s.running)) ≡ false
          → s.now < (s.timer (get_min s.running)).stop
      go p q = ground arith

  -- A stopped timer is taken out.
  popped-IsRunning :
      (h : Heap)
      → stopped s.now (s.timer (get_min s.running)) ≡ true
      → IsHeap (left s) (IsFinite s) h
      → Without (get_min s.running) s.running h
      → IsRunning (with_running s h)
  popped-IsRunning h g w out = record {
    heap = w;
    kept = λ n l t f e. elim ((out n).0 e) [ inl p ↦ over n p g t | inr q ↦ v.kept n l t f q ];
    alive = λ n z. v.alive n (λ e. z ((out n).1 (inr e)));
    null_out = v.null_out;
  }
    where
      over :
          (n : ℕ)
          → n ≡ get_min s.running
          → stopped s.now (s.timer (get_min s.running)) ≡ true
          → s.now < (s.timer n).stop
          → ⊥
      over n p g t = let q = subst (λ m. s.now < (s.timer m).stop) p t in ground arith

pop_stopped-First :
    (fuel : ℕ) (s : Timers)
    → IsRunning s
    → s.running.count < fuel
    → Gives (Popped s) (pop_stopped fuel s)
unfolding pop_stopped
pop_stopped-First zero s v f = absurd (omega arith)
pop_stopped-First (suc fuel) s v f =
    let t = get_min s.running in
    let P = Gives (Popped s) in
    let popped = then_pop s (pop_stopped fuel) (Heap.pop_min (timer_less s) s.running) in
    if_cases P (t == 0) (some (0, s)) (if stopped s.now (s.timer t) then popped else some (t, s))
      (λ e. ((0, s), refl, (s.running, refl, v, inl (refl, none-Ticks s v (ground arith)))))
      (λ e.
        if_cases P (stopped s.now (s.timer t)) popped (some (t, s))
          (λ g.
            let c : 1 ≤ s.running.count = ground arith in
            let ((m, h), p, (q, heap, out, counts)) =
              pop_min-IsHeap (timer_less s) (left s) (IsFinite s) (timer_less-left s) s.running
                v.heap c in
            let s1 = with_running s h in
            let w = popped-IsRunning s v h g heap (subst (λ k. Without k s.running h) q out) in
            let (x, r, y) = pop_stopped-First fuel s1 w (omega arith) in
            (x, ap (then_pop s (pop_stopped fuel)) p ∙ r, y))
          (λ g. ((t, s), refl, (s.running, refl, v, min_First s v (ground arith) g))))

-- The timeout that the first timer to stop gives, when there is one.
abbrev pub Earliest : Timers → Option ℕ → Type 0
Earliest s none = ((n : ℕ) → Ticks s n → ⊥) × (s.infty_count ≡ pos 0)
Earliest s (some d) =
    (((n : ℕ) → Ticks s n → ⊥) × (s.infty_count ≢ pos 0) × (d ≡ 3600000000))
    ⊎ ((t : ℕ) × Ticks s t × (d ≡ left s t) × ((n : ℕ) → Ticks s n → d ≤ left s n))

First-Earliest : (s : Timers) (t : ℕ) → First s t → Earliest s (timeout_of t s)
First-Earliest s t (inl (e, none_of)) =
    subst (Earliest s)
      (sym (
        if_zero t (if eq_ℤ s.infty_count (pos 0) then none else some 3600000000) (some (left s t))
          e))
      (if_cases (Earliest s) (eq_ℤ s.infty_count (pos 0)) none (some 3600000000)
        (λ f. (none_of, ground arith)) (λ f. inl (none_of, ground arith, refl)))
First-Earliest s t (inr (z, ticks, least)) =
    subst (Earliest s)
      (sym (
        if_nonzero t (if eq_ℤ s.infty_count (pos 0) then none else some 3600000000)
          (some (left s t)) z))
      (inr (t, ticks, refl, least))

-- Asking for the timeout succeeds when the running timers are in their heap. It changes the heap
-- only, in which they stay. The timeout is the time until the first timer stops. When no timer
-- will, it is an hour if the count of infinite timers is not 0, and none if it is.
pub get_timeout-Earliest :
    (s : Timers)
    → IsRunning s
    → Gives
        (λ r. (h : Heap) × (r.1 ≡ with_running s h) × IsRunning r.1 × Earliest s r.0)
        (get_timeout s)
get_timeout-Earliest s v =
    let ((t, s'), e, (h, f, w, first)) =
      pop_stopped-First (s.running.count + 1) s v (omega arith) in
    let g : timeout_of t s' ≡ timeout_of t s = ap (timeout_of t) f in
    (
      (timeout_of t s', s'),
      ap then_timeout e,
      (h, f, w, subst (Earliest s) (sym g) (First-Earliest s t first)),
    )
