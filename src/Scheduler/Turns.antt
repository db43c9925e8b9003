-- ===== src/Scheduler/Turns.antt =====
-- `ScheduleThis`, `ScheduleNew` and the loop of `Schedule` (SMTask.cc): no assertion fails and no next node is lost.
use lftp.Prelude.{
  ℕ, ◌+◌, ◌-◌, ◌≡◌, ◌≤◌, ◌<◌, ◌∷◌, ◌⊎◌, refl, sym, ap, ◌∙◌, subst, Bool, true, false, not, inl, inr,
  ◌||◌, [], append-nil, arith, length, if_both, ◌==◌, ltb, if◌then◌else◌,
}
use lftp.Scheduler.{
  Task, Tasks, Run, fault, no_fuel, done, ◌>>=◌, listed, without, set_task, is_suspended,
  inc_ref_count, dec_ref_count, enter, leave, Do, then_leave, schedule_this, protect, unprotect,
}
use lftp.Scheduler.Links.{listed-without, Distinct-without, Returns, Returns-bind}
use lftp.Scheduler.Sound.{IsSound, Goes, Keeps-refl, set_task-IsSound}
use lftp.Scheduler.Calls.{Keeps-trans}
use lftp.Scheduler.Nesting.{Calls, Calls-Goes, Entered, enter-Entered, leave-Goes}

-- Each `Do` that finds the stack with room for `depth` tasks more ends, and does nothing to the tasks but by calls.
abbrev pub MakesCalls : ℕ → Do → Type 0
MakesCalls depth act =
    (p : ℕ) (s : Tasks)
    → IsSound s
    → s.current ≡ p
    → length s.stack + depth ≤ 64
    → Returns (act p s) (λ r. Calls s r.1)

-- The stack has room for a task and `depth` tasks more.
abbrev pub HasDepth : ℕ → Tasks → Type 0
HasDepth depth s = length s.stack + depth < 64

-- Only the numbers of references differ.
pub record Quiet (s t : Tasks) : Type 0 where
  pub sound : IsSound t
  pub same_current : t.current ≡ s.current
  pub same_stack : t.stack ≡ s.stack
  pub same_ready : t.ready_tasks ≡ s.ready_tasks
  pub same_new : t.new_tasks ≡ s.new_tasks
  pub same_all : t.all_tasks ≡ s.all_tasks

pub Quiet-refl : (s : Tasks) → IsSound s → Quiet s s
Quiet-refl s v = record {
  sound = v;
  same_current = refl;
  same_stack = refl;
  same_ready = refl;
  same_new = refl;
  same_all = refl;
}

-- `t` is `s` without `p` among the ready tasks.
pub record TakenOff (p : ℕ) (s t : Tasks) : Type 0 where
  pub sound : IsSound t
  pub same_current : t.current ≡ s.current
  pub same_stack : t.stack ≡ s.stack
  pub less_ready : t.ready_tasks ≡ without p s.ready_tasks
  pub same_new : t.new_tasks ≡ s.new_tasks
  pub same_all : t.all_tasks ≡ s.all_tasks

-- A turn either keeps what calls keep, or does nothing but take its task off.
abbrev pub Turns : ℕ → Tasks → Bool × Tasks → Type 0
Turns p s (m, t) = Goes s t ⊎ TakenOff p s t

module _ (s : Tasks) (v : IsSound s) (p : ℕ) where
  abbrev taken_off : Tasks
  taken_off = record s { ready_tasks = without p s.ready_tasks }

  taken_off-TakenOff : TakenOff p s taken_off
  taken_off-TakenOff = record {
    sound = record {
      all_distinct = v.all_distinct;
      ready_distinct = Distinct-without p s.ready_tasks v.ready_distinct;
      new_distinct = v.new_distinct;
      deleted_distinct = v.deleted_distinct;
      ready_live =
          λ q m. ground (arith, v.ready_live q, listed-without q p s.ready_tasks v.ready_distinct);
      new_live = v.new_live;
      deleted_live = v.deleted_live;
      stack_live = v.stack_live;
      apart = λ q m. ground (arith, v.apart q, listed-without q p s.ready_tasks v.ready_distinct);
      marked = v.marked;
      counted = v.counted;
      given = v.given;
    };
    same_current = refl;
    same_stack = refl;
    less_ready = refl;
    same_new = refl;
    same_all = refl;
  }

  pub schedule_this-Turns :
      (depth : ℕ) (act : Do)
      → MakesCalls depth act
      → HasDepth depth s
      → listed p s.ready_tasks ≡ true
      → Returns (schedule_this act p s) (λ r. Turns p s r)
  unfolding schedule_this
  schedule_this-Turns depth act c h l =
      let P = λ (r : Run (Bool × Tasks)). Returns r (λ r. Turns p s r) in
      let run : Run (Bool × Tasks) = enter p s >>= (λ s'. act p s' >>= (λ r. then_leave p r)) in
      rw l (
        if_both P (not ((s.task p).running == 0)) (done (false, s))
          (if (s.task p).deleting || is_suspended (s.task p) then done (false, taken_off) else run)
          (inl (v, Keeps-refl s))
          (if_both P ((s.task p).deleting || is_suspended (s.task p)) (done (false, taken_off)) run
            (inr taken_off-TakenOff)
            (Returns-bind (λ t. Entered p s t) (λ r. Turns p s r) (enter p s)
              (λ s'. act p s' >>= (λ r. then_leave p r))
              (enter-Entered s v p (omega (arith, h)) (v.ready_live p l))
              (λ t n.
                Returns-bind (λ r. Calls t r.1) (λ r. Turns p s r) (act p t) (λ r. then_leave p r)
                  (c p t n.sound n.at_top (deep depth t n.pushed h))
                  (λ (m, u) k.
                    Returns-bind (λ w. Goes s w) (λ r. Turns p s r) (leave p u) (λ w. done (m, w))
                      (leave-Goes s t u p (v.given p (v.ready_live p l)).0 n (Calls-Goes k n.sound))
                      (λ w g. inl g))))))
    where
      deep :
          (depth : ℕ) (t : Tasks)
          → t.stack ≡ s.current ∷ s.stack
          → HasDepth depth s
          → length t.stack + depth ≤ 64
      deep depth t e h = subst (λ l. length l + depth ≤ 64) (sym e) (omega (arith, h))

Quiet-Goes : (s t : Tasks) → Quiet s t → Goes s t
Quiet-Goes s t k = (
  k.sound,
  record {
    same_current = k.same_current;
    same_stack = k.same_stack;
    same_ready = k.same_ready;
    front = [];
    back = [];
    grown = k.same_new ∙ sym (append-nil s.new_tasks);
    living = λ q m. ap (listed q) k.same_all ∙ m;
    was_made = λ q m. inl (sym (ap (listed q) k.same_all) ∙ m);
    was_idle = λ q m. absurd (ground arith);
  },
)

Quiet-Turns : (p : ℕ) (s t : Tasks) → Quiet s t → (r : Bool × Tasks) → Turns p t r → Turns p s r
Quiet-Turns p s t k (m, u) (inl (v, w)) = inl (v, Keeps-trans s t u (Quiet-Goes s t k).1 w)
Quiet-Turns p s t k (m, u) (inr x) = inr (record {
  sound = x.sound;
  same_current = x.same_current ∙ k.same_current;
  same_stack = x.same_stack ∙ k.same_stack;
  less_ready = x.less_ready ∙ ap (without p) k.same_ready;
  same_new = x.same_new ∙ k.same_new;
  same_all = x.same_all ∙ k.same_all;
})

pub Turns-Quiet :
    (p : ℕ) (s t u : Tasks) → Goes s t ⊎ TakenOff p s t → Quiet t u → Goes s u ⊎ TakenOff p s u
Turns-Quiet p s t u (inl (v, w)) k = inl (k.sound, Keeps-trans s t u w (Quiet-Goes t u k).1)
Turns-Quiet p s t u (inr x) k = inr (record {
  sound = k.sound;
  same_current = k.same_current ∙ x.same_current;
  same_stack = k.same_stack ∙ x.same_stack;
  less_ready = k.same_ready ∙ x.less_ready;
  same_new = k.same_new ∙ x.same_new;
  same_all = k.same_all ∙ x.same_all;
})

set_task-Quiet :
    (s : Tasks)
    → IsSound s
    → (p : ℕ) (t : Task) → t.running ≡ (s.task p).running
    → t.deleting ≡ (s.task p).deleting
    → Quiet s (set_task p t s)
set_task-Quiet s v p t e f = record {
  sound = set_task-IsSound s v p t e f;
  same_current = refl;
  same_stack = refl;
  same_ready = refl;
  same_new = refl;
  same_all = refl;
}

protect-Quiet : (s : Tasks) → IsSound s → (q : ℕ) → Quiet s (protect q s)
protect-Quiet s v q =
    if_both (λ t. Quiet s t) (q == 0) s (inc_ref_count q s) (Quiet-refl s v)
      (set_task-Quiet s v q _ refl refl)

pub unprotect-Quiet : (s : Tasks) → IsSound s → (q : ℕ) → Quiet s (unprotect q s)
unprotect-Quiet s v q =
    if_both (λ t. Quiet s t) (q == 0) s (dec_ref_count q s) (Quiet-refl s v)
      (if_both (λ t. Quiet s t) (ltb 0 (s.task q).ref_count)
        (set_task q (record (s.task q) { ref_count = (s.task q).ref_count - 1 }) s) s
        (set_task-Quiet s v q _ refl refl) (Quiet-refl s v))

-- The turn of a task with another one protected.
pub turn_protected :
    (depth : ℕ) (act : Do)
    → MakesCalls depth act
    → (s : Tasks) (p q : ℕ) → IsSound s
    → HasDepth depth s
    → listed p s.ready_tasks ≡ true
    → Returns (schedule_this act p (protect q s)) (λ r. Turns p s r)
turn_protected depth act c s p q v h l =
    let k = protect-Quiet s v q in
    widen (schedule_this act p (protect q s)) (
      schedule_this-Turns (protect q s) k.sound p depth act c
        (subst (λ l. length l + depth < 64) (sym k.same_stack) h) (ap (listed p) k.same_ready ∙ l))
  where
    widen :
        (r : Run (Bool × Tasks))
        → Returns r (λ r. Turns p (protect q s) r)
        → Returns r (λ r. Turns p s r)
    widen fault x = x
    widen no_fuel x = x
    widen (done r) x = Quiet-Turns p s (protect q s) (protect-Quiet s v q) r x
