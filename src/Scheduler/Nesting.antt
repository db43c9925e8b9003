-- ===== src/Scheduler/Nesting.antt =====
-- The calls of a task with the rolls among them, and `Enter` and `Leave` (SMTask.cc).
use lftp.Prelude.{
  ℕ, ◌-◌, ◌≡◌, ◌≢◌, ◌<◌, ◌⊎◌, refl, sym, ap, ◌∙◌, subst, true, inl, inr, List, ◌∷◌, ◌++◌, arith,
  length, ◌==◌, ltb, if◌then◌else◌,
}
use lftp.Scheduler.{Tasks, Run, fault, done, listed, set_task, enter, pop_stack, leave}
use lftp.Scheduler.Links.{count, Returns}
use lftp.Scheduler.Sound.{IsSound, Goes, Keeps-refl}
use lftp.Scheduler.Calls.{Op, exec, IsLive, exec-Goes, Keeps-trans}

-- What a task calls: single calls, and rolls of tasks that are not running and not to be deleted, inside of which
-- are the calls of these.
pub data Calls : Tasks → Tasks → Type 0 where
  no_calls : {s : Tasks} → Calls s s
  call : {s t u : Tasks} (op : Op) → IsLive op s → exec op s ≡ done t → Calls t u → Calls s u
  rolls :
      {s t u v w : Tasks} (p : ℕ)
      → listed p s.all_tasks ≡ true
      → enter p s ≡ done t
      → Calls t u
      → leave p u ≡ done v
      → Calls v w
      → Calls s w

-- `p` is on top of the stack of `s`.
pub record Entered (p : ℕ) (s t : Tasks) : Type 0 where
  pub sound : IsSound t
  pub at_top : t.current ≡ p
  pub pushed : t.stack ≡ s.current ∷ s.stack
  pub same_ready : t.ready_tasks ≡ s.ready_tasks
  pub same_new : t.new_tasks ≡ s.new_tasks
  pub same_all : t.all_tasks ≡ s.all_tasks

-- The stack has room for another task.
abbrev pub HasRoom : Tasks → Type 0
HasRoom s = length s.stack < 64

module _ (s : Tasks) (v : IsSound s) (p : ℕ) where
  pub enter-Entered :
      HasRoom s → listed p s.all_tasks ≡ true → Returns (enter p s) (λ t. Entered p s t)
  unfolding enter
  enter-Entered h l = rw (room h) (record {
    sound = record {
      all_distinct = v.all_distinct;
      ready_distinct = v.ready_distinct;
      new_distinct = v.new_distinct;
      deleted_distinct = v.deleted_distinct;
      ready_live = v.ready_live;
      new_live = v.new_live;
      deleted_live = v.deleted_live;
      stack_live = λ q z m. ground (arith, v.stack_live q z);
      apart = v.apart;
      marked = λ q m. ground (arith, v.marked q m);
      counted = λ q z. ground (arith, v.counted q z);
      given = v.given;
    };
    at_top = refl;
    pushed = refl;
    same_ready = refl;
    same_new = refl;
    same_all = refl;
  })
    where
      room : length s.stack < 64 → ltb (length s.stack) 64 ≡ true
      room h = ground arith

-- Leaving takes `p` off the stack, and undoes the entry.
module _ (s u : Tasks) (p c : ℕ) (st : List ℕ) (v : IsSound u) (e : u.current ≡ p)
    (f : u.stack ≡ c ∷ st) (z : p ≢ 0) where
  abbrev left : Tasks
  left = record (set_task p (record (u.task p) { running = (u.task p).running - 1 }) u) {
    current = c;
    stack = st;
  }

  counts : (q : ℕ) → count q (u.current ∷ u.stack) ≡ count q (p ∷ c ∷ st)
  counts q = ap (λ x. count q (x ∷ u.stack)) e ∙ ap (λ l. count q (p ∷ l)) f

  pub leave-left : leave p u ≡ done left
  unfolding leave
  leave-left =
      ap
        (λ b.
          if b
          then pop_stack u.stack
              (set_task p (record (u.task p) { running = (u.task p).running - 1 }) u)
          else fault)
        top
      ∙ ap
          (λ l. pop_stack l (set_task p (record (u.task p) { running = (u.task p).running - 1 }) u))
          f
    where
      top : (u.current == p) ≡ true
      top = ground arith

  pub left-IsSound : IsSound left
  left-IsSound = record {
    all_distinct = v.all_distinct;
    ready_distinct = v.ready_distinct;
    new_distinct = v.new_distinct;
    deleted_distinct = v.deleted_distinct;
    ready_live = v.ready_live;
    new_live = v.new_live;
    deleted_live = v.deleted_live;
    stack_live = λ q y m. ground (arith, v.stack_live q y, counts q);
    apart = v.apart;
    marked = λ q m. ground (arith, v.marked q m);
    counted = λ q y. ground (arith, v.counted q y, counts q);
    given = v.given;
  }

pub leave-Goes :
    (s t u : Tasks) (p : ℕ) → p ≢ 0 → Entered p s t → Goes t u → Returns (leave p u) (λ w. Goes s w)
leave-Goes s t u p z n (v, k) =
    let e = k.same_current ∙ n.at_top in
    let f = k.same_stack ∙ n.pushed in
    subst (λ r. Returns r (λ w. Goes s w)) (sym (leave-left s u p s.current s.stack v e f z))
      (
        left-IsSound s u p s.current s.stack v e f z,
        record {
          same_current = refl;
          same_stack = refl;
          same_ready = k.same_ready ∙ n.same_ready;
          front = k.front;
          back = k.back;
          grown = k.grown ∙ ap (λ l. k.front ++ (l ++ k.back)) n.same_new;
          living = λ q m. k.living q (ap (listed q) n.same_all ∙ m);
          was_made = λ q m. old q (k.was_made q m);
          was_idle = λ q m.
              let (x, y, w) = k.was_idle q m in
              (
                sym (ap (listed q) n.same_all) ∙ x,
                sym (ap (listed q) n.same_ready) ∙ y,
                sym (ap (listed q) n.same_new) ∙ w,
              );
        },
      )
  where
    old :
        (q : ℕ)
        → (listed q t.all_tasks ≡ true) ⊎ (listed q k.front ≡ true)
        → (listed q s.all_tasks ≡ true) ⊎ (listed q k.front ≡ true)
    old q (inl m) = inl (sym (ap (listed q) n.same_all) ∙ m)
    old q (inr m) = inr m

Returns-done : {A : Type 0} (P : A → Type 0) (r : Run A) (a : A) → r ≡ done a → Returns r P → P a
Returns-done P r a e h = subst (λ x. Returns x P) e h

enter-HasRoom : (p : ℕ) (s t : Tasks) → enter p s ≡ done t → HasRoom s
unfolding enter
enter-HasRoom p s t e = ground arith

-- Let a task make any sequence of calls on tasks that are not destroyed, rolls of other tasks among them, with
-- the calls of these inside. Then the lists stay sound, the stack, the current task and the ready tasks are as
-- before, no task is destroyed, and the new tasks are the old ones in their order, with others before and behind
-- them. Those behind were on neither list, and every task that was made meanwhile is among those before.
pub Calls-Goes : {s t : Tasks} → Calls s t → IsSound s → Goes s t
Calls-Goes {s} no_calls v = (v, Keeps-refl s)
Calls-Goes {s} {t = u} (call {t = t} op l e r) v =
    let (w, k) = Returns-done (λ t. Goes s t) (exec op s) t e (exec-Goes s v op l) in
    let (x, m) = Calls-Goes r w in (x, Keeps-trans s t u k m)
Calls-Goes {s} {t = w} (rolls {t = t} {u = u} {v = x} p l e c f r) v =
    let n =
      Returns-done (λ t. Entered p s t) (enter p s) t e
        (enter-Entered s v p (enter-HasRoom p s t e) l) in
    let g = Calls-Goes c n.sound in
    let (y, k) =
      Returns-done (λ x. Goes s x) (leave p u) x f (leave-Goes s t u p (v.given p l).0 n g) in
    let (z, m) = Calls-Goes r y in (z, Keeps-trans s x w k m)
