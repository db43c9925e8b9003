-- ===== src/Scheduler/Calls.antt =====
-- The calls of SMTask that a task makes while it runs (SMTask.cc), as steps.
use lftp.Prelude.{
  ℕ, ◌-◌, ◌≡◌, ◌⊎◌, refl, sym, ap, ◌∙◌, subst, Bool, true, false, inl, inr, Bool-cases, ◌||◌, List,
  [], ◌∷◌, ◌++◌, append_assoc, arith, if_both, ◌==◌, ltb,
}
use lftp.Scheduler.{
  Task, Tasks, Run, fault, no_fuel, done, listed, set_task, new_task, is_suspended, resume_internal,
  suspend, resumed, resume, suspend_slave, resume_slave, delete_later, delete, inc_ref_count,
  dec_ref_count,
}
use lftp.Scheduler.Links.{listed-append, Returns}
use lftp.Scheduler.Sound.{
  IsSound, IsIdle, Keeps, Goes, Keeps-refl, set_task-Goes, new_task-Goes, add_new-IsSound,
  delete_later-Goes,
}

pub Keeps-trans : (s t u : Tasks) → Keeps s t → Keeps t u → Keeps s u
Keeps-trans s t u a b = record {
  same_current = b.same_current ∙ a.same_current;
  same_stack = b.same_stack ∙ a.same_stack;
  same_ready = b.same_ready ∙ a.same_ready;
  front = b.front ++ a.front;
  back = a.back ++ b.back;
  grown =
      b.grown
      ∙ ap (λ l. b.front ++ (l ++ b.back)) a.grown
      ∙ regroup b.front a.front s.new_tasks a.back b.back;
  living = λ p l. b.living p (a.living p l);
  was_made = λ p l. made_before p (b.was_made p l);
  was_idle = λ p l. idle_before p (Bool-cases (listed p a.back)) l;
}
  where
    made_before :
        (p : ℕ)
        → (listed p t.all_tasks ≡ true) ⊎ (listed p b.front ≡ true)
        → (listed p s.all_tasks ≡ true) ⊎ (listed p (b.front ++ a.front) ≡ true)
    made_before p (inr m) = inr (ground (arith, listed-append p b.front a.front))
    made_before p (inl m) = elim (a.was_made p m) [
      | inl l ↦ inl l
      | inr l ↦ inr (listed-append p b.front a.front ∙ or_true (listed p b.front) l)
    ]
      where
        or_true : (x : Bool) {y : Bool} → y ≡ true → (x || y) ≡ true
        or_true true e = refl
        or_true false e = e

    idle_before :
        (p : ℕ)
        → (listed p a.back ≡ true) ⊎ (listed p a.back ≡ false)
        → listed p (a.back ++ b.back) ≡ true
        → IsIdle s p
    idle_before p (inl e) l = a.was_idle p e
    idle_before p (inr e) l =
        let (old, not_ready, not_new) =
          b.was_idle p (ground (arith, listed-append p a.back b.back)) in
        let n : (listed p a.front || (listed p s.new_tasks || listed p a.back)) ≡ false =
          sym (
            listed-append p a.front (s.new_tasks ++ a.back)
            ∙ ap (λ x. listed p a.front || x) (listed-append p s.new_tasks a.back))
          ∙ sym (ap (listed p) a.grown)
          ∙ not_new in
        (
          made_or_old p (a.was_made p old) (ground arith),
          ap (listed p) (sym a.same_ready) ∙ not_ready,
          ground arith,
        )
      where
        made_or_old :
            (p : ℕ)
            → (listed p s.all_tasks ≡ true) ⊎ (listed p a.front ≡ true)
            → listed p a.front ≡ false
            → listed p s.all_tasks ≡ true
        made_or_old p (inl m) e = m
        made_or_old p (inr m) e = absurd (ground arith)

    regroup : (k l m n o : List ℕ) → k ++ ((l ++ (m ++ n)) ++ o) ≡ (k ++ l) ++ (m ++ (n ++ o))
    regroup k l m n o = simp append_assoc

-- A single call, on a task that is not destroyed.
pub data Op : Type 0 where
  makes : Op
  suspends : ℕ → Op
  resumes : ℕ → Op
  suspends_slave : ℕ → Op
  resumes_slave : ℕ → Op
  deletes : ℕ → Op
  refs : ℕ → Op
  unrefs : ℕ → Op

abbrev pub exec : Op → Tasks → Run Tasks
exec makes s = new_task s
exec (suspends p) s = suspend p s
exec (resumes p) s = resume p s
exec (suspends_slave p) s = suspend_slave p s
exec (resumes_slave p) s = resume_slave p s
exec (deletes p) s = delete p s
exec (refs p) s = done (inc_ref_count p s)
exec (unrefs p) s = done (dec_ref_count p s)

abbrev pub IsLive : Op → Tasks → Type 0
IsLive makes s = Unit {0}
IsLive (suspends p) s = listed p s.all_tasks ≡ true
IsLive (resumes p) s = listed p s.all_tasks ≡ true
IsLive (suspends_slave p) s = listed p s.all_tasks ≡ true
IsLive (resumes_slave p) s = listed p s.all_tasks ≡ true
IsLive (deletes p) s = listed p s.all_tasks ≡ true
IsLive (refs p) s = listed p s.all_tasks ≡ true
IsLive (unrefs p) s = listed p s.all_tasks ≡ true

module _ (s : Tasks) (v : IsSound s) (p : ℕ) where
  resume_internal-Goes : listed p s.all_tasks ≡ true → Returns (resume_internal p s) (λ t. Goes s t)
  resume_internal-Goes l = elim (Bool-cases (listed p s.new_tasks)) [
    | inl e ↦ rw e (v, Keeps-refl s)
    | inr e ↦ elim (Bool-cases (listed p s.ready_tasks)) [
      | inl f ↦ rw (e, f) (v, Keeps-refl s)
      | inr f ↦
          rw (e, f)
            (
              add_new-IsSound s v p l e f,
              record {
                same_current = refl;
                same_stack = refl;
                same_ready = refl;
                front = [];
                back = p ∷ [];
                grown = refl;
                living = λ q m. m;
                was_made = λ q m. inl m;
                was_idle = λ q m. resumed_idle q m e f;
              },
            )
    ]
  ]
    where
      resumed_idle :
          (q : ℕ)
          → listed q (p ∷ []) ≡ true
          → listed p s.new_tasks ≡ false
          → listed p s.ready_tasks ≡ false
          → IsIdle s q
      resumed_idle q m e f = let y : p ≡ q = ground arith in subst (λ x. IsIdle s x) y (l, f, e)

  pub unprotect-Goes : Goes s (dec_ref_count p s)
  unprotect-Goes =
      if_both (λ t. Goes s t) (ltb 0 (s.task p).ref_count)
        (set_task p (record (s.task p) { ref_count = (s.task p).ref_count - 1 }) s) s
        (set_task-Goes s v p _ refl refl) (v, Keeps-refl s)

module _ (s : Tasks) (v : IsSound s) where
  resumed-Goes :
      (p : ℕ) (t : Task)
      → listed p s.all_tasks ≡ true
      → t.running ≡ (s.task p).running
      → t.deleting ≡ (s.task p).deleting
      → Returns (resumed p t s) (λ u. Goes s u)
  resumed-Goes p t l e f =
      let (w, k) = set_task-Goes s v p t e f in
      if_both (λ r. Returns r (λ u. Goes s u)) (is_suspended t) (done (set_task p t s))
        (resume_internal p (set_task p t s)) (w, k)
        (further (resume_internal p (set_task p t s)) k
          (resume_internal-Goes (set_task p t s) w p l))
    where
      further :
          (r : Run Tasks)
          → Keeps s (set_task p t s)
          → Returns r (λ u. Goes (set_task p t s) u)
          → Returns r (λ u. Goes s u)
      further fault k h = h
      further no_fuel k h = h
      further (done u) k (w, h) = (w, Keeps-trans s (set_task p t s) u k h)

  pub exec-Goes : (op : Op) → IsLive op s → Returns (exec op s) (λ t. Goes s t)
  exec-Goes makes l = new_task-Goes s v
  exec-Goes (suspends p) l =
      if_both (λ r. Returns r (λ t. Goes s t)) (s.task p).suspended (done s) _ (v, Keeps-refl s)
        (set_task-Goes s v p _ refl refl)
  exec-Goes (suspends_slave p) l =
      if_both (λ r. Returns r (λ t. Goes s t)) (s.task p).suspended_slave (done s) _
        (v, Keeps-refl s) (set_task-Goes s v p _ refl refl)
  exec-Goes (resumes p) l =
      if_both (λ r. Returns r (λ t. Goes s t)) (s.task p).suspended _ (done s)
        (resumed-Goes p (record (s.task p) { suspended = false }) l refl refl) (v, Keeps-refl s)
  exec-Goes (resumes_slave p) l =
      if_both (λ r. Returns r (λ t. Goes s t)) (s.task p).suspended_slave _ (done s)
        (resumed-Goes p (record (s.task p) { suspended_slave = false }) l refl refl)
        (v, Keeps-refl s)
  exec-Goes (deletes p) l =
      if_both (λ r. Returns r (λ t. Goes s t)) (p == 0) (done s) (delete_later p s)
        (v, Keeps-refl s) (delete_later-Goes s v p l)
  exec-Goes (refs p) l = set_task-Goes s v p _ refl refl
  exec-Goes (unrefs p) l = unprotect-Goes s v p
