-- ===== src/Scheduler/Rounds.antt =====
-- Rounds of the loops of the scheduler (SMTask.cc): what turns leave, and the node behind another.
use lftp.Prelude.{
  ℕ, ◌≡◌, ◌≢◌, refl, sym, ap, ◌∙◌, subst, Bool, true, false, List, [], ◌∷◌, ◌++◌, append_assoc,
  arith, if_nonzero,
}
use lftp.Scheduler.{
  Tasks, Run, fault, no_fuel, done, listed, without, head_or, behind, next_of, moved_to_ready,
}
use lftp.Scheduler.Links.{
  Distinct, listed-without, Distinct-without, Distinct-before, behind-middle, Returns,
}
use lftp.Scheduler.Sound.{IsSound}

-- What a number of turns leaves: the ready tasks, behind others.
pub record Ran (s t : Tasks) : Type 0 where
  pub sound : IsSound t
  pub same_current : t.current ≡ s.current
  pub same_stack : t.stack ≡ s.stack
  pub before : List ℕ
  pub ready_behind : t.ready_tasks ≡ before ++ s.ready_tasks
  pub living : (p : ℕ) → listed p s.all_tasks ≡ true → listed p t.all_tasks ≡ true

pub Ran-refl : (s : Tasks) → IsSound s → Ran s s
Ran-refl s v = record {
  sound = v;
  same_current = refl;
  same_stack = refl;
  before = [];
  ready_behind = refl;
  living = λ p l. l;
}

pub Ran-trans : (s t u : Tasks) → Ran s t → Ran t u → Ran s u
Ran-trans s t u a b = record {
  sound = b.sound;
  same_current = b.same_current ∙ a.same_current;
  same_stack = b.same_stack ∙ a.same_stack;
  before = b.before ++ a.before;
  ready_behind =
      b.ready_behind
      ∙ ap (λ l. b.before ++ l) a.ready_behind
      ∙ sym (append_assoc b.before a.before s.ready_tasks);
  living = λ p l. b.living p (a.living p l);
}

-- What follows `t` follows `s`.
abbrev pub Follows : Tasks → Run (Bool × Tasks) → Type 0
Follows s r = Returns r (λ r. Ran s r.1)

pub Follows-trans : (s t : Tasks) (r : Run (Bool × Tasks)) → Ran s t → Follows t r → Follows s r
Follows-trans s t fault a h = h
Follows-trans s t no_fuel a h = h
Follows-trans s t (done (m, u)) a h = Ran-trans s t u a h

-- A new task becomes the first ready one.
pub record Moved (p : ℕ) (s t : Tasks) : Type 0 where
  pub sound : IsSound t
  pub same_current : t.current ≡ s.current
  pub same_stack : t.stack ≡ s.stack
  pub same_all : t.all_tasks ≡ s.all_tasks
  pub less_new : t.new_tasks ≡ without p s.new_tasks
  pub more_ready : t.ready_tasks ≡ p ∷ s.ready_tasks

pub moved_to_ready-Moved :
    (s : Tasks) (p : ℕ)
    → IsSound s
    → listed p s.new_tasks ≡ true
    → Returns (moved_to_ready p s) (λ t. Moved p s t)
moved_to_ready-Moved s p v l =
    rw (l, n)
      (record {
        sound = record {
          all_distinct = v.all_distinct;
          ready_distinct = (n, v.ready_distinct);
          new_distinct = Distinct-without p s.new_tasks v.new_distinct;
          deleted_distinct = v.deleted_distinct;
          ready_live = λ q m. ground (arith, v.ready_live q, v.new_live q);
          new_live =
              λ q m. ground (arith, v.new_live q, listed-without q p s.new_tasks v.new_distinct);
          deleted_live = v.deleted_live;
          stack_live = v.stack_live;
          apart = λ q m. ground (arith, v.apart q, listed-without q p s.new_tasks v.new_distinct);
          marked = v.marked;
          counted = v.counted;
          given = v.given;
        };
        same_current = refl;
        same_stack = refl;
        same_all = refl;
        less_new = refl;
        more_ready = refl;
      })
  where
    n : listed p s.ready_tasks ≡ false
    n = ground (arith, v.apart p)

-- The node behind the first of `l` is that behind it in the whole list.
pub next_of-middle :
    (p : ℕ) (l r t : List ℕ)
    → p ≢ 0
    → Distinct t
    → t ≡ l ++ p ∷ r
    → next_of p t ≡ done (head_or 0 r)
next_of-middle p l r t z d e =
    if_nonzero p (done (head_or 0 t)) (behind p t) z
    ∙ ap (behind p) e
    ∙ behind-middle p l r (Distinct-before p l r (subst Distinct e d))
