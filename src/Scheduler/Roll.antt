-- ===== src/Scheduler/Roll.antt =====
-- `Roll` (SMTask.cc): what it does is by calls, so that a `Do` may roll other tasks.
use lftp.Prelude.{
  ℕ, zero, suc, ◌+◌, ◌≡◌, ◌≤◌, arith, length, subst, sym, refl, ◌∙◌, Bool, true, false, not, ◌||◌,
  if_cases, if_both, ◌==◌, if◌then◌else◌,
}
use lftp.Scheduler.{
  Tasks, Run, fault, no_fuel, done, ◌>>=◌, listed, enter, leave, Do, then_leave, roll_loop, roll,
}
use lftp.Scheduler.Links.{Returns}
use lftp.Scheduler.Sound.{IsSound, Goes}
use lftp.Scheduler.Nesting.{
  Calls, no_calls, call, rolls, Calls-Goes, Entered, enter-Entered, leave-Goes,
}
use lftp.Scheduler.Turns.{HasDepth, MakesCalls}

Calls-append : {s t u : Tasks} → Calls s t → Calls t u → Calls s u
Calls-append no_calls d = d
Calls-append (call op l e c) d = call op l e (Calls-append c d)
Calls-append (rolls p l e c f r) d = rolls p l e c f (Calls-append r d)

-- A call is made, if it ends.
abbrev pub Made : Tasks → Run (Bool × Tasks) → Type 0
Made s fault = ⊥
Made s no_fuel = Unit {0}
Made s (done (m, t)) = Calls s t

Made-append : (s t : Tasks) (r : Run (Bool × Tasks)) → Calls s t → Made t r → Made s r
Made-append s t fault c h = h
Made-append s t no_fuel c h = h
Made-append s t (done (m, u)) c h = Calls-append c h

module _ (depth : ℕ) (act : Do) (c : MakesCalls depth act) (p : ℕ) where
  roll_loop-Made :
      (fuel : ℕ) (m : Bool) (s : Tasks)
      → IsSound s
      → s.current ≡ p
      → length s.stack + depth ≤ 64
      → Made s (roll_loop act fuel p m s)
  unfolding roll_loop
  roll_loop-Made zero m s v e h = tt
  roll_loop-Made (suc fuel) m s v e h =
      if_cases (λ r. Made s r) (s.task p).deleting (done (m, s)) _ (λ y. no_calls)
        (λ y. turn (act p s) (c p s v e h) (λ t. roll_loop-Made fuel true t))
    where
      turn :
          (r : Run (Bool × Tasks))
          → Returns r (λ r. Calls s r.1)
          → ((t : Tasks)
              → IsSound t
              → t.current ≡ p
              → length t.stack + depth ≤ 64
              → Made t (roll_loop act fuel p true t))
          → Made s (r >>= (λ r. if r.0 then roll_loop act fuel p true r.1 else done (m, r.1)))
      turn fault k ih = k
      turn no_fuel k ih = absurd k
      turn (done (true, t)) k ih =
          let g = Calls-Goes k v in
          Made-append s t (roll_loop act fuel p true t) k (
            ih t g.0 (g.1.same_current ∙ e)
              (subst (λ l. length l + depth ≤ 64) (sym g.1.same_stack) h))
      turn (done (false, t)) k ih = k

  leaves :
      (s t u : Tasks) (m : Bool)
      → listed p s.all_tasks ≡ true
      → enter p s ≡ done t
      → Calls t u
      → (r : Run Tasks) → leave p u ≡ r
      → Returns r (λ w. Goes s w)
      → Made s (r >>= (λ w. done (m, w)))
  leaves s t u m l e k fault f h = h
  leaves s t u m l e k no_fuel f h = absurd h
  leaves s t u m l e k (done w) f h = rolls p l e k f no_calls

  looped :
      (s t : Tasks)
      → IsSound s
      → listed p s.all_tasks ≡ true
      → enter p s ≡ done t
      → Entered p s t
      → (r : Run (Bool × Tasks)) → Made t r
      → Made s (r >>= (λ r. then_leave p r))
  looped s t v l e n fault h = h
  looped s t v l e n no_fuel h = h
  looped s t v l e n (done (m, u)) h =
      leaves s t u m l e h (leave p u) refl
        (leave-Goes s t u p (v.given p l).0 n (Calls-Goes h n.sound))

  entered :
      (fuel : ℕ) (s : Tasks)
      → IsSound s
      → listed p s.all_tasks ≡ true
      → HasDepth depth s
      → (r : Run Tasks) → enter p s ≡ r
      → Returns r (λ t. Entered p s t)
      → Made s (r >>= (λ t. roll_loop act fuel p false t >>= (λ r. then_leave p r)))
  entered fuel s v l d fault e h = h
  entered fuel s v l d no_fuel e h = absurd h
  entered fuel s v l d (done t) e n = looped s t v l e n (roll_loop act fuel p false t) (
      roll_loop-Made fuel false t n.sound n.at_top
        (subst (λ l. length l + depth ≤ 64) (sym n.pushed) (omega (arith, d))))

-- Rolling a task that is not destroyed, with room on the stack for it and for the tasks that are rolled inside, fails
-- no assertion, and what it does, if it ends, is by calls: a `Do` that rolls others does nothing but by calls.
pub roll-Made :
    (depth : ℕ) (act : Do)
    → MakesCalls depth act
    → (p fuel : ℕ) (s : Tasks) → IsSound s
    → HasDepth depth s
    → listed p s.all_tasks ≡ true
    → Made s (roll act fuel p s)
unfolding roll
roll-Made depth act c p fuel s v h l =
    if_both (λ r. Made s r) (not ((s.task p).running == 0) || (s.task p).deleting) (done (false, s))
      _ no_calls
      (entered depth act c p fuel s v l h (enter p s) refl
        (enter-Entered s v p (omega (arith, h)) l))
