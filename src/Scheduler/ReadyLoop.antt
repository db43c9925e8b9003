-- ===== src/Scheduler/ReadyLoop.antt =====
-- The loop of `Schedule` over the ready tasks (SMTask.cc).
use lftp.Prelude.{
  ℕ, zero, suc, ◌+◌, ◌≡◌, ◌<◌, ◌⊎◌, refl, sym, ap, ◌∙◌, subst, Bool, true, inl, inr, ◌||◌, List, [],
  ◌∷◌, ◌++◌, append_assoc, arith, length, if_nonzero,
}
use lftp.Scheduler.{
  Tasks, Run, fault, no_fuel, done, ◌>>=◌, listed, without, Do, schedule_this, head_or, next_of,
  protect, unprotect, schedule_new, ready_loop,
}
use lftp.Scheduler.Links.{
  Distinct, Distinct-before, without-middle, listed-middle, Returns, Returns-bind,
}
use lftp.Scheduler.Sound.{IsSound, Goes}
use lftp.Scheduler.Turns.{HasDepth, MakesCalls, TakenOff, Turns, turn_protected, unprotect-Quiet}
use lftp.Scheduler.Rounds.{Ran, next_of-middle}
use lftp.Scheduler.NewLoop.{schedule_new-Follows}

-- What rounds of the loop leave: no task is destroyed.
pub record Stays (s t : Tasks) : Type 0 where
  pub sound : IsSound t
  pub same_current : t.current ≡ s.current
  pub same_stack : t.stack ≡ s.stack
  pub living : (p : ℕ) → listed p s.all_tasks ≡ true → listed p t.all_tasks ≡ true

pub Stays-trans : (s t u : Tasks) → Stays s t → Stays t u → Stays s u
Stays-trans s t u a b = record {
  sound = b.sound;
  same_current = b.same_current ∙ a.same_current;
  same_stack = b.same_stack ∙ a.same_stack;
  living = λ p l. b.living p (a.living p l);
}

pub Ran-Stays : (s t : Tasks) → Ran s t → Stays s t
Ran-Stays s t r = record {
  sound = r.sound;
  same_current = r.same_current;
  same_stack = r.same_stack;
  living = r.living;
}

Goes-Stays : (s t : Tasks) → Goes s t → Stays s t
Goes-Stays s t (v, k) = record {
  sound = v;
  same_current = k.same_current;
  same_stack = k.same_stack;
  living = k.living;
}

TakenOff-Stays : (p : ℕ) (s t : Tasks) → TakenOff p s t → Stays s t
TakenOff-Stays p s t x = record {
  sound = x.sound;
  same_current = x.same_current;
  same_stack = x.same_stack;
  living = λ q l. ap (listed q) x.same_all ∙ l;
}

unprotect-Stays : (s : Tasks) → IsSound s → (q : ℕ) → Stays s (unprotect q s)
unprotect-Stays s v q =
    let k = unprotect-Quiet s v q in
    record {
      sound = k.sound;
      same_current = k.same_current;
      same_stack = k.same_stack;
      living = λ p l. ap (listed p) k.same_all ∙ l;
    }

pub HasDepth-Stays : (depth : ℕ) (s t : Tasks) → HasDepth depth s → Stays s t → HasDepth depth t
HasDepth-Stays depth s t h a = subst (λ l. length l + depth < 64) (sym a.same_stack) h

abbrev pub Leaves : Tasks → Run (Bool × Tasks) → Type 0
Leaves s r = Returns r (λ r. Stays s r.1)

Leaves-trans : (s t : Tasks) (r : Run (Bool × Tasks)) → Stays s t → Leaves t r → Leaves s r
Leaves-trans s t fault a h = h
Leaves-trans s t no_fuel a h = h
Leaves-trans s t (done (m, u)) a h = Stays-trans s t u a h

module _ (depth : ℕ) (act : Do) (c : MakesCalls depth act) where
  abbrev LoopLeaves : ℕ → Type 0
  LoopLeaves fuel =
      (pre : List ℕ) (y : ℕ) (l : List ℕ) (m : Bool) (t : Tasks)
      → IsSound t
      → HasDepth depth t
      → t.ready_tasks ≡ pre ++ y ∷ l
      → length (y ∷ l) < fuel
      → Leaves t (ready_loop act fuel y (head_or 0 l) m t)

  ready_loop-head :
      (fuel n : ℕ) (m : Bool) (s : Tasks)
      → 0 < fuel
      → IsSound s
      → Leaves s (ready_loop act fuel 0 n m s)
  unfolding ready_loop
  ready_loop-head zero n m s f v = absurd (omega arith)
  ready_loop-head (suc fuel) n m s f v = record {
    sound = v;
    same_current = refl;
    same_stack = refl;
    living = λ p l. l;
  }

  -- The node that was protected is still ready.
  goes_on :
      (fuel : ℕ)
      → LoopLeaves fuel
      → (pre suf : List ℕ) (m : Bool) (s u : Tasks) → HasDepth depth s
      → Stays s u
      → u.ready_tasks ≡ pre ++ suf
      → length suf < fuel
      → Leaves s (
          next_of (head_or 0 suf) u.ready_tasks
          >>= (λ n. ready_loop act fuel (head_or 0 suf) n m u))
  goes_on fuel ih pre [] m s u h r e f =
      Leaves-trans s u (ready_loop act fuel 0 (head_or 0 u.ready_tasks) m u) r
        (ready_loop-head fuel (head_or 0 u.ready_tasks) m u (omega arith) r.sound)
  goes_on fuel ih pre (y ∷ suf) m s u h r e f =
      let z =
        (r.sound.given y (r.sound.ready_live y (ap (listed y) e ∙ listed-middle y pre suf))).0 in
      subst (λ n. Leaves s (n >>= (λ n. ready_loop act fuel y n m u)))
        (sym (next_of-middle y pre suf u.ready_tasks z r.sound.ready_distinct e))
        (Leaves-trans s u (ready_loop act fuel y (head_or 0 suf) m u) r
          (ih pre y suf m u r.sound (HasDepth-Stays depth s u h r) e f))

  -- What a turn of `p` leaves of the ready tasks before and behind it.
  turn_left :
      (s t : Tasks) (p : ℕ) (pre suf : List ℕ)
      → IsSound s
      → s.ready_tasks ≡ pre ++ p ∷ suf
      → Goes s t ⊎ TakenOff p s t
      → Stays s t × ((l : List ℕ) × (t.ready_tasks ≡ l ++ suf))
  turn_left s t p pre suf v e (inl (x, k)) = (
    Goes-Stays s t (x, k),
    (pre ++ p ∷ [], k.same_ready ∙ e ∙ sym (append_assoc pre (p ∷ []) suf)),
  )
  turn_left s t p pre suf v e (inr x) =
      let d = Distinct-before p pre suf (subst Distinct e v.ready_distinct) in
      (TakenOff-Stays p s t x, (pre, x.less_ready ∙ ap (without p) e ∙ without-middle p pre suf d))

  ready_loop-Leaves : (fuel : ℕ) → LoopLeaves fuel
  unfolding ready_loop
  ready_loop-Leaves zero pre p suf m s v h e o = absurd (omega arith)
  ready_loop-Leaves (suc fuel) pre p suf m s v h e o =
      let next = head_or 0 suf in
      let l : listed p s.ready_tasks ≡ true = ap (listed p) e ∙ listed-middle p pre suf in
      let goes = λ (b : Bool) (r : Bool × Tasks).
        next_of next (unprotect next r.1).ready_tasks
        >>= (λ n. ready_loop act fuel next n (m || (b || r.0)) (unprotect next r.1)) in
      subst (λ r. Leaves s r) (sym (if_nonzero p _ _ (v.given p (v.ready_live p l)).0))
        (Returns-bind (λ r. Turns p s r) (λ r. Stays s r.1) (schedule_this act p (protect next s))
          (λ r. schedule_new act r.1 >>= goes r.0) (turn_protected depth act c s p next v h l)
          (λ (b, t) w.
            let (k, (front, f)) = turn_left s t p pre suf v e w in
            Returns-bind (λ r. Ran t r.1) (λ r. Stays s r.1) (schedule_new act t) (goes b)
              (schedule_new-Follows depth act c t k.sound (HasDepth-Stays depth s t h k))
              (λ (b', u) n.
                let k' = unprotect-Quiet u n.sound next in
                goes_on fuel (ready_loop-Leaves fuel) (n.before ++ front) suf (m || (b || b')) s
                  (unprotect next u) h
                  (Stays-trans s u (unprotect next u) (Stays-trans s t u k (Ran-Stays t u n))
                    (unprotect-Stays u n.sound next))
                  (k'.same_ready
                    ∙ n.ready_behind
                    ∙ ap (λ l. n.before ++ l) f
                    ∙ sym (append_assoc n.before front suf))
                  (omega arith))))

  pub from_head :
      (fuel : ℕ) (m : Bool) (s : Tasks)
      → length s.ready_tasks < fuel
      → IsSound s
      → HasDepth depth s
      → Leaves s (
          next_of (head_or 0 s.ready_tasks) s.ready_tasks
          >>= (λ n. ready_loop act fuel (head_or 0 s.ready_tasks) n m s))
  from_head fuel m s f v h = from s.ready_tasks refl f
    where
      from :
          (l : List ℕ)
          → s.ready_tasks ≡ l
          → length l < fuel
          → Leaves s (next_of (head_or 0 l) l >>= (λ n. ready_loop act fuel (head_or 0 l) n m s))
      from [] e f = ready_loop-head fuel 0 m s (omega arith) v
      from (p ∷ l) e f =
          let z = (v.given p (v.ready_live p (ap (listed p) e ∙ listed-middle p [] l))).0 in
          subst (λ n. Leaves s (n >>= (λ n. ready_loop act fuel p n m s)))
            (sym (next_of-middle p [] l (p ∷ l) z (subst Distinct e v.ready_distinct) refl))
            (ready_loop-Leaves fuel [] p l m s v h e f)
