-- ===== src/Scheduler/NewLoop.antt =====
-- The loop of `ScheduleNew` (SMTask.cc): the node that it goes on with is still on the list, and it ends.
use lftp.Prelude.{
  ℕ, zero, suc, ◌+◌, ◌*◌, ◌≡◌, ◌≤◌, ◌<◌, ◌⊎◌, refl, sym, ap, ◌∙◌, subst, Bool, true, false, inl,
  inr, ◌||◌, List, [], ◌∷◌, ◌++◌, arith, length, if_nonzero,
}
use lftp.Scheduler.{
  Tasks, ◌>>=◌, listed, Do, schedule_this, head_or, next_of, protect, unprotect, moved_to_ready,
  new_loop, enough, schedule_new,
}
use lftp.Scheduler.Links.{Distinct, Distinct-length, listed-middle, Returns-bind}
use lftp.Scheduler.Sound.{IsSound, Goes}
use lftp.Scheduler.Turns.{
  HasDepth, MakesCalls, TakenOff, Turns, Turns-Quiet, unprotect-Quiet, turn_protected,
}
use lftp.Scheduler.Rounds.{
  Ran, Ran-refl, Follows, Follows-trans, Moved, moved_to_ready-Moved, next_of-middle,
}
use lftp.Scheduler.Cover.{Covers, Round, product, kept_Round, off_Round}

HasDepth-Ran : (depth : ℕ) (s t : Tasks) → HasDepth depth s → Ran s t → HasDepth depth t
HasDepth-Ran depth s t h a = subst (λ l. length l + depth < 64) (sym a.same_stack) h

module _ (depth : ℕ) (act : Do) (c : MakesCalls depth act) (n : ℕ) where
  new_loop-head :
      (fuel next : ℕ) (m : Bool) (s : Tasks)
      → 0 < fuel
      → IsSound s
      → Follows s (new_loop act fuel 0 next m s)
  unfolding new_loop
  new_loop-head zero next m s f v = absurd (omega arith)
  new_loop-head (suc fuel) next m s f v = Ran-refl s v

  abbrev LoopFollows : ℕ → Type 0
  LoopFollows fuel =
      (pre : List ℕ) (y : ℕ) (l w : List ℕ) (m : Bool) (t : Tasks)
      → IsSound t
      → HasDepth depth t
      → t.new_tasks ≡ pre ++ y ∷ l
      → Covers n w (y ∷ l) t
      → length w * (n + 1) + length (y ∷ l) < fuel
      → Follows t (new_loop act fuel y (head_or 0 l) m t)

  -- The loop goes on with the node that was protected.
  goes_on :
      (fuel : ℕ)
      → LoopFollows fuel
      → (suf : List ℕ) (m : Bool) (s u : Tasks) → HasDepth depth s
      → Round fuel n s u suf
      → Follows s
          (next_of (head_or 0 suf) u.new_tasks >>= (λ x. new_loop act fuel (head_or 0 suf) x m u))
  goes_on fuel ih [] m s u h r =
      Follows-trans s u (new_loop act fuel 0 (head_or 0 u.new_tasks) m u) r.ran
        (new_loop-head fuel (head_or 0 u.new_tasks) m u (positive r.enough_left) r.ran.sound)
    where
      positive : {a b : ℕ} → a < b → 0 < b
      positive l = omega arith
  goes_on fuel ih (y ∷ suf) m s u h r =
      let l = suf ++ r.back in
      let v = r.ran.sound in
      let z = (v.given y (v.new_live y (ap (listed y) r.ahead ∙ listed-middle y r.pre l))).0 in
      subst (λ x. Follows s (x >>= (λ x. new_loop act fuel y x m u)))
        (sym (next_of-middle y r.pre l u.new_tasks z v.new_distinct r.ahead))
        (Follows-trans s u (new_loop act fuel y (head_or 0 l) m u) r.ran
          (ih r.pre y l r.w m u v (HasDepth-Ran depth s u h r.ran) r.ahead r.covers r.enough_left))

  new_loop-Follows : (fuel : ℕ) → LoopFollows fuel
  unfolding new_loop
  new_loop-Follows zero pre p suf w m s v h e o f = absurd (omega arith)
  new_loop-Follows (suc fuel) pre p suf w m s v h e o f =
      let next = head_or 0 suf in
      let l : listed p s.new_tasks ≡ true = ap (listed p) e ∙ listed-middle p pre suf in
      let after = λ (s1 : Tasks) (r : Bool × Tasks).
        next_of next (unprotect next r.1).new_tasks
        >>= (λ x. new_loop act fuel next x (m || r.0) (unprotect next r.1)) in
      subst (λ r. Follows s r) (sym (if_nonzero p _ _ (v.given p (v.new_live p l)).0))
        (Returns-bind (λ t. Moved p s t) (λ r. Ran s r.1) (moved_to_ready p s) _
          (moved_to_ready-Moved s p v l)
          (λ s1 k.
            Returns-bind (λ r. Turns p s1 r) (λ r. Ran s r.1)
              (schedule_this act p (protect next s1)) (after s1)
              (turn_protected depth act c s1 p next k.sound
                (subst (λ l. length l + depth < 64) (sym k.same_stack) h)
                (ap (listed p) k.more_ready ∙ first p s.ready_tasks))
              (λ (b, t) x.
                goes_on fuel (new_loop-Follows fuel) suf (m || b) s (unprotect next t) h (
                  rounds s s1 (unprotect next t) p pre suf w v e k o f (
                    Turns-Quiet p s1 t (unprotect next t) x
                      (unprotect-Quiet t (sound_of s1 t p x) next))))))
    where
      first : (p : ℕ) (l : List ℕ) → listed p (p ∷ l) ≡ true
      first p l = ground arith

      sound_of : (s t : Tasks) (p : ℕ) → Goes s t ⊎ TakenOff p s t → IsSound t
      sound_of s t p (inl x) = x.0
      sound_of s t p (inr x) = x.sound

      rounds :
          (s t u : Tasks) (p : ℕ) (pre suf w : List ℕ) (v : IsSound s)
          (e : s.new_tasks ≡ pre ++ p ∷ suf) (k : Moved p s t) (c : Covers n w (p ∷ suf) s)
          (f : length w * (n + 1) + length (p ∷ suf) < suc fuel)
          → Goes t u ⊎ TakenOff p t u
          → Round fuel n s u suf
      rounds s t u p pre suf w v e k c f (inl x) = kept_Round fuel n s t u p pre suf w v e k c f x
      rounds s t u p pre suf w v e k c f (inr x) = off_Round fuel n s t u p pre suf w v e k c f x

-- All tasks cover those ahead.
all-Covers :
    (s : Tasks)
    → IsSound s
    → (l : List ℕ) → s.new_tasks ≡ l
    → Covers (length s.all_tasks) s.all_tasks l s
all-Covers s v l e = record {
  distinct = v.all_distinct;
  few = omega arith;
  has_ahead = λ q m. v.new_live q (ap (listed q) e ∙ m);
  has_idle = λ q i. i.0;
}

enough-lt : (n m : ℕ) → m ≤ n → n * (n + 1) + m < enough n
enough-lt n m l = omega (arith, product n (n + 1), sym (product n (n + 1)))

pub schedule_new-Follows :
    (depth : ℕ) (act : Do)
    → MakesCalls depth act
    → (s : Tasks) → IsSound s
    → HasDepth depth s
    → Follows s (schedule_new act s)
unfolding schedule_new
schedule_new-Follows depth act c s v h = from s.new_tasks refl
  where
    from :
        (l : List ℕ)
        → s.new_tasks ≡ l
        → Follows s (
            next_of (head_or 0 l) l
            >>= (λ n. new_loop act (enough (length s.all_tasks)) (head_or 0 l) n false s))
    from [] e =
        new_loop-head depth act c 0 (enough (length s.all_tasks)) 0 false s
          (omega (arith, enough-lt (length s.all_tasks) 0)) v
    from (p ∷ l) e =
        let k = all-Covers s v (p ∷ l) e in
        let n = length s.all_tasks in
        let z = (v.given p (v.new_live p (ap (listed p) e ∙ listed-middle p [] l))).0 in
        subst (λ x. Follows s (x >>= (λ x. new_loop act (enough n) p x false s)))
          (sym (next_of-middle p [] l (p ∷ l) z (subst Distinct e v.new_distinct) refl))
          (new_loop-Follows depth act c n (enough n) [] p l s.all_tasks false s v h e k (
            enough-lt n (length (p ∷ l)) (
              Distinct-length (p ∷ l) s.all_tasks (subst Distinct e v.new_distinct) v.all_distinct
                k.has_ahead)))
