-- ===== src/Scheduler/Dying.antt =====
-- What the calls of a destructor on other tasks leave of the lists (SMTask.cc, SMTask.h).
use lftp.Prelude.{
  ℕ, ◌-◌, ◌≡◌, ◌≢◌, refl, sym, ap, ◌∙◌, subst, true, false, inl, inr, Bool-cases, [], ◌∷◌, ◌++◌,
  append-nil, arith, if_both, ltb, ◌==◌,
}
use lftp.Prelude.Write.{write, write_same, write_other}
use lftp.Scheduler.{
  Task, Tasks, Run, fault, no_fuel, done, listed, is_busy, set_task, is_suspended, resume_internal,
  resumed, delete_later,
}
use lftp.Scheduler.Links.{listed-tail, Returns}
use lftp.Scheduler.Sound.{IsSound, Goes, set_task-IsSound, add_new-IsSound, delete_later-Goes}
use lftp.Scheduler.Calls.{
  Op, makes, suspends, resumes, suspends_slave, resumes_slave, deletes, refs, unrefs, exec,
}
use lftp.Scheduler.Drops.{
  no_drops, drop, Dropped, Dropped-refl, Dropped-trans, Drops, IsDrop, IsDying, listed-remove_other,
  listed-without_other, lose, remove_listed-tail,
}

Returns-done : {A : Type 0} (P : A → Type 0) (r : Run A) (a : A) → r ≡ done a → Returns r P → P a
Returns-done P r a e h = subst (λ x. Returns x P) e h

module _ (p : ℕ) (s : Tasks) (v : IsDying p s) (q : ℕ) (n : q ≢ p)
    (l : listed q s.all_tasks ≡ true) where
  in_lost : listed q (lose p s).all_tasks ≡ true
  in_lost = listed-without_other q p s.all_tasks n ∙ l

  -- What holds of each task holds after `q` has changed so that it does.
  at_other :
      {t : Task} (P : Task → Type 0) (r : ℕ)
      → (P (s.task q) → P t)
      → P (s.task r)
      → P (write s.task q t r)
  at_other {t} P r h m = elim (Bool-cases (q == r)) [
    | inl y ↦
        let z : q ≡ r = ground arith in
        subst (λ i. P (write s.task q t i)) z
          (subst P (sym (write_same s.task q t)) (h (subst (λ i. P (s.task i)) (sym z) m)))
    | inr y ↦ subst P (sym (write_other s.task q r t (λ z. ground arith))) m
  ]

  set-Dropped :
      (t : Task)
      → t.running ≡ (s.task q).running
      → t.deleting ≡ (s.task q).deleting
      → (is_busy (s.task q) ≡ false → is_busy t ≡ false)
      → Dropped p s (set_task q t s)
  set-Dropped t e f g = record {
    dying = record {
      sound = set_task-IsSound (lose p s) v.sound q t e f;
      present = v.present;
      unlisted = v.unlisted;
      marked = ap (λ u. u.deleting) (write_other s.task q p t (λ z. n (sym z))) ∙ v.marked;
      idle = ap is_busy (write_other s.task q p t (λ z. n (sym z))) ∙ v.idle;
    };
    same_current = refl;
    same_stack = refl;
    same_all = refl;
    back = [];
    grown = sym (append-nil s.deleted_tasks);
    stays_marked = λ r m. at_other (λ u. u.deleting ≡ true) r (λ y. f ∙ y) m;
    stays_idle = λ r m. at_other (λ u. is_busy u ≡ false) r g m;
  }

  resume_internal-Dropped : Returns (resume_internal q s) (λ t. Dropped p s t)
  resume_internal-Dropped = elim (Bool-cases (listed q s.new_tasks)) [
    | inl e ↦ rw e (Dropped-refl p s v)
    | inr e ↦ elim (Bool-cases (listed q s.ready_tasks)) [
      | inl f ↦ rw (e, f) (Dropped-refl p s v)
      | inr f ↦
          rw (e, f)
            (record {
              dying = record {
                sound =
                    subst (λ k. IsSound (record (lose p s) { new_tasks = k }))
                      (sym (remove_listed-tail q p s.new_tasks n))
                      (add_new-IsSound (lose p s) v.sound q in_lost
                        (listed-remove_other q p s.new_tasks n ∙ e)
                        (listed-remove_other q p s.ready_tasks n ∙ f));
                present = v.present;
                unlisted = v.unlisted;
                marked = v.marked;
                idle = v.idle;
              };
              same_current = refl;
              same_stack = refl;
              same_all = refl;
              back = [];
              grown = sym (append-nil s.deleted_tasks);
              stays_marked = λ r m. m;
              stays_idle = λ r m. m;
            })
    ]
  ]

  delete_later-Dropped : Returns (delete_later q s) (λ t. Dropped p s t)
  delete_later-Dropped = elim (Bool-cases (s.task q).deleting) [
    | inl e ↦ rw e (Dropped-refl p s v)
    | inr e ↦
        let u : listed q s.deleted_tasks ≡ false = v.sound.marked q in_lost ∙ e in
        let t = record (s.task q) { deleting = true } in
        let s' = record (set_task q t s) { deleted_tasks = s.deleted_tasks ++ q ∷ [] } in
        rw (e, u)
          (record {
            dying = record {
              sound =
                  (Returns-done (λ t. Goes (lose p s) t) (delete_later q (lose p s)) (lose p s')
                    (rw (e, u) refl) (delete_later-Goes (lose p s) v.sound q in_lost)).0;
              present = v.present;
              unlisted = listed-tail p q s.deleted_tasks ∙ rw v.unlisted (not_itself p q n);
              marked = ap (λ u. u.deleting) (write_other s.task q p t (λ z. n (sym z))) ∙ v.marked;
              idle = ap is_busy (write_other s.task q p t (λ z. n (sym z))) ∙ v.idle;
            };
            same_current = refl;
            same_stack = refl;
            same_all = refl;
            back = q ∷ [];
            grown = refl;
            stays_marked = λ r m. at_other (λ u. u.deleting ≡ true) r (λ y. refl) m;
            stays_idle = λ r m. at_other (λ u. is_busy u ≡ false) r (λ y. y) m;
          })
  ]
    where
      not_itself : (p q : ℕ) → q ≢ p → (p == q) ≡ false
      not_itself p q n = ground arith

module _ (p : ℕ) (s : Tasks) (v : IsDying p s) (q : ℕ) (n : q ≢ p)
    (l : listed q s.all_tasks ≡ true) where
  resumed-Dropped :
      (t : Task)
      → t.running ≡ (s.task q).running
      → t.deleting ≡ (s.task q).deleting
      → t.ref_count ≡ (s.task q).ref_count
      → Returns (resumed q t s) (λ u. Dropped p s u)
  resumed-Dropped t e f g =
      let a = set-Dropped p s v q n l t e f (λ y. ground (arith, e, g)) in
      if_both (λ r. Returns r (λ u. Dropped p s u)) (is_suspended t) (done (set_task q t s))
        (resume_internal q (set_task q t s)) a
        (further (resume_internal q (set_task q t s)) a
          (resume_internal-Dropped p (set_task q t s) a.dying q n l))
    where
      further :
          (r : Run Tasks)
          → Dropped p s (set_task q t s)
          → Returns r (λ u. Dropped p (set_task q t s) u)
          → Returns r (λ u. Dropped p s u)
      further fault k h = h
      further no_fuel k h = h
      further (done u) k h = Dropped-trans p s (set_task q t s) u k h

pub exec-Dropped :
    (p : ℕ) (s : Tasks)
    → IsDying p s
    → (op : Op) → IsDrop p op s
    → Returns (exec op s) (λ t. Dropped p s t)
exec-Dropped p s v makes x = absurd x
exec-Dropped p s v (refs q) x = absurd x
exec-Dropped p s v (suspends q) (n, l) =
    if_both (λ r. Returns r (λ t. Dropped p s t)) (s.task q).suspended (done s) _
      (Dropped-refl p s v) (set-Dropped p s v q n l _ refl refl (λ y. y))
exec-Dropped p s v (suspends_slave q) (n, l) =
    if_both (λ r. Returns r (λ t. Dropped p s t)) (s.task q).suspended_slave (done s) _
      (Dropped-refl p s v) (set-Dropped p s v q n l _ refl refl (λ y. y))
exec-Dropped p s v (resumes q) (n, l) =
    if_both (λ r. Returns r (λ t. Dropped p s t)) (s.task q).suspended _ (done s)
      (resumed-Dropped p s v q n l (record (s.task q) { suspended = false }) refl refl refl)
      (Dropped-refl p s v)
exec-Dropped p s v (resumes_slave q) (n, l) =
    if_both (λ r. Returns r (λ t. Dropped p s t)) (s.task q).suspended_slave _ (done s)
      (resumed-Dropped p s v q n l (record (s.task q) { suspended_slave = false }) refl refl refl)
      (Dropped-refl p s v)
exec-Dropped p s v (deletes q) (n, l) =
    if_both (λ r. Returns r (λ t. Dropped p s t)) (q == 0) (done s) (delete_later q s)
      (Dropped-refl p s v) (delete_later-Dropped p s v q n l)
exec-Dropped p s v (unrefs q) (n, l) =
    if_both (λ t. Dropped p s t) (ltb 0 (s.task q).ref_count)
      (set_task q (record (s.task q) { ref_count = (s.task q).ref_count - 1 }) s) s
      (set-Dropped p s v q n l _ refl refl (λ y. ground arith)) (Dropped-refl p s v)

pub Drops-Dropped : {p : ℕ} {s t : Tasks} → Drops p s t → IsDying p s → Dropped p s t
Drops-Dropped {p} {s} no_drops v = Dropped-refl p s v
Drops-Dropped {p} {s} {t = u} (drop {t = t} op x e r) v =
    let a = Returns-done (λ t. Dropped p s t) (exec op s) t e (exec-Dropped p s v op x) in
    Dropped-trans p s t u a (Drops-Dropped r a.dying)
