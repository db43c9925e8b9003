-- ===== src/Scheduler/Destroying.antt =====
-- The destructor of SMTask (SMTask.cc).
use lftp.Prelude.{
  ℕ, ◌≡◌, ◌≢◌, ◌<◌, sym, ◌∙◌, subst, true, false, inl, inr, Bool-cases, ◌∷◌, arith, ◌==◌,
}
use lftp.Scheduler.{Tasks, done, listed, without, destroy, is_busy}
use lftp.Scheduler.Links.{
  listed-without, listed-remove_listed, Distinct-without, Distinct-remove_listed, count,
}
use lftp.Scheduler.Sound.{IsSound}
use lftp.Scheduler.Drops.{lose, IsDying}

module _ (s : Tasks) (v : IsSound s) (p : ℕ) (l : listed p s.deleted_tasks ≡ true)
    (b : is_busy (s.task p) ≡ false) where
  abbrev taken_off : Tasks
  taken_off = record s { deleted_tasks = without p s.deleted_tasks }

  idle_now : (s.task p).running ≡ 0
  idle_now = ground arith

  off_stack : p ≢ 0 → count p (s.current ∷ s.stack) ≡ 0
  off_stack z = sym (v.counted p z) ∙ idle_now

  removed-IsSound : IsSound (lose p taken_off)
  removed-IsSound = record {
    all_distinct = Distinct-without p s.all_tasks v.all_distinct;
    ready_distinct = Distinct-remove_listed p s.ready_tasks v.ready_distinct;
    new_distinct = Distinct-remove_listed p s.new_tasks v.new_distinct;
    deleted_distinct = Distinct-without p s.deleted_tasks v.deleted_distinct;
    ready_live = λ q m.
        still_all q (ground (arith, listed-remove_listed q p s.ready_tasks v.ready_distinct)) (
          v.ready_live q (ground (arith, listed-remove_listed q p s.ready_tasks v.ready_distinct)));
    new_live = λ q m.
        still_all q (ground (arith, listed-remove_listed q p s.new_tasks v.new_distinct))
          (v.new_live q (ground (arith, listed-remove_listed q p s.new_tasks v.new_distinct)));
    deleted_live = λ q m.
        still_all q (ground (arith, listed-without q p s.deleted_tasks v.deleted_distinct)) (
          v.deleted_live q (ground (arith, listed-without q p s.deleted_tasks v.deleted_distinct)));
    stack_live = λ q z m. still_all q (other q z m) (v.stack_live q z m);
    apart = λ q m. ground (
      arith,
      v.apart q,
      listed-remove_listed q p s.ready_tasks v.ready_distinct,
      listed-remove_listed q p s.new_tasks v.new_distinct,
    );
    marked = λ q m. ground (
      arith,
      v.marked q,
      listed-without q p s.all_tasks v.all_distinct,
      listed-without q p s.deleted_tasks v.deleted_distinct,
    );
    counted = v.counted;
    given = λ q m. v.given q (ground (arith, listed-without q p s.all_tasks v.all_distinct));
  }
    where
      still_all :
          (q : ℕ)
          → (q == p) ≡ false
          → listed q s.all_tasks ≡ true
          → listed q (without p s.all_tasks) ≡ true
      still_all q e m = ground (arith, listed-without q p s.all_tasks v.all_distinct)

      other : (q : ℕ) → q ≢ 0 → 0 < count q (s.current ∷ s.stack) → (q == p) ≡ false
      other q z m = elim (Bool-cases (q == p)) [
        | inl e ↦
            let y : q ≡ p = ground arith in
            absurd (
              none (subst (λ x. 0 < count x (s.current ∷ s.stack)) y m)
                (off_stack (subst (λ x. x ≢ 0) y z)))
        | inr e ↦ e
      ]
        where
          none : 0 < count p (s.current ∷ s.stack) → count p (s.current ∷ s.stack) ≡ 0 → ⊥
          none a b = omega arith

  -- A task that is taken off the list of those to be deleted is to be destroyed.
  pub taken_off-IsDying : IsDying p taken_off
  taken_off-IsDying = record {
    sound = removed-IsSound;
    present = v.deleted_live p l;
    unlisted = ground (arith, listed-without p p s.deleted_tasks v.deleted_distinct);
    marked = sym (v.marked p (v.deleted_live p l)) ∙ l;
    idle = b;
  }

-- No assertion of the destructor fails for it.
pub destroy-lose : (p : ℕ) (t : Tasks) → IsDying p t → destroy p t ≡ done (lose p t)
unfolding destroy
destroy-lose p t v = ground (arith, v.idle, v.marked, v.present, v.unlisted)
