-- ===== src/Scheduler/Drops.antt =====
-- What the destructor of a derived class of SMTask may call (SMTask.h), as steps.
use lftp.Prelude.{
  ℕ, ◌≡◌, ◌≢◌, refl, sym, ap, ◌∙◌, true, false, List, [], ◌∷◌, ◌++◌, append-nil, append_assoc,
  arith,
}
use lftp.Scheduler.{Tasks, done, listed, without, remove_listed, is_busy}
use lftp.Scheduler.Links.{listed-tail}
use lftp.Scheduler.Sound.{IsSound}
use lftp.Scheduler.Calls.{
  Op, makes, suspends, resumes, suspends_slave, resumes_slave, deletes, refs, unrefs, exec,
}

-- The lists without `p`, as the destructor of SMTask leaves them.
abbrev pub lose : ℕ → Tasks → Tasks
lose p s = record s {
  all_tasks = without p s.all_tasks;
  ready_tasks = remove_listed p s.ready_tasks;
  new_tasks = remove_listed p s.new_tasks;
}

-- `p` is being destroyed, and the lists are sound but for it.
pub record IsDying (p : ℕ) (s : Tasks) : Type 0 where
  pub sound : IsSound (lose p s)
  pub present : listed p s.all_tasks ≡ true
  pub unlisted : listed p s.deleted_tasks ≡ false
  pub marked : (s.task p).deleting ≡ true
  pub idle : is_busy (s.task p) ≡ false

-- A call on a task other than `p`, not destroyed, that makes no task and no reference.
abbrev pub IsDrop : ℕ → Op → Tasks → Type 0
IsDrop p makes s = ⊥
IsDrop p (suspends q) s = (q ≢ p) × (listed q s.all_tasks ≡ true)
IsDrop p (resumes q) s = (q ≢ p) × (listed q s.all_tasks ≡ true)
IsDrop p (suspends_slave q) s = (q ≢ p) × (listed q s.all_tasks ≡ true)
IsDrop p (resumes_slave q) s = (q ≢ p) × (listed q s.all_tasks ≡ true)
IsDrop p (deletes q) s = (q ≢ p) × (listed q s.all_tasks ≡ true)
IsDrop p (refs q) s = ⊥
IsDrop p (unrefs q) s = (q ≢ p) × (listed q s.all_tasks ≡ true)

pub data Drops (p : ℕ) : Tasks → Tasks → Type 0 where
  no_drops : {s : Tasks} → Drops p s s
  drop : {s t u : Tasks} (op : Op) → IsDrop p op s → exec op s ≡ done t → Drops p t u → Drops p s u

-- What such calls leave.
pub record Dropped (p : ℕ) (s t : Tasks) : Type 0 where
  pub dying : IsDying p t
  pub same_current : t.current ≡ s.current
  pub same_stack : t.stack ≡ s.stack
  pub same_all : t.all_tasks ≡ s.all_tasks
  pub back : List ℕ
  pub grown : t.deleted_tasks ≡ s.deleted_tasks ++ back
  pub stays_marked : (q : ℕ) → (s.task q).deleting ≡ true → (t.task q).deleting ≡ true
  pub stays_idle : (q : ℕ) → is_busy (s.task q) ≡ false → is_busy (t.task q) ≡ false

pub Dropped-refl : (p : ℕ) (s : Tasks) → IsDying p s → Dropped p s s
Dropped-refl p s v = record {
  dying = v;
  same_current = refl;
  same_stack = refl;
  same_all = refl;
  back = [];
  grown = sym (append-nil s.deleted_tasks);
  stays_marked = λ q e. e;
  stays_idle = λ q e. e;
}

pub Dropped-trans : (p : ℕ) (s t u : Tasks) → Dropped p s t → Dropped p t u → Dropped p s u
Dropped-trans p s t u a b = record {
  dying = b.dying;
  same_current = b.same_current ∙ a.same_current;
  same_stack = b.same_stack ∙ a.same_stack;
  same_all = b.same_all ∙ a.same_all;
  back = a.back ++ b.back;
  grown = b.grown ∙ ap (λ l. l ++ b.back) a.grown ∙ append_assoc s.deleted_tasks a.back b.back;
  stays_marked = λ q e. b.stays_marked q (a.stays_marked q e);
  stays_idle = λ q e. b.stays_idle q (a.stays_idle q e);
}

pub listed-without_other : (q p : ℕ) (l : List ℕ) → q ≢ p → listed q (without p l) ≡ listed q l
listed-without_other q p [] n = refl
listed-without_other q p (x ∷ l) n = ground (arith, listed-without_other q p l n)

pub listed-remove_other : (q p : ℕ) (l : List ℕ) → q ≢ p → listed q (remove_listed p l) ≡ listed q l
listed-remove_other q p l n = ground (arith, listed-without_other q p l n)

without-tail : (q p : ℕ) (l : List ℕ) → q ≢ p → without p (l ++ q ∷ []) ≡ without p l ++ q ∷ []
without-tail q p [] n = ground arith
without-tail q p (x ∷ l) n = ground (arith, without-tail q p l n)

pub remove_listed-tail :
    (q p : ℕ) (l : List ℕ) → q ≢ p → remove_listed p (l ++ q ∷ []) ≡ remove_listed p l ++ q ∷ []
remove_listed-tail q p l n = ground (arith, without-tail q p l n, listed-tail p q l)
