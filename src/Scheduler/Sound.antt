-- ===== src/Scheduler/Sound.antt =====
-- The invariant of the scheduler's lists and stack (SMTask.cc).
use lftp.Prelude.{
  ℕ, suc, ◌≡◌, ◌≢◌, ◌≤◌, ◌<◌, ◌⊎◌, refl, sym, ap, ◌∙◌, true, false, inl, inr, Bool-cases, List, [],
  ◌∷◌, ◌++◌, append-nil, arith,
}
use lftp.Scheduler.{Task, Tasks, listed, set_task, new_task, delete_later}
use lftp.Scheduler.Links.{Distinct, listed-tail, Distinct-tail, count, Returns}

pub record IsSound (s : Tasks) : Type 0 where
  pub all_distinct : Distinct s.all_tasks
  pub ready_distinct : Distinct s.ready_tasks
  pub new_distinct : Distinct s.new_tasks
  pub deleted_distinct : Distinct s.deleted_tasks
  -- What is listed or runs is a task that is not destroyed.
  pub ready_live : (p : ℕ) → listed p s.ready_tasks ≡ true → listed p s.all_tasks ≡ true
  pub new_live : (p : ℕ) → listed p s.new_tasks ≡ true → listed p s.all_tasks ≡ true
  pub deleted_live : (p : ℕ) → listed p s.deleted_tasks ≡ true → listed p s.all_tasks ≡ true
  pub stack_live : (p : ℕ) → p ≢ 0 → 0 < count p (s.current ∷ s.stack) → listed p s.all_tasks ≡ true
  pub apart : (p : ℕ) → listed p s.ready_tasks ≡ true → listed p s.new_tasks ≡ false
  -- The tasks to be destroyed are those that are marked, and the running ones those on the stack, as often.
  pub marked :
      (p : ℕ) → listed p s.all_tasks ≡ true → listed p s.deleted_tasks ≡ (s.task p).deleting
  pub counted : (p : ℕ) → p ≢ 0 → (s.task p).running ≡ count p (s.current ∷ s.stack)
  pub given : (p : ℕ) → listed p s.all_tasks ≡ true → (p ≢ 0) × (p ≤ s.made)

-- A task that is on neither list of those to run.
abbrev pub IsIdle : Tasks → ℕ → Type 0
IsIdle s p =
    (listed p s.all_tasks ≡ true)
    × (listed p s.ready_tasks ≡ false)
    × (listed p s.new_tasks ≡ false)

-- What the calls that a task makes leave as it is: the stack, the ready tasks, the order of the new ones, and that
-- no task is destroyed. Tasks that are made stand before the new ones, and those that stand behind them were idle.
pub record Keeps (s t : Tasks) : Type 0 where
  pub same_current : t.current ≡ s.current
  pub same_stack : t.stack ≡ s.stack
  pub same_ready : t.ready_tasks ≡ s.ready_tasks
  pub front : List ℕ
  pub back : List ℕ
  pub grown : t.new_tasks ≡ front ++ (s.new_tasks ++ back)
  pub living : (p : ℕ) → listed p s.all_tasks ≡ true → listed p t.all_tasks ≡ true
  pub was_made :
      (p : ℕ)
      → listed p t.all_tasks ≡ true
      → (listed p s.all_tasks ≡ true) ⊎ (listed p front ≡ true)
  pub was_idle : (p : ℕ) → listed p back ≡ true → IsIdle s p

abbrev pub Goes : Tasks → Tasks → Type 0
Goes s t = IsSound t × Keeps s t

pub Keeps-refl : (s : Tasks) → Keeps s s
Keeps-refl s = record {
  same_current = refl;
  same_stack = refl;
  same_ready = refl;
  front = [];
  back = [];
  grown = sym (append-nil s.new_tasks);
  living = λ p e. e;
  was_made = λ p e. inl e;
  was_idle = λ p e. absurd (ground arith);
}

module _ (s : Tasks) (v : IsSound s) where
  pub set_task-IsSound :
      (p : ℕ) (t : Task)
      → t.running ≡ (s.task p).running
      → t.deleting ≡ (s.task p).deleting
      → IsSound (set_task p t s)
  set_task-IsSound p t e f = record {
    all_distinct = v.all_distinct;
    ready_distinct = v.ready_distinct;
    new_distinct = v.new_distinct;
    deleted_distinct = v.deleted_distinct;
    ready_live = v.ready_live;
    new_live = v.new_live;
    deleted_live = v.deleted_live;
    stack_live = v.stack_live;
    apart = v.apart;
    marked = λ q l. ground (arith, v.marked q l);
    counted = λ q z. ground (arith, v.counted q z);
    given = v.given;
  }

  pub set_task-Goes :
      (p : ℕ) (t : Task)
      → t.running ≡ (s.task p).running
      → t.deleting ≡ (s.task p).deleting
      → Goes s (set_task p t s)
  set_task-Goes p t e f = (
    set_task-IsSound p t e f,
    record {
      same_current = refl;
      same_stack = refl;
      same_ready = refl;
      front = [];
      back = [];
      grown = sym (append-nil s.new_tasks);
      living = λ q l. l;
      was_made = λ q l. inl l;
      was_idle = λ q l. absurd (ground arith);
    },
  )

  -- An address that is not given out is on no list.
  fresh-all : listed (suc s.made) s.all_tasks ≡ false
  fresh-all = ground (arith, v.given (suc s.made))

  fresh-new : listed (suc s.made) s.new_tasks ≡ false
  fresh-new = ground (arith, v.new_live (suc s.made), fresh-all)

  fresh-ready : listed (suc s.made) s.ready_tasks ≡ false
  fresh-ready = ground (arith, v.ready_live (suc s.made), fresh-all)

  fresh-deleted : listed (suc s.made) s.deleted_tasks ≡ false
  fresh-deleted = ground (arith, v.deleted_live (suc s.made), fresh-all)

  fresh-count : count (suc s.made) (s.current ∷ s.stack) ≡ 0
  fresh-count = ground (arith, v.stack_live (suc s.made), fresh-all)

  pub new_task-Goes : Returns (new_task s) (λ t. Goes s t)
  unfolding new_task
  new_task-Goes =
      let p = suc s.made in
      rw (fresh-all, fresh-new)
        (
          record {
            all_distinct = (fresh-all, v.all_distinct);
            ready_distinct = v.ready_distinct;
            new_distinct = (fresh-new, v.new_distinct);
            deleted_distinct = v.deleted_distinct;
            ready_live = λ q l. ground (arith, v.ready_live q l);
            new_live = λ q l. ground (arith, v.new_live q);
            deleted_live = λ q l. ground (arith, v.deleted_live q l);
            stack_live = λ q z l. ground (arith, v.stack_live q z l);
            apart = λ q l. ground (arith, v.apart q l, fresh-ready);
            marked = λ q l. ground (arith, v.marked q, fresh-deleted);
            counted = λ q z. ground (arith, v.counted q z, fresh-count);
            given = λ q l. ground (arith, v.given q);
          },
          record {
            same_current = refl;
            same_stack = refl;
            same_ready = refl;
            front = p ∷ [];
            back = [];
            grown = ap (λ l. p ∷ l) (sym (append-nil s.new_tasks));
            living = λ q l. ground arith;
            was_made = λ q l. made_or_old q l;
            was_idle = λ q l. absurd (ground arith);
          },
        )
    where
      made_or_old :
          (q : ℕ)
          → listed q (suc s.made ∷ s.all_tasks) ≡ true
          → (listed q s.all_tasks ≡ true) ⊎ (listed q (suc s.made ∷ []) ≡ true)
      made_or_old q l = elim (Bool-cases (listed q s.all_tasks)) [
        | inl e ↦ inl e
        | inr e ↦ inr (ground arith)
      ]

  pub add_new-IsSound :
      (p : ℕ)
      → listed p s.all_tasks ≡ true
      → listed p s.new_tasks ≡ false
      → listed p s.ready_tasks ≡ false
      → IsSound (record s { new_tasks = s.new_tasks ++ p ∷ [] })
  add_new-IsSound p l e f = record {
    all_distinct = v.all_distinct;
    ready_distinct = v.ready_distinct;
    new_distinct = Distinct-tail p s.new_tasks e v.new_distinct;
    deleted_distinct = v.deleted_distinct;
    ready_live = v.ready_live;
    new_live = λ q m. ground (arith, v.new_live q, listed-tail q p s.new_tasks);
    deleted_live = v.deleted_live;
    stack_live = v.stack_live;
    apart = λ q m. ground (arith, v.apart q m, listed-tail q p s.new_tasks);
    marked = v.marked;
    counted = v.counted;
    given = v.given;
  }

  pub delete_later-Goes :
      (p : ℕ) → listed p s.all_tasks ≡ true → Returns (delete_later p s) (λ t. Goes s t)
  delete_later-Goes p l = elim (Bool-cases (s.task p).deleting) [
    | inl e ↦ rw e (v, Keeps-refl s)
    | inr e ↦
        let n : listed p s.deleted_tasks ≡ false = v.marked p l ∙ e in
        rw (e, n)
          (
            record {
              all_distinct = v.all_distinct;
              ready_distinct = v.ready_distinct;
              new_distinct = v.new_distinct;
              deleted_distinct = Distinct-tail p s.deleted_tasks n v.deleted_distinct;
              ready_live = v.ready_live;
              new_live = v.new_live;
              deleted_live =
                  λ q m. ground (arith, v.deleted_live q, listed-tail q p s.deleted_tasks);
              stack_live = v.stack_live;
              apart = v.apart;
              marked = λ q m. ground (arith, v.marked q m, listed-tail q p s.deleted_tasks);
              counted = λ q z. ground (arith, v.counted q z);
              given = v.given;
            },
            record {
              same_current = refl;
              same_stack = refl;
              same_ready = refl;
              front = [];
              back = [];
              grown = sym (append-nil s.new_tasks);
              living = λ q m. m;
              was_made = λ q m. inl m;
              was_idle = λ q m. absurd (ground arith);
            },
          )
  ]
