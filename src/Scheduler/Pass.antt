-- ===== src/Scheduler/Pass.antt =====
-- A round of the loop of CollectGarbage (SMTask.cc), and what a pass of it leaves.
use lftp.Prelude.{
  ℕ, suc, ◌+◌, ◌≡◌, ◌⊎◌, refl, sym, ap, ◌∙◌, subst, Bool, true, false, not, inl, inr, Bool-cases,
  ◌&&◌, List, [], ◌∷◌, ◌++◌, append-nil, append_assoc, arith, length, length-append, ◌==◌,
}
use lftp.Scheduler.{Tasks, done, ◌>>=◌, listed, without, destroy, is_busy, Dtor, collect_one}
use lftp.Scheduler.Links.{
  Distinct, Distinct-before, listed-without, listed-middle, length-without, without-middle, Returns,
  Returns-bind,
}
use lftp.Scheduler.Sound.{IsSound}
use lftp.Scheduler.Drops.{lose, IsDying, Drops, Dropped}
use lftp.Scheduler.Dying.{Drops-Dropped}
use lftp.Scheduler.Destroying.{taken_off-IsDying, destroy-lose}

-- Each destructor of a derived class ends, and does nothing to the tasks but drop others.
abbrev pub MakesDrops : Dtor → Type 0
MakesDrops die = (p : ℕ) (s : Tasks) → IsDying p s → Returns (die p s) (λ t. Drops p s t)

-- A pass over `ps` leads from `s` to `t`: those of `ps` that were not busy are destroyed, and what is destroyed was to
-- be deleted and is not busy.
pub record Collected (ps : List ℕ) (s t : Tasks) : Type 0 where
  pub sound : IsSound t
  pub same_current : t.current ≡ s.current
  pub same_stack : t.stack ≡ s.stack
  pub stays_marked : (q : ℕ) → (s.task q).deleting ≡ true → (t.task q).deleting ≡ true
  pub stays_idle : (q : ℕ) → is_busy (s.task q) ≡ false → is_busy (t.task q) ≡ false
  pub from_old : (q : ℕ) → listed q t.all_tasks ≡ true → listed q s.all_tasks ≡ true
  pub taken :
      (q : ℕ) → listed q ps ≡ true → is_busy (s.task q) ≡ false → listed q t.all_tasks ≡ false
  pub gone :
      (q : ℕ)
      → listed q s.all_tasks ≡ true
      → (listed q t.all_tasks ≡ true)
        ⊎ (((t.task q).deleting ≡ true) × (is_busy (t.task q) ≡ false))

pub Collected-none : (s : Tasks) → IsSound s → Collected [] s s
Collected-none s v = record {
  sound = v;
  same_current = refl;
  same_stack = refl;
  stays_marked = λ q m. m;
  stays_idle = λ q m. m;
  from_old = λ q m. m;
  taken = λ q m. absurd (ground arith);
  gone = λ q m. inl m;
}

pub not_before : (x y : Bool) → (x ≡ true → y ≡ true) → y ≡ false → x ≡ false
not_before true y f e = absurd (ground (arith, f refl))
not_before false y f e = refl

pub Collected-trans :
    (p : ℕ) (ps qs : List ℕ) (s t u : Tasks)
    → ((q : ℕ) → listed q ps ≡ true → listed q qs ≡ true)
    → Collected (p ∷ []) s t
    → Collected qs t u
    → Collected (p ∷ ps) s u
Collected-trans p ps qs s t u f a b = record {
  sound = b.sound;
  same_current = b.same_current ∙ a.same_current;
  same_stack = b.same_stack ∙ a.same_stack;
  stays_marked = λ q m. b.stays_marked q (a.stays_marked q m);
  stays_idle = λ q m. b.stays_idle q (a.stays_idle q m);
  from_old = λ q m. a.from_old q (b.from_old q m);
  taken = λ q m i. taken_now q m i;
  gone = λ q m. further q (a.gone q m);
}
  where
    taken_now :
        (q : ℕ)
        → listed q (p ∷ ps) ≡ true
        → is_busy (s.task q) ≡ false
        → listed q u.all_tasks ≡ false
    taken_now q m i = elim (Bool-cases (q == p)) [
      | inl y ↦
          not_before (listed q u.all_tasks) (listed q t.all_tasks) (b.from_old q)
            (a.taken q (ground arith) i)
      | inr y ↦ b.taken q (f q (ground arith)) (a.stays_idle q i)
    ]

    further :
        (q : ℕ)
        → (listed q t.all_tasks ≡ true)
          ⊎ (((t.task q).deleting ≡ true) × (is_busy (t.task q) ≡ false))
        → (listed q u.all_tasks ≡ true)
          ⊎ (((u.task q).deleting ≡ true) × (is_busy (u.task q) ≡ false))
    further q (inl m) = b.gone q m
    further q (inr (m, i)) = inr (b.stays_marked q m, b.stays_idle q i)

-- What a round leaves of the list, and that it comes nearer to the end.
pub record Round (pre : List ℕ) (p : ℕ) (suf : List ℕ) (s : Tasks) (r : ℕ × Tasks) : Type 0 where
  pub passed : Collected (p ∷ []) s r.1
  pub counted : r.0 + length (r.1).all_tasks ≡ length s.all_tasks
  pub before : List ℕ
  pub back : List ℕ
  pub ahead : (r.1).deleted_tasks ≡ before ++ (suf ++ back)
  pub nearer : length (r.1).all_tasks + suc (length pre) ≡ length s.all_tasks + length before

module _ (s : Tasks) (v : IsSound s) (pre : List ℕ) (p : ℕ) (suf : List ℕ)
    (e : s.deleted_tasks ≡ pre ++ p ∷ suf) where
  spared : is_busy (s.task p) ≡ true → Round pre p suf s (0, s)
  spared b = record {
    passed = record {
      sound = v;
      same_current = refl;
      same_stack = refl;
      stays_marked = λ q m. m;
      stays_idle = λ q m. m;
      from_old = λ q m. m;
      taken = λ q m i. absurd (ground arith);
      gone = λ q m. inl m;
    };
    counted = omega arith;
    before = pre ++ p ∷ [];
    back = [];
    ahead =
        e ∙ sym (append_assoc pre (p ∷ []) (suf ++ []) ∙ ap (λ l. pre ++ p ∷ l) (append-nil suf));
    nearer = omega (arith, length-append pre (p ∷ []));
  }

  is_listed : listed p s.deleted_tasks ≡ true
  is_listed = ap (listed p) e ∙ listed-middle p pre suf

  rest_listed : without p s.deleted_tasks ≡ pre ++ suf
  rest_listed =
      ap (without p) e
      ∙ without-middle p pre suf (Distinct-before p pre suf (subst Distinct e v.deleted_distinct))

  module _ (t : Tasks)
      (d : Dropped p (record s { deleted_tasks = without p s.deleted_tasks }) t) where
    left_listed : (q : ℕ) → listed q (lose p t).all_tasks ≡ (not (q == p) && listed q s.all_tasks)
    left_listed q =
        ap (λ l. listed q (without p l)) d.same_all ∙ listed-without q p s.all_tasks v.all_distinct

    destroyed : Round pre p suf s (1, lose p t)
    destroyed = record {
      passed = record {
        sound = d.dying.sound;
        same_current = d.same_current;
        same_stack = d.same_stack;
        stays_marked = d.stays_marked;
        stays_idle = d.stays_idle;
        from_old = λ q m. ground (arith, left_listed q);
        taken = λ q m i. ground (arith, left_listed q);
        gone = λ q m. gone_or q (Bool-cases (q == p)) m;
      };
      counted = ap (λ l. 1 + length (without p l)) d.same_all ∙ omega (arith, one_less);
      before = pre;
      back = d.back;
      ahead = d.grown ∙ ap (λ l. l ++ d.back) rest_listed ∙ append_assoc pre suf d.back;
      nearer =
          ap (λ l. length (without p l) + suc (length pre)) d.same_all ∙ omega (arith, one_less);
    }
      where
        one_less : length s.all_tasks ≡ suc (length (without p s.all_tasks))
        one_less = length-without p s.all_tasks (v.deleted_live p is_listed)

        gone_or :
            (q : ℕ)
            → ((q == p) ≡ true) ⊎ ((q == p) ≡ false)
            → listed q s.all_tasks ≡ true
            → (listed q (lose p t).all_tasks ≡ true)
              ⊎ (((t.task q).deleting ≡ true) × (is_busy (t.task q) ≡ false))
        gone_or q (inl y) m =
            let z : p ≡ q = ground arith in
            inr (
              subst (λ i. ((t.task i).deleting ≡ true) × (is_busy (t.task i) ≡ false)) z
                (d.dying.marked, d.dying.idle))
        gone_or q (inr y) m = inl (left_listed q ∙ rw (y, m) refl)

  pub collect_one-Round :
      (die : Dtor) → MakesDrops die → Returns (collect_one die p s) (λ r. Round pre p suf s r)
  unfolding collect_one
  collect_one-Round die c = elim (Bool-cases (is_busy (s.task p))) [
    | inl b ↦ rw b (spared b)
    | inr b ↦
        let s0 = record s { deleted_tasks = without p s.deleted_tasks } in
        let now = taken_off-IsDying s v p is_listed b in
        rw (b, is_listed)
          (Returns-bind (λ t. Drops p s0 t) (λ r. Round pre p suf s r) (die p s0)
            (λ s1. destroy p s1 >>= (λ s2. done (1, s2))) (c p s0 now)
            (λ t k.
              let d = Drops-Dropped k now in
              subst (λ r. Returns (r >>= (λ s2. done (1, s2))) (λ r. Round pre p suf s r))
                (sym (destroy-lose p t d.dying)) (destroyed t d)))
  ]
