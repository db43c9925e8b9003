-- ===== src/Scheduler/Garbage.antt =====
-- `CollectGarbage` (SMTask.cc), with the destructors of the derived classes.
use lftp.Prelude.{ℕ, ◌+◌, ◌≡◌, ◌<◌, List, ◌∷◌, ◌++◌, length}
use lftp.Scheduler.{Tasks, Run, Dtor, collect, head_or}
use lftp.Scheduler.Links.{Returns}
use lftp.Scheduler.Sound.{IsSound}
use lftp.Scheduler.Pass.{Collected, MakesDrops}

abbrev Collects : List ℕ → ℕ → Tasks → Run (ℕ × Tasks) → Type 0
Collects ps n s r =
    Returns r (λ r. Collected ps s r.1 × (r.0 + length (r.1).all_tasks ≡ n + length s.all_tasks))

module _ (die : Dtor) (c : MakesDrops die) where
  abbrev LoopCollects : ℕ → Type 0
  LoopCollects fuel =
      (pre : List ℕ) (y : ℕ) (l : List ℕ) (n : ℕ) (s : Tasks)
      → IsSound s
      → s.deleted_tasks ≡ pre ++ y ∷ l
      → length s.all_tasks < fuel + length pre
      → Collects (y ∷ l) n s (collect die fuel y (head_or 0 l) n s)
