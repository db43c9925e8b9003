-- ===== src/LsCache/Trimming.antt =====
-- `Cache::Trim` (Cache.cc): what is left of the chain.
use lftp.Prelude.{
  ℕ, ◌+◌, ◌-◌, ◌≡◌, refl, ap, ◌∙◌, List, [], ◌∷◌, arith, inl, inr, Bool-cases, if◌then◌else◌,
}
use lftp.Prelude.Int.{pos, ltb_ℤ}
use lftp.LsCache.{CacheEntry, Config, is_stopped, estimate_size, live, trim_to, trim}

module _ {L : Type 0} (cfg : Config L) where
  abbrev pub not_stopped : ℕ → List (CacheEntry L) → List (CacheEntry L)
  not_stopped now [] = []
  not_stopped now (e ∷ es) = if is_stopped now e then not_stopped now es else e ∷ not_stopped now es

  abbrev pub total : List (CacheEntry L) → ℕ
  total [] = 0
  total (e ∷ es) = estimate_size cfg e + total es

  -- The longest end of the chain whose size is within the limit.
  abbrev pub longest_fit : List (CacheEntry L) → List (CacheEntry L)
  longest_fit [] = []
  longest_fit (e ∷ es) =
      if ltb_ℤ cfg.max_size (pos (total (e ∷ es))) then longest_fit es else e ∷ es

  live-entries : (now : ℕ) (es : List (CacheEntry L)) → (live cfg now es).0 ≡ not_stopped now es
  live-entries now [] = refl
  live-entries now (e ∷ es) = elim (Bool-cases (is_stopped now e)) [
    | inl y ↦ rw y (live-entries now es)
    | inr y ↦ rw y (ap (λ r. e ∷ r) (live-entries now es))
  ]

  live-total :
      (now : ℕ) (es : List (CacheEntry L)) → (live cfg now es).1 ≡ total (not_stopped now es)
  live-total now [] = refl
  live-total now (e ∷ es) = elim (Bool-cases (is_stopped now e)) [
    | inl y ↦ rw y (live-total now es)
    | inr y ↦ rw y (ap (λ n. estimate_size cfg e + n) (live-total now es))
  ]

  trim_to-total : (es : List (CacheEntry L)) → trim_to cfg (total es) es ≡ longest_fit es
  trim_to-total [] = refl
  trim_to-total (e ∷ es) =
      ap (λ r. if ltb_ℤ cfg.max_size (pos (total (e ∷ es))) then r else e ∷ es)
        (ap (λ n. trim_to cfg n es) (less_size (estimate_size cfg e) (total es)) ∙ trim_to-total es)
    where
      less_size : (a b : ℕ) → a + b - a ≡ b
      less_size a b = omega arith

  -- Trimming leaves, of the entries whose timer has not stopped, the longest end of the chain whose sizes together are
  -- within the limit: the entries that were added last go first.
  pub trim-longest_fit :
      (now : ℕ) (es : List (CacheEntry L)) → trim cfg now es ≡ longest_fit (not_stopped now es)
  unfolding trim
  trim-longest_fit now es =
      ap (λ n. trim_to cfg n (live cfg now es).0) (live-total now es)
      ∙ ap (trim_to cfg (total (not_stopped now es))) (live-entries now es)
      ∙ trim_to-total (not_stopped now es)
