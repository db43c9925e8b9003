-- ===== src/PatternSet/Glob.antt =====
-- `PatternSet::Glob::Match` (PatternSet.cc): which part of a path a pattern is matched with.
use lftp.Prelude.{
  ℕ, zero, suc, ◌+◌, ◌-◌, ◌≡◌, ◌≤◌, ◌<◌, refl, sym, ap, ◌∙◌, Bool, [], ◌∷◌, Bytes, length, drop,
  get_or, if_cases, arith, leb, ◌==◌, if◌then◌else◌,
}
use lftp.PatternSet.{slashes, glob_scan, glob_match}

-- The longest end of a path with at most `n` slashes.
abbrev pub longest : ℕ → Bytes → Bytes
longest n [] = []
longest n (c ∷ s) = if leb (slashes (c ∷ s)) n then c ∷ s else longest n s

longest-all : (n : ℕ) (s : Bytes) → slashes s ≤ n → longest n s ≡ s
longest-all n [] l = refl
longest-all n (c ∷ s) l = ground arith

longest-suc : (n : ℕ) (c : ℕ) (s : Bytes) → n < slashes (c ∷ s) → longest n (c ∷ s) ≡ longest n s
longest-suc n c s l = ground arith

slashes-cons : (c : ℕ) (s : Bytes) → slashes s ≤ slashes (c ∷ s)
slashes-cons c s = ground arith

slashes-drop :
    (s : Bytes) (i : ℕ)
    → i < length s
    → slashes (drop i s)
      ≡ (if get_or s i 0 == b'/' then suc (slashes (drop (suc i) s)) else slashes (drop (suc i) s))
slashes-drop [] i l = absurd (omega arith)
slashes-drop (c ∷ s) zero l = refl
slashes-drop (c ∷ s) (suc i) l = slashes-drop s i (omega arith)

slashes-behind :
    (s : Bytes) (i : ℕ) → get_or s i 0 ≡ b'/' → i < length s → slashes (drop (suc i) s) < slashes s
slashes-behind [] i e l = absurd (omega arith)
slashes-behind (c ∷ s) zero e l = ground arith
slashes-behind (c ∷ s) (suc i) e l = ground (arith, slashes-behind s i e (omega arith))

longest-behind :
    (n : ℕ) (s : Bytes) (i : ℕ)
    → get_or s i 0 ≡ b'/'
    → i < length s
    → slashes (drop (suc i) s) ≡ n
    → longest n s ≡ drop (suc i) s
longest-behind n [] i e l g = absurd (omega arith)
longest-behind n (c ∷ s) zero e l g =
    longest-suc n c s (ground arith) ∙ longest-all n s (omega arith)
longest-behind n (c ∷ s) (suc i) e l g =
    longest-suc n c s (omega (arith, slashes-behind s i e (omega arith), slashes-cons c s))
    ∙ longest-behind n s i e (omega arith) g

glob_scan-longest :
    (n : ℕ) (str : Bytes) (scan k : ℕ)
    → scan ≤ length str
    → slashes (drop scan str) + k ≡ n
    → drop (glob_scan str scan k) str ≡ longest n str
glob_scan-longest n str zero k l e = sym (longest-all n str (omega arith))
glob_scan-longest n str (suc i) k l e =
    let P = λ (x : ℕ). drop x str ≡ longest n str in
    let d = slashes-drop str i (omega arith) in
    if_cases P (get_or str i 0 == b'/') (if k == 0 then suc i else glob_scan str i (k - 1))
      (glob_scan str i k)
      (λ c.
        if_cases P (k == 0) (suc i) (glob_scan str i (k - 1))
          (λ z. sym (longest-behind n str i (ground arith) (omega arith) (ground arith)))
          (λ z. glob_scan-longest n str i (k - 1) (omega arith) (ground arith)))
      (λ c. glob_scan-longest n str i k (omega arith) (ground arith))

drop-length : (s : Bytes) → drop (length s) s ≡ []
drop-length [] = refl
drop-length (c ∷ s) = drop-length s

-- A pattern for paths is matched with the longest end of the path that has no more slashes than the pattern has.
pub glob_match-longest :
    (fnmatch : Bytes → Bytes → Bool) (pattern str : Bytes)
    → glob_match fnmatch pattern str ≡ fnmatch pattern (longest (slashes pattern) str)
unfolding glob_match
glob_match-longest fnmatch pattern str =
    let n = slashes pattern in
    ap (fnmatch pattern) (
      glob_scan-longest n str (length str) n (omega arith)
        (ap (λ s. slashes s + n) (drop-length str) ∙ omega arith))
