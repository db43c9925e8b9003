-- ===== src/HashMap/Iteration.antt =====
-- The iteration over a hash map (xmap.cc): `_each_begin` and `_each_next`.
use lftp.Prelude.{
  or_else, ℕ, zero, suc, ◌+◌, ◌-◌, ◌≤◌, ◌<◌, ◌≡◌, inl, inr, refl, sym, ap, ◌∙◌, Bool, true, false,
  Option, none, some, List, [], ◌∷◌, ◌++◌, Bytes, length, length-append, if_cases, arith, leb, ◌==◌,
  same, Bool-cases,
}
use lftp.HashMap.{
  MapEntry, Map, make_hash, find, get, total, Each, each_start, each_at, each_next, each_step,
  each_from, each_all,
}
use lftp.HashMap.Chain.{IsChain, make_hash-bound, find-elsewhere, find-same, find-other}
use lftp.HashMap.Moving.{AreChains}
use lftp.HashMap.Rebuild.{IsMap}

module _ {ℓ} {A : Type ℓ} where
  -- The entries of the `n` chains from `i` on.
  abbrev pub entries : (ℕ → List (MapEntry A)) → ℕ → ℕ → List (MapEntry A)
  entries b zero i = []
  entries b (suc n) i = b i ++ entries b n (suc i)

  abbrev pub remaining : Map A → Each A → List (MapEntry A)
  remaining m i = i.rest ++ entries m.bucket (m.hash_size - i.at_hash) i.at_hash

  -- The iteration is over when it is behind the null chain.
  abbrev Fits : Map A → Each A → Type ℓ
  Fits m i = m.hash_size < i.at_hash → i.rest ≡ []

  -- A step takes the first of the entries that remain.
  abbrev Steps : Map A → Each A → Option (MapEntry A) × Each A → Type ℓ
  Steps m i (none, j) = remaining m i ≡ []
  Steps m i (some e, j) = (remaining m i ≡ e ∷ remaining m j) × Fits m j

  entries-suc :
      (b : ℕ → List (MapEntry A)) (s i : ℕ)
      → i < s
      → entries b (s - i) i ≡ b i ++ entries b (s - suc i) (suc i)
  entries-suc b s i p = ap (λ n. entries b n i) e
    where
      e : s - i ≡ suc (s - suc i)
      e = omega arith

  entries-end : (b : ℕ → List (MapEntry A)) (s i : ℕ) → s ≤ i → entries b (s - i) i ≡ []
  entries-end b s i p = ap (λ n. entries b n i) e
    where
      e : s - i ≡ 0
      e = omega arith

  -- The entries do not change when the chain at hand is over.
  next_chain :
      (m : Map A) (h : ℕ)
      → AreChains m.hash_size m.bucket
      → h ≤ m.hash_size
      → entries m.bucket (m.hash_size - h) h
        ≡ m.bucket h ++ entries m.bucket (m.hash_size - suc h) (suc h)
  next_chain m h v p =
      if_cases
        (λ (x : Bool).
          entries m.bucket (m.hash_size - h) h
          ≡ m.bucket h ++ entries m.bucket (m.hash_size - suc h) (suc h))
        (h == m.hash_size) true false
        (λ e.
          entries-end m.bucket m.hash_size h (ground arith)
          ∙ sym (
              ap (λ c. c ++ entries m.bucket (m.hash_size - suc h) (suc h)) (v.end h (ground arith))
              ∙ entries-end m.bucket m.hash_size (suc h) (ground arith)))
        (λ e. entries-suc m.bucket m.hash_size h (ground arith))

  each_next-Steps :
      (fuel : ℕ) (m : Map A) (h : ℕ) (rest : List (MapEntry A))
      → AreChains m.hash_size m.bucket
      → m.hash_size + 2 ≤ fuel + h
      → Fits m (record { at_hash = h; rest = rest })
      → Steps m
          (record { at_hash = h; rest = rest })
          (each_next fuel m (record { at_hash = h; rest = rest }))
  unfolding each_next
  each_next-Steps zero m h rest v f g =
      ap (λ c. c ++ entries m.bucket (m.hash_size - h) h) (g (omega arith))
      ∙ entries-end m.bucket m.hash_size h (omega arith)
  each_next-Steps (suc fuel) m h rest v f g =
      let next = each_next fuel m (record { at_hash = suc h; rest = m.bucket h }) in
      if_cases (Steps m (record { at_hash = h; rest = rest })) (leb h m.hash_size)
        (each_at (record { at_hash = h; rest = rest }) next rest)
        (none, record { at_hash = h; rest = rest })
        (λ e.
          go rest next
            (each_next-Steps fuel m (suc h) (m.bucket h) v (omega arith)
              (λ p. v.end h (omega arith)))
            (next_chain m h v (ground arith)) (ground arith))
        (λ e.
          ap (λ c. c ++ entries m.bucket (m.hash_size - h) h) (g (ground arith))
          ∙ entries-end m.bucket m.hash_size h (ground arith))
    where
      go :
          (rest : List (MapEntry A)) (next : Option (MapEntry A) × Each A)
          → Steps m (record { at_hash = suc h; rest = m.bucket h }) next
          → entries m.bucket (m.hash_size - h) h
            ≡ m.bucket h ++ entries m.bucket (m.hash_size - suc h) (suc h)
          → h ≤ m.hash_size
          → Steps m
              (record { at_hash = h; rest = rest })
              (each_at (record { at_hash = h; rest = rest }) next rest)
      go [] (none, j) s e p = e ∙ s
      go [] (some x, j) (s, t) e p = (e ∙ s, t)
      go (x ∷ xs) next s e p = (refl, λ q. absurd (omega arith))

  length-entries :
      (b : ℕ → List (MapEntry A)) (n i : ℕ) → length (entries b n i) + total i b ≡ total (i + n) b
  length-entries b zero i = let e : i ≡ i + 0 = omega arith in omega (arith, ap (λ j. total j b) e)
  length-entries b (suc n) i =
      let e : i + suc n ≡ suc i + n = omega arith in
      omega (
        arith,
        length-append (b i) (entries b n (suc i)),
        length-entries b n (suc i),
        ap (λ j. total j b) e,
      )

  each_from-remaining :
      (fuel : ℕ) (m : Map A) (i : Each A)
      → AreChains m.hash_size m.bucket
      → Fits m i
      → length (remaining m i) < fuel
      → each_from fuel m i ≡ remaining m i
  unfolding each_from
  each_from-remaining zero m i v g f = absurd (omega arith)
  each_from-remaining (suc fuel) m i v g f =
      go (each_next (m.hash_size + 2) m i) (λ j t p. each_from-remaining fuel m j v t p)
        (each_next-Steps (m.hash_size + 2) m i.at_hash i.rest v (omega arith) g)
    where
      go :
          (r : Option (MapEntry A) × Each A)
          → ((j : Each A)
              → Fits m j
              → length (remaining m j) < fuel
              → each_from fuel m j ≡ remaining m j)
          → Steps m i r
          → each_step (each_from fuel m) r ≡ remaining m i
      go (none, j) rec s = sym s
      go (some e, j) rec (s, t) = ap (λ es. e ∷ es) (rec j t (omega (arith, ap length s))) ∙ sym s

  find-append :
      (k : Bytes) (xs ys : List (MapEntry A)) → find k (xs ++ ys) ≡ or_else (find k xs) (find k ys)
  unfolding find
  find-append k [] ys = refl
  find-append k (e ∷ xs) ys = elim (Bool-cases (same e.key k)) [
    | inl s ↦
        find-same k e (xs ++ ys) s ∙ ap (λ o. or_else o (find k ys)) (sym (find-same k e xs s))
    | inr s ↦
        find-other k e (xs ++ ys) s
        ∙ find-append k xs ys
        ∙ ap (λ o. or_else o (find k ys)) (sym (find-other k e xs s))
  ]

  find-entries-none :
      (size : ℕ) (b : ℕ → List (MapEntry A)) (k : Bytes) (n i : ℕ)
      → ((j : ℕ) → IsChain size j (b j))
      → make_hash size k < i
      → find k (entries b n i) ≡ none
  unfolding find
  find-entries-none size b k zero i v p = refl
  find-entries-none size b k (suc n) i v p =
      find-append k (b i) (entries b n (suc i))
      ∙ ap (λ o. or_else o (find k (entries b n (suc i))))
          (find-elsewhere size i k (b i) (v i) (omega arith))
      ∙ find-entries-none size b k n (suc i) v (omega arith)

  find-entries :
      (size : ℕ) (b : ℕ → List (MapEntry A)) (k : Bytes) (n i : ℕ)
      → ((j : ℕ) → IsChain size j (b j))
      → i ≤ make_hash size k
      → make_hash size k < i + n
      → find k (entries b n i) ≡ find k (b (make_hash size k))
  find-entries size b k zero i v p q = absurd (omega arith)
  find-entries size b k (suc n) i v p q =
      find-append k (b i) (entries b n (suc i))
      ∙ if_cases
          (λ (x : Bool).
            or_else (find k (b i)) (find k (entries b n (suc i))) ≡ find k (b (make_hash size k)))
          (i == make_hash size k) true false
          (λ e.
            ap (or_else (find k (b i))) (find-entries-none size b k n (suc i) v (ground arith))
            ∙ or_else-none (find k (b i))
            ∙ ap (λ j. find k (b j)) (ground arith))
          (λ e.
            ap (λ o. or_else o (find k (entries b n (suc i))))
              (find-elsewhere size i k (b i) (v i) (ground arith))
            ∙ find-entries size b k n (suc i) v (ground arith) (omega arith))
    where
      or_else-none : (o : Option A) → or_else o none ≡ o
      or_else-none none = refl
      or_else-none (some a) = refl

  -- The iteration over a well-formed map returns as many entries as the map counts, and what is found
  -- for a key among them is what the map has for it.
  pub each_all-entries :
      (m : Map A)
      → IsMap m
      → (length (each_all m) ≡ m.entry_count) × ((k : Bytes) → find k (each_all m) ≡ get m k)
  unfolding each_all
  each_all-entries m v =
      let sum = length-entries m.bucket m.hash_size 0 in
      let z : 0 + m.hash_size ≡ m.hash_size = omega arith in
      let w : m.hash_size - 0 ≡ m.hash_size = omega arith in
      let u = ap (λ n. entries m.bucket n 0) w in
      let count : length (entries m.bucket m.hash_size 0) ≡ m.entry_count =
        omega (arith, sum, v.counted, ap (λ j. total j m.bucket) z) in
      let e : each_all m ≡ entries m.bucket m.hash_size 0 =
        each_from-remaining (m.entry_count + 1) m each_start v.chains (λ p. refl)
          (omega (arith, count, ap length u))
        ∙ u in
      (
        ap length e ∙ count,
        λ k.
            ap (find k) e
            ∙ find-entries m.hash_size m.bucket k m.hash_size 0 v.chains.chain (omega arith)
                (omega (arith, make_hash-bound m.hash_size k v.sized)),
      )
