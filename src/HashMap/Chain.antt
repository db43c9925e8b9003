-- ===== src/HashMap/Chain.antt =====
-- The chains of the hash map (xmap.cc).
use lftp.Prelude.{
  ℕ, suc, ◌≡◌, ◌≢◌, inl, inr, refl, sym, ap, ◌∙◌, true, false, none, some, List, [], ◌∷◌, Bytes,
  same, same_iff, same_refl, Bool-cases, length, if_cases, if◌then◌else◌, arith, ◌<◌, ◌==◌, ◌%◌,
}
use lftp.HashMap.{MapEntry, make_hash, hash_step, hash_bytes, find, store, cut}

pub make_hash-bound : (size : ℕ) (s : Bytes) → 0 < size → make_hash size s < size
unfolding make_hash
make_hash-bound size s p =
    if_cases (λ h. h < size) (size == 1) 0
      (hash_step (hash_bytes s 305419896) (length s % 4294967296) % size) (λ e. ground arith)
      (λ e. omega arith)

same_sym_false : (a b : Bytes) → same a b ≡ false → same b a ≡ false
same_sym_false a b e = elim (Bool-cases (same b a)) [
  | inl s ↦ absurd (ground (arith, e, (same_iff a b).1 (sym ((same_iff b a).0 s))))
  | inr s ↦ s
]

module _ {ℓ} {A : Type ℓ} where
  -- The keys of a chain have one hash, and none of them stands twice.
  pub data IsChain (size i : ℕ) : List (MapEntry A) → Type ℓ where
    no_more : IsChain size i []
    more :
        {e : MapEntry A} {es : List (MapEntry A)}
        → make_hash size e.key ≡ i
        → find e.key es ≡ none
        → IsChain size i es
        → IsChain size i (e ∷ es)

  pub find-same :
      (k : Bytes) (e : MapEntry A) (es : List (MapEntry A))
      → same e.key k ≡ true
      → find k (e ∷ es) ≡ some e.value
  unfolding find
  find-same k e es p = rw p refl

  pub find-other :
      (k : Bytes) (e : MapEntry A) (es : List (MapEntry A))
      → same e.key k ≡ false
      → find k (e ∷ es) ≡ find k es
  unfolding find
  find-other k e es p = rw p refl

  -- A chain has no key of another hash.
  pub find-elsewhere :
      (size i : ℕ) (k : Bytes) (es : List (MapEntry A))
      → IsChain size i es
      → make_hash size k ≢ i
      → find k es ≡ none
  unfolding find
  find-elsewhere size i k [] c n = refl
  find-elsewhere size i k (e ∷ es) (more p q c) n = elim (Bool-cases (same e.key k)) [
    | inl s ↦ absurd (n (ap (make_hash size) (sym ((same_iff e.key k).0 s)) ∙ p))
    | inr s ↦ find-other k e es s ∙ find-elsewhere size i k es c n
  ]

  pub find-store_self :
      (k : Bytes) (v : A) (es : List (MapEntry A)) → find k (store k v es) ≡ some v
  find-store_self k v [] = find-same k (record { key = k; value = v }) [] (same_refl k)
  find-store_self k v (e ∷ es) =
      if_cases (λ c. find k c ≡ some v) (same e.key k) (record e { value = v } ∷ es)
        (e ∷ store k v es) (λ s. find-same k (record e { value = v }) es s)
        (λ s. find-other k e (store k v es) s ∙ find-store_self k v es)

  find_past :
      (k : Bytes) (e : MapEntry A) (xs ys : List (MapEntry A))
      → find k xs ≡ find k ys
      → find k (e ∷ xs) ≡ find k (e ∷ ys)
  unfolding find
  find_past k e xs ys p = ap (λ o. if same e.key k then some e.value else o) p

  pub find-store-other :
      (k j : Bytes) (v : A) (es : List (MapEntry A))
      → same k j ≡ false
      → find j (store k v es) ≡ find j es
  find-store-other k j v [] n = find-other j (record { key = k; value = v }) [] n
  find-store-other k j v (e ∷ es) n =
      if_cases (λ c. find j c ≡ find j (e ∷ es)) (same e.key k) (record e { value = v } ∷ es)
        (e ∷ store k v es)
        (λ s.
          let f : same e.key j ≡ false = ap (λ x. same x j) ((same_iff e.key k).0 s) ∙ n in
          find-other j (record e { value = v }) es f ∙ sym (find-other j e es f))
        (λ s. find_past j e (store k v es) es (find-store-other k j v es n))

  pub find-cut-other :
      (k j : Bytes) (es : List (MapEntry A)) → same k j ≡ false → find j (cut k es) ≡ find j es
  find-cut-other k j [] n = refl
  find-cut-other k j (e ∷ es) n =
      if_cases (λ c. find j c ≡ find j (e ∷ es)) (same e.key k) es (e ∷ cut k es)
        (λ s. sym (find-other j e es (ap (λ x. same x j) ((same_iff e.key k).0 s) ∙ n)))
        (λ s. find_past j e (cut k es) es (find-cut-other k j es n))

  pub find-cut_self :
      (size i : ℕ) (k : Bytes) (es : List (MapEntry A))
      → IsChain size i es
      → find k (cut k es) ≡ none
  unfolding find
  find-cut_self size i k [] c = refl
  find-cut_self size i k (e ∷ es) (more p q c) =
      if_cases (λ c. find k c ≡ none) (same e.key k) es (e ∷ cut k es)
        (λ s. ap (λ x. find x es) (sym ((same_iff e.key k).0 s)) ∙ q)
        (λ s. find-other k e (cut k es) s ∙ find-cut_self size i k es c)

  pub store-IsChain :
      (size i : ℕ) (k : Bytes) (v : A) (es : List (MapEntry A))
      → make_hash size k ≡ i
      → IsChain size i es
      → IsChain size i (store k v es)
  unfolding find
  store-IsChain size i k v [] h c = more h refl c
  store-IsChain size i k v (e ∷ es) h (more p q c) =
      if_cases (IsChain size i) (same e.key k) (record e { value = v } ∷ es) (e ∷ store k v es)
        (λ s. more p q c)
        (λ s.
          more p (find-store-other k e.key v es (same_sym_false e.key k s) ∙ q)
            (store-IsChain size i k v es h c))

  pub cut-IsChain :
      (size i : ℕ) (k : Bytes) (es : List (MapEntry A))
      → IsChain size i es
      → IsChain size i (cut k es)
  cut-IsChain size i k [] c = c
  cut-IsChain size i k (e ∷ es) (more p q c) =
      if_cases (IsChain size i) (same e.key k) es (e ∷ cut k es) (λ s. c)
        (λ s.
          more p (find-cut-other k e.key es (same_sym_false e.key k s) ∙ q)
            (cut-IsChain size i k es c))

  pub length-store-new :
      (k : Bytes) (v : A) (es : List (MapEntry A))
      → find k es ≡ none
      → length (store k v es) ≡ suc (length es)
  unfolding find
  length-store-new k v [] n = refl
  length-store-new k v (e ∷ es) n = ground (arith, length-store-new k v es)

  pub length-store-old :
      (k : Bytes) (v w : A) (es : List (MapEntry A))
      → find k es ≡ some w
      → length (store k v es) ≡ length es
  unfolding find
  length-store-old k v w [] n = ground arith
  length-store-old k v w (e ∷ es) n = ground (arith, length-store-old k v w es)

  pub length-cut :
      (k : Bytes) (w : A) (es : List (MapEntry A))
      → find k es ≡ some w
      → suc (length (cut k es)) ≡ length es
  unfolding find
  length-cut k w [] n = ground arith
  length-cut k w (e ∷ es) n = ground (arith, length-cut k w es)
