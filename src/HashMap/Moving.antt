-- ===== src/HashMap/Moving.antt =====
-- What `rebuild_map` (xmap.cc) does to the chains: an entry moves to the front of the chain of its new hash.
use lftp.Prelude.{
  or_else, ℕ, ◌≤◌, ◌<◌, ◌≡◌, ◌≢◌, inl, inr, refl, sym, ap, ◌∙◌, subst, true, false, Option, none,
  some, List, [], ◌∷◌, Bytes, same, same_iff, same_refl, Bool-cases, if_cases, arith, ◌==◌,
}
use lftp.Prelude.Write.{write, write_same, write_other}
use lftp.HashMap.{MapEntry, make_hash, find, push, move_chain}
use lftp.HashMap.Chain.{IsChain, more, find-same, find-other, make_hash-bound}

module _ {ℓ} {A : Type ℓ} where
  -- The chains that a map has: each is well formed, and there are none from the size on.
  pub record AreChains (size : ℕ) (b : ℕ → List (MapEntry A)) : Type ℓ where
    pub chain : (i : ℕ) → IsChain size i (b i)
    pub end : (i : ℕ) → size ≤ i → b i ≡ []

  -- What is found for a key.
  abbrev pub found : ℕ → (ℕ → List (MapEntry A)) → Bytes → Option A
  found size b k = find k (b (make_hash size k))

  pub found-write-other :
      (size i : ℕ) (b : ℕ → List (MapEntry A)) (c : List (MapEntry A)) (k : Bytes)
      → make_hash size k ≢ i
      → found size (write b i c) k ≡ found size b k
  found-write-other size i b c k n = ap (find k) (write_other b i (make_hash size k) c n)

  pub found-write :
      (size : ℕ) (b : ℕ → List (MapEntry A)) (c : List (MapEntry A)) (k : Bytes)
      → found size (write b (make_hash size k) c) k ≡ find k c
  found-write size b c k = ap (find k) (write_same b (make_hash size k) c)

  pub write-AreChains :
      (size h : ℕ) (b : ℕ → List (MapEntry A)) (c : List (MapEntry A))
      → h < size
      → IsChain size h c
      → AreChains size b
      → AreChains size (write b h c)
  write-AreChains size h b c z d v = record {
    chain = λ i.
        if_cases (IsChain size i) (i == h) c (b i)
          (λ f. subst (λ j. IsChain size j c) (sym (at_place f)) d) (λ f. v.chain i);
    end = λ i p. write_other b h i c (omega arith) ∙ v.end i p;
  }
    where
      at_place : {i : ℕ} → (i == h) ≡ true → i ≡ h
      at_place f = ground arith

  push-AreChains :
      (size : ℕ) (e : MapEntry A) (b : ℕ → List (MapEntry A))
      → 0 < size
      → found size b e.key ≡ none
      → AreChains size b
      → AreChains size (push size e b)
  push-AreChains size e b z n c =
      let h = make_hash size e.key in
      write-AreChains size h b (e ∷ b h) (make_hash-bound size e.key z)
        (IsChain.more refl n (c.chain h)) c

  found-push_self :
      (size : ℕ) (e : MapEntry A) (b : ℕ → List (MapEntry A)) (k : Bytes)
      → same e.key k ≡ true
      → found size (push size e b) k ≡ some e.value
  found-push_self size e b k s =
      let h = make_hash size e.key in
      ap (λ j. find k (write b h (e ∷ b h) (make_hash size j))) (sym ((same_iff e.key k).0 s))
      ∙ ap (find k) (write_same b h (e ∷ b h))
      ∙ find-same k e (b h) s

  found-push-other :
      (size : ℕ) (e : MapEntry A) (b : ℕ → List (MapEntry A)) (k : Bytes)
      → same e.key k ≡ false
      → found size (push size e b) k ≡ found size b k
  found-push-other size e b k s =
      let h = make_hash size e.key in
      if_cases (λ c. find k c ≡ found size b k) (make_hash size k == h) (e ∷ b h)
        (b (make_hash size k))
        (λ f. find-other k e (b h) s ∙ ap (λ j. find k (b j)) (sym (there f))) (λ f. refl)
    where
      there : {j h : ℕ} → (j == h) ≡ true → j ≡ h
      there f = ground arith

  -- A chain that is moved hides what its keys had.
  pub move_chain-found :
      (size old i : ℕ) (es : List (MapEntry A)) (b : ℕ → List (MapEntry A)) (k : Bytes)
      → IsChain old i es
      → found size (move_chain size es b) k ≡ or_else (find k es) (found size b k)
  unfolding move_chain find
  move_chain-found size old i [] b k c = refl
  move_chain-found size old i (e ∷ es) b k (more p q c) = elim (Bool-cases (same e.key k)) [
    | inl s ↦
        move_chain-found size old i es (push size e b) k c
        ∙ ap (λ o. or_else o (found size (push size e b) k))
            (ap (λ j. find j es) (sym ((same_iff e.key k).0 s)) ∙ q)
        ∙ found-push_self size e b k s
        ∙ ap (λ o. or_else o (found size b k)) (sym (find-same k e es s))
    | inr s ↦
        move_chain-found size old i es (push size e b) k c
        ∙ ap (or_else (find k es)) (found-push-other size e b k s)
        ∙ ap (λ o. or_else o (found size b k)) (sym (find-other k e es s))
  ]

  pub move_chain-AreChains :
      (size old i : ℕ) (es : List (MapEntry A)) (b : ℕ → List (MapEntry A))
      → 0 < size
      → IsChain old i es
      → ((k : Bytes) → find k es ≢ none → found size b k ≡ none)
      → AreChains size b
      → AreChains size (move_chain size es b)
  unfolding move_chain
  move_chain-AreChains size old i [] b z c n v = v
  move_chain-AreChains size old i (e ∷ es) b z (more p q c) n v =
      move_chain-AreChains size old i es (push size e b) z c
        (λ k f. elim (Bool-cases (same e.key k)) [
          | inl s ↦ absurd (f (ap (λ j. find j es) (sym ((same_iff e.key k).0 s)) ∙ q))
          | inr s ↦ found-push-other size e b k s ∙ n k (λ g. f (sym (find-other k e es s) ∙ g))
        ])
        (push-AreChains size e b z
          (n e.key (λ g. some_none (sym (find-same e.key e es (same_refl e.key)) ∙ g))) v)
    where
      some_none : some e.value ≡ none → ⊥
      some_none f = ground arith
