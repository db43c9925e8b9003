-- ===== src/HashMap/Rebuild.antt =====
-- `rebuild_map` (xmap.cc) moves every entry to the chain of its new hash.
use lftp.Prelude.{
  or_else, ℕ, zero, suc, ◌+◌, ◌*◌, ◌≤◌, ◌<◌, ◌≡◌, ◌≢◌, ◌⊎◌, inl, inr, refl, sym, ap, ◌∙◌, Bool,
  true, false, Option, none, some, List, [], ◌∷◌, Bytes, length, if_cases, arith, ◌==◌,
}
use lftp.Prelude.Write.{write}
use lftp.HashMap.{
  MapEntry, Map, make_hash, find, push, move_chain, move_chains, new_map, total, primes,
  prime_above, rebuild_map, get,
}
use lftp.HashMap.Chain.{IsChain, no_more, find-elsewhere, make_hash-bound}
use lftp.HashMap.Moving.{AreChains, found, move_chain-found, move_chain-AreChains}

module _ {ℓ} {A : Type ℓ} where
  -- What chains from `i` on do not have stays.
  move_chains-absent :
      (size old : ℕ) (olds : ℕ → List (MapEntry A)) (n i : ℕ) (b : ℕ → List (MapEntry A))
      (k : Bytes)
      → ((j : ℕ) → IsChain old j (olds j))
      → make_hash old k < i
      → found size (move_chains size olds n i b) k ≡ found size b k
  unfolding move_chains
  move_chains-absent size old olds zero i b k c f = refl
  move_chains-absent size old olds (suc n) i b k c f =
      move_chains-absent size old olds n (suc i) (move_chain size (olds i) b) k c (omega arith)
      ∙ move_chain-found size old i (olds i) b k (c i)
      ∙ ap (λ o. or_else o (found size b k)) (find-elsewhere old i k (olds i) (c i) (omega arith))

  move_chains-found :
      (size old : ℕ) (olds : ℕ → List (MapEntry A)) (n i : ℕ) (b : ℕ → List (MapEntry A))
      (k : Bytes)
      → ((j : ℕ) → IsChain old j (olds j))
      → i ≤ make_hash old k
      → make_hash old k < i + n
      → found size (move_chains size olds n i b) k ≡ or_else (found old olds k) (found size b k)
  unfolding move_chains
  move_chains-found size old olds zero i b k c f g = absurd (omega arith)
  move_chains-found size old olds (suc n) i b k c f g =
      let b' = move_chain size (olds i) b in
      let moved = move_chain-found size old i (olds i) b k (c i) in
      elim (decide i (make_hash old k)) [
        | inl e ↦
            move_chains-absent size old olds n (suc i) b' k c (omega arith)
            ∙ moved
            ∙ ap (λ j. or_else (find k (olds j)) (found size b k)) e
        | inr e ↦
            move_chains-found size old olds n (suc i) b' k c (omega arith) (omega arith)
            ∙ ap (or_else (found old olds k)) (
                moved
                ∙ ap (λ o. or_else o (found size b k))
                    (find-elsewhere old i k (olds i) (c i) (λ q. e (sym q))))
      ]
    where
      decide : (a b : ℕ) → (a ≡ b) ⊎ (a ≢ b)
      decide a b =
          if_cases (λ (x : Bool). (a ≡ b) ⊎ (a ≢ b)) (a == b) true false (λ e. inl (ground arith))
            (λ e. inr (ground arith))

  move_chains-AreChains :
      (size old : ℕ) (olds : ℕ → List (MapEntry A)) (n i : ℕ) (b : ℕ → List (MapEntry A))
      → 0 < size
      → ((j : ℕ) → IsChain old j (olds j))
      → ((k : Bytes) → i ≤ make_hash old k → found size b k ≡ none)
      → AreChains size b
      → AreChains size (move_chains size olds n i b)
  unfolding move_chains
  move_chains-AreChains size old olds zero i b z c f v = v
  move_chains-AreChains size old olds (suc n) i b z c f v =
      move_chains-AreChains size old olds n (suc i) (move_chain size (olds i) b) z c
        (λ k p.
          move_chain-found size old i (olds i) b k (c i)
          ∙ ap (λ o. or_else o (found size b k))
              (find-elsewhere old i k (olds i) (c i) (omega arith))
          ∙ f k (omega arith))
        (move_chain-AreChains size old i (olds i) b z (c i) (λ k g. f k (here k g)) v)
    where
      here : (k : Bytes) → find k (olds i) ≢ none → i ≤ make_hash old k
      here k g =
          if_cases (λ (x : Bool). i ≤ make_hash old k) (make_hash old k == i) true false
            (λ e. ground arith)
            (λ e. absurd (g (find-elsewhere old i k (olds i) (c i) (ground arith))))

  pub total-write :
      (n h : ℕ) (b : ℕ → List (MapEntry A)) (c : List (MapEntry A))
      → (h < n → total n (write b h c) + length (b h) ≡ total n b + length c)
        × (n ≤ h → total n (write b h c) ≡ total n b)
  total-write zero h b c = (λ p. absurd (omega arith), λ p. refl)
  total-write (suc n) h b c = ground (arith, total-write n h b c)

  move_chain-total :
      (size : ℕ) (es : List (MapEntry A)) (b : ℕ → List (MapEntry A))
      → 0 < size
      → total size (move_chain size es b) ≡ length es + total size b
  unfolding move_chain
  move_chain-total size [] b z = omega arith
  move_chain-total size (e ∷ es) b z =
      let h = make_hash size e.key in
      omega (
        arith,
        move_chain-total size es (push size e b) z,
        (total-write size h b (e ∷ b h)).0 (make_hash-bound size e.key z),
      )

  move_chains-total :
      (size : ℕ) (olds : ℕ → List (MapEntry A)) (n i : ℕ) (b : ℕ → List (MapEntry A))
      → 0 < size
      → total size (move_chains size olds n i b) + total i olds ≡ total (i + n) olds + total size b
  unfolding move_chains
  move_chains-total size olds zero i b z = ap (λ j. total size b + total j olds) e ∙ omega arith
    where
      e : i ≡ i + 0
      e = omega arith
  move_chains-total size olds (suc n) i b z =
      let e : i + suc n ≡ suc i + n = omega arith in
      omega (
        arith,
        move_chains-total size olds n (suc i) (move_chain size (olds i) b) z,
        move_chain-total size (olds i) b z,
        ap (λ j. total j olds) e,
      )

  -- The map has well-formed chains, and it knows the number of its entries.
  pub record IsMap (m : Map A) : Type ℓ where
    pub sized : 0 < m.hash_size
    pub chains : AreChains m.hash_size m.bucket
    pub counted : m.entry_count ≡ total m.hash_size m.bucket

new_map-total {ℓ} : (A : Type ℓ) (n : ℕ) → total n (new_map {A = A}) ≡ 0
new_map-total A zero = refl
new_map-total A (suc n) = omega (arith, new_map-total A n)

prime_above-ge : (n : ℕ) (ps : List ℕ) → n ≤ prime_above n ps
prime_above-ge n [] = omega arith
prime_above-ge n (p ∷ ps) = ground (arith, prime_above-ge n ps)

prime_above-pos : (n : ℕ) → 0 < prime_above n primes
prime_above-pos zero = omega arith
prime_above-pos (suc n) = omega (arith, prime_above-ge (suc n) primes)

module _ {ℓ} {A : Type ℓ} where
  pub new_map-AreChains : (size : ℕ) → AreChains size (new_map {A = A})
  new_map-AreChains size = record { chain = λ i. no_more; end = λ i p. refl }

  new_map-found : (size : ℕ) (k : Bytes) → found size (new_map {A = A}) k ≡ none
  unfolding find
  new_map-found size k = refl

  pub rebuild_map-IsMap : (m : Map A) → IsMap m → IsMap (rebuild_map m)
  unfolding rebuild_map
  rebuild_map-IsMap m v =
      let size = prime_above (m.entry_count * 2) primes in
      let z = prime_above-pos (m.entry_count * 2) in
      let none_before : 0 + m.hash_size ≡ m.hash_size = omega arith in
      let sum : m.entry_count ≡ total size (move_chains size m.bucket m.hash_size 0 new_map) =
        omega (
          arith,
          move_chains-total size m.bucket m.hash_size 0 new_map z,
          new_map-total A size,
          v.counted,
          ap (λ j. total j m.bucket) none_before,
        ) in
      record {
        sized = z;
        chains =
            move_chains-AreChains size m.hash_size m.bucket m.hash_size 0 new_map z v.chains.chain
              (λ k p. new_map-found size k) (new_map-AreChains size);
        counted = sum;
      }

  pub rebuild_map-get : (m : Map A) (k : Bytes) → IsMap m → get (rebuild_map m) k ≡ get m k
  unfolding rebuild_map
  rebuild_map-get m k v =
      let size = prime_above (m.entry_count * 2) primes in
      move_chains-found size m.hash_size m.bucket m.hash_size 0 new_map k v.chains.chain
        (omega arith) (omega (arith, make_hash-bound m.hash_size k v.sized))
      ∙ ap (or_else (get m k)) (new_map-found size k)
      ∙ or_else-none (get m k)
    where
      or_else-none : (o : Option A) → or_else o none ≡ o
      or_else-none none = refl
      or_else-none (some a) = refl
