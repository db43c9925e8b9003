-- ===== src/HashMap/Laws.antt =====
-- The hash map (xmap.cc) as a map from keys.
use lftp.Prelude.{
  ℕ, ◌+◌, ◌*◌, ◌≡◌, refl, sym, ap, ◌∙◌, subst, true, false, Option, none, some, List, Bytes, same,
  same_iff, if_both, if_cases, if◌then◌else◌, arith, ltb, ◌==◌,
}
use lftp.Prelude.Write.{write}
use lftp.HashMap.{
  MapEntry, Map, make_hash, find, get, store, stored, grown, added, add, cut, removed, remove,
  rebuild_map, no_entries,
}
use lftp.HashMap.Chain.{
  make_hash-bound, find-store_self, find-store-other, find-cut_self, find-cut-other, store-IsChain,
  cut-IsChain, length-store-new, length-store-old, length-cut,
}
use lftp.HashMap.Moving.{AreChains, found, found-write, write-AreChains}
use lftp.HashMap.Rebuild.{total-write, IsMap, new_map-AreChains, rebuild_map-IsMap, rebuild_map-get}

module _ {ℓ} {A : Type ℓ} where
  -- A key with another hash than `k` is another key.
  found-changed :
      (size : ℕ) (b : ℕ → List (MapEntry A)) (c : List (MapEntry A)) (k j : Bytes)
      → same k j ≡ false
      → find j c ≡ find j (b (make_hash size k))
      → found size (write b (make_hash size k) c) j ≡ found size b j
  found-changed size b c k j n p =
      if_cases (λ d. find j d ≡ found size b j) (make_hash size j == make_hash size k) c
        (b (make_hash size j)) (λ e. p ∙ ap (λ i. find j (b i)) (sym (at_place e))) (λ e. refl)
    where
      at_place : {i h : ℕ} → (i == h) ≡ true → i ≡ h
      at_place e = ground arith

  stored-get :
      (k j : Bytes) (v : A) (m : Map A)
      → get (stored k v m) j ≡ (if same k j then some v else get m j)
  stored-get k j v m =
      let h = make_hash m.hash_size k in
      if_cases (λ o. get (stored k v m) j ≡ o) (same k j) (some v) (get m j)
        (λ e.
          subst (λ i. get (stored k v m) i ≡ some v) ((same_iff k j).0 e)
            (found-write m.hash_size m.bucket (store k v (m.bucket h)) k
              ∙ find-store_self k v (m.bucket h)))
        (λ e.
          found-changed m.hash_size m.bucket (store k v (m.bucket h)) k j e
            (find-store-other k j v (m.bucket h) e))

  grown-IsMap : (m : Map A) → IsMap m → IsMap (grown m)
  grown-IsMap m v =
      if_both IsMap (ltb (m.hash_size * 2) m.entry_count) (rebuild_map m) m (rebuild_map-IsMap m v)
        v

  grown-get : (m : Map A) (k : Bytes) → IsMap m → get (grown m) k ≡ get m k
  grown-get m k v =
      if_both (λ n. get n k ≡ get m k) (ltb (m.hash_size * 2) m.entry_count) (rebuild_map m) m
        (rebuild_map-get m k v) refl

  stored-AreChains :
      (k : Bytes) (v : A) (m : Map A) → IsMap m → AreChains m.hash_size (stored k v m).bucket
  stored-AreChains k v m w =
      let h = make_hash m.hash_size k in
      write-AreChains m.hash_size h m.bucket (store k v (m.bucket h))
        (make_hash-bound m.hash_size k w.sized)
        (store-IsChain m.hash_size h k v (m.bucket h) refl (w.chains.chain h)) w.chains

  -- What `add` makes of the map is a map again, and it holds the same but for its key.
  abbrev pub Changes : Bytes → Option A → Map A → Map A → Type ℓ
  Changes k o m m' = IsMap m' × ((j : Bytes) → get m' j ≡ (if same k j then o else get m j))

  added-Changes :
      (k : Bytes) (v : A) (m : Map A) (o : Option A)
      → get m k ≡ o
      → IsMap m
      → Changes k (some v) m (added o (stored k v m))
  added-Changes k v m none e w =
      let h = make_hash m.hash_size k in
      let n = record (stored k v m) { entry_count = m.entry_count + 1 } in
      let x : IsMap n = record {
        sized = w.sized;
        chains = stored-AreChains k v m w;
        counted = omega (
          arith,
          w.counted,
          (total-write m.hash_size h m.bucket (store k v (m.bucket h))).0
              (make_hash-bound m.hash_size k w.sized),
          length-store-new k v (m.bucket h) e,
        );
      } in
      (grown-IsMap n x, λ j. grown-get n j x ∙ stored-get k j v m)
  added-Changes k v m (some u) e w =
      let h = make_hash m.hash_size k in
      (
        record {
          sized = w.sized;
          chains = stored-AreChains k v m w;
          counted = omega (
            arith,
            w.counted,
            (total-write m.hash_size h m.bucket (store k v (m.bucket h))).0
                (make_hash-bound m.hash_size k w.sized),
            length-store-old k v u (m.bucket h) e,
          );
        },
        λ j. stored-get k j v m,
      )

  -- Adding to a well-formed map gives a well-formed map, rebuilt for its size or not. The key has the
  -- new value in it, and every other key what it had.
  pub add-Changes : (k : Bytes) (v : A) (m : Map A) → IsMap m → Changes k (some v) m (add k v m)
  unfolding add
  add-Changes k v m w = added-Changes k v m (get m k) refl w

  removed-Changes :
      (k : Bytes) (m : Map A) (o : Option A)
      → get m k ≡ o
      → IsMap m
      → Changes k none m (removed k m o)
  removed-Changes k m none e w = (
    w,
    λ j.
        if_cases (λ o. get m j ≡ o) (same k j) none (get m j)
          (λ f. subst (λ i. get m i ≡ none) ((same_iff k j).0 f) e) (λ f. refl),
  )
  removed-Changes k m (some u) e w =
      let h = make_hash m.hash_size k in
      let c = w.chains.chain h in
      let m' = removed k m (some u) in
      (
        record {
          sized = w.sized;
          chains =
              write-AreChains m.hash_size h m.bucket (cut k (m.bucket h))
                (make_hash-bound m.hash_size k w.sized) (cut-IsChain m.hash_size h k (m.bucket h) c)
                w.chains;
          counted = omega (
            arith,
            w.counted,
            (total-write m.hash_size h m.bucket (cut k (m.bucket h))).0
                (make_hash-bound m.hash_size k w.sized),
            length-cut k u (m.bucket h) e,
          );
        },
        λ j.
            if_cases (λ o. get m' j ≡ o) (same k j) none (get m j)
              (λ f.
                subst (λ i. get m' i ≡ none) ((same_iff k j).0 f)
                  (found-write m.hash_size m.bucket (cut k (m.bucket h)) k
                    ∙ find-cut_self m.hash_size h k (m.bucket h) c))
              (λ f.
                found-changed m.hash_size m.bucket (cut k (m.bucket h)) k j f
                  (find-cut-other k j (m.bucket h) f)),
      )

  -- Removing from a well-formed map gives a well-formed map without the key, and with what every
  -- other key had.
  pub remove-Changes : (k : Bytes) (m : Map A) → IsMap m → Changes k none m (remove k m)
  unfolding remove
  remove-Changes k m w = removed-Changes k m (get m k) refl w

  pub no_entries-IsMap : IsMap (no_entries {A = A})
  no_entries-IsMap = record { sized = omega arith; chains = new_map-AreChains 1; counted = refl }
