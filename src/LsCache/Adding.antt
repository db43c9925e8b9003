-- ===== src/LsCache/Adding.antt =====
-- `LsCache::Add` and `LsCache::Find` (LsCache.cc): a listing that was added is found.
use lftp.Prelude.{
  ℕ, ◌≡◌, refl, ap, ◌∙◌, Bool, true, false, ◌&&◌, ◌||◌, Option, none, some, List, [], ◌∷◌,
  same_refl, arith, inl, inr, Bool-cases, if◌then◌else◌,
}
use lftp.Prelude.Int.{ℤ, negsuc, eq_ℤ}
use lftp.LsCache.{
  Place, Listing, CacheEntry, Config, is_past, after, is_stopped, matches, first_match, trim,
  if_live, find, listing_of, find_data, set_data, new_entry, add_found, is_skipped, add,
}

eq_ℤ_refl : (a : ℤ) → eq_ℤ a a ≡ true
eq_ℤ_refl a = ground arith

module _ {L : Type 0} (cfg : Config L) (now : ℕ) (p : Place L) (d : Listing) where
  first_match-set_data :
      (es : List (CacheEntry L)) (e : CacheEntry L)
      → first_match cfg p es ≡ some e
      → first_match cfg p (set_data cfg p d es) ≡ some (record e { listing = d })
  first_match-set_data [] e h = absurd (ground arith)
  first_match-set_data (x ∷ es) e h = elim (Bool-cases (matches cfg p x)) [
    | inl y ↦ rw (y, y) (ap changed (some_eq y h))
    | inr y ↦ rw (y, y) (first_match-set_data es e (rest y h))
  ]
    where
      changed : CacheEntry L → Option (CacheEntry L)
      changed x = some (record x { listing = d })

      some_eq : matches cfg p x ≡ true → first_match cfg p (x ∷ es) ≡ some e → x ≡ e
      some_eq y h = ground arith

      rest :
          matches cfg p x ≡ false
          → first_match cfg p (x ∷ es) ≡ some e
          → first_match cfg p es ≡ some e
      rest y h = ground arith

  -- The place has a location that is its own, its host is enabled, and what is added for it does not stop at once.
  abbrev pub IsCached : Type 0
  IsCached =
      (cfg.same_location p.loc p.loc ≡ true)
      × (cfg.enabled p.loc ≡ true)
      × (is_skipped cfg p d ≡ false)
      × (is_past now (after now (cfg.expire d.err_code p.loc)) ≡ false)

  find_data-first_match :
      (es : List (CacheEntry L)) (x : CacheEntry L)
      → cfg.enabled p.loc ≡ true
      → first_match cfg p es ≡ some x
      → is_stopped now x ≡ false
      → find_data cfg now p es ≡ some x.listing
  find_data-first_match es x enabled e s =
      rw enabled (ap (λ o. listing_of (if_live cfg now es o).0) e ∙ rw s refl)

  new_entry-found :
      (es : List (CacheEntry L))
      → IsCached
      → find_data cfg now p (new_entry cfg now p d ∷ es) ≡ some d
  new_entry-found es (l, enabled, k, s) =
      find_data-first_match (new_entry cfg now p d ∷ es) (new_entry cfg now p d) enabled
        (rw matched refl) s
    where
      matched : matches cfg p (new_entry cfg now p d) ≡ true
      matched = rw (eq_ℤ_refl p.mode, same_refl p.arg, l) (either (eq_ℤ p.mode (negsuc 0)))
        where
          either : (b : Bool) → ((b || true) && true) ≡ true
          either true = refl
          either false = refl

  add_new :
      (t : List (CacheEntry L))
      → IsCached
      → find_data cfg now p (add_found cfg now p d (none, t)) ≡ some d
  add_new t v =
      ap (λ b. find_data cfg now p (if b then new_entry cfg now p d ∷ t else t)) v.1
      ∙ new_entry-found t v

  add_found-found :
      (t : List (CacheEntry L)) (o : Option (CacheEntry L))
      → first_match cfg p t ≡ o
      → IsCached
      → find_data cfg now p (add_found cfg now p d (if_live cfg now t o)) ≡ some d
  add_found-found t none e v = add_new t v
  add_found-found t (some x) e v = elim (Bool-cases (is_stopped now x)) [
    | inl y ↦ rw y (add_new (trim cfg now t) v)
    | inr y ↦ rw y (
        find_data-first_match (set_data cfg p d t) (record x { listing = d }) v.1
          (first_match-set_data t x e) y)
  ]

  -- A listing that `Add` keeps is what `Find` then gives for the same place, whether the place was in the cache, was
  -- there with a timer that had stopped, or is new. The location is the same as itself, the caching is enabled for
  -- the host, and the listing does not expire at once.
  pub find_data-add :
      (es : List (CacheEntry L)) → IsCached → find_data cfg now p (add cfg now p d es) ≡ some d
  unfolding add
  find_data-add es v =
      let t = trim cfg now es in
      rw v.2 (
        ap (λ r. find_data cfg now p (add_found cfg now p d r)) (opened t)
        ∙ add_found-found t (first_match cfg p t) refl v)
    where
      opened :
          (t : List (CacheEntry L)) → find cfg now p t ≡ if_live cfg now t (first_match cfg p t)
      opened t = rw v.1 refl
