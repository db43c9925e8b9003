-- ===== src/Settings/Find.antt =====
-- `ResType::FindVar` (ResMgr.cc): which variable an abbreviated name stands for.
use lftp.Prelude.{
  ℕ, suc, ◌≡◌, refl, ap, ◌∙◌, ◌⊎◌, inl, inr, Bool, true, false, not, ◌&&◌, Option, none, some, List,
  [], ◌∷◌, Bytes, length, if◌then◌else◌, arith,
}
use lftp.HashMap.{get}
use lftp.Settings.{
  CmpRes, different, agree, var_name_cmp, ResType, Settings, Error, no_such_variable,
  ambiguous_name, Search, search_start, search_step, is_exact, search, found, types_of,
  search_found, search_end, or_search, find_var,
}

-- Only one of the two parts is an abbreviation, or both are.
abbrev pub is_half : CmpRes → Bool
is_half (agree false true) = true
is_half (agree true false) = true
is_half _ = false

abbrev pub is_short : CmpRes → Bool
is_short (agree true true) = true
is_short _ = false

-- The first type whose name agrees in both parts.
abbrev pub first_exact : Bytes → List ResType → Option ResType
first_exact name [] = none
first_exact name (t ∷ ts) =
    if is_exact (var_name_cmp t.name name) then some t else first_exact name ts

-- The types that agree in the way `p`, the last one first, in front of `seen`.
abbrev pub matching : (CmpRes → Bool) → Bytes → List ResType → List ResType → List ResType
matching p name [] seen = seen
matching p name (t ∷ ts) seen =
    matching p name ts (if p (var_name_cmp t.name name) then t ∷ seen else seen)

-- What a single type gives, and none or several.
abbrev pub the_only : Settings → Option Bytes → List ResType → Error ⊎ (ResType × Option Bytes)
the_only s closure [] = inl no_such_variable
the_only s closure (t ∷ []) = found s t closure
the_only s closure (t ∷ u ∷ ts) = inl ambiguous_name

-- Types that agree in one part go before those that agree in none.
abbrev pub choose :
    Settings → Option Bytes → List ResType → List ResType → Error ⊎ (ResType × Option Bytes)
choose s closure [] shorts = the_only s closure shorts
choose s closure (t ∷ ts) shorts = the_only s closure (t ∷ ts)

abbrev pub chosen :
    Settings → Bytes → Option Bytes → Option ResType → Error ⊎ (ResType × Option Bytes)
chosen s name closure (some t) = inr (t, closure)
chosen s name closure none =
    choose s closure (matching is_half name (types_of s) [])
      (matching is_short name (types_of s) [])

abbrev pub reference :
    Settings → Bytes → Option Bytes → Option ResType → Error ⊎ (ResType × Option Bytes)
reference s name closure (some t) = found s t closure
reference s name closure none = chosen s name closure (first_exact name (types_of s))

abbrev head? : List ResType → Option ResType
head? [] = none
head? (t ∷ ts) = some t

abbrev is_empty : List ResType → Bool
is_empty [] = true
is_empty (t ∷ ts) = false

-- The variables of the loop stand for the types seen so far.
abbrev Holds : Search → List ResType → List ResType → Type 0
Holds v [] shorts =
    (v.exact_proto ≡ false)
    × (v.exact_name ≡ false)
    × (v.best ≡ head? shorts)
    × (v.sub ≡ length shorts)
Holds v (t ∷ ts) shorts =
    ((not v.exact_proto && not v.exact_name) ≡ false)
    × (v.best ≡ some t)
    × (v.sub ≡ length (t ∷ ts))

abbrev add_half : CmpRes → ResType → List ResType → List ResType
add_half c t hs = if is_half c then t ∷ hs else hs

abbrev add_short : CmpRes → ResType → List ResType → List ResType
add_short c t ss = if is_short c then t ∷ ss else ss

search_step-Holds :
    (c : CmpRes) (t : ResType) (v : Search) (hs ss : List ResType)
    → Holds v hs ss
    → Holds (search_step c t v) (add_half c t hs) (add_short c t ss)
search_step-Holds different t v hs ss h = h
search_step-Holds (agree false false) t v hs ss h = h
search_step-Holds (agree false true) t v [] ss (a, b, c, d) = ground arith
search_step-Holds (agree false true) t v (u ∷ hs) ss (a, b, c) = ground arith
search_step-Holds (agree true false) t v [] ss (a, b, c, d) = ground arith
search_step-Holds (agree true false) t v (u ∷ hs) ss (a, b, c) = ground arith
search_step-Holds (agree true true) t v [] ss (a, b, c, d) = ground arith
search_step-Holds (agree true true) t v (u ∷ hs) ss (a, b, c) = ground arith

not_one :
    (s : Settings) (closure : Option Bytes) (t : ResType) (n : ℕ)
    → search_found s closure (some t) (suc (suc n)) ≡ inl ambiguous_name
not_one s closure t n = ground arith

search_found-the_only :
    (s : Settings) (closure : Option Bytes) (ts : List ResType) (best : Option ResType) (n : ℕ)
    → best ≡ head? ts
    → n ≡ length ts
    → search_found s closure best n ≡ the_only s closure ts
search_found-the_only s closure ts best n e f =
    ap (λ b. search_found s closure b n) e ∙ ap (search_found s closure (head? ts)) f ∙ go ts
  where
    go : (ts : List ResType) → search_found s closure (head? ts) (length ts) ≡ the_only s closure ts
    go [] = refl
    go (t ∷ []) = refl
    go (t ∷ u ∷ ts) = not_one s closure t (length ts)

search_found-choose :
    (s : Settings) (closure : Option Bytes) (v : Search) (hs ss : List ResType)
    → Holds v hs ss
    → search_found s closure v.best v.sub ≡ choose s closure hs ss
search_found-choose s closure v [] ss (a, b, c, d) =
    search_found-the_only s closure ss v.best v.sub c d
search_found-choose s closure v (t ∷ hs) ss (a, b, c) =
    search_found-the_only s closure (t ∷ hs) v.best v.sub b c

-- What the loop comes to when `hs` and `ss` have been seen.
abbrev outcome :
    Settings
    → Bytes
    → Option Bytes
    → List ResType
    → List ResType
    → List ResType
    → Option ResType
    → Error ⊎ (ResType × Option Bytes)
outcome s name closure ts hs ss (some t) = inr (t, closure)
outcome s name closure ts hs ss none =
    choose s closure (matching is_half name ts hs) (matching is_short name ts ss)

outcome-cons :
    (s : Settings) (name : Bytes) (closure : Option Bytes) (t : ResType) (ts hs ss : List ResType)
    (o : Option ResType)
    → outcome s name closure ts
        (add_half (var_name_cmp t.name name) t hs)
        (add_short (var_name_cmp t.name name) t ss)
        o
      ≡ outcome s name closure (t ∷ ts) hs ss o
outcome-cons s name closure t ts hs ss none = refl
outcome-cons s name closure t ts hs ss (some u) = refl

search-outcome :
    (s : Settings) (name : Bytes) (closure : Option Bytes) (ts : List ResType) (v : Search)
    (hs ss : List ResType)
    → Holds v hs ss
    → search_end s closure (search name ts v)
      ≡ outcome s name closure ts hs ss (first_exact name ts)
unfolding search
search-outcome s name closure [] v hs ss h = search_found-choose s closure v hs ss h
search-outcome s name closure (t ∷ ts) v hs ss h =
    let c = var_name_cmp t.name name in
    let v' = search_step c t v in
    go (is_exact c) (search name ts v') (
      search-outcome s name closure ts v' (add_half c t hs) (add_short c t ss)
        (search_step-Holds c t v hs ss h)
      ∙ outcome-cons s name closure t ts hs ss (first_exact name ts))
  where
    go :
        (b : Bool) (r : ResType ⊎ Search)
        → search_end s closure r ≡ outcome s name closure (t ∷ ts) hs ss (first_exact name ts)
        → search_end s closure (if b then inl t else r)
          ≡ outcome s name closure (t ∷ ts) hs ss (if b then some t else first_exact name ts)
    go true r e = refl
    go false r e = e

chosen-outcome :
    (s : Settings) (name : Bytes) (closure : Option Bytes) (o : Option ResType)
    → outcome s name closure (types_of s) [] [] o ≡ chosen s name closure o
chosen-outcome s name closure none = refl
chosen-outcome s name closure (some t) = refl

-- A name stands for the variable of that name. Else it stands for the first whose name it is but for
-- dashes and underscores; else for the only one that it agrees with in one part, or where there is none
-- such, in both parts as an abbreviation. It is an error when there is no variable, or there are several.
pub find_var-reference :
    (s : Settings) (name : Bytes) (closure : Option Bytes)
    → find_var s name closure ≡ reference s name closure (get s.types name)
unfolding find_var
find_var-reference s name closure = go (get s.types name)
  where
    go : (o : Option ResType) → or_search s name closure o ≡ reference s name closure o
    go (some t) = refl
    go none =
        search-outcome s name closure (types_of s) search_start [] [] (refl, refl, refl, refl)
        ∙ chosen-outcome s name closure (first_exact name (types_of s))
