-- ===== src/Settings/Store.antt =====
-- `ResType::Set` (ResMgr.cc) as a map from closures, and what `Query` finds then.
use lftp.Prelude.{
  or_else, ◌≡◌, refl, sym, ap, ◌∙◌, subst, inl, inr, Bool, true, false, Option, none, some, List,
  [], ◌∷◌, Bytes, same_iff, same_refl, Bool-cases, if_cases, if_both, if◌then◌else◌, arith,
}
use lftp.Settings.{ResType, Resource}
use lftp.Settings.Values.{
  same_closure, checked_value, checked_closure, value_of, drop_value, append_value, set_checked,
  set_closure, set_value, set, closure_match, simple_query, query,
}

same_closure-eq : (a b : Option Bytes) → same_closure a b ≡ true → a ≡ b
same_closure-eq none none e = refl
same_closure-eq (some a) (some b) e = ap some ((same_iff a b).0 e)
same_closure-eq none (some b) e = absurd (ground arith)
same_closure-eq (some a) none e = absurd (ground arith)

same_closure_refl : (a : Option Bytes) → same_closure a a ≡ true
same_closure_refl none = refl
same_closure_refl (some a) = same_refl a

same_closure-sym : (a b : Option Bytes) → same_closure a b ≡ false → same_closure b a ≡ false
same_closure-sym a b e = elim (Bool-cases (same_closure b a)) [
  | inl f ↦ absurd (go (sym e ∙ ap (same_closure a) (same_closure-eq b a f) ∙ same_closure_refl a))
  | inr f ↦ f
]
  where
    go : false ≡ true → ⊥
    go y = ground arith

-- No closure has two values.
pub data IsUnique : List Resource → Type 0 where
  no_more : IsUnique []
  more :
      {r : Resource} {rs : List Resource}
      → value_of r.closure rs ≡ none
      → IsUnique rs
      → IsUnique (r ∷ rs)

-- The value of the closure `c` is `v`, and the others are those of `rs`.
abbrev pub Puts : Option Bytes → Option Bytes → List Resource → List Resource → Type 0
Puts c v rs rs' =
    IsUnique rs'
    × ((d : Option Bytes) → value_of d rs' ≡ (if same_closure c d then v else value_of d rs))

value_of-other :
    (c d : Option Bytes) (r : Resource) (rs : List Resource)
    → same_closure r.closure c ≡ true
    → same_closure c d ≡ false
    → value_of d (r ∷ rs) ≡ value_of d rs
value_of-other c d r rs e f =
    rw (ap (λ x. same_closure x d) (same_closure-eq r.closure c e) ∙ f) refl

in_order :
    (a b : Bool) (x o w v : Option Bytes)
    → (b ≡ true → a ≡ false)
    → w ≡ (if a then v else o)
    → (if b then x else w) ≡ (if a then v else if b then x else o)
in_order true true x o w v n e = absurd (go (n refl))
  where
    go : true ≡ false → ⊥
    go y = ground arith
in_order true false x o w v n e = e
in_order false true x o w v n e = refl
in_order false false x o w v n e = e

drop_value-Puts :
    (c : Option Bytes) (rs : List Resource) → IsUnique rs → Puts c none rs (drop_value c rs)
drop_value-Puts c [] u =
    (no_more, λ d. if_both (λ o. none ≡ o) (same_closure c d) none none refl refl)
drop_value-Puts c (r ∷ rs) (more n u) =
    let (w, g) = drop_value-Puts c rs u in
    if_cases (Puts c none (r ∷ rs)) (same_closure r.closure c) rs (r ∷ drop_value c rs)
      (λ e. (
        u,
        λ d.
            if_cases (λ o. value_of d rs ≡ o) (same_closure c d) none (value_of d (r ∷ rs))
              (λ f.
                subst (λ x. value_of x rs ≡ none)
                  (same_closure-eq r.closure c e ∙ same_closure-eq c d f) n)
              (λ f. sym (value_of-other c d r rs e f)),
      ))
      (λ e. (more (g r.closure ∙ rw (same_closure-sym r.closure c e) n) w, λ d. past d e (g d)))
  where
    past :
        (d : Option Bytes)
        → same_closure r.closure c ≡ false
        → value_of d (drop_value c rs) ≡ (if same_closure c d then none else value_of d rs)
        → value_of d (r ∷ drop_value c rs)
          ≡ (if same_closure c d then none else value_of d (r ∷ rs))
    past d e p =
        in_order (same_closure c d) (same_closure r.closure d) (some r.value) (value_of d rs)
          (value_of d (drop_value c rs)) none
          (λ f.
            ap (same_closure c) (sym (same_closure-eq r.closure d f))
            ∙ same_closure-sym r.closure c e)
          p

-- Behind values for other closures.
append_value-Puts :
    (c : Option Bytes) (v : Option Bytes) (def : Bool) (rs : List Resource)
    → IsUnique rs
    → value_of c rs ≡ none
    → Puts c v rs (append_value c v def rs)
append_value-Puts c none def rs u n = (
  u,
  λ d.
      if_cases (λ o. value_of d rs ≡ o) (same_closure c d) none (value_of d rs)
        (λ f. subst (λ x. value_of x rs ≡ none) (same_closure-eq c d f) n) (λ f. refl),
)
append_value-Puts c (some v) def [] u n = (more refl no_more, λ d. refl)
append_value-Puts c (some v) def (r ∷ rs) (more m u) n =
    let other : same_closure r.closure c ≡ false = absent (same_closure r.closure c) n in
    let rest : value_of c rs ≡ none =
      ap (λ b. if b then some r.value else value_of c rs) (sym other) ∙ n in
    let (w, g) = append_value-Puts c (some v) def rs u rest in
    (
      more (g r.closure ∙ rw (same_closure-sym r.closure c other) m) w,
      λ d.
          in_order (same_closure c d) (same_closure r.closure d) (some r.value) (value_of d rs)
            (value_of d (append_value c (some v) def rs)) (some v)
            (λ f.
              ap (same_closure c) (sym (same_closure-eq r.closure d f))
              ∙ same_closure-sym r.closure c other)
            (g d),
    )
  where
    absent : (b : Bool) → (if b then some r.value else value_of c rs) ≡ none → b ≡ false
    absent true e = absurd (ground arith)
    absent false e = refl

-- What `Set` leaves for the closure: a default gives way to a value that is there.
abbrev pub settled : Option Bytes → Bool → Option Bytes → Option Bytes
settled v def none = v
settled v def (some old) = if def then some old else v

set_checked-Puts :
    (c v : Option Bytes) (def : Bool) (o : Option Bytes) (rs : List Resource)
    → IsUnique rs
    → value_of c rs ≡ o
    → Puts c (settled v def o) rs (set_checked c v def o rs)
set_checked-Puts c v def none rs u e = append_value-Puts c v def rs u e
set_checked-Puts c v true (some old) rs u e = (
  u,
  λ d.
      if_cases (λ o. value_of d rs ≡ o) (same_closure c d) (some old) (value_of d rs)
        (λ f. subst (λ x. value_of x rs ≡ some old) (same_closure-eq c d f) e) (λ f. refl),
)
set_checked-Puts c v false (some old) rs u e =
    let (w, g) = drop_value-Puts c rs u in
    let gone : value_of c (drop_value c rs) ≡ none = g c ∙ rw (same_closure_refl c) refl in
    let (x, h) = append_value-Puts c v false (drop_value c rs) w gone in
    (x, λ d. h d ∙ over (same_closure c d) v (value_of d rs) (value_of d (drop_value c rs)) (g d))
  where
    over :
        (b : Bool) (v o p : Option Bytes)
        → p ≡ (if b then none else o)
        → (if b then v else p) ≡ (if b then v else o)
    over true v o p e = refl
    over false v o p e = e

-- Without a closure a query finds the value that is set without one.
simple_query-value_of :
    (matches : Bytes → Bytes → Bool) (basename : Bytes → Bytes) (rs : List Resource)
    → simple_query matches basename none rs ≡ value_of none rs
unfolding simple_query
simple_query-value_of matches basename [] = refl
simple_query-value_of matches basename (r ∷ rs) =
    go r.closure (simple_query-value_of matches basename rs)
  where
    go :
        (c : Option Bytes)
        → simple_query matches basename none rs ≡ value_of none rs
        → (if closure_match matches basename c none
            then some r.value
            else simple_query matches basename none rs)
          ≡ (if same_closure c none then some r.value else value_of none rs)
    go none e = refl
    go (some c) e = e

-- A value and a closure that pass the checks are set: every other closure keeps its value, and the
-- closure has the new one, or for a default the old one where there was one. A query without a closure
-- then finds what is set without one, or the value of the declaration.
pub set-Puts :
    (matches : Bytes → Bytes → Bool) (basename : Bytes → Bytes) (t : ResType)
    (c v c' v' : Option Bytes) (def : Bool) (rs : List Resource)
    → checked_value t v ≡ inr v'
    → checked_closure t.closure_valid c ≡ inr c'
    → IsUnique rs
    → (rs' : List Resource) × (set t c v def rs ≡ inr rs')
      × Puts c' (settled v' def (value_of c' rs)) rs rs'
      × (query matches basename t none rs' ≡ or_else (value_of none rs') t.defvalue)
unfolding set query
set-Puts matches basename t c v c' v' def rs e f u =
    let rs' = set_checked c' v' def (value_of c' rs) rs in
    (
      rs',
      ap (λ x. set_value t.closure_valid c x def rs) e ∙ ap (λ x. set_closure x v' def rs) f,
      set_checked-Puts c' v' def (value_of c' rs) rs u refl,
      ap (λ o. or_else o t.defvalue) (simple_query-value_of matches basename rs'),
    )
