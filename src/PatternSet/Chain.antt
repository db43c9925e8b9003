-- ===== src/PatternSet/Chain.antt =====
-- `Add`, `AddFirst` and `Match` of PatternSet.cc: the links in memory stand for rules.
use lftp.Prelude.{
  ℕ, zero, suc, ◌+◌, ◌≡◌, ◌≢◌, ◌≤◌, refl, sym, ap, ◌∙◌, subst, not, List, [], ◌∷◌, ◌++◌, Bytes, inl,
  inr, Bool-cases, length, if_nonzero, if_zero, arith, ◌==◌, if◌then◌else◌,
}
use lftp.Prelude.Write.{write, write_same, write_other}
use lftp.PatternSet.{
  Kind, exclude, include, same_kind, Pattern, PatternLink, PatternSet, new_link, add, add_first,
  match_from, match_set,
}
use lftp.PatternSet.Rules.{
  Rule, Rules, no_rules, rules, listed, with_rule, with_first, opposite, verdict, says, Call, adds,
  adds_first, set_of, rules_of,
}

abbrev rule_of : PatternLink → Rule
rule_of l = record { type = l.type; pattern = l.pattern }

-- From `p` on the links stand for `rs`, up to `q`, at addresses given out, none of them `f`.
abbrev Segment : (ℕ → PatternLink) → ℕ → ℕ → ℕ → List Rule → ℕ → Type 0
Segment h n f p [] q = p ≡ q
Segment h n f p (r ∷ rs) q =
    ((p ≢ 0) × (p ≤ n) × (p ≢ f)) × (rule_of (h p) ≡ r) × Segment h n f (h p).next rs q

-- What the links of a set stand for, with no more rules than were made.
abbrev Holds : PatternSet → Rules → Type 0
Holds s no_rules = (s.chain ≡ 0) × (s.first ≡ 0)
Holds s (rules front r back) =
    ((s.first ≢ 0) × (s.first ≤ s.made) × (length front + suc (length back) ≤ s.made))
    × Segment s.link s.made s.first s.chain front s.first
    × (rule_of (s.link s.first) ≡ r)
    × Segment s.link s.made 0 (s.link s.first).next back 0

module _ (h : ℕ → PatternLink) (v : PatternLink) where
  Segment-fresh :
      (n f p : ℕ) (rs : List Rule) (q : ℕ)
      → Segment h n f p rs q
      → Segment (write h (suc n) v) (suc n) f p rs q
  Segment-fresh n f p [] q e = e
  Segment-fresh n f p (r ∷ rs) q ((a, b, c), e, s) =
      let w : write h (suc n) v p ≡ h p = write_other h (suc n) p v (ground arith) in
      (
        (a, omega arith, c),
        ap rule_of w ∙ e,
        subst (λ x. Segment (write h (suc n) v) (suc n) f x.next rs q) (sym w)
            (Segment-fresh n f (h p).next rs q s),
      )

  Segment-write :
      (n f p : ℕ) (rs : List Rule) (q : ℕ) → Segment h n f p rs q → Segment (write h f v) n f p rs q
  Segment-write n f p [] q e = e
  Segment-write n f p (r ∷ rs) q ((a, b, c), e, s) =
      let w : write h f v p ≡ h p = write_other h f p v c in
      (
        (a, b, c),
        ap rule_of w ∙ e,
        subst (λ x. Segment (write h f v) n f x.next rs q) (sym w)
            (Segment-write n f (h p).next rs q s),
      )

-- The links from `p` to the last.
abbrev Whole : (ℕ → PatternLink) → ℕ → List Rule → Type 0
Whole h p [] = p ≡ 0
Whole h p (r ∷ rs) = (p ≢ 0) × (rule_of (h p) ≡ r) × Whole h (h p).next rs

Segment-append :
    (h : ℕ → PatternLink) (n f p : ℕ) (rs us : List Rule) (q : ℕ)
    → Segment h n f p rs q
    → Whole h q us
    → Whole h p (rs ++ us)
Segment-append h n f p [] us q e w = subst (λ x. Whole h x us) (sym e) w
Segment-append h n f p (r ∷ rs) us q ((a, b, c), e, s) w =
    (a, e, Segment-append h n f (h p).next rs us q s w)

Segment-Whole :
    (h : ℕ → PatternLink) (n f p : ℕ) (rs : List Rule) → Segment h n f p rs 0 → Whole h p rs
Segment-Whole h n f p [] s = s
Segment-Whole h n f p (r ∷ rs) ((a, b, c), e, s) = (a, e, Segment-Whole h n f (h p).next rs s)

not-same_kind : (a t : Kind) → not (same_kind a t) ≡ same_kind (opposite a) t
not-same_kind exclude exclude = refl
not-same_kind exclude include = refl
not-same_kind include exclude = refl
not-same_kind include include = refl

match_from-verdict :
    (fuel : ℕ) (h : ℕ → PatternLink) (t : Kind) (str : Bytes) (p : ℕ) (rs : List Rule)
    → length rs ≤ fuel
    → Whole h p rs
    → match_from fuel h t str p ≡ says (verdict rs str) t
unfolding match_from
match_from-verdict zero h t str p [] l w = refl
match_from-verdict zero h t str p (r ∷ rs) l w = absurd (omega arith)
match_from-verdict (suc fuel) h t str p [] l w = rw w refl
match_from-verdict (suc fuel) h t str p (r ∷ []) l (z, e, w) =
    subst (λ r. match_from (suc fuel) h t str p ≡ says (verdict (r ∷ []) str) t) e
      (if_nonzero p _ _ z ∙ (elim (Bool-cases ((h p).pattern str)) [
        | inl y ↦ rw y refl
        | inr y ↦ rw (y, w) (not-same_kind (h p).type t)
      ]))
match_from-verdict (suc fuel) h t str p (r ∷ x ∷ rs) l (z, e, w) =
    let i = match_from-verdict fuel h t str (h p).next (x ∷ rs) (omega arith) w in
    subst (λ r. match_from (suc fuel) h t str p ≡ says (verdict (r ∷ x ∷ rs) str) t) e
      (if_nonzero p _ _ z ∙ (elim (Bool-cases ((h p).pattern str)) [
        | inl y ↦ rw y refl
        | inr y ↦ rw y (if_nonzero (h p).next _ _ w.0 ∙ i)
      ]))

-- The new link at its address, and the old ones at theirs.
abbrev new_rule : Kind → Pattern → Rule
new_rule t p = record { type = t; pattern = p }

abbrev linking : Kind → Pattern → ℕ → PatternLink
linking t p n = record { type = t; pattern = p; next = n }

Holds-single :
    (t : Kind) (p : Pattern) (s : PatternSet)
    → s.chain ≢ 0
    → s.chain ≡ s.first
    → s.first ≤ s.made
    → s.link s.first ≡ linking t p 0
    → Holds s (rules [] (new_rule t p) [])
Holds-single t p s z e l w =
    (((λ y. z (e ∙ y)), l, ground arith), e, ap rule_of w, ap (λ x. x.next) w)

add-Holds :
    (t : Kind) (p : Pattern) (s : PatternSet) (a : Rules)
    → Holds s a
    → Holds (add t p s) (with_rule (new_rule t p) a)
unfolding add
add-Holds t p s no_rules (c, f) =
    let e : (if s.first == 0 then suc s.made else s.first) ≡ suc s.made = if_zero s.first _ _ f in
    Holds-single t p (add t p s) (ground arith) (sym e) (ground arith) (
      ap (write s.link (suc s.made) (linking t p s.chain)) e
      ∙ write_same s.link (suc s.made) (linking t p s.chain)
      ∙ ap (linking t p) c)
add-Holds t p s (rules front r back) ((z, l, m), u, e, v) =
    let new = linking t p s.chain in
    let n = s.made in
    let h = write s.link (suc n) new in
    let same_first : h s.first ≡ s.link s.first =
      write_other s.link (suc n) s.first new (ground arith) in
    let at_new : h (suc n) ≡ new = write_same s.link (suc n) new in
    subst
      (λ x.
        Holds (record (new_link t p s.chain s) { chain = suc n; first = x })
          (rules (new_rule t p ∷ front) r back))
      (sym (if_nonzero s.first (suc n) s.first z))
      (
        (z, omega arith, ground arith),
        (
          (ground arith, omega arith, ground arith),
          ap rule_of at_new,
          subst (λ x. Segment h (suc n) s.first x.next front s.first) (sym at_new)
              (Segment-fresh s.link new n s.first s.chain front s.first u),
        ),
        ap rule_of same_first ∙ e,
        subst (λ x. Segment h (suc n) 0 x.next back 0) (sym same_first)
            (Segment-fresh s.link new n 0 (s.link s.first).next back 0 v),
      )

add_first-Holds :
    (t : Kind) (p : Pattern) (s : PatternSet) (a : Rules)
    → Holds s a
    → Holds (add_first t p s) (with_first (new_rule t p) a)
unfolding add_first
add_first-Holds t p s no_rules (c, f) =
    subst (λ x. Holds x (rules [] (new_rule t p) [])) (sym (if_zero s.first _ _ f))
      (Holds-single t p (record (new_link t p 0 s) { chain = suc s.made; first = suc s.made })
        (ground arith) refl (omega arith) (write_same s.link (suc s.made) (linking t p 0)))
add_first-Holds t p s (rules front r back) ((z, l, m), u, e, v) =
    let new = linking t p 0 in
    let n = s.made in
    let h = write s.link (suc n) new in
    let last = record (h s.first) { next = suc n } in
    let g = write h s.first last in
    let same_first : h s.first ≡ s.link s.first =
      write_other s.link (suc n) s.first new (ground arith) in
    let at_first : g s.first ≡ last = write_same h s.first last in
    let at_new : g (suc n) ≡ new =
      write_other h s.first (suc n) last (ground arith) ∙ write_same s.link (suc n) new in
    subst (λ x. Holds x (rules front r (new_rule t p ∷ []))) (sym (if_nonzero s.first _ _ z))
      (
        (z, omega arith, ground arith),
        Segment-write h last (suc n) s.first s.chain front s.first
            (Segment-fresh s.link new n s.first s.chain front s.first u),
        ap rule_of at_first ∙ ap rule_of same_first ∙ e,
        subst (λ x. Segment g (suc n) 0 x.next (new_rule t p ∷ []) 0) (sym at_first)
            ((ground arith, omega arith, ground arith), ap rule_of at_new, ap (λ x. x.next) at_new),
      )

set_of-Holds : (cs : List Call) → Holds (set_of cs) (rules_of cs)
set_of-Holds [] = (refl, refl)
set_of-Holds (adds t p ∷ cs) = add-Holds t p (set_of cs) (rules_of cs) (set_of-Holds cs)
set_of-Holds (adds_first t p ∷ cs) = add_first-Holds t p (set_of cs) (rules_of cs) (set_of-Holds cs)

length-append_cons :
    (r : Rule) (xs ys : List Rule) → length (xs ++ r ∷ ys) ≡ length xs + suc (length ys)
length-append_cons r [] ys = ground arith
length-append_cons r (x ∷ xs) ys = ground (arith, length-append_cons r xs ys)

match_set-Holds :
    (s : PatternSet) (a : Rules) (t : Kind) (str : Bytes)
    → Holds s a
    → match_set s t str ≡ says (verdict (listed a) str) t
unfolding match_set
match_set-Holds s no_rules t str (c, f) =
    match_from-verdict s.made s.link t str s.chain [] (omega arith) c
match_set-Holds s (rules front r back) t str ((z, l, m), u, e, v) =
    match_from-verdict s.made s.link t str s.chain (front ++ r ∷ back)
      (subst (λ n. n ≤ s.made) (sym (length-append_cons r front back)) m)
      (Segment-append s.link s.made s.first s.chain front (r ∷ back) s.first u
        (z, e, Segment-Whole s.link s.made 0 (s.link s.first).next back v))

-- A set of patterns made by any calls of `Add` and `AddFirst` matches a string with a kind exactly when that is the
-- kind of the first rule whose pattern matches, or, when none does, is not the kind of the last rule; a set without
-- patterns matches nothing. `Add` puts its rule before the others, and `AddFirst` behind the one that was made first,
-- in place of what was there.
pub match_set-verdict :
    (cs : List Call) (t : Kind) (str : Bytes)
    → match_set (set_of cs) t str ≡ says (verdict (listed (rules_of cs)) str) t
match_set-verdict cs t str = match_set-Holds (set_of cs) (rules_of cs) t str (set_of-Holds cs)
