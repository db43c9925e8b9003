-- ===== src/PatternSet/Rules.antt =====
-- What a set of patterns (PatternSet.cc) stands for: rules in the order of their test, of which one is `first`.
use lftp.Prelude.{
  or_else, Bool, false, Option, none, some, List, [], ◌∷◌, ◌++◌, Bytes, if◌then◌else◌,
}
use lftp.PatternSet.{
  Kind, exclude, include, same_kind, Pattern, PatternSet, no_patterns, add, add_first,
}

pub record Rule : Type 0 where
  pub type : Kind
  pub pattern : Pattern

-- The rules before the first, the first, and what stands behind it.
pub data Rules : Type 0 where
  no_rules : Rules
  rules : List Rule → Rule → List Rule → Rules

abbrev pub listed : Rules → List Rule
listed no_rules = []
listed (rules front r back) = front ++ r ∷ back

abbrev pub with_rule : Rule → Rules → Rules
with_rule r no_rules = rules [] r []
with_rule r (rules front x back) = rules (r ∷ front) x back

abbrev pub with_first : Rule → Rules → Rules
with_first r no_rules = rules [] r []
with_first r (rules front x back) = rules front x (r ∷ [])

abbrev pub opposite : Kind → Kind
opposite exclude = include
opposite include = exclude

-- The kind of the first rule that matches, or else the opposite of the last one's.
abbrev pub matching : List Rule → Bytes → Option Kind
matching [] str = none
matching (r ∷ rs) str = if r.pattern str then some r.type else matching rs str

abbrev pub default : List Rule → Option Kind
default [] = none
default (r ∷ []) = some (opposite r.type)
default (r ∷ x ∷ rs) = default (x ∷ rs)

abbrev pub verdict : List Rule → Bytes → Option Kind
verdict rs str = or_else (matching rs str) (default rs)

abbrev pub says : Option Kind → Kind → Bool
says none t = false
says (some u) t = same_kind u t

-- The calls that make a set.
pub data Call : Type 0 where
  adds : Kind → Pattern → Call
  adds_first : Kind → Pattern → Call

abbrev pub set_of : List Call → PatternSet
set_of [] = no_patterns
set_of (adds t p ∷ cs) = add t p (set_of cs)
set_of (adds_first t p ∷ cs) = add_first t p (set_of cs)

abbrev pub rules_of : List Call → Rules
rules_of [] = no_rules
rules_of (adds t p ∷ cs) = with_rule (record { type = t; pattern = p }) (rules_of cs)
rules_of (adds_first t p ∷ cs) = with_first (record { type = t; pattern = p }) (rules_of cs)
