-- ===== src/Settings/Values.antt =====
-- The values of a variable (ResMgr.cc): `ResType::Set`, `SimpleQuery` and `Query`.
use lftp.Prelude.{
  or_else, ◌⊎◌, inl, inr, Bool, true, false, not, ◌&&◌, ◌||◌, Option, none, some, List, [], ◌∷◌,
  ◌++◌, Bytes, codes, peek, peek_next, tail, same, if◌then◌else◌, ◌==◌,
}
use lftp.Settings.{
  Validator, ClosureValid, no_closure, has_closure, alias_validate, closure_by, ResType, Resource,
  Error, invalid,
}

-- `!xstrcmp(a,b)` for texts that may be null.
abbrev pub same_closure : Option Bytes → Option Bytes → Bool
same_closure none none = true
same_closure (some a) (some b) = same a b
same_closure _ _ = false

abbrev pub by_validator : Bytes ⊎ Bytes → Error ⊎ Option Bytes
by_validator (inl message) = inl (invalid message)
by_validator (inr c) = inr (some c)

abbrev pub validated : Option Validator → Bytes → Error ⊎ Option Bytes
validated none v = inr (some v)
validated (some valid) v = by_validator (valid v)

abbrev pub checked_value : ResType → Option Bytes → Error ⊎ Option Bytes
checked_value t none = inr none
checked_value t (some v) = validated t.val_valid v

abbrev pub checked_closure : ClosureValid → Option Bytes → Error ⊎ Option Bytes
checked_closure has_closure none = inl (invalid (codes "a closure is required for this setting"))
checked_closure has_closure (some []) =
    inl (invalid (codes "a closure is required for this setting"))
checked_closure no_closure (some c) = inl (invalid (codes "no closure defined for this setting"))
checked_closure alias_validate (some c) = inl (invalid [])
checked_closure (closure_by valid) (some c) = by_validator (valid c)
checked_closure _ closure = inr closure

-- The value that is set for just this closure.
abbrev pub value_of : Option Bytes → List Resource → Option Bytes
value_of c [] = none
value_of c (r ∷ rs) = if same_closure r.closure c then some r.value else value_of c rs

abbrev pub drop_value : Option Bytes → List Resource → List Resource
drop_value c [] = []
drop_value c (r ∷ rs) = if same_closure r.closure c then rs else r ∷ drop_value c rs

abbrev pub append_value : Option Bytes → Option Bytes → Bool → List Resource → List Resource
append_value c none def rs = rs
append_value c (some v) def rs = rs ++ record { value = v; closure = c; def = def } ∷ []

-- The list of the variable behind the checks. A default leaves a value that is there.
abbrev pub set_checked :
    Option Bytes → Option Bytes → Bool → Option Bytes → List Resource → List Resource
set_checked c v def none rs = append_value c v def rs
set_checked c v def (some old) rs = if def then rs else append_value c v def (drop_value c rs)

abbrev pub set_closure :
    Error ⊎ Option Bytes → Option Bytes → Bool → List Resource → Error ⊎ List Resource
set_closure (inl message) v def rs = inl message
set_closure (inr c) v def rs = inr (set_checked c v def (value_of c rs) rs)

abbrev pub set_value :
    ClosureValid
    → Option Bytes
    → Error ⊎ Option Bytes
    → Bool
    → List Resource
    → Error ⊎ List Resource
set_value valid c (inl message) def rs = inl message
set_value valid c (inr v) def rs = set_closure (checked_closure valid c) v def rs

-- `ResType::Set`: a message, or the values of the variable.
unfoldable pub set :
    ResType → Option Bytes → Option Bytes → Bool → List Resource → Error ⊎ List Resource
set t c v def rs = set_value t.closure_valid c (checked_value t v) def rs

-- `matches` is `fnmatch`, and `basename` is `basename_ptr`.
module _ (matches : Bytes → Bytes → Bool) (basename : Bytes → Bytes) where
  abbrev pub is_domain : Bytes → Bytes → Bool
  is_domain pattern data_text =
      peek pattern == b'*' && peek_next pattern == b'.' && same (tail (tail pattern)) data_text

  abbrev pub closure_match : Option Bytes → Option Bytes → Bool
  closure_match none none = true
  closure_match (some c) (some d) =
      is_domain c d || matches c d || not (same (basename d) d) && matches c (basename d)
  closure_match _ _ = false

  unfoldable pub simple_query : Option Bytes → List Resource → Option Bytes
  simple_query d [] = none
  simple_query d (r ∷ rs) = if closure_match r.closure d then some r.value else simple_query d rs

  abbrev pub closure_query : Option Bytes → List Resource → Option Bytes
  closure_query none rs = none
  closure_query (some d) rs = simple_query (some d) rs

  -- `ResType::Query`.
  unfoldable pub query : ResType → Option Bytes → List Resource → Option Bytes
  query t d rs = or_else (closure_query d rs) (or_else (simple_query none rs) t.defvalue)
