-- ===== src/Settings.antt =====
-- The settings: ResMgr.cc and ResMgr.h.
pub mod Values
pub mod Store
pub mod Find
mod Tests
use lftp.Prelude.{
  ℕ, zero, suc, ◌+◌, ◌*◌, ◌%◌, ◌^◌, ◌⊎◌, inl, inr, Bool, true, false, not, ◌&&◌, ◌||◌, Option, none,
  some, List, [], ◌∷◌, ◌++◌, map, Bytes, codes, peek, peek_next, tail, one_of, same, ◌==◌, ltb, leb,
  if◌then◌else◌,
}
use lftp.HashMap
use lftp.HashMap.{Map, MapEntry, get, each_all}

-- How a full name and the name that is looked for agree: `different`, or which parts are only
-- abbreviations.
pub data CmpRes : Type 0 where
  different : CmpRes
  agree : Bool → Bool → CmpRes

abbrev pub substr_prefix : CmpRes → CmpRes
substr_prefix different = different
substr_prefix (agree p n) = agree true n

abbrev pub substr_name : CmpRes → CmpRes
substr_name different = different
substr_name (agree p n) = agree p true

abbrev pub is_dash : ℕ → Bool
is_dash = one_of (codes "-_")

abbrev pub is_break : ℕ → Bool
is_break = one_of (codes "-_:")

abbrev pub has_colon : Bytes → Bool
has_colon [] = false
has_colon (c ∷ s) = c == b':' || has_colon s

abbrev pub same_letter : ℕ → ℕ → Bool
same_letter c d = c == d || is_dash c && is_dash d

-- The loop of `VarNameCmp`. It takes the next letter of the full name in each round, so it needs no
-- fuel. `skipped` is the result when the letter is left out of the name.
unfoldable pub cmp_loop : Bytes → Bytes → CmpRes
cmp_loop [] [] = agree false false
cmp_loop [] (d ∷ name) = different
cmp_loop (c ∷ good) [] = substr_name (cmp_loop good [])
cmp_loop (c ∷ good) (d ∷ name) =
    let both = cmp_loop good name in
    let rest = cmp_loop good (d ∷ name) in
    let skipped = if has_colon (d ∷ name) then substr_prefix rest else substr_name rest in
    if same_letter c d then both else if is_break d && not (is_break c) then skipped else different

abbrev pub behind_colon : Bytes → Bytes
behind_colon [] = []
behind_colon (c ∷ s) = if c == b':' then s else behind_colon s

unfoldable pub var_name_cmp : Bytes → Bytes → CmpRes
var_name_cmp good name =
    if has_colon good && not (has_colon name)
    then substr_prefix (cmp_loop (behind_colon good) name)
    else cmp_loop good name

-- A validator gives a message, or the value that it leaves.
abbrev pub Validator : Type 0
Validator = Bytes → Bytes ⊎ Bytes

pub data ClosureValid : Type 0 where
  any_closure : ClosureValid
  no_closure : ClosureValid
  has_closure : ClosureValid
  alias_validate : ClosureValid
  closure_by : Validator → ClosureValid

pub record ResType : Type 0 where
  pub name : Bytes
  pub defvalue : Option Bytes
  pub val_valid : Option Validator
  pub closure_valid : ClosureValid

pub record Resource : Type 0 where
  pub value : Bytes
  pub closure : Option Bytes
  pub def : Bool

-- `types_by_name`, and the list of the values of each type.
pub record Settings : Type 0 where
  pub types : Map ResType
  pub values : Bytes → List Resource

pub data Error : Type 0 where
  no_such_variable : Error
  ambiguous_name : Error
  invalid_alias : Error
  invalid : Bytes → Error

abbrev pub is_alias : ResType → Bool
is_alias t = elim t.closure_valid [ alias_validate ↦ true | _ ↦ false ]

-- The variables of the loop of `FindVar`: `*type`, the two exact matches and `sub`.
pub record Search : Type 0 where
  pub best : Option ResType
  pub exact_proto : Bool
  pub exact_name : Bool
  pub sub : ℕ

abbrev pub search_start : Search
search_start = record { best = none; exact_proto = false; exact_name = false; sub = 0 }

abbrev pub no_exact : Search → Bool
no_exact s = not s.exact_proto && not s.exact_name

abbrev pub counted : Search → ℕ
counted s = if no_exact s then 1 else s.sub + 1

-- A round of the loop, where it does not return.
abbrev pub search_step : CmpRes → ResType → Search → Search
search_step different t s = s
search_step (agree false false) t s = s
search_step (agree false true) t s = record s { best = some t; exact_proto = true; sub = counted s }
search_step (agree true false) t s = record s { best = some t; exact_name = true; sub = counted s }
search_step (agree true true) t s =
    if no_exact s then record s { best = some t; sub = s.sub + 1 } else s

abbrev pub is_exact : CmpRes → Bool
is_exact (agree false false) = true
is_exact _ = false

-- The loop: the type that it returns, or the variables behind it.
unfoldable pub search : Bytes → List ResType → Search → ResType ⊎ Search
search name [] s = inr s
search name (t ∷ ts) s =
    let c = var_name_cmp t.name name in
    let rest = search name ts (search_step c t s) in if is_exact c then inl t else rest

-- The text in front of the first slash of an alias, and the text behind it.
abbrev pub before_slash : Bytes → Bytes
before_slash [] = []
before_slash (c ∷ s) = if c == b'/' then [] else c ∷ before_slash s

abbrev pub behind_slash : Option Bytes → Bytes → Option Bytes
behind_slash closure [] = closure
behind_slash closure (c ∷ s) = if c == b'/' then some s else behind_slash closure s

abbrev pub or_empty : Option Bytes → Bytes
or_empty none = []
or_empty (some s) = s

abbrev pub alias_target : Option Bytes → Option ResType → Error ⊎ (ResType × Option Bytes)
alias_target closure none = inl invalid_alias
alias_target closure (some t) = inr (t, closure)

-- The label `found`. The target of an alias may name a closure.
abbrev pub found : Settings → ResType → Option Bytes → Error ⊎ (ResType × Option Bytes)
found s t closure =
    let target = or_empty t.defvalue in
    if is_alias t
    then alias_target (behind_slash closure target) (get s.types (before_slash target))
    else inr (t, closure)

abbrev pub types_of : Settings → List ResType
types_of s = map (λ e. e.value) (each_all s.types)

abbrev pub search_found :
    Settings → Option Bytes → Option ResType → ℕ → Error ⊎ (ResType × Option Bytes)
search_found s closure none n = if n == 0 then inl no_such_variable else inl ambiguous_name
search_found s closure (some t) n = if n == 1 then found s t closure else inl ambiguous_name

-- The loop returns an exact match as it is, an alias too.
abbrev pub search_end :
    Settings → Option Bytes → ResType ⊎ Search → Error ⊎ (ResType × Option Bytes)
search_end s closure (inl t) = inr (t, closure)
search_end s closure (inr v) = search_found s closure v.best v.sub

abbrev pub or_search :
    Settings → Bytes → Option Bytes → Option ResType → Error ⊎ (ResType × Option Bytes)
or_search s name closure (some t) = found s t closure
or_search s name closure none = search_end s closure (search name (types_of s) search_start)

unfoldable pub find_var : Settings → Bytes → Option Bytes → Error ⊎ (ResType × Option Bytes)
find_var s name closure = or_search s name closure (get s.types name)
