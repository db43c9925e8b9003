-- ===== src/Settings/Tests.antt =====
-- Runs of the settings (ResMgr.cc), and their theorems at small states.
use lftp.Prelude.{
  or_else, ◌≡◌, refl, inr, Bool, true, false, none, some, List, [], Bytes, codes, same,
}
use lftp.HashMap.{make_hash, find, get, add, no_entries, each_all, each_next, each_from}
use lftp.Settings.{
  agree, cmp_loop, var_name_cmp, ResType, any_closure, alias_validate, Resource, Settings, search,
  find_var,
}
use lftp.Settings.Find.{reference, find_var-reference}
use lftp.Settings.Values.{value_of, set, query}
use lftp.Settings.Store.{no_more, Puts, settled, set-Puts}

prefix_left_out : var_name_cmp (codes "net:limit-rate") (codes "limit-rate") ≡ agree true false
unfolding var_name_cmp cmp_loop
prefix_left_out = refl

word_left_out : var_name_cmp (codes "net:limit-rate") (codes "net:limit") ≡ agree false true
unfolding var_name_cmp cmp_loop
word_left_out = refl

underscore : var_name_cmp (codes "xfer:log-file") (codes "xfer:log_file") ≡ agree false false
unfolding var_name_cmp cmp_loop
underscore = refl

abbrev rate : ResType
rate = record {
  name = codes "net:limit-rate";
  defvalue = some (codes "0");
  val_valid = none;
  closure_valid = any_closure;
}

abbrev log_file : ResType
log_file = record {
  name = codes "log:file";
  defvalue = some [];
  val_valid = none;
  closure_valid = any_closure;
}

abbrev log_alias : ResType
log_alias = record {
  name = codes "xfer:log-file";
  defvalue = some (codes "log:file/xfer");
  val_valid = none;
  closure_valid = alias_validate;
}

abbrev declared : Settings
declared = record {
  types = add (codes "xfer:log-file") log_alias (add (codes "log:file") log_file no_entries);
  values = λ n. [];
}

-- The alias is resolved by its name, but not when it is written with an underscore.
resolved : find_var declared (codes "xfer:log-file") none ≡ inr (log_file, some (codes "xfer"))
unfolding find_var add find same make_hash
resolved = refl

unresolved : find_var declared (codes "xfer:log_file") none ≡ inr (log_alias, none)
unfolding find_var add find same make_hash search var_name_cmp cmp_loop each_all each_from each_next
unresolved = refl

find_var-reference_example :
    find_var declared (codes "log") none
    ≡ reference declared (codes "log") none (get declared.types (codes "log"))
find_var-reference_example = find_var-reference declared (codes "log") none

abbrev no_match : Bytes → Bytes → Bool
no_match p s = false

abbrev whole_name : Bytes → Bytes
whole_name s = s

set-Puts_example :
    (rs' : List Resource) × (set rate none (some (codes "10")) false [] ≡ inr rs')
    × Puts none (settled (some (codes "10")) false none) [] rs'
    × (query no_match whole_name rate none rs' ≡ or_else (value_of none rs') (some (codes "0")))
set-Puts_example =
    set-Puts no_match whole_name rate none (some (codes "10")) none (some (codes "10")) false []
      refl refl no_more
