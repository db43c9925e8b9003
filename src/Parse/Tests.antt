-- ===== src/Parse/Tests.antt =====
-- The theorems on the command parser at short lines, and lines parsed by evaluation.
use lftp.Prelude.{◌≡◌, refl, false, [], ◌∷◌, ◌++◌, List, none, Bytes, codes, arith}
use lftp.Alias.{casecmp, Table, entry, find}
use lftp.Parse.Args.{needs_quotation, quoted, combine_quoted}
use lftp.Parse.Command.{Cmd, finished, out_of_fuel, parse_ok, parse_one_cmd, cond_any}
use lftp.Parse.Trail.{AreWords}
use lftp.Parse.RoundTrip.{parse_one_cmd-combine_quoted}
use lftp.Parse.Halts.Steps.{Ends}
use lftp.Parse.Halts.Total.{parse_one_cmd-Ends}
use lftp.Parse.Cycle.{call, parse_one_cmd-out_of_fuel}

abbrev waiting : Bytes → Cmd
waiting s = record {
  cmd_buf = s;
  alias_field = 0;
  used_aliases = [];
  condition = cond_any;
  args = [];
  output = none;
  background = false;
}

abbrev swapped : Table
swapped = entry (codes "a") (codes "b") ∷ entry (codes "b") (codes "a") ∷ []

abbrev two_words : List Bytes
two_words = codes "get" ∷ codes "my file" ∷ []

two_words-AreWords : AreWords two_words
two_words-AreWords = ground arith

parse_one_cmd-combine_quoted_example :
    (st' : Cmd) × (parse_one_cmd 5 [] (waiting (combine_quoted two_words ++ codes ";ls"))
      ≡ finished parse_ok st')
    × (st'.args ≡ two_words)
    × (st'.cmd_buf ≡ codes "ls")
    × (st'.output ≡ none)
    × (st'.background ≡ false)
unfolding needs_quotation quoted find
parse_one_cmd-combine_quoted_example =
    parse_one_cmd-combine_quoted (codes "get") (codes "my file" ∷ []) 5 []
      (waiting (combine_quoted two_words ++ codes ";ls")) (codes "ls") two_words-AreWords refl refl
      refl (omega arith)

parse_one_cmd-Ends_example :
    Ends
      (waiting (codes "get a > b &"))
      (codes "get a > b &")
      (parse_one_cmd 12 [] (waiting (codes "get a > b &")))
unfolding find
parse_one_cmd-Ends_example =
    parse_one_cmd-Ends 12 [] (waiting (codes "get a > b &")) (λ w. refl) (omega arith)

parse_one_cmd-out_of_fuel_example :
    parse_one_cmd 1000 swapped (waiting (call b'a' (codes "ls"))) ≡ out_of_fuel
unfolding casecmp find
parse_one_cmd-out_of_fuel_example =
    parse_one_cmd-out_of_fuel 1000 swapped b'a' b'b' (codes "ls") (waiting (call b'a' (codes "ls")))
      refl refl (omega arith) refl refl refl refl refl
