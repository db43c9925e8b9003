-- ===== src/Parse/Command.antt =====
-- `CmdExec::parse_one_cmd` (parsecmd.cc), with `skip_cmd` and `free_used_aliases` (CmdExec.cc).
-- `cmd_buf` is the text from its read pointer on. Where the code keeps `line` and `line_begin`,
-- a step has the rest of the line, and the number of bytes before it is a difference of lengths.
-- `alias_field` is never negative when a step ends, since `skip_cmd` resets it at 0: it is a
-- number. Expansion of an alias starts the line again, so the loop takes fuel.
mod Parts
unfoldable pub use Parts.*
use lftp.Prelude.{
  ℕ, zero, suc, ◌+◌, ◌-◌, Bool, false, ◌&&◌, ◌||◌, List, [], ◌∷◌, ◌++◌, Option, none, some, Bytes,
  codes, peek, peek_next, tail, one_of, ltb, ◌==◌, if◌then◌else◌, length,
}
use lftp.Alias.{Table, find, is_touched}
use lftp.Parse.Words.{
  newline, backslash, skip_space, skip_comment, look, shell_text, arg_move, target_move, read_word,
  read_group,
}

-- What the loop does next: it goes on with a state and a line, or is done.
pub data Next : Type 0 where
  again : Cmd → Bytes → Next
  done : Outcome → Next

-- A word was read that ends before `line`.
unfoldable pub take_word : Table → Cmd → Bytes → Bytes → Next
unfolding expand find
take_word table st word line = elim st.args [
  | _ ∷ _ ↦ again (add_arg st word) line
  | [] ↦ elim (find word table) [
    | none ↦ again (add_arg st word) line
    | some v ↦ elim (expand st v line) [
      | some st' ↦ again st' st'.cmd_buf
      | none ↦ again (add_arg (unexpanded st line) word) line
    ]
  ]
]

abbrev pub is_first : Cmd → Bool
is_first st = length st.args == 0

-- An ordinary word.
unfoldable pub word_step : Table → Cmd → Bytes → Next
unfolding read_word arg_move take_word
word_step table st line = elim (read_word arg_move look 0 [] line) [
  | none ↦ done (finished parse_again st)
  | some (word, rest) ↦ take_word table st word rest
]

-- The line behind leading space, and behind a CR that stands before a newline.
abbrev pub skip_cr : Bytes → Bytes
skip_cr line = if peek line == b'\r' && peek_next line == newline then tail line else line

-- The tests at the beginning of a word, on a line that is not at its end.
unfoldable pub at_word : Table → Cmd → Bytes → Next
unfolding comment shell_command group word_step after_args
at_word table st line =
    if one_of (codes "\n|>;&") (peek line)
    then done (after_args st line)
    else if is_first st && peek line == b'#'
    then done (comment st line)
    else if is_first st && peek line == b'!'
    then done (shell_command st (tail line))
    else if is_first st && peek line == b'('
    then done (group st (tail line))
    else if is_first st && peek line == b'?'
    then again (add_arg st (b'?' ∷ [])) (tail line)
    else word_step table st line

-- One round of the loop for all arguments.
unfoldable pub step : Table → Cmd → Bytes → Next
unfolding at_word skip_space
step table st line =
    let line' = skip_space line in
    if peek line' == backslash && peek_next line' == newline
    then again st (tail (tail line'))
    else elim (skip_cr line') [
      | [] ↦ done (finished parse_again st)
      | c ∷ rest ↦ at_word table st (c ∷ rest)
    ]

unfoldable pub loop : ℕ → Table → Cmd → Bytes → Outcome
unfolding step
loop zero table st line = out_of_fuel
loop (suc fuel) table st line = elim (step table st line) [
  | done o ↦ o
  | again st' line' ↦ loop fuel table st' line'
]

-- The state in which the loop starts on a buffer that is not empty.
abbrev pub started : Cmd → Cmd
started st = record st {
  args = [];
  output = none;
  background = false;
  condition =
      if peek st.cmd_buf == b'&' && peek_next st.cmd_buf == b'&'
      then cond_and
      else if peek st.cmd_buf == b'|' && peek_next st.cmd_buf == b'|'
      then cond_or
      else cond_any;
}

abbrev pub first_line : Bytes → Bytes
first_line buf = if at_condition buf then tail (tail buf) else buf

unfoldable pub parse_buf : ℕ → Table → Cmd → Bytes → Outcome
unfolding loop
parse_buf fuel table st [] =
    finished parse_ok (record st { args = []; output = none; background = false })
parse_buf fuel table st (c ∷ s) = loop fuel table (started st) (first_line (c ∷ s))

unfoldable pub parse_one_cmd : ℕ → Table → Cmd → Outcome
unfolding parse_buf
parse_one_cmd fuel table st = parse_buf fuel table st st.cmd_buf
