-- ===== src/Parse/Command/Parts.antt =====
-- The state of `CmdExec::parse_one_cmd` (parsecmd.cc), and its parts that do not go on with the loop.
use lftp.Prelude.{
  ℕ, ◌+◌, ◌-◌, Bool, ◌&&◌, ◌||◌, List, [], ◌∷◌, ◌++◌, Option, none, some, Bytes, codes, peek,
  peek_next, tail, one_of, ltb, ◌==◌, if◌then◌else◌, length,
}
use lftp.Alias.{is_touched}
use lftp.Parse.Words.{
  skip_space, skip_comment, look, shell_text, target_move, read_word, read_group,
}

pub data Condition : Type 0 where
  cond_any cond_and cond_or : Condition

pub data Output : Type 0 where
  filter : Bytes → Output
  truncate : Bytes → Output
  append : Bytes → Output

pub data Status : Type 0 where
  parse_ok parse_err parse_again : Status

pub record Cmd : Type 0 where
  pub cmd_buf : Bytes
  pub alias_field : ℕ
  pub used_aliases : List Bytes
  pub condition : Condition
  pub args : List Bytes
  pub output : Option Output
  pub background : Bool

pub data Outcome : Type 0 where
  finished : Status → Cmd → Outcome
  out_of_fuel : Outcome

unfoldable pub free_used_aliases : Cmd → Cmd
free_used_aliases st = record st { alias_field = 0; used_aliases = [] }

-- The bytes between `line_begin` and `line`.
abbrev pub consumed : Cmd → Bytes → ℕ
consumed st line = length st.cmd_buf - length line

-- `skip_cmd(line-line_begin)`.
unfoldable pub skip_cmd : Cmd → Bytes → Cmd
unfolding free_used_aliases
skip_cmd st line =
    let field = st.alias_field - consumed st line in
    if field == 0
    then free_used_aliases (record st { cmd_buf = line })
    else record st { cmd_buf = line; alias_field = field }

abbrev pub add_arg : Cmd → Bytes → Cmd
add_arg st a = record st { args = st.args ++ a ∷ [] }

-- A line that begins with `&&` or `||`.
abbrev pub at_condition : Bytes → Bool
at_condition line =
    (peek line == b'&' && peek_next line == b'&') || (peek line == b'|' && peek_next line == b'|')

-- The switch behind `skip_cmd`: the redirection type is a byte, 0 where there is none.
abbrev pub redirected : ℕ → Bytes → Option Output
redirected redir_type target =
    if redir_type == b'|'
    then some (filter target)
    else if redir_type == b'>'
    then some (truncate target)
    else if redir_type == b'+'
    then some (append target)
    else none

-- From the label `cmd_end` on.
unfoldable pub cmd_end : Cmd → ℕ → Bytes → Bytes → Outcome
unfolding skip_cmd
cmd_end st redir_type target line =
    let ended = one_of (codes ";&\n") (peek line) in
    let st' =
      if at_condition line
      then skip_cmd st line
      else if ended
      then skip_cmd (record st { background = peek line == b'&' }) (tail line)
      else skip_cmd st line in
    finished parse_ok (record st' { output = redirected redir_type target })

-- The target of a redirection, from behind the `>`, `|` or `>>`.
unfoldable pub read_target : Cmd → ℕ → Bytes → Outcome
unfolding cmd_end skip_cmd read_word target_move skip_space
read_target st redir_type [] = finished parse_again st
read_target st redir_type (c ∷ line) =
    if one_of (codes "\n;&") c
    then finished parse_err (skip_cmd st line)
    else elim (read_word (target_move redir_type) look 0 [] (c ∷ line)) [
      | none ↦ finished parse_again st
      | some (target, rest) ↦ cmd_end st redir_type target (skip_space rest)
    ]

-- Behind the loop for all arguments.
unfoldable pub after_args : Cmd → Bytes → Outcome
unfolding read_target
after_args st line =
    if at_condition line
    then finished parse_ok (skip_cmd st line)
    else if one_of (codes ">|") (peek line)
    then (if peek_next line == b'>'
        then read_target st b'+' (skip_space (tail (tail line)))
        else read_target st (peek line) (skip_space (tail line)))
    else cmd_end st 0 [] line

-- A comment as the first word.
unfoldable pub comment : Cmd → Bytes → Outcome
unfolding skip_comment skip_cmd
comment st line = elim (skip_comment line) [
  | [] ↦ finished parse_again st
  | c ∷ rest ↦ finished parse_ok (skip_cmd st rest)
]

-- A shell command as the first word, from behind the `!`.
unfoldable pub shell_command : Cmd → Bytes → Outcome
unfolding shell_text skip_cmd skip_space
shell_command st line =
    let st' = add_arg st (b'!' ∷ []) in
    let (text, rest) = shell_text look [] (skip_space line) in
    elim rest [
      | [] ↦ finished parse_again st'
      | c ∷ rest' ↦
          let st'' = skip_cmd st' rest' in
          finished parse_ok (if length text == 0 then st'' else add_arg st'' text)
    ]

-- A group as the first word, from behind the `(`.
unfoldable pub group : Cmd → Bytes → Outcome
unfolding read_group cmd_end skip_space
group st line =
    let st' = add_arg st (b'(' ∷ []) in
    elim (read_group look 1 0 [] line) [
      | none ↦ finished parse_again st'
      | some (text, rest) ↦ cmd_end (add_arg st' text) 0 [] (skip_space rest)
    ]

-- The expansion of an alias with value `v` whose name ends before `line`: `none` where the value
-- is one that was expanded already.
unfoldable pub expand : Cmd → Bytes → Bytes → Option Cmd
unfolding skip_cmd free_used_aliases is_touched
expand st v line =
    let st' = if ltb st.alias_field (consumed st line) then free_used_aliases st else st in
    if is_touched v st'.used_aliases
    then none
    else (let skipped = skip_cmd st' line in
        some (record skipped {
          cmd_buf = v ++ line;
          alias_field = skipped.alias_field + length v;
          used_aliases = v ∷ skipped.used_aliases;
        }))

-- The state in which a word is no alias, or one that is not expanded again.
abbrev pub unexpanded : Cmd → Bytes → Cmd
unexpanded st line = if ltb st.alias_field (consumed st line) then free_used_aliases st else st
