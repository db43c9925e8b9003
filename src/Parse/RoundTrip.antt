-- ===== src/Parse/RoundTrip.antt =====
-- `CombineQuotedTo` (CmdExec.cc) writes a command line that `parse_one_cmd` (parsecmd.cc) reads
-- back word for word.
use lftp.Prelude.{
  ℕ, suc, ◌+◌, ◌-◌, ◌<◌, ◌≡◌, refl, ap, ◌∙◌, false, List, [], ◌∷◌, ◌++◌, append_assoc, append-nil,
  none, Bytes, length, length-append, arith,
}
use lftp.Alias.{Table, find}
use lftp.Parse.Words.{skip_space}
use lftp.Parse.Args.{quoted, combine_quoted}
use lftp.Parse.Command.{
  Cmd, finished, parse_ok, again, add_arg, take_word, at_word, step, is_first, loop, started,
  first_line, parse_buf, parse_one_cmd, skip_cmd, after_args, cmd_end,
}
use lftp.Parse.Quote.{IsOneLine}
use lftp.Parse.Trail.{
  AreWords, IsPlain, combine_quoted-trail, is_special, quoted_begin, step-trail, step_space, trail,
}

-- The state after the words are read.
abbrev with_args : Cmd → List Bytes → Cmd
with_args st as' = record st { args = st.args ++ as' }

-- A round for each word.
abbrev rounds : List Bytes → ℕ → ℕ
rounds [] fuel = fuel
rounds (a ∷ as') fuel = suc (rounds as' fuel)

take_word_later :
    (table : Table) (st : Cmd) (word line : Bytes)
    → is_first st ≡ false
    → take_word table st word line ≡ again (add_arg st word) line
unfolding take_word
take_word_later table st word line f = ground arith

is_first-add_arg : (st : Cmd) (a : Bytes) → is_first (add_arg st a) ≡ false
is_first-add_arg st a = ground (arith, length-append st.args (a ∷ []))

loop-trail :
    (as' : List Bytes) (fuel : ℕ) (table : Table) (st : Cmd) (rest : Bytes)
    → AreWords as'
    → is_first st ≡ false
    → loop (rounds as' fuel) table st (trail as' rest)
      ≡ loop fuel table (with_args st as') (b';' ∷ rest)
unfolding loop trail
loop-trail [] fuel table st rest w f = ground (arith, append-nil st.args)
loop-trail (a ∷ as') fuel table st rest (ne, l, w) f =
    let one : step table st (b' ' ∷ (quoted a ++ trail as' rest))
        ≡ again (add_arg st a) (trail as' rest) =
      step_space table st (quoted a ++ trail as' rest)
      ∙ step-trail table st a as' rest ne l (ground arith)
      ∙ take_word_later table st a (trail as' rest) f in
    rw (one, loop)
      (loop-trail as' fuel table (add_arg st a) rest w (is_first-add_arg st a)
        ∙ ground (arith, append_assoc st.args (a ∷ []) as'))

take_word_first :
    (table : Table) (st : Cmd) (word line : Bytes)
    → st.args ≡ []
    → find word table ≡ none
    → take_word table st word line ≡ again (add_arg st word) line
unfolding take_word
take_word_first table st word line e f = ground arith

loop_end :
    (fuel : ℕ) (table : Table) (st : Cmd) (rest : Bytes)
    → loop (suc fuel) table st (b';' ∷ rest)
      ≡ finished parse_ok
          (record (skip_cmd (record st { background = false }) rest) { output = none })
unfolding loop step skip_space at_word after_args cmd_end
loop_end fuel table st rest = refl

loop-combine_quoted :
    (a : Bytes) (as' : List Bytes) (fuel : ℕ) (table : Table) (st : Cmd) (rest : Bytes)
    → AreWords (a ∷ as')
    → is_special a ≡ false
    → find a table ≡ none
    → st.args ≡ []
    → loop (rounds (a ∷ as') (suc fuel)) table st (quoted a ++ trail as' rest)
      ≡ finished parse_ok
          (record (skip_cmd (record (with_args st (a ∷ as')) { background = false }) rest) {
            output = none;
          })
unfolding loop
loop-combine_quoted a as' fuel table st rest (ne, l, w) special f e =
    let one : step table st (quoted a ++ trail as' rest) ≡ again (add_arg st a) (trail as' rest) =
      step-trail table st a as' rest ne l (ground arith)
      ∙ take_word_first table st a (trail as' rest) e f in
    rw (one, loop)
      (loop-trail as' (suc fuel) table (add_arg st a) rest w (is_first-add_arg st a)
        ∙ loop_end fuel table (with_args (add_arg st a) as') rest
        ∙ ground (arith, append_assoc st.args (a ∷ []) as'))

rounds_eq : (as' : List Bytes) (fuel : ℕ) → rounds as' fuel ≡ length as' + fuel
rounds_eq [] fuel = omega arith
rounds_eq (a ∷ as') fuel = omega (arith, rounds_eq as' fuel)

parse_buf-line :
    (fuel : ℕ) (table : Table) (st : Cmd) (x : ℕ) (s t : Bytes)
    → IsOneLine (x ∷ s)
    → parse_buf fuel table st (quoted (x ∷ s) ++ t)
      ≡ loop fuel table (started st) (quoted (x ∷ s) ++ t)
unfolding parse_buf
parse_buf-line fuel table st x s t l =
    let (h, u, eq, p) = quoted_begin x s l in rw (eq, first_line_plain h (u ++ t) p)
  where
    first_line_plain : (h : ℕ) (u : Bytes) → IsPlain h → first_line (h ∷ u) ≡ h ∷ u
    first_line_plain h u p = ground arith

skip_cmd-fields :
    (st : Cmd) (rest : Bytes)
    → ((skip_cmd st rest).args ≡ st.args)
      × ((skip_cmd st rest).cmd_buf ≡ rest)
      × ((skip_cmd st rest).background ≡ st.background)
unfolding skip_cmd
skip_cmd-fields st rest = ground arith

-- Words that are not empty and hold no line end, written by `combine_quoted` and ended by `;`,
-- are parsed as exactly those words, with no redirection and in the foreground, and what is behind
-- the `;` stays in the buffer. The first word is no alias and does not begin a comment, a shell
-- command, a group or a question mark. Fuel above the number of words is enough.
pub parse_one_cmd-combine_quoted :
    (a : Bytes) (as' : List Bytes) (fuel : ℕ) (table : Table) (st : Cmd) (rest : Bytes)
    → AreWords (a ∷ as')
    → is_special a ≡ false
    → find a table ≡ none
    → st.cmd_buf ≡ combine_quoted (a ∷ as') ++ b';' ∷ rest
    → length (a ∷ as') < fuel
    → (st' : Cmd) × (parse_one_cmd fuel table st ≡ finished parse_ok st')
      × (st'.args ≡ a ∷ as')
      × (st'.cmd_buf ≡ rest)
      × (st'.output ≡ none)
      × (st'.background ≡ false)
unfolding parse_one_cmd
parse_one_cmd-combine_quoted [] as' fuel table st rest (ne, l, w) special f e h = absurd (ne refl)
parse_one_cmd-combine_quoted (x ∷ s) as' fuel table st rest (ne, l, w) special f e h =
    let last = fuel - length ((x ∷ s) ∷ as') - 1 in
    let enough : fuel ≡ rounds ((x ∷ s) ∷ as') (suc last) =
      omega (arith, rounds_eq ((x ∷ s) ∷ as') (suc last)) in
    let st' : Cmd = record (with_args (started st) ((x ∷ s) ∷ as')) { background = false } in
    let (args_are, buf_is, fore) = skip_cmd-fields st' rest in
    (
      record (skip_cmd st' rest) { output = none },
      ap (parse_buf fuel table st) (e ∙ combine_quoted-trail (x ∷ s) as' rest)
          ∙ parse_buf-line fuel table st x s (trail as' rest) l
          ∙ ap (λ n. loop n table (started st) (quoted (x ∷ s) ++ trail as' rest)) enough
          ∙ loop-combine_quoted (x ∷ s) as' last table (started st) rest (ne, l, w) special f refl,
      args_are,
      buf_is,
      refl,
      fore,
    )
