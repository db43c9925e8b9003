-- ===== src/Parse/Halts/Total.antt =====
-- The loop of `parse_one_cmd` (parsecmd.cc) over a table in which no word is an alias.
use lftp.Prelude.{
  ℕ, zero, suc, ◌<◌, ◌≡◌, ◌≢◌, refl, sym, ◌∙◌, false, ◌&&◌, [], ◌∷◌, Option, none, some, Bytes,
  peek, peek_next, tail, length, arith, ◌==◌, if_both, if_cases, one_of, codes,
}
use lftp.Alias.{Table, find}
use lftp.Parse.Words.{
  newline, backslash, is_space, skip_space, Mode, look, drop, take, Move, stop, skip_pair, skip_one,
  escape, close, keep, open_quote, follow, arg_move, read_word,
}
use lftp.Parse.Command.{
  Cmd, Outcome, Status, finished, out_of_fuel, parse_again, Next, again, done, add_arg, take_word,
  word_step, at_word, step, skip_cr, is_first, loop, started, first_line, at_condition, parse_buf,
  parse_one_cmd,
}
use lftp.Prelude.Rest.{IsRest, here, there, IsRest-trans, IsRest-length, tail-IsRest}
use lftp.Parse.Halts.Scans.{skip_space-IsRest, RestIn, read_word-RestIn}
use lftp.Parse.Halts.Steps.{Ends, after_args-Ends, comment-Ends, shell_command-Ends, group-Ends}

-- No word is an alias.
abbrev pub NoAlias : Table → Type 0
NoAlias table = (w : Bytes) → find w table ≡ none

-- A round of the loop ends the parse, or goes on with a shorter rest of the same buffer.
abbrev Good : Cmd → Bytes → Next → Type 0
Good st line (done o) = Ends st line o
Good st line (again st' line') =
    (st'.cmd_buf ≡ st.cmd_buf) × IsRest line' line × (length line' < length line)

Ends-IsRest : (st : Cmd) (t s : Bytes) (o : Outcome) → IsRest t s → Ends st t o → Ends st s o
Ends-IsRest st t s (finished Status.parse_again st') h e = e
Ends-IsRest st t s (finished Status.parse_ok st') h e = IsRest-trans e h
Ends-IsRest st t s (finished Status.parse_err st') h e = IsRest-trans e h
Ends-IsRest st t s out_of_fuel h e = e

-- At a byte that may begin a word, the word takes at least that byte.
first_byte-RestIn :
    (c : ℕ) (s : Bytes)
    → arg_move 0 c (peek s) ≢ stop
    → RestIn s (read_word arg_move look 0 [] (c ∷ s))
unfolding read_word
first_byte-RestIn c s h =
    go (arg_move 0 c (peek s)) h (λ m q acc. read_word-RestIn arg_move m q acc s)
  where
    go :
        (v : Move)
        → v ≢ stop
        → ((m : Mode) (q : ℕ) (acc : Bytes) → RestIn s (read_word arg_move m q acc s))
        → RestIn s (follow v 0 c [] (some ([], c ∷ s)) λ m q acc. read_word arg_move m q acc s)
    go stop n k = absurd (n refl)
    go skip_pair n k = k drop 0 []
    go skip_one n k = k look 0 []
    go escape n k = k take 0 []
    go close n k = k look 0 []
    go keep n k = k look 0 (c ∷ [])
    go (open_quote d) n k = k look d []

move-ne-stop :
    (c n : ℕ) → is_space c ≡ false → one_of (codes "\n|>;&") c ≡ false → arg_move 0 c n ≢ stop
unfolding arg_move
move-ne-stop c n h k e = ground arith

take_word-NoAlias :
    (table : Table) (st : Cmd) (word rest : Bytes)
    → NoAlias table
    → take_word table st word rest ≡ again (add_arg st word) rest
unfolding take_word
take_word-NoAlias table st word rest h = ground (arith, h word)

module _ (table : Table) (none_is : NoAlias table) where
  word_step-Good :
      (st : Cmd) (c : ℕ) (s line : Bytes)
      → IsRest (c ∷ s) line
      → is_space c ≡ false
      → one_of (codes "\n|>;&") c ≡ false
      → Good st line (word_step table st (c ∷ s))
  unfolding word_step
  word_step-Good st c s line h space k =
      go _ (first_byte-RestIn c s (move-ne-stop c (peek s) space k))
    where
      go :
          (o : Option (Bytes × Bytes))
          → RestIn s o
          → Good st line (elim o [
            | none ↦ done (finished parse_again st)
            | some (word, rest) ↦ take_word table st word rest
          ])
      go none r = refl
      go (some (word, rest)) r = rw (take_word-NoAlias table st word rest none_is) (
        refl,
        IsRest-trans r (IsRest-trans (there (here refl)) h),
        omega (arith, IsRest-length r, IsRest-length h),
      )

  at_word-Good :
      (st : Cmd) (c : ℕ) (s line : Bytes)
      → IsRest (c ∷ s) line
      → is_space c ≡ false
      → Good st line (at_word table st (c ∷ s))
  unfolding at_word
  at_word-Good st c s line h space =
      let P = Good st line in
      let h' : IsRest s line = IsRest-trans (there (here refl)) h in
      if_cases P (one_of (codes "\n|>;&") c) _ _
        (λ _. Ends-IsRest st (c ∷ s) line _ h (after_args-Ends st (c ∷ s)))
        λ k.
          if_both P (is_first st && c == b'#') _ _
            (Ends-IsRest st (c ∷ s) line _ h (comment-Ends st (c ∷ s)))
            (if_both P (is_first st && c == b'!') _ _ (shell_command-Ends st s line h') (
              if_both P (is_first st && c == b'(') _ _ (group-Ends st s line h') (
                if_both P (is_first st && c == b'?') _ _ (refl, h', omega (arith, IsRest-length h))
                  (word_step-Good st c s line h space k))))

skip_cr-IsRest : (s : Bytes) → IsRest (skip_cr s) s
skip_cr-IsRest s =
    if_both (λ (t : Bytes). IsRest t s) (peek s == b'\r' && peek_next s == newline) _ _
      (tail-IsRest s) (here refl)

skip_space_head : (s : Bytes) → is_space (peek (skip_space s)) ≡ false
unfolding skip_space
skip_space_head [] = refl
skip_space_head (c ∷ s) = ground (arith, skip_space_head s)

skip_cr_head : (s : Bytes) → is_space (peek s) ≡ false → is_space (peek (skip_cr s)) ≡ false
skip_cr_head [] h = refl
skip_cr_head (c ∷ s) h = ground arith

length-tail-tail : (s : Bytes) → peek s ≡ backslash → length (tail (tail s)) < length s
length-tail-tail [] h = ground arith
length-tail-tail (c ∷ []) h = omega arith
length-tail-tail (c ∷ d ∷ s) h = omega arith

module _ (table : Table) (none_is : NoAlias table) where
  step-Good : (st : Cmd) (line : Bytes) → Good st line (step table st line)
  unfolding step
  step-Good st line =
      let line' : Bytes = skip_space line in
      let rest : IsRest line' line = skip_space-IsRest line in
      if_cases (Good st line) (peek line' == backslash && peek_next line' == newline) _ _
        (λ k. (
          refl,
          IsRest-trans (IsRest-trans (tail-IsRest (tail line')) (tail-IsRest line')) rest,
          omega (arith, length-tail-tail line' (ground arith), IsRest-length rest),
        ))
        λ _.
          go (skip_cr line') (IsRest-trans (skip_cr-IsRest line') rest)
            (skip_cr_head line' (skip_space_head line))
    where
      go :
          (t : Bytes)
          → IsRest t line
          → is_space (peek t) ≡ false
          → Good st line (elim t [
            | [] ↦ done (finished parse_again st)
            | c ∷ rest ↦ at_word table st (c ∷ rest)
          ])
      go [] h k = refl
      go (c ∷ s) h k = at_word-Good table none_is st c s line h k

  Ends_later :
      (st st' : Cmd) (s : Bytes) (o : Outcome)
      → st'.cmd_buf ≡ st.cmd_buf
      → Ends st' s o
      → Ends st s o
  Ends_later st st' s (finished Status.parse_again x) e h = h ∙ e
  Ends_later st st' s (finished Status.parse_ok x) e h = h
  Ends_later st st' s (finished Status.parse_err x) e h = h
  Ends_later st st' s out_of_fuel e h = h

  loop-Ends :
      (fuel : ℕ) (st : Cmd) (line : Bytes)
      → length line < fuel
      → Ends st line (loop fuel table st line)
  unfolding loop
  loop-Ends zero st line h = absurd (omega arith)
  loop-Ends (suc fuel) st line h =
      go (step table st line) (step-Good st line) λ st' line' k. loop-Ends fuel st' line' k
    where
      go :
          (n : Next)
          → Good st line n
          → ((st' : Cmd) (line' : Bytes)
              → length line' < fuel
              → Ends st' line' (loop fuel table st' line'))
          → Ends st line (elim n [ done o ↦ o | again st' line' ↦ loop fuel table st' line' ])
      go (done o) g k = g
      go (again st' line') (e, r, lt) k =
          Ends_later st st' line _ e (Ends-IsRest st' line' line _ r (k st' line' (omega arith)))

first_line-IsRest : (s : Bytes) → IsRest (first_line s) s
first_line-IsRest s =
    if_both (λ (t : Bytes). IsRest t s) (at_condition s) _ _
      (IsRest-trans (tail-IsRest (tail s)) (tail-IsRest s)) (here refl)

parse_buf-Ends :
    (fuel : ℕ) (table : Table) (st : Cmd) (buf : Bytes)
    → NoAlias table
    → st.cmd_buf ≡ buf
    → length buf < fuel
    → Ends st buf (parse_buf fuel table st buf)
unfolding parse_buf
parse_buf-Ends fuel table st [] none_is e h = here (sym e)
parse_buf-Ends fuel table st (c ∷ s) none_is e h =
    Ends-IsRest st (first_line (c ∷ s)) (c ∷ s) _ (first_line-IsRest (c ∷ s)) (
      Ends_later table none_is st (started st) _ _ refl (
        loop-Ends table none_is fuel (started st) (first_line (c ∷ s))
          (omega (arith, IsRest-length (first_line-IsRest (c ∷ s))))))

-- Where no word is an alias, fuel above the length of the buffer is enough. The parser leaves the
-- buffer as it was where it wants more input, and else takes what it read off the front of it.
pub parse_one_cmd-Ends :
    (fuel : ℕ) (table : Table) (st : Cmd)
    → NoAlias table
    → length st.cmd_buf < fuel
    → Ends st st.cmd_buf (parse_one_cmd fuel table st)
unfolding parse_one_cmd
parse_one_cmd-Ends fuel table st none_is h = parse_buf-Ends fuel table st st.cmd_buf none_is refl h
