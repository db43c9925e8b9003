-- ===== src/Parse/Halts/Steps.antt =====
-- What each part of the parser does to the buffer, and that a round of the loop shortens the line.
use lftp.Prelude.{
  ℕ, ◌≡◌, refl, [], ◌∷◌, Option, none, some, Bytes, peek, peek_next, tail, length, arith, ◌==◌,
  if_both, one_of, codes, if◌then◌else◌,
}
use lftp.Parse.Words.{skip_space, look, shell_text, target_move, skip_comment}
use lftp.Parse.Command.{
  Cmd, Outcome, finished, out_of_fuel, parse_ok, parse_err, parse_again, skip_cmd, at_condition,
  cmd_end, read_target, after_args, comment, shell_command, group, add_arg,
}
use lftp.Prelude.Rest.{IsRest, here, there, IsRest-trans, tail-IsRest}
use lftp.Parse.Halts.Scans.{
  skip_space-IsRest, skip_comment-IsRest, shell_text-IsRest, RestIn, read_word-RestIn,
  read_group-RestIn,
}

-- The parser ended and did this to the buffer of `st`, from `line` on: it left the buffer whole
-- where it wants more input, and else took what it read off its front.
abbrev pub Ends : Cmd → Bytes → Outcome → Type 0
Ends st line (finished parse_again st') = st'.cmd_buf ≡ st.cmd_buf
Ends st line (finished parse_ok st') = IsRest st'.cmd_buf line
Ends st line (finished parse_err st') = IsRest st'.cmd_buf line
Ends st line out_of_fuel = ⊥

skip_cmd-cmd_buf : (st : Cmd) (line : Bytes) → (skip_cmd st line).cmd_buf ≡ line
unfolding skip_cmd
skip_cmd-cmd_buf st line = ground arith

skip_cmd-IsRest : (st : Cmd) (t s : Bytes) → IsRest t s → IsRest (skip_cmd st t).cmd_buf s
skip_cmd-IsRest st t s h = rw skip_cmd-cmd_buf h

cmd_end-Ends :
    (st st' : Cmd) (r : ℕ) (w line s : Bytes) → IsRest line s → Ends st s (cmd_end st' r w line)
unfolding cmd_end
cmd_end-Ends st st' r w line s h =
    let P = λ (x : Cmd). IsRest x.cmd_buf s in
    if_both P (at_condition line) _ _ (skip_cmd-IsRest st' line s h) (
      if_both P (one_of (codes ";&\n") (peek line)) _ _
        (skip_cmd-IsRest _ (tail line) s (IsRest-trans (tail-IsRest line) h))
        (skip_cmd-IsRest st' line s h))

read_target-Ends :
    (st : Cmd) (r : ℕ) (line s : Bytes) → IsRest line s → Ends st s (read_target st r line)
unfolding read_target
read_target-Ends st r [] s h = refl
read_target-Ends st r (c ∷ line) s h =
    if_both (Ends st s) (one_of (codes "\n;&") c) _ _
      (skip_cmd-IsRest st line s (IsRest-trans (there (here refl)) h))
      (go _ (read_word-RestIn (target_move r) look 0 [] (c ∷ line)))
  where
    go :
        (o : Option (Bytes × Bytes))
        → RestIn (c ∷ line) o
        → Ends st s (elim o [
          | none ↦ finished parse_again st
          | some (target, rest) ↦ cmd_end st r target (skip_space rest)
        ])
    go none k = refl
    go (some (w, rest)) k =
        cmd_end-Ends st st r w _ s (IsRest-trans (skip_space-IsRest rest) (IsRest-trans k h))

pub after_args-Ends : (st : Cmd) (line : Bytes) → Ends st line (after_args st line)
unfolding after_args
after_args-Ends st line =
    let behind = λ (t : Bytes) (h : IsRest t line). IsRest-trans (skip_space-IsRest t) h in
    if_both (Ends st line) (at_condition line) _ _ (skip_cmd-IsRest st line line (here refl)) (
      if_both (Ends st line) (one_of (codes ">|") (peek line)) _ _
        (if_both (Ends st line) (peek_next line == b'>') _ _
          (read_target-Ends st b'+' _ line
            (behind _ (IsRest-trans (tail-IsRest (tail line)) (tail-IsRest line))))
          (read_target-Ends st (peek line) _ line (behind _ (tail-IsRest line))))
        (cmd_end-Ends st st 0 [] line line (here refl)))

pub comment-Ends : (st : Cmd) (line : Bytes) → Ends st line (comment st line)
unfolding comment
comment-Ends st line = go (skip_comment line) (skip_comment-IsRest line)
  where
    go :
        (t : Bytes)
        → IsRest t line
        → Ends st line (elim t [
          | [] ↦ finished parse_again st
          | c ∷ rest ↦ finished parse_ok (skip_cmd st rest)
        ])
    go [] h = refl
    go (c ∷ rest) h = skip_cmd-IsRest st rest line (IsRest-trans (there (here refl)) h)

pub shell_command-Ends :
    (st : Cmd) (line s : Bytes) → IsRest line s → Ends st s (shell_command st line)
unfolding shell_command
shell_command-Ends st line s h =
    go (shell_text look [] (skip_space line)).0 (shell_text look [] (skip_space line)).1 (
      IsRest-trans (shell_text-IsRest look [] (skip_space line))
        (IsRest-trans (skip_space-IsRest line) h))
  where
    st' : Cmd
    st' = add_arg st (b'!' ∷ [])

    go :
        (text rest : Bytes)
        → IsRest rest s
        → Ends st s (elim rest [
          | [] ↦ finished parse_again st'
          | c ∷ rest' ↦
              let st'' = skip_cmd st' rest' in
              finished parse_ok (if length text == 0 then st'' else add_arg st'' text)
        ])
    go text [] k = refl
    go text (c ∷ rest') k =
        let p = skip_cmd-IsRest st' rest' s (IsRest-trans (there (here refl)) k) in
        if_both (λ (x : Cmd). IsRest x.cmd_buf s) (length text == 0) _ _ p p

pub group-Ends : (st : Cmd) (line s : Bytes) → IsRest line s → Ends st s (group st line)
unfolding group
group-Ends st line s h = go _ (read_group-RestIn look 1 0 [] line)
  where
    st' : Cmd
    st' = add_arg st (b'(' ∷ [])

    go :
        (o : Option (Bytes × Bytes))
        → RestIn line o
        → Ends st s (elim o [
          | none ↦ finished parse_again st'
          | some (text, rest) ↦ cmd_end (add_arg st' text) 0 [] (skip_space rest)
        ])
    go none k = refl
    go (some (w, rest)) k =
        cmd_end-Ends st (add_arg st' w) 0 [] _ s
          (IsRest-trans (skip_space-IsRest rest) (IsRest-trans k h))
