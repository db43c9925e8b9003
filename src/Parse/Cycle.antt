-- ===== src/Parse/Cycle.antt =====
-- Two aliases that stand for one another (parsecmd.cc, the check of the first word).
use lftp.Prelude.{
  ℕ, zero, suc, ◌-◌, ◌≤◌, ◌≡◌, ◌≢◌, refl, sym, ◌∙◌, Bool, true, false, ◌&&◌, [], ◌∷◌, some, Bytes,
  arith, leb, length,
}
use lftp.Alias.{Table, find, is_touched}
use lftp.Parse.Words.{look, read_word, arg_move, skip_space}
use lftp.Parse.Command.{
  Cmd, again, out_of_fuel, expand, take_word, word_step, at_word, step, loop, started,
  parse_one_cmd, skip_cmd,
}

abbrev pub is_letter : ℕ → Bool
is_letter c = leb b'a' c && leb c b'z'

-- A line that is one letter, ended by `;`.
abbrev pub call : ℕ → Bytes → Bytes
call c rest = c ∷ b';' ∷ rest

read_letter :
    (c : ℕ) (rest : Bytes)
    → is_letter c ≡ true
    → read_word arg_move look 0 [] (call c rest) ≡ some (c ∷ [], b';' ∷ rest)
unfolding read_word arg_move
read_letter c rest h = ground arith

-- Between two rounds: nothing is parsed, and what was expanded is not what comes next.
record Turning (c d : ℕ) (rest : Bytes) (st : Cmd) : Type 0 where
  buffer : st.cmd_buf ≡ call c rest
  first : st.args ≡ []
  short : st.alias_field ≤ 1
  fresh : is_touched (d ∷ []) st.used_aliases ≡ false

-- The state after the letter `c` is replaced by its value `d`.
turned : ℕ → ℕ → Bytes → Cmd → Cmd
turned c d rest st = record st {
  cmd_buf = call d rest;
  alias_field = 1;
  used_aliases = (d ∷ []) ∷ [];
}

length-suc_sub : (n : ℕ) → suc n - n ≡ 1
length-suc_sub n = omega arith

expand-turned :
    (c d : ℕ) (rest : Bytes) (st : Cmd)
    → Turning c d rest st
    → expand st (d ∷ []) (b';' ∷ rest) ≡ some (turned c d rest st)
unfolding expand skip_cmd turned
expand-turned c d rest st t =
    let e : length st.cmd_buf ≡ suc (suc (length rest)) = rw t.buffer in ground arith

take_word-turned :
    (table : Table) (c d : ℕ) (rest : Bytes) (st : Cmd)
    → Turning c d rest st
    → find (c ∷ []) table ≡ some (d ∷ [])
    → take_word table st (c ∷ []) (b';' ∷ rest) ≡ again (turned c d rest st) (call d rest)
unfolding take_word turned
take_word-turned table c d rest st t f = ground (arith, expand-turned c d rest st t)

at_word-letter :
    (table : Table) (c : ℕ) (rest : Bytes) (st : Cmd)
    → is_letter c ≡ true
    → at_word table st (call c rest) ≡ word_step table st (call c rest)
unfolding at_word
at_word-letter table c rest st h = ground arith

step-letter :
    (table : Table) (c : ℕ) (rest : Bytes) (st : Cmd)
    → is_letter c ≡ true
    → step table st (call c rest) ≡ at_word table st (call c rest)
unfolding step skip_space
step-letter table c rest st h = ground arith

step-turned :
    (table : Table) (c d : ℕ) (rest : Bytes) (st : Cmd)
    → Turning c d rest st
    → is_letter c ≡ true
    → find (c ∷ []) table ≡ some (d ∷ [])
    → step table st (call c rest) ≡ again (turned c d rest st) (call d rest)
step-turned table c d rest st t h f =
    step-letter table c rest st h
    ∙ at_word-letter table c rest st h
    ∙ unfold word_step in
      rw (read_letter c rest h, word_step) (take_word-turned table c d rest st t f)

turned-Turning :
    (c d : ℕ) (rest : Bytes) (st : Cmd)
    → c ≢ d
    → Turning c d rest st
    → Turning d c rest (turned c d rest st)
unfolding turned is_touched
turned-Turning c d rest st ne t = record {
  buffer = refl;
  first = t.first;
  short = omega arith;
  fresh = ground arith;
}

loop-Turning :
    (fuel : ℕ) (table : Table) (c d : ℕ) (rest : Bytes) (st : Cmd)
    → is_letter c ≡ true
    → is_letter d ≡ true
    → c ≢ d
    → find (c ∷ []) table ≡ some (d ∷ [])
    → find (d ∷ []) table ≡ some (c ∷ [])
    → Turning c d rest st
    → loop fuel table st (call c rest) ≡ out_of_fuel
unfolding loop
loop-Turning zero table c d rest st h k ne f g t = refl
loop-Turning (suc fuel) table c d rest st h k ne f g t =
    rw (step-turned table c d rest st t h f, loop)
      (loop-Turning fuel table d c rest (turned c d rest st) k h (λ e. ne (sym e)) g f
        (turned-Turning c d rest st ne t))

parse_one_cmd-loop :
    (fuel : ℕ) (table : Table) (c : ℕ) (rest : Bytes) (st : Cmd)
    → is_letter c ≡ true
    → st.cmd_buf ≡ call c rest
    → parse_one_cmd fuel table st ≡ loop fuel table (started st) (call c rest)
unfolding parse_one_cmd
parse_one_cmd-loop fuel table c rest st h e = ground arith

-- Where two different lower-case letters are aliases of one another, and no alias is being expanded, a line
-- that is one of them, ended by `;`, is never parsed: whatever the fuel, the parser is still
-- expanding.
pub parse_one_cmd-out_of_fuel :
    (fuel : ℕ) (table : Table) (c d : ℕ) (rest : Bytes) (st : Cmd)
    → is_letter c ≡ true
    → is_letter d ≡ true
    → c ≢ d
    → find (c ∷ []) table ≡ some (d ∷ [])
    → find (d ∷ []) table ≡ some (c ∷ [])
    → st.cmd_buf ≡ call c rest
    → st.alias_field ≡ 0
    → st.used_aliases ≡ []
    → parse_one_cmd fuel table st ≡ out_of_fuel
unfolding parse_one_cmd
parse_one_cmd-out_of_fuel fuel table c d rest st h k ne f g e z u =
    let t : Turning c d rest (started st) = record {
      buffer = e;
      first = refl;
      short = omega arith;
      fresh = rw u (unfold is_touched in refl);
    } in
    parse_one_cmd-loop fuel table c rest st h e
    ∙ loop-Turning fuel table c d rest (started st) h k ne f g t
