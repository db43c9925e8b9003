-- ===== src/Parse/Trail.antt =====
-- How the parser of commands (parsecmd.cc) goes through one quoted word.
use lftp.Prelude.{
  ℕ, ◌≡◌, ◌≢◌, refl, ◌∙◌, Bool, true, false, ◌&&◌, List, [], ◌∷◌, ◌++◌, append_assoc, inl, inr,
  Bytes, codes, peek, one_of, arith, Bool-cases,
}
use lftp.Alias.{Table}
use lftp.Parse.Words.{backslash, is_space, skip_space}
use lftp.Parse.Args.{needs_quotation, quote_body, quoted, combine_quoted}
use lftp.Parse.Command.{Cmd, take_word, word_step, at_word, step, is_first}
use lftp.Parse.Quote.{IsOneLine, ends_word, read_word-quoted}

-- A byte that begins an ordinary word.
abbrev pub IsPlain : ℕ → Type 0
IsPlain h =
    (is_space h ≡ false) × (h ≢ backslash) × (h ≢ b'\r') × (one_of (codes "\n|>;&") h ≡ false)

step_plain :
    (table : Table) (st : Cmd) (h : ℕ) (t : Bytes)
    → IsPlain h
    → step table st (h ∷ t) ≡ at_word table st (h ∷ t)
unfolding step skip_space
step_plain table st h t p = ground arith

at_word_plain :
    (table : Table) (st : Cmd) (h : ℕ) (t : Bytes)
    → IsPlain h
    → (is_first st && one_of (codes "#!(?") h) ≡ false
    → at_word table st (h ∷ t) ≡ word_step table st (h ∷ t)
unfolding at_word
at_word_plain table st h t p f = ground arith

pub quoted_begin :
    (x : ℕ) (s : Bytes)
    → IsOneLine (x ∷ s)
    → (h : ℕ) × (t : Bytes) × (quoted (x ∷ s) ≡ h ∷ t) × IsPlain h
unfolding quoted
quoted_begin x s l = elim (Bool-cases (needs_quotation (x ∷ s))) [
  | inl e ↦ (b'"', quote_body (x ∷ s) ++ b'"' ∷ [], rw e, ground arith)
  | inr e ↦ (x, s, rw e, unfold needs_quotation in ground arith)
]

-- The beginning of a first word that would be no ordinary command.
abbrev pub is_special : Bytes → Bool
is_special a = one_of (codes "#!(?") (peek (quoted a))

-- One round on a quoted word that a byte ends.
step-quoted :
    (table : Table) (st : Cmd) (a : Bytes) (c : ℕ) (rest : Bytes)
    → a ≢ []
    → IsOneLine a
    → ends_word c ≡ true
    → (is_first st && is_special a) ≡ false
    → step table st (quoted a ++ c ∷ rest) ≡ take_word table st a (c ∷ rest)
unfolding word_step
step-quoted table st [] c rest ne l e f = absurd (ne refl)
step-quoted table st (x ∷ s) c rest ne l e f =
    let (h, t, eq, p) = quoted_begin x s l in
    let line : Bytes = quoted (x ∷ s) ++ c ∷ rest in
    let go : step table st line ≡ word_step table st line = rw eq (
      step_plain table st h (t ++ c ∷ rest) p
      ∙ at_word_plain table st h (t ++ c ∷ rest) p (rw eq at f)) in
    go ∙ rw (read_word-quoted (x ∷ s) c rest l e, word_step)

-- The words that can be written on one line and are not lost.
abbrev pub AreWords : List Bytes → Type 0
AreWords [] = Unit {0}
AreWords (a ∷ as') = (a ≢ []) × IsOneLine a × AreWords as'

-- The line behind the first word.
unfoldable pub trail : List Bytes → Bytes → Bytes
trail [] rest = b';' ∷ rest
trail (b ∷ bs) rest = b' ' ∷ (quoted b ++ trail bs rest)

pub combine_quoted-trail :
    (a : Bytes) (as' : List Bytes) (rest : Bytes)
    → combine_quoted (a ∷ as') ++ b';' ∷ rest ≡ quoted a ++ trail as' rest
unfolding combine_quoted trail
combine_quoted-trail a [] rest = refl
combine_quoted-trail a (b ∷ bs) rest =
    append_assoc (quoted a) _ _ ∙ rw (combine_quoted-trail b bs rest)

-- The byte behind a word, and what is behind it.
trail_begin :
    (as' : List Bytes) (rest : Bytes)
    → (c : ℕ) × (t : Bytes) × (trail as' rest ≡ c ∷ t) × (ends_word c ≡ true)
unfolding trail
trail_begin [] rest = (b';', rest, refl, refl)
trail_begin (b ∷ bs) rest = (b' ', quoted b ++ trail bs rest, refl, refl)

pub step-trail :
    (table : Table) (st : Cmd) (a : Bytes) (as' : List Bytes) (rest : Bytes)
    → a ≢ []
    → IsOneLine a
    → (is_first st && is_special a) ≡ false
    → step table st (quoted a ++ trail as' rest) ≡ take_word table st a (trail as' rest)
step-trail table st a as' rest ne l f =
    let (c, t, eq, e) = trail_begin as' rest in rw eq (step-quoted table st a c t ne l e f)

pub step_space :
    (table : Table) (st : Cmd) (line : Bytes) → step table st (b' ' ∷ line) ≡ step table st line
unfolding step skip_space
step_space table st line = refl
