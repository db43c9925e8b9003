-- ===== src/Parse/Quote.antt =====
-- What `append_quoted` (CmdExec.cc) writes is one word for `parse_one_cmd` (parsecmd.cc).
use lftp.Prelude.{
  ℕ, ◌≡◌, ◌≢◌, refl, ◌∙◌, Bool, true, false, ◌||◌, [], ◌∷◌, ◌++◌, append_assoc, append-nil, inl,
  inr, some, Bytes, codes, one_of, arith, ◌==◌, Bool-cases,
}
use lftp.Parse.Words.{newline, is_space, look, read_word, arg_move, keep, escape}
use lftp.Parse.Args.{needs_quotation, quote_body, quoted}

-- No byte ends a line.
abbrev pub IsOneLine : Bytes → Type 0
IsOneLine [] = Unit {0}
IsOneLine (c ∷ s) = (c ≢ newline) × (c ≢ b'\r') × IsOneLine s

-- A byte that ends a word and is no line end.
abbrev pub ends_word : ℕ → Bool
ends_word c = is_space c || one_of (codes ">|;&") c

module _ (c : ℕ) (s acc : Bytes) where
  read_keep :
      (q : ℕ)
      → ((n : ℕ) → arg_move q c n ≡ keep)
      → read_word arg_move look q acc (c ∷ s) ≡ read_word arg_move look q (acc ++ c ∷ []) s
  unfolding read_word
  read_keep q h = rw (h _, read_word)

  read_escape :
      arg_move b'"' b'\\' c ≡ escape
      → read_word arg_move look b'"' acc (b'\\' ∷ c ∷ s)
        ≡ read_word arg_move look b'"' (acc ++ c ∷ []) s
  unfolding read_word
  read_escape h = rw (h, read_word)

  read_stop : ends_word c ≡ true → read_word arg_move look 0 acc (c ∷ s) ≡ some (acc, c ∷ s)
  unfolding read_word arg_move
  read_stop h = ground arith

move_inside :
    (c n : ℕ)
    → c ≢ newline
    → c ≢ b'\r'
    → (c == b'"' || c == b'\\') ≡ false
    → arg_move b'"' c n ≡ keep
unfolding arg_move
move_inside c n h k e = ground arith

move_escaped : (c : ℕ) → (c == b'"' || c == b'\\') ≡ true → arg_move b'"' b'\\' c ≡ escape
unfolding arg_move
move_escaped c e = ground arith

read-quote_body :
    (s rest acc : Bytes)
    → IsOneLine s
    → read_word arg_move look b'"' acc (quote_body s ++ b'"' ∷ rest)
      ≡ read_word arg_move look 0 (acc ++ s) rest
unfolding quote_body
read-quote_body [] rest acc h = rw append-nil (unfold read_word arg_move in refl)
read-quote_body (c ∷ s) rest acc (h, k, l) = elim (Bool-cases (c == b'"' || c == b'\\')) [
  | inl e ↦ rw e (
      read_escape c _ acc (move_escaped c e)
      ∙ read-quote_body s rest (acc ++ c ∷ []) l
      ∙ rw append_assoc)
  | inr e ↦ rw e (
      read_keep c _ acc b'"' (λ n. move_inside c n h k e)
      ∙ read-quote_body s rest (acc ++ c ∷ []) l
      ∙ rw append_assoc)
]

move_plain :
    (c n : ℕ) (s : Bytes)
    → c ≢ newline
    → c ≢ b'\r'
    → needs_quotation (c ∷ s) ≡ false
    → arg_move 0 c n ≡ keep
unfolding arg_move needs_quotation
move_plain c n s h k e = ground arith

needs_rest : (c : ℕ) (s : Bytes) → needs_quotation (c ∷ s) ≡ false → needs_quotation s ≡ false
unfolding needs_quotation
needs_rest c s e = ground arith

read_plain :
    (s : Bytes) (c : ℕ) (rest acc : Bytes)
    → IsOneLine s
    → needs_quotation s ≡ false
    → ends_word c ≡ true
    → read_word arg_move look 0 acc (s ++ c ∷ rest) ≡ some (acc ++ s, c ∷ rest)
read_plain [] c rest acc h e t = rw append-nil (read_stop c rest acc t)
read_plain (b ∷ s) c rest acc (h, k, l) e t =
    read_keep b _ acc 0 (λ n. move_plain b n s h k e)
    ∙ read_plain s c rest (acc ++ b ∷ []) l (needs_rest b s e) t
    ∙ rw append_assoc

open_word :
    (rest : Bytes)
    → read_word arg_move look 0 [] (b'"' ∷ rest) ≡ read_word arg_move look b'"' [] rest
unfolding read_word arg_move
open_word rest = ground arith

-- A text on one line, quoted and followed by a byte that ends a word, is read as that one word,
-- and reading stops at that byte.
pub read_word-quoted :
    (s : Bytes) (c : ℕ) (rest : Bytes)
    → IsOneLine s
    → ends_word c ≡ true
    → read_word arg_move look 0 [] (quoted s ++ c ∷ rest) ≡ some (s, c ∷ rest)
unfolding quoted
read_word-quoted s c rest h t = elim (Bool-cases (needs_quotation s)) [
  | inl e ↦
      rw (e, append_assoc) (open_word _ ∙ read-quote_body s (c ∷ rest) [] h ∙ read_stop c rest s t)
  | inr e ↦ rw e (read_plain s c rest [] h e t)
]
