-- ===== src/Parse/Halts/Scans.antt =====
-- Each character loop leaves a rest of its input.
use lftp.Prelude.{
  ℕ, ◌+◌, ◌-◌, refl, ◌&&◌, [], ◌∷◌, ◌++◌, Option, none, some, inl, inr, Bytes, peek, ◌==◌,
  Bool-cases, if_both,
}
use lftp.Parse.Words.{
  newline, backslash, is_space, skip_space, skip_comment, Mode, look, drop, take, shell_text, Move,
  stop, skip_pair, skip_one, escape, close, keep, open_quote, follow, read_word, read_group,
  group_quote, group_escapes,
}
use lftp.Prelude.Rest.{IsRest, here, there}

pub skip_space-IsRest : (s : Bytes) → IsRest (skip_space s) s
unfolding skip_space
skip_space-IsRest [] = here refl
skip_space-IsRest (c ∷ s) = elim (Bool-cases (is_space c)) [
  | inl e ↦ rw e (there (skip_space-IsRest s))
  | inr e ↦ rw e (here refl)
]

pub skip_comment-IsRest : (s : Bytes) → IsRest (skip_comment s) s
unfolding skip_comment
skip_comment-IsRest [] = here refl
skip_comment-IsRest (c ∷ s) = elim (Bool-cases (c == newline)) [
  | inl e ↦ rw e (here refl)
  | inr e ↦ rw e (there (skip_comment-IsRest s))
]

pub shell_text-IsRest : (m : Mode) (acc s : Bytes) → IsRest (shell_text m acc s).1 s
unfolding shell_text
shell_text-IsRest m acc [] = here refl
shell_text-IsRest drop acc (c ∷ s) = there (shell_text-IsRest look acc s)
shell_text-IsRest take acc (c ∷ s) = there (shell_text-IsRest look (acc ++ c ∷ []) s)
shell_text-IsRest look acc (c ∷ s) =
    let P = λ (p : Bytes × Bytes). IsRest p.1 (c ∷ s) in
    if_both P (c == newline) (acc, c ∷ s) _ (here refl)
      (if_both P (c == backslash && peek s == newline) _ _ (there (shell_text-IsRest drop acc s))
        (there (shell_text-IsRest look (acc ++ c ∷ []) s)))

-- The rest of a word or group that was read.
abbrev pub RestIn : Bytes → Option (Bytes × Bytes) → Type 0
RestIn s none = Unit {0}
RestIn s (some (w, r)) = IsRest r s

RestIn-there : (c : ℕ) (s : Bytes) (o : Option (Bytes × Bytes)) → RestIn s o → RestIn (c ∷ s) o
RestIn-there c s none h = tt
RestIn-there c s (some (w, r)) h = there h

pub read_word-RestIn :
    (move : ℕ → ℕ → ℕ → Move) (m : Mode) (q : ℕ) (acc s : Bytes)
    → RestIn s (read_word move m q acc s)
unfolding read_word
read_word-RestIn move m q acc [] = tt
read_word-RestIn move drop q acc (c ∷ s) = RestIn-there c s _ (read_word-RestIn move look q acc s)
read_word-RestIn move take q acc (c ∷ s) =
    RestIn-there c s _ (read_word-RestIn move look q (acc ++ c ∷ []) s)
read_word-RestIn move look q acc (c ∷ s) =
    go (move q c (peek s)) λ m q' acc'. RestIn-there c s _ (read_word-RestIn move m q' acc' s)
  where
    go :
        (v : Move)
        → ((m : Mode) (q' : ℕ) (acc' : Bytes) → RestIn (c ∷ s) (read_word move m q' acc' s))
        → RestIn
            (c ∷ s)
            (follow v q c acc (some (acc, c ∷ s)) λ m q' acc'. read_word move m q' acc' s)
    go stop k = here refl
    go skip_pair k = k drop q acc
    go skip_one k = k look q acc
    go escape k = k take q acc
    go close k = k look 0 acc
    go keep k = k look q (acc ++ c ∷ [])
    go (open_quote d) k = k look d acc

pub read_group-RestIn :
    (m : Mode) (level q : ℕ) (acc s : Bytes) → RestIn s (read_group m level q acc s)
unfolding read_group
read_group-RestIn m level q acc [] = tt
read_group-RestIn drop level q acc (c ∷ s) =
    RestIn-there c s _ (read_group-RestIn look level q acc s)
read_group-RestIn take level q acc (c ∷ s) =
    RestIn-there c s _ (read_group-RestIn look level q (acc ++ c ∷ []) s)
read_group-RestIn look level q acc (c ∷ s) =
    let acc' = acc ++ c ∷ [] in
    let behind = λ (o : Option (Bytes × Bytes)) (h : RestIn s o). RestIn-there c s o h in
    if_both (RestIn (c ∷ s)) (c == backslash && group_escapes level (peek s)) _ _
      (behind _ (read_group-RestIn take level q acc' s))
      (if_both (RestIn (c ∷ s)) (q == 0 && c == b')') _ _
        (if_both (RestIn (c ∷ s)) (level == 1) (some (acc, s)) _ (there (here refl))
          (behind _ (read_group-RestIn look (level - 1) q acc' s)))
        (if_both (RestIn (c ∷ s)) (q == 0 && c == b'(') _ _
          (behind _ (read_group-RestIn look (level + 1) q acc' s))
          (behind _ (read_group-RestIn look level (group_quote q c) acc' s))))
