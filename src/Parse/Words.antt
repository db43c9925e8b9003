-- ===== src/Parse/Words.antt =====
-- The character loops of `CmdExec::parse_one_cmd` (parsecmd.cc). Each reads the rest of the
-- buffer, a C string, so the end of the list is its NUL. `none` asks for more input: PARSE_AGAIN.
-- The quote that is open is a byte, 0 where none is.
use lftp.Prelude.{
  ℕ, ◌+◌, ◌-◌, Bool, true, false, not, ◌&&◌, ◌||◌, [], ◌∷◌, ◌++◌, Option, none, some, Bytes, codes,
  peek, one_of, ◌==◌, if◌then◌else◌,
}

abbrev pub newline : ℕ
newline = b'\n'

abbrev pub backslash : ℕ
backslash = b'\\'

abbrev pub is_space : ℕ → Bool
is_space c = c == b' ' || c == b'\t'

abbrev pub is_quote : ℕ → Bool
is_quote c = c == b'"' || c == b'\''

-- Whether a backslash before `ch` is dropped.
unfoldable pub quotable : ℕ → ℕ → Bool
quotable ch in_quotes =
    if ch == 0
    then false
    else if ch == backslash || ch == b'!' || ch == in_quotes
    then true
    else if not (in_quotes == 0)
    then false
    else one_of (codes "\"' \t>|;&") ch

unfoldable pub skip_space : Bytes → Bytes
skip_space [] = []
skip_space (c ∷ s) = let rest = skip_space s in if is_space c then rest else c ∷ s

-- The loop that skips a comment: up to the newline, which stays, or the end.
unfoldable pub skip_comment : Bytes → Bytes
skip_comment [] = []
skip_comment (c ∷ s) = let rest = skip_comment s in if c == newline then c ∷ s else rest

-- What happens to the next byte: it is looked at, dropped (the second byte of `line+=2`), or
-- taken as it is (behind a backslash).
pub data Mode : Type 0 where
  look drop take : Mode

-- The text of a shell command: up to the newline, without the pairs of backslash and newline.
unfoldable pub shell_text : Mode → Bytes → Bytes → Bytes × Bytes
shell_text m acc [] = (acc, [])
shell_text drop acc (c ∷ s) = shell_text look acc s
shell_text take acc (c ∷ s) = shell_text look (acc ++ c ∷ []) s
shell_text look acc (c ∷ s) =
    let joined = shell_text drop acc s in
    let kept = shell_text look (acc ++ c ∷ []) s in
    if c == newline
    then (acc, c ∷ s)
    else if c == backslash && peek s == newline
    then joined
    else kept

-- What the loops over one word do at a byte.
pub data Move : Type 0 where
  stop skip_pair skip_one escape close keep : Move
  open_quote : ℕ → Move

-- The tests that both loops make, at a byte that does not end the word.
abbrev quote_move : ℕ → ℕ → Move
quote_move in_quotes c =
    if in_quotes == 0 && is_quote c
    then open_quote c
    else if not (in_quotes == 0) && c == in_quotes
    then close
    else keep

-- The loop for one argument, at byte `c` with byte `next` behind it.
unfoldable pub arg_move : ℕ → ℕ → ℕ → Move
unfolding quotable
arg_move in_quotes c next =
    if c == backslash && next == newline
    then skip_pair
    else if c == b'\r' && next == newline
    then skip_one
    else if c == backslash && quotable next in_quotes
    then escape
    else if c == newline || (in_quotes == 0 && (is_space c || one_of (codes ">|;&") c))
    then stop
    else quote_move in_quotes c

-- The loop for the target of a redirection. A file name ends at a space, a filter does not.
unfoldable pub target_move : ℕ → ℕ → ℕ → ℕ → Move
unfolding quotable
target_move redir_type in_quotes c next =
    if c == backslash && next == newline
    then skip_pair
    else if c == backslash && quotable next in_quotes
    then escape
    else if c == newline
        || (in_quotes == 0 && ((not (redir_type == b'|') && is_space c) || one_of (codes ";&") c))
    then stop
    else quote_move in_quotes c

-- What follows a move at byte `c`: `stopped`, or the loop `go` on the bytes behind `c`.
abbrev pub follow {ℓ} : {A : Type ℓ} → Move → ℕ → ℕ → Bytes → A → (Mode → ℕ → Bytes → A) → A
follow stop q c acc stopped go = stopped
follow skip_pair q c acc stopped go = go drop q acc
follow skip_one q c acc stopped go = go look q acc
follow escape q c acc stopped go = go take q acc
follow close q c acc stopped go = go look 0 acc
follow keep q c acc stopped go = go look q (acc ++ c ∷ [])
follow (open_quote d) q c acc stopped go = go look d acc

-- Reads one word: the word behind `acc`, and the rest of the line from the byte that ended it.
unfoldable pub read_word : (ℕ → ℕ → ℕ → Move) → Mode → ℕ → Bytes → Bytes → Option (Bytes × Bytes)
read_word move m q acc [] = none
read_word move drop q acc (c ∷ s) = read_word move look q acc s
read_word move take q acc (c ∷ s) = read_word move look q (acc ++ c ∷ []) s
read_word move look q acc (c ∷ s) =
    follow (move q c (peek s)) q c acc (some (acc, c ∷ s)) λ m q' acc'. read_word move m q' acc' s

-- Whether the byte behind a backslash in a group is taken with it.
abbrev pub group_escapes : ℕ → ℕ → Bool
group_escapes level next =
    not (next == 0) && (one_of (codes "\"\\") next || (level == 1 && next == b')'))

abbrev pub group_quote : ℕ → ℕ → ℕ
group_quote in_quotes c =
    if not (in_quotes == 0) && c == in_quotes
    then 0
    else if in_quotes == 0 && is_quote c
    then c
    else in_quotes

-- The loop over a group in parentheses: its text, and the rest behind the closing one.
unfoldable pub read_group : Mode → ℕ → ℕ → Bytes → Bytes → Option (Bytes × Bytes)
read_group m level q acc [] = none
read_group drop level q acc (c ∷ s) = read_group look level q acc s
read_group take level q acc (c ∷ s) = read_group look level q (acc ++ c ∷ []) s
read_group look level q acc (c ∷ s) =
    let escaped = read_group take level q (acc ++ c ∷ []) s in
    let deeper = read_group look (level + 1) q (acc ++ c ∷ []) s in
    let shallower = read_group look (level - 1) q (acc ++ c ∷ []) s in
    let plain = read_group look level (group_quote q c) (acc ++ c ∷ []) s in
    if c == backslash && group_escapes level (peek s)
    then escaped
    else if q == 0 && c == b')'
    then (if level == 1 then some (acc, s) else shallower)
    else if q == 0 && c == b'('
    then deeper
    else plain
