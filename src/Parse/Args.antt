-- ===== src/Parse/Args.antt =====
-- ArgV.cc and CmdExec.cc: the words of a command, and their quotation for lftp's own parser.
use lftp.Prelude.{Bool, false, ◌||◌, List, [], ◌∷◌, ◌++◌, Bytes, codes, ◌==◌, one_of, if◌then◌else◌}

-- `CmdExec::needs_quotation`; `strchr` finds the NUL of its own string too.
unfoldable pub needs_quotation : Bytes → Bool
needs_quotation [] = false
needs_quotation (c ∷ s) =
    (c == b' ' || c == b'\t') || (one_of (codes "\"'\\&|>;") c || c == 0) || needs_quotation s

-- The loop of `xstring::append_quoted`.
unfoldable pub quote_body : Bytes → Bytes
quote_body [] = []
quote_body (c ∷ s) =
    let rest = quote_body s in if c == b'"' || c == b'\\' then b'\\' ∷ c ∷ rest else c ∷ rest

-- What `xstring::append_quoted` appends.
unfoldable pub quoted : Bytes → Bytes
quoted s = if needs_quotation s then b'"' ∷ (quote_body s ++ b'"' ∷ []) else s

-- `ArgV::CombineQuotedTo`, on the words from `start` on.
unfoldable pub combine_quoted : List Bytes → Bytes
combine_quoted [] = []
combine_quoted (a ∷ []) = quoted a
combine_quoted (a ∷ b ∷ as') = quoted a ++ b' ' ∷ combine_quoted (b ∷ as')

-- `ArgV::CombineTo`, on the words from `start` to `end`.
unfoldable pub combine : List Bytes → Bytes
combine [] = []
combine (a ∷ []) = a
combine (a ∷ b ∷ as') = a ++ b' ' ∷ combine (b ∷ as')

-- `ArgV::CombineCmdTo`: one word is taken as a whole command line.
unfoldable pub combine_cmd : List Bytes → Bytes
combine_cmd [] = combine []
combine_cmd (a ∷ []) = combine (a ∷ [])
combine_cmd (a ∷ b ∷ as') = combine_quoted (a ∷ b ∷ as')
