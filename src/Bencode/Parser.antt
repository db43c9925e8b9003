-- ===== src/Bencode/Parser.antt =====
-- `BeNode::Parse` (Bencode.cc). The text is the list of the `s_len` bytes from `s` on. A failure
-- carries what the code stores in `*rest`: 0 where more input may help, else the number of bytes
-- from the bad one on. A success carries the bytes that are left; `*rest` is their number.
-- The length of a string is computed without a bound: the test against `s_len` before each digit
-- keeps it below ten times the length of the text, which is an `int`.
use lftp.Prelude.{
  ℕ, zero, suc, ◌+◌, ◌-◌, ◌*◌, ◌%◌, ◌^◌, Bool, true, false, not, ◌&&◌, [], ◌∷◌, Bytes, peek,
  peek_next, tail, is_digit, ltb, leb, ◌==◌, if◌then◌else◌, length, take, drop,
}
use lftp.Bencode.Node.{
  Node, Nodes, Entries, str, int, list, dict, nil, cons, no_entries, map_add, signed64,
}

pub data Parsed (A : Type 0) : Type 0 where
  ok : A → Bytes → Parsed A
  err : ℕ → Parsed A
  out_of_fuel : Parsed A

module _ {A B : Type 0} where
  infixl 5 ◌>>=◌
  abbrev pub ◌>>=◌ : Parsed A → (A → Bytes → Parsed B) → Parsed B
  ok a t >>= f = f a t
  err n >>= f = err n
  out_of_fuel >>= f = out_of_fuel

-- `while(s_len>1 && c_isdigit(*s))`, in a `long long`.
unfoldable pub read_digits : ℕ → Bytes → ℕ × Bytes
read_digits n [] = (n, [])
read_digits n (c ∷ []) = (n, c ∷ [])
read_digits n (c ∷ d ∷ s) =
    let more = read_digits ((n * 10 + (c - b'0')) % 2 ^ 64) (d ∷ s) in
    if is_digit c then more else (n, c ∷ d ∷ s)

unfoldable pub finish_int : Bool → ℕ → Bytes → Parsed Node
finish_int neg n t =
    if peek t == b'e'
    then ok (int (signed64 (if neg then (2 ^ 64 - n) % 2 ^ 64 else n))) (tail t)
    else err (length t)

-- `case 'i'`, from behind the sign.
unfoldable pub parse_nat : Bool → Bytes → Parsed Node
unfolding read_digits finish_int
parse_nat neg t =
    if ltb (length t) 2
    then err 0
    else if is_digit (peek t)
    then (if peek t == b'0' && not (peek_next t == b'e')
        then err (length t)
        else (let (n, u) = read_digits (peek t - b'0') (tail t) in finish_int neg n u))
    else err (length t)

-- `case 'i'`, from behind the `i`.
unfoldable pub parse_int : Bytes → Parsed Node
unfolding parse_nat
parse_int t = if peek t == b'-' then parse_nat true (tail t) else parse_nat false t

-- The length of a string, behind its first digit.
unfoldable pub read_len : ℕ → Bytes → Parsed ℕ
read_len n [] = ok n []
read_len n (c ∷ s) =
    let more = read_len (n * 10 + (c - b'0')) s in
    if is_digit c then (if leb (length (c ∷ s)) n then err 0 else more) else ok n (c ∷ s)

unfoldable pub finish_str : ℕ → Bytes → Parsed Node
finish_str n t =
    if peek t == b':'
    then (if ltb (length (tail t)) n then err 0 else ok (str (take n (tail t))) (drop n (tail t)))
    else err (length t)

-- The text of a string whose first digit is `d`, behind that digit.
unfoldable pub parse_str : ℕ → Bytes → Parsed Node
unfolding read_len finish_str
parse_str d t = read_len d t >>= finish_str

-- `s_len>1 && *s!='e'`.
abbrev pub has_item : Bytes → Bool
has_item t = leb 2 (length t) && not (peek t == b'e')

-- Behind the loop of a list or a dictionary.
abbrev pub finish_loop : {A : Type 0} → A → Bytes → Parsed A
finish_loop a t = if peek t == b'e' then ok a (tail t) else err (length t)

-- The node of a dictionary that begins at `s` and ends before `u`.
abbrev pub dict_node : Bytes → Entries → Bytes → Parsed Node
dict_node s es u = ok (dict (take (length s - length u) s) es) u

abbrev pub on_key : Node → Parsed Entries → (Bytes → Parsed Entries) → Parsed Entries
on_key (str k) bad f = f k
on_key _ bad f = bad

-- Each call takes a unit of fuel, since what a call leaves is no part of the list that it was given.
unfoldable mutual
  pub parse : ℕ → Bytes → Parsed Node
  parse zero s = out_of_fuel
  parse (suc fuel) [] = err 0
  parse (suc fuel) (c ∷ []) = err 0
  parse (suc fuel) (c ∷ d ∷ s) =
      let items = parse_items fuel (d ∷ s) >>= λ vs t. ok (list vs) t in
      let fields = parse_fields fuel no_entries (d ∷ s) >>= λ es t. dict_node (c ∷ d ∷ s) es t in
      if c == b'i'
      then parse_int (d ∷ s)
      else if c == b'l'
      then items
      else if c == b'd'
      then fields
      else if is_digit c
      then parse_str (c - b'0') (d ∷ s)
      else err (length (c ∷ d ∷ s))

  -- The loop of `case 'l'`, with the test behind it.
  pub parse_items : ℕ → Bytes → Parsed Nodes
  parse_items zero t = out_of_fuel
  parse_items (suc fuel) t =
      let more = parse fuel t >>= λ v u. parse_items fuel u >>= λ vs w. ok (cons v vs) w in
      if has_item t then more else finish_loop nil t

  -- The loop of `case 'd'`, with the test behind it.
  pub parse_fields : ℕ → Entries → Bytes → Parsed Entries
  parse_fields zero es t = out_of_fuel
  parse_fields (suc fuel) es t =
      let more = parse fuel t >>= λ key u.
      on_key key (err (length t))
        λ k. parse fuel u >>= λ v w. parse_fields fuel (map_add k v es) w in
      if has_item t then more else finish_loop es t

-- The parser with enough fuel.
unfoldable pub parse_all : Bytes → Parsed Node
unfolding parse
parse_all s = parse (2 * length s + 1) s
