-- ===== src/Bencode/Total.antt =====
-- The parser ends on every text, and takes a node off the front of it (Bencode.cc).
use lftp.Prelude.{
  ℕ, zero, suc, ◌+◌, ◌-◌, ◌*◌, ◌≤◌, ◌<◌, ◌≡◌, refl, Bool, true, false, not, ◌&&◌, [], ◌∷◌, ◌++◌,
  Bytes, peek, peek_next, tail, is_digit, ltb, ◌==◌, arith, length, if_cases, if_both,
}
use lftp.Prelude.Rest.{IsRest, here, there, IsRest-trans, IsRest-length, tail-IsRest, take-IsRest}
use lftp.Bencode.Node.{Node, Nodes, Entries, str, int, list, dict, nil, no_entries, map_add}
use lftp.Bencode.Parser.{
  Parsed, ok, err, out_of_fuel, ◌>>=◌, read_digits, finish_int, parse_nat, parse_int, read_len,
  finish_str, parse_str, has_item, dict_node, parse, parse_items, parse_fields,
}
use lftp.Bencode.Leaves.{
  Consumes, Consumes-bind, Consumes-cons, Leaves, Leaves-IsRest, Leaves-bind, finish_loop-Leaves,
  length-tail, on_key-Leaves, parse_int-Leaves, parse_str-Leaves,
}

mutual
  unfolding parse

  parse-Consumes : (fuel : ℕ) (s : Bytes) → 2 * length s < fuel → Consumes s (parse fuel s)
  parse-Consumes zero s h = absurd (omega arith)
  parse-Consumes (suc fuel) [] h = omega arith
  parse-Consumes (suc fuel) (c ∷ []) h = omega arith
  parse-Consumes (suc fuel) (c ∷ d ∷ s) h =
      let t : Bytes = d ∷ s in
      let P = Consumes {A = Node} (c ∷ t) in
      if_both P (c == b'i') _ _ (Consumes-cons c t _ (parse_int-Leaves t)) (
        if_both P (c == b'l') _ _
          (Consumes-cons c t _ (
            Leaves-bind t t (parse_items fuel t) _ (here refl)
              (parse_items-Leaves fuel t (omega arith)) λ vs u k. k))
          (if_both P (c == b'd') _ _
            (Consumes-cons c t _ (
              Leaves-bind t t (parse_fields fuel no_entries t) _ (here refl)
                (parse_fields-Leaves fuel no_entries t (omega arith)) λ es u k. k))
            (if_both P (is_digit c) _ _ (Consumes-cons c t _ (parse_str-Leaves (c - b'0') t))
              (omega arith))))

  parse_items-Leaves :
      (fuel : ℕ) (t : Bytes) → suc (2 * length t) < fuel → Leaves t (parse_items fuel t)
  parse_items-Leaves zero t h = absurd (omega arith)
  parse_items-Leaves (suc fuel) t h =
      if_cases (Leaves {A = Nodes} t) (has_item t) _ _
        (λ k. Consumes-bind t (parse fuel t) _ (parse-Consumes fuel t (omega arith)) λ v u r.
          let r' : IsRest u t = IsRest-trans r (tail-IsRest t) in
          Leaves-bind t u (parse_items fuel u) _ r'
            (parse_items-Leaves fuel u (omega (arith, length-tail t k, IsRest-length r)))
            λ vs w q. IsRest-trans q r')
        λ _. finish_loop-Leaves nil t

  parse_fields-Leaves :
      (fuel : ℕ) (es : Entries) (t : Bytes)
      → suc (2 * length t) < fuel
      → Leaves t (parse_fields fuel es t)
  parse_fields-Leaves zero es t h = absurd (omega arith)
  parse_fields-Leaves (suc fuel) es t h =
      if_cases (Leaves {A = Entries} t) (has_item t) _ _
        (λ k. Consumes-bind t (parse fuel t) _ (parse-Consumes fuel t (omega arith)) λ key u r.
          let r' : IsRest u t = IsRest-trans r (tail-IsRest t) in
          on_key-Leaves t key (length t) _ (omega arith) λ b. Leaves-IsRest u t _ r' (
            Consumes-bind u (parse fuel u) _
              (parse-Consumes fuel u (omega (arith, length-tail t k, IsRest-length r)))
              λ v w q.
                let q' : IsRest w u = IsRest-trans q (tail-IsRest u) in
                Leaves-IsRest w u _ q' (
                  parse_fields-Leaves fuel (map_add b v es) w
                    (omega (arith, length-tail t k, IsRest-length r, IsRest-length q')))))
        λ _. finish_loop-Leaves es t

-- A dictionary keeps the text that it was parsed from.
abbrev pub KeepsText : Bytes → Node → Bytes → Type 0
KeepsText s (dict text es) t = text ++ t ≡ s
KeepsText s _ t = Unit {0}

-- A success takes a node off the front of the text: at least two bytes, and for a dictionary
-- exactly the text that the node keeps. A failure points into the text.
abbrev pub IsParse : Bytes → Parsed Node → Type 0
IsParse s (ok v t) = IsRest t s × (length t + 1 ≤ length s) × KeepsText s v t
IsParse s (err n) = n ≤ length s
IsParse s out_of_fuel = ⊥

-- The result is no dictionary.
abbrev Plain : Parsed Node → Type 0
Plain (ok (dict text es) t) = ⊥
Plain _ = Unit {0}

parse_int-Plain : (t : Bytes) → Plain (parse_int t)
unfolding parse_int parse_nat finish_int
parse_int-Plain t = if_both Plain (peek t == b'-') _ _ (nat true (tail t)) (nat false t)
  where
    nat : (neg : Bool) (t : Bytes) → Plain (parse_nat neg t)
    nat neg t = if_both Plain (ltb (length t) 2) _ _ tt (
        if_both Plain (is_digit (peek t)) _ _
          (if_both Plain (peek t == b'0' && not (peek_next t == b'e')) _ _ tt
            (if_both Plain (peek (read_digits (peek t - b'0') (tail t)).1 == b'e') _ _ tt tt))
          tt)

parse_str-Plain : (d : ℕ) (t : Bytes) → Plain (parse_str d t)
unfolding parse_str finish_str
parse_str-Plain d t = go (read_len d t)
  where
    go : (r : Parsed ℕ) → Plain (r >>= finish_str)
    go (ok n u) =
        if_both Plain (peek u == b':') _ _ (if_both Plain (ltb (length (tail u)) n) _ _ tt tt) tt
    go (err n) = tt
    go out_of_fuel = tt

IsParse-Plain : (c : ℕ) (t : Bytes) (r : Parsed Node) → Leaves t r → Plain r → IsParse (c ∷ t) r
IsParse-Plain c t (ok (str b) u) h p = (there h, omega (arith, IsRest-length h), tt)
IsParse-Plain c t (ok (int z) u) h p = (there h, omega (arith, IsRest-length h), tt)
IsParse-Plain c t (ok (list vs) u) h p = (there h, omega (arith, IsRest-length h), tt)
IsParse-Plain c t (ok (dict text es) u) h p = absurd p
IsParse-Plain c t (err n) h p = omega arith
IsParse-Plain c t out_of_fuel h p = h

IsParse-list :
    (c : ℕ) (t : Bytes) (r : Parsed Nodes)
    → Leaves t r
    → IsParse (c ∷ t) (r >>= λ vs u. ok (list vs) u)
IsParse-list c t (ok vs u) h = (there h, omega (arith, IsRest-length h), tt)
IsParse-list c t (err n) h = omega arith
IsParse-list c t out_of_fuel h = h

IsParse-dict :
    (c : ℕ) (t : Bytes) (r : Parsed Entries)
    → Leaves t r
    → IsParse (c ∷ t) (r >>= λ es u. dict_node (c ∷ t) es u)
IsParse-dict c t (ok es u) h =
    (there h, omega (arith, IsRest-length h), take-IsRest u (c ∷ t) (there h))
IsParse-dict c t (err n) h = omega arith
IsParse-dict c t out_of_fuel h = h

-- With fuel above twice the length of the text the parser ends. A success takes the node off the
-- front of the text, at least one byte of it; a dictionary keeps exactly the text that it was
-- parsed from. The position of a failure lies in the text.
pub parse-IsParse : (fuel : ℕ) (s : Bytes) → 2 * length s < fuel → IsParse s (parse fuel s)
unfolding parse
parse-IsParse zero s h = absurd (omega arith)
parse-IsParse (suc fuel) [] h = omega arith
parse-IsParse (suc fuel) (c ∷ []) h = omega arith
parse-IsParse (suc fuel) (c ∷ d ∷ s) h =
    let t : Bytes = d ∷ s in
    let P = IsParse (c ∷ t) in
    if_both P (c == b'i') _ _ (IsParse-Plain c t _ (parse_int-Leaves t) (parse_int-Plain t)) (
      if_both P (c == b'l') _ _ (IsParse-list c t _ (parse_items-Leaves fuel t (omega arith))) (
        if_both P (c == b'd') _ _
          (IsParse-dict c t _ (parse_fields-Leaves fuel no_entries t (omega arith)))
          (if_both P (is_digit c) _ _
            (IsParse-Plain c t _ (parse_str-Leaves (c - b'0') t) (parse_str-Plain (c - b'0') t))
            (omega arith))))
