-- ===== src/Bencode/Leaves.antt =====
-- What the parser of bencode (buffer_bencode.cc) leaves unread is a part of its text.
use lftp.Prelude.{
  ℕ, suc, ◌+◌, ◌-◌, ◌*◌, ◌%◌, ◌^◌, ◌≤◌, ◌≡◌, refl, Bool, true, false, not, ◌&&◌, [], ◌∷◌, Bytes,
  peek, peek_next, tail, is_digit, ltb, leb, ◌==◌, arith, length, if_both,
}
use lftp.Prelude.Rest.{IsRest, here, there, IsRest-trans, IsRest-length, tail-IsRest, drop-IsRest}
use lftp.Bencode.Node.{Node, Entries, str, int, list, dict}
use lftp.Bencode.Parser.{
  Parsed, ok, err, out_of_fuel, ◌>>=◌, read_digits, finish_int, parse_nat, parse_int, read_len,
  finish_str, parse_str, has_item, finish_loop, on_key,
}

-- The parser did not run out of fuel, and a success leaves a rest of `s`.
abbrev pub Leaves : {A : Type 0} → Bytes → Parsed A → Type 0
Leaves s (ok a t) = IsRest t s
Leaves s (err n) = n ≤ length s
Leaves s out_of_fuel = ⊥

pub Leaves-IsRest : {A : Type 0} (t s : Bytes) (r : Parsed A) → IsRest t s → Leaves t r → Leaves s r
Leaves-IsRest t s (ok a u) h k = IsRest-trans k h
Leaves-IsRest t s (err n) h k = omega (arith, IsRest-length h)
Leaves-IsRest t s out_of_fuel h k = k

pub Leaves-bind :
    {A B : Type 0} (s t : Bytes) (m : Parsed A) (f : A → Bytes → Parsed B)
    → IsRest t s
    → Leaves t m
    → ((a : A) (u : Bytes) → IsRest u t → Leaves s (f a u))
    → Leaves s (m >>= f)
Leaves-bind s t (ok a u) f r h k = k a u h
Leaves-bind s t (err n) f r h k = omega (arith, IsRest-length r)
Leaves-bind s t out_of_fuel f r h k = h

read_digits-IsRest : (n : ℕ) (t : Bytes) → IsRest (read_digits n t).1 t
unfolding read_digits
read_digits-IsRest n [] = here refl
read_digits-IsRest n (c ∷ []) = here refl
read_digits-IsRest n (c ∷ d ∷ s) =
    if_both (λ (p : ℕ × Bytes). IsRest p.1 (c ∷ d ∷ s)) (is_digit c) _ _
      (there (read_digits-IsRest ((n * 10 + (c - b'0')) % 2 ^ 64) (d ∷ s))) (here refl)

finish_int-Leaves : (neg : Bool) (n : ℕ) (t : Bytes) → Leaves t (finish_int neg n t)
unfolding finish_int
finish_int-Leaves neg n t = if_both (Leaves t) (peek t == b'e') _ _ (tail-IsRest t) (omega arith)

parse_nat-Leaves : (neg : Bool) (t : Bytes) → Leaves t (parse_nat neg t)
unfolding parse_nat
parse_nat-Leaves neg t =
    let (n, u) = read_digits (peek t - b'0') (tail t) in
    if_both (Leaves t) (ltb (length t) 2) _ _ (omega arith) (
      if_both (Leaves t) (is_digit (peek t)) _ _
        (if_both (Leaves t) (peek t == b'0' && not (peek_next t == b'e')) _ _ (omega arith) (
          Leaves-IsRest u t _
            (IsRest-trans (read_digits-IsRest (peek t - b'0') (tail t)) (tail-IsRest t))
            (finish_int-Leaves neg n u)))
        (omega arith))

pub parse_int-Leaves : (t : Bytes) → Leaves t (parse_int t)
unfolding parse_int
parse_int-Leaves t =
    if_both (Leaves t) (peek t == b'-') _ _
      (Leaves-IsRest (tail t) t _ (tail-IsRest t) (parse_nat-Leaves true (tail t)))
      (parse_nat-Leaves false t)

read_len-Leaves : (n : ℕ) (t : Bytes) → Leaves t (read_len n t)
unfolding read_len
read_len-Leaves n [] = here refl
read_len-Leaves n (c ∷ s) =
    let P = Leaves {A = ℕ} (c ∷ s) in
    if_both P (is_digit c) _ _
      (if_both P (leb (length (c ∷ s)) n) _ _ (omega arith)
        (Leaves-IsRest s (c ∷ s) _ (there (here refl)) (read_len-Leaves (n * 10 + (c - b'0')) s)))
      (here refl)

finish_str-Leaves : (n : ℕ) (t : Bytes) → Leaves t (finish_str n t)
unfolding finish_str
finish_str-Leaves n t =
    if_both (Leaves t) (peek t == b':') _ _
      (if_both (Leaves t) (ltb (length (tail t)) n) _ _ (omega arith)
        (IsRest-trans (drop-IsRest n (tail t)) (tail-IsRest t)))
      (omega arith)

pub parse_str-Leaves : (d : ℕ) (t : Bytes) → Leaves t (parse_str d t)
unfolding parse_str
parse_str-Leaves d t =
    Leaves-bind t t (read_len d t) finish_str (here refl) (read_len-Leaves d t)
      λ n u h. Leaves-IsRest u t _ h (finish_str-Leaves n u)

pub finish_loop-Leaves : {A : Type 0} (a : A) (t : Bytes) → Leaves t (finish_loop a t)
finish_loop-Leaves {A} a t =
    if_both (Leaves {A = A} t) (peek t == b'e') _ _ (tail-IsRest t) (omega arith)

pub on_key-Leaves :
    (s : Bytes) (key : Node) (n : ℕ) (f : Bytes → Parsed Entries)
    → n ≤ length s
    → ((k : Bytes) → Leaves s (f k))
    → Leaves s (on_key key (err n) f)
on_key-Leaves s (str k) n f e h = h k
on_key-Leaves s (int z) n f e h = e
on_key-Leaves s (list vs) n f e h = e
on_key-Leaves s (dict r es) n f e h = e

-- A node takes at least one byte.
abbrev pub Consumes : {A : Type 0} → Bytes → Parsed A → Type 0
Consumes s (ok a t) = IsRest t (tail s)
Consumes s (err n) = n ≤ length s
Consumes s out_of_fuel = ⊥

pub Consumes-cons :
    {A : Type 0} (c : ℕ) (s : Bytes) (r : Parsed A) → Leaves s r → Consumes (c ∷ s) r
Consumes-cons c s (ok a t) h = h
Consumes-cons c s (err n) h = omega arith
Consumes-cons c s out_of_fuel h = h

pub Consumes-bind :
    {A B : Type 0} (s : Bytes) (m : Parsed A) (f : A → Bytes → Parsed B)
    → Consumes s m
    → ((a : A) (u : Bytes) → IsRest u (tail s) → Leaves s (f a u))
    → Leaves s (m >>= f)
Consumes-bind s (ok a u) f h k = k a u h
Consumes-bind s (err n) f h k = h
Consumes-bind s out_of_fuel f h k = h

pub length-tail : (t : Bytes) → has_item t ≡ true → suc (length (tail t)) ≡ length t
length-tail [] h = ground arith
length-tail (c ∷ s) h = refl
