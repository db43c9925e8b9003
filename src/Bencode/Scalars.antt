-- ===== src/Bencode/Scalars.antt =====
-- Strings and numbers are read back (Bencode.cc).
use lftp.Prelude.{
  ℕ, suc, ◌+◌, ◌-◌, ◌*◌, ◌%◌, ◌^◌, ◌≤◌, ◌<◌, ◌≡◌, ◌≢◌, refl, ap, ◌∙◌, Bool, true, false, [], ◌∷◌,
  ◌++◌, append_assoc, Bytes, peek, is_digit, if◌then◌else◌, ◌&&◌, not, arith, length, length-append,
  take, drop, ltb, ◌==◌, Bool-cases, inl, inr,
}
use lftp.Prelude.Int.{ℤ, pos, negsuc}
use lftp.Bencode.Node.{str, int, signed64}
use lftp.Bencode.Decimal.{
  decimal, decimal_ℤ, AllDigits, value, decimal-value, decimal-AllDigits, decimal-Leads,
}
use lftp.Bencode.Parser.{
  ok, read_digits, finish_int, parse_nat, parse_int, read_len, finish_str, parse_str, parse,
}
use lftp.Bencode.Printer.{pack_str, pack}
use lftp.Bencode.Canonical.{IsInt64}

le-value : (n : ℕ) (ds : Bytes) → n ≤ value n ds
le-value n [] = omega arith
le-value n (c ∷ ds) = omega (arith, le-value (n * 10 + (c - b'0')) ds)

read_len-value :
    (n : ℕ) (ds u : Bytes)
    → AllDigits ds
    → value n ds ≤ length u
    → read_len n (ds ++ b':' ∷ u) ≡ ok (value n ds) (b':' ∷ u)
unfolding read_len
read_len-value n [] u d h = refl
read_len-value n (c ∷ ds) u d h = ground (
  arith,
  read_len-value (n * 10 + (c - b'0')) ds u d.2,
  le-value (n * 10 + (c - b'0')) ds,
  length-append ds (b':' ∷ u),
)

take_front : (s t : Bytes) → take (length s) (s ++ t) ≡ s
take_front [] t = refl
take_front (c ∷ s) t = ap (◌∷◌ c) (take_front s t)

drop_front : (s t : Bytes) → drop (length s) (s ++ t) ≡ t
drop_front [] t = refl
drop_front (c ∷ s) t = drop_front s t

finish_str-text : (s t : Bytes) → finish_str (length s) (b':' ∷ (s ++ t)) ≡ ok (str s) t
unfolding finish_str
finish_str-text s t = ground (arith, take_front s t, drop_front s t, length-append s t)

parse_digit :
    (fuel c : ℕ) (t : Bytes)
    → t ≢ []
    → is_digit c ≡ true
    → parse (suc fuel) (c ∷ t) ≡ parse_str (c - b'0') t
unfolding parse
parse_digit fuel c [] n h = absurd (n refl)
parse_digit fuel c (d ∷ s) n h = ground arith

-- A first digit and the others, read from the value of the first.
value_first :
    (n c : ℕ) (ds : Bytes) → decimal n ≡ c ∷ ds → AllDigits (c ∷ ds) × (value (c - b'0') ds ≡ n)
value_first n c ds e =
    let v : value 0 (c ∷ ds) ≡ n = rw e at (decimal-value n) in
    let z : 0 * 10 + (c - b'0') ≡ c - b'0' = omega arith in
    (rw e at (decimal-AllDigits n), rw z at v)

parse_str_value :
    (c : ℕ) (ds s rest : Bytes)
    → AllDigits (c ∷ ds)
    → value (c - b'0') ds ≡ length s
    → parse_str (c - b'0') (ds ++ b':' ∷ (s ++ rest)) ≡ ok (str s) rest
unfolding parse_str
parse_str_value c ds s rest d v =
    rw (read_len-value (c - b'0') ds (s ++ rest) d.2 (omega (arith, length-append s rest)), v)
      (finish_str-text s rest)

pub append-ne-nil : (ds t : Bytes) (c : ℕ) → ds ++ c ∷ t ≢ []
append-ne-nil [] t c e = cc
append-ne-nil (d ∷ ds) t c e = cc

parse-leading :
    (fuel c : ℕ) (ds s rest : Bytes)
    → decimal (length s) ≡ c ∷ ds
    → parse (suc fuel) (c ∷ (ds ++ b':' ∷ (s ++ rest))) ≡ ok (str s) rest
parse-leading fuel c ds s rest e =
    let (d, v) = value_first (length s) c ds e in
    parse_digit fuel c _ (append-ne-nil ds (s ++ rest) b':') (ground arith)
    ∙ parse_str_value c ds s rest d v

-- A string is read back, with fuel for one call.
pub parse-pack_str :
    (fuel : ℕ) (s rest : Bytes) → parse (suc fuel) (pack_str s ++ rest) ≡ ok (str s) rest
parse-pack_str fuel s rest =
    let l = decimal-Leads (length s) in
    rw l.splits (
      ap (λ (t : Bytes). parse (suc fuel) (l.first ∷ t)) (append_assoc l.others (b':' ∷ s) rest)
      ∙ parse-leading fuel l.first l.others s rest l.splits)

read_digits-value :
    (n : ℕ) (ds rest : Bytes)
    → AllDigits ds
    → value n ds < 2 ^ 64
    → read_digits n (ds ++ b'e' ∷ rest) ≡ (value n ds, b'e' ∷ rest)
unfolding read_digits
read_digits-value n [] [] d h = refl
read_digits-value n [] (c ∷ rest) d h = refl
read_digits-value n (c ∷ []) rest d h =
    ground (arith, read_digits-value (n * 10 + (c - b'0')) [] rest)
read_digits-value n (c ∷ b ∷ ds) rest d h = ground (
  arith,
  read_digits-value (n * 10 + (c - b'0')) (b ∷ ds) rest d.2,
  le-value (n * 10 + (c - b'0')) (b ∷ ds),
)

-- The number behind the sign.
abbrev signed : Bool → ℕ → ℤ
signed neg n = signed64 (if neg then (2 ^ 64 - n) % 2 ^ 64 else n)

parse_nat_step :
    (neg : Bool) (c n : ℕ) (t rest : Bytes)
    → ltb (suc (length t)) 2 ≡ false
    → is_digit c ≡ true
    → (c == b'0' && not (peek t == b'e')) ≡ false
    → read_digits (c - b'0') t ≡ (n, b'e' ∷ rest)
    → parse_nat neg (c ∷ t) ≡ ok (int (signed neg n)) rest
unfolding parse_nat finish_int
parse_nat_step neg c n t rest short digit alone read = rw (short, digit, alone, read)

no_leading_zero :
    (c : ℕ) (ds rest : Bytes)
    → (c ≡ b'0' → ds ≡ [])
    → (c == b'0' && not (peek (ds ++ b'e' ∷ rest) == b'e')) ≡ false
no_leading_zero c ds rest z = elim (Bool-cases (c == b'0')) [
  | inl e ↦ rw (e, z (ground arith))
  | inr e ↦ rw e
]

parse_nat-leading :
    (neg : Bool) (n c : ℕ) (ds rest : Bytes)
    → decimal n ≡ c ∷ ds
    → (c ≡ b'0' → (n ≡ 0) × (ds ≡ []))
    → n < 2 ^ 64
    → parse_nat neg (c ∷ (ds ++ b'e' ∷ rest)) ≡ ok (int (signed neg n)) rest
parse_nat-leading neg n c ds rest e z h =
    let (d, v) = value_first n c ds e in
    parse_nat_step neg c n (ds ++ b'e' ∷ rest) rest (ground (arith, length-append ds (b'e' ∷ rest)))
      (ground arith) (no_leading_zero c ds rest (λ k. (z k).1))
      (read_digits-value (c - b'0') ds rest d.2 (omega arith) ∙ ap (λ m. (m, b'e' ∷ rest)) v)

parse_nat-decimal :
    (neg : Bool) (n : ℕ) (rest : Bytes)
    → n < 2 ^ 64
    → parse_nat neg (decimal n ++ b'e' ∷ rest) ≡ ok (int (signed neg n)) rest
parse_nat-decimal neg n rest h =
    let l = decimal-Leads n in
    rw l.splits (parse_nat-leading neg n l.first l.others rest l.splits l.lone_zero h)

parse_int_plain :
    (c : ℕ) (t : Bytes) → is_digit c ≡ true → parse_int (c ∷ t) ≡ parse_nat false (c ∷ t)
unfolding parse_int
parse_int_plain c t h = ground arith

parse_int_minus : (t : Bytes) → parse_int (b'-' ∷ t) ≡ parse_nat true t
unfolding parse_int
parse_int_minus t = refl

signed_pos : (n : ℕ) → n < 2 ^ 63 → signed false n ≡ pos n
signed_pos n h = ground arith

signed_neg : (n : ℕ) → n < 2 ^ 63 → signed true (suc n) ≡ negsuc n
signed_neg n h = ground arith

parse_int-decimal :
    (n : ℕ) (rest : Bytes)
    → parse_int (decimal n ++ b'e' ∷ rest) ≡ parse_nat false (decimal n ++ b'e' ∷ rest)
parse_int-decimal n rest =
    let l = decimal-Leads n in
    let d = rw l.splits at (decimal-AllDigits n) in
    rw l.splits (parse_int_plain l.first (l.others ++ b'e' ∷ rest) (ground arith))

parse_int-decimal_ℤ :
    (z : ℤ) (rest : Bytes) → IsInt64 z → parse_int (decimal_ℤ z ++ b'e' ∷ rest) ≡ ok (int z) rest
unfolding decimal_ℤ
parse_int-decimal_ℤ (pos n) rest h =
    parse_int-decimal n rest
    ∙ parse_nat-decimal false n rest (omega arith)
    ∙ ap (λ (y : ℤ). ok (int y) rest) (signed_pos n h)
parse_int-decimal_ℤ (negsuc n) rest h =
    parse_int_minus (decimal (suc n) ++ b'e' ∷ rest)
    ∙ parse_nat-decimal true (suc n) rest (omega arith)
    ∙ ap (λ (y : ℤ). ok (int y) rest) (signed_neg n h)

parse_tagged : (fuel : ℕ) (t : Bytes) → t ≢ [] → parse (suc fuel) (b'i' ∷ t) ≡ parse_int t
unfolding parse
parse_tagged fuel [] n = absurd (n refl)
parse_tagged fuel (d ∷ s) n = refl

-- A number of 64 bits is read back, with fuel for one call.
pub parse-pack_int :
    (fuel : ℕ) (z : ℤ) (rest : Bytes)
    → IsInt64 z
    → parse (suc fuel) (pack (int z) ++ rest) ≡ ok (int z) rest
unfolding pack
parse-pack_int fuel z rest h =
    ap (λ (t : Bytes). parse (suc fuel) (b'i' ∷ t)) (append_assoc (decimal_ℤ z) (b'e' ∷ []) rest)
    ∙ parse_tagged fuel _ (append-ne-nil (decimal_ℤ z) rest b'e')
    ∙ parse_int-decimal_ℤ z rest h
