-- ===== src/Url/Coding.antt =====
-- `append_url_encoded` and `_url_decode` (xstring.cc), and the sets of url.h. A byte is below 256.
use lftp.Prelude.{
  ℕ, ◌+◌, ◌-◌, ◌*◌, ◌/◌, ◌%◌, ◌<◌, ◌≡◌, ◌≢◌, refl, ap, ◌∙◌, Bool, true, false, ◌&&◌, ◌||◌, not, [],
  ◌∷◌, ◌++◌, Bytes, codes, one_of, is_digit, ltb, leb, ◌==◌, if◌then◌else◌, inl, inr, Bool-cases,
  arith,
}

abbrev pub url_unsafe : Bytes
url_unsafe = codes " <>\"'%{}|\\^[]`"

abbrev pub path_unsafe : Bytes
path_unsafe = url_unsafe ++ codes "#;?&+"

abbrev pub host_unsafe : Bytes
host_unsafe = url_unsafe ++ codes ":/"

abbrev pub port_unsafe : Bytes
port_unsafe = url_unsafe ++ codes "/"

abbrev pub user_unsafe : Bytes
user_unsafe = url_unsafe ++ codes "/:@"

abbrev pub is_cntrl : ℕ → Bool
is_cntrl c = ltb c 32 || c == 127

-- `need_quote`; `strchr` finds the NUL too.
unfoldable pub need_quote : Bytes → Bool → ℕ → Bool
need_quote unsafe allow_8bit c =
    is_cntrl c || (not allow_8bit && not (ltb c 128)) || (one_of unsafe c || c == 0)

-- A digit of `%02X`.
abbrev pub hex_digit : ℕ → ℕ
hex_digit n = if ltb n 10 then b'0' + n else b'A' + (n - 10)

unfoldable pub encode : Bytes → Bool → Bytes → Bytes
unfolding need_quote
encode unsafe allow_8bit [] = []
encode unsafe allow_8bit (c ∷ s) =
    let rest = encode unsafe allow_8bit s in
    if need_quote unsafe allow_8bit c
    then b'%' ∷ hex_digit (c / 16) ∷ hex_digit (c % 16) ∷ rest
    else c ∷ rest

abbrev pub is_xdigit : ℕ → Bool
is_xdigit c = is_digit c || (leb b'A' c && leb c b'F') || (leb b'a' c && leb c b'f')

-- The value of a hexadecimal digit.
abbrev pub hex_value : ℕ → ℕ
hex_value c = if is_digit c then c - b'0' else if leb b'a' c then c - b'a' + 10 else c - b'A' + 10

-- A byte that begins no escape; with the flag `URL_DECODE_PLUS` a plus is a space.
abbrev pub plain : Bool → ℕ → ℕ
plain plus c = if c == b'+' && plus then b' ' else c

unfoldable pub decode : Bool → Bytes → Bytes
decode plus [] = []
decode plus (c ∷ []) = plain plus c ∷ []
decode plus (c ∷ d ∷ []) = plain plus c ∷ plain plus d ∷ []
decode plus (c ∷ d ∷ e ∷ s) =
    let behind = decode plus s in
    let next = decode plus (d ∷ e ∷ s) in
    if c == b'%' && is_xdigit d && is_xdigit e
    then (hex_value d * 16 + hex_value e) ∷ behind
    else plain plus c ∷ next

abbrev pub AreBytes : Bytes → Type 0
AreBytes [] = Unit {0}
AreBytes (c ∷ s) = (c < 256) × AreBytes s

hex_digit-is_xdigit : (n : ℕ) → n < 16 → is_xdigit (hex_digit n) ≡ true
hex_digit-is_xdigit n h = ground arith

hex_value-hex_digit : (n : ℕ) → n < 16 → hex_value (hex_digit n) ≡ n
hex_value-hex_digit n h = ground arith

decode_plain : (c : ℕ) (s : Bytes) → c ≢ b'%' → decode false (c ∷ s) ≡ c ∷ decode false s
unfolding decode
decode_plain c [] h = ground arith
decode_plain c (d ∷ []) h = ground arith
decode_plain c (d ∷ e ∷ s) h = ground arith

decode_escape :
    (d e : ℕ) (s : Bytes)
    → is_xdigit d ≡ true
    → is_xdigit e ≡ true
    → decode false (b'%' ∷ d ∷ e ∷ s) ≡ (hex_value d * 16 + hex_value e) ∷ decode false s
unfolding decode
decode_escape d e s h k = rw (h, k, decode) refl

-- A byte that is not quoted is none of the unsafe ones.
pub plain_ne :
    (unsafe : Bytes) (a : Bool) (c d : ℕ)
    → one_of unsafe c ≡ true
    → need_quote unsafe a d ≡ false
    → d ≢ c
unfolding need_quote
plain_ne unsafe a c d u h e = go (one_of unsafe d) (ap (one_of unsafe) e ∙ u) h
  where
    go :
        (o : Bool)
        → o ≡ true
        → (is_cntrl d || (not a && not (ltb d 128)) || (o || d == 0)) ≡ false
        → ⊥
    go true p q = ground arith
    go false p q = absurd cc

-- Decoding undoes encoding: a text of bytes, encoded with a set of unsafe bytes that has the
-- percent sign, is decoded as itself.
pub decode-encode :
    (unsafe : Bytes) (allow_8bit : Bool) (s : Bytes)
    → one_of unsafe b'%' ≡ true
    → AreBytes s
    → decode false (encode unsafe allow_8bit s) ≡ s
unfolding encode decode
decode-encode unsafe a [] u b = refl
decode-encode unsafe a (c ∷ s) u (l, b) = elim (Bool-cases (need_quote unsafe a c)) [
  | inl h ↦
      rw (h, encode)
        (decode_escape (hex_digit (c / 16)) (hex_digit (c % 16)) (encode unsafe a s)
            (hex_digit-is_xdigit (c / 16) (omega arith))
            (hex_digit-is_xdigit (c % 16) (omega arith))
          ∙ ap (λ t. (hex_value (hex_digit (c / 16)) * 16 + hex_value (hex_digit (c % 16))) ∷ t)
              (decode-encode unsafe a s u b)
          ∙ ap (λ n. (n * 16 + hex_value (hex_digit (c % 16))) ∷ s)
              (hex_value-hex_digit (c / 16) (omega arith))
          ∙ ap (λ n. (c / 16 * 16 + n) ∷ s) (hex_value-hex_digit (c % 16) (omega arith))
          ∙ ap (λ n. n ∷ s) (omega arith))
  | inr h ↦
      rw (h, encode)
        (decode_plain c (encode unsafe a s) (plain_ne unsafe a b'%' c u h)
          ∙ ap (λ t. c ∷ t) (decode-encode unsafe a s u b))
]
