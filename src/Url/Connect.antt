-- ===== src/Url/Connect.antt =====
-- What `CombineTo` writes for a login, a host and a port, `parse` reads back (url.cc).
use lftp.Prelude.{
  ℕ, ◌/◌, ◌%◌, ◌<◌, ◌≡◌, ◌≢◌, refl, sym, ap, ◌∙◌, Bool, true, false, [], ◌∷◌, ◌++◌, append_assoc,
  none, some, Bytes, codes, one_of, is_digit, arith, ◌==◌, if◌then◌else◌, inl, inr, Bool-cases,
}
use lftp.Url.Coding.{
  host_unsafe, port_unsafe, user_unsafe, need_quote, hex_digit, encode, is_xdigit, decode, AreBytes,
  plain_ne, decode-encode,
}
use lftp.Url.Scan.{break_at}
use lftp.Url.Password.{Lacks}
use lftp.Url.Fields.{
  ParsedUrl, break_last, with_login, host_of, with_port, with_connect, parse_connect, decode_field,
  decode_fields,
}
use lftp.Url.Combine.{user_text, host_text, port_text}

pub break_at-here : (c : ℕ) (a b : Bytes) → Lacks c a → break_at c (a ++ c ∷ b) ≡ (a, c ∷ b)
unfolding break_at
break_at-here c [] b h = ground arith
break_at-here c (d ∷ a) b (n, h) = ground (arith, break_at-here c a b h)

break_last-none : (c : ℕ) (a : Bytes) → Lacks c a → break_last c a ≡ none
unfolding break_last
break_last-none c [] h = refl
break_last-none c (d ∷ a) (n, h) = ground (arith, break_last-none c a h)

break_last-here : (c : ℕ) (a b : Bytes) → Lacks c b → break_last c (a ++ c ∷ b) ≡ some (a, b)
unfolding break_last
break_last-here c [] b h = ground (arith, break_last-none c b h)
break_last-here c (d ∷ a) b h = ground (arith, break_last-here c a b h)

-- A byte that no escape is made of.
abbrev IsMark : ℕ → Type 0
IsMark c = (is_xdigit c ≡ false) × (c ≢ b'%')

hex_digit_ne : (c n : ℕ) → n < 16 → IsMark c → hex_digit n ≢ c
hex_digit_ne c n l (h, k) e = ground arith

pub encode-Lacks :
    (unsafe : Bytes) (a : Bool) (c : ℕ) (s : Bytes)
    → one_of unsafe c ≡ true
    → IsMark c
    → AreBytes s
    → Lacks c (encode unsafe a s)
unfolding encode
encode-Lacks unsafe a c [] u m b = tt
encode-Lacks unsafe a c (d ∷ s) u m (l, b) = elim (Bool-cases (need_quote unsafe a d)) [
  | inl h ↦
      rw (h, encode)
        (
          (λ e. m.1 (sym e)),
          (
            hex_digit_ne c (d / 16) (omega arith) m,
            (hex_digit_ne c (d % 16) (omega arith) m, encode-Lacks unsafe a c s u m b),
          ),
        )
  | inr h ↦ rw (h, encode) (plain_ne unsafe a c d u h, encode-Lacks unsafe a c s u m b)
]

encode-keeps :
    (unsafe : Bytes) (a : Bool) (c : ℕ) (s : Bytes)
    → IsMark c
    → AreBytes s
    → Lacks c s
    → Lacks c (encode unsafe a s)
unfolding encode
encode-keeps unsafe a c [] m b k = tt
encode-keeps unsafe a c (d ∷ s) m (l, b) (n, k) = elim (Bool-cases (need_quote unsafe a d)) [
  | inl h ↦
      rw (h, encode)
        (
          (λ e. m.1 (sym e)),
          (
            hex_digit_ne c (d / 16) (omega arith) m,
            (hex_digit_ne c (d % 16) (omega arith) m, encode-keeps unsafe a c s m b k),
          ),
        )
  | inr h ↦ rw (h, encode) (n, encode-keeps unsafe a c s m b k)
]

-- A port of digits.
abbrev pub AreDigits : Bytes → Type 0
AreDigits [] = Unit {0}
AreDigits (c ∷ s) = (is_digit c ≡ true) × AreDigits s

pub AreDigits-Lacks : (c : ℕ) (s : Bytes) → is_digit c ≡ false → AreDigits s → Lacks c s
AreDigits-Lacks c [] h d = tt
AreDigits-Lacks c (x ∷ s) h (e, d) = (ground arith, AreDigits-Lacks c s h d)

need_quote-digit : (c : ℕ) → is_digit c ≡ true → need_quote port_unsafe false c ≡ false
unfolding need_quote
need_quote-digit c h = ground arith

encode-AreDigits : (s : Bytes) → AreDigits s → encode port_unsafe false s ≡ s
unfolding encode
encode-AreDigits [] d = refl
encode-AreDigits (c ∷ s) (e, d) =
    rw (need_quote-digit c e, encode) (ap (λ t. c ∷ t) (encode-AreDigits s d))

one_of-Lacks : (c : ℕ) (s : Bytes) → Lacks c s → one_of s c ≡ false
one_of-Lacks c [] h = refl
one_of-Lacks c (d ∷ s) (n, h) = ground (arith, one_of-Lacks c s h)

host_of-here : (a b : Bytes) → Lacks b':' a → Lacks b'[' a → host_of (a ++ b':' ∷ b) ≡ (a, b':' ∷ b)
unfolding host_of
host_of-here [] b h k = break_at-here b':' [] b h
host_of-here (c ∷ a) b h (n, k) = if_false (c == b'[') _ _ (ne c n) ∙ break_at-here b':' (c ∷ a) b h
  where
    if_false : {A : Type 0} (o : Bool) (x y : A) → o ≡ false → (if o then x else y) ≡ y
    if_false o x y e = ap (λ b'. if b' then x else y) e

    ne : (m : ℕ) → m ≢ b'[' → (m == b'[') ≡ false
    ne m e = ground arith

module _ (u : ParsedUrl) (n w h p : Bytes) where
  connect_read :
      Lacks b':' n
      → Lacks b':' h × Lacks b'@' h × Lacks b'[' h
      → Lacks b':' p × Lacks b'@' p
      → parse_connect u ((n ++ b':' ∷ w) ++ b'@' ∷ (h ++ b':' ∷ p))
        ≡ record u { user = some n; pass = some w; host = some h; port = some p }
  unfolding parse_connect
  connect_read a (b, c, d) (e, f) =
      let base = h ++ b':' ∷ p in
      let text = (n ++ b':' ∷ w) ++ b'@' ∷ base in
      let v : ParsedUrl = record u { user = some n; pass = some w } in
      ap (with_connect u text) (break_last-here b'@' (n ++ b':' ∷ w) base (host_Lacks h c))
      ∙ ap (λ q. with_port (with_login u q) base (host_of base)) (break_at-here b':' n w a)
      ∙ ap (with_port v base) (host_of-here h p b d)
      ∙ ap
          (λ o.
            if o then record v { host = some base } else record v { host = some h; port = some p })
          (one_of-Lacks b':' p e)
    where
      host_Lacks : (s : Bytes) → Lacks b'@' s → Lacks b'@' (s ++ b':' ∷ p)
      host_Lacks [] k = (omega arith, f)
      host_Lacks (x ∷ s) (m, k) = (m, host_Lacks s k)

abbrev fields_of : ParsedUrl → Bytes → Bytes → Bytes → Bytes → ParsedUrl
fields_of u w h p n = record u {
  user = some n;
  pass = some w;
  host = some h;
  port = some p;
  path = decode_field u.path;
}

-- What `CombineTo` writes between the protocol and the path.
abbrev pub connect_text : (Bytes → Bool) → (Bytes → Bool) → Bytes → Bytes → Bytes → Bytes → Bytes
connect_text is_domain is_ipv6 n w h p =
    user_text (some n) (some w) ++ (host_text is_domain is_ipv6 (some h) ++ port_text (some p))

abbrev pub encoded : (Bytes → Bool) → Bytes → Bytes → Bytes → Bytes → Bytes
encoded is_domain n w h p =
    (encode user_unsafe false n ++ b':' ∷ encode user_unsafe false w)
    ++ b'@' ∷ (encode host_unsafe (is_domain h) h ++ b':' ∷ p)

pub connect_text-encoded :
    (is_domain is_ipv6 : Bytes → Bool) (n w h p : Bytes)
    → is_ipv6 h ≡ false
    → AreDigits p
    → connect_text is_domain is_ipv6 n w h p ≡ encoded is_domain n w h p
connect_text-encoded is_domain is_ipv6 n w h p v6 d =
    let n' = encode user_unsafe false n in
    let w' = encode user_unsafe false w in
    let h' = encode host_unsafe (is_domain h) h in
    let base = h' ++ b':' ∷ p in
    let host : host_text is_domain is_ipv6 (some h) ≡ h' =
      ap (λ o. if o then b'[' ∷ h ++ codes "]" else h') v6 in
    ap (λ t. user_text (some n) (some w) ++ (t ++ port_text (some p))) host
    ∙ ap (λ t. user_text (some n) (some w) ++ (h' ++ b':' ∷ t)) (encode-AreDigits p d)
    ∙ ap (λ t. t ++ base) (sym (append_assoc n' (b':' ∷ w') (codes "@")))
    ∙ append_assoc (n' ++ b':' ∷ w') (codes "@") base

-- The user, the password, the host and the port that `CombineTo` writes are those that the step of `parse` for them
-- cuts out and decodes, for texts of bytes, a host that is no IPv6 address and has no `@`, and a port of digits.
pub parse_connect-combine :
    (is_domain is_ipv6 : Bytes → Bool) (u : ParsedUrl) (n w h p : Bytes)
    → AreBytes n
    → AreBytes w
    → AreBytes h
    → Lacks b'@' h
    → is_ipv6 h ≡ false
    → AreDigits p
    → decode_fields (
        parse_connect u (
          user_text (some n) (some w)
          ++ (host_text is_domain is_ipv6 (some h) ++ port_text (some p))))
      ≡ record u {
        user = some n;
        pass = some w;
        host = some h;
        port = some p;
        path = decode_field u.path;
      }
unfolding decode_fields
parse_connect-combine is_domain is_ipv6 u n w h p a b c k v6 d =
    let n' = encode user_unsafe false n in
    let w' = encode user_unsafe false w in
    let h' = encode host_unsafe (is_domain h) h in
    let read =
      connect_read u n' w' h' p (encode-Lacks user_unsafe false b':' n refl (refl, omega arith) a)
        (
          encode-Lacks host_unsafe (is_domain h) b':' h refl (refl, omega arith) c,
          encode-keeps host_unsafe (is_domain h) b'@' h (refl, omega arith) c k,
          encode-Lacks host_unsafe (is_domain h) b'[' h refl (refl, omega arith) c,
        )
        (AreDigits-Lacks b':' p refl d, AreDigits-Lacks b'@' p refl d) in
    ap (λ t. decode_fields (parse_connect u t))
      (connect_text-encoded is_domain is_ipv6 n w h p v6 d)
    ∙ ap decode_fields read
    ∙ ap (fields_of u (decode false w') (decode false h') p)
        (decode-encode user_unsafe false n refl a)
    ∙ ap (λ t. fields_of u t (decode false h') p n) (decode-encode user_unsafe false w refl b)
    ∙ ap (λ t. fields_of u w t p n) (decode-encode host_unsafe (is_domain h) h refl c)
