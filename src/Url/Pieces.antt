-- ===== src/Url/Pieces.antt =====
-- The pieces of a URL (url.cc) and how each is read.
use lftp.Prelude.{
  ℕ, ◌≡◌, ◌≢◌, refl, ap, ◌∙◌, Bool, true, false, [], ◌∷◌, ◌++◌, Option, none, some, Bytes, codes,
  peek, same, arith,
}
use lftp.Url.Coding.{path_unsafe, need_quote, encode}
use lftp.Url.Scan.{is_alpha, span_alpha}
use lftp.Url.Fields.{ParsedUrl, without_colon, url_path}
use lftp.Url.Connect.{AreDigits}

abbrev pub AreLetters : Bytes → Type 0
AreLetters [] = Unit {0}
AreLetters (c ∷ s) = (is_alpha c ≡ true) × AreLetters s

-- A protocol of letters that has no rules of its own for files, paths or names.
abbrev pub IsOrdinary : Bytes → Type 0
IsOrdinary pr =
    AreLetters pr
    × (same pr (codes "file") ≡ false)
    × (same pr (codes "ftp") ≡ false)
    × (same pr (codes "ftps") ≡ false)
    × (same pr (codes "hftp") ≡ false)
    × (same pr (codes "slot") ≡ false)
    × (same pr (codes "bm") ≡ false)

pub span_alpha-AreLetters :
    (a b : Bytes) → AreLetters a → span_alpha (a ++ b':' ∷ b) ≡ (a, b':' ∷ b)
unfolding span_alpha
span_alpha-AreLetters [] b h = refl
span_alpha-AreLetters (c ∷ a) b (n, h) = ground (arith, span_alpha-AreLetters a b h)

without_colon-cons : (x y : ℕ) (s : Bytes) → without_colon (x ∷ y ∷ s) ≡ x ∷ without_colon (y ∷ s)
unfolding without_colon
without_colon-cons x y s = refl

pub without_colon-port : (s p : Bytes) → AreDigits p → p ≢ [] → without_colon (s ++ p) ≡ s ++ p
without_colon-port [] [] d ne = absurd (ne refl)
without_colon-port [] (c ∷ []) (e, d) ne = unfold without_colon in ground arith
without_colon-port [] (c ∷ x ∷ p) (e, d) ne =
    without_colon-cons c x p ∙ ap (λ t. c ∷ t) (without_colon-port [] (x ∷ p) d (λ q. absurd cc))
without_colon-port (y ∷ []) [] d ne = absurd (ne refl)
without_colon-port (y ∷ []) (c ∷ p) d ne =
    without_colon-cons y c p ∙ ap (λ t. y ∷ t) (without_colon-port [] (c ∷ p) d ne)
without_colon-port (y ∷ z ∷ s) p d ne =
    without_colon-cons y z (s ++ p) ∙ ap (λ t. y ∷ t) (without_colon-port (z ∷ s) p d ne)

pub url_path-IsOrdinary :
    (rfc1738 : Bool) (pr : Bytes) (path : Option Bytes) (t : Bytes)
    → IsOrdinary pr
    → peek t ≢ b'~'
    → url_path rfc1738 (some pr) path (b'/' ∷ t) ≡ some (b'/' ∷ t)
unfolding url_path
url_path-IsOrdinary rfc1738 pr path t (l, f, a, b, c, s, m) ne = ground arith

pub encode-slash :
    (t : Bytes) → encode path_unsafe false (b'/' ∷ t) ≡ b'/' ∷ encode path_unsafe false t
unfolding encode need_quote
encode-slash t = refl

pub tilde : (t : Bytes) → peek t ≢ b'~' → peek (encode path_unsafe false t) ≢ b'~'
unfolding encode
tilde [] ne = ne
tilde (c ∷ t) ne = ground arith

-- The fields of a URL: protocol, user, password, host, port, and the path behind its first slash.
abbrev pub fields : Bytes → Bytes → Bytes → Bytes → Bytes → Bytes → ParsedUrl
fields pr n w h p t = record {
  proto = some pr;
  user = some n;
  pass = some w;
  host = some h;
  port = some p;
  path = some (b'/' ∷ t);
  orig_url = none;
}
