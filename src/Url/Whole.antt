-- ===== src/Url/Whole.antt =====
-- A URL that `CombineTo` writes is one that `parse` reads back (url.cc).
use lftp.Prelude.{
  ℕ, suc, ◌≡◌, ◌≢◌, refl, sym, ap, ◌∙◌, Bool, false, ◌||◌, [], ◌∷◌, ◌++◌, append_assoc, Option,
  some, Bytes, codes, peek, same, arith, if◌then◌else◌,
}
use lftp.Url.Coding.{path_unsafe, host_unsafe, user_unsafe, encode, decode, AreBytes, decode-encode}
use lftp.Url.Scan.{starts}
use lftp.Url.Password.{Lacks, Lacks-append}
use lftp.Url.Fields.{
  ParsedUrl, without_colon, parse_connect, url_path, parse_rest, decode_fields, is,
}
use lftp.Url.Parse.{Session, parsed, parse_fields, parse}
use lftp.Url.Combine.{combine, proto_text, path_text}
use lftp.Url.Connect.{
  AreDigits, AreDigits-Lacks, break_at-here, encode-Lacks, connect_text, encoded,
  connect_text-encoded, parse_connect-combine,
}
use lftp.Url.Pieces.{
  IsOrdinary, encode-slash, fields, span_alpha-AreLetters, tilde, url_path-IsOrdinary,
  without_colon-port,
}

module _ (is_domain is_ipv6 : Bytes → Bool) (pr n w h p t : Bytes) where
  combine-IsOrdinary :
      (home : Option Bytes) (rfc1738 : Bool)
      → IsOrdinary pr
      → combine is_domain is_ipv6 (fields pr n w h p t) home rfc1738
        ≡ pr
          ++ (codes "://"
              ++ (connect_text is_domain is_ipv6 n w h p ++ b'/' ∷ encode path_unsafe false t))
  unfolding combine same
  combine-IsOrdinary home rfc1738 (l, f, a, b, c, s, m) =
      let text = connect_text is_domain is_ipv6 n w h p in
      let G : Bool → Bool → Bytes = λ is_file is_ftp.
        proto_text is_file (some pr)
        ++ ((if is_file then [] else text)
            ++ path_text is_domain is_ipv6 is_file is_ftp rfc1738 home (some (b'/' ∷ t))) in
      ap (λ o. G o (same pr (codes "ftp") || same pr (codes "hftp"))) f
      ∙ ap (λ o. G false (o || same pr (codes "hftp"))) a
      ∙ ap (G false) c
      ∙ append_assoc pr (codes "://") (text ++ encode path_unsafe false (b'/' ∷ t))
      ∙ ap (λ e. pr ++ (codes "://" ++ (text ++ e))) (encode-slash t)

module _ (find_session : Bytes → Option Session) (bookmark : Bytes → Option Bytes) where
  parse_fields-IsOrdinary :
      (proto_required rfc1738 : Bool) (u : ParsedUrl) (pr base : Bytes)
      → IsOrdinary pr
      → parse_fields find_session bookmark proto_required rfc1738 u (pr ++ (codes "://" ++ base))
        ≡ parse_rest rfc1738
            (record u { proto = some pr; orig_url = some (pr ++ (codes "://" ++ base)) })
            base
  unfolding parse_fields starts
  parse_fields-IsOrdinary proto_required rfc1738 u pr base (l, f, a, b, c, s, m) =
      rw (span_alpha-AreLetters pr (codes "//" ++ base) l, f, parse_fields) refl

encoded-Lacks :
    (is_domain : Bytes → Bool) (n w h p : Bytes)
    → AreBytes n
    → AreBytes w
    → AreBytes h
    → AreDigits p
    → Lacks b'/' (encoded is_domain n w h p)
encoded-Lacks is_domain n w h p a b c d =
    let n' = encode user_unsafe false n in
    let w' = encode user_unsafe false w in
    let h' = encode host_unsafe (is_domain h) h in
    Lacks-append b'/' (n' ++ b':' ∷ w') (b'@' ∷ (h' ++ b':' ∷ p))
      (Lacks-append b'/' n' (b':' ∷ w')
        (encode-Lacks user_unsafe false b'/' n refl (refl, omega arith) a)
        (omega arith, encode-Lacks user_unsafe false b'/' w refl (refl, omega arith) b))
      (
        omega arith,
        Lacks-append b'/' h' (b':' ∷ p)
            (encode-Lacks host_unsafe (is_domain h) b'/' h refl (refl, omega arith) c)
            (omega arith, AreDigits-Lacks b'/' p refl d),
      )

encoded-port :
    (is_domain : Bytes → Bool) (n w h p : Bytes)
    → AreDigits p
    → p ≢ []
    → without_colon (encoded is_domain n w h p) ≡ encoded is_domain n w h p
encoded-port is_domain n w h p d ne =
    let front = encode user_unsafe false n ++ b':' ∷ encode user_unsafe false w in
    let h' = encode host_unsafe (is_domain h) h in
    let split : encoded is_domain n w h p ≡ (front ++ b'@' ∷ (h' ++ b':' ∷ [])) ++ p =
      ap (λ s. front ++ b'@' ∷ s) (sym (append_assoc h' (b':' ∷ []) p))
      ∙ sym (append_assoc front (b'@' ∷ (h' ++ b':' ∷ [])) p) in
    ap without_colon split
    ∙ without_colon-port (front ++ b'@' ∷ (h' ++ b':' ∷ [])) p d ne
    ∙ sym split

parse_rest-IsOrdinary :
    (rfc1738 : Bool) (u : ParsedUrl) (pr connect t : Bytes)
    → IsOrdinary pr
    → u.proto ≡ some pr
    → Lacks b'/' connect
    → without_colon connect ≡ connect
    → peek t ≢ b'~'
    → parse_rest rfc1738 u (connect ++ b'/' ∷ t)
      ≡ parse_connect (record u { path = some (b'/' ∷ t) }) connect
unfolding parse_rest
parse_rest-IsOrdinary rfc1738 u pr connect t o e k c ne =
    ap
      (λ q.
        parse_connect (record u { path = url_path rfc1738 u.proto u.path q.1 }) (without_colon q.0))
      (break_at-here b'/' connect t k)
    ∙ ap
        (λ x.
          parse_connect (record u { path = url_path rfc1738 x u.path (b'/' ∷ t) })
            (without_colon connect))
        e
    ∙ ap (λ x. parse_connect (record u { path = x }) (without_colon connect))
        (url_path-IsOrdinary rfc1738 pr u.path t o ne)
    ∙ ap (parse_connect (record u { path = some (b'/' ∷ t) })) c

parse-no_name :
    (find_session : Bytes → Option Session) (bookmark : Bytes → Option Bytes) (fuel : ℕ)
    (proto_required rfc1738 : Bool) (u0 u : ParsedUrl) (url : Bytes)
    → decode_fields (parse_fields find_session bookmark proto_required rfc1738 u0 url) ≡ u
    → is u.proto (codes "slot") ≡ false
    → is u.proto (codes "bm") ≡ false
    → parse find_session bookmark (suc fuel) proto_required rfc1738 u0 url ≡ parsed u
unfolding parse
parse-no_name find_session bookmark fuel proto_required rfc1738 u0 u url e s m =
    rw (e, s, m, parse) refl

-- Parsing the text that `CombineTo` writes for a URL gives the fields of that URL back, whatever
-- they were before: for a protocol of letters without rules of its own, a user, a password and a
-- host of bytes, the host no IPv6 address and without `@`, a port of digits, and a path of bytes
-- that begins with a slash and goes on with no `~`.
pub parse-combine :
    (find_session : Bytes → Option Session) (bookmark : Bytes → Option Bytes)
    (is_domain is_ipv6 : Bytes → Bool) (fuel : ℕ) (proto_required rfc1738 : Bool)
    (home : Option Bytes) (u0 : ParsedUrl) (pr n w h p t : Bytes)
    → IsOrdinary pr
    → AreBytes n × AreBytes w × AreBytes h × AreBytes t
    → Lacks b'@' h
    → is_ipv6 h ≡ false
    → AreDigits p × (p ≢ [])
    → peek t ≢ b'~'
    → parse find_session bookmark
        (suc fuel)
        proto_required
        rfc1738
        u0
        (combine is_domain is_ipv6 (fields pr n w h p t) home rfc1738)
      ≡ parsed (record (fields pr n w h p t) {
        orig_url = some (combine is_domain is_ipv6 (fields pr n w h p t) home rfc1738);
      })
parse-combine find_session bookmark is_domain is_ipv6 fuel proto_required rfc1738 home u0 pr n w h p
      t o (a, b, c, x) k v6 (d, ne) nt =
    let e = encode path_unsafe false t in
    let connect = connect_text is_domain is_ipv6 n w h p in
    let coded = encoded is_domain n w h p in
    let shape = connect_text-encoded is_domain is_ipv6 n w h p v6 d in
    let url = pr ++ (codes "://" ++ (connect ++ b'/' ∷ e)) in
    let whole = combine-IsOrdinary is_domain is_ipv6 pr n w h p t home rfc1738 o in
    let v : ParsedUrl = record u0 { proto = some pr; orig_url = some url } in
    let v' : ParsedUrl = record v { path = some (b'/' ∷ e) } in
    let path_back : decode false (b'/' ∷ e) ≡ b'/' ∷ t =
      ap (decode false) (sym (encode-slash t))
      ∙ decode-encode path_unsafe false (b'/' ∷ t) refl (omega arith, x) in
    let result : Bytes → Bytes → ParsedUrl = λ path orig. record {
      proto = some pr;
      user = some n;
      pass = some w;
      host = some h;
      port = some p;
      path = some path;
      orig_url = some orig;
    } in
    let read : decode_fields (parse_fields find_session bookmark proto_required rfc1738 u0 url)
        ≡ result (b'/' ∷ t) url =
      ap decode_fields (
        parse_fields-IsOrdinary find_session bookmark proto_required rfc1738 u0 pr
          (connect ++ b'/' ∷ e) o
        ∙ ap (λ s. parse_rest rfc1738 v (s ++ b'/' ∷ e)) shape
        ∙ parse_rest-IsOrdinary rfc1738 v pr coded e o refl
            (encoded-Lacks is_domain n w h p a b c d) (encoded-port is_domain n w h p d ne)
            (tilde t nt)
        ∙ ap (parse_connect v') (sym shape))
      ∙ parse_connect-combine is_domain is_ipv6 v' n w h p a b c k v6 d
      ∙ ap (λ s. result s url) path_back in
    let (_, _, _, _, _, slot, bm) = o in
    ap (parse find_session bookmark (suc fuel) proto_required rfc1738 u0) whole
    ∙ parse-no_name find_session bookmark fuel proto_required rfc1738 u0 (result (b'/' ∷ t) url) url
        read slot bm
    ∙ ap (λ s. parsed (result (b'/' ∷ t) s)) (sym whole)
