-- ===== src/Url/Fields.antt =====
-- The fields of a URL, and how each is cut from its text (url.cc).
use lftp.Prelude.{
  ℕ, Bool, true, false, ◌&&◌, ◌||◌, [], ◌∷◌, Option, none, some, Bytes, codes, peek, peek_next,
  tail, one_of, same, ◌==◌, if◌then◌else◌, take, drop,
}
use lftp.Alias.{casecmp}
use lftp.Url.Coding.{decode}
use lftp.Url.Scan.{is_equal, is_alpha, break_at, starts}

pub record ParsedUrl : Type 0 where
  pub proto : Option Bytes
  pub user : Option Bytes
  pub pass : Option Bytes
  pub host : Option Bytes
  pub port : Option Bytes
  pub path : Option Bytes
  pub orig_url : Option Bytes

-- `!xstrcmp(field, text)`
abbrev pub is : Option Bytes → Bytes → Bool
is none text = false
is (some f) text = same f text

abbrev pub is_set : Option Bytes → Bool
is_set none = false
is_set (some f) = true

-- Behind the last byte `c`, and what stands before it; nothing where there is no such byte.
unfoldable pub break_last : ℕ → Bytes → Option (Bytes × Bytes)
break_last c [] = none
break_last c (d ∷ s) = elim (break_last c s) [
  | some (a, t) ↦ some (d ∷ a, t)
  | none ↦ if d == c then some ([], s) else none
]

-- The text without a colon at its end.
unfoldable pub without_colon : Bytes → Bytes
without_colon [] = []
without_colon (c ∷ []) = if c == b':' then [] else c ∷ []
without_colon (c ∷ d ∷ s) = c ∷ without_colon (d ∷ s)

-- `pass` is set where the user text has a colon.
abbrev pub with_login : ParsedUrl → Bytes × Bytes → ParsedUrl
with_login u (name, []) = record u { user = some name }
with_login u (name, c ∷ password) = record u { user = some name; pass = some password }

-- The host behind the login, and the text behind the host: an address in brackets, or the text
-- before a colon. An empty text in brackets is a host; without a closing bracket there are none.
abbrev pub in_brackets : Bytes → Bytes × Bytes → Bytes × Bytes
in_brackets base (address, []) = break_at b':' base
in_brackets base (address, c ∷ rest) = (address, rest)

unfoldable pub host_of : Bytes → Bytes × Bytes
unfolding break_at
host_of base =
    let inside = in_brackets base (break_at b']' (tail base)) in
    let plain = break_at b':' base in if peek base == b'[' then inside else plain

-- The port behind the host; more than one colon is an address without brackets.
abbrev pub with_port : ParsedUrl → Bytes → Bytes × Bytes → ParsedUrl
with_port u base (h, rest) =
    if peek rest == b':'
    then if one_of (tail rest) b':'
      then record u { host = some base }
      else record u { host = some h; port = some (tail rest) }
    else record u { host = some h }

abbrev pub with_connect : ParsedUrl → Bytes → Option (Bytes × Bytes) → ParsedUrl
with_connect u connect none = with_port u connect (host_of connect)
with_connect u connect (some (login, base)) =
    with_port (with_login u (break_at b':' login)) base (host_of base)

-- User, password, host and port.
unfoldable pub parse_connect : ParsedUrl → Bytes → ParsedUrl
unfolding break_last host_of break_at
parse_connect u connect = with_connect u connect (break_last b'@' connect)

-- A directory of ftp is below the home directory, unless it begins with `%2F`; a drive is no path.
abbrev pub ftp_path : Option Bytes → Bytes → Option Bytes
ftp_path path s =
    if is_equal (casecmp (take 3 (tail s)) (codes "%2F"))
    then some (tail s)
    else if is_alpha (peek_next s) && starts (codes ":/") (drop 2 s)
    then path
    else some (b'~' ∷ s)

-- The path of a URL whose text from the first slash on is `s`.
unfoldable pub url_path : Bool → Option Bytes → Option Bytes → Bytes → Option Bytes
unfolding starts
url_path rfc1738 proto path [] =
    if is proto (codes "http") || is proto (codes "https") then some (codes "/") else path
url_path rfc1738 proto path (c ∷ s) =
    if peek s == b'~'
    then some s
    else if (is proto (codes "ftp") || is proto (codes "ftps") || is proto (codes "hftp"))
        && rfc1738
    then ftp_path path (c ∷ s)
    else some (c ∷ s)

-- The part of the URL behind the protocol.
unfoldable pub parse_rest : Bool → ParsedUrl → Bytes → ParsedUrl
unfolding without_colon url_path parse_connect
parse_rest rfc1738 u base =
    let (front, s) = break_at b'/' base in
    parse_connect (record u { path = url_path rfc1738 u.proto u.path s }) (without_colon front)

abbrev pub decode_field : Option Bytes → Option Bytes
decode_field none = none
decode_field (some s) = some (decode false s)

unfoldable pub decode_fields : ParsedUrl → ParsedUrl
decode_fields u = record u {
  user = decode_field u.user;
  pass = decode_field u.pass;
  host = decode_field u.host;
  path = decode_field u.path;
}

abbrev pub local_file : ParsedUrl → Bytes → Bytes → ParsedUrl
local_file u proto path = record u {
  proto = some proto;
  path = some path;
  host = some (codes "localhost");
}

-- A slot or a bookmark: the path is what stands from the first slash on.
abbrev pub with_name : ParsedUrl → Bytes → Bytes × Bytes → ParsedUrl
with_name u proto (name, []) = record u { proto = some proto; host = some name }
with_name u proto (name, c ∷ path) = record u {
  proto = some proto;
  host = some name;
  path = some (c ∷ path);
}
