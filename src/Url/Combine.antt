-- ===== src/Url/Combine.antt =====
-- `ParsedURL::CombineTo` (url.cc): the text of a URL from its fields.
use lftp.Prelude.{
  Bool, false, ◌&&◌, ◌||◌, not, [], ◌∷◌, ◌++◌, Option, none, some, Bytes, codes, peek, tail, same,
  ◌==◌, if◌then◌else◌, drop,
}
use lftp.Url.Coding.{encode, path_unsafe, host_unsafe, port_unsafe, user_unsafe}
use lftp.Url.Scan.{starts}
use lftp.Url.Fields.{ParsedUrl, is}

-- `CombineTo`: what a field adds. `is_domain` is `xtld_name_ok` and `is_ipv6` is `is_ipv6_address`.
abbrev pub user_text : Option Bytes → Option Bytes → Bytes
user_text none pass = []
user_text (some name) none = encode user_unsafe false name ++ codes "@"
user_text (some name) (some word) =
    encode user_unsafe false name ++ (b':' ∷ encode user_unsafe false word ++ codes "@")

abbrev pub port_text : Option Bytes → Bytes
port_text none = []
port_text (some port) = b':' ∷ encode port_unsafe false port

abbrev pub proto_text : Bool → Option Bytes → Bytes
proto_text is_file none = []
proto_text is_file (some p) = p ++ (if is_file then codes ":" else codes "://")

module _ (is_domain is_ipv6 : Bytes → Bool) where
  abbrev pub host_text : Option Bytes → Bytes
  host_text none = []
  host_text (some host) =
      if is_ipv6 host then b'[' ∷ host ++ codes "]" else encode host_unsafe (is_domain host) host

  -- A path of ftp below the root is written with `%2F`, unless the root is the home directory.
  abbrev pub path_text : Bool → Bool → Bool → Option Bytes → Option Bytes → Bytes
  path_text is_file is_ftp rfc1738 home none = []
  path_text is_file is_ftp rfc1738 home (some path) =
      let slash = if not (peek path == b'/') && not is_file then codes "/" else [] in
      let text =
        if is_ftp && rfc1738
        then if peek path == b'/' && not (is home (codes "/"))
          then codes "/%2F" ++ encode path_unsafe false (tail path)
          else if starts (codes "~/") path
          then encode path_unsafe false (drop 2 path)
          else encode path_unsafe false path
        else encode path_unsafe false path in
      if same path (codes "~") then [] else slash ++ text

  unfoldable pub combine : ParsedUrl → Option Bytes → Bool → Bytes
  unfolding encode starts
  combine u home rfc1738 =
      let is_file = is u.proto (codes "file") in
      let is_ftp = is u.proto (codes "ftp") || is u.proto (codes "hftp") in
      let remote =
        if is_file then [] else user_text u.user u.pass ++ (host_text u.host ++ port_text u.port) in
      proto_text is_file u.proto ++ (remote ++ path_text is_file is_ftp rfc1738 home u.path)
