-- ===== src/Url/Parse.antt =====
-- `ParsedURL::parse` (url.cc). A field that the code leaves null is `none`; a parse
-- writes into the fields as they are, so a second parse, for a bookmark, keeps what it does not set.
use lftp.Prelude.{
  ℕ, zero, suc, Bool, true, false, ◌&&◌, ◌||◌, not, [], ◌∷◌, ◌++◌, Option, none, some, Bytes, codes,
  peek, tail, same, ◌==◌, if◌then◌else◌, length, take, drop,
}
use lftp.Url.Scan.{span_alpha, break_at, starts, valid_slot, valid_bm, path_index}
use lftp.Url.Fields.{ParsedUrl, decode_fields, is, is_set, local_file, parse_rest, with_name}

-- What a slot holds. `cwd` is its directory, and `cd` that directory changed to another one.
pub record Session : Type 0 where
  pub s_proto : Option Bytes
  pub s_user : Option Bytes
  pub s_pass : Option Bytes
  pub s_host : Option Bytes
  pub s_port : Option Bytes
  pub cwd : Bytes
  pub cd : Bytes → Bytes

-- `path+(path[0]==c)`
abbrev pub skip_one : ℕ → Bytes → Bytes
skip_one c s = if peek s == c then tail s else s

abbrev pub slot_path : Session → Option Bytes → Bytes
slot_path s none = s.cwd
slot_path s (some path) = s.cd (skip_one b'/' path)

abbrev pub with_session : ParsedUrl → Option Session → ParsedUrl
with_session u none = u
with_session u (some s) = record {
  proto = s.s_proto;
  user = s.s_user;
  pass = s.s_pass;
  host = s.s_host;
  port = s.s_port;
  path = some (slot_path s u.path);
  orig_url = none;
}

pub data Parsing : Type 0 where
  parsed : ParsedUrl → Parsing
  aborted out_of_fuel : Parsing

unfoldable pub last_byte : Bytes → ℕ
last_byte [] = 0
last_byte (c ∷ []) = c
last_byte (c ∷ d ∷ s) = last_byte (d ∷ s)

abbrev pub text_of : Option Bytes → Bytes
text_of none = []
text_of (some s) = s

-- The sessions of the slots and the values of the bookmarks, by name.
module _ (find_session : Bytes → Option Session) (bookmark : Bytes → Option Bytes) where
  abbrev pub has_slot : Bytes → Bool
  has_slot name = elim (find_session name) [ none ↦ false | some s ↦ true ]

  -- The fields before they are decoded.
  unfoldable pub parse_fields : Bool → Bool → ParsedUrl → Bytes → ParsedUrl
  unfolding starts break_at
  parse_fields proto_required rfc1738 u0 url =
      let u = record u0 { orig_url = some url } in
      let (a, s) = span_alpha url in
      let base = drop 3 s in
      if starts (codes "://") s
      then if same a (codes "file") && peek base == b'/'
        then local_file u a base
        else parse_rest rfc1738 (record u { proto = some a }) base
      else if peek s == b':' && starts (codes "file:") url
      then local_file u a (tail s)
      else if peek s == b':'
          && ((starts (codes "slot:") url && valid_slot has_slot bookmark (tail s))
              || (starts (codes "bm:") url && valid_bm has_slot bookmark (tail s)))
      then with_name u a (break_at b'/' (tail s))
      else if proto_required
      then record u { path = some url }
      else parse_rest rfc1738 u url

  -- The URL that a bookmark and the path behind its name make; nothing where `assert(u[0])` fails.
  unfoldable pub bookmark_url : Bytes → Bytes → Option Bytes
  bookmark_url bm orig =
      let rest = skip_one b'/' (drop (path_index has_slot bookmark orig) orig) in
      let u =
        if peek rest == b'/' || peek rest == b'~'
        then take (path_index has_slot bookmark bm) bm
        else bm in
      if length u == 0
      then none
      else if not (last_byte u == b'/') && not (peek rest == b'/')
      then some (u ++ b'/' ∷ rest)
      else if last_byte u == b'/' && peek rest == b'/'
      then some (u ++ tail rest)
      else some (u ++ rest)

  -- The value of a bookmark that is there and is not empty.
  abbrev pub bookmark_of : ParsedUrl → Option Bytes
  bookmark_of u = elim (bookmark (text_of u.host)) [
    | none ↦ none
    | some [] ↦ none
    | some (c ∷ s) ↦ some (c ∷ s)
  ]

  -- A bookmark is parsed in its turn; a chain of bookmarks takes a unit of fuel for each.
  unfoldable pub parse : ℕ → Bool → Bool → ParsedUrl → Bytes → Parsing
  parse zero proto_required rfc1738 u0 url = out_of_fuel
  parse (suc fuel) proto_required rfc1738 u0 url =
      let u = decode_fields (parse_fields proto_required rfc1738 u0 url) in
      if is u.proto (codes "slot")
      then parsed (with_session u (find_session (text_of u.host)))
      else if is u.proto (codes "bm")
      then elim (bookmark_of u) [
        | none ↦ parsed u
        | some bm ↦ elim (bookmark_url bm url) [
          | none ↦ aborted
          | some next ↦ parse fuel proto_required rfc1738 u next
        ]
      ]
      else parsed u

  unfoldable pub is_url : ℕ → Bytes → Option Bool
  is_url fuel url =
      elim (parse fuel true true
        (record {
          proto = none;
          user = none;
          pass = none;
          host = none;
          port = none;
          path = none;
          orig_url = none;
        })
        url) [ parsed u ↦ some (is_set u.proto) | aborted ↦ none | out_of_fuel ↦ none ]
