-- ===== src/Bencode/Tests.antt =====
-- The theorems on bencoded values at small values, and texts parsed by evaluation.
use lftp.Prelude.{◌≡◌, refl, ◌++◌, Bytes, codes, arith, length}
use lftp.Prelude.Int.{pos, negsuc}
use lftp.Bencode.Node.{Node, str, int, list, dict, nil, cons, no_entries, entry}
use lftp.Bencode.Decimal.{digits, decimal, decimal_ℤ}
use lftp.Bencode.Parser.{ok, err, parse, parse_all, parse_str, parse_int}
use lftp.Bencode.Printer.{pack, pack_sorted, insert_field, compute_length}
use lftp.Bencode.Length.{compute_length-pack}
use lftp.Bencode.Total.{IsParse, parse-IsParse}
use lftp.Bencode.Canonical.{Canonical}
use lftp.Bencode.RoundTrip.{parse_all-pack}

abbrev torrent : Node
torrent = list (cons (str (codes "spam")) (cons (int (negsuc 41)) nil))

abbrev torrent_text : Bytes
torrent_text = codes "d1:ai7ee"

abbrev info : Node
info = dict torrent_text (entry (codes "a") (int (pos 7)) no_entries)

info-Canonical : Canonical info
unfolding Canonical pack insert_field pack_sorted decimal_ℤ decimal digits
info-Canonical = (refl, (tt, omega arith, tt))

parse_all-pack_example : parse_all (pack info ++ codes "xyz") ≡ ok info (codes "xyz")
parse_all-pack_example = parse_all-pack info (codes "xyz") info-Canonical

compute_length-pack_example : compute_length torrent ≡ length (pack torrent)
compute_length-pack_example = compute_length-pack torrent

parse-IsParse_example : IsParse torrent_text (parse 17 torrent_text)
parse-IsParse_example = parse-IsParse 17 torrent_text (omega arith)

parse_list : parse_all (codes "l4:spami-42eex") ≡ ok torrent (codes "x")
unfolding parse_all parse parse_str parse_int
parse_list = refl

parse_cut : parse 17 (codes "i-e") ≡ err 0
unfolding parse parse_int
parse_cut = refl
