-- ===== src/Bencode/RoundTrip.antt =====
-- `Parse` reads back what `Pack` writes (Bencode.cc).
use lftp.Prelude.{
  ℕ, zero, suc, ◌+◌, ◌-◌, ◌*◌, ◌≤◌, ◌<◌, ◌≡◌, ◌≢◌, refl, ap, sym, ◌∙◌, true, [], ◌∷◌, ◌++◌,
  append_assoc, append-nil, Bytes, arith, length, length-append, take,
}
use lftp.Bencode.Node.{
  Node, Nodes, Entries, str, int, list, dict, nil, cons, no_entries, entry, map_add,
}
use lftp.Bencode.Decimal.{decimal_ℤ, decimal-AllDigits, decimal-Leads}
use lftp.Bencode.Parser.{ok, has_item, dict_node, parse, parse_items, parse_fields, parse_all}
use lftp.Bencode.Printer.{pack_str, pack_sorted, pack, pack_items, pack_fields}
use lftp.Bencode.Canonical.{
  Precedes, Canonical, CanonicalItems, CanonicalEntries, pack_sorted-entry, behind, AllBelow,
  map_add-behind, behind_assoc, behind-none, AllBelow-next,
}
use lftp.Bencode.Scalars.{append-ne-nil, parse-pack_str, parse-pack_int}

has_item-pack_str : (s t : Bytes) → has_item (pack_str s ++ t) ≡ true
has_item-pack_str s t =
    let l = decimal-Leads (length s) in
    let d = rw l.splits at (decimal-AllDigits (length s)) in
    rw l.splits
      (ground (arith, length-append (l.others ++ b':' ∷ s) t, length-append l.others (b':' ∷ s)))

has_item-pack : (v : Node) (t : Bytes) → has_item (pack v ++ t) ≡ true
unfolding pack
has_item-pack (str s) t = has_item-pack_str s t
has_item-pack (int z) t =
    ground
      (arith, length-append (decimal_ℤ z ++ b'e' ∷ []) t, length-append (decimal_ℤ z) (b'e' ∷ []))
has_item-pack (list vs) t =
    ground (
      arith,
      length-append (pack_items vs ++ b'e' ∷ []) t,
      length-append (pack_items vs) (b'e' ∷ []),
    )
has_item-pack (dict text es) t = ground (
  arith,
  length-append (pack_sorted (pack_fields es) ++ b'e' ∷ []) t,
  length-append (pack_sorted (pack_fields es)) (b'e' ∷ []),
)

has_item-length : (t : Bytes) → has_item t ≡ true → 2 ≤ length t
has_item-length t h = ground arith

length-pack_pos : (v : Node) → 2 ≤ length (pack v)
length-pack_pos v =
    let e : pack v ++ [] ≡ pack v = append-nil (pack v) in
    has_item-length (pack v) (rw e at (has_item-pack v []))

length-pack_str_pos : (s : Bytes) → 2 ≤ length (pack_str s)
length-pack_str_pos s =
    let e : pack_str s ++ [] ≡ pack_str s = append-nil (pack_str s) in
    has_item-length (pack_str s) (rw e at (has_item-pack_str s []))

list_begin :
    (fuel : ℕ) (vs : Nodes) (t rest : Bytes)
    → t ≢ []
    → parse_items fuel t ≡ ok vs rest
    → parse (suc fuel) (b'l' ∷ t) ≡ ok (list vs) rest
unfolding parse
list_begin fuel vs [] rest n h = absurd (n refl)
list_begin fuel vs (d ∷ s) rest n h = rw h

items_end : (fuel : ℕ) (rest : Bytes) → parse_items (suc fuel) (b'e' ∷ rest) ≡ ok nil rest
unfolding parse
items_end fuel rest = ground arith

items_step :
    (fuel : ℕ) (t u w : Bytes) (v : Node) (vs : Nodes)
    → has_item t ≡ true
    → parse fuel t ≡ ok v u
    → parse_items fuel u ≡ ok vs w
    → parse_items (suc fuel) t ≡ ok (cons v vs) w
unfolding parse
items_step fuel t u w v vs h p q = rw (h, p, q)

dict_begin :
    (fuel : ℕ) (es : Entries) (t rest : Bytes)
    → t ≢ []
    → parse_fields fuel no_entries t ≡ ok es rest
    → parse (suc fuel) (b'd' ∷ t) ≡ dict_node (b'd' ∷ t) es rest
unfolding parse
dict_begin fuel es [] rest n h = absurd (n refl)
dict_begin fuel es (d ∷ s) rest n h = rw h

fields_end :
    (fuel : ℕ) (es : Entries) (rest : Bytes) → parse_fields (suc fuel) es (b'e' ∷ rest) ≡ ok es rest
unfolding parse
fields_end fuel es rest = ground arith

fields_step :
    (fuel : ℕ) (es fs : Entries) (k : Bytes) (v : Node) (t u w rest : Bytes)
    → has_item t ≡ true
    → parse fuel t ≡ ok (str k) u
    → parse fuel u ≡ ok v w
    → parse_fields fuel (map_add k v es) w ≡ ok fs rest
    → parse_fields (suc fuel) es t ≡ ok fs rest
unfolding parse
fields_step fuel es fs k v t u w rest h p q r = rw (h, p, q, r)

take_text : (s t : Bytes) → take (length (s ++ t) - length t) (s ++ t) ≡ s
take_text s t = ap (λ n. take n (s ++ t)) (omega (arith, length-append s t)) ∙ front s
  where
    front : (s : Bytes) → take (length s) (s ++ t) ≡ s
    front [] = refl
    front (c ∷ s) = ap (◌∷◌ c) (front s)

-- What was read stands before what comes.
abbrev Below : Entries → Entries → Type 0
Below acc no_entries = Unit {0}
Below acc (entry k v es) = AllBelow k acc

Below-next :
    (k : Bytes) (v : Node) (acc es : Entries)
    → AllBelow k acc
    → Precedes k es
    → Below (behind acc (entry k v no_entries)) es
Below-next k v acc no_entries b p = tt
Below-next k v acc (entry j w es) b p = AllBelow-next k j v acc p b

Below-none : (es : Entries) → Below no_entries es
Below-none no_entries = tt
Below-none (entry k v es) = tt

three : (a b c d : Bytes) → (a ++ (b ++ c)) ++ d ≡ a ++ (b ++ (c ++ d))
three a b c d = append_assoc a (b ++ c) d ∙ ap (◌++◌ a) (append_assoc b c d)

sorted_nil : (t : Bytes) → pack_sorted [] ++ t ≡ t
unfolding pack_sorted
sorted_nil t = refl

key_back :
    (fuel : ℕ) (k rest : Bytes) → 1 ≤ fuel → parse fuel (pack_str k ++ rest) ≡ ok (str k) rest
key_back zero k rest h = absurd (omega arith)
key_back (suc fuel) k rest h = parse-pack_str fuel k rest

sorted_split :
    (k : Bytes) (v : Node) (es : Entries) (t : Bytes)
    → Precedes k es
    → CanonicalEntries es
    → pack_sorted (pack_fields (entry k v es)) ++ t
      ≡ pack_str k ++ (pack v ++ (pack_sorted (pack_fields es) ++ t))
sorted_split k v es t p c =
    ap (λ (s : Bytes). s ++ t) (pack_sorted-entry k v es p c)
    ∙ three (pack_str k) (pack v) (pack_sorted (pack_fields es)) t

sorted_length :
    (k : Bytes) (v : Node) (es : Entries)
    → Precedes k es
    → CanonicalEntries es
    → length (pack_sorted (pack_fields (entry k v es)))
      ≡ length (pack_str k) + length (pack v) + length (pack_sorted (pack_fields es))
sorted_length k v es p c = omega (
  arith,
  ap length (pack_sorted-entry k v es p c),
  length-append (pack_str k) (pack v ++ pack_sorted (pack_fields es)),
  length-append (pack v) (pack_sorted (pack_fields es)),
)

mutual
  unfolding pack Canonical

  node_back :
      (v : Node) (fuel : ℕ) (rest : Bytes)
      → Canonical v
      → length (pack v) ≤ fuel
      → parse fuel (pack v ++ rest) ≡ ok v rest
  node_back v zero rest c h = absurd (omega (arith, length-pack_pos v))
  node_back (str s) (suc fuel) rest c h = parse-pack_str fuel s rest
  node_back (int z) (suc fuel) rest c h = parse-pack_int fuel z rest c
  node_back (list vs) (suc fuel) rest c h =
      ap (λ (t : Bytes). parse (suc fuel) (b'l' ∷ t))
        (append_assoc (pack_items vs) (b'e' ∷ []) rest)
      ∙ list_begin fuel vs _ rest (append-ne-nil (pack_items vs) rest b'e')
          (items_back vs fuel rest c (omega (arith, length-append (pack_items vs) (b'e' ∷ []))))
  node_back (dict text es) (suc fuel) rest c h =
      let body = pack_sorted (pack_fields es) in
      let split : (body ++ b'e' ∷ []) ++ rest ≡ body ++ b'e' ∷ rest =
        append_assoc body (b'e' ∷ []) rest in
      ap (λ (t : Bytes). parse (suc fuel) (b'd' ∷ t)) split
      ∙ dict_begin fuel es _ rest (append-ne-nil body rest b'e') (
          fields_back es no_entries fuel rest c.1 (Below-none es)
            (omega (arith, length-append body (b'e' ∷ []))))
      ∙ ap (λ (t : Bytes). dict_node (b'd' ∷ t) es rest) (sym split)
      ∙ ap (λ (t : Bytes). ok (dict t es) rest)
          (take_text (b'd' ∷ (body ++ b'e' ∷ [])) rest ∙ sym c.0)

  items_back :
      (vs : Nodes) (fuel : ℕ) (rest : Bytes)
      → CanonicalItems vs
      → length (pack_items vs) < fuel
      → parse_items fuel (pack_items vs ++ b'e' ∷ rest) ≡ ok vs rest
  items_back vs zero rest c h = absurd (omega arith)
  items_back nil (suc fuel) rest c h = items_end fuel rest
  items_back (cons v vs) (suc fuel) rest c h =
      let both = length-append (pack v) (pack_items vs) in
      ap (parse_items (suc fuel)) (append_assoc (pack v) (pack_items vs) (b'e' ∷ rest))
      ∙ items_step fuel _ _ rest v vs (has_item-pack v _)
          (node_back v fuel _ c.0 (omega (arith, both)))
          (items_back vs fuel rest c.1 (omega (arith, both, length-pack_pos v)))

  fields_back :
      (es acc : Entries) (fuel : ℕ) (rest : Bytes)
      → CanonicalEntries es
      → Below acc es
      → length (pack_sorted (pack_fields es)) < fuel
      → parse_fields fuel acc (pack_sorted (pack_fields es) ++ b'e' ∷ rest)
        ≡ ok (behind acc es) rest
  fields_back es acc zero rest c b h = absurd (omega arith)
  fields_back no_entries acc (suc fuel) rest c b h =
      ap (parse_fields (suc fuel) acc) (sorted_nil (b'e' ∷ rest))
      ∙ fields_end fuel acc rest
      ∙ ap (λ (es : Entries). ok es rest) (sym (behind-none acc))
  fields_back (entry k v es) acc (suc fuel) rest (p, cv, ces) b h =
      let lengths = sorted_length k v es p ces in
      let next = behind acc (entry k v no_entries) in
      ap (parse_fields (suc fuel) acc) (sorted_split k v es (b'e' ∷ rest) p ces)
      ∙ fields_step fuel acc (behind acc (entry k v es)) k v _ _ _ rest (has_item-pack_str k _)
          (key_back fuel k _ (omega (arith, lengths, length-pack_pos v)))
          (node_back v fuel _ cv (omega (arith, lengths)))
          (ap (λ (fs : Entries). parse_fields fuel fs (pack_sorted (pack_fields es) ++ b'e' ∷ rest))
              (map_add-behind k v acc b)
            ∙ fields_back es next fuel rest ces (Below-next k v acc es b p)
                (omega (arith, lengths, length-pack_pos v))
            ∙ ap (λ (fs : Entries). ok fs rest) (behind_assoc acc (entry k v no_entries) es))

-- A canonical node (dictionaries in the order of their keys with their own text, integers of 64
-- bits) that is written in front of any bytes is read back, and those bytes are left.
pub parse_all-pack :
    (v : Node) (rest : Bytes) → Canonical v → parse_all (pack v ++ rest) ≡ ok v rest
unfolding parse_all
parse_all-pack v rest c =
    node_back v (2 * length (pack v ++ rest) + 1) rest c
      (omega (arith, length-append (pack v) rest))
