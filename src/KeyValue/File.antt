-- ===== src/KeyValue/File.antt =====
-- What `Format` writes, `Read` reads back (keyvalue.cc).
use lftp.Prelude.{
  or_else, ℕ, zero, suc, ◌+◌, ◌-◌, ◌*◌, ◌/◌, ◌≤◌, ◌<◌, ◌≡◌, ◌≢◌, refl, ap, ◌∙◌, Bool, true, false,
  List, [], ◌∷◌, ◌++◌, Option, none, some, inl, inr, Bytes, same, same_iff, arith, Bool-cases,
  if◌then◌else◌, length, length-append, replicate,
}
use lftp.Bencode.Printer.{less}
use lftp.KeyValue.{
  Pair, Db, lookup, add, insert_pair, sort_chain, sort, max_length, line, lines, format, skip_blank,
  c_str, stop, empty_line, pair, read_item, read_lines, read,
}
use lftp.KeyValue.Lookup.{
  AreUnique, same_sym, lookup-add, NoKey-lookup, NoKey-insert_pair, NoKey-sort_chain,
  lookup-sort_chain,
}
use lftp.KeyValue.Lines.{
  AreRecords, IsLine, IsValue, add_all, c_str-IsLine, gap, read_item-line, same_text,
}

read_lines-lines :
    (fuel width : ℕ) (ps : List Pair) (db : Db)
    → AreRecords ps
    → length ps < fuel
    → read_lines fuel db (lines same_text width ps) ≡ add_all ps db
unfolding read_lines lines add_all read_item skip_blank
read_lines-lines zero width ps db r h = absurd (omega arith)
read_lines-lines (suc fuel) width [] db r h = refl
read_lines-lines (suc fuel) width (p ∷ ps) db (ne, n, l, i, r) h =
    ap
      (λ t. elim t [
        | stop ↦ db
        | empty_line rest ↦ read_lines fuel db rest
        | pair k v rest ↦ read_lines fuel (add (c_str k) (c_str v) db) rest
      ])
      (read_item-line width p.key p.value (lines same_text width ps) ne n l i)
    ∙ ap (λ k. read_lines fuel (add k (c_str p.value) db) (lines same_text width ps))
        (c_str-IsLine p.key l)
    ∙ ap (λ v. read_lines fuel (add p.key v db) (lines same_text width ps))
        (c_str-IsLine p.value (value_line p.value i))
    ∙ read_lines-lines fuel width ps (add p.key p.value db) r (omega arith)
  where
    value_line : (v : Bytes) → IsValue v → IsLine v
    value_line [] i' = absurd i'
    value_line (c ∷ v) (b, l') = l'

length-lines : (width : ℕ) (ps : List Pair) → length ps ≤ length (lines same_text width ps)
unfolding lines
length-lines width [] = omega arith
length-lines width (p ∷ ps) =
    let ih = length-lines width ps in
    let long : 1 ≤ length (line width p.key p.value) = omega (
      arith,
      length-append p.key (gap (width - length p.key) (p.value ++ b'\n' ∷ [])),
      length-append (replicate (width - length p.key) b' ') (b'\t' ∷ (p.value ++ b'\n' ∷ [])),
    ) in
    omega (arith, length-append (line width p.key p.value) (lines same_text width ps))

lookup-add_all :
    (j : Bytes) (ps : List Pair) (db : Db)
    → AreUnique ps
    → lookup j (add_all ps db).chain ≡ or_else (lookup j ps) (lookup j db.chain)
unfolding add_all lookup
lookup-add_all j [] db u = refl
lookup-add_all j (p ∷ ps) db (n, u) =
    let gone : same j p.key ≡ true → lookup j ps ≡ none =
      λ e. ap (λ a. lookup a ps) ((same_iff j p.key).0 e) ∙ NoKey-lookup p.key ps n in
    lookup-add_all j ps (add p.key p.value db) u
    ∙ ap (or_else (lookup j ps)) (lookup-add j p.key p.value db)
    ∙ go (same j p.key) (lookup j ps) gone
  where
    go :
        (b : Bool) (o : Option Bytes)
        → (b ≡ true → o ≡ none)
        → or_else o (if b then some p.value else lookup j db.chain)
          ≡ or_else (if b then some p.value else o) (lookup j db.chain)
    go true none g = refl
    go true (some v) g = absurd (no (g refl))
      where
        no : some v ≢ none
        no e = cc
    go false o g = refl

insert_pair-AreRecords :
    (p : Pair) (ps : List Pair) → AreRecords (p ∷ ps) → AreRecords (insert_pair p ps)
unfolding insert_pair
insert_pair-AreRecords p [] r = r
insert_pair-AreRecords p (q ∷ qs) (a, b, c, d, (a', b', c', d', r)) =
    elim (Bool-cases (less q.key p.key)) [
      | inl h ↦ rw (h, insert_pair) (a', b', c', d', insert_pair-AreRecords p qs (a, b, c, d, r))
      | inr h ↦ rw (h, insert_pair) (a, b, c, d, (a', b', c', d', r))
    ]

sort_chain-AreRecords : (ps : List Pair) → AreRecords ps → AreRecords (sort_chain ps)
unfolding sort_chain
sort_chain-AreRecords [] r = tt
sort_chain-AreRecords (p ∷ ps) (a, b, c, d, r) =
    insert_pair-AreRecords p (sort_chain ps) (a, b, c, d, sort_chain-AreRecords ps r)

insert_pair-AreUnique :
    (p : Pair) (ps : List Pair) → AreUnique (p ∷ ps) → AreUnique (insert_pair p ps)
unfolding insert_pair
insert_pair-AreUnique p [] u = u
insert_pair-AreUnique p (q ∷ qs) ((n, m), (k, u)) = elim (Bool-cases (less q.key p.key)) [
  | inl h ↦
      rw (h, insert_pair)
        (
          NoKey-insert_pair q.key p qs (same_sym q.key p.key ∙ n) k,
          insert_pair-AreUnique p qs (m, u),
        )
  | inr h ↦ rw (h, insert_pair) ((n, m), (k, u))
]

sort_chain-AreUnique : (ps : List Pair) → AreUnique ps → AreUnique (sort_chain ps)
unfolding sort_chain
sort_chain-AreUnique [] u = tt
sort_chain-AreUnique (p ∷ ps) (n, u) =
    insert_pair-AreUnique p (sort_chain ps) (NoKey-sort_chain p.key ps n, sort_chain-AreUnique ps u)

-- Let no key of a database stand twice, the keys be not empty and without blanks, the values not
-- empty and without a blank in front, and neither have line ends or NULs. Reading what `Format`
-- writes for it finds for each key what the database found, and for other keys what was there
-- before.
pub read-format :
    (j : Bytes) (db before : Db)
    → AreUnique db.chain
    → AreRecords db.chain
    → lookup j (read (format (λ v. v) db).0 before).chain
      ≡ or_else (lookup j db.chain) (lookup j before.chain)
unfolding read format sort
read-format j db before u r =
    let sorted = sort_chain db.chain in
    let width = max_length 0 sorted / 8 * 8 in
    let text = lines same_text width sorted in
    ap (λ d. lookup j d.chain)
      (read_lines-lines (length text + 1) width sorted before (sort_chain-AreRecords db.chain r)
        (omega (arith, length-lines width sorted)))
    ∙ lookup-add_all j sorted before (sort_chain-AreUnique db.chain u)
    ∙ ap (λ o. or_else o (lookup j before.chain)) (lookup-sort_chain j db.chain u)
