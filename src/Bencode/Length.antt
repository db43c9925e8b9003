-- ===== src/Bencode/Length.antt =====
-- `ComputeLength` and `Pack` agree (Bencode.cc).
use lftp.Prelude.{
  ℕ, zero, suc, ◌+◌, ◌/◌, ◌%◌, ◌<◌, ◌≡◌, refl, List, [], ◌∷◌, ◌++◌, Bytes, arith, length,
  length-append, if_both,
}
use lftp.Bencode.Node.{Node, Nodes, Entries, str, int, list, dict, nil, cons, no_entries, entry}
use lftp.Bencode.Decimal.{digits, decimal, decimal_ℤ}
use lftp.Bencode.Printer.{
  less, Field, insert_field, pack_str, pack_sorted, pack, pack_items, pack_fields, digit_count,
  str_length, compute_length, items_length, fields_length,
}

digit_count-length : (fuel n : ℕ) → n < fuel → digit_count fuel n ≡ length (digits fuel n)
unfolding digit_count digits
digit_count-length zero n h = absurd (omega arith)
digit_count-length (suc fuel) n h = ground (
  arith,
  digit_count-length fuel (n / 10),
  length-append (digits fuel (n / 10)) ((b'0' + n % 10) ∷ []),
)

str_length-pack_str : (s : Bytes) → str_length s ≡ length (pack_str s)
unfolding decimal
str_length-pack_str s = omega (
  arith,
  digit_count-length (suc (length s)) (length s) (omega arith),
  length-append (digits (suc (length s)) (length s)) (b':' ∷ s),
)

field_length : Field → ℕ
field_length f = length (pack_str f.0) + length f.1

length-pack_sorted_cons :
    (f : Field) (fs : List Field)
    → length (pack_sorted (f ∷ fs)) ≡ field_length f + length (pack_sorted fs)
unfolding pack_sorted field_length
length-pack_sorted_cons f fs = omega (
  arith,
  length-append (pack_str f.0) (f.1 ++ pack_sorted fs),
  length-append f.1 (pack_sorted fs),
)

-- Sorting does not change the length.
length-insert_field :
    (f : Field) (fs : List Field)
    → length (pack_sorted (insert_field f fs)) ≡ field_length f + length (pack_sorted fs)
unfolding insert_field
length-insert_field f [] = length-pack_sorted_cons f []
length-insert_field f (g ∷ gs) =
    if_both
      (λ (l : List Field). length (pack_sorted l) ≡ field_length f + length (pack_sorted (g ∷ gs)))
      (less g.0 f.0) (g ∷ insert_field f gs) (f ∷ g ∷ gs)
      (omega (
        arith,
        length-pack_sorted_cons g (insert_field f gs),
        length-insert_field f gs,
        length-pack_sorted_cons g gs,
      ))
      (length-pack_sorted_cons f (g ∷ gs))

mutual
  unfolding compute_length pack field_length pack_sorted

  node_length : (v : Node) → compute_length v ≡ length (pack v)
  node_length (str s) = str_length-pack_str s
  node_length (int n) = omega (arith, length-append (decimal_ℤ n) (b'e' ∷ []))
  node_length (list vs) = omega (arith, nodes_length vs, length-append (pack_items vs) (b'e' ∷ []))
  node_length (dict s es) =
      omega (arith, entries_length es, length-append (pack_sorted (pack_fields es)) (b'e' ∷ []))

  nodes_length : (vs : Nodes) → items_length vs ≡ length (pack_items vs)
  nodes_length nil = refl
  nodes_length (cons v vs) =
      omega (arith, node_length v, nodes_length vs, length-append (pack v) (pack_items vs))

  entries_length : (es : Entries) → fields_length es ≡ length (pack_sorted (pack_fields es))
  entries_length no_entries = refl
  entries_length (entry k v es) = omega (
    arith,
    node_length v,
    entries_length es,
    str_length-pack_str k,
    length-insert_field (k, pack v) (pack_fields es),
  )

-- The length computed ahead is the length of what is written, for every node.
pub compute_length-pack : (v : Node) → compute_length v ≡ length (pack v)
compute_length-pack v = node_length v
