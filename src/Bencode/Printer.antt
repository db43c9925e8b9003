-- ===== src/Bencode/Printer.antt =====
-- `BeNode::Pack`, `PackDict` and `ComputeLength` (Bencode.cc).
use lftp.Prelude.{ℕ, zero, suc, ◌+◌, ◌/◌, List, [], ◌∷◌, ◌++◌, Bytes, leb, if◌then◌else◌, length}
use lftp.Bencode.Node.{Node, Nodes, Entries, str, int, list, dict, nil, cons, no_entries, entry}
use lftp.Bencode.Decimal.{decimal, decimal_ℤ}
unfoldable pub use lftp.Prelude.Order.{less}

-- A key with the packed text of its value.
abbrev pub Field : Type 0
Field = Bytes × Bytes

-- The sort of `PackDict`. No key stands twice, so every sort gives this list.
unfoldable pub insert_field : Field → List Field → List Field
unfolding less
insert_field f [] = f ∷ []
insert_field f (g ∷ gs) = if less g.0 f.0 then g ∷ insert_field f gs else f ∷ g ∷ gs

abbrev pub pack_str : Bytes → Bytes
pack_str s = decimal (length s) ++ b':' ∷ s

unfoldable pub pack_sorted : List Field → Bytes
pack_sorted [] = []
pack_sorted (f ∷ fs) = pack_str f.0 ++ (f.1 ++ pack_sorted fs)

unfoldable mutual
  pub pack : Node → Bytes
  pack (str s) = pack_str s
  pack (int n) = b'i' ∷ (decimal_ℤ n ++ b'e' ∷ [])
  pack (list vs) = b'l' ∷ (pack_items vs ++ b'e' ∷ [])
  pack (dict s es) = b'd' ∷ (pack_sorted (pack_fields es) ++ b'e' ∷ [])

  pub pack_items : Nodes → Bytes
  pack_items nil = []
  pack_items (cons v vs) = pack v ++ pack_items vs

  -- The keys in order, each with what `lookup` finds packed behind it.
  pub pack_fields : Entries → List Field
  pack_fields no_entries = []
  pack_fields (entry k v es) = insert_field (k, pack v) (pack_fields es)

-- `while(i>=10) { len++; i/=10; }` and the last digit. Fuel above `i` is enough.
unfoldable pub digit_count : ℕ → ℕ → ℕ
digit_count zero i = 1
digit_count (suc fuel) i = let rest = digit_count fuel (i / 10) in if leb 10 i then rest + 1 else 1

abbrev pub str_length : Bytes → ℕ
str_length s = 1 + length s + digit_count (suc (length s)) (length s)

unfoldable mutual
  pub compute_length : Node → ℕ
  compute_length (str s) = str_length s
  compute_length (int n) = 1 + length (decimal_ℤ n) + 1
  compute_length (list vs) = 1 + items_length vs + 1
  compute_length (dict s es) = 1 + fields_length es + 1

  pub items_length : Nodes → ℕ
  items_length nil = 0
  items_length (cons v vs) = compute_length v + items_length vs

  pub fields_length : Entries → ℕ
  fields_length no_entries = 0
  fields_length (entry k v es) = str_length k + compute_length v + fields_length es
