-- ===== src/Bencode/Canonical.antt =====
-- The nodes that the parser can return (Bencode.cc): entries in the order of their keys, numbers
-- of 64 bits, and with each dictionary its own text.
use lftp.Prelude.{◌<◌, ◌^◌, ◌≡◌, refl, ap, true, ◌∷◌, ◌++◌, Bytes, same_iff, arith}
use lftp.Prelude.Int.{ℤ, pos, negsuc}
use lftp.Bencode.Node.{
  Node, Nodes, Entries, str, int, list, dict, nil, cons, no_entries, entry, map_add,
}
pub use lftp.Prelude.Order.{less_irrefl, less_asym, less_trans}
use lftp.Bencode.Printer.{less, insert_field, pack_str, pack_sorted, pack, pack_fields}

abbrev pub IsInt64 : ℤ → Type 0
IsInt64 (pos n) = n < 2 ^ 63
IsInt64 (negsuc n) = n < 2 ^ 63

abbrev pub Precedes : Bytes → Entries → Type 0
Precedes k no_entries = Unit {0}
Precedes k (entry j v es) = less k j ≡ true

unfoldable mutual
  pub Canonical : Node → Type 0
  Canonical (str s) = Unit {0}
  Canonical (int z) = IsInt64 z
  Canonical (list vs) = CanonicalItems vs
  Canonical (dict text es) = (text ≡ pack (dict text es)) × CanonicalEntries es

  pub CanonicalItems : Nodes → Type 0
  CanonicalItems nil = Unit {0}
  CanonicalItems (cons v vs) = Canonical v × CanonicalItems vs

  pub CanonicalEntries : Entries → Type 0
  CanonicalEntries no_entries = Unit {0}
  CanonicalEntries (entry k v es) = Precedes k es × Canonical v × CanonicalEntries es

-- An entry before the others is printed before them.
insert_field_first :
    (k : Bytes) (v : Node) (es : Entries)
    → Precedes k es
    → CanonicalEntries es
    → insert_field (k, pack v) (pack_fields es) ≡ (k, pack v) ∷ pack_fields es
unfolding insert_field pack Canonical
insert_field_first k v no_entries p c = refl
insert_field_first k v (entry j w es) p c =
    rw (insert_field_first j w es c.0 c.2) (ground (arith, less_asym k j))

pub pack_sorted-entry :
    (k : Bytes) (v : Node) (es : Entries)
    → Precedes k es
    → CanonicalEntries es
    → pack_sorted (pack_fields (entry k v es))
      ≡ pack_str k ++ (pack v ++ pack_sorted (pack_fields es))
unfolding pack pack_sorted
pack_sorted-entry k v es p c = ap pack_sorted (insert_field_first k v es p c)

-- Entries behind entries.
abbrev pub behind : Entries → Entries → Entries
behind no_entries fs = fs
behind (entry k v es) fs = entry k v (behind es fs)

abbrev pub AllBelow : Bytes → Entries → Type 0
AllBelow k no_entries = Unit {0}
AllBelow k (entry j v es) = (less j k ≡ true) × AllBelow k es

pub map_add-behind :
    (k : Bytes) (v : Node) (es : Entries)
    → AllBelow k es
    → map_add k v es ≡ behind es (entry k v no_entries)
unfolding map_add
map_add-behind k v no_entries b = refl
map_add-behind k v (entry j w es) b =
    ground (arith, map_add-behind k v es b.1, same_iff j k, less_irrefl k)

pub behind_assoc : (a b c : Entries) → behind (behind a b) c ≡ behind a (behind b c)
behind_assoc no_entries b c = refl
behind_assoc (entry k v es) b c = ap (entry k v) (behind_assoc es b c)

pub behind-none : (es : Entries) → behind es no_entries ≡ es
behind-none no_entries = refl
behind-none (entry k v es) = ap (entry k v) (behind-none es)

AllBelow-trans : (k j : Bytes) (es : Entries) → less k j ≡ true → AllBelow k es → AllBelow j es
AllBelow-trans k j no_entries h b = tt
AllBelow-trans k j (entry i v es) h b = (less_trans i k j b.0 h, AllBelow-trans k j es h b.1)

AllBelow-behind :
    (j k : Bytes) (v : Node) (es : Entries)
    → less k j ≡ true
    → AllBelow j es
    → AllBelow j (behind es (entry k v no_entries))
AllBelow-behind j k v no_entries h b = (h, tt)
AllBelow-behind j k v (entry i w es) h b = (b.0, AllBelow-behind j k v es h b.1)

-- The entries read so far and the next one stand before all that follow.
pub AllBelow-next :
    (k j : Bytes) (v : Node) (es : Entries)
    → less k j ≡ true
    → AllBelow k es
    → AllBelow j (behind es (entry k v no_entries))
AllBelow-next k j v es h b = AllBelow-behind j k v es h (AllBelow-trans k j es h b)
