-- ===== src/Bytes.antt =====
-- Byte strings (std::string_view) and their comparison: include/mystring.h.
pub mod Order
use hm.Prelude.{
  ℕ, ◌+◌, ◌-◌, ◌≤◌, List, [], ◌∷◌, Bool, true, false, Ordering, compare, length, ltb, leb, ◌==◌,
  ◌&&◌, if◌then◌else◌, take,
}

-- A byte is its unsigned value.
abbrev pub Bytes : Type 0
Bytes = List ℕ

-- The place of a `char` among the 256 values of a signed char: -128 has place 0.
abbrev pub char_rank : ℕ → ℕ
char_rank c = if ltb c 128 then c + 128 else if ltb c 256 then c - 128 else c

-- memcmp over the first `min(size1, size2)` bytes; it reads them as unsigned char
abbrev pub memcmp : Bytes → Bytes → Ordering
memcmp [] bs = Ordering.eq
memcmp (a ∷ as_) [] = Ordering.eq
memcmp (a ∷ as_) (b ∷ bs) = elim (compare a b) [
  | Ordering.lt ↦ Ordering.lt
  | Ordering.eq ↦ memcmp as_ bs
  | Ordering.gt ↦ Ordering.gt
]

-- the sign of memcmp, or of the difference of the sizes where memcmp finds none
abbrev pub memcmp_then_size : Bytes → Bytes → Ordering
memcmp_then_size s1 s2 = elim (memcmp s1 s2) [
  | Ordering.lt ↦ Ordering.lt
  | Ordering.eq ↦ compare (length s1) (length s2)
  | Ordering.gt ↦ Ordering.gt
]

-- `compare`: the first characters as signed `char`s if they differ, then memcmp, then the sizes.
-- The code uses the sign of the result only.
unfoldable pub compare_bytes : Bytes → Bytes → Ordering
compare_bytes (a ∷ as_) (b ∷ bs) =
    if a == b then memcmp_then_size (a ∷ as_) (b ∷ bs) else compare (char_rank a) (char_rank b)
compare_bytes s1 s2 = memcmp_then_size s1 s2

-- `equals`
unfoldable pub equals_bytes : Bytes → Bytes → Bool
equals_bytes s1 s2 =
    length s1 == length s2 && elim (memcmp s1 s2) [ Ordering.eq ↦ true | _ ↦ false ]

-- `same_prefix`
unfoldable pub same_prefix : Bytes → Bytes → Bool
unfolding equals_bytes
same_prefix prefix s =
    leb (length prefix) (length s) && equals_bytes prefix (take (length prefix) s)
