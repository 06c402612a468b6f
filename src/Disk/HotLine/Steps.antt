-- ===== src/Disk/HotLine/Steps.antt =====
-- The branches of searchHotLine of hm4/disk/disklist.cc, one by one.
use hm.Prelude.{
  ℕ, ◌+◌, ◌≤◌, ◌<◌, List, [], ◌∷◌, ◌⊎◌, true, false, Ordering, some, none, length, get_elem?, leb,
  if◌then◌else◌, ◌≡◌, refl, arith, inl, inr,
}
use hm.Bytes.{Bytes, memcmp_then_size, equals_bytes}
use hm.Pair.{Pair}
use hm.Pair.HPair.{hkey_of, create_hash, IsAsciiKey}
use hm.BinarySearch.{SearchResult, binary_search}
use hm.VectorList.Sorted.{IsSorted}
use hm.Disk.Search.{search_binary}
use hm.Disk.Near.{AllAscii}
use hm.Disk.HotLine.{LineNode, node_cmp, equals_behind, list_pos_last, search_part, search_hot_line}
use hm.Disk.HotLine.Nodes.{leading, before, up_to, Climbs, Climbs-Above, next_pos}

pub before-up_to : (h : ℕ) (ps : List Pair) → before h ps ≤ up_to h ps
unfolding leading
before-up_to h [] = omega arith
before-up_to h (p ∷ ps) = ground (arith, before-up_to h ps)

module _ (ps : List Pair) (ns : List LineNode) (key : Bytes) (it pos : ℕ) where
  pub search_part_short :
      length key < 8 → search_part ps ns key it pos ≡ record { found = true; it = pos }
  unfolding search_part
  search_part_short l = ground (arith, l)

  pub search_part_eight :
      (p : Pair)
      → length key ≡ 8
      → get_elem? ps pos ≡ some p
      → search_part ps ns key it pos ≡ record { found = equals_behind p key; it = pos }
  unfolding search_part
  search_part_eight p l e = ground (arith, l, e)

  pub search_part_long :
      8 < length key
      → search_part ps ns key it pos ≡ search_binary ps key 8 pos (list_pos_last ps ns it)
  unfolding search_part
  search_part_long l = ground (arith, l)

pub last_next :
    (ps : List Pair) (ns : List LineNode) (it : ℕ)
    → list_pos_last ps ns it ≡ next_pos ns (it + 1) (length ps)
unfolding list_pos_last
last_next ps ns it = refl

module _ (ps : List Pair) (key : Bytes) (x : LineNode) (xs : List LineNode) (r : SearchResult) where
  pub hot_line_end :
      binary_search (length (x ∷ xs)) (node_cmp (x ∷ xs) (hkey_of key)) ≡ r
      → get_elem? (x ∷ xs) r.it ≡ none
      → search_hot_line ps (x ∷ xs) key ≡ record { found = false; it = length ps }
  unfolding search_hot_line
  hot_line_end b a = rw (search_hot_line, b, a) refl

  pub hot_line_node :
      (node : LineNode)
      → binary_search (length (x ∷ xs)) (node_cmp (x ∷ xs) (hkey_of key)) ≡ r
      → get_elem? (x ∷ xs) r.it ≡ some node
      → node.pos < length ps
      → search_hot_line ps (x ∷ xs) key ≡ (
          if r.found
          then search_part ps (x ∷ xs) key r.it node.pos
          else record { found = false; it = node.pos })
  unfolding search_hot_line
  hot_line_node node b a l =
      let c : leb (length ps) node.pos ≡ false = ground (arith, l) in
      rw (search_hot_line, b, a, c, b) refl

pub hkey_positive : (key : Bytes) → IsAsciiKey key → 0 < hkey_of key
unfolding create_hash
hkey_positive [] k = absurd (ground (arith, k.0))
hkey_positive (c ∷ cs) k = omega (arith, k.1.0.0)

pub Climbs-all : (ps : List Pair) → AllAscii ps → IsSorted ps → Climbs 0 ps
Climbs-all [] a s = tt
Climbs-all (p ∷ ps) a s = (omega arith, Climbs-Above p.key ps a.0.1 s.0 s.1 a.1)

pub empty_or_not :
    (a : Bytes)
    → ((equals_bytes a [] ≡ true) × (memcmp_then_size a [] ≡ Ordering.eq))
      ⊎ ((equals_bytes a [] ≡ false) × (memcmp_then_size a [] ≡ Ordering.gt))
unfolding equals_bytes
empty_or_not [] = inl (refl, refl)
empty_or_not (x ∷ a) = inr (ground arith)
