-- ===== src/Disk/HotLine.antt =====
-- The hot line of a table: FileLineBuilder of hm4/disk/filebuilder.cc writes it, and searchHotLine of
-- hm4/disk/disklist.cc searches the table through it. Numbers that the file has in big endian are
-- their values.
pub mod Nodes
pub mod Ascent
pub mod Parts
pub mod Long
pub mod Steps
pub mod Exact
use hm.Prelude.{
  ℕ, ◌+◌, ◌<◌, List, [], ◌∷◌, Bool, true, false, Ordering, Option, none, some, length, get_elem?,
  drop, ltb, leb, ◌==◌, if◌then◌else◌,
}
use hm.Bytes.{Bytes, equals_bytes}
use hm.Pair.{Pair}
use hm.Pair.HPair.{hkey_of, hash_compare}
use hm.BinarySearch.{SearchResult, binary_search}
use hm.Disk.Search.{search_binary}

-- HotLineNode
pub record LineNode : Type 0 where
  pub key : ℕ
  pub pos : ℕ

-- FileLineBuilder from a state on: the number that was stored last, and the position
unfoldable pub line_from : ℕ → ℕ → List Pair → List LineNode
line_from hkey_ pos [] = []
line_from hkey_ pos (pair ∷ pairs) =
    let hkey = hkey_of pair.key in
    let same = line_from hkey_ (pos + 1) pairs in
    let other = line_from hkey (pos + 1) pairs in
    if hkey_ == hkey then same else (record { key = hkey; pos = pos } ∷ other)

-- the whole hot line
unfoldable pub build_line : List Pair → List LineNode
unfolding line_from
build_line pairs = line_from 0 0 pairs

-- the comparison of a node with the number looked for
unfoldable pub node_cmp : List LineNode → ℕ → ℕ → Ordering
unfolding hash_compare
node_cmp nodes hkey i = elim (get_elem? nodes i) [
  | none ↦ Ordering.gt
  | some node ↦ (hash_compare node.key hkey).1
]

-- Pair::equalsX<8>; both keys have eight bytes at least
unfoldable pub equals_behind : Pair → Bytes → Bool
unfolding equals_bytes
equals_behind p key = equals_bytes (drop 8 p.key) (drop 8 key)

-- where the part behind the node at `it` ends
unfoldable pub list_pos_last : List Pair → List LineNode → ℕ → ℕ
list_pos_last list nodes it = elim (get_elem? nodes (it + 1)) [
  | none ↦ length list
  | some node ↦ node.pos
]

-- searchHotLine where the node was found
unfoldable pub search_part : List Pair → List LineNode → Bytes → ℕ → ℕ → SearchResult
unfolding equals_behind list_pos_last search_binary
search_part list nodes key it list_pos =
    if ltb (length key) 8
    then record { found = true; it = list_pos }
    else if length key == 8
    then record {
      found = elim (get_elem? list list_pos) [ none ↦ false | some p ↦ equals_behind p key ];
      it = list_pos;
    }
    else search_binary list key 8 list_pos (list_pos_last list nodes it)

-- searchHotLine
unfoldable pub search_hot_line : List Pair → List LineNode → Bytes → SearchResult
unfolding search_part node_cmp search_binary
search_hot_line list [] key = search_binary list key 0 0 (length list)
search_hot_line list (first ∷ rest) key =
    let nodes = first ∷ rest in
    let r = binary_search (length nodes) (node_cmp nodes (hkey_of key)) in
    elim (get_elem? nodes r.it) [
      | none ↦ record { found = false; it = length list }
      | some node ↦
          if leb (length list) node.pos
          then search_binary list key 0 0 (length list)
          else if r.found
          then search_part list nodes key r.it node.pos
          else record { found = false; it = node.pos }
    ]
