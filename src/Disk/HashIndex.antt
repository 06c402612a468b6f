-- ===== src/Disk/HashIndex.antt =====
-- The hash index of a table: hm4/disk/hashindexnode.h, the builders of hm4/disk/hashindexbuilder.h,
-- hashindexbuilder.misc.h, hashindexbuilder.standard.h and hashindexbuilder.multipass.h, and
-- searchHashIndex of hm4/disk/disklist.cc. Numbers that the file has in big endian are their values.
pub mod Cells
pub mod Builders
pub mod Exact
pub mod Lost
use hm.Prelude.{
  ℕ, zero, suc, ◌+◌, ◌-◌, ◌*◌, ◌/◌, ◌%◌, ◌^◌, List, [], ◌∷◌, ◌++◌, true, false, Ordering, none,
  some, length, get_or, get_elem?, set, replicate, leb, ◌==◌, if◌then◌else◌,
}
use hm.Bytes.{Bytes}
use hm.MurmurHash.{murmur_hash64a}
use hm.Pair.{Pair, cmp}
use hm.BinarySearch.{SearchResult}

-- HASHTABLE_OPEN_ADDRESSES
abbrev pub open_addresses : ℕ
open_addresses = 16

-- Node, and NodeHelper; a node without a hash is a free cell
pub record HashNode : Type 0 where
  pub hash : ℕ
  pub pos : ℕ

abbrev pub free : HashNode
free = record { hash = 0; pos = 0 }

-- the cell that is tried after `i` others
abbrev pub cell : ℕ → ℕ → ℕ → ℕ
cell nodes_count hc i = ((hc + i) % 2 ^ 64) % nodes_count

abbrev pub node_at : List HashNode → ℕ → ℕ → HashNode
node_at nodes hc i = get_or nodes (cell (length nodes) hc i) free

-- the loop of insert__ from the `i`-th cell on
unfoldable pub insert_from : ℕ → ℕ → HashNode → List HashNode → List HashNode
insert_from zero i node nodes = nodes
insert_from (suc left) i node nodes =
    let rest = insert_from left (i + 1) node nodes in
    if (node_at nodes node.hash i).hash == 0
    then set nodes (cell (length nodes) node.hash i) node
    else rest

-- insert__: a node that finds no free cell is left out
unfoldable pub insert : HashNode → List HashNode → List HashNode
unfolding insert_from
insert node nodes = insert_from open_addresses 0 node nodes

-- `pos_++` of a number of `width` bits
abbrev pub next_pos : ℕ → ℕ → ℕ
next_pos width pos = (pos + 1) % 2 ^ width

abbrev pub node_of : Pair → ℕ → HashNode
node_of pair pos = record { hash = murmur_hash64a pair.key; pos = pos }

-- HashIndexStandardBuilder, from a state on to the end of the table
unfoldable pub standard_from : ℕ → ℕ → List HashNode → List Pair → List HashNode
unfolding insert
standard_from width pos nodes [] = nodes
standard_from width pos nodes (pair ∷ pairs) =
    standard_from width (next_pos width pos) (insert (node_of pair pos) nodes) pairs

-- the insertions of `flush`
unfoldable pub insert_all : List HashNode → List HashNode → List HashNode
unfolding insert
insert_all [] nodes = nodes
insert_all (node ∷ vector) nodes = insert_all vector (insert node nodes)

-- selectImplementation__: the width of positions
abbrev pub select_width : ℕ → ℕ
select_width nodes_count = if leb nodes_count (2 ^ 32 - 1) then 32 else 64

-- sizeof(NodeHelper<T>)
abbrev pub helper_size : ℕ → ℕ
helper_size width = 8 + width / 8

module _ (sort : ℕ → List HashNode → List HashNode) where
  -- flush; `sort` is std::sort by the first cell of a node
  unfoldable pub flush : List HashNode → List HashNode → List HashNode
  unfolding insert_all
  flush vector nodes = insert_all (sort (length nodes) vector) nodes

  -- ~HashIndexMultiPassBuilder
  unfoldable pub finish : List HashNode → List HashNode → List HashNode
  unfolding flush
  finish [] nodes = nodes
  finish (node ∷ vector) nodes = flush (node ∷ vector) nodes

  -- HashIndexMultiPassBuilder, from a state on to its end; its vector holds `capacity` nodes, and one that
  -- holds none throws at a pair, which leaves the file as it is
  unfoldable pub multi_pass_from :
      ℕ → ℕ → ℕ → List HashNode → List HashNode → List Pair → List HashNode
  unfolding finish
  multi_pass_from width capacity pos vector nodes [] = finish vector nodes
  multi_pass_from width capacity pos vector nodes (pair ∷ pairs) =
      let vector' = vector ++ (node_of pair pos ∷ []) in
      let full =
        multi_pass_from width capacity (next_pos width pos) [] (flush vector' nodes) pairs in
      let more = multi_pass_from width capacity (next_pos width pos) vector' nodes pairs in
      let added = if length vector' == capacity then full else more in
      if capacity == 0 then nodes else added

  -- HashIndexBuilder over a whole table, with a buffer of so many bytes
  unfoldable pub build_index : ℕ → ℕ → List Pair → List HashNode
  unfolding standard_from multi_pass_from
  build_index nodes_count buffer_size pairs =
      let width = select_width nodes_count in
      let nodes = replicate nodes_count free in
      if leb (nodes_count * helper_size width) buffer_size
      then standard_from width 0 nodes pairs
      else multi_pass_from width (buffer_size / helper_size width) 0 [] nodes pairs

-- one round of the loop of searchHashIndex at a node, `rest` being the rounds behind it
unfoldable pub probe : List Pair → HashNode → ℕ → Bytes → SearchResult → SearchResult → SearchResult
probe list node hc key fallback rest =
    if node.hash == 0
    then record { found = false; it = length list }
    else if node.hash == hc
    then elim (get_elem? list node.pos) [
      | none ↦ fallback
      | some p ↦ elim (cmp p key) [
        | Ordering.eq ↦ record { found = true; it = node.pos }
        | _ ↦ rest
      ]
    ]
    else rest

-- the loop from the `i`-th cell on
unfoldable pub search_cells :
    ℕ → ℕ → List Pair → List HashNode → ℕ → Bytes → SearchResult → SearchResult
unfolding probe
search_cells zero i list nodes hc key fallback = fallback
search_cells (suc left) i list nodes hc key fallback =
    probe list (node_at nodes hc i) hc key fallback
      (search_cells left (i + 1) list nodes hc key fallback)

-- searchHashIndex
unfoldable pub search_hash_index : List Pair → List HashNode → Bytes → SearchResult → SearchResult
unfolding search_cells
search_hash_index list [] key fallback = fallback
search_hash_index list (first ∷ rest) key fallback =
    search_cells open_addresses 0 list (first ∷ rest) (murmur_hash64a key) key fallback
