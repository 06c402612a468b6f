-- ===== src/Disk/BTree.antt =====
-- searchBTree of hm4/disk/disklist.cc over hm4/disk/btreeindexnode.h and include/bfslookup.h. The file
-- of nodes is a list of nodes, a node the list of its offsets, in the byte order of the machine; the
-- file of keys is its bytes. A result `none` means that the fuel ran out, or that the code read outside
-- of the file of keys.
pub mod Search
pub mod Exact
use hm.Prelude.{
  ℕ, zero, suc, ◌+◌, ◌-◌, ◌*◌, ◌/◌, ◌≤◌, ◌<◌, List, [], ◌∷◌, ◌++◌, Bool, true, false, Option, none,
  some, Ordering, length, take, drop, get_or, get_elem?, ltb, leb, ◌==◌, ◌||◌, add64, if◌then◌else◌,
}
use hm.Bytes.{Bytes, memcmp_then_size}
use hm.Pair.{Pair}
use hm.BinarySearch.{SearchResult}
use hm.Disk.Search.{search_binary}

-- NODE_LEVELS
abbrev pub node_levels : ℕ
node_levels = 7

-- VALUES
abbrev pub values : ℕ
values = 127

-- BFSLookupFactory::reorder_, `depth` levels above its target
unfoldable pub reorder : ℕ → ℕ → ℕ → List ℕ
reorder zero begin end = if leb end begin then [] else (begin + (end - begin) / 2) ∷ []
reorder (suc depth) begin end =
    let mid = begin + (end - begin) / 2 in
    let both = reorder depth begin mid ++ reorder depth (mid + 1) end in
    if leb end begin then [] else both

-- the levels from the first on
unfoldable pub levels_from : ℕ → ℕ → List ℕ
unfolding reorder
levels_from level zero = []
levels_from level (suc n) = reorder level 0 values ++ levels_from (level + 1) n

-- LL
unfoldable pub ll : ℕ → ℕ
unfolding levels_from
ll node_pos = get_or (levels_from 0 node_levels) node_pos 0

-- betoh
abbrev pub big_endian : ℕ → Bytes → ℕ
big_endian n [] = n
big_endian n (c ∷ s) = big_endian (n * 256 + c) s

-- NodeData
pub record NodeData : Type 0 where
  pub key : Bytes
  pub dataid : ℕ

-- what an access to a file is: refused, allowed, or allowed although it is outside of the file
pub data Access : Type 0 where
  refused allowed outside : Access

-- BlobGuard::safeAccessMemory; the sum of the offset and the size is that of two size_t
unfoldable pub safe_access_memory : Bytes → ℕ → ℕ → Access
safe_access_memory file offset size =
    let guarded : Access = if leb (offset + size) (length file) then allowed else outside in
    if length file == 0 || size == 0 || ltb (length file) (add64 offset size)
    then refused
    else guarded

-- what accessNodeValue_ returns, or throws, or that it reads outside of the file
pub data NodeValueResult : Type 0 where
  access_error : NodeValueResult
  read_outside : NodeValueResult
  node_value : NodeData → NodeValueResult

-- the key behind the data
unfoldable pub access_key : Bytes → ℕ → ℕ → ℕ → NodeValueResult
unfolding safe_access_memory
access_key keys dataid offset keysize = elim (safe_access_memory keys offset keysize) [
  | refused ↦ access_error
  | outside ↦ read_outside
  | allowed ↦ node_value (record { key = take keysize (drop offset keys); dataid = dataid })
]

-- accessNodeValue_
unfoldable pub access_node_value : Bytes → ℕ → NodeValueResult
unfolding safe_access_memory access_key
access_node_value keys offset =
    let keysize = big_endian 0 (take 2 (drop (offset + 8) keys)) in
    let dataid = big_endian 0 (take 8 (drop offset keys)) in
    let value = access_key keys dataid (add64 offset 10) keysize in
    elim (safe_access_memory keys offset 10) [
      | refused ↦ access_error
      | outside ↦ read_outside
      | allowed ↦ value
    ]

-- NodeResult, with the range that is left where there is no result yet
pub data NodeResult : Type 0 where
  failed : NodeResult
  result_index : ℕ → NodeResult
  node_index : ℕ → ℕ → ℕ → NodeResult

-- the child where the search goes on
abbrev pub child : ℕ → ℕ → ℕ
child pos index =
    if index == values then pos * (values + 1) + (values + 1) else pos * (values + 1) + index + 1

module _ (keys : Bytes) (ps : List Pair) (key : Bytes) where
  -- levelOrderBinarySearch_; the fuel is the number of levels
  unfoldable pub level_order_search : ℕ → List ℕ → ℕ → ℕ → ℕ → Option NodeResult
  level_order_search zero node node_pos start end = none
  level_order_search (suc left) node node_pos start end =
      elim (access_node_value keys (get_or node node_pos 0)) [
        | access_error ↦ some failed
        | read_outside ↦ none
        | node_value x ↦
            let right = level_order_search left node (2 * node_pos + 2) (x.dataid + 1) end in
            let lower = level_order_search left node (2 * node_pos + 1) start x.dataid in
            elim (memcmp_then_size x.key key) [
              | Ordering.eq ↦ some (result_index x.dataid)
              | Ordering.lt ↦
                  if ltb (2 * node_pos + 2) values
                  then right
                  else some (node_index (ll node_pos + 1) (x.dataid + 1) end)
              | Ordering.gt ↦
                  if ltb (2 * node_pos + 1) values
                  then lower
                  else some (node_index (ll node_pos) start x.dataid)
            ]
      ]

  -- what follows the search in a node: the search of the whole table where an access failed
  unfoldable pub after_node :
      (ℕ → ℕ → ℕ → Option SearchResult) → Option NodeResult → Option SearchResult
  after_node next none = none
  after_node next (some failed) = some (search_binary ps key 0 0 (length ps))
  after_node next (some (result_index i)) = some (record { found = true; it = i })
  after_node next (some (node_index i l r)) = next i l r

  -- the loop of btreeSearch_
  unfoldable pub btree_search : ℕ → List (List ℕ) → ℕ → ℕ → ℕ → Option SearchResult
  btree_search zero nodes pos start end = none
  btree_search (suc fuel) nodes pos start end = elim (get_elem? nodes pos) [
    | none ↦ some (search_binary ps key 0 start end)
    | some node ↦
        after_node (λ i l r. btree_search fuel nodes (child pos i) l r)
          (level_order_search node_levels node 0 start end)
  ]

  -- searchBTree
  unfoldable pub search_btree : List (List ℕ) → Option SearchResult
  search_btree nodes = btree_search (length nodes + 1) nodes 0 0 (length ps)
