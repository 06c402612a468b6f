-- ===== src/Disk/HashIndex/Lost.antt =====
-- Keys that the hash index of hm4/disk/disklist.cc loses: a node with the hash 0 counts as a free cell.
use hm.Prelude.{
  ℕ, zero, suc, ◌+◌, ◌<◌, List, false, length, ◌==◌, if◌then◌else◌, ◌≡◌, ◌∙◌, ap, arith,
}
use hm.Bytes.{Bytes}
use hm.Pair.{Pair}
use hm.MurmurHash.{murmur_hash64a}
use hm.BinarySearch.{SearchResult}
use hm.Disk.HashIndex.Exact.{search-cells}
use hm.Disk.HashIndex.{HashNode, node_at, open_addresses, probe, search_cells, search_hash_index}

absent_result : List Pair → SearchResult
absent_result list = record { found = false; it = length list }

probe-zero :
    (list : List Pair) (node : HashNode) (key : Bytes) (fallback rest : SearchResult)
    → probe list node 0 key fallback rest ≡ (if node.hash == 0 then absent_result list else rest)
unfolding probe absent_result
probe-zero list node key fallback rest = ground arith

cells-zero :
    (left i k : ℕ) (list : List Pair) (nodes : List HashNode) (key : Bytes)
    (fallback : SearchResult)
    → k < left
    → (node_at nodes 0 (i + k)).hash ≡ 0
    → search_cells left i list nodes 0 key fallback ≡ absent_result list
unfolding search_cells
cells-zero zero i k list nodes key fallback h e = absurd (omega (arith, h))
cells-zero (suc left) i zero list nodes key fallback h e =
    let here : (node_at nodes 0 i).hash ≡ 0 =
      ap (λ n. (node_at nodes 0 n).hash) (omega arith) ∙ e in
    probe-zero list (node_at nodes 0 i) key fallback
      (search_cells left (i + 1) list nodes 0 key fallback)
    ∙ ground (arith, here)
cells-zero (suc left) i (suc k) list nodes key fallback h e =
    let later : (node_at nodes 0 ((i + 1) + k)).hash ≡ 0 =
      ap (λ n. (node_at nodes 0 n).hash) (omega arith) ∙ e in
    probe-zero list (node_at nodes 0 i) key fallback
      (search_cells left (i + 1) list nodes 0 key fallback)
    ∙ ground (arith, cells-zero left (i + 1) k list nodes key fallback (omega (arith, h)) later)

-- A key whose hash is 0 is not found through a hash index with a free cell among the sixteen that
-- are tried for it, whatever the table holds and whatever the search to fall back to would find.
pub search_hash_index-zero :
    (list : List Pair) (nodes : List HashNode) (key : Bytes) (fallback : SearchResult) (k : ℕ)
    → murmur_hash64a key ≡ 0
    → 0 < length nodes
    → k < open_addresses
    → (node_at nodes 0 k).hash ≡ 0
    → search_hash_index list nodes key fallback ≡ record { found = false; it = length list }
unfolding absent_result
search_hash_index-zero list nodes key fallback k z n h e =
    let at : (node_at nodes 0 (0 + k)).hash ≡ 0 =
      ap (λ n. (node_at nodes 0 n).hash) (omega arith) ∙ e in
    search-cells list nodes key fallback n
    ∙ ap (λ hc. search_cells open_addresses 0 list nodes hc key fallback) z
    ∙ cells-zero open_addresses 0 k list nodes key fallback h at
