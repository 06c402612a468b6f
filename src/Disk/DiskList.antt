-- ===== src/Disk/DiskList.antt =====
-- hm4/disk/disklist.h and disklist.cc: a table with the index files that were found beside it, and the
-- search that it chooses for a key. A result `none` is one of the search by the tree that is none:
-- that it read outside of its file of keys.
pub mod Exact
use hm.Prelude.{
  ℕ, List, [], ◌∷◌, Bool, true, false, Option, none, some, length, get_elem?, ltb, ◌==◌, ◌&&◌,
  if◌then◌else◌,
}
use hm.Bytes.{Bytes}
use hm.Pair.{Pair}
use hm.BinarySearch.{SearchResult}
use hm.Disk.FileBuilder.{DiskTable}
use hm.Disk.Search.{search_binary}
use hm.Disk.HotLine.{LineNode, search_hot_line}
use hm.Disk.BTree.{search_btree}
use hm.Disk.HashIndex.{HashNode, search_hash_index}

pub data SearchMode : Type 0 where
  binary hotline hash_index btree : SearchMode

pub data FindMode : Type 0 where
  exact prefix hash_fallback : FindMode

-- what mTree_ and mKeys_ have
pub record TreeFiles : Type 0 where
  pub nodes : List (List ℕ)
  pub keys : Bytes

pub record DiskList : Type 0 where
  pub table : DiskTable
  pub line : Option (List LineNode)
  pub hash : Option (List HashNode)
  -- mTree_ and mKeys_, where both are open
  pub tree : Option TreeFiles
  pub search_mode_t : SearchMode
  pub search_mode_f : SearchMode

-- calcSearchMode_, of whether the line, the hash and the tree files are open
unfoldable pub calc_search_mode : Bool → Bool → Bool → SearchMode × SearchMode
calc_search_mode false false false = (binary, binary)
calc_search_mode true false false = (hotline, hotline)
calc_search_mode false true false = (hash_index, binary)
calc_search_mode true true false = (hash_index, hotline)
calc_search_mode line false true = (btree, btree)
calc_search_mode line true true = (hash_index, btree)

abbrev pub is_open {ℓ} : {A : Type ℓ} → Option A → Bool
is_open none = false
is_open (some a) = true

-- of openNormal_: a line without nodes is closed again
unfoldable pub open_line : Option (List LineNode) → Option (List LineNode)
open_line none = none
open_line (some []) = none
open_line (some (node ∷ nodes)) = some (node ∷ nodes)

-- of openNormal_: so is a hash index with fewer than 64 cells
unfoldable pub open_hash : Option (List HashNode) → Option (List HashNode)
open_hash none = none
open_hash (some nodes) = if ltb (length nodes) 64 then none else some nodes

-- openNormal_ and calcSearchMode_, where the data and index files are sound
unfoldable pub open_normal :
    DiskTable → Option (List LineNode) → Option (List HashNode) → Option TreeFiles → DiskList
unfolding calc_search_mode open_line open_hash
open_normal table line_file hash_file tree =
    let line = open_line line_file in
    let hash = open_hash hash_file in
    let (t, f) = calc_search_mode (is_open line) (is_open hash) (is_open tree) in
    record {
      table = table;
      line = line;
      hash = hash;
      tree = tree;
      search_mode_t = t;
      search_mode_f = f;
    }

-- what a file that is not open has
abbrev pub nodes_in {ℓ} : {A : Type ℓ} → Option (List A) → List A
nodes_in none = []
nodes_in (some nodes) = nodes

-- searchBTree in the files that are open
unfoldable pub search_tree : Option TreeFiles → List Pair → Bytes → Option SearchResult
unfolding search_btree
search_tree none ps key = none
search_tree (some files) ps key = search_btree files.keys ps key files.nodes

-- ra_find_ in the modes that do not use the hash index
unfoldable pub find_by : SearchMode → DiskList → Bytes → Option SearchResult
unfolding search_binary search_hot_line search_tree
find_by hotline d key = some (search_hot_line d.table.pairs (nodes_in d.line) key)
find_by btree d key = search_tree d.tree d.table.pairs key
find_by mode d key = some (search_binary d.table.pairs key 0 0 (length d.table.pairs))

-- searchHashIndex with the search that it falls back to, which is run before
unfoldable pub find_hash : DiskList → Bytes → Option SearchResult → Option SearchResult
unfolding search_hash_index
find_hash d key none = none
find_hash d key (some fallback) =
    some (search_hash_index d.table.pairs (nodes_in d.hash) key fallback)

-- ra_find_
unfoldable pub ra_find : FindMode → DiskList → Bytes → Option SearchResult
unfolding find_by find_hash
ra_find prefix d key = find_by d.search_mode_f d key
ra_find hash_fallback d key = find_by d.search_mode_f d key
ra_find exact d key =
    let fallback = find_by d.search_mode_f d key in
    elim d.search_mode_t [
      | hash_index ↦ find_hash d key fallback
      | binary ↦ find_by binary d key
      | hotline ↦ find_by hotline d key
      | btree ↦ find_by btree d key
    ]

-- the pair at what was found
unfoldable pub pair_at : List Pair → Option SearchResult → Option (Option Pair)
pair_at ps none = none
pair_at ps (some r) = some (if r.found then get_elem? ps r.it else none)

-- getPair___
unfoldable pub get_pair : DiskList → Bytes → Option (Option Pair)
unfolding ra_find pair_at
get_pair d key = pair_at d.table.pairs (ra_find exact d key)
