-- ===== src/Tests/Indexes.antt =====
-- The hash index of a table, and a table with all its index files.
use mathlib.Core.List.Permᴰ
use hm.Prelude.{
  ℕ, zero, suc, some, subst, get_or, replicate, List, [], ◌∷◌, true, false, length, ◌≡◌, ◌≢◌, refl,
  sym, arith, inl,
}
use hm.Bytes.{Bytes}
use hm.Pair.{Pair}
use hm.MurmurHash.{murmur_hash64a}
use hm.VectorList.Sorted.{lookup, scan, scan-lookup}
use hm.Disk.HotLine.{build_line}
use hm.Disk.HashIndex.{HashNode, build_index, search_hash_index}
use hm.Disk.HashIndex.Exact.{pair_found, search_hash_index-lookup}
use hm.Disk.HashIndex.Lost.{search_hash_index-zero}
use hm.Disk.BTree.{access_error, read_outside, access_node_value, search_btree}
use hm.Disk.BTree.Exact.{Truth, IsTruthful, search_btree-scan}
use hm.Disk.DiskList.{TreeFiles, open_normal, get_pair}
use hm.Disk.DiskList.Exact.{file, get_pair-lookup}
use hm.Tests.Data.{key_b, key_c, pair_a, pair_b, table_bc, ascii_b, ascii-IsTable}

-- a sort that leaves the nodes as they are
abbrev in_order : ℕ → List HashNode → List HashNode
in_order n xs = xs

key_b_hashed : murmur_hash64a key_b ≢ 0
unfolding murmur_hash64a
key_b_hashed e = absurd (omega (arith, e))

murmur_of_hello :
    murmur_hash64a (104 ∷ 101 ∷ 108 ∷ 108 ∷ 111 ∷ 32 ∷ 119 ∷ 111 ∷ 114 ∷ 108 ∷ 100 ∷ [])
    ≡ 15256545620076441550
unfolding murmur_hash64a
murmur_of_hello = refl

search_hash_index-lookup_example :
    pair_found table_bc.pairs (
      search_hash_index table_bc.pairs
        (build_index in_order 67 64 table_bc.pairs)
        key_b
        (scan table_bc.pairs key_b))
    ≡ lookup table_bc.pairs key_b
search_hash_index-lookup_example =
    search_hash_index-lookup in_order 67 64 table_bc.pairs key_b (scan table_bc.pairs key_b)
      (λ n xs. Permᴰ.refl xs) ascii-IsTable.sorted refl key_b_hashed (omega arith) (omega arith)
      (omega arith) (omega arith) (sym (scan-lookup table_bc.pairs key_b ascii-IsTable.sorted))

-- u0120657Z80j8p4d, whose hash is 0
abbrev lost_key : Bytes
lost_key = 117 ∷ 48 ∷ 49 ∷ 50 ∷ 48 ∷ 54 ∷ 53 ∷ 55 ∷ 90 ∷ 56 ∷ 48 ∷ 106 ∷ 56 ∷ 112 ∷ 52 ∷ 100 ∷ []

abbrev with_lost_key : List Pair
with_lost_key = record pair_a { key = lost_key } ∷ []

search_hash_index-zero_example :
    search_hash_index with_lost_key
      (build_index in_order 67 4096 with_lost_key)
      lost_key
      (scan with_lost_key lost_key)
    ≡ record { found = false; it = length with_lost_key }
unfolding murmur_hash64a build_index
search_hash_index-zero_example =
    search_hash_index-zero with_lost_key (build_index in_order 67 4096 with_lost_key) lost_key
      (scan with_lost_key lost_key) 0 refl (omega arith) (omega arith) refl

-- a tree of one node, all whose offsets are those of one entry, for the first pair of the table
abbrev tree_keys : Bytes
tree_keys = 0 ∷ 0 ∷ 0 ∷ 0 ∷ 0 ∷ 0 ∷ 0 ∷ 0 ∷ 0 ∷ 1 ∷ 98 ∷ 0 ∷ []

abbrev tree : List (List ℕ)
tree = replicate 127 0 ∷ []

same_offset : (n j : ℕ) → get_or {A = ℕ} (replicate n 0) j 0 ≡ 0
same_offset zero j = refl
same_offset (suc n) zero = refl
same_offset (suc n) (suc j) = same_offset n j

tree-IsTruthful : IsTruthful tree_keys table_bc.pairs tree
unfolding access_node_value
tree-IsTruthful zero j node e l =
    let same : replicate 127 0 ≡ node = ground (arith, e) in
    subst (λ t. Truth table_bc.pairs (access_node_value tree_keys (get_or t j 0))) same
      (subst (λ i. Truth table_bc.pairs (access_node_value tree_keys i)) (sym (same_offset 127 j))
        (pair_b, refl, refl))
tree-IsTruthful (suc pos) j node e l = absurd (cc)

-- beyond the end of the file
read_at_end : access_node_value tree_keys 3 ≡ access_error
unfolding access_node_value
read_at_end = refl

-- where the end of the data wraps around
read_wrapped : access_node_value tree_keys 18446744073709551611 ≡ read_outside
unfolding access_node_value
read_wrapped = refl

search_btree-scan_example :
    search_btree tree_keys table_bc.pairs key_b tree ≡ some (scan table_bc.pairs key_b)
search_btree-scan_example =
    search_btree-scan tree_keys table_bc.pairs key_b ascii-IsTable.sorted ascii-IsTable.stored
      ascii_b tree tree-IsTruthful

abbrev tree_files : TreeFiles
tree_files = record { nodes = tree; keys = tree_keys }

-- through the tree, as the table has no other file
get_pair-lookup_example :
    get_pair
      (open_normal table_bc
        (file false (build_line table_bc.pairs))
        (file false (build_index in_order 67 64 table_bc.pairs))
        (some tree_files))
      key_c
    ≡ some (lookup table_bc.pairs key_c)
get_pair-lookup_example =
    get_pair-lookup in_order 67 64 table_bc key_c false false (some tree_files) ascii-IsTable.sorted
      ascii-IsTable.stored ascii-IsTable.stored.1.0 (λ e. inl (omega arith))
      (λ files e.
        subst (λ t. IsTruthful t.keys table_bc.pairs t.nodes) (same_files files e) tree-IsTruthful)
      (λ n xs. Permᴰ.refl xs) (λ e. absurd (let no : false ≡ true = e in cc))
  where
    same_files : (files : TreeFiles) → some tree_files ≡ some files → tree_files ≡ files
    same_files files e = cc (e)
