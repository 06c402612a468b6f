-- ===== src/Disk/DiskList/Exact.antt =====
-- A read of a table finds what the table holds, whichever index files stand beside it.
use mathlib.Core.List.{Permᴰ}
use hm.Prelude.{
  ℕ, ◌^◌, ◌≤◌, ◌<◌, List, [], ◌∷◌, Bool, true, false, Option, none, some, length, take, All,
  if◌then◌else◌, ◌≡◌, ◌≢◌, refl, sym, ◌∙◌, ap, arith, ◌⊎◌,
}
use hm.Bytes.{Bytes}
use hm.Pair.HPair.{IsAsciiKey}
use hm.MurmurHash.{murmur_hash64a}
use hm.BinarySearch.{SearchResult}
use hm.VectorList.Sorted.{IsSorted, lookup, scan, scan-lookup}
use hm.Disk.FileBuilder.{DiskTable}
use hm.Disk.Search.{search_binary}
use hm.Disk.Exact.{search_binary-scan}
use hm.Disk.HotLine.{LineNode, build_line, search_hot_line}
use hm.Disk.HotLine.Exact.{search_hot_line-scan}
use hm.Disk.BTree.Exact.{IsTruthful, search_btree-scan}
use hm.Disk.HashIndex.{HashNode, select_width, helper_size, build_index, search_hash_index}
use hm.Disk.HashIndex.Exact.{pair_found, search_hash_index-lookup}
use hm.Disk.DiskList.{
  DiskList, TreeFiles, calc_search_mode, is_open, open_line, open_hash, open_normal, search_tree,
  find_by, find_hash, ra_find, pair_at, get_pair,
}

-- a file that is there has what its builder wrote
abbrev pub file {ℓ} : {A : Type ℓ} → Bool → A → Option A
file there a = if there then some a else none

open_line-some :
    (line : Bool) (written nodes : List LineNode)
    → open_line (file line written) ≡ some nodes
    → (line ≡ true) × (written ≡ nodes)
unfolding open_line
open_line-some false written nodes e = absurd (cc)
open_line-some true [] nodes e = absurd (cc)
open_line-some true (node ∷ written) nodes e = (refl, ground (arith, e))

open_hash-some :
    (hash : Bool) (written nodes : List HashNode)
    → open_hash (file hash written) ≡ some nodes
    → (hash ≡ true) × (written ≡ nodes)
unfolding open_hash
open_hash-some false written nodes e = absurd (cc)
open_hash-some true written nodes e = (refl, ground (arith, e))

-- the parts of a search, each of them exact, make an exact read
module _ (t : DiskTable) (key : Bytes) where
  abbrev Found : SearchResult → Type 0
  Found r = pair_found t.pairs r ≡ lookup t.pairs key

  abbrev Lined : Option (List LineNode) → Type 0
  Lined none = Unit
  Lined (some nodes) = Found (search_hot_line t.pairs nodes key)

  abbrev Hashed : Option (List HashNode) → Type 0
  Hashed none = Unit
  Hashed (some nodes) =
      (fallback : SearchResult)
      → Found fallback
      → Found (search_hash_index t.pairs nodes key fallback)

  abbrev Treed : Option TreeFiles → Type 0
  Treed none = Unit
  Treed (some files) =
      (r : SearchResult) × (search_tree (some files) t.pairs key ≡ some r) × Found r

  abbrev opened : Option (List LineNode) → Option (List HashNode) → Option TreeFiles → DiskList
  opened l h tree =
      let (m, n) = calc_search_mode (is_open l) (is_open h) (is_open tree) in
      record { table = t; line = l; hash = h; tree = tree; search_mode_t = m; search_mode_f = n }

  read_lem :
      (l : Option (List LineNode)) (h : Option (List HashNode)) (tree : Option TreeFiles)
      → Found (search_binary t.pairs key 0 0 (length t.pairs))
      → Lined l
      → Hashed h
      → Treed tree
      → get_pair (opened l h tree) key ≡ some (lookup t.pairs key)
  unfolding get_pair calc_search_mode pair_at ra_find find_by find_hash
  read_lem none none none b x y z = ap some b
  read_lem none none (some files) b x y (r, e, f) = rw (pair_at, e) (ap some f)
  read_lem none (some nodes) none b x y z =
      ap some (y (search_binary t.pairs key 0 0 (length t.pairs)) b)
  read_lem none (some nodes) (some files) b x y (r, e, f) =
      rw (find_hash, pair_at, e) (ap some (y r f))
  read_lem (some line) none none b x y z = ap some x
  read_lem (some line) none (some files) b x y (r, e, f) = rw (pair_at, e) (ap some f)
  read_lem (some line) (some nodes) none b x y z = ap some (y (search_hot_line t.pairs line key) x)
  read_lem (some line) (some nodes) (some files) b x y (r, e, f) =
      rw (find_hash, pair_at, e) (ap some (y r f))

module _ (sort : ℕ → List HashNode → List HashNode) (nodes_count buffer_size : ℕ) (t : DiskTable)
    (key : Bytes) (line hash : Bool) (tree : Option TreeFiles) (sorted : IsSorted t.pairs)
    (ascii : All (λ p. IsAsciiKey p.key) t.pairs) (k : IsAsciiKey key)
    (fits : line ≡ true → (length key ≤ 8) ⊎ All (λ p. p.key ≢ take 8 key) t.pairs)
    (truthful : (files : TreeFiles) → tree ≡ some files → IsTruthful files.keys t.pairs files.nodes)
    (perm : (n : ℕ) (xs : List HashNode) → Permᴰ (sort n xs) xs)
    (hashed : hash ≡ true
      → (murmur_hash64a key ≢ 0)
        × (0 < length t.pairs)
        × (length t.pairs ≤ nodes_count)
        × (nodes_count < 2 ^ 64)
        × (helper_size (select_width nodes_count) ≤ buffer_size)) where
  by_binary : Found t key (search_binary t.pairs key 0 0 (length t.pairs))
  by_binary =
      ap (pair_found t.pairs) (search_binary-scan t.pairs key sorted ascii k)
      ∙ sym (scan-lookup t.pairs key sorted)

  by_line :
      (l : Option (List LineNode)) → open_line (file line (build_line t.pairs)) ≡ l → Lined t key l
  by_line none e = tt
  by_line (some nodes) e =
      let (there, same) = open_line-some line (build_line t.pairs) nodes e in
      ap (λ ns. pair_found t.pairs (search_hot_line t.pairs ns key)) (sym same)
      ∙ ap (pair_found t.pairs) (search_hot_line-scan t.pairs key sorted ascii k (fits there))
      ∙ sym (scan-lookup t.pairs key sorted)

  by_hash :
      (h : Option (List HashNode))
      → open_hash (file hash (build_index sort nodes_count buffer_size t.pairs)) ≡ h
      → Hashed t key h
  by_hash none e = tt
  by_hash (some nodes) e = λ fallback f.
      let (there, same) =
        open_hash-some hash (build_index sort nodes_count buffer_size t.pairs) nodes e in
      let h = hashed there in
      ap (λ ns. pair_found t.pairs (search_hash_index t.pairs ns key fallback)) (sym same)
      ∙ search_hash_index-lookup sort nodes_count buffer_size t.pairs key fallback perm sorted k.0
          h.0 h.1 h.2 h.3 h.4 f

  by_tree : (files : Option TreeFiles) → tree ≡ files → Treed t key files
  unfolding search_tree
  by_tree none e = tt
  by_tree (some files) e = (
    scan t.pairs key,
    search_btree-scan files.keys t.pairs key sorted ascii k files.nodes (truthful files e),
    sym (scan-lookup t.pairs key sorted),
  )

  -- A read of a sorted table with ASCII keys finds what the table holds for the key, whichever of the
  -- index files were written beside it: through a hot line, if the key is at most eight bytes
  -- long or no key of the table is its first eight bytes; through a hash index with a cell for each pair
  -- and a buffer that holds a node, if the
  -- hash of the key is not zero; and through a B-tree, if each of its offsets is one where the read is refused, or finds a key of the table
  -- and its place. The read ends, without a read outside of the file of keys.
  pub get_pair-lookup :
      get_pair
        (open_normal t
          (file line (build_line t.pairs))
          (file hash (build_index sort nodes_count buffer_size t.pairs))
          tree)
        key
      ≡ some (lookup t.pairs key)
  unfolding open_normal
  get_pair-lookup =
      let l = open_line (file line (build_line t.pairs)) in
      let h = open_hash (file hash (build_index sort nodes_count buffer_size t.pairs)) in
      read_lem t key l h tree by_binary (by_line l refl) (by_hash h refl) (by_tree tree refl)
