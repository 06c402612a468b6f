-- ===== src/Disk/BTree/Exact.antt =====
-- searchBTree of hm4/disk/disklist.cc over nodes whose keys are those of the table.
use hm.Prelude.{
  ℕ, zero, suc, ◌+◌, ◌*◌, ◌≤◌, ◌<◌, List, [], ◌∷◌, Option, none, some, Ordering, length, get_or,
  get_elem?, ltb, ◌≡◌, refl, ◌∙◌, ap, arith, inl, inr, Bool-cases, Option-cases, Ordering-cases,
  is_lt, is_eq, is_gt, if◌then◌else◌,
}
use hm.Bytes.{Bytes, compare_bytes, memcmp_then_size}
use hm.Pair.{Pair}
use hm.Pair.HPair.{compare_ascii, IsAsciiKey}
use hm.BinarySearch.{SearchResult}
use hm.VectorList.{cmp_at}
use hm.VectorList.Sorted.{IsSorted, scan}
use hm.VectorList.Search.{cmp_of_valid}
use hm.Disk.Near.{AllAscii, All-at}
use hm.Disk.HotLine.Long.{inside}
use hm.Disk.Exact.{search_binary-scan}
use hm.Disk.BTree.{
  NodeData, NodeValueResult, access_error, read_outside, node_value, NodeResult, failed,
  result_index, node_index, access_node_value, level_order_search, child, after_node, btree_search,
  search_btree, values, node_levels, ll,
}
use hm.Disk.BTree.Search.{Bounds, range-scan, Bounds-right, Bounds-left, hit-scan}

-- what is read at an offset is a key of the table and its place, or refused
abbrev pub Truth : List Pair → NodeValueResult → Type 0
Truth ps access_error = Unit
Truth ps read_outside = ⊥
Truth ps (node_value x) = (p : Pair) × (get_elem? ps x.dataid ≡ some p) × (p.key ≡ x.key)

-- so it is at the offsets of the nodes
abbrev pub IsTruthful : Bytes → List Pair → List (List ℕ) → Type 0
IsTruthful keys ps nodes =
    (pos j : ℕ) (node : List ℕ)
    → get_elem? nodes pos ≡ some node
    → j < values
    → Truth ps (access_node_value keys (get_or node j 0))

-- the cases of an access that is not outside
data Accessed (ps : List Pair) (v : NodeValueResult) : Type 0 where
  error : v ≡ access_error → Accessed ps v
  value :
      (x : NodeData) (p : Pair)
      → v ≡ node_value x
      → get_elem? ps x.dataid ≡ some p
      → p.key ≡ x.key
      → Accessed ps v

accessed : (ps : List Pair) (v : NodeValueResult) → Truth ps v → Accessed ps v
accessed ps access_error t = error refl
accessed ps read_outside t = absurd t
accessed ps (node_value x) (p, g, same) = value x p refl g same

inside_nodes :
    (nodes : List (List ℕ)) (pos : ℕ) (node : List ℕ)
    → get_elem? nodes pos ≡ some node
    → pos < length nodes
inside_nodes [] pos node e = absurd (cc)
inside_nodes (n ∷ nodes) zero node e = omega arith
inside_nodes (n ∷ nodes) (suc pos) node e = omega (arith, inside_nodes nodes pos node e)

-- the place that so many steps to the left lead to
abbrev reach : ℕ → ℕ → ℕ
reach zero pos = pos
reach (suc left) pos = reach left (2 * pos + 1)

reach_mono : (left a b : ℕ) → a ≤ b → reach left a ≤ reach left b
reach_mono zero a b h = h
reach_mono (suc left) a b h = reach_mono left (2 * a + 1) (2 * b + 1) (omega (arith, h))

child_later : (pos index : ℕ) → pos < child pos index
child_later pos index = ground arith

module _ (keys : Bytes) (ps : List Pair) (key : Bytes) (s : IsSorted ps) (as_ : AllAscii ps)
    (k : IsAsciiKey key) where
  -- the search in a node has ended well
  abbrev Fine : Option NodeResult → Type 0
  Fine none = ⊥
  Fine (some failed) = Unit
  Fine (some (result_index i)) = (i < length ps) × (cmp_at ps key i ≡ Ordering.eq)
  Fine (some (node_index i l r)) = Bounds ps key s as_ k l r

  Fine-next :
      (pos index l r : ℕ) (next : Option NodeResult)
      → Bounds ps key s as_ k l r
      → (pos < values → Fine next)
      → Fine (if ltb pos values then next else some (node_index index l r))
  Fine-next pos index l r next b f = elim (Bool-cases (ltb pos values)) [
    | inl e ↦ rw e (f (ground (arith, e)))
    | inr e ↦ rw e b
  ]

  module _ (node : List ℕ)
      (truth : (j : ℕ) → j < values → Truth ps (access_node_value keys (get_or node j 0))) where
    -- the key that is read compares as that of the table
    read_cmp :
        (x : NodeData) (p : Pair)
        → get_elem? ps x.dataid ≡ some p
        → p.key ≡ x.key
        → (x.dataid < length ps) × (cmp_at ps key x.dataid ≡ memcmp_then_size x.key key)
    read_cmp x p g same =
        let c : cmp_at ps key x.dataid ≡ compare_bytes p.key key =
          rw (cmp_at, g) (cmp_of_valid p key k.0) in
        (
          inside ps x.dataid p g,
          c
              ∙ compare_ascii p.key key (All-at (λ p. IsAsciiKey p.key) ps x.dataid p g as_).1 k.1
              ∙ ap (λ t. memcmp_then_size t key) same,
        )

    level-Fine :
        (left j start end : ℕ)
        → j < values
        → values ≤ reach left j
        → Bounds ps key s as_ k start end
        → Fine (level_order_search keys ps key left node j start end)
    unfolding level_order_search
    level-Fine zero j start end l r b = absurd (omega (arith, l, r))
    level-Fine (suc left) j start end l r b =
        elim (accessed ps (access_node_value keys (get_or node j 0)) (truth j l)) [
          | error e ↦ rw (level_order_search, e) tt
          | value x p e g same ↦
              let (small, c) = read_cmp x p g same in
              elim (Ordering-cases (memcmp_then_size x.key key)) [
                | is_eq d ↦ rw (level_order_search, e, d) (small, c ∙ d)
                | is_lt d ↦
                    let b' = Bounds-right ps key s as_ k start end x.dataid b small (c ∙ d) in
                    let more : values ≤ reach left (2 * j + 2) =
                      omega (arith, r, reach_mono left (2 * j + 1) (2 * j + 2) (omega arith)) in
                    rw (level_order_search, e, d)
                      (Fine-next (2 * j + 2) (ll j + 1) (x.dataid + 1) end
                        (level_order_search keys ps key left node (2 * j + 2) (x.dataid + 1) end) b'
                        (λ m. level-Fine left (2 * j + 2) (x.dataid + 1) end m more b'))
                | is_gt d ↦
                    let b' = Bounds-left ps key s as_ k start end x.dataid b small (c ∙ d) in
                    rw (level_order_search, e, d)
                      (Fine-next (2 * j + 1) (ll j) start x.dataid
                        (level_order_search keys ps key left node (2 * j + 1) start x.dataid) b'
                        (λ m. level-Fine left (2 * j + 1) start x.dataid m r b'))
              ]
        ]

  -- what the search in a node hands to the search in the tree
  module _ (nodes : List (List ℕ)) (truth : IsTruthful keys ps nodes) where
    abbrev Exact : Option SearchResult → Type 0
    Exact o = o ≡ some (scan ps key)

    after_node-Exact :
        (next : ℕ → ℕ → ℕ → Option SearchResult) (o : Option NodeResult)
        → Fine o
        → ((i l r : ℕ) → Bounds ps key s as_ k l r → Exact (next i l r))
        → Exact (after_node keys ps key next o)
    unfolding after_node
    after_node-Exact next none f g = absurd f
    after_node-Exact next (some failed) f g = ap some (search_binary-scan ps key s as_ k)
    after_node-Exact next (some (result_index i)) f g = ap some (hit-scan ps key s as_ k i f.0 f.1)
    after_node-Exact next (some (node_index i l r)) f g = g i l r f

    btree_search-scan :
        (fuel pos start end : ℕ)
        → length nodes < fuel + pos
        → 0 < fuel
        → Bounds ps key s as_ k start end
        → Exact (btree_search keys ps key fuel nodes pos start end)
    unfolding btree_search
    btree_search-scan zero pos start end n z b = absurd (omega (arith, z))
    btree_search-scan (suc fuel) pos start end n z b = elim (Option-cases (get_elem? nodes pos)) [
      | inl e ↦ rw (btree_search, e) (ap some (range-scan ps key s as_ k start end b))
      | inr (node, e) ↦
          let fine =
            level-Fine node (λ j l. truth pos j node e l) node_levels 0 start end (omega arith)
              (omega arith) b in
          let p = inside_nodes nodes pos node e in
          rw (btree_search, e)
            (after_node-Exact (λ i l r. btree_search keys ps key fuel nodes (child pos i) l r)
              (level_order_search keys ps key node_levels node 0 start end) fine
              (λ i l r b'.
                btree_search-scan fuel (child pos i) l r (omega (arith, n, child_later pos i))
                  (omega (arith, n, p)) b'))
    ]

  -- The search by a tree each of whose offsets is one where the read is refused, or finds a key of the
  -- table and its place, ends, and finds in a sorted table of ASCII keys what one pass over the keys finds.
  pub search_btree-scan :
      (nodes : List (List ℕ))
      → IsTruthful keys ps nodes
      → search_btree keys ps key nodes ≡ some (scan ps key)
  unfolding search_btree
  search_btree-scan nodes truth =
      btree_search-scan nodes truth (length nodes + 1) 0 0 (length ps) (omega arith) (omega arith)
        (record {
          order = omega arith;
          within = omega arith;
          below = λ i h. absurd (omega (arith, h));
          above = inl refl;
        })
