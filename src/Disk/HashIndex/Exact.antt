-- ===== src/Disk/HashIndex/Exact.antt =====
-- searchHashIndex of hm4/disk/disklist.cc over the index that a builder wrote finds what the table
-- holds.
use native.Mathlib.Nat
use mathlib.Core.List.{Permᴰ}
use hm.Prelude.{
  ℕ, zero, suc, ◌+◌, ◌-◌, ◌<◌, ◌≤◌, ◌^◌, List, [], ◌∷◌, true, Ordering, Option, none, some, length,
  get_elem?, All, Option-cases, Ordering-cases, is_lt, is_eq, is_gt, leb, ◌==◌, if◌then◌else◌, ◌≡◌,
  ◌≢◌, refl, sym, ◌∙◌, ap, subst, arith, inl, inr, Bool-cases,
}
use hm.Bytes.{Bytes, compare_bytes}
use hm.Bytes.Order.{compare_eq}
use hm.Pair.{Pair, is_key_valid}
use hm.MurmurHash.{murmur_hash64a}
use hm.BinarySearch.{SearchResult}
use hm.VectorList.Sorted.{IsSorted, Above, lookup, same_key}
use hm.VectorList.Search.{cmp_of_valid}
use hm.Disk.HashIndex.{
  HashNode, node_at, node_of, next_pos, open_addresses, select_width, helper_size, build_index,
  probe, search_cells, search_hash_index,
}
use hm.Disk.HashIndex.Cells.{Placed, IsPlaced}
use hm.Disk.HashIndex.Builders.{nodes_of, build_index-IsPlaced}

-- the pair that a search found
abbrev pub pair_found : List Pair → SearchResult → Option Pair
pair_found list r = if r.found then get_elem? list r.it else none

Above-at :
    (a : Bytes) (ps : List Pair) (i : ℕ) (p : Pair)
    → Above a ps
    → get_elem? ps i ≡ some p
    → compare_bytes a p.key ≡ Ordering.lt
Above-at a [] i p h e = absurd (cc)
Above-at a (q ∷ ps) zero p h e = ground (arith, e, h.0)
Above-at a (q ∷ ps) (suc i) p h e = Above-at a ps i p h.1 e

-- a pair with the key is the one that the list has for it
found_at :
    (ps : List Pair) (key : Bytes) (i : ℕ) (p : Pair)
    → IsSorted ps
    → get_elem? ps i ≡ some p
    → compare_bytes p.key key ≡ Ordering.eq
    → lookup ps key ≡ some p
unfolding lookup
found_at [] key i p s e c = absurd (cc)
found_at (q ∷ ps) key zero p s e c = ground (arith, e, c)
found_at (q ∷ ps) key (suc i) p s e c =
    ground (arith, found_at ps key i p s.1 e c, compare_eq p.key key c, Above-at q.key ps i p s.0 e)

-- where that pair stands
lookup-at :
    (ps : List Pair) (key : Bytes) (p : Pair)
    → lookup ps key ≡ some p
    → (i : ℕ) × (get_elem? ps i ≡ some p) × (compare_bytes p.key key ≡ Ordering.eq)
unfolding lookup
lookup-at [] key p e = absurd (cc)
lookup-at (q ∷ ps) key p e = elim (Bool-cases (same_key q.key key)) [
  | inl t ↦ let same : q ≡ p = ground (arith, t, e) in (zero, ap some same, ground (arith, t, same))
  | inr t ↦ let (i, f, c) = lookup-at ps key p (ground (arith, t, e)) in (suc i, f, c)
]

nodes_of-at :
    (P : HashNode → Type 0) (width pos : ℕ) (ps : List Pair) (i : ℕ) (p : Pair)
    → All P (nodes_of width pos ps)
    → get_elem? ps i ≡ some p
    → pos + length ps ≤ 2 ^ width
    → P (node_of p (pos + i))
nodes_of-at P width pos [] i p h e l = absurd (cc)
nodes_of-at P width pos (q ∷ ps) zero p h e l =
    let same : q ≡ p = ground (arith, e) in
    subst (λ n. P (node_of p n)) (omega arith) (subst (λ r. P (node_of r pos)) same h.0)
nodes_of-at P width pos (q ∷ []) (suc i) p h e l = absurd (cc)
nodes_of-at P width pos (q ∷ r ∷ ps) (suc i) p h e l =
    let step : next_pos width pos ≡ pos + 1 = Nat.mod-eq_of_lt (omega (arith, l)) in
    let rest =
      nodes_of-at P width (next_pos width pos) (r ∷ ps) i p h.1 e (rw step (omega (arith, l))) in
    subst (λ n. P (node_of p n)) (rw step (omega arith)) rest

module _ (ps : List Pair) (nodes : List HashNode) (key : Bytes) (fallback : SearchResult)
    (s : IsSorted ps) (k : is_key_valid key ≡ true) where
  abbrev hc : ℕ
  hc = murmur_hash64a key

  -- a probe returns what it should if what it may hit, end with and go on with is that
  probe_lem :
      (o : Option Pair) (node : HashNode) (rest : SearchResult)
      → (node.hash ≡ 0 → o ≡ none)
      → pair_found ps fallback ≡ o
      → ((q : Pair)
          → get_elem? ps node.pos ≡ some q
          → compare_bytes q.key key ≡ Ordering.eq
          → o ≡ some q)
      → (node.hash ≢ 0
          → (node.hash ≡ hc
              → (q : Pair) → get_elem? ps node.pos ≡ some q
              → compare_bytes q.key key ≢ Ordering.eq)
          → pair_found ps rest ≡ o)
      → pair_found ps (probe ps node hc key fallback rest) ≡ o
  unfolding probe
  probe_lem o node rest free_end end hit go = elim (Bool-cases (node.hash == 0)) [
    | inl z ↦ rw z (sym (free_end (ground (arith, z))))
    | inr z ↦
        let nz : node.hash ≢ 0 = ground (arith, z) in
        elim (Bool-cases (node.hash == hc)) [
          | inr d ↦ rw (z, d) (go nz (λ same. absurd (ground (arith, d, same))))
          | inl d ↦ elim (Option-cases (get_elem? ps node.pos)) [
            | inl n ↦ rw (z, d, n) end
            | inr (q, n) ↦
                let c = cmp_of_valid q key k in
                elim (Ordering-cases (compare_bytes q.key key)) [
                  | is_eq l ↦ rw (z, d, n, c, l) (n ∙ sym (hit q n l))
                  | is_lt l ↦
                      rw (z, d, n, c, l) (go nz (λ same r m t. absurd (ground (arith, n, m, t, l))))
                  | is_gt l ↦
                      rw (z, d, n, c, l) (go nz (λ same r m t. absurd (ground (arith, n, m, t, l))))
                ]
          ]
        ]
  ]

  absent :
      (left i : ℕ)
      → lookup ps key ≡ none
      → pair_found ps fallback ≡ none
      → pair_found ps (search_cells left i ps nodes hc key fallback) ≡ none
  unfolding search_cells
  absent zero i e f = f
  absent (suc left) i e f =
      probe_lem none (node_at nodes hc i) (search_cells left (i + 1) ps nodes hc key fallback)
        (λ z. refl) f (λ q n c. sym e ∙ found_at ps key (node_at nodes hc i).pos q s n c)
        (λ nz miss. absent left (i + 1) e f)

  present :
      (left i j : ℕ) (p : Pair)
      → lookup ps key ≡ some p
      → pair_found ps fallback ≡ some p
      → get_elem? ps j ≡ some p
      → compare_bytes p.key key ≡ Ordering.eq
      → hc ≢ 0
      → Placed left i nodes (record { hash = hc; pos = j })
      → pair_found ps (search_cells left i ps nodes hc key fallback) ≡ some p
  unfolding search_cells
  present zero i j p e f g c h t = f
  present (suc left) i j p e f g c h t =
      let node = node_at nodes hc i in
      probe_lem (some p) node (search_cells left (i + 1) ps nodes hc key fallback)
        (λ z. absurd (elim t [
          | inl same ↦ h (sym (ap (λ r. r.hash) same) ∙ z)
          | inr (taken, later) ↦ taken z
        ]))
        f (λ q n d. sym e ∙ found_at ps key node.pos q s n d)
        (λ nz miss. elim t [
          | inl same ↦
              absurd (miss (ap (λ r. r.hash) same) p (ap (λ r. get_elem? ps r.pos) same ∙ g) c)
          | inr (taken, later) ↦ present left (i + 1) j p e f g c h later
        ])

  exact :
      (width : ℕ)
      → hc ≢ 0
      → length ps ≤ 2 ^ width
      → All (IsPlaced nodes) (nodes_of width 0 ps)
      → pair_found ps fallback ≡ lookup ps key
      → pair_found ps (search_cells open_addresses 0 ps nodes hc key fallback) ≡ lookup ps key
  exact width h l placed f = elim (Option-cases (lookup ps key)) [
    | inl e ↦ absent open_addresses 0 e (f ∙ e) ∙ sym e
    | inr (p, e) ↦
        let (j, g, c) = lookup-at ps key p e in
        let stands = nodes_of-at (IsPlaced nodes) width 0 ps j p placed g (omega (arith, l)) in
        let same : node_of p (0 + j) ≡ record { hash = hc; pos = j } =
          rw (compare_eq p.key key c) (ap (λ i. record { hash = hc; pos = i }) (omega arith)) in
        present open_addresses 0 j p e (f ∙ e) g c h (subst (IsPlaced nodes) same stands h) ∙ sym e
  ]

pub search-cells :
    (ps : List Pair) (nodes : List HashNode) (key : Bytes) (fallback : SearchResult)
    → 0 < length nodes
    → search_hash_index ps nodes key fallback
      ≡ search_cells open_addresses 0 ps nodes (murmur_hash64a key) key fallback
unfolding search_hash_index
search-cells ps [] key fallback h = absurd (omega (arith, h))
search-cells ps (first ∷ rest) key fallback h = refl

wide : (n m : ℕ) → m ≤ n → n < 2 ^ 64 → m ≤ 2 ^ select_width n
wide n m h w = elim (Bool-cases (leb n (2 ^ 32 - 1))) [
  | inl e ↦ rw e (ground (arith, e, h))
  | inr e ↦ rw e (omega (arith, h, w))
]

-- For a sorted table, a hash index that a builder wrote for it, with a cell for each pair and a buffer that holds a node, and a key
-- whose hash is not zero: the search by the index finds the pair that the table has for the key, if
-- the search that it falls back to does.
pub search_hash_index-lookup :
    (sort : ℕ → List HashNode → List HashNode) (nodes_count buffer_size : ℕ) (ps : List Pair)
    (key : Bytes) (fallback : SearchResult)
    → ((n : ℕ) (xs : List HashNode) → Permᴰ (sort n xs) xs)
    → IsSorted ps
    → is_key_valid key ≡ true
    → murmur_hash64a key ≢ 0
    → 0 < length ps
    → length ps ≤ nodes_count
    → nodes_count < 2 ^ 64
    → helper_size (select_width nodes_count) ≤ buffer_size
    → pair_found ps fallback ≡ lookup ps key
    → pair_found ps
        (search_hash_index ps (build_index sort nodes_count buffer_size ps) key fallback)
      ≡ lookup ps key
search_hash_index-lookup sort n size ps key fallback perm s k h l m w b f =
    let nodes = build_index sort n size ps in
    let (len, placed) = build_index-IsPlaced sort perm n size ps (omega (arith, l, m)) b in
    ap (pair_found ps) (search-cells ps nodes key fallback (omega (arith, len, l, m)))
    ∙ exact ps nodes key fallback s k (select_width n) h (wide n (length ps) m w) placed f
