-- ===== src/Disk/HotLine/Ascent.antt =====
-- The nodes of a hot line ascend, so that the binary search in it is one pass.
use hm.Prelude.{
  ℕ, zero, suc, ◌+◌, ◌≤◌, ◌<◌, List, [], ◌∷◌, Ordering, length, ◌==◌, ◌≡◌, ◌≢◌, refl, subst, ◌∙◌,
  arith, Ordering-cases, is_lt, is_eq, is_gt, Bool-cases, inl, inr,
}
use hm.Pair.{Pair}
use hm.Pair.HPair.{hkey_of, hash_compare}
use hm.BinarySearch.{linear_search, binary_search}
use hm.BinarySearch.Agree.{IsAscending, binary_search-linear}
use hm.Disk.HotLine.{LineNode, line_from, node_cmp}
use hm.Disk.HotLine.Nodes.{Climbs, scan_nodes}

-- the numbers of the nodes ascend strictly from above `h` on
abbrev pub Rises : ℕ → List LineNode → Type 0
Rises h [] = Unit
Rises h (x ∷ xs) = (h < x.key) × Rises x.key xs

pub Rises-line_from : (ps : List Pair) (h pos : ℕ) → Climbs h ps → Rises h (line_from h pos ps)
unfolding line_from
Rises-line_from [] h pos c = tt
Rises-line_from (p ∷ ps) h pos c = elim (Bool-cases (h == hkey_of p.key)) [
  | inl s ↦
      let same : hkey_of p.key ≡ h = ground arith in
      rw (s, line_from) (Rises-line_from ps h (pos + 1) (subst (λ n. Climbs n ps) same c.1))
  | inr s ↦
      rw (s, line_from) (ground (arith, c.0, s), Rises-line_from ps (hkey_of p.key) (pos + 1) c.1)
]

module _ (h : ℕ) where
  -- behind a node that is not below the number, all are above it
  up_from :
      (a : ℕ) (xs : List LineNode) (j : ℕ)
      → Rises a xs
      → h ≤ a
      → j < length xs
      → node_cmp xs h j ≡ Ordering.gt
  unfolding node_cmp hash_compare
  up_from a [] j r l b = absurd (omega arith)
  up_from a (x ∷ xs) zero r l b = ground (arith, r.0)
  up_from a (x ∷ xs) (suc j) r l b = up_from x.key xs j r.1 (omega (arith, r.0)) (omega arith)

  up_lem :
      (a : ℕ) (xs : List LineNode) (i j : ℕ)
      → Rises a xs
      → i < j
      → j < length xs
      → node_cmp xs h i ≢ Ordering.lt
      → node_cmp xs h j ≡ Ordering.gt
  unfolding node_cmp hash_compare
  up_lem a [] i j r l b n = absurd (omega arith)
  up_lem a (x ∷ xs) i zero r l b n = absurd (omega arith)
  up_lem a (x ∷ xs) zero (suc j) r l b n =
      let not_below : h ≤ x.key = ground (arith, n) in
      up_from x.key xs j r.1 not_below (omega arith)
  up_lem a (x ∷ xs) (suc i) (suc j) r l b n = up_lem x.key xs i j r.1 (omega arith) (omega arith) n

  node_cmp-IsAscending :
      (a : ℕ) (xs : List LineNode) → Rises a xs → IsAscending (node_cmp xs h) (length xs)
  node_cmp-IsAscending a xs r = record {
    up = λ i j p q n. up_lem a xs i j r p q n;
    down = λ i j p q n. elim (Ordering-cases (node_cmp xs h i)) [
      | is_lt e ↦ e
      | is_eq e ↦ absurd (n (up_lem a xs i j r p q (λ l. cc)))
      | is_gt e ↦ absurd (n (up_lem a xs i j r p q (λ l. cc)))
    ];
  }

  linear_shift :
      (comp : ℕ → Ordering) (first count : ℕ)
      → let r = linear_search (λ i. comp (suc i)) first count in
        linear_search comp (suc first) count ≡ record { found = r.found; it = suc r.it }
  unfolding linear_search
  linear_shift comp first zero = refl
  linear_shift comp first (suc count) =
      let z : suc first + 1 ≡ suc (first + 1) = omega arith in
      let c : suc first ≡ suc first = refl in ground (arith, linear_shift comp (first + 1) count)

  linear-scan_nodes :
      (xs : List LineNode) → linear_search (node_cmp xs h) 0 (length xs) ≡ scan_nodes xs h
  unfolding linear_search scan_nodes node_cmp hash_compare
  linear-scan_nodes [] = refl
  linear-scan_nodes (x ∷ xs) =
      let z : ◌≡◌ {A = ℕ} (0 + 1) 1 = refl in
      ground (arith, linear_shift (node_cmp (x ∷ xs) h) 0 (length xs), linear-scan_nodes xs)

  -- what the binary search finds in the nodes
  pub search-scan_nodes :
      (a : ℕ) (xs : List LineNode)
      → Rises a xs
      → binary_search (length xs) (node_cmp xs h) ≡ scan_nodes xs h
  search-scan_nodes a xs r =
      binary_search-linear (node_cmp xs h) (length xs) (node_cmp-IsAscending a xs r)
      ∙ linear-scan_nodes xs
