-- ===== src/Disk/Exact.antt =====
-- The binary search of hm4/disk/disklist.cc is exact on a whole table of ASCII keys: the comparison
-- may skip what the bounds of the search have in common with the key.
use hm.Prelude.{
  ℕ, zero, suc, ◌+◌, ◌-◌, ◌/◌, ◌≤◌, ◌<◌, List, none, length, get_elem?, min, ltb, if◌then◌else◌,
  inl, inr, ◌≡◌, refl, sym, ap, ◌∙◌, arith, Ordering-cases, is_lt, is_eq, is_gt, Bool-cases,
  Option-cases,
}
use hm.Bytes.{Bytes}
use hm.Pair.{Pair}
use hm.Pair.HPair.{IsAsciiKey}
use hm.BinarySearch.{minimum_distance, linear_search, search_loop, binary_search}
use hm.VectorList.{cmp_at, search}
use hm.VectorList.Sorted.{IsSorted, scan, scan-lookup}
use hm.VectorList.Search.{search-scan}
use hm.Disk.Search.{pair_cmp_lcp, lcp_compare, linear_search_lcp, search_loop_lcp, search_binary}
use hm.Disk.DiskTable.{Search, IsSearch}
use hm.Disk.Near.{AllAscii, near, true-cmp, Low-next, High-next, Low, High, some-at}

module _ (ps : List Pair) (key : Bytes) (s : IsSorted ps) (as_ : AllAscii ps)
    (k : IsAsciiKey key) where
  linear-agree :
      (count first l r : ℕ)
      → Low ps key s as_ k r first
      → High ps key s as_ k l (first + count)
      → linear_search_lcp ps key (record { prefix_l = l; prefix_r = r }) first count
        ≡ linear_search (cmp_at ps key) first count
  unfolding linear_search_lcp linear_search lcp_compare
  linear-agree zero first l r lo hi = refl
  linear-agree (suc count) first l r lo hi = elim (Option-cases (get_elem? ps first)) [
    | inl e ↦ ground (arith, e)
    | inr (p, e) ↦
        let n = min l r in
        let h =
          near ps key s as_ k l r first (first + suc count) first p lo hi (omega arith)
            (omega arith) e in
        let t = true-cmp ps key s as_ k n first p h e in
        elim (Ordering-cases (cmp_at ps key first)) [
          | is_lt c ↦
              let z : first + suc count ≡ first + 1 + count = omega arith in
              let next =
                linear-agree count (first + 1) l (n + (pair_cmp_lcp p key n).1)
                  (Low-next ps key s as_ k n first p h e c) (rw z at hi) in
              ground (arith, e, t, c, next)
          | is_eq c ↦ ground (arith, e, t, c)
          | is_gt c ↦ ground (arith, e, t, c)
        ]
  ]

  pub loop-agree :
      (fuel start end l r : ℕ)
      → start ≤ end
      → end ≤ length ps
      → Low ps key s as_ k r start
      → High ps key s as_ k l end
      → search_loop_lcp ps key fuel (record { prefix_l = l; prefix_r = r }) start end
        ≡ search_loop (cmp_at ps key) fuel start end
  unfolding search_loop_lcp search_loop lcp_compare
  loop-agree zero start end l r w len lo hi =
      let z : start + (end - start) ≡ end = omega arith in
      linear-agree (end - start) start l r lo (rw z hi)
  loop-agree (suc fuel) start end l r w len lo hi =
      elim (Bool-cases (ltb (start + minimum_distance) end)) [
        | inr narrow ↦
            let z : start + (end - start) ≡ end = omega arith in
            let whole = linear-agree (end - start) start l r lo (rw z hi) in
            ground (arith, narrow, whole)
        | inl wide ↦
            let far : start + 5 < end = ground (arith, wide) in
            let mid = start + (end - start) / 2 in
            let (p, e) = some-at ps mid (omega arith) in
            let n = min l r in
            let h = near ps key s as_ k l r start end mid p lo hi (omega arith) (omega arith) e in
            let t = true-cmp ps key s as_ k n mid p h e in
            elim (Ordering-cases (cmp_at ps key mid)) [
              | is_lt c ↦
                  let next =
                    loop-agree fuel (mid + 1) end l (n + (pair_cmp_lcp p key n).1) (omega arith) len
                      (Low-next ps key s as_ k n mid p h e c) hi in
                  ground (arith, wide, e, t, c, next)
              | is_eq c ↦ ground (arith, wide, e, t, c)
              | is_gt c ↦
                  let next =
                    loop-agree fuel start mid (n + (pair_cmp_lcp p key n).1) r (omega arith)
                      (omega arith) lo (High-next ps key s as_ k n mid p h e) in
                  ground (arith, wide, e, t, c, next)
            ]
      ]

  search-is_loop : search_loop (cmp_at ps key) (length ps) 0 (length ps) ≡ search ps key
  unfolding search binary_search
  search-is_loop = refl

  -- The binary search of a table whose keys ascend in the order of `compare`, all of them and the key
  -- looked for valid and ASCII, returns whether the key is there and the index of the first pair that
  -- is not below it, as one pass over the keys does.
  pub search_binary-scan : search_binary ps key 0 0 (length ps) ≡ scan ps key
  unfolding search_binary
  search_binary-scan =
      ap (λ n. search_loop_lcp ps key n (record { prefix_l = 0; prefix_r = 0 }) 0 (length ps))
        (omega arith)
      ∙ loop-agree (length ps) 0 (length ps) 0 0 (omega arith) (omega arith) (inl refl) (inl refl)
      ∙ search-is_loop
      ∙ search-scan key k.0 ps s

-- DiskList::getPair___ where the table has no further files: `ra_find_` in its binary mode
unfoldable pub binary_table : Search
binary_table t key =
    let r = search_binary t.pairs key 0 0 (length t.pairs) in
    if r.found then get_elem? t.pairs r.it else none

-- Through the binary search a read of a table of ASCII keys finds what the table holds.
pub binary_table-IsSearch : IsSearch IsAsciiKey IsAsciiKey binary_table
unfolding binary_table
binary_table-IsSearch = record {
  exact =
      λ t key s a k. rw (search_binary-scan t.pairs key s a k) (sym (scan-lookup t.pairs key s));
}
