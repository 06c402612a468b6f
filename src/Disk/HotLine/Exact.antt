-- ===== src/Disk/HotLine/Exact.antt =====
-- searchHotLine of hm4/disk/disklist.cc finds what one pass over the keys of the table finds.
use hm.Prelude.{
  ℕ, ◌+◌, ◌-◌, ◌≤◌, ◌<◌, List, [], ◌∷◌, ◌⊎◌, true, false, some, length, get_elem?, take, drop, ltb,
  leb, ◌==◌, if◌then◌else◌, ◌≡◌, ◌≢◌, sym, ap, ◌∙◌, arith, All, Bool-cases, Ordering-cases, is_lt,
  is_eq, is_gt, compare, inl, inr, length-take, take_all,
}
use hm.Bytes.{Bytes, compare_bytes, memcmp_then_size, equals_bytes}
use hm.Bytes.Order.{compare_refl}
use hm.Pair.{Pair}
use hm.Pair.HPair.{hkey_of, take-hkey_of, compare_ascii, IsAsciiKey}
use hm.BinarySearch.{linear_search, binary_search}
use hm.BinarySearch.Agree.{linear_cut, search_loop-linear}
use hm.VectorList.{cmp_at}
use hm.VectorList.Sorted.{IsSorted, scan}
use hm.VectorList.Search.{ascending}
use hm.Disk.Search.{search_binary}
use hm.Disk.Common.{behind_prefix, drop_end}
use hm.Disk.Near.{AllAscii, All-at, some-at}
use hm.Disk.Exact.{loop-agree, search_binary-scan}
use hm.Disk.HotLine.{
  LineNode, build_line, line_from, node_cmp, equals_behind, list_pos_last, search_part,
  search_hot_line,
}
use hm.Disk.HotLine.Nodes.{scan_nodes, next_pos, Points, behind, at, line_from-Points}
use hm.Disk.HotLine.Ascent.{Rises-line_from, search-scan_nodes}
use hm.Disk.HotLine.Parts.{
  leading-false, leading-le, first, last, scan-first, cmp-at, above-at, scan-behind, scan-above,
  scan-hit,
}
use hm.Disk.HotLine.Long.{inside, low, high}
use hm.Disk.HotLine.Steps.{
  search_part_short, search_part_eight, search_part_long, last_next, hot_line_end, hot_line_node,
  hkey_positive, Climbs-all, empty_or_not, before-up_to,
}

module _ (ps : List Pair) (key : Bytes) (s : IsSorted ps) (as_ : AllAscii ps)
    (k : IsAsciiKey key) where
  -- behind the part, nothing is looked at
  cut :
      linear_search (cmp_at ps key) (first ps key s as_ k) (length ps - first ps key s as_ k)
      ≡ linear_search
          (cmp_at ps key)
          (first ps key s as_ k)
          (last ps key s as_ k - first ps key s as_ k)
  cut =
      let n = first ps key s as_ k in
      let m = last ps key s as_ k in
      let order : n ≤ m = before-up_to (hkey_of key) ps in
      elim (Bool-cases (ltb m (length ps))) [
        | inr e ↦
            let z : m ≡ length ps =
              ground (arith, e, leading-le (λ p. leb (hkey_of p.key) (hkey_of key)) ps) in
            ap (λ i. linear_search (cmp_at ps key) n (i - n)) (sym z)
        | inl e ↦
            let l : m < length ps = ground (arith, e) in
            let (q, g) = some-at ps m l in
            let f = leading-false (λ p. leb (hkey_of p.key) (hkey_of key)) ps q g in
            let z : n + (m - n) ≡ m = omega (arith, order) in
            linear_cut (cmp_at ps key) (m - n) n (length ps - n) (omega (arith, order, l))
              (rw z (above-at ps key s as_ k m q g (ground (arith, f))))
      ]

  part_long :
      8 < length key
      → All (λ p. p.key ≢ take 8 key) ps
      → search_binary ps key 8 (first ps key s as_ k) (last ps key s as_ k) ≡ scan ps key
  unfolding search_binary
  part_long long whole =
      let n = first ps key s as_ k in
      let m = last ps key s as_ k in
      let order : n ≤ m = before-up_to (hkey_of key) ps in
      let end : m ≤ length ps = leading-le (λ p. leb (hkey_of p.key) (hkey_of key)) ps in
      loop-agree ps key s as_ k (m - n) n m 8 8 order end (low ps key s as_ k long whole)
        (high ps key s as_ k long whole)
      ∙ search_loop-linear (cmp_at ps key) (length ps) (ascending key k.0 ps s) (m - n) n m end
          (omega (arith, order))
      ∙ sym cut
      ∙ sym (scan-first ps key s as_ k)

  module _ (p : Pair) (e : get_elem? ps (first ps key s as_ k) ≡ some p)
      (h : hkey_of p.key ≡ hkey_of key) where
    same_head : take 8 p.key ≡ take 8 key
    same_head =
        take-hkey_of p.key key (All-at (λ p. IsAsciiKey p.key) ps (first ps key s as_ k) p e as_).1
          k.1 h

    part_short : length key < 8 → record { found = true; it = first ps key s as_ k } ≡ scan ps key
    part_short l =
        let t : take 8 key ≡ key = take_all 8 key (omega (arith, l)) in
        let n : length (take 8 p.key) ≡ length key = ap length (same_head ∙ t) in
        let w : take 8 p.key ≡ p.key =
          take_all 8 p.key (omega (arith, l, n, length-take 8 p.key)) in
        let same : p.key ≡ key = sym w ∙ same_head ∙ t in
        sym (
          scan-hit ps key s as_ k (inside ps (first ps key s as_ k) p e) (
            cmp-at ps key s as_ k (first ps key s as_ k) p e
            ∙ ap (λ a. compare_bytes a key) same
            ∙ compare_refl key))

    part_eight :
        length key ≡ 8
        → record { found = equals_behind p key; it = first ps key s as_ k } ≡ scan ps key
    unfolding equals_behind
    part_eight l =
        let n = first ps key s as_ k in
        let d : drop 8 key ≡ [] = drop_end 8 key (omega (arith, l)) in
        let c : cmp_at ps key n ≡ memcmp_then_size (drop 8 p.key) [] =
          cmp-at ps key s as_ k n p e
          ∙ compare_ascii p.key key (All-at (λ p. IsAsciiKey p.key) ps n p e as_).1 k.1
          ∙ behind_prefix 8 p.key key same_head
          ∙ ap (memcmp_then_size (drop 8 p.key)) d in
        let f : equals_behind p key ≡ equals_bytes (drop 8 p.key) [] =
          ap (equals_bytes (drop 8 p.key)) d in
        elim (empty_or_not (drop 8 p.key)) [
          | inl (a, b) ↦
              ap (λ x. record { found = x; it = n }) (f ∙ a)
              ∙ sym (scan-hit ps key s as_ k (inside ps n p e) (c ∙ b))
          | inr (a, b) ↦
              ap (λ x. record { found = x; it = n }) (f ∙ a)
              ∙ sym (scan-above ps key s as_ k (inside ps n p e) (c ∙ b))
        ]

  module _ (fits : (length key ≤ 8) ⊎ All (λ p. p.key ≢ take 8 key) ps) where
    -- in the part that a node points to, every way of searching is exact
    part_lem :
        (ns : List LineNode) (it : ℕ) (p : Pair)
        → get_elem? ps (first ps key s as_ k) ≡ some p
        → hkey_of p.key ≡ hkey_of key
        → list_pos_last ps ns it ≡ last ps key s as_ k
        → search_part ps ns key it (first ps key s as_ k) ≡ scan ps key
    part_lem ns it p e h l = elim (Ordering-cases (compare (length key) 8)) [
      | is_lt c ↦
          search_part_short ps ns key it (first ps key s as_ k) (ground arith)
          ∙ part_short p e h (ground arith)
      | is_eq c ↦
          search_part_eight ps ns key it (first ps key s as_ k) p (ground arith) e
          ∙ part_eight p e h (ground arith)
      | is_gt c ↦
          search_part_long ps ns key it (first ps key s as_ k) (ground arith)
          ∙ ap (search_binary ps key 8 (first ps key s as_ k)) l
          ∙ elim fits [
            | inl short ↦ absurd (ground (arith, short))
            | inr whole ↦ part_long (ground arith) whole
          ]
    ]

    pointed :
        (x : LineNode) (xs : List LineNode)
        → let r = scan_nodes (x ∷ xs) (hkey_of key) in
          binary_search (length (x ∷ xs)) (node_cmp (x ∷ xs) (hkey_of key)) ≡ r
          → Points (x ∷ xs) ps (hkey_of key) 0 r
          → search_hot_line ps (x ∷ xs) key ≡ scan ps key
    pointed x xs b (behind a f c) =
        hot_line_end ps key x xs (scan_nodes (x ∷ xs) (hkey_of key)) b a
        ∙ sym (scan-behind ps key s as_ k c)
    pointed x xs b (at node p a e c f l) =
        let n = first ps key s as_ k in
        let r = scan_nodes (x ∷ xs) (hkey_of key) in
        let z : node.pos ≡ n = omega (arith, c) in
        let within = inside ps n p e in
        hot_line_node ps key x xs r node b a (omega (arith, z, within))
        ∙ elim (Bool-cases (hkey_of p.key == hkey_of key)) [
          | inl y ↦
              let same : hkey_of p.key ≡ hkey_of key = ground (arith, y) in
              let next : list_pos_last ps (x ∷ xs) r.it ≡ last ps key s as_ k =
                last_next ps (x ∷ xs) r.it
                ∙ ap (next_pos (x ∷ xs) (r.it + 1)) (omega arith)
                ∙ l (f ∙ y)
                ∙ omega arith in
              ap
                (λ t.
                  if t
                  then search_part ps (x ∷ xs) key r.it node.pos
                  else record { found = false; it = node.pos })
                (f ∙ y)
              ∙ ap (search_part ps (x ∷ xs) key r.it) z
              ∙ part_lem (x ∷ xs) r.it p e same next
          | inr o ↦
              let t = leading-false (λ p. ltb (hkey_of p.key) (hkey_of key)) ps p e in
              let more : hkey_of key < hkey_of p.key = ground (arith, o, t) in
              ap
                (λ t.
                  if t
                  then search_part ps (x ∷ xs) key r.it node.pos
                  else record { found = false; it = node.pos })
                (f ∙ o)
              ∙ ap (λ i. record { found = false; it = i }) z
              ∙ sym (scan-above ps key s as_ k within (above-at ps key s as_ k n p e more))
        ]

    hot_line_lem :
        (ns : List LineNode)
        → binary_search (length ns) (node_cmp ns (hkey_of key)) ≡ scan_nodes ns (hkey_of key)
        → Points ns ps (hkey_of key) 0 (scan_nodes ns (hkey_of key))
        → search_hot_line ps ns key ≡ scan ps key
    unfolding search_hot_line
    hot_line_lem [] b w = search_binary-scan ps key s as_ k
    hot_line_lem (x ∷ xs) b w = pointed x xs b w

    -- The search through the hot line that the builder writes for a table whose keys ascend in the
    -- order of `compare`, all of them and the key looked for valid and ASCII, returns whether the key
    -- is there and the index of the first pair that is not below it, if the key is at most eight bytes
    -- long or if no key of the table is its first eight bytes.
    pub search_hot_line-scan : search_hot_line ps (build_line ps) key ≡ scan ps key
    unfolding build_line
    search_hot_line-scan =
        let h : 0 < hkey_of key = hkey_positive key k in
        let c = Climbs-all ps as_ s in
        hot_line_lem (line_from 0 0 ps)
          (search-scan_nodes (hkey_of key) 0 (line_from 0 0 ps) (Rises-line_from ps 0 0 c))
          (line_from-Points ps 0 0 (hkey_of key) c h)
