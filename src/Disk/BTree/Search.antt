-- ===== src/Disk/BTree/Search.antt =====
-- searchBTree of hm4/disk/disklist.cc finds what one pass over the keys finds, whatever the shape of
-- the tree.
use hm.Prelude.{
  ℕ, ◌+◌, ◌-◌, ◌≤◌, ◌<◌, List, true, Ordering, length, ◌≡◌, refl, sym, ◌∙◌, ap, arith, ◌⊎◌, inl,
  inr,
}
use native.Mathlib.Decide.{dec_lt}
use hm.Bytes.{Bytes}
use hm.Pair.{Pair}
use hm.Pair.HPair.{IsAsciiKey}
use hm.BinarySearch.{linear_search}
use hm.BinarySearch.Agree.{IsAscending, linear_skip, linear_cut, linear_hit, search_loop-linear}
use hm.VectorList.{cmp_at}
use hm.VectorList.Sorted.{IsSorted, scan}
use hm.VectorList.Search.{ascending, linear-scan}
use hm.Disk.Search.{search_binary}
use hm.Disk.Near.{AllAscii}
use hm.Disk.Exact.{loop-agree}

module _ (ps : List Pair) (key : Bytes) (s : IsSorted ps) (as_ : AllAscii ps)
    (k : IsAsciiKey key) where
  asc : IsAscending (cmp_at ps key) (length ps)
  asc = ascending key k.0 ps s

  -- the key, if it is there, is in the range
  pub record Bounds (start end : ℕ) : Type 0 where
    pub order : start ≤ end
    pub within : end ≤ length ps
    pub below : (i : ℕ) → i < start → cmp_at ps key i ≡ Ordering.lt
    pub above : (end ≡ length ps) ⊎ ((end < length ps) × (cmp_at ps key end ≡ Ordering.gt))

  -- the pass over the whole table begins where the range does
  scan-from :
      (start : ℕ)
      → start ≤ length ps
      → ((i : ℕ) → i < start → cmp_at ps key i ≡ Ordering.lt)
      → scan ps key ≡ linear_search (cmp_at ps key) start (length ps - start)
  scan-from start w h =
      let z : 0 + start ≡ start = omega arith in
      sym (linear-scan key k.0 ps)
      ∙ linear_skip (cmp_at ps key) start 0 (length ps - start) (length ps) (omega (arith, w))
          (λ i a b. h i (omega (arith, b)))
      ∙ ap (λ i. linear_search (cmp_at ps key) i (length ps - start)) z

  cut :
      (start end : ℕ)
      → Bounds start end
      → linear_search (cmp_at ps key) start (length ps - start)
        ≡ linear_search (cmp_at ps key) start (end - start)
  cut start end b = elim b.above [
    | inl e ↦ ap (λ n. linear_search (cmp_at ps key) start (n - start)) (sym e)
    | inr (l, g) ↦
        let z : start + (end - start) ≡ end = omega (arith, b.order) in
        linear_cut (cmp_at ps key) (end - start) start (length ps - start)
          (omega (arith, l, b.order)) (ap (cmp_at ps key) z ∙ g)
  ]

  pub range-scan :
      (start end : ℕ) → Bounds start end → search_binary ps key 0 start end ≡ scan ps key
  unfolding search_binary
  range-scan start end b =
      loop-agree ps key s as_ k (end - start) start end 0 0 b.order b.within (inl refl) (inl refl)
      ∙ search_loop-linear (cmp_at ps key) (length ps) asc (end - start) start end b.within
          (omega (arith, b.order))
      ∙ sym (cut start end b)
      ∙ sym (scan-from start (omega (arith, b.order, b.within)) b.below)

  down_lt :
      (i j : ℕ)
      → i ≤ j
      → j < length ps
      → cmp_at ps key j ≡ Ordering.lt
      → cmp_at ps key i ≡ Ordering.lt
  down_lt i j h l c = elim (dec_lt i j) [
    | yes m ↦ asc.down i j m l (λ g. let no : Ordering.lt ≡ Ordering.gt = sym c ∙ g in absurd (cc))
    | no m ↦ let e : i ≡ j = omega (arith, h, m) in ap (cmp_at ps key) e ∙ c
  ]

  -- a pair below the key
  pub Bounds-right :
      (start end i : ℕ)
      → Bounds start end
      → i < length ps
      → cmp_at ps key i ≡ Ordering.lt
      → Bounds (i + 1) end
  Bounds-right start end i b l c = record {
    order = elim (dec_lt i end) [
      | yes m ↦ omega (arith, m)
      | no m ↦ elim b.above [
        | inl e ↦ omega (arith, e, l, m)
        | inr (x, g) ↦
            let no : Ordering.lt ≡ Ordering.gt = sym (down_lt end i (omega (arith, m)) l c) ∙ g in
            absurd (cc)
      ]
    ];
    within = b.within;
    below = λ j m. down_lt j i (omega (arith, m)) l c;
    above = b.above;
  }

  -- a pair above it
  pub Bounds-left :
      (start end i : ℕ)
      → Bounds start end
      → i < length ps
      → cmp_at ps key i ≡ Ordering.gt
      → Bounds start i
  Bounds-left start end i b l c = record {
    order = elim (dec_lt i start) [
      | no m ↦ omega (arith, m)
      | yes m ↦ let no : Ordering.lt ≡ Ordering.gt = sym (b.below i m) ∙ c in absurd (cc)
    ];
    within = omega (arith, l);
    below = b.below;
    above = inr (l, c);
  }

  pub hit-scan :
      (i : ℕ)
      → i < length ps
      → cmp_at ps key i ≡ Ordering.eq
      → record { found = true; it = i } ≡ scan ps key
  hit-scan i l c = sym (
      scan-from i (omega (arith, l)) (λ j m.
        asc.down j i m l (λ g. let no : Ordering.eq ≡ Ordering.gt = sym c ∙ g in absurd (cc)))
      ∙ linear_hit (cmp_at ps key) i (length ps - i) (omega (arith, l)) c)
