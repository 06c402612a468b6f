-- ===== src/BinarySearch/Agree.antt =====
-- The binary search of include/binarysearch.h.cc is the linear search.
use hm.Prelude.{
  ℕ, zero, suc, ◌+◌, ◌-◌, ◌/◌, ◌≤◌, ◌<◌, true, Ordering, ◌≡◌, refl, ◌≢◌, arith, Ordering-cases,
  is_lt, is_eq, is_gt,
}
use hm.BinarySearch.{linear_search, search_loop, binary_search}

-- The array ascends strictly: from the first element that is not below the key, all are above it.
pub record IsAscending (comp : ℕ → Ordering) (size : ℕ) : Type 0 where
  pub up : (i j : ℕ) → i < j → j < size → comp i ≢ Ordering.lt → comp j ≡ Ordering.gt
  pub down : (i j : ℕ) → i < j → j < size → comp j ≢ Ordering.gt → comp i ≡ Ordering.lt

module _ (comp : ℕ → Ordering) where
  -- elements below the key are skipped
  pub linear_skip :
      (d first count total : ℕ)
      → total ≡ d + count
      → ((i : ℕ) → first ≤ i → i < first + d → comp i ≡ Ordering.lt)
      → linear_search comp first total ≡ linear_search comp (first + d) count
  unfolding linear_search
  linear_skip zero first count total e h =
      let e' : total ≡ count = omega arith in let z : first + 0 ≡ first = omega arith in rw (e', z)
  linear_skip (suc d) first count zero e h = absurd (omega arith)
  linear_skip (suc d) first count (suc total) e h =
      let z : first + suc d ≡ first + 1 + d = omega arith in
      rw (z, linear_search, h first (omega arith) (omega arith))
        (linear_skip d (first + 1) count total (omega arith)
          (λ i p q. h i (omega arith) (omega arith)))

  -- an element above the key ends the search
  pub linear_cut :
      (n first total : ℕ)
      → n < total
      → comp (first + n) ≡ Ordering.gt
      → linear_search comp first total ≡ linear_search comp first n
  unfolding linear_search
  linear_cut n first zero l h = absurd (omega arith)
  linear_cut zero first (suc total) l h =
      let z : first + 0 ≡ first = omega arith in rw (linear_search, rw z at h)
  linear_cut (suc n) first (suc total) l h =
      let z : first + suc n ≡ first + 1 + n = omega arith in
      ground (arith, linear_cut n (first + 1) total, rw z at h)

  -- an element equal to the key is found at once
  pub linear_hit :
      (first count : ℕ)
      → 0 < count
      → comp first ≡ Ordering.eq
      → linear_search comp first count ≡ record { found = true; it = first }
  unfolding linear_search
  linear_hit first zero l h = absurd (omega arith)
  linear_hit first (suc count) l h = rw (linear_search, h)

  module _ (size : ℕ) (asc : IsAscending comp size) where
    -- all is below the key up to an element that is not above it
    below : (mid i : ℕ) → i < mid → mid < size → comp mid ≢ Ordering.gt → comp i ≡ Ordering.lt
    below mid i p q e = asc.down i mid p q e

    -- what the linear search finds in [start, end), told from the middle element
    linear_at :
        (start mid end : ℕ)
        → start ≤ mid
        → mid < end
        → end ≤ size
        → elim (comp mid) [
          | Ordering.lt ↦ linear_search comp (mid + 1) (end - (mid + 1))
          | Ordering.gt ↦ linear_search comp start (mid - start)
          | Ordering.eq ↦ record { found = true; it = mid }
        ]
          ≡ linear_search comp start (end - start)
    linear_at start mid end p q r = elim (Ordering-cases (comp mid)) [
      | is_lt e ↦
          let z : start + (mid + 1 - start) ≡ mid + 1 = omega arith in
          rw (
            e,
            linear_skip (mid + 1 - start) start (end - (mid + 1)) (end - start) (omega arith)
                (λ i a b. grind (arith, below mid i)),
            z,
          )
      | is_eq e ↦
          let z : start + (mid - start) ≡ mid = omega arith in
          rw (
            e,
            linear_skip (mid - start) start (end - mid) (end - start) (omega arith)
                (λ i a b. asc.down i mid (omega arith) (omega arith) (λ g. cc)),
            z,
            linear_hit mid (end - mid) (omega arith) e,
          )
      | is_gt e ↦
          let z : start + (mid - start) ≡ mid = omega arith in
          rw (e, linear_cut (mid - start) start (end - start) (omega arith) (rw z e))
    ]

    pub search_loop-linear :
        (fuel start end : ℕ)
        → end ≤ size
        → end ≤ fuel + start
        → search_loop comp fuel start end ≡ linear_search comp start (end - start)
    unfolding search_loop
    search_loop-linear zero start end h k = refl
    search_loop-linear (suc fuel) start end h k = ground (
      arith,
      linear_at start (start + (end - start) / 2) end,
      search_loop-linear fuel (start + (end - start) / 2 + 1) end,
      search_loop-linear fuel start (start + (end - start) / 2),
    )

  -- On an ascending array the binary search returns what the linear search returns: whether the
  -- key is there, and the index of the first element that is not below it.
  pub binary_search-linear :
      (size : ℕ) → IsAscending comp size → binary_search size comp ≡ linear_search comp 0 size
  unfolding binary_search
  binary_search-linear size asc =
      let z : size - 0 ≡ size = omega arith in
      rw z at (search_loop-linear size asc size 0 size (omega arith) (omega arith))
