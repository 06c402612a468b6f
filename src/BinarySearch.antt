-- ===== src/BinarySearch.antt =====
-- include/binarysearch.h.cc. The array and the key enter as the sign of `comp(array[i], key)`.
pub mod Agree
use hm.Prelude.{
  ℕ, zero, suc, ◌+◌, ◌-◌, ◌/◌, ◌≤◌, ◌<◌, Bool, true, false, Ordering, ltb, if◌then◌else◌,
}

-- BinarySearchResult, its iterator as an index
pub record SearchResult : Type 0 where
  pub found : Bool
  pub it : ℕ

-- linearSearch over `count` elements from `first` on
unfoldable pub linear_search : (ℕ → Ordering) → ℕ → ℕ → SearchResult
linear_search comp first zero = record { found = false; it = first }
linear_search comp first (suc count) = elim (comp first) [
  | Ordering.lt ↦ linear_search comp (first + 1) count
  | Ordering.eq ↦ record { found = true; it = first }
  | Ordering.gt ↦ record { found = false; it = first }
]

-- `minimum_distance`, of which the library always takes the default
abbrev pub minimum_distance : ℕ
minimum_distance = 5

-- The loop over [start, end). The fuel is at least `end - start`, so it is spent only when the
-- loop's own test has failed; the prefetches have no effect on the result.
unfoldable pub search_loop : (ℕ → Ordering) → ℕ → ℕ → ℕ → SearchResult
search_loop comp zero start end = linear_search comp start (end - start)
search_loop comp (suc fuel) start end =
    let mid = start + (end - start) / 2 in
    let right = search_loop comp fuel (mid + 1) end in
    let left = search_loop comp fuel start mid in
    if ltb (start + minimum_distance) end
    then elim (comp mid) [
      | Ordering.lt ↦ right
      | Ordering.gt ↦ left
      | Ordering.eq ↦ record { found = true; it = mid }
    ]
    else linear_search comp start (end - start)

-- binarySearch over `last - first` elements, for a random access iterator
unfoldable pub binary_search : ℕ → (ℕ → Ordering) → SearchResult
unfolding search_loop linear_search
binary_search size comp = search_loop comp size 0 size
