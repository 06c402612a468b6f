-- ===== src/Tests/Base.antt =====
-- Times, byte strings, pairs, the arena and the search.
use hm.Prelude.{ℕ, ◌+◌, ◌%◌, ◌≤◌, Ordering, compare, ◌≡◌, refl, arith}
use hm.Arena.{xallocate, xallocate_lem}
use hm.BinarySearch.{binary_search, linear_search}
use hm.BinarySearch.Agree.{IsAscending, binary_search-linear}
use hm.Tests.Data.{arena, arena-IsValid}

xallocate_lem_example :
    (48 % 8 ≡ 0)
    × (arena.pos ≤ 48)
    × (48 + 100 ≤ arena.size)
    × ((xallocate arena 100).1.pos ≡ 48 + 100)
unfolding xallocate
xallocate_lem_example = xallocate_lem arena 100 48 arena-IsValid (omega arith) refl

-- the numbers 0, 1, 2, … against 7
abbrev against_seven : ℕ → Ordering
against_seven i = compare i 7

against_seven-IsAscending : IsAscending against_seven 20
against_seven-IsAscending = record {
  up = λ i j l b h. ground arith;
  down = λ i j l b h. ground arith;
}

binary_search-linear_example : binary_search 20 against_seven ≡ linear_search against_seven 0 20
binary_search-linear_example = binary_search-linear against_seven 20 against_seven-IsAscending
