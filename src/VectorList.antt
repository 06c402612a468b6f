-- ===== src/VectorList.antt =====
-- hm4/vectorlist.h and hm4/vectorlist.cc: the memory list as a sorted vector of pairs, over the arena
-- allocator, which owns every pair of the list and frees nothing before `reset`. A pointer to a pair
-- is the pair.
pub mod Sorted
pub mod Search
pub mod Contents
pub mod Insert
pub mod Erase
use hm.Prelude.{
  ℕ, ◌+◌, ◌≤◌, List, [], ◌∷◌, Bool, true, false, Ordering, Option, none, some, length, get_elem?,
  set, insert_at, erase_at, ltb, leb, ◌==◌, if◌then◌else◌,
}
use hm.Bytes.{Bytes}
use hm.Pair.{Pair, cmp, pair_bytes}
use hm.Pair.Factory.{Factory, get_key, get_created, factory_bytes, valid, create, create_hint}
use hm.IList.{
  InsertResult, result_inserted, result_deleted, result_updated_in_place, result_replaced,
  result_skip_inserted, result_skip_deleted, result_error_no_memory, result_error_invalid,
  result_error, is_valid_for_replace, can_insert_hint, get_newest_pair,
}
use hm.ListCounter.{ListCounter, clr, inc, dec, upd}
use hm.Arena.{Arena, xallocate, reset}
use hm.BinarySearch.{SearchResult, binary_search}

pub record VectorList : Type 0 where
  pub vec : List Pair
  pub lc : ListCounter
  pub arena : Arena

-- The comparison that the search makes at an index; `binary_search` stays below the length.
abbrev pub cmp_at : List Pair → Bytes → ℕ → Ordering
cmp_at vec key i = elim (get_elem? vec i) [ none ↦ Ordering.gt | some p ↦ cmp p key ]

-- binarySearch of vectorlist.cc
unfoldable pub search : List Pair → Bytes → SearchResult
search vec key = binary_search (length vec) (cmp_at vec key)

abbrev pub size : VectorList → ℕ
size l = l.lc.count

abbrev pub empty : VectorList → Bool
empty l = size l == 0

abbrev pub bytes : VectorList → ℕ
bytes l = l.lc.bytes

-- find: the index of the first pair whose key is not below the given one
unfoldable pub find : VectorList → Bytes → ℕ
unfolding search
find l key = (search l.vec key).it

-- getPair___
unfoldable pub get_pair : VectorList → Bytes → Option Pair
unfolding search
get_pair l key = let r = search l.vec key in if r.found then get_elem? l.vec r.it else none

-- getPair___ with the best pair so far
unfoldable pub get_pair_best : VectorList → Bytes → Option Pair → Option Pair
unfolding get_pair get_newest_pair
get_pair_best l key best = get_newest_pair (get_pair l key) best

-- insertF where the key exists and the old pair has no room: a new pair in the old one's slot
unfoldable pub replace :
    ℕ → VectorList → Factory → ℕ → Pair → Option ℕ × Arena → VectorList × InsertResult
replace now l f it old (none, arena) = (record l { arena = arena }, result_error_no_memory)
replace now l f it old (some p, arena) =
    let neo = create now f in
    (
      record {
        vec = set l.vec it neo;
        lc = upd l.lc (pair_bytes old) (pair_bytes neo);
        arena = arena;
      },
      result_replaced neo,
    )

-- insertF where the key exists
unfoldable pub overwrite : ℕ → VectorList → Factory → ℕ → Option Pair → VectorList × InsertResult
unfolding replace
overwrite now l f it none = (l, result_error)
overwrite now l f it (some old) =
    if is_valid_for_replace (get_created f) old
    then (if can_insert_hint old f
        then (let neo = create_hint now f old in
            (
              record l { vec = set l.vec it neo; lc = upd l.lc (pair_bytes old) (pair_bytes neo) },
              result_updated_in_place neo,
            ))
        else replace now l f it old (xallocate l.arena (factory_bytes f)))
    else (l, result_skip_inserted)

-- insertF where the key does not exist: shift, then add; where the vector cannot grow, its insertion
-- throws, and the new pair is given back to the arena, which ignores that
unfoldable pub add :
    Bool → ℕ → VectorList → Factory → ℕ → Option ℕ × Arena → VectorList × InsertResult
add grows now l f it (none, arena) = (record l { arena = arena }, result_error_no_memory)
add false now l f it (some p, arena) = (record l { arena = arena }, result_error)
add true now l f it (some p, arena) =
    let neo = create now f in
    (
      record { vec = insert_at l.vec it neo; lc = inc l.lc (pair_bytes neo); arena = arena },
      result_inserted neo,
    )

-- insertF; `grows` is whether std::vector has the memory for one more element
unfoldable pub insert_f : Bool → ℕ → VectorList → Factory → VectorList × InsertResult
unfolding search overwrite add
insert_f grows now l f =
    if valid f
    then (let r = search l.vec (get_key f) in
        if r.found
        then overwrite now l f r.it (get_elem? l.vec r.it)
        else add grows now l f r.it (xallocate l.arena (factory_bytes f)))
    else (l, result_error_invalid)

unfoldable pub drop_at : VectorList → ℕ → Option Pair → VectorList × InsertResult
drop_at l it none = (l, result_error)
drop_at l it (some old) =
    (record l { vec = erase_at l.vec it; lc = dec l.lc (pair_bytes old) }, result_deleted)

-- erase___
unfoldable pub erase : VectorList → Bytes → VectorList × InsertResult
unfolding search drop_at
erase l key =
    let r = search l.vec key in
    if r.found then drop_at l r.it (get_elem? l.vec r.it) else (l, result_skip_deleted)

-- clear
unfoldable pub clear : VectorList → VectorList
unfolding reset
clear l = record { vec = []; lc = clr; arena = reset l.arena }

-- mutable_notify
unfoldable pub mutable_notify : VectorList → ℕ → ℕ → VectorList
mutable_notify l bytes_old bytes_new = record l { lc = upd l.lc bytes_old bytes_new }
