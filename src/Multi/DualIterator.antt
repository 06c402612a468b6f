-- ===== src/Multi/DualIterator.antt =====
-- hm4/multi/dualiterator.h over iteratorpair.h: one ascending pass over two lists. An iterator and
-- its end are the pairs that are left.
pub mod Merge
use hm.Prelude.{
  ℕ, zero, suc, ◌+◌, ◌≤◌, List, [], ◌∷◌, Bool, true, false, Option, none, some, Ordering, length,
  swap, if◌then◌else◌,
}
use hm.Bytes.{Bytes}
use hm.Pair.{Pair, cmp, cmp_time}

pub record DualIterator : Type 0 where
  pub first : List Pair
  pub second : List Pair
  pub hit0 : Bool
  pub hit1 : Bool
  pub pair : Option Pair

-- updateDereference_, where both lists have pairs left
deref_both : Pair → Pair → Bool × Bool × Option Pair
deref_both p q = elim (cmp p q.key) [
  | Ordering.lt ↦ (true, false, some p)
  | Ordering.gt ↦ (false, true, some q)
  | Ordering.eq ↦ elim (swap (cmp_time p q)) [
    | Ordering.gt ↦ (true, true, some q)
    | _ ↦ (true, true, some p)
  ]
]

-- updateDereference_: which iterators stand at the pair, and the pair
unfoldable pub update_dereference : List Pair → List Pair → Bool × Bool × Option Pair
unfolding deref_both
update_dereference [] [] = (false, false, none)
update_dereference (p ∷ ps) [] = (true, false, some p)
update_dereference [] (q ∷ qs) = (false, true, some q)
update_dereference (p ∷ ps) (q ∷ qs) = deref_both p q

unfoldable pub make : List Pair → List Pair → DualIterator
unfolding update_dereference
make first second =
    let (h0, h1, p) = update_dereference first second in
    record { first = first; second = second; hit0 = h0; hit1 = h1; pair = p }

abbrev pub rest : Bool → List Pair → List Pair
rest false ps = ps
rest true [] = []
rest true (p ∷ ps) = ps

-- operator++
unfoldable pub next : DualIterator → DualIterator
unfolding make
next it = make (rest it.hit0 it.first) (rest it.hit1 it.second)

-- The pairs that a loop from the iterator to the end sees. The fuel bounds the number of steps.
unfoldable pub walk : ℕ → DualIterator → List Pair
unfolding next
walk zero it = []
walk (suc fuel) it =
    let more = walk fuel (next it) in elim it.pair [ none ↦ [] | some p ↦ p ∷ more ]

-- begin() to end()
unfoldable pub traverse : List Pair → List Pair → List Pair
unfolding walk
traverse first second = walk (length first + length second) (make first second)
