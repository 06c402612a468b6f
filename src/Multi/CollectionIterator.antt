-- ===== src/Multi/CollectionIterator.antt =====
-- hm4/multi/collectioniterator.h over iteratorpair.h: one ascending pass over many lists. An iterator
-- and its end are the pairs that are left. The heap of <algorithm> is an argument.
pub mod Holds
pub mod Order
pub mod Step
pub mod Merge
pub mod Whole
pub mod Strict
use mathlib.Core.List.{Permᴰ}
use hm.Prelude.{
  ℕ, zero, suc, ◌+◌, List, [], ◌∷◌, ◌++◌, Bool, true, false, Option, none, some, Ordering, length,
  swap, then_cmp, All, if◌then◌else◌, ◌≡◌,
}
use hm.Bytes.{Bytes, equals_bytes}
use hm.Pair.{Pair, cmp, cmp_time}

-- IteratorPair
abbrev pub IteratorPair : Type 0
IteratorPair = List Pair

-- Pair::cmpWithTime with the newer pair first
unfoldable pub cmp_with_time : Pair → Pair → Ordering
cmp_with_time p q = then_cmp (cmp p q.key) (swap (cmp_time p q))

-- comp
unfoldable pub comp : IteratorPair → IteratorPair → Ordering
unfolding cmp_with_time
comp [] [] = Ordering.eq
comp [] (q ∷ qs) = Ordering.gt
comp (p ∷ ps) [] = Ordering.lt
comp (p ∷ ps) (q ∷ qs) = cmp_with_time p q

-- heap_comp
unfoldable pub heap_comp : IteratorPair → IteratorPair → Bool
unfolding comp
heap_comp a b = elim (comp a b) [ Ordering.gt ↦ true | _ ↦ false ]

-- std::make_heap, std::push_heap and std::pop_heap with heap_comp, and what they promise: they permute
-- the elements, no element of a heap is above the one in front, and pop_heap moves that one
-- to the back and leaves a heap before it.
pub record Heap : Type 1 where
  pub make_heap : List IteratorPair → List IteratorPair
  pub push_heap : List IteratorPair → List IteratorPair
  pub pop_heap : List IteratorPair → List IteratorPair
  pub IsHeap : List IteratorPair → Type 0
  pub make_perm : (v : List IteratorPair) → Permᴰ (make_heap v) v
  pub make_is_heap : (v : List IteratorPair) → IsHeap (make_heap v)
  pub push_perm : (v : List IteratorPair) → Permᴰ (push_heap v) v
  pub push_is_heap :
      (v : List IteratorPair) (x : IteratorPair) → IsHeap v → IsHeap (push_heap (v ++ (x ∷ [])))
  pub front :
      (x : IteratorPair) (v : List IteratorPair)
      → IsHeap (x ∷ v)
      → All (λ y. heap_comp x y ≡ false) v
  pub pop_front :
      (x : IteratorPair) (v : List IteratorPair)
      → IsHeap (x ∷ v)
      → (r : List IteratorPair) × (pop_heap (x ∷ v) ≡ r ++ (x ∷ [])) × Permᴰ r v × IsHeap r

-- vector::back
abbrev pub back : List IteratorPair → IteratorPair
back [] = []
back (x ∷ []) = x
back (x ∷ y ∷ v) = back (y ∷ v)

-- vector::pop_back
abbrev pub pop_back : List IteratorPair → List IteratorPair
pop_back [] = []
pop_back (x ∷ []) = []
pop_back (x ∷ y ∷ v) = x ∷ pop_back (y ∷ v)

abbrev pub key_of : IteratorPair → Bytes
key_of [] = []
key_of (p ∷ ps) = p.key

-- operator++
abbrev pub rest : IteratorPair → IteratorPair
rest [] = []
rest (p ∷ ps) = ps

-- the iterators that are not at their end
unfoldable pub not_ended : List IteratorPair → List IteratorPair
not_ended [] = []
not_ended ([] ∷ v) = not_ended v
not_ended ((p ∷ ps) ∷ v) = (p ∷ ps) ∷ not_ended v

-- the end of a round of increment_, `again` being the next round
unfoldable pub leave :
    Bytes → List IteratorPair → Option (List IteratorPair) → Option (List IteratorPair)
unfolding equals_bytes
leave key [] again = some []
leave key (x ∷ v) again = if equals_bytes key (key_of x) then again else some (x ∷ v)

module _ (heap : Heap) where
  open heap use {make_heap, push_heap, pop_heap}

  -- CollectionIterator(first, last)
  unfoldable pub make : List IteratorPair → List IteratorPair
  unfolding not_ended
  make lists = make_heap (not_ended lists)

  -- a round of increment_ up to its test: the iterator in front moves on
  unfoldable pub advance : List IteratorPair → List IteratorPair
  advance popped = elim (rest (back popped)) [
    | [] ↦ pop_back popped
    | p ∷ ps ↦ push_heap (pop_back popped ++ ((p ∷ ps) ∷ []))
  ]

  -- increment_; `none` means that the fuel ran out
  unfoldable pub increment : ℕ → List IteratorPair → Option (List IteratorPair)
  unfolding advance leave
  increment zero itp = none
  increment (suc fuel) [] = some []
  increment (suc fuel) (x ∷ v) =
      let popped = pop_heap (x ∷ v) in
      let itp = advance popped in
      let again = increment fuel itp in leave (key_of (back popped)) itp again

  -- The pairs that a loop from an iterator to the end sees. `limit` is the fuel of each increment_. An
  -- iterator at its end cannot be read.
  unfoldable pub walk : ℕ → ℕ → List IteratorPair → Option (List Pair)
  walk limit zero itp = none
  walk limit (suc fuel) [] = some []
  walk limit (suc fuel) ([] ∷ v) = none
  walk limit (suc fuel) ((p ∷ ps) ∷ v) = elim (increment limit ((p ∷ ps) ∷ v)) [
    | none ↦ none
    | some itp ↦ elim (walk limit fuel itp) [ none ↦ none | some out ↦ some (p ∷ out) ]
  ]
