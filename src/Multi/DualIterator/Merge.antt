-- ===== src/Multi/DualIterator/Merge.antt =====
-- The pass of hm4/multi/dualiterator.h against the merge of two sorted lists.
use hm.Prelude.{
  ℕ, zero, suc, ◌+◌, ◌≤◌, List, [], ◌∷◌, true, Ordering, length, ◌≡◌, refl, arith, All,
  Ordering-cases, is_lt, is_eq, is_gt, compare,
}
use hm.Bytes.{Bytes, compare_bytes}
use hm.Bytes.Order.{compare_eq, compare_refl}
use hm.Pair.{Pair, is_key_valid}
use hm.IList.{get_newest_pair}
use hm.VectorList.Sorted.{IsSorted, Above, Above-trans, lookup, lookup-Above, gt-lt}
use hm.VectorList.Search.{cmp_of_valid}
use hm.Multi.DualIterator.{make, walk, traverse}

-- the newer of two pairs with one key, the first where they are as old
abbrev newer : Pair → Pair → Pair
newer p q = elim (compare p.created q.created) [ Ordering.lt ↦ q | _ ↦ p ]

-- The merge of two ascending lists, by structural recursion.
pub merge : List Pair → List Pair → List Pair
merge [] qs = qs
merge (p ∷ ps) [] = p ∷ ps
merge (p ∷ ps) (q ∷ qs) = elim (compare_bytes p.key q.key) [
  | Ordering.lt ↦ p ∷ merge ps (q ∷ qs)
  | Ordering.eq ↦ newer p q ∷ merge ps qs
  | Ordering.gt ↦ q ∷ merge (p ∷ ps) qs
]

abbrev pub HasKeys : List Pair → Type 0
HasKeys = All (λ p. is_key_valid p.key ≡ true)

walk-merge :
    (fuel : ℕ) (ps qs : List Pair)
    → length ps + length qs ≤ fuel
    → HasKeys ps
    → HasKeys qs
    → walk fuel (make ps qs) ≡ merge ps qs
unfolding walk merge
walk-merge zero [] [] h hp hq = refl
walk-merge zero [] (q ∷ qs) h hp hq = absurd (omega arith)
walk-merge zero (p ∷ ps) qs h hp hq = absurd (omega arith)
walk-merge (suc fuel) [] [] h hp hq = refl
walk-merge (suc fuel) [] (q ∷ qs) h hp hq = ground (arith, walk-merge fuel [] qs)
walk-merge (suc fuel) (p ∷ ps) [] h hp hq = ground (arith, walk-merge fuel ps [])
walk-merge (suc fuel) (p ∷ ps) (q ∷ qs) h hp hq = ground (
  arith,
  cmp_of_valid p q.key,
  walk-merge fuel ps (q ∷ qs),
  walk-merge fuel (p ∷ ps) qs,
  walk-merge fuel ps qs,
)

merge-Above : (a : Bytes) (ps qs : List Pair) → Above a ps → Above a qs → Above a (merge ps qs)
unfolding merge
merge-Above a [] qs h k = k
merge-Above a (p ∷ ps) [] h k = h
merge-Above a (p ∷ ps) (q ∷ qs) h k = elim (Ordering-cases (compare_bytes p.key q.key)) [
  | is_lt c ↦ rw (c, merge) (h.0, merge-Above a ps (q ∷ qs) h.1 k)
  | is_gt c ↦ rw (c, merge) (k.0, merge-Above a (p ∷ ps) qs h k.1)
  | is_eq c ↦ rw (c, merge) (ground arith, merge-Above a ps qs h.1 k.1)
]

merge-IsSorted : (ps qs : List Pair) → IsSorted ps → IsSorted qs → IsSorted (merge ps qs)
unfolding merge
merge-IsSorted [] qs s t = t
merge-IsSorted (p ∷ ps) [] s t = s
merge-IsSorted (p ∷ ps) (q ∷ qs) s t = elim (Ordering-cases (compare_bytes p.key q.key)) [
  | is_lt c ↦
      rw (c, merge)
        (
          merge-Above p.key ps (q ∷ qs) s.0 (c, Above-trans p.key q.key qs c t.0),
          merge-IsSorted ps (q ∷ qs) s.1 t,
        )
  | is_gt c ↦
      let g = gt-lt p.key q.key c in
      rw (c, merge)
        (
          merge-Above q.key (p ∷ ps) qs (g, Above-trans q.key p.key ps g s.0) t.0,
          merge-IsSorted (p ∷ ps) qs s t.1,
        )
  | is_eq c ↦
      let e = compare_eq p.key q.key c in
      let n : (newer p q).key ≡ p.key = ground arith in
      rw (c, merge) (rw n (merge-Above p.key ps qs s.0 (rw e t.0)), merge-IsSorted ps qs s.1 t.1)
]

lookup-merge :
    (ps qs : List Pair) (k : Bytes)
    → IsSorted ps
    → IsSorted qs
    → lookup (merge ps qs) k ≡ get_newest_pair (lookup qs k) (lookup ps k)
unfolding merge lookup get_newest_pair
lookup-merge [] qs k s t = ground arith
lookup-merge (p ∷ ps) [] k s t = refl
lookup-merge (p ∷ ps) (q ∷ qs) k s t = elim (Ordering-cases (compare_bytes p.key q.key)) [
  | is_lt c ↦ ground (
    arith,
    lookup-merge ps (q ∷ qs) k s.1 t,
    compare_eq p.key k,
    compare_eq q.key k,
    compare_refl k,
    Above-trans p.key q.key qs c t.0,
    lookup-Above k qs,
  )
  | is_gt c ↦ ground (
    arith,
    lookup-merge (p ∷ ps) qs k s t.1,
    compare_eq p.key k,
    compare_eq q.key k,
    compare_refl k,
    gt-lt p.key q.key c,
    Above-trans q.key p.key ps (gt-lt p.key q.key c) s.0,
    lookup-Above k ps,
  )
  | is_eq c ↦ ground (arith, lookup-merge ps qs k s.1 t.1, compare_eq p.key q.key c)
]

-- Over two strictly ascending lists with valid keys the pass from begin to end is strictly
-- ascending, and it shows for each key the pair that point reads of both lists choose: the newest,
-- and the first list's where they are as old.
pub traverse_lem :
    (ps qs : List Pair)
    → IsSorted ps
    → IsSorted qs
    → HasKeys ps
    → HasKeys qs
    → IsSorted (traverse ps qs)
      × ((k : Bytes) → lookup (traverse ps qs) k ≡ get_newest_pair (lookup qs k) (lookup ps k))
unfolding traverse
traverse_lem ps qs s t hp hq =
    rw (walk-merge (length ps + length qs) ps qs (omega arith) hp hq)
      (merge-IsSorted ps qs s t, λ k. lookup-merge ps qs k s t)
