-- ===== src/Multi/CollectionIterator/Merge.antt =====
-- The pass of hm4/multi/collectioniterator.h from begin to end: it ends, it ascends, and it shows a
-- newest pair of each key.
use hm.Prelude.{
  ℕ, zero, suc, ◌≤◌, ◌<◌, List, [], ◌∷◌, true, false, Option, none, some, All, ◌≡◌, ◌↔◌, refl, sym,
  ◌∙◌, subst, arith, inl, inr, Bool-cases, Ordering-cases, is_lt, is_eq, is_gt,
}
use hm.Bytes.{Bytes, compare_bytes}
use hm.Bytes.Order.{compare_eq, compare_swap}
use hm.Pair.{Pair}
use hm.VectorList.Sorted.{IsSorted, Above, Above-trans, lookup, lookup-Above, same_key}
use hm.Multi.CollectionIterator.{IteratorPair, Heap, heap_comp, increment, walk}
use hm.Multi.CollectionIterator.Holds.{Holds, IsLive, total}
use hm.Multi.CollectionIterator.Order.{heap_comp-order}
use hm.Multi.CollectionIterator.Step.{increment-Leaves}

-- `o` is a newest pair that the iterators have for the key, or nothing where they have none
abbrev pub Shows : List IteratorPair → Bytes → Option Pair → Type 0
Shows itp key none = (q : Pair) → ¬ Holds itp key q
Shows itp key (some p) = Holds itp key p × ((q : Pair) → Holds itp key q → q.created ≤ p.created)

pub Shows-same :
    (new old : List IteratorPair) (key : Bytes) (o : Option Pair)
    → ((q : Pair) → Holds new key q ↔ Holds old key q)
    → Shows new key o
    → Shows old key o
Shows-same new old key none e s = λ q h. s q ((e q).1 h)
Shows-same new old key (some p) e s = ((e p).0 s.0, λ q h. s.1 q ((e q).1 h))

key_eq : (a b : Bytes) → same_key a b ≡ true → a ≡ b
key_eq a b h = compare_eq a b (ground (arith, h))

lookup-first :
    (p : Pair) (ps : List Pair) (key : Bytes)
    → same_key p.key key ≡ true
    → lookup (p ∷ ps) key ≡ some p
unfolding lookup
lookup-first p ps key h = rw h refl

lookup-behind :
    (p : Pair) (ps : List Pair) (key : Bytes)
    → same_key p.key key ≡ false
    → lookup (p ∷ ps) key ≡ lookup ps key
unfolding lookup
lookup-behind p ps key h = rw h refl

-- of the pairs for the key of the iterator in front, its own is a newest
front_newest :
    (p : Pair) (ps : List Pair) (v : List IteratorPair) (q : Pair)
    → All (λ y. heap_comp (p ∷ ps) y ≡ false) v
    → All IsLive v
    → Holds v p.key q
    → q.created ≤ p.created
front_newest p ps [] q f l h = absurd h
front_newest p ps ([] ∷ v) q f l h = absurd l.0
front_newest p ps ((r ∷ rs) ∷ v) q f l (inr h) = front_newest p ps v q f.1 l.1 h
front_newest p ps ((r ∷ rs) ∷ v) q f l (inl e) =
    let order = heap_comp-order p ps r rs l.0.1.0 f.0 in
    elim (Ordering-cases (compare_bytes p.key r.key)) [
      | is_gt d ↦ absurd (order.0 d)
      | is_eq d ↦
          let same : same_key r.key p.key ≡ true = ground (arith, compare_swap p.key r.key, d) in
          let found : r ≡ q = ground (arith, sym (lookup-first r rs p.key same) ∙ e) in
          subst (λ s. s.created ≤ p.created) found (order.1 d)
      | is_lt d ↦
          let above : Above p.key (r ∷ rs) = (d, Above-trans p.key r.key rs d l.0.0.0) in
          let no : none ≡ some q = sym (lookup-Above p.key (r ∷ rs) above) ∙ e in absurd (cc)
    ]

module _ (heap : Heap) where
  open heap use {IsHeap}

  -- the pairs that a pass over the iterators shows
  pub record IsMerge (itp : List IteratorPair) (out : List Pair) : Type 0 where
    pub sorted : IsSorted out
    pub shows : (key : Bytes) → Shows itp key (lookup out key)
    pub above : (key : Bytes) → All (Above key) itp → Above key out

  walk-step :
      (fuel limit : ℕ) (p : Pair) (ps : List Pair) (v new : List IteratorPair) (out : List Pair)
      → increment heap limit ((p ∷ ps) ∷ v) ≡ some new
      → walk heap limit fuel new ≡ some out
      → walk heap limit (suc fuel) ((p ∷ ps) ∷ v) ≡ some (p ∷ out)
  unfolding walk
  walk-step fuel limit p ps v new out e w = rw (walk, e, w) refl

  pub walk-IsMerge :
      (fuel limit : ℕ) (itp : List IteratorPair)
      → total itp < fuel
      → total itp < limit
      → IsHeap itp
      → All IsLive itp
      → (out : List Pair) × (walk heap limit fuel itp ≡ some out) × IsMerge itp out
  unfolding walk lookup
  walk-IsMerge zero limit itp n m h l = absurd (omega (arith, n))
  walk-IsMerge (suc fuel) limit [] n m h l =
      ([], refl, record { sorted = tt; shows = λ key q h. h; above = λ key h. tt })
  walk-IsMerge (suc fuel) limit ([] ∷ v) n m h l = absurd l.0
  walk-IsMerge (suc fuel) limit ((p ∷ ps) ∷ v) n m h l =
      let (new, e, left) = increment-Leaves heap limit p ps v m h l in
      let (out, w, merged) =
        walk-IsMerge fuel limit new (omega (arith, left.fewer, n)) (omega (arith, left.fewer, m))
          left.is_heap left.live in
      let first = merged.above p.key left.above in
      (
        p ∷ out,
        walk-step fuel limit p ps v new out e w,
        record {
          sorted = (first, merged.sorted);
          shows = λ key. elim (Bool-cases (same_key p.key key)) [
            | inl t ↦
                let k : p.key ≡ key = key_eq p.key key t in
                subst (Shows ((p ∷ ps) ∷ v) key) (sym (lookup-first p out key t)) (
                  inl (lookup-first p ps key t),
                  λ q held. elim held [
                    | inl f ↦
                        let same : p ≡ q = ground (arith, sym (lookup-first p ps key t) ∙ f) in
                        subst (λ s. s.created ≤ p.created) same (omega arith)
                    | inr o ↦
                        front_newest p ps v q (heap.front (p ∷ ps) v h) l.1
                          (subst (λ k. Holds v k q) (sym k) o)
                  ],
                )
            | inr t ↦ subst (Shows ((p ∷ ps) ∷ v) key) (sym (lookup-behind p out key t)) (
                Shows-same new ((p ∷ ps) ∷ v) key (lookup out key) (λ q. left.same key q t)
                  (merged.shows key))
          ];
          above = λ key a. (a.0.0, Above-trans key p.key out a.0.0 first);
        },
      )
