-- ===== src/Multi/CollectionIterator/Order.antt =====
-- The order of the iterators of hm4/multi/collectioniterator.h, and of the pairs behind each.
use hm.Prelude.{
  ◌≤◌, List, [], ◌∷◌, ◌++◌, true, false, Ordering, All, ◌≡◌, ◌≢◌, refl, sym, ◌∙◌, ap, subst, arith,
  Ordering-cases, is_lt, is_eq, is_gt,
}
use hm.Bytes.{Bytes, compare_bytes}
use hm.Bytes.Order.{compare_eq, compare_trans}
use hm.Pair.{Pair, is_key_valid}
use hm.VectorList.Sorted.{Above, Above-trans, lookup, same_key}
use hm.VectorList.Search.{cmp_of_valid}
use hm.Multi.CollectionIterator.{IteratorPair, heap_comp, back, pop_back}
use hm.Multi.CollectionIterator.Holds.{IsLive}

-- the pair that comes first is not above the other one's key, nor older if that is its key
pub heap_comp-order :
    (p : Pair) (ps : List Pair) (q : Pair) (qs : List Pair)
    → is_key_valid q.key ≡ true
    → heap_comp (p ∷ ps) (q ∷ qs) ≡ false
    → (compare_bytes p.key q.key ≢ Ordering.gt)
      × (compare_bytes p.key q.key ≡ Ordering.eq → q.created ≤ p.created)
unfolding heap_comp
heap_comp-order p ps q qs h e =
    let c = cmp_of_valid p q.key h in
    (λ g. absurd (ground (arith, c, g, e)), λ g. ground (arith, c, g, e))

-- no key of the iterator is below `key`
abbrev pub NotBelow : Bytes → IteratorPair → Type 0
NotBelow key [] = Unit
NotBelow key (p ∷ ps) = compare_bytes key p.key ≢ Ordering.gt

Above-live :
    (key : Bytes) (l : IteratorPair) (p : Pair) (ps : List Pair)
    → l ≡ p ∷ ps
    → IsLive (p ∷ ps)
    → compare_bytes key p.key ≡ Ordering.lt
    → Above key l
Above-live key l p ps e v c = subst (Above key) (sym e) (c, Above-trans key p.key ps c v.0.0)

pub NotBelow-Above : (key : Bytes) (l : IteratorPair) → Above key l → NotBelow key l
NotBelow-Above key [] h = tt
NotBelow-Above key (p ∷ ps) h = λ g. let no : Ordering.lt ≡ Ordering.gt = sym h.0 ∙ g in cc

-- behind a first iterator that is above a key, all are
pub All-Above :
    (key : Bytes) (p : Pair) (ps : List Pair) (v : List IteratorPair)
    → compare_bytes key p.key ≡ Ordering.lt
    → All (λ y. heap_comp (p ∷ ps) y ≡ false) v
    → All IsLive v
    → All (Above key) v
All-Above key p ps [] c h l = tt
All-Above key p ps ([] ∷ v) c h l = absurd l.0
All-Above key p ps ((q ∷ qs) ∷ v) c h l =
    let order = heap_comp-order p ps q qs l.0.1.0 h.0 in
    let below : compare_bytes key q.key ≡ Ordering.lt =
      elim (Ordering-cases (compare_bytes p.key q.key)) [
        | is_lt d ↦ compare_trans key p.key q.key c d
        | is_eq d ↦ subst (λ k. compare_bytes key k ≡ Ordering.lt) (compare_eq p.key q.key d) c
        | is_gt d ↦ absurd (order.0 d)
      ] in
    (Above-live key (q ∷ qs) q qs refl l.0 below, All-Above key p ps v c h.1 l.1)

-- behind a first iterator, none is below its key
pub none_below :
    (p : Pair) (ps : List Pair) (v : List IteratorPair)
    → All (λ y. heap_comp (p ∷ ps) y ≡ false) v
    → All IsLive v
    → All (NotBelow p.key) v
none_below p ps [] h l = tt
none_below p ps ([] ∷ v) h l = absurd l.0
none_below p ps ((q ∷ qs) ∷ v) h l =
    ((heap_comp-order p ps q qs l.0.1.0 h.0).0, none_below p ps v h.1 l.1)

-- an iterator that moves on keeps the other keys
pub lookup-rest :
    (p : Pair) (ps : List Pair) (key : Bytes)
    → same_key p.key key ≡ false
    → lookup (p ∷ ps) key ≡ lookup ps key
unfolding lookup
lookup-rest p ps key h = rw h refl

pub back-snoc : (v : List IteratorPair) (x : IteratorPair) → back (v ++ (x ∷ [])) ≡ x
back-snoc [] x = refl
back-snoc (y ∷ []) x = refl
back-snoc (y ∷ z ∷ v) x = back-snoc (z ∷ v) x

pub pop_back-snoc : (v : List IteratorPair) (x : IteratorPair) → pop_back (v ++ (x ∷ [])) ≡ v
pop_back-snoc [] x = refl
pop_back-snoc (y ∷ []) x = refl
pop_back-snoc (y ∷ z ∷ v) x = ap (λ w. y ∷ w) (pop_back-snoc (z ∷ v) x)
