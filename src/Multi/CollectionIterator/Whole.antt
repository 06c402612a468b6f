-- ===== src/Multi/CollectionIterator/Whole.antt =====
-- The pass of hm4/multi/collectioniterator.h over whole lists, from its constructor to the end.
use hm.Prelude.{
  ℕ, ◌<◌, List, [], ◌∷◌, Option, none, some, All, ◌≡◌, ◌↔◌, refl, sym, ◌∙◌, ap, arith, ◌⊎◌, inl,
  inr,
}
use native.Mathlib.Decide.{dec_lt}
use hm.Bytes.{Bytes}
use hm.Pair.{Pair}
use hm.VectorList.Sorted.{IsSorted, lookup}
use hm.Multi.DualIterator.Merge.{HasKeys}
use hm.Multi.Newest.{Has, Dominates, NoTies, newest_of, newest_of_unique, newest_of-All}
use hm.Multi.CollectionIterator.{IteratorPair, Heap, not_ended, make, walk}
use hm.Multi.CollectionIterator.Holds.{Holds, IsLive, total, All-perm, Holds-perm, total-perm}
use hm.Multi.CollectionIterator.Merge.{Shows, walk-IsMerge}
use mathlib.Core.List.Permᴰ

-- what each of the lists has for a key
unfoldable pub lookups : List IteratorPair → Bytes → List (Option Pair)
lookups [] key = []
lookups (l ∷ lists) key = lookup l key ∷ lookups lists key

not_ended-IsLive :
    (lists : List IteratorPair)
    → All IsSorted lists
    → All HasKeys lists
    → All IsLive (not_ended lists)
unfolding not_ended
not_ended-IsLive [] s k = tt
not_ended-IsLive ([] ∷ lists) s k = not_ended-IsLive lists s.1 k.1
not_ended-IsLive ((p ∷ ps) ∷ lists) s k = ((s.0, k.0), not_ended-IsLive lists s.1 k.1)

not_ended-total : (lists : List IteratorPair) → total (not_ended lists) ≡ total lists
unfolding not_ended
not_ended-total [] = refl
not_ended-total ([] ∷ lists) = omega (arith, not_ended-total lists)
not_ended-total ((p ∷ ps) ∷ lists) = omega (arith, not_ended-total lists)

not_ended-Holds :
    (key : Bytes) (q : Pair) (lists : List IteratorPair)
    → Holds (not_ended lists) key q ↔ Has q (lookups lists key)
unfolding not_ended lookups lookup
not_ended-Holds key q [] = (λ h. h, λ h. h)
not_ended-Holds key q ([] ∷ lists) =
    let ih = not_ended-Holds key q lists in
    (
      λ h. inr (ih.0 h),
      λ h. elim h [ inl e ↦ absurd (let no : none ≡ some q = e in cc) | inr r ↦ ih.1 r ],
    )
not_ended-Holds key q ((p ∷ ps) ∷ lists) =
    let ih = not_ended-Holds key q lists in
    (
      λ h. elim h [ inl e ↦ inl e | inr r ↦ inr (ih.0 r) ],
      λ h. elim h [ inl e ↦ inl e | inr r ↦ inr (ih.1 r) ],
    )

-- Where nothing is found, all of the lists have nothing.
Has-none : (os : List (Option Pair)) → ((q : Pair) → ¬ Has q os) → All (λ o. o ≡ none) os
Has-none [] h = tt
Has-none (none ∷ os) h = (refl, Has-none os (λ q m. h q (inr m)))
Has-none (some p ∷ os) h = absurd (h p (inl refl))

Has-Dominates :
    (p : Pair) (os : List (Option Pair))
    → ((q : Pair) → Has q os → (q ≡ p) ⊎ (q.created < p.created))
    → Dominates p os
Has-Dominates p [] h = tt
Has-Dominates p (none ∷ os) h = (inr tt, Has-Dominates p os (λ q m. h q (inr m)))
Has-Dominates p (some r ∷ os) h = (
  elim (h r (inl refl)) [ inl e ↦ inl (ap some e) | inr l ↦ inr l ],
  Has-Dominates p os (λ q m. h q (inr m)),
)

module _ (heap : Heap) where
  open heap use {make_heap, make_perm, make_is_heap}

  make-Holds :
      (key : Bytes) (q : Pair) (lists : List IteratorPair)
      → Holds (make heap lists) key q ↔ Has q (lookups lists key)
  unfolding make
  make-Holds key q lists =
      let p = make_perm (not_ended lists) in
      let n = not_ended-Holds key q lists in
      (λ h. n.0 (Holds-perm key q p h), λ h. Holds-perm key q (Permᴰ.symm p) (n.1 h))

  Shows-newest :
      (key : Bytes) (lists : List IteratorPair) (o : Option Pair)
      → NoTies (lookups lists key)
      → Shows (make heap lists) key o
      → o ≡ newest_of none (lookups lists key)
  Shows-newest key lists none t s = sym (
      newest_of-All (lookups lists key)
        (Has-none (lookups lists key) (λ q m. s q ((make-Holds key q lists).1 m))))
  Shows-newest key lists (some p) t s =
      let has = (make-Holds key p lists).0 s.0 in
      sym (
        newest_of_unique p (lookups lists key)
          (Has-Dominates p (lookups lists key) (λ q m.
            let le = s.1 q ((make-Holds key q lists).1 m) in
            elim (dec_lt q.created p.created) [
              | yes l ↦ inr l
              | no n ↦ inl (t q p m has (omega (arith, n, le)))
            ]))
          has)

  -- The pass over any number of sorted lists ends, and what it shows ascends and is for each key
  -- the newest of the pairs that the lists have for it, if no two lists have different pairs for a key
  -- that were created at the same time.
  pub traverse_newest :
      (fuel limit : ℕ) (lists : List IteratorPair)
      → total lists < fuel
      → total lists < limit
      → All IsSorted lists
      → All HasKeys lists
      → ((key : Bytes) → NoTies (lookups lists key))
      → (out : List Pair) × (walk heap limit fuel (make heap lists) ≡ some out)
        × IsSorted out
        × ((key : Bytes) → lookup out key ≡ newest_of none (lookups lists key))
  unfolding make
  traverse_newest fuel limit lists n m s k t =
      let p = make_perm (not_ended lists) in
      let size : total (make heap lists) ≡ total lists = total-perm p ∙ not_ended-total lists in
      let live : All IsLive (make heap lists) =
        All-perm IsLive (Permᴰ.symm p) (not_ended-IsLive lists s k) in
      let (out, w, merged) =
        walk-IsMerge heap fuel limit (make heap lists) (omega (arith, size, n))
          (omega (arith, size, m)) (make_is_heap (not_ended lists)) live in
      (
        out,
        w,
        merged.sorted,
        λ key. Shows-newest key lists (lookup out key) (t key) (merged.shows key),
      )
