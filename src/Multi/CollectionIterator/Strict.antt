-- ===== src/Multi/CollectionIterator/Strict.antt =====
-- heap_comp of hm4/multi/collectioniterator.h is a strict order, as the heap of <algorithm> needs it,
-- whatever the keys are.
use hm.Prelude.{
  ◌<◌, List, [], ◌∷◌, true, Ordering, ◌≡◌, ◌≢◌, refl, sym, ◌∙◌, ap, subst, arith, ◌⊎◌, inl, inr,
  Ordering-cases, is_lt, is_eq, is_gt,
}
use hm.Bytes.{Bytes, compare_bytes}
use hm.Bytes.Order.{compare_eq, compare_refl, compare_trans}
use hm.Pair.{Pair, cmp}
use hm.VectorList.Sorted.{gt-lt, lt-gt}
use hm.Multi.CollectionIterator.{IteratorPair, heap_comp}

-- `a` is behind `b`: its key is above, or the same and older
abbrev pub Behind : Pair → Pair → Type 0
Behind a b = (compare_bytes b.key a.key ≡ Ordering.lt) ⊎ ((b.key ≡ a.key) × (a.created < b.created))

Behind-trans : (a b c : Pair) → Behind a b → Behind b c → Behind a c
Behind-trans a b c (inl h) (inl k) = inl (compare_trans c.key b.key a.key k h)
Behind-trans a b c (inl h) (inr k) =
    inl (subst (λ t. compare_bytes t a.key ≡ Ordering.lt) (sym k.0) h)
Behind-trans a b c (inr h) (inl k) = inl (subst (λ t. compare_bytes c.key t ≡ Ordering.lt) h.0 k)
Behind-trans a b c (inr h) (inr k) = inr (k.0 ∙ h.0, omega (arith, h.1, k.1))

cmp_of_nonempty : (p : Pair) (key : Bytes) → key ≢ [] → cmp p key ≡ compare_bytes p.key key
unfolding cmp
cmp_of_nonempty p [] h = absurd (h refl)
cmp_of_nonempty p (c ∷ key) h = refl

heap_comp-nonempty :
    (p : Pair) (ps : List Pair) (q : Pair) (qs : List Pair)
    → heap_comp (p ∷ ps) (q ∷ qs) ≡ true
    → q.key ≢ []
unfolding heap_comp cmp
heap_comp-nonempty p ps q qs h e =
    let c : cmp p q.key ≡ Ordering.lt = ap (cmp p) e in absurd (ground (arith, c, h))

pub heap_comp-Behind :
    (p : Pair) (ps : List Pair) (q : Pair) (qs : List Pair)
    → heap_comp (p ∷ ps) (q ∷ qs) ≡ true
    → Behind p q
unfolding heap_comp
heap_comp-Behind p ps q qs h =
    let c = cmp_of_nonempty p q.key (heap_comp-nonempty p ps q qs h) in
    elim (Ordering-cases (compare_bytes p.key q.key)) [
      | is_gt d ↦ inl (gt-lt p.key q.key d)
      | is_eq d ↦ inr (sym (compare_eq p.key q.key d), ground (arith, c, d, h))
      | is_lt d ↦ absurd (ground (arith, c, d, h))
    ]

Behind-heap_comp :
    (p : Pair) (ps : List Pair) (q : Pair) (qs : List Pair)
    → q.key ≢ []
    → Behind p q
    → heap_comp (p ∷ ps) (q ∷ qs) ≡ true
unfolding heap_comp
Behind-heap_comp p ps q qs n (inl h) =
    ground (arith, cmp_of_nonempty p q.key n, lt-gt q.key p.key h)
Behind-heap_comp p ps q qs n (inr h) =
    let same : compare_bytes p.key q.key ≡ Ordering.eq =
      subst (λ t. compare_bytes t q.key ≡ Ordering.eq) h.0 (compare_refl q.key) in
    ground (arith, cmp_of_nonempty p q.key n, same, h.1)

not_behind_end : (a : IteratorPair) → heap_comp a [] ≢ true
unfolding heap_comp
not_behind_end [] h = absurd (cc)
not_behind_end (p ∷ ps) h = absurd (cc)

pub heap_comp_trans :
    (a b c : IteratorPair) → heap_comp a b ≡ true → heap_comp b c ≡ true → heap_comp a c ≡ true
unfolding heap_comp
heap_comp_trans a b [] h k = absurd (not_behind_end b k)
heap_comp_trans a [] (r ∷ rs) h k = absurd (not_behind_end a h)
heap_comp_trans [] (q ∷ qs) (r ∷ rs) h k = refl
heap_comp_trans (p ∷ ps) (q ∷ qs) (r ∷ rs) h k =
    Behind-heap_comp p ps r rs (heap_comp-nonempty q qs r rs k)
      (Behind-trans p q r (heap_comp-Behind p ps q qs h) (heap_comp-Behind q qs r rs k))

pub heap_comp_irrefl : (a : IteratorPair) → heap_comp a a ≢ true
unfolding heap_comp
heap_comp_irrefl [] h = not_behind_end [] h
heap_comp_irrefl (p ∷ ps) h = elim (heap_comp-Behind p ps p ps h) [
  | inl e ↦ let no : Ordering.lt ≡ Ordering.eq = sym e ∙ compare_refl p.key in absurd (cc)
  | inr e ↦ absurd (omega (arith, e.1))
]
