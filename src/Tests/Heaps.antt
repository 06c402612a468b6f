-- ===== src/Tests/Heaps.antt =====
-- A heap, and the pass over many lists with it.
use mathlib.Core.List.Permᴰ
use mathlib.Core.List.{Permᴰ}
use hm.Prelude.{
  ◌<◌, ◌≤◌, List, [], ◌∷◌, ◌++◌, true, false, none, some, All, ◌≡◌, refl, sym, ◌∙◌, ap, subst,
  arith, ◌⊎◌, inl, inr, if◌then◌else◌, Bool-cases,
}
use hm.Bytes.{Bytes, compare_bytes}
use hm.Pair.{Pair, cmp}
use hm.VectorList.Sorted.{IsSorted, lookup, same_key}
use hm.Multi.Newest.{NoTies, newest_of}
use hm.Multi.CollectionIterator.{IteratorPair, Heap, heap_comp, make, increment, walk}
use hm.Multi.CollectionIterator.Strict.{heap_comp_trans, heap_comp_irrefl}
use hm.Multi.CollectionIterator.Whole.{lookups, traverse_newest}
use hm.Tests.Data.{pair_a, pair_a_later, pair_b, pair_c}

-- one more behind the first
abbrev behind_first : IteratorPair → List IteratorPair → List IteratorPair
behind_first x [] = x ∷ []
behind_first x (m ∷ r) = m ∷ x ∷ r

-- the first of `b` and `v`, and then the others
abbrev choose : IteratorPair → List IteratorPair → List IteratorPair
choose b [] = b ∷ []
choose b (y ∷ v) =
    let change = behind_first b (choose y v) in
    let keep = behind_first y (choose b v) in if heap_comp b y then change else keep

abbrev reheap : List IteratorPair → List IteratorPair
reheap [] = []
reheap (b ∷ v) = choose b v

abbrev pop_first : List IteratorPair → List IteratorPair
pop_first [] = []
pop_first (x ∷ v) = reheap v ++ (x ∷ [])

abbrev IsFirst : List IteratorPair → Type 0
IsFirst [] = Unit
IsFirst (x ∷ v) = All (λ y. heap_comp x y ≡ false) v

record Chosen (b : IteratorPair) (v w : List IteratorPair) : Type 0 where
  first : IteratorPair
  others : List IteratorPair
  found : w ≡ first ∷ others
  perm : Permᴰ (first ∷ others) (b ∷ v)
  better : (b ≡ first) ⊎ (heap_comp b first ≡ true)
  no_better : All (λ y. heap_comp first y ≡ false) others

-- not both ways
one_way : (a b : IteratorPair) → heap_comp a b ≡ true → heap_comp b a ≡ false
one_way a b h = elim (Bool-cases (heap_comp b a)) [
  | inl k ↦ absurd (heap_comp_irrefl a (heap_comp_trans a b a h k))
  | inr k ↦ k
]

-- what `b` is not behind, the first is not
still_first :
    (b m y : IteratorPair)
    → (b ≡ m) ⊎ (heap_comp b m ≡ true)
    → heap_comp b y ≡ false
    → heap_comp m y ≡ false
still_first b m y (inl e) h = subst (λ t. heap_comp t y ≡ false) e h
still_first b m y (inr e) h = elim (Bool-cases (heap_comp m y)) [
  | inl k ↦ let t = heap_comp_trans b m y e k in absurd (let no : true ≡ false = sym t ∙ h in cc)
  | inr k ↦ k
]

choose-Chosen : (b : IteratorPair) (v : List IteratorPair) → Chosen b v (choose b v)
choose-Chosen b [] = record {
  first = b;
  others = [];
  found = refl;
  perm = Permᴰ.refl (b ∷ []);
  better = inl refl;
  no_better = tt;
}
choose-Chosen b (y ∷ v) = elim (Bool-cases (heap_comp b y)) [
  | inl h ↦
      let c = choose-Chosen y v in
      let up : heap_comp b c.first ≡ true = elim c.better [
        | inl e ↦ subst (λ t. heap_comp b t ≡ true) e h
        | inr k ↦ heap_comp_trans b y c.first h k
      ] in
      rw h (record {
        first = c.first;
        others = b ∷ c.others;
        found = ap (behind_first b) c.found;
        perm = Permᴰ.trans (Permᴰ.swap refl refl) (Permᴰ.cons refl c.perm);
        better = inr up;
        no_better = (one_way b c.first up, c.no_better);
      })
  | inr h ↦
      let c = choose-Chosen b v in
      rw h (record {
        first = c.first;
        others = y ∷ c.others;
        found = ap (behind_first y) c.found;
        perm =
            Permᴰ.trans (Permᴰ.swap refl refl)
              (Permᴰ.trans (Permᴰ.cons refl c.perm) (Permᴰ.swap refl refl));
        better = c.better;
        no_better = (still_first b c.first y c.better h, c.no_better);
      })
]

reheap-perm : (v : List IteratorPair) → Permᴰ (reheap v) v
reheap-perm [] = Permᴰ.nil
reheap-perm (b ∷ v) = let c = choose-Chosen b v in subst (λ w. Permᴰ w (b ∷ v)) (sym c.found) c.perm

reheap-IsFirst : (v : List IteratorPair) → IsFirst (reheap v)
reheap-IsFirst [] = tt
reheap-IsFirst (b ∷ v) = let c = choose-Chosen b v in subst IsFirst (sym c.found) c.no_better

abbrev selection : Heap
selection = record {
  make_heap = reheap;
  push_heap = reheap;
  pop_heap = pop_first;
  IsHeap = IsFirst;
  make_perm = reheap-perm;
  make_is_heap = reheap-IsFirst;
  push_perm = reheap-perm;
  push_is_heap = λ v x h. reheap-IsFirst (v ++ (x ∷ []));
  front = λ x v h. h;
  pop_front = λ x v h. (reheap v, refl, reheap-perm v, reheap-IsFirst v);
}

-- a memory list and two tables, of which one is empty
abbrev lists : List IteratorPair
lists = (pair_a_later ∷ []) ∷ [] ∷ (pair_a ∷ pair_b ∷ pair_c ∷ []) ∷ []

walk-lists : walk selection 5 5 (make selection lists) ≡ some (pair_a_later ∷ pair_b ∷ pair_c ∷ [])
unfolding walk make heap_comp cmp compare_bytes increment
walk-lists = refl

lookup-All :
    (P : Pair → Type 0) (ps : List Pair) (key : Bytes) (p : Pair)
    → All P ps
    → lookup ps key ≡ some p
    → P p
unfolding lookup
lookup-All P [] key p a h = absurd (cc)
lookup-All P (q ∷ ps) key p a h = elim (Bool-cases (same_key q.key key)) [
  | inl e ↦ let same : q ≡ p = ground (arith, e, h) in subst P same a.0
  | inr e ↦ lookup-All P ps key p a.1 (ground (arith, e, h))
]

newer :
    (key : Bytes) (p : Pair)
    → lookup (pair_a_later ∷ []) key ≡ some p
    → 7301444441854955664 ≤ p.created
newer key p h =
    lookup-All (λ q. 7301444441854955664 ≤ q.created) (pair_a_later ∷ []) key p (omega arith, tt) h

older :
    (key : Bytes) (p : Pair)
    → lookup (pair_a ∷ pair_b ∷ pair_c ∷ []) key ≡ some p
    → p.created < 7301444441854955664
older key p h =
    lookup-All (λ q. q.created < 7301444441854955664) (pair_a ∷ pair_b ∷ pair_c ∷ []) key p
      (omega arith, (omega arith, (omega arith, tt))) h

lists-NoTies : (key : Bytes) → NoTies (lookups lists key)
unfolding lookups lookup
lists-NoTies key p q (inl h) (inl k) e = ground (arith, sym h ∙ k)
lists-NoTies key p q (inl h) (inr (inl k)) e = absurd (cc)
lists-NoTies key p q (inl h) (inr (inr (inl k))) e =
    absurd (omega (arith, newer key p h, older key q k, e))
lists-NoTies key p q (inl h) (inr (inr (inr n))) e = absurd n
lists-NoTies key p q (inr (inr (inl h))) (inr (inr (inr n))) e = absurd n
lists-NoTies key p q (inr (inr (inr n))) k e = absurd n
lists-NoTies key p q (inr (inl h)) k e = absurd (cc)
lists-NoTies key p q (inr (inr (inl h))) (inl k) e =
    absurd (omega (arith, newer key q k, older key p h, e))
lists-NoTies key p q (inr (inr (inl h))) (inr (inl k)) e = absurd (cc)
lists-NoTies key p q (inr (inr (inl h))) (inr (inr (inl k))) e = ground (arith, sym h ∙ k)

traverse_newest_example :
    (out : List Pair) × (walk selection 5 5 (make selection lists) ≡ some out)
    × IsSorted out
    × ((key : Bytes) → lookup out key ≡ newest_of none (lookups lists key))
unfolding compare_bytes
traverse_newest_example =
    traverse_newest selection 5 5 lists (omega arith) (omega arith)
      ((tt, tt), (tt, (((refl, (refl, tt)), ((refl, tt), (tt, tt))), tt)))
      ((refl, tt), (tt, ((refl, (refl, (refl, tt))), tt))) lists-NoTies
