-- ===== src/Multi/CollectionIterator/Step.antt =====
-- What increment_ of hm4/multi/collectioniterator.h does: it leaves the key that it stands at, and no
-- other.
use mathlib.Core.List.Permᴰ
use mathlib.Core.List.{Permᴰ}
use hm.Prelude.{
  ℕ, zero, suc, ◌<◌, List, [], ◌∷◌, ◌++◌, true, false, Option, none, some, Ordering, All, ◌≡◌, ◌↔◌,
  refl, sym, ◌∙◌, ap, subst, arith, inl, inr, Bool-cases, Ordering-cases, is_lt, is_eq, is_gt,
}
use hm.Bytes.{Bytes, compare_bytes, equals_bytes}
use hm.Bytes.Order.{compare_eq}
use hm.Pair.{Pair}
use hm.MisraGries.Slots.{equals-eq, equals_refl}
use hm.VectorList.Sorted.{Above, Above-trans, lookup, same_key}
use hm.Multi.CollectionIterator.{IteratorPair, Heap, back, key_of, leave, advance, increment}
use hm.Multi.CollectionIterator.Holds.{
  Holds, IsLive, total, All-perm, Holds-perm, total-perm, Holds-snoc, All-snoc, total-snoc,
}
use hm.Multi.CollectionIterator.Order.{
  NotBelow, NotBelow-Above, All-Above, none_below, lookup-rest, back-snoc, pop_back-snoc,
}

module _ (heap : Heap) where
  open heap use {IsHeap, pop_heap, push_heap}

  -- the same keys but one are left
  abbrev pub SameBut : Bytes → List IteratorPair → List IteratorPair → Type 0
  SameBut key new old =
      (k : Bytes) (q : Pair) → same_key key k ≡ false → Holds new k q ↔ Holds old k q

  -- what a round leaves
  pub record Moved (key : Bytes) (old new : List IteratorPair) : Type 0 where
    pub is_heap : IsHeap new
    pub live : All IsLive new
    pub not_below : All (NotBelow key) new
    pub same : SameBut key new old
    pub fewer : total new < total old

  Moved-end :
      (p : Pair) (v r : List IteratorPair)
      → IsHeap r
      → Permᴰ r v
      → All IsLive v
      → All (NotBelow p.key) v
      → Moved p.key ((p ∷ []) ∷ v) r
  unfolding lookup
  Moved-end p v r h perm l n = record {
    is_heap = h;
    live = All-perm IsLive (Permᴰ.symm perm) l;
    not_below = All-perm (NotBelow p.key) (Permᴰ.symm perm) n;
    same = λ k q d. (
      λ m. inr (Holds-perm k q perm m),
      λ m. elim m [
        | inl e ↦ absurd (let no : none ≡ some q = sym (lookup-rest p [] k d) ∙ e in cc)
        | inr o ↦ Holds-perm k q (Permᴰ.symm perm) o
      ],
    );
    fewer = omega (arith, total-perm perm);
  }

  Moved-on :
      (p p' : Pair) (ps : List Pair) (v r w : List IteratorPair)
      → IsHeap w
      → Permᴰ w (r ++ ((p' ∷ ps) ∷ []))
      → Permᴰ r v
      → IsLive (p ∷ p' ∷ ps)
      → All IsLive v
      → All (NotBelow p.key) v
      → Moved p.key ((p ∷ p' ∷ ps) ∷ v) w
  Moved-on p p' ps v r w h pushed perm x l n = record {
    is_heap = h;
    live =
        All-perm IsLive (Permᴰ.symm pushed)
          (All-snoc IsLive r (p' ∷ ps) (All-perm IsLive (Permᴰ.symm perm) l) (x.0.1, x.1.1));
    not_below = All-perm (NotBelow p.key) (Permᴰ.symm pushed) (
        All-snoc (NotBelow p.key) r (p' ∷ ps) (All-perm (NotBelow p.key) (Permᴰ.symm perm) n)
          (NotBelow-Above p.key (p' ∷ ps) x.0.0));
    same = λ k q d.
        let e = lookup-rest p (p' ∷ ps) k d in
        (
          λ m. elim ((Holds-snoc k q r (p' ∷ ps)).0 (Holds-perm k q pushed m)) [
            | inl f ↦ inl (e ∙ f)
            | inr o ↦ inr (Holds-perm k q perm o)
          ],
          λ m. Holds-perm k q (Permᴰ.symm pushed) (
              (Holds-snoc k q r (p' ∷ ps)).1 (elim m [
                | inl f ↦ inl (sym e ∙ f)
                | inr o ↦ inr (Holds-perm k q (Permᴰ.symm perm) o)
              ])),
        );
    fewer = omega (arith, total-perm pushed, total-perm perm, total-snoc r (p' ∷ ps));
  }

  advance-end : (p : Pair) (r : List IteratorPair) → advance heap (r ++ ((p ∷ []) ∷ [])) ≡ r
  unfolding advance
  advance-end p r = rw (advance, back-snoc r (p ∷ [])) (pop_back-snoc r (p ∷ []))

  advance-on :
      (p p' : Pair) (ps : List Pair) (r : List IteratorPair)
      → advance heap (r ++ ((p ∷ p' ∷ ps) ∷ [])) ≡ push_heap (r ++ ((p' ∷ ps) ∷ []))
  unfolding advance
  advance-on p p' ps r =
      rw (advance, back-snoc r (p ∷ p' ∷ ps))
        (ap (λ t. push_heap (t ++ ((p' ∷ ps) ∷ []))) (pop_back-snoc r (p ∷ p' ∷ ps)))

  -- the iterator in front moves on
  advance-Moved :
      (p : Pair) (ps : List Pair) (v : List IteratorPair)
      → IsHeap ((p ∷ ps) ∷ v)
      → IsLive (p ∷ ps)
      → All IsLive v
      → (back (pop_heap ((p ∷ ps) ∷ v)) ≡ p ∷ ps)
        × Moved p.key ((p ∷ ps) ∷ v) (advance heap (pop_heap ((p ∷ ps) ∷ v)))
  advance-Moved p [] v h x l =
      let (r, e, perm, hr) = heap.pop_front (p ∷ []) v h in
      let n = none_below p [] v (heap.front (p ∷ []) v h) l in
      (
        ap back e ∙ back-snoc r (p ∷ []),
        subst (Moved p.key ((p ∷ []) ∷ v)) (sym (ap (advance heap) e ∙ advance-end p r))
            (Moved-end p v r hr perm l n),
      )
  advance-Moved p (p' ∷ ps) v h x l =
      let (r, e, perm, hr) = heap.pop_front (p ∷ p' ∷ ps) v h in
      let n = none_below p (p' ∷ ps) v (heap.front (p ∷ p' ∷ ps) v h) l in
      let w = push_heap (r ++ ((p' ∷ ps) ∷ [])) in
      (
        ap back e ∙ back-snoc r (p ∷ p' ∷ ps),
        subst (Moved p.key ((p ∷ p' ∷ ps) ∷ v)) (sym (ap (advance heap) e ∙ advance-on p p' ps r)) (
            Moved-on p p' ps v r w (heap.push_is_heap r (p' ∷ ps) hr)
              (heap.push_perm (r ++ ((p' ∷ ps) ∷ []))) perm x l n),
      )

  -- what increment_ leaves when it ends
  pub record Left (key : Bytes) (old new : List IteratorPair) : Type 0 where
    pub is_heap : IsHeap new
    pub live : All IsLive new
    pub above : All (Above key) new
    pub same : SameBut key new old
    pub fewer : total new < total old

  abbrev pub Leaves : Bytes → List IteratorPair → Option (List IteratorPair) → Type 0
  Leaves key old o = (new : List IteratorPair) × (o ≡ some new) × Left key old new

  -- the rounds behind a first one
  Leaves-trans :
      (key : Bytes) (old mid : List IteratorPair) (o : Option (List IteratorPair))
      → SameBut key mid old
      → total mid < total old
      → Leaves key mid o
      → Leaves key old o
  Leaves-trans key old mid o same fewer (new, e, l) = (
    new,
    e,
    record {
      is_heap = l.is_heap;
      live = l.live;
      above = l.above;
      same = λ k q d.
          let a = l.same k q d in let b = same k q d in (λ m. b.0 (a.0 m), λ m. a.1 (b.1 m));
      fewer = omega (arith, l.fewer, fewer);
    },
  )

  leave-Leaves :
      (key : Bytes) (old itp : List IteratorPair) (again : Option (List IteratorPair))
      → Moved key old itp
      → ((r : Pair) (rs : List Pair) (w : List IteratorPair)
          → itp ≡ (r ∷ rs) ∷ w
          → key ≡ r.key
          → Leaves key itp again)
      → Leaves key old (leave key itp again)
  unfolding leave
  leave-Leaves key old [] again m more = (
    [],
    refl,
    record { is_heap = m.is_heap; live = tt; above = tt; same = m.same; fewer = m.fewer },
  )
  leave-Leaves key old ([] ∷ w) again m more = absurd (m.live.0)
  leave-Leaves key old ((r ∷ rs) ∷ w) again m more = elim (Bool-cases (equals_bytes key r.key)) [
    | inl e ↦ rw e (
        Leaves-trans key old ((r ∷ rs) ∷ w) again m.same m.fewer
          (more r rs w refl (equals-eq key r.key e)))
    | inr e ↦
        let c : compare_bytes key r.key ≡ Ordering.lt =
          elim (Ordering-cases (compare_bytes key r.key)) [
            | is_lt d ↦ d
            | is_gt d ↦ absurd (m.not_below.0 d)
            | is_eq d ↦
                let same : equals_bytes key r.key ≡ true =
                  ap (equals_bytes key) (sym (compare_eq key r.key d)) ∙ equals_refl key in
                cc
          ] in
        rw e (
          (r ∷ rs) ∷ w,
          refl,
          record {
            is_heap = m.is_heap;
            live = m.live;
            above = (
              (c, Above-trans key r.key rs c m.live.0.0.0),
              All-Above key r rs w c (heap.front (r ∷ rs) w m.is_heap) m.live.1,
            );
            same = m.same;
            fewer = m.fewer;
          },
        )
  ]

  -- increment_ ends, and what it leaves are the other keys, all above the one that it stood at
  pub increment-Leaves :
      (fuel : ℕ) (p : Pair) (ps : List Pair) (v : List IteratorPair)
      → total ((p ∷ ps) ∷ v) < fuel
      → IsHeap ((p ∷ ps) ∷ v)
      → All IsLive ((p ∷ ps) ∷ v)
      → Leaves p.key ((p ∷ ps) ∷ v) (increment heap fuel ((p ∷ ps) ∷ v))
  unfolding increment
  increment-Leaves zero p ps v n h l = absurd (omega (arith, n))
  increment-Leaves (suc fuel) p ps v n h l =
      let (stood, moved) = advance-Moved p ps v h l.0 l.1 in
      let itp = advance heap (pop_heap ((p ∷ ps) ∷ v)) in
      let again = increment heap fuel itp in
      let key : key_of (back (pop_heap ((p ∷ ps) ∷ v))) ≡ p.key = ap key_of stood in
      subst (λ k. Leaves p.key ((p ∷ ps) ∷ v) (leave k itp again)) (sym key)
        (leave-Leaves p.key ((p ∷ ps) ∷ v) itp again moved (λ r rs w e same.
          let size : total ((r ∷ rs) ∷ w) < fuel = omega (arith, ap total e, moved.fewer, n) in
          let next =
            increment-Leaves fuel r rs w size (subst IsHeap e moved.is_heap)
              (subst (All IsLive) e moved.live) in
          subst (λ k. Leaves k itp again) (sym same)
            (subst (λ t. Leaves r.key t (increment heap fuel t)) (sym e) next)))
