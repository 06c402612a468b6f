-- ===== src/Multi/CollectionIterator/Holds.antt =====
-- Which pairs the iterators of hm4/multi/collectioniterator.h have left.
use mathlib.Core.List.{Permᴰ}
use hm.Prelude.{
  ℕ, ◌+◌, List, [], ◌∷◌, ◌++◌, some, length, All, ◌≡◌, ◌↔◌, refl, sym, ◌∙◌, ap, subst, arith, ◌⊎◌,
  inl, inr,
}
use hm.Bytes.{Bytes}
use hm.Pair.{Pair}
use hm.VectorList.Sorted.{IsSorted, lookup}
use hm.Multi.DualIterator.Merge.{HasKeys}
use hm.Multi.CollectionIterator.{IteratorPair}

-- one of the iterators has the pair for the key
abbrev pub Holds : List IteratorPair → Bytes → Pair → Type 0
Holds [] key q = ⊥
Holds (l ∷ v) key q = (lookup l key ≡ some q) ⊎ Holds v key q

-- what an iterator that is not at its end has left is sorted, with valid keys
abbrev pub IsLive : IteratorPair → Type 0
IsLive [] = ⊥
IsLive (p ∷ ps) = IsSorted (p ∷ ps) × HasKeys (p ∷ ps)

-- the number of pairs left
abbrev pub total : List IteratorPair → ℕ
total [] = 0
total (l ∷ v) = length l + total v

pub All-perm : (P : IteratorPair → Type 0) {u v : List IteratorPair} → Permᴰ u v → All P u → All P v
All-perm P Permᴰ.nil h = tt
All-perm P (Permᴰ.cons e p) h = (subst P e h.0, All-perm P p h.1)
All-perm P (Permᴰ.swap e f) h = (subst P f h.1.0, (subst P e h.0, h.1.1))
All-perm P (Permᴰ.trans p q) h = All-perm P q (All-perm P p h)

pub Holds-perm :
    (key : Bytes) (q : Pair) {u v : List IteratorPair} → Permᴰ u v → Holds u key q → Holds v key q
Holds-perm key q Permᴰ.nil h = h
Holds-perm key q (Permᴰ.cons e p) (inl h) = inl (ap (λ l. lookup l key) (sym e) ∙ h)
Holds-perm key q (Permᴰ.cons e p) (inr h) = inr (Holds-perm key q p h)
Holds-perm key q (Permᴰ.swap e f) (inl h) = inr (inl (ap (λ l. lookup l key) (sym e) ∙ h))
Holds-perm key q (Permᴰ.swap e f) (inr (inl h)) = inl (ap (λ l. lookup l key) (sym f) ∙ h)
Holds-perm key q (Permᴰ.swap e f) (inr (inr h)) = inr (inr h)
Holds-perm key q (Permᴰ.trans a b) h = Holds-perm key q b (Holds-perm key q a h)

pub total-perm : {u v : List IteratorPair} → Permᴰ u v → total u ≡ total v
total-perm Permᴰ.nil = refl
total-perm (Permᴰ.cons e p) = omega (arith, ap length e, total-perm p)
total-perm (Permᴰ.swap e f) = omega (arith, ap length e, ap length f)
total-perm (Permᴰ.trans p q) = total-perm p ∙ total-perm q

-- one more iterator at the back
pub Holds-snoc :
    (key : Bytes) (q : Pair) (v : List IteratorPair) (x : IteratorPair)
    → Holds (v ++ (x ∷ [])) key q ↔ Holds (x ∷ v) key q
Holds-snoc key q [] x = (λ h. h, λ h. h)
Holds-snoc key q (y ∷ v) x =
    let ih = Holds-snoc key q v x in
    (
      λ h. elim h [
        | inl e ↦ inr (inl e)
        | inr r ↦ elim (ih.0 r) [ inl e ↦ inl e | inr m ↦ inr (inr m) ]
      ],
      λ h. elim h [
        | inl e ↦ inr (ih.1 (inl e))
        | inr r ↦ elim r [ inl e ↦ inl e | inr m ↦ inr (ih.1 (inr m)) ]
      ],
    )

pub All-snoc :
    (P : IteratorPair → Type 0) (v : List IteratorPair) (x : IteratorPair)
    → All P v
    → P x
    → All P (v ++ (x ∷ []))
All-snoc P [] x h p = (p, tt)
All-snoc P (y ∷ v) x h p = (h.0, All-snoc P v x h.1 p)

pub total-snoc :
    (v : List IteratorPair) (x : IteratorPair) → total (v ++ (x ∷ [])) ≡ total v + length x
total-snoc [] x = omega arith
total-snoc (y ∷ v) x = omega (arith, total-snoc v x)
