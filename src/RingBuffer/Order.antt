-- ===== src/RingBuffer/Order.antt =====
-- include/ringbuffer.h: the order in which pop takes the items.
use hm.Prelude.{
  ℕ, zero, suc, ◌+◌, ◌<◌, ◌≤◌, List, [], ◌∷◌, Bool, true, false, ltb, ◌==◌, ◌&&◌, not, get_or, set,
  length-set, get_or-set_self, get_or-set_ne, if◌then◌else◌, ◌≡◌, ◌≢◌, refl, sym, ◌∙◌, ap, arith,
  Bool-cases, inl, inr, ◌⊎◌,
}
use hm.RingBuffer.{
  Item, RingBuffer, no_item, is_item, clr_item, get_item, slot, next_index, check, count, pop, walk,
  for_each,
}
use hm.RingBuffer.Queue.{distance, count_of, IsValid}

taken_step :
    (size h t : ℕ) (u o w : Bool)
    → h < size
    → t < size
    → 0 < count_of size h t u
    → w ≡ (if next_index size 0 t == t then false else o)
    → o ≡ ltb (distance size t (next_index size 0 t)) (count_of size h t u)
    → count_of size h (next_index size 0 t) w + 1 ≡ count_of size h t u
taken_step size h t u o w a b c e f = ground (arith, a, b, c, e, f)

count_le : (size h t : ℕ) (u : Bool) → h < size → t < size → count_of size h t u ≤ size
count_le size h t u a b = ground (arith, a, b)

far : (size i j : ℕ) → i < size → j < size → 0 < distance size i j → i ≢ j
far size i j a b h = λ e. ground (arith, a, b, h, e)

nearer :
    (size i j n : ℕ)
    → i < size
    → j < size
    → suc n ≤ distance size i j
    → (next_index size 0 i < size) × (n ≤ distance size (next_index size 0 i) j)
nearer size i j n a b h = ground (arith, a, b, h)

around : (size t : ℕ) → t < size → distance size (next_index size 0 t) t + 1 ≡ size
around size t h = ground (arith, h)

module _ (size max_item : ℕ) where
  -- a walk that ends before a place does not see what is written there
  pub walk-set :
      (items : List Item) (steps i j : ℕ) (x : Item)
      → i < size
      → j < size
      → steps ≤ distance size i j
      → walk size max_item (set items j x) steps i ≡ walk size max_item items steps i
  unfolding walk
  walk-set items zero i j x a b h = refl
  walk-set items (suc steps) i j x a b h =
      let ne : j ≢ i = λ e. far size i j a b (omega (arith, h)) (sym e) in
      let near = nearer size i j steps a b h in
      rw
        (
          get_or-set_ne items j i x no_item ne,
          walk-set items steps (next_index size max_item i) j x near.0 b near.1,
        )
        refl

left_step :
    (size h t i n : ℕ) (u : Bool)
    → h < size
    → t < size
    → i < size
    → n + 1 ≡ count_of size h t u
    → (if i == t then false else ltb (distance size t i) (count_of size h t u))
      ≡ ltb (distance size (next_index size 0 t) i) n
left_step size h t i n u a b c e = ground (arith, a, b, c, e)

not_empty : (size h t : ℕ) (u : Bool) → 0 < count_of size h t u → (h == t && not u) ≡ false
not_empty size h t u h0 = ground (arith, h0)

empty :
    (size h t : ℕ) (u : Bool)
    → h < size
    → t < size
    → count_of size h t u ≡ 0
    → (h == t && not u) ≡ true
empty size h t u a b h0 = ground (arith, a, b, h0)

module _ (size max_item : ℕ) (rb : RingBuffer) (v : IsValid size max_item rb) where
  abbrev unread : Bool
  unread = is_item (slot size max_item rb rb.tail)

  abbrev total : ℕ
  total = count_of size rb.head rb.tail unread

  abbrev cleared : List Item
  cleared = set rb.items rb.tail (clr_item (slot size max_item rb rb.tail))

  abbrev left : RingBuffer
  left = record rb { tail = next_index size max_item rb.tail; items = cleared }

  count_total : count size max_item rb ≡ total
  unfolding count
  count_total = refl

  pop_empty : total ≡ 0 → pop size max_item rb ≡ ([], rb)
  unfolding pop
  pop_empty e =
      let c : check size max_item rb ≡ true = ground (arith, v.head, v.tail) in
      rw (c, empty size rb.head rb.tail unread v.head v.tail e) refl

  pop_some :
      0 < total → pop size max_item rb ≡ (get_item max_item (slot size max_item rb rb.tail), left)
  unfolding pop
  pop_some h =
      let c : check size max_item rb ≡ true = ground (arith, v.head, v.tail) in
      rw (c, not_empty size rb.head rb.tail unread h) refl

  slot-cleared :
      (i : ℕ)
      → is_item (get_or cleared i no_item)
        ≡ (if i == rb.tail then false else is_item (slot size max_item rb i))
  slot-cleared i = elim (Bool-cases (i == rb.tail)) [
    | inl e ↦
        let same : rb.tail ≡ i = ground (arith, e) in
        rw e (
          ap (λ j. is_item (get_or cleared j no_item)) (sym same)
          ∙ ap is_item (
              get_or-set_self rb.items rb.tail (clr_item (slot size max_item rb rb.tail)) no_item
                (omega (arith, v.tail, v.items))))
    | inr e ↦
        let ne : rb.tail ≢ i = ground (arith, e) in
        rw e (
          ap is_item (
            get_or-set_ne rb.items rb.tail i (clr_item (slot size max_item rb rb.tail)) no_item ne))
  ]

  used_now :
      (i : ℕ) → i < size → is_item (slot size max_item rb i) ≡ ltb (distance size rb.tail i) total
  used_now i h = v.used i h ∙ ap (ltb (distance size rb.tail i)) count_total

  next_tail : next_index size 0 rb.tail < size
  next_tail = let h = v.tail in ground (arith, h)

  count_left : 0 < total → count size max_item left + 1 ≡ total
  unfolding count
  count_left h =
      let t' = next_index size 0 rb.tail in
      taken_step size rb.head rb.tail unread (is_item (slot size max_item rb t'))
        (is_item (get_or cleared t' no_item)) v.head v.tail h (slot-cleared t')
        (used_now t' next_tail)

  left-IsValid : 0 < total → IsValid size max_item left
  left-IsValid h = record {
    items = length-set rb.items rb.tail (clr_item (slot size max_item rb rb.tail)) ∙ v.items;
    head = v.head;
    tail = next_tail;
    used = λ i b.
        slot-cleared i
        ∙ ap (λ w. if i == rb.tail then false else w) (used_now i b)
        ∙ left_step size rb.head rb.tail i (count size max_item left) unread v.head v.tail b
            (count_left h);
  }

  for_each-left :
      0 < total
      → for_each size max_item rb
        ≡ get_item max_item (slot size max_item rb rb.tail) ∷ for_each size max_item left
  unfolding for_each walk
  for_each-left h =
      let n = count size max_item left in
      let c : count size max_item rb ≡ suc n = count_total ∙ sym (count_left h) ∙ omega arith in
      let le : n ≤ distance size (next_index size 0 rb.tail) rb.tail = omega (
        arith,
        count_left h,
        count_le size rb.head rb.tail unread v.head v.tail,
        around size rb.tail v.tail,
      ) in
      ap (λ n. walk size max_item rb.items n rb.tail) c
      ∙ ap (λ xs. get_item max_item (slot size max_item rb rb.tail) ∷ xs)
          (sym (
            walk-set size max_item rb.items n (next_index size 0 rb.tail) rb.tail
              (clr_item (slot size max_item rb rb.tail)) next_tail v.tail le))

  for_each_empty : total ≡ 0 → for_each size max_item rb ≡ []
  unfolding for_each
  for_each_empty e = ap (λ n. walk size max_item rb.items n rb.tail) (count_total ∙ e)

  zero-or : (total ≡ 0) ⊎ (0 < total)
  zero-or = ground arith

  -- A pop from a valid buffer leaves it valid. It takes the first of the items that for_each shows,
  -- and for_each shows the others after it; where for_each shows none, pop returns an empty string and
  -- leaves the buffer as it was.
  pub pop-for_each :
      let (x, rb') = pop size max_item rb in
      IsValid size max_item rb'
      × ((for_each size max_item rb ≡ x ∷ for_each size max_item rb')
          ⊎ ((for_each size max_item rb ≡ []) × (x ≡ []) × (rb' ≡ rb)))
  pop-for_each = elim zero-or [
    | inl e ↦ rw (pop_empty e) (v, inr (for_each_empty e, refl, refl))
    | inr h ↦ rw (pop_some h) (left-IsValid h, inl (for_each-left h))
  ]
