-- ===== src/RingBuffer/Arrivals.antt =====
-- include/ringbuffer.h: what a push adds to the items that for_each shows.
use hm.Prelude.{
  ℕ, zero, suc, ◌+◌, ◌-◌, ◌<◌, List, [], ◌∷◌, ◌++◌, Bool, true, false, leb, ◌==◌, length, drop,
  get_or, set, get_or-set_self, if◌then◌else◌, ◌≡◌, refl, ◌∙◌, ap, arith, take-append,
}
use hm.Bytes.{Bytes}
use hm.RingBuffer.{
  Item, RingBuffer, no_item, is_item, set_item, get_item, is_item_valid, slot, next_index, count,
  push, walk, for_each,
}
use hm.RingBuffer.Queue.{distance, count_of, tail_of, IsValid, push_valid, count_pushed, pushed}
use hm.RingBuffer.Order.{walk-set}

same_place : (size i j : ℕ) → i < size → j < size → 0 ≡ distance size i j → i ≡ j
same_place size i j a b h = ground (arith, a, b, h)

nearer_exact :
    (size i j n : ℕ)
    → i < size
    → j < size
    → suc n ≡ distance size i j
    → (next_index size 0 i < size) × (n ≡ distance size (next_index size 0 i) j)
nearer_exact size i j n a b h = ground (arith, a, b, h)

-- where the new item stands, seen from the read index after the push
full_place :
    (size h t n : ℕ) (u : Bool)
    → h < size
    → t < size
    → n + 1 ≡ (if count_of size h t u == size then size else count_of size h t u + 1)
    → n ≡ distance size (tail_of size h t u) h
full_place size h t n u a b e = ground (arith, a, b, e)

get_item-set_item :
    (max_item : ℕ) (x : Item) (sv : Bytes)
    → is_item_valid max_item sv ≡ true
    → get_item max_item (set_item x sv) ≡ sv
get_item-set_item max_item x sv ok =
    let le : leb (length sv) max_item ≡ true = ground (arith, ok) in
    rw le (take-append sv (drop (length sv) x.text))

module _ (size max_item : ℕ) where
  -- the last step of a walk that ends at a place
  walk-last :
      (items : List Item) (steps i j : ℕ)
      → i < size
      → j < size
      → steps ≡ distance size i j
      → walk size max_item items (suc steps) i
        ≡ walk size max_item items steps i ++ (get_item max_item (get_or items j no_item) ∷ [])
  unfolding walk
  walk-last items zero i j a b h =
      ap (λ k. get_item max_item (get_or items k no_item) ∷ []) (same_place size i j a b h)
  walk-last items (suc steps) i j a b h =
      let near = nearer_exact size i j steps a b h in
      ap (λ xs. get_item max_item (get_or items i no_item) ∷ xs)
        (walk-last items steps (next_index size max_item i) j near.0 b near.1)

  -- a walk to a place, after an item was written there
  walk-written :
      (items : List Item) (steps i j : ℕ) (x : Item)
      → i < size
      → j < length items
      → length items ≡ size
      → steps ≡ distance size i j
      → walk size max_item (set items j x) (suc steps) i
        ≡ walk size max_item items steps i ++ (get_item max_item x ∷ [])
  walk-written items steps i j x a b l h =
      let b' : j < size = omega (arith, b, l) in
      walk-last (set items j x) steps i j a b' h
      ∙ rw
          (
            walk-set size max_item items steps i j x a b' (omega (arith, h)),
            get_or-set_self items j x no_item b,
          )
          refl

cut :
    (size max_item : ℕ) (items : List Item) (n t' c t : ℕ) (full : Bool)
    → (full ≡ true → (t' ≡ next_index size 0 t) × (c ≡ suc n))
    → (full ≡ false → (t' ≡ t) × (c ≡ n))
    → walk size max_item items n t'
      ≡ (if full then drop 1 (walk size max_item items c t) else walk size max_item items c t)
unfolding walk
cut size max_item items n t' c t true f g = rw ((f refl).0, (f refl).1) refl
cut size max_item items n t' c t false f g = rw ((g refl).0, (g refl).1) refl

tail_full :
    (size h t : ℕ) (u : Bool)
    → h < size
    → t < size
    → (count_of size h t u == size) ≡ true
    → tail_of size h t u ≡ next_index size 0 t
tail_full size h t u a b e = ground (arith, a, b, e)

tail_room :
    (size h t : ℕ) (u : Bool)
    → h < size
    → t < size
    → (count_of size h t u == size) ≡ false
    → tail_of size h t u ≡ t
tail_room size h t u a b e = ground (arith, a, b, e)

tail_in_range : (size h t : ℕ) (u : Bool) → t < size → tail_of size h t u < size
tail_in_range size h t u b = ground (arith, b)

module _ (size max_item : ℕ) (rb : RingBuffer) (sv : Bytes) (v : IsValid size max_item rb)
    (ok : is_item_valid max_item sv ≡ true) where
  abbrev used : Bool
  used = is_item (slot size max_item rb rb.tail)

  abbrev total : ℕ
  total = count_of size rb.head rb.tail used

  abbrev new_tail : ℕ
  new_tail = tail_of size rb.head rb.tail used

  abbrev before : ℕ
  before = (if total == size then size else total + 1) - 1

  counted : count size max_item (push size max_item rb sv) ≡ suc before
  unfolding count
  counted = count_pushed size max_item rb sv v ok ∙ (let h = v.head in ground (arith, h))

  before_step : before + 1 ≡ (if total == size then size else total + 1)
  before_step = let h = v.head in ground (arith, h)

  kept : walk size max_item rb.items before new_tail ≡ (
      if count size max_item rb == size
      then drop 1 (for_each size max_item rb)
      else for_each size max_item rb)
  unfolding for_each count
  kept =
      let h = v.head in
      let t = v.tail in
      cut size max_item rb.items before new_tail total rb.tail (total == size)
        (λ e. (tail_full size rb.head rb.tail used h t e, ground (arith, h, e)))
        (λ e. (tail_room size rb.head rb.tail used h t e, ground (arith, e)))

  shown :
      for_each size max_item (push size max_item rb sv)
      ≡ walk size max_item (pushed size max_item rb sv v ok) (suc before) new_tail
  unfolding for_each
  shown =
      ap
        (λ n. walk size max_item (push size max_item rb sv).items n (push size max_item rb sv).tail)
        counted
      ∙ ap (λ r. walk size max_item r.items (suc before) r.tail)
          (push_valid size max_item rb sv v ok)

  -- A push of a valid item into a valid buffer puts it behind the items that for_each shows, of which
  -- a full buffer loses the first.
  pub for_each-push :
      for_each size max_item (push size max_item rb sv)
      ≡ (if count size max_item rb == size
          then drop 1 (for_each size max_item rb)
          else for_each size max_item rb)
        ++ (sv ∷ [])
  for_each-push =
      let last =
        walk-written size max_item rb.items before new_tail rb.head
          (set_item (slot size max_item rb rb.head) sv)
          (tail_in_range size rb.head rb.tail used v.tail) (omega (arith, v.head, v.items)) v.items
          (full_place size rb.head rb.tail before used v.head v.tail before_step) in
      shown
      ∙ last
      ∙ rw (kept, get_item-set_item max_item (slot size max_item rb rb.head) sv ok) refl
