-- ===== src/RingBuffer/Recovery.antt =====
-- include/ringbuffer.h where the indexes of a loaded buffer are out of range, so that checkSet_ clears it.
use hm.Prelude.{
  ℕ, ◌≤◌, List, [], ◌∷◌, true, false, ltb, ◌==◌, ◌&&◌, get_or, set, ◌≡◌, refl, ◌∙◌, ap, arith,
}
use hm.Bytes.{Bytes}
use hm.RingBuffer.{
  Item, RingBuffer, no_item, is_item, set_item, clr_item, slot, check, clear, count, push, pop,
}

clear_first :
    (xs : List Item)
    → is_item (get_or (set xs 0 (clr_item (get_or xs 0 no_item))) 0 no_item) ≡ false
clear_first [] = refl
clear_first (x ∷ xs) = refl

one_ne : (size : ℕ) → 2 ≤ size → (1 == size) ≡ false
one_ne size h = ground (arith, h)

later : (xs : List Item) (v : Item) → get_or (set xs 0 v) 1 no_item ≡ get_or xs 1 no_item
later [] v = refl
later (x ∷ xs) v = refl

zero_one : (size : ℕ) → 2 ≤ size → (ltb 1 size && ltb 0 size) ≡ true
zero_one size h = ground (arith, h)

pop_one :
    (size max_item : ℕ) (xs : List Item)
    → 2 ≤ size
    → (pop size max_item (record { head = 1; tail = 0; items = xs })).1
      ≡ record { head = 1; tail = 1; items = set xs 0 (clr_item (get_or xs 0 no_item)) }
unfolding pop
pop_one size max_item xs h = rw (zero_one size h, one_ne size h) refl

count_one :
    (size max_item : ℕ) (xs : List Item)
    → 2 ≤ size
    → is_item (get_or xs 1 no_item) ≡ true
    → count size max_item (record { head = 1; tail = 1; items = xs }) ≡ size
unfolding count
count_one size max_item xs h u = ground (arith, h, u)

module _ (size max_item : ℕ) (rb : RingBuffer) (sv : Bytes) (two : 2 ≤ size)
    (bad : check size max_item rb ≡ false) where
  abbrev pushed : List Item
  pushed =
      set (clear size max_item rb).items 0
        (set_item (slot size max_item (clear size max_item rb) 0) sv)

  push_bad : push size max_item rb sv ≡ record { head = 1; tail = 0; items = pushed }
  unfolding push
  push_bad = rw (bad, one_ne size two, clear_first rb.items) refl

  -- After a buffer with an index out of range was recovered, an item pushed and that item popped, the
  -- buffer counts as full, if it had an item in its second place: recovery clears the first place alone.
  pub count-recovered :
      is_item (slot size max_item rb 1) ≡ true
      → count size max_item (pop size max_item (push size max_item rb sv)).1 ≡ size
  count-recovered h =
      let xs = set pushed 0 (clr_item (get_or pushed 0 no_item)) in
      let same : get_or xs 1 no_item ≡ get_or rb.items 1 no_item =
        later pushed (clr_item (get_or pushed 0 no_item))
        ∙ later (clear size max_item rb).items
            (set_item (slot size max_item (clear size max_item rb) 0) sv)
        ∙ later rb.items (clr_item (slot size max_item rb 0)) in
      ap (λ b. count size max_item (pop size max_item b).1) push_bad
      ∙ ap (count size max_item) (pop_one size max_item pushed two)
      ∙ count_one size max_item xs two (ap is_item same ∙ h)
