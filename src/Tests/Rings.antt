-- ===== src/Tests/Rings.antt =====
-- Ring buffers: one with two items, and one that was loaded with an index out of range.
use hm.Prelude.{
  ℕ, zero, suc, ◌+◌, ◌<◌, ltb, ◌==◌, if◌then◌else◌, [], ◌∷◌, ◌≡◌, refl, arith, ◌⊎◌, drop, ◌++◌,
}
use hm.RingBuffer.{RingBuffer, no_item, push, pop, count, for_each, slot, is_item, Item}
use hm.RingBuffer.Queue.{IsValid, distance, push-IsValid}
use hm.RingBuffer.Order.{pop-for_each}
use hm.RingBuffer.Arrivals.{for_each-push}
use hm.RingBuffer.Recovery.{count-recovered}

abbrev stale : RingBuffer
stale = record {
  head = 9;
  tail = 0;
  items = no_item ∷ record { size = 1; text = 97 ∷ [] } ∷ no_item ∷ no_item ∷ [];
}

count-recovered_example : count 4 15 (pop 4 15 (push 4 15 stale (98 ∷ []))).1 ≡ 4
count-recovered_example = count-recovered 4 15 stale (98 ∷ []) (omega arith) refl refl

abbrev item_a : Item
item_a = record { size = 1; text = 97 ∷ [] }

abbrev two_items : RingBuffer
two_items = record { head = 2; tail = 0; items = item_a ∷ item_a ∷ no_item ∷ no_item ∷ [] }

used_two :
    (i : ℕ) → i < 4 → is_item (slot 4 15 two_items i) ≡ ltb (distance 4 0 i) (count 4 15 two_items)
unfolding count
used_two zero h = refl
used_two (suc zero) h = refl
used_two (suc (suc zero)) h = refl
used_two (suc (suc (suc zero))) h = refl
used_two (suc (suc (suc (suc i)))) h = absurd (omega (arith, h))

two_items-IsValid : IsValid 4 15 two_items
unfolding count
two_items-IsValid = record { items = refl; head = omega arith; tail = omega arith; used = used_two }

push-IsValid_example :
    IsValid 4 15 (push 4 15 two_items (98 ∷ []))
    × (count 4 15 (push 4 15 two_items (98 ∷ []))
        ≡ (if count 4 15 two_items == 4 then 4 else count 4 15 two_items + 1))
push-IsValid_example = push-IsValid 4 15 two_items (98 ∷ []) two_items-IsValid refl

pop-for_each_example :
    let (x, rb') = pop 4 15 two_items in
    IsValid 4 15 rb'
    × ((for_each 4 15 two_items ≡ x ∷ for_each 4 15 rb')
        ⊎ ((for_each 4 15 two_items ≡ []) × (x ≡ []) × (rb' ≡ two_items)))
pop-for_each_example = pop-for_each 4 15 two_items two_items-IsValid

for_each-push_example :
    for_each 4 15 (push 4 15 two_items (98 ∷ []))
    ≡ (if count 4 15 two_items == 4
        then drop 1 (for_each 4 15 two_items)
        else for_each 4 15 two_items)
      ++ ((98 ∷ []) ∷ [])
for_each-push_example = for_each-push 4 15 two_items (98 ∷ []) two_items-IsValid refl
