-- ===== src/MisraGries.antt =====
-- include/misragries.h: a fixed number of counters of items of a stream. Numbers are kept in big
-- endian there; the model keeps their values.
pub mod Slots
pub mod Bound
pub mod Stream
use hm.Prelude.{
  ℕ, suc, ◌+◌, ◌-◌, ◌^◌, ◌≤◌, List, [], ◌∷◌, Bool, true, false, Option, none, some, length, set,
  get_or, replicate, map, ltb, leb, ◌==◌, ◌&&◌, if◌then◌else◌,
}
use hm.Bytes.{Bytes, equals_bytes}

-- Item_, with `item` as the string of its `size` bytes
pub record Item : Type 0 where
  pub score : ℕ
  pub item : Bytes

-- operator bool: a slot without a score is empty, whatever text it holds
abbrev pub is_item : Item → Bool
is_item x = ltb 0 x.score

unfoldable pub cmp_item : Item → Bytes → Bool
cmp_item x s = equals_bytes s x.item

-- setItem
abbrev pub set_item : Bytes → Item
set_item sv = record { score = 1; item = sv }

-- incr, which stops at the largest number
unfoldable pub incr : Item → Item
incr x = if x.score == 2 ^ 64 - 1 then x else record x { score = x.score + 1 }

-- decr, which stops at zero
abbrev pub decr : Item → Item
decr x = record x { score = x.score - 1 }

abbrev pub empty_item : Item
empty_item = record { score = 0; item = [] }

-- isItemValid
unfoldable pub is_item_valid : ℕ → Bytes → Bool
is_item_valid max_item_size sv = leb 1 (length sv) && leb (length sv) max_item_size

-- clear
unfoldable pub clear : ℕ → List Item
clear size = replicate size empty_item

-- what the first loop of `add` finds
pub data Place : Type 0 where
  hit : ℕ → Place
  vacant : ℕ → Place
  nowhere : Place

-- the first loop of `add`: the slot of the item, or else the last empty slot
unfoldable pub find_slot : List Item → Bytes → ℕ → Option ℕ → Place
unfolding cmp_item
find_slot [] item i none = nowhere
find_slot [] item i (some slot) = vacant slot
find_slot (x ∷ xs) item i index_empty_slot =
    let seen = find_slot xs item (i + 1) index_empty_slot in
    let skipped = find_slot xs item (i + 1) (some i) in
    if is_item x then (if cmp_item x item then hit i else seen) else skipped

-- add, with the score that it returns
unfoldable pub add : List Item → Bytes → List Item × ℕ
unfolding find_slot incr
add mg item = elim (find_slot mg item 0 none) [
  | hit i ↦ (let x = incr (get_or mg i empty_item) in (set mg i x, x.score))
  | vacant i ↦ (set mg i (set_item item), 1)
  | nowhere ↦ (map decr mg, 0)
]
