-- ===== src/RingBuffer.antt =====
-- include/ringbuffer.h. The list in memory has `size` items; stored integers are big endian there and
-- numbers here. Items and indexes may be any bytes that were loaded.
pub mod Recovery
pub mod Queue
pub mod Order
pub mod Arrivals
use hm.Prelude.{
  ℕ, zero, suc, ◌+◌, ◌-◌, ◌≤◌, ◌<◌, List, [], ◌∷◌, ◌++◌, Bool, true, false, not, ltb, leb, ◌==◌,
  ◌&&◌, length, take, drop, get_or, set, replicate, if◌then◌else◌,
}
use hm.Bytes.{Bytes}

-- Item_: operator bool is `not (size == 0)`
pub record Item : Type 0 where
  pub size : ℕ
  pub text : Bytes

abbrev pub no_item : Item
no_item = record { size = 0; text = [] }

abbrev pub is_item : Item → Bool
is_item x = not (x.size == 0)

-- getItem: a size that is too large reads as empty
abbrev pub get_item : ℕ → Item → Bytes
get_item max_item x = if leb x.size max_item then take x.size x.text else []

-- setItem: the rest of the item's bytes stay
abbrev pub set_item : Item → Bytes → Item
set_item x sv = record { size = length sv; text = sv ++ drop (length sv) x.text }

abbrev pub clr_item : Item → Item
clr_item x = record x { size = 0 }

pub record RingBuffer : Type 0 where
  -- write index
  pub head : ℕ
  -- read index
  pub tail : ℕ
  pub items : List Item

-- isItemValid
abbrev pub is_item_valid : ℕ → Bytes → Bool
is_item_valid max_item sv = leb 1 (length sv) && leb (length sv) max_item

module _ (size max_item : ℕ) where
  abbrev pub slot : RingBuffer → ℕ → Item
  slot rb i = get_or rb.items i no_item

  -- the index after another
  abbrev pub next_index : ℕ → ℕ
  next_index i = if i + 1 == size then 0 else i + 1

  -- clear(List *): every byte is 0
  pub clear_memory : RingBuffer
  clear_memory = record { head = 0; tail = 0; items = replicate size no_item }

  -- clear(List &): of the items only the first
  abbrev pub clear : RingBuffer → RingBuffer
  clear rb = record { head = 0; tail = 0; items = set rb.items 0 (clr_item (slot rb 0)) }

  -- check_
  abbrev pub check : RingBuffer → Bool
  check rb = ltb rb.head size && ltb rb.tail size

  -- checkSet_
  abbrev pub check_set : RingBuffer → RingBuffer
  check_set rb = if check rb then rb else clear rb

  -- count
  unfoldable pub count : RingBuffer → ℕ
  count rb =
      if check rb
      then (if rb.head == rb.tail
          then (if is_item (slot rb rb.tail) then size else 0)
          else (if ltb rb.tail rb.head then rb.head - rb.tail else (size - rb.tail) + rb.head))
      else 0

  -- push, behind checkSet_
  abbrev pub push_checked : RingBuffer → Bytes → RingBuffer
  push_checked rb sv = record {
    head = next_index rb.head;
    tail = if rb.head == rb.tail && is_item (slot rb rb.tail) then next_index rb.tail else rb.tail;
    items = set rb.items rb.head (set_item (slot rb rb.head) sv);
  }

  -- push
  unfoldable pub push : RingBuffer → Bytes → RingBuffer
  push rb sv = push_checked (check_set rb) sv

  -- pop, behind checkSet_
  abbrev pub pop_checked : RingBuffer → Bytes × RingBuffer
  pop_checked rb = if rb.head == rb.tail && not (is_item (slot rb rb.tail)) then ([], rb) else (
    get_item max_item (slot rb rb.tail),
    record rb {
      tail = next_index rb.tail;
      items = set rb.items rb.tail (clr_item (slot rb rb.tail));
    },
  )

  -- pop
  unfoldable pub pop : RingBuffer → Bytes × RingBuffer
  pop rb = pop_checked (check_set rb)

  -- the loop of for_each, as the items that it shows
  unfoldable pub walk : List Item → ℕ → ℕ → List Bytes
  walk items zero i = []
  walk items (suc steps) i =
      get_item max_item (get_or items i no_item) ∷ walk items steps (next_index i)

  -- for_each
  unfoldable pub for_each : RingBuffer → List Bytes
  unfolding walk count
  for_each rb = walk rb.items (count rb) rb.tail
