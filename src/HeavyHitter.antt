-- ===== src/HeavyHitter.antt =====
-- include/heavyhitter.h: the items of a stream with the highest scores, or with the lowest. A score is
-- kept as the 64 bits of a signed number; numbers in big endian are their values.
pub mod Order
pub mod Slots
pub mod Best
pub mod Taken
pub mod Raised
pub mod Top
use hm.Prelude.{
  ℕ, zero, suc, ◌+◌, ◌-◌, ◌%◌, ◌^◌, List, [], ◌∷◌, Bool, true, false, Option, none, some, length,
  get_or, set, replicate, ltb, leb, ◌&&◌, if◌then◌else◌,
}
use hm.Bytes.{Bytes, equals_bytes}

-- Item_, with `item` as the string of its `size` bytes
pub record Item : Type 0 where
  pub score : ℕ
  pub item : Bytes

-- operator bool
abbrev pub is_item : Item → Bool
is_item x = ltb 0 (length x.item)

unfoldable pub cmp_item : Item → Bytes → Bool
cmp_item x s = equals_bytes s x.item

abbrev pub empty_item : Item
empty_item = record { score = 0; item = [] }

-- isItemValid
unfoldable pub is_item_valid : ℕ → Bytes → Bool
is_item_valid max_item_size sv = leb 1 (length sv) && leb (length sv) max_item_size

-- the place of an int64_t, given by its bits, among all of them: the least number has place 0
abbrev pub signed_rank : ℕ → ℕ
signed_rank score = (score + 2 ^ 63) % 2 ^ 64

-- Comparator<Up>::operator()
unfoldable pub comp : Bool → ℕ → ℕ → Bool
comp true a b = ltb (signed_rank b) (signed_rank a)
comp false a b = ltb (signed_rank a) (signed_rank b)

-- Comparator<Up>::start: the largest number, or the least
abbrev pub start : Bool → ℕ
start true = 2 ^ 63 - 1
start false = 2 ^ 63

-- clear
unfoldable pub clear : ℕ → List Item
clear size = replicate size empty_item

-- what the loop of `add` keeps
pub record Loop : Type 0 where
  pub min_score : ℕ
  pub index_min_score : Option ℕ
  pub index_empty_slot : Option ℕ

pub data Place : Type 0 where
  hit : ℕ → Place
  missing : Loop → Place

module _ (up : Bool) where
  -- a slot that does not hold the item
  unfoldable pub pass : Loop → ℕ → Item → Loop
  unfolding comp
  pass l i x =
      if is_item x
      then (if comp up l.min_score x.score
          then record l { min_score = x.score; index_min_score = some i }
          else l)
      else record l { index_empty_slot = some i }

  -- the loop of `add`
  unfoldable pub find_slot : List Item → Bytes → ℕ → Loop → Place
  unfolding pass cmp_item
  find_slot [] item i l = missing l
  find_slot (x ∷ xs) item i l =
      let rest = find_slot xs item (i + 1) (pass l i x) in
      if is_item x && cmp_item x item then hit i else rest

  abbrev pub loop_start : Loop
  loop_start = record { min_score = start up; index_min_score = none; index_empty_slot = none }

  -- `add` where the item is not there
  unfoldable pub add_new : List Item → Bytes → ℕ → Loop → List Item × Bool
  unfolding comp
  add_new hh item score l =
      let x : Item = record { score = score; item = item } in
      elim l.index_empty_slot [
        | some i ↦ (set hh i x, true)
        | none ↦ elim l.index_min_score [
          | some i ↦ if comp up score l.min_score then (set hh i x, true) else (hh, false)
          | none ↦ (hh, false)
        ]
      ]

  -- `add` where slot `i` holds the item
  unfoldable pub add_hit : List Item → ℕ → ℕ → List Item × Bool
  unfolding comp
  add_hit hh i score =
      let x = get_or hh i empty_item in
      if comp up score x.score then (set hh i (record x { score = score }), true) else (hh, false)

  -- add
  unfoldable pub add : List Item → Bytes → ℕ → List Item × Bool
  unfolding find_slot add_hit add_new
  add hh item score = elim (find_slot hh item 0 loop_start) [
    | hit i ↦ add_hit hh i score
    | missing l ↦ add_new hh item score l
  ]
