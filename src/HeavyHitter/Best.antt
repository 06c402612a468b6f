-- ===== src/HeavyHitter/Best.antt =====
-- What it means that the slots of include/heavyhitter.h have the best scores of an item.
use hm.Prelude.{
  ℕ, ◌+◌, ◌≤◌, ◌<◌, List, Bool, true, length, set, length-set, get_or-set_self, get_or-set_ne, ltb,
  ◌==◌, if◌then◌else◌, ◌≡◌, sym, ◌∙◌, ap, arith, ◌⊎◌, inl, inr, Bool-cases,
}
use hm.Bytes.{Bytes, equals_bytes}
use hm.HeavyHitter.{Item, is_item, empty_item}
use hm.HeavyHitter.Order.{worth, at}
use hm.HeavyHitter.Slots.{held, slots}

-- every slot is in use, with a score worth `b - 1` or more
abbrev pub AtLeast : Bool → ℕ → List Item → Type 0
AtLeast up b hh =
    (k : ℕ) → k < length hh → (is_item (at hh k) ≡ true) × (b ≤ worth up (at hh k).score + 1)

-- The slots have the best score of an item, or nothing of it and nothing that is worse; `b` is one more
-- than the worth of the item's best score, or 0 where it was not added.
abbrev pub IsBest : Bool → List Item → Bytes → ℕ → Type 0
IsBest up hh y b = (slots hh y ≤ 1) × ((held up hh y ≡ b) ⊎ ((held up hh y ≡ 0) × AtLeast up b hh))

-- the larger of two numbers
abbrev pub larger : ℕ → ℕ → ℕ
larger a b = if ltb a b then b else a

-- what an addition makes of the best score of an item
abbrev pub better : Bool → Bytes → ℕ → Bytes → ℕ → ℕ
better up item score y b = if equals_bytes y item then larger b (worth up score + 1) else b

pub AtLeast-le : (up : Bool) (a b : ℕ) (hh : List Item) → a ≤ b → AtLeast up b hh → AtLeast up a hh
AtLeast-le up a b hh h t k l = let (live, le) = t k l in (live, omega (arith, h, le))

at-set_cases :
    (hh : List Item) (k j : ℕ) (v : Item)
    → k < length hh
    → (at (set hh k v) j ≡ v) ⊎ (at (set hh k v) j ≡ at hh j)
at-set_cases hh k j v l = elim (Bool-cases (k == j)) [
  | inl e ↦
      let same : k ≡ j = ground (arith, e) in
      inl (ap (at (set hh k v)) (sym same) ∙ get_or-set_self hh k v empty_item l)
  | inr e ↦ inr (get_or-set_ne hh k j v empty_item (ground (arith, e)))
]

pub AtLeast-set :
    (up : Bool) (b : ℕ) (hh : List Item) (k : ℕ) (v : Item)
    → k < length hh
    → is_item v ≡ true
    → b ≤ worth up v.score + 1
    → AtLeast up b hh
    → AtLeast up b (set hh k v)
AtLeast-set up b hh k v l i le t j h =
    let old = t j (omega (arith, h, length-set hh k v)) in
    elim (at-set_cases hh k j v l) [ inl e ↦ rw e (i, le) | inr e ↦ rw e old ]
