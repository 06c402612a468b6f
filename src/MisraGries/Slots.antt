-- ===== src/MisraGries/Slots.antt =====
-- The scores of the slots of include/misragries.h before and after one addition.
use hm.Prelude.{
  ℕ, zero, suc, ◌+◌, ◌≤◌, ◌<◌, List, [], ◌∷◌, Bool, true, false, Option, none, some, length, All,
  set, get_or, map, if◌then◌else◌, ◌≡◌, refl, sym, ap, ◌∙◌, arith, ◌⊎◌, inl, inr, Bool-cases,
}
use hm.Bytes.{Bytes, equals_bytes}
use hm.Bytes.Order.{memcmp_refl, memcmp_eq}
use hm.MisraGries.{
  Item, is_item, cmp_item, decr, empty_item, Place, hit, vacant, nowhere, find_slot,
}

pub equals-eq : (a b : Bytes) → equals_bytes a b ≡ true → a ≡ b
unfolding equals_bytes
equals-eq a b h = memcmp_eq a b (ground arith)

pub equals_refl : (a : Bytes) → equals_bytes a a ≡ true
unfolding equals_bytes
equals_refl a = ground (arith, memcmp_refl a)

-- one where the test holds
abbrev pub indicator : Bool → ℕ
indicator b = if b then 1 else 0

-- the score that the slots hold for an item
unfoldable pub estimate : List Item → Bytes → ℕ
unfolding cmp_item
estimate [] y = 0
estimate (x ∷ xs) y = (if cmp_item x y then x.score else 0) + estimate xs y

-- the number of slots in use that hold it
unfoldable pub slots_of : List Item → Bytes → ℕ
unfolding cmp_item
slots_of [] y = 0
slots_of (x ∷ xs) y = (if is_item x then (if cmp_item x y then 1 else 0) else 0) + slots_of xs y

unfoldable pub total : List Item → ℕ
total [] = 0
total (x ∷ xs) = x.score + total xs

-- what one slot adds to these
abbrev pub share : Item → Bytes → ℕ
share x y = if cmp_item x y then x.score else 0

abbrev pub live_share : Item → Bytes → ℕ
live_share x y = if is_item x then (if cmp_item x y then 1 else 0) else 0

pub estimate-set :
    (xs : List Item) (k : ℕ) (v : Item) (y : Bytes)
    → k < length xs
    → estimate (set xs k v) y + share (get_or xs k empty_item) y ≡ estimate xs y + share v y
unfolding estimate
estimate-set [] k v y h = absurd (omega arith)
estimate-set (x ∷ xs) zero v y h = omega arith
estimate-set (x ∷ xs) (suc k) v y h = omega (arith, estimate-set xs k v y (omega arith))

pub slots_of-set :
    (xs : List Item) (k : ℕ) (v : Item) (y : Bytes)
    → k < length xs
    → slots_of (set xs k v) y + live_share (get_or xs k empty_item) y
      ≡ slots_of xs y + live_share v y
unfolding slots_of
slots_of-set [] k v y h = absurd (omega arith)
slots_of-set (x ∷ xs) zero v y h = omega arith
slots_of-set (x ∷ xs) (suc k) v y h = omega (arith, slots_of-set xs k v y (omega arith))

pub total-set :
    (xs : List Item) (k : ℕ) (v : Item)
    → k < length xs
    → total (set xs k v) + (get_or xs k empty_item).score ≡ total xs + v.score
unfolding total
total-set [] k v h = absurd (omega arith)
total-set (x ∷ xs) zero v h = omega arith
total-set (x ∷ xs) (suc k) v h = omega (arith, total-set xs k v (omega arith))

abbrev pub AllLive : List Item → Type 0
AllLive = All (λ x. is_item x ≡ true)

-- a round of decrements, where no slot is empty
pub total-decr : (xs : List Item) → AllLive xs → total (map decr xs) + length xs ≡ total xs
unfolding total
total-decr [] h = refl
total-decr (x ∷ xs) h = ground (arith, total-decr xs h.1, h.0)

pub estimate-decr :
    (xs : List Item) (y : Bytes)
    → AllLive xs
    → estimate (map decr xs) y + slots_of xs y ≡ estimate xs y
unfolding estimate slots_of
estimate-decr [] y h = refl
estimate-decr (x ∷ xs) y h = ground (arith, estimate-decr xs y h.1, h.0)

pub slots_of-decr : (xs : List Item) (y : Bytes) → slots_of (map decr xs) y ≤ slots_of xs y
unfolding slots_of
slots_of-decr [] y = omega arith
slots_of-decr (x ∷ xs) y = ground (arith, slots_of-decr xs y)

pub length-decr : (xs : List Item) → length (map decr xs) ≡ length xs
length-decr [] = refl
length-decr (x ∷ xs) = ap suc (length-decr xs)

module _ (item : Bytes) where
  -- the slots that the loop may find, `empty` being an empty slot found before
  abbrev pub IsPlace : List Item → ℕ → Option ℕ → Place → Type 0
  IsPlace xs base empty (hit i) =
      (k : ℕ) × (i ≡ base + k)
      × (k < length xs)
      × (is_item (get_or xs k empty_item) ≡ true)
      × (cmp_item (get_or xs k empty_item) item ≡ true)
  IsPlace xs base empty (vacant i) =
      (slots_of xs item ≡ 0)
      × ((empty ≡ some i)
          ⊎ ((k : ℕ) × (i ≡ base + k)
              × (k < length xs)
              × (is_item (get_or xs k empty_item) ≡ false)))
  IsPlace xs base empty nowhere = (slots_of xs item ≡ 0) × AllLive xs × (empty ≡ none)

  -- a slot in front of what was searched, which does not hold the item
  IsPlace-behind :
      (x : Item) (xs : List Item) (base : ℕ) (empty old : Option ℕ) (p : Place)
      → live_share x item ≡ 0
      → (is_item x ≡ true × (empty ≡ old)) ⊎ (is_item x ≡ false × (empty ≡ some base))
      → IsPlace xs (base + 1) empty p
      → IsPlace (x ∷ xs) base old p
  unfolding slots_of
  IsPlace-behind x xs base empty old (hit i) z c (k, e, l, a, b) =
      (suc k, omega (arith, e), omega (arith, l), a, b)
  IsPlace-behind x xs base empty old (vacant i) z c (n, inr (k, e, l, a)) =
      (omega (arith, n, z), inr (suc k, omega (arith, e), omega (arith, l), a))
  IsPlace-behind x xs base empty old (vacant i) z (inl (a, e)) (n, inl f) =
      (omega (arith, n, z), inl (sym e ∙ f))
  IsPlace-behind x xs base empty old (vacant i) z (inr (a, e)) (n, inl f) =
      (omega (arith, n, z), inr (zero, ground (arith, e, f), omega arith, a))
  IsPlace-behind x xs base empty old nowhere z (inl (a, e)) (n, v, f) =
      (omega (arith, n, z), (a, v), sym e ∙ f)
  IsPlace-behind x xs base empty old nowhere z (inr (a, e)) (n, v, f) = absurd (cc)

  pub find_slot-IsPlace :
      (xs : List Item) (base : ℕ) (empty : Option ℕ)
      → IsPlace xs base empty (find_slot xs item base empty)
  unfolding find_slot slots_of
  find_slot-IsPlace [] base none = (refl, tt, refl)
  find_slot-IsPlace [] base (some s) = (refl, inl refl)
  find_slot-IsPlace (x ∷ xs) base empty = elim (Bool-cases (is_item x)) [
    | inr e ↦
        rw (e, find_slot)
          (IsPlace-behind x xs base (some base) empty (find_slot xs item (base + 1) (some base))
            (rw e refl) (inr (e, refl)) (find_slot-IsPlace xs (base + 1) (some base)))
    | inl e ↦ elim (Bool-cases (cmp_item x item)) [
      | inl c ↦ rw (e, c, find_slot) (zero, omega arith, omega arith, e, c)
      | inr c ↦
          rw (e, c, find_slot)
            (IsPlace-behind x xs base empty empty (find_slot xs item (base + 1) empty)
              (rw (e, c) refl) (inl (e, refl)) (find_slot-IsPlace xs (base + 1) empty))
    ]
  ]
