-- ===== src/HeavyHitter/Slots.antt =====
-- The scores that the slots of include/heavyhitter.h hold, before and after one of them is written.
use hm.Prelude.{
  ℕ, zero, suc, ◌+◌, ◌≤◌, ◌<◌, List, [], ◌∷◌, Bool, true, false, length, set, ◌&&◌, if◌then◌else◌,
  ◌≡◌, refl, arith,
}
use hm.Bytes.{Bytes}
use hm.HeavyHitter.{Item, is_item, cmp_item}
use hm.HeavyHitter.Order.{worth, at, holds}

-- one more than the worth of a slot's score, if it holds the item
abbrev pub share : Bool → Item → Bytes → ℕ
share up x y = if is_item x && cmp_item x y then worth up x.score + 1 else 0

abbrev pub indicator : Item → Bytes → ℕ
indicator x y = if is_item x && cmp_item x y then 1 else 0

-- the same of all slots; 0 where no slot holds the item
unfoldable pub held : Bool → List Item → Bytes → ℕ
unfolding cmp_item
held up [] y = 0
held up (x ∷ xs) y = share up x y + held up xs y

-- the number of slots that hold the item
unfoldable pub slots : List Item → Bytes → ℕ
unfolding cmp_item
slots [] y = 0
slots (x ∷ xs) y = indicator x y + slots xs y

pub held-set :
    (up : Bool) (xs : List Item) (k : ℕ) (v : Item) (y : Bytes)
    → k < length xs
    → held up (set xs k v) y + share up (at xs k) y ≡ held up xs y + share up v y
unfolding held
held-set up [] k v y h = absurd (omega (arith, h))
held-set up (x ∷ xs) zero v y h = omega arith
held-set up (x ∷ xs) (suc k) v y h = omega (arith, held-set up xs k v y (omega (arith, h)))

pub slots-set :
    (xs : List Item) (k : ℕ) (v : Item) (y : Bytes)
    → k < length xs
    → slots (set xs k v) y + indicator (at xs k) y ≡ slots xs y + indicator v y
unfolding slots
slots-set [] k v y h = absurd (omega (arith, h))
slots-set (x ∷ xs) zero v y h = omega arith
slots-set (x ∷ xs) (suc k) v y h = omega (arith, slots-set xs k v y (omega (arith, h)))

pub slots-none :
    (xs : List Item) (y : Bytes) → ((k : ℕ) → k < length xs → holds xs y k ≡ false) → slots xs y ≡ 0
unfolding slots
slots-none [] y h = refl
slots-none (x ∷ xs) y h =
    let rest = slots-none xs y (λ k l. h (suc k) (omega (arith, l))) in
    rw (h 0 (omega arith), rest) (omega arith)

pub held-none : (up : Bool) (xs : List Item) (y : Bytes) → slots xs y ≡ 0 → held up xs y ≡ 0
unfolding slots held
held-none up [] y h = refl
held-none up (x ∷ xs) y h = ground (arith, h, held-none up xs y)

pub slots-some :
    (xs : List Item) (y : Bytes) (k : ℕ) → k < length xs → holds xs y k ≡ true → 0 < slots xs y
unfolding slots
slots-some [] y k l h = absurd (omega (arith, l))
slots-some (x ∷ xs) y zero l h = rw h (omega arith)
slots-some (x ∷ xs) y (suc k) l h = omega (arith, slots-some xs y k (omega (arith, l)) h)

-- with one slot for the item, that slot has all that is held
pub held-at :
    (up : Bool) (xs : List Item) (y : Bytes) (k : ℕ)
    → slots xs y ≤ 1
    → k < length xs
    → holds xs y k ≡ true
    → held up xs y ≡ worth up (at xs k).score + 1
unfolding slots held
held-at up [] y k s l h = absurd (omega (arith, l))
held-at up (x ∷ xs) y zero s l h =
    let rest : held up xs y ≡ 0 = held-none up xs y (ground (arith, s, h)) in
    rw (h, rest) (omega arith)
held-at up (x ∷ xs) y (suc k) s l h =
    let more : 0 < slots xs y = slots-some xs y k (omega (arith, l)) h in
    ground (arith, s, more, held-at up xs y k)
