-- ===== src/MisraGries/Bound.antt =====
-- One addition of include/misragries.h: how its slots follow the true counts.
use native.Mathlib.Nat
use hm.Prelude.{
  ℕ, zero, suc, ◌+◌, ◌-◌, ◌*◌, ◌^◌, ◌≤◌, ◌<◌, List, [], ◌∷◌, true, false, none, length, set, get_or,
  subst, map, ◌≡◌, refl, sym, ◌∙◌, arith, inl, inr, Bool-cases, length-set,
}
use hm.Bytes.{Bytes, equals_bytes}
use hm.MisraGries.{
  Item, is_item, cmp_item, set_item, incr, decr, empty_item, Place, hit, vacant, nowhere, find_slot,
  add,
}
use hm.MisraGries.Slots.{
  equals-eq, indicator, estimate, slots_of, total, share, live_share, estimate-set, slots_of-set,
  total-set, total-decr, estimate-decr, slots_of-decr, length-decr, AllLive, IsPlace,
  find_slot-IsPlace,
}

-- The slots after `n` additions with `d` rounds of decrements, `c` being the true counts.
pub record IsSummary (size n d : ℕ) (c : Bytes → ℕ) (mg : List Item) : Type 0 where
  pub len : length mg ≡ size
  pub sum : total mg + (size + 1) * d ≡ n
  pub single : (y : Bytes) → slots_of mg y ≤ 1
  pub upper : (y : Bytes) → estimate mg y ≤ c y
  pub lower : (y : Bytes) → c y ≤ estimate mg y + d

score-total : (xs : List Item) (k : ℕ) → (get_or xs k empty_item).score ≤ total xs
unfolding total
score-total [] k = omega arith
score-total (x ∷ xs) zero = omega arith
score-total (x ∷ xs) (suc k) = omega (arith, score-total xs k)

-- a score that is not the largest grows by one
incr_lem :
    (x : Item) (z y : Bytes)
    → x.score < 2 ^ 64 - 1
    → is_item x ≡ true
    → cmp_item x z ≡ true
    → ((incr x).score ≡ x.score + 1)
      × (share (incr x) y ≡ share x y + indicator (equals_bytes y z))
      × (live_share (incr x) y ≡ live_share x y)
unfolding incr cmp_item
incr_lem x z y h a b = let e : z ≡ x.item = equals-eq z x.item b in rw e (ground (arith, h, a))

module _ (size n d : ℕ) (c : Bytes → ℕ) (mg : List Item) (z : Bytes) (v : IsSummary size n d c mg)
    (room : n < 2 ^ 64 - 1) where
  abbrev pub counted : Bytes → ℕ
  counted y = c y + indicator (equals_bytes y z)

  at_hit :
      (k : ℕ)
      → k < length mg
      → is_item (get_or mg k empty_item) ≡ true
      → cmp_item (get_or mg k empty_item) z ≡ true
      → IsSummary size (n + 1) d counted (set mg k (incr (get_or mg k empty_item)))
  at_hit k l a b =
      let x = get_or mg k empty_item in
      let small : x.score < 2 ^ 64 - 1 = omega (arith, score-total mg k, v.sum) in
      record {
        len = length-set mg k (incr x) ∙ v.len;
        sum = omega (arith, total-set mg k (incr x) l, v.sum, (incr_lem x z z small a b).0);
        single = λ y.
            omega (arith, slots_of-set mg k (incr x) y l, v.single y, (incr_lem x z y small a b).2);
        upper = λ y.
            omega (arith, estimate-set mg k (incr x) y l, v.upper y, (incr_lem x z y small a b).1);
        lower = λ y.
            omega (arith, estimate-set mg k (incr x) y l, v.lower y, (incr_lem x z y small a b).1);
      }

  missing : (y : Bytes) → slots_of mg z ≡ 0 → slots_of mg y + indicator (equals_bytes y z) ≤ 1
  missing y h = elim (Bool-cases (equals_bytes y z)) [
    | inl e ↦ rw (e, equals-eq y z e) (omega (arith, h))
    | inr e ↦ rw e (omega (arith, v.single y))
  ]

  vacant_lem :
      (x : Item) (y : Bytes)
      → is_item x ≡ false
      → (x.score ≡ 0)
        × (share x y ≡ 0)
        × (live_share x y ≡ 0)
        × (share (set_item z) y ≡ indicator (equals_bytes y z))
        × (live_share (set_item z) y ≡ indicator (equals_bytes y z))
  unfolding cmp_item
  vacant_lem x y a = ground (arith, a)

  at_vacant :
      (k : ℕ)
      → k < length mg
      → is_item (get_or mg k empty_item) ≡ false
      → slots_of mg z ≡ 0
      → IsSummary size (n + 1) d counted (set mg k (set_item z))
  at_vacant k l a h =
      let x = get_or mg k empty_item in
      record {
        len = length-set mg k (set_item z) ∙ v.len;
        sum = omega (arith, total-set mg k (set_item z) l, v.sum, (vacant_lem x z a).0);
        single = λ y.
            (let w = vacant_lem x y a in
              omega (arith, slots_of-set mg k (set_item z) y l, missing y h, w.2, w.4));
        upper = λ y.
            (let w = vacant_lem x y a in
              omega (arith, estimate-set mg k (set_item z) y l, v.upper y, w.1, w.3));
        lower = λ y.
            (let w = vacant_lem x y a in
              omega (arith, estimate-set mg k (set_item z) y l, v.lower y, w.1, w.3));
      }

  at_nowhere : slots_of mg z ≡ 0 → AllLive mg → IsSummary size (n + 1) (d + 1) counted (map decr mg)
  at_nowhere h a = record {
    len = length-decr mg ∙ v.len;
    sum = omega (arith, total-decr mg a, v.sum, v.len, Nat.mul-suc (size + 1) d);
    single = λ y. omega (arith, slots_of-decr mg y, v.single y);
    upper = λ y. omega (arith, estimate-decr mg y a, v.upper y);
    lower = λ y. omega (arith, estimate-decr mg y a, v.lower y, missing y h);
  }

  placed :
      (p : Place)
      → IsPlace z mg 0 none p
      → (d' : ℕ) × IsSummary size (n + 1) d' counted (elim p [
        | hit i ↦ set mg i (incr (get_or mg i empty_item))
        | vacant i ↦ set mg i (set_item z)
        | nowhere ↦ map decr mg
      ])
  placed (hit i) (k, e, l, a, b) = let z : i ≡ k = omega (arith, e) in rw z (d, at_hit k l a b)
  placed (vacant i) (h, inl e) = absurd (cc)
  placed (vacant i) (h, inr (k, e, l, a)) =
      let z : i ≡ k = omega (arith, e) in rw z (d, at_vacant k l a h)
  placed nowhere (h, a, e) = (d + 1, at_nowhere h a)

  add-slots :
      (p : Place)
      → find_slot mg z 0 none ≡ p
      → (add mg z).0 ≡ elim p [
        | hit i ↦ set mg i (incr (get_or mg i empty_item))
        | vacant i ↦ set mg i (set_item z)
        | nowhere ↦ map decr mg
      ]
  unfolding add
  add-slots (hit i) e = rw (add, e) refl
  add-slots (vacant i) e = rw (add, e) refl
  add-slots nowhere e = rw (add, e) refl

  pub add-IsSummary : (d' : ℕ) × IsSummary size (n + 1) d' counted (add mg z).0
  add-IsSummary =
      let (d', w) = placed (find_slot mg z 0 none) (find_slot-IsPlace z mg 0 none) in
      (
        d',
        subst (λ xs. IsSummary size (n + 1) d' counted xs)
            (sym (add-slots (find_slot mg z 0 none) refl)) w,
      )
