-- ===== src/MisraGries/Stream.antt =====
-- The guarantee of Misra and Gries for include/misragries.h, over a stream of additions.
use native.Mathlib.Nat
use hm.Prelude.{
  ℕ, zero, suc, ◌+◌, ◌-◌, ◌*◌, ◌^◌, ◌≤◌, ◌<◌, List, [], ◌∷◌, length, replicate, ◌≡◌, refl, ◌∙◌,
  arith, length-replicate,
}
use hm.Bytes.{Bytes, equals_bytes}
use hm.MisraGries.{Item, empty_item, add, clear}
use hm.MisraGries.Slots.{indicator, estimate, slots_of, total}
use hm.MisraGries.Bound.{IsSummary, add-IsSummary}

-- how often an item is in a stream
unfoldable pub count : List Bytes → Bytes → ℕ
count [] y = 0
count (z ∷ zs) y = indicator (equals_bytes y z) + count zs y

unfoldable pub run : List Item → List Bytes → List Item
run mg [] = mg
run mg (z ∷ zs) = run (add mg z).0 zs

same-IsSummary :
    (size n m d : ℕ) (b c : Bytes → ℕ) (mg : List Item)
    → n ≡ m
    → ((y : Bytes) → b y ≡ c y)
    → IsSummary size n d b mg
    → IsSummary size m d c mg
same-IsSummary size n m d b c mg e f v = record {
  len = v.len;
  sum = v.sum ∙ e;
  single = v.single;
  upper = λ y. omega (arith, v.upper y, f y);
  lower = λ y. omega (arith, v.lower y, f y);
}

cleared :
    (size : ℕ) (y : Bytes)
    → (estimate (replicate size empty_item) y ≡ 0)
      × (slots_of (replicate size empty_item) y ≡ 0)
      × (total (replicate size empty_item) ≡ 0)
unfolding estimate slots_of total
cleared zero y = (refl, refl, refl)
cleared (suc size) y = ground (arith, cleared size y)

IsSummary-clear : (size : ℕ) → IsSummary size 0 0 (λ y. 0) (clear size)
unfolding clear
IsSummary-clear size = record {
  len = length-replicate size empty_item;
  sum = omega (arith, (cleared size []).2);
  single = λ y. omega (arith, (cleared size y).1);
  upper = λ y. omega (arith, (cleared size y).0);
  lower = λ y. omega arith;
}

run-IsSummary :
    (size n d : ℕ) (c : Bytes → ℕ) (mg : List Item) (zs : List Bytes)
    → IsSummary size n d c mg
    → n + length zs < 2 ^ 64
    → (e : ℕ) × IsSummary size (n + length zs) e (λ y. c y + count zs y) (run mg zs)
unfolding run count
run-IsSummary size n d c mg [] v h =
    (d, same-IsSummary size n (n + 0) d c (λ y. c y + 0) mg (omega arith) (λ y. omega arith) v)
run-IsSummary size n d c mg (z ∷ zs) v h =
    let r : n < 2 ^ 64 - 1 = omega (arith, h) in
    let (d1, w) = add-IsSummary size n d c mg z v r in
    let b : Bytes → ℕ = λ y. c y + indicator (equals_bytes y z) in
    let (d2, u) = run-IsSummary size (n + 1) d1 b (add mg z).0 zs w (omega (arith, h)) in
    (
      d2,
      same-IsSummary size (n + 1 + length zs) (n + suc (length zs)) d2 (λ y. b y + count zs y)
          (λ y. c y + (indicator (equals_bytes y z) + count zs y)) (run (add mg z).0 zs)
          (omega arith) (λ y. omega arith) u,
    )

-- After fewer than 2 ^ 64 additions to cleared counters of `size` slots, the score held for an item is
-- at most its number of additions, and falls short of it by at most the length of the stream divided
-- by the number of slots and one.
pub estimate-run :
    (size : ℕ) (zs : List Bytes) (y : Bytes)
    → length zs < 2 ^ 64
    → let held = estimate (run (clear size) zs) y in
      (held ≤ count zs y) × ((size + 1) * (count zs y - held) ≤ length zs)
estimate-run size zs y h =
    let (d, v) =
      run-IsSummary size 0 0 (λ y. 0) (clear size) zs (IsSummary-clear size) (omega (arith, h)) in
    let held = estimate (run (clear size) zs) y in
    let short : (size + 1) * (count zs y - held) ≤ length zs = omega (
      arith,
      v.sum,
      Nat.mul-le-mul_left {m = count zs y - held} {n = d} (size + 1) (omega (arith, v.lower y)),
    ) in
    (omega (arith, v.upper y), short)
