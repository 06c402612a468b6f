-- ===== src/Oprime.antt =====
-- include/oprime.h: the sizes of hash indexes, numbers that no small odd prime divides.
use hm.Prelude.{
  ℕ, zero, suc, ◌+◌, ◌-◌, ◌*◌, ◌/◌, ◌%◌, ◌^◌, ◌≤◌, ◌<◌, List, [], ◌∷◌, Bool, true, false, Option,
  none, some, leb, ◌==◌, if◌then◌else◌, ◌≡◌, refl, ◌∙◌, ap, arith, inl, inr, Bool-cases, add64,
}

-- SMALL_PRIMES
abbrev pub small_primes : List ℕ
small_primes =
    3 ∷ 5 ∷ 7 ∷ 11 ∷ 13 ∷ 17 ∷ 19 ∷ 23 ∷ 29 ∷ 31 ∷ 37 ∷ 41 ∷ 43 ∷ 47 ∷ 53 ∷ 59 ∷ 61 ∷ 67 ∷ 71 ∷ 73
    ∷ 79 ∷ 83 ∷ 89 ∷ 97 ∷ 101 ∷ 103 ∷ 107 ∷ 109 ∷ 113 ∷ 127 ∷ 131 ∷ 137 ∷ 139 ∷ 149 ∷ 151 ∷ 157
    ∷ 163 ∷ 167 ∷ 173 ∷ 179 ∷ 181 ∷ 191 ∷ 193 ∷ 197 ∷ 199 ∷ 211 ∷ 223 ∷ 227 ∷ 229 ∷ 233 ∷ 239 ∷ 241
    ∷ 251 ∷ []

-- the loop of isOPrime
unfoldable pub indivisible : List ℕ → ℕ → Bool
indivisible [] value = true
indivisible (prime ∷ primes) value = if value % prime == 0 then false else indivisible primes value

-- isOPrime; it is false of the small primes themselves
unfoldable pub is_oprime : ℕ → Bool
unfolding indivisible
is_oprime value = indivisible small_primes value

-- the loop of next; `none` means that the fuel ran out
unfoldable pub next_loop : ℕ → ℕ → Option ℕ
next_loop zero start = none
next_loop (suc fuel) start =
    let rest = next_loop fuel (add64 start 2) in if is_oprime start then some start else rest

-- next
unfoldable pub next : ℕ → ℕ → Option ℕ
unfolding next_loop is_oprime
next fuel start =
    if leb start 3 then some 3 else next_loop fuel (if start % 2 == 0 then start + 1 else start)

-- the largest prime of 64 bits
abbrev pub last_prime : ℕ
last_prime = 2 ^ 64 - 59

last-is_oprime : is_oprime last_prime ≡ true
unfolding is_oprime
last-is_oprime = refl

-- the first of the odd numbers from `start` on that no small prime divides
pub record IsNext (start r : ℕ) : Type 0 where
  pub divided_by_none : is_oprime r ≡ true
  pub odd : r % 2 ≡ 1
  pub above : start ≤ r
  pub below : r ≤ last_prime
  pub first : (x : ℕ) → start ≤ x → x < r → x % 2 ≡ 1 → is_oprime x ≡ false

stop :
    (start : ℕ) → is_oprime start ≡ true → start % 2 ≡ 1 → start ≤ last_prime → IsNext start start
stop start t o b = record {
  divided_by_none = t;
  odd = o;
  above = omega arith;
  below = b;
  first = λ x h k p. absurd (omega (arith, h, k));
}

skip :
    (start r x : ℕ)
    → is_oprime start ≡ false
    → start % 2 ≡ 1
    → ((y : ℕ) → start + 2 ≤ y → y < r → y % 2 ≡ 1 → is_oprime y ≡ false)
    → start ≤ x
    → x < r
    → x % 2 ≡ 1
    → is_oprime x ≡ false
skip start r x t o first h k p = elim (Bool-cases (x == start)) [
  | inl e ↦ let same : x ≡ start = ground (arith, e) in rw same t
  | inr e ↦ first x (ground (arith, e, h, o, p)) k p
]

loop_step :
    (fuel start : ℕ)
    → is_oprime start ≡ false
    → next_loop (suc fuel) start ≡ next_loop fuel (add64 start 2)
unfolding next_loop
loop_step fuel start t = rw t refl

next_loop-IsNext :
    (n fuel start : ℕ)
    → start + 2 * n ≡ last_prime
    → n < fuel
    → (r : ℕ) × (next_loop fuel start ≡ some r) × IsNext start r
unfolding next_loop
next_loop-IsNext n zero start e h = absurd (omega (arith, h))
next_loop-IsNext zero (suc fuel) start e h =
    let same : start ≡ last_prime = omega (arith, e) in
    let t : is_oprime start ≡ true = ap is_oprime same ∙ last-is_oprime in
    (start, rw t refl, stop start t (omega (arith, e)) (omega (arith, e)))
next_loop-IsNext (suc n) (suc fuel) start e h = elim (Bool-cases (is_oprime start)) [
  | inl t ↦ (start, rw t refl, stop start t (omega (arith, e)) (omega (arith, e)))
  | inr t ↦
      let odd : start % 2 ≡ 1 = omega (arith, e) in
      let step : add64 start 2 ≡ start + 2 = omega (arith, e) in
      let (r, returned, v) =
        next_loop-IsNext n fuel (start + 2) (omega (arith, e)) (omega (arith, h)) in
      (
        r,
        loop_step fuel start t ∙ ap (next_loop fuel) step ∙ returned,
        record {
          divided_by_none = v.divided_by_none;
          odd = v.odd;
          above = omega (arith, v.above);
          below = v.below;
          first = λ x. skip start r x t odd v.first;
        },
      )
]

abbrev odd_from : ℕ → ℕ
odd_from start = if start % 2 == 0 then start + 1 else start

odd_from-odd : (start : ℕ) → odd_from start % 2 ≡ 1
odd_from-odd start = ground arith

odd_from-le : (start : ℕ) → start ≤ last_prime → odd_from start ≤ last_prime
odd_from-le start h = ground (arith, h)

odd_from-above : (start : ℕ) → start ≤ odd_from start
odd_from-above start = ground arith

odd_from-first : (start x : ℕ) → start ≤ x → x % 2 ≡ 1 → odd_from start ≤ x
odd_from-first start x h o = ground (arith, h, o)

next_step :
    (fuel start : ℕ) → leb start 3 ≡ false → next fuel start ≡ next_loop fuel (odd_from start)
unfolding next
next_step fuel start h = rw h refl

-- For every number above 3 up to the largest prime of 64 bits the loop of next ends within 2 ^ 63
-- rounds, without an overflow, and returns the first odd number from there on that no small prime divides.
pub next-IsNext :
    (fuel start : ℕ)
    → 3 < start
    → start ≤ last_prime
    → 2 ^ 63 ≤ fuel
    → (r : ℕ) × (next fuel start ≡ some r) × IsNext start r
unfolding next
next-IsNext fuel start l h f =
    let s = odd_from start in
    let o = odd_from-odd start in
    let b = odd_from-le start h in
    let large : leb start 3 ≡ false = ground (arith, l) in
    let (r, returned, v) =
      next_loop-IsNext ((last_prime - s) / 2) fuel s (omega (arith, o, b)) (omega (arith, f)) in
    (
      r,
      next_step fuel start large ∙ returned,
      record {
        divided_by_none = v.divided_by_none;
        odd = v.odd;
        above = omega (arith, odd_from-above start, v.above);
        below = v.below;
        first = λ x p q odd. v.first x (odd_from-first start x p odd) q odd;
      },
    )
