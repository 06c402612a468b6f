-- ===== src/Decimal.antt =====
-- include/mystring.h, to_string for unsigned numbers, and the libc's atoi as net/protocol uses it.
use hm.Prelude.{
  ℕ, zero, suc, ◌+◌, ◌-◌, ◌*◌, ◌/◌, ◌%◌, ◌^◌, ◌≤◌, ◌<◌, [], ◌∷◌, ◌++◌, Bool, true, ltb, leb, ◌==◌,
  ◌&&◌, if◌then◌else◌, length, length-append, All, ◌≡◌, arith, Bool-cases, inl, inr,
}
use hm.Bytes.{Bytes}

abbrev pub is_digit : ℕ → Bool
is_digit c = leb 48 c && leb c 57

-- std::to_chars of a number below 10 ^ fuel
unfoldable pub to_chars : ℕ → ℕ → Bytes
to_chars zero n = []
to_chars (suc fuel) n =
    let rest = to_chars fuel (n / 10) in
    if ltb n 10 then (48 + n) ∷ [] else rest ++ ((48 + n % 10) ∷ [])

-- to_string of a size_t: its largest value has 20 digits
abbrev pub to_string : ℕ → Bytes
to_string n = to_chars 20 n

-- the number that the leading digits spell, after a first part `n`
unfoldable pub digits_value : ℕ → Bytes → ℕ
digits_value n [] = n
digits_value n (c ∷ cs) =
    let rest = digits_value (n * 10 + (c - 48)) cs in if is_digit c then rest else n

-- static_cast<size_t> of an int, given by its 32 bits
abbrev pub size_of_int : ℕ → ℕ
size_of_int w = if ltb w (2 ^ 31) then w else w + (2 ^ 64 - 2 ^ 32)

-- atoi as a size_t: the long of at most 16 characters, cut to an int, extended to 64 bits
unfoldable pub atoi : Bytes → ℕ
unfolding digits_value
atoi [] = 0
atoi (c ∷ cs) =
    if c == 45
    then size_of_int ((2 ^ 32 - digits_value 0 cs % 2 ^ 32) % 2 ^ 32)
    else (if c == 43
        then size_of_int (digits_value 0 cs % 2 ^ 32)
        else size_of_int (digits_value 0 (c ∷ cs) % 2 ^ 32))

abbrev pub IsDigit : ℕ → Type 0
IsDigit c = is_digit c ≡ true

digits_value-snoc :
    (n : ℕ) (cs : Bytes) (d : ℕ)
    → All IsDigit cs
    → IsDigit d
    → digits_value n (cs ++ (d ∷ [])) ≡ digits_value n cs * 10 + (d - 48)
unfolding digits_value
digits_value-snoc n [] d h e = rw e
digits_value-snoc n (c ∷ cs) d h e = rw h.0 (digits_value-snoc (n * 10 + (c - 48)) cs d h.1 e)

All-snoc : (cs : Bytes) (d : ℕ) → All IsDigit cs → IsDigit d → All IsDigit (cs ++ (d ∷ []))
All-snoc [] d h e = (e, tt)
All-snoc (c ∷ cs) d h e = (h.0, All-snoc cs d h.1 e)

low-IsDigit : (n : ℕ) → n < 10 → IsDigit (48 + n)
low-IsDigit n h = ground arith

pow_suc : (k : ℕ) → 10 ^ suc k ≡ 10 ^ k * 10
pow_suc k = omega arith

div_lt : (k n : ℕ) → n < 10 ^ suc k → n / 10 < 10 ^ k
div_lt k n h = let e : 10 ^ suc k ≡ 10 ^ k * 10 = pow_suc k in omega (arith, h, e)

pub to_chars-All : (fuel n : ℕ) → All IsDigit (to_chars fuel n)
unfolding to_chars
to_chars-All zero n = tt
to_chars-All (suc fuel) n = elim (Bool-cases (ltb n 10)) [
  | inl e ↦ rw e (low-IsDigit n (ground (arith, e)), tt)
  | inr e ↦ rw e (
      All-snoc (to_chars fuel (n / 10)) (48 + n % 10) (to_chars-All fuel (n / 10))
        (low-IsDigit (n % 10) (omega arith)))
]

pub digits_value-to_chars : (fuel n : ℕ) → n < 10 ^ fuel → digits_value 0 (to_chars fuel n) ≡ n
unfolding digits_value to_chars
digits_value-to_chars zero n h = omega (arith, h)
digits_value-to_chars (suc fuel) n h = elim (Bool-cases (ltb n 10)) [
  | inl e ↦ rw (e, low-IsDigit n (ground (arith, e))) (omega arith)
  | inr e ↦
      rw
        (
          e,
          digits_value-snoc 0 (to_chars fuel (n / 10)) (48 + n % 10) (to_chars-All fuel (n / 10))
              (low-IsDigit (n % 10) (omega arith)),
          digits_value-to_chars fuel (n / 10) (div_lt fuel n h),
        )
        (omega arith)
]

-- at most as many digits as the fuel
pub length-to_chars-le : (fuel n : ℕ) → length (to_chars fuel n) ≤ fuel
unfolding to_chars
length-to_chars-le zero n = omega arith
length-to_chars-le (suc fuel) n = ground (
  arith,
  length-append (to_chars fuel (n / 10)) ((48 + n % 10) ∷ []),
  length-to_chars-le fuel (n / 10),
)

-- a number below 10 ^ j has at most j digits
pub length-to_chars : (fuel j n : ℕ) → n < 10 ^ suc j → length (to_chars fuel n) ≤ suc j
unfolding to_chars
length-to_chars zero j n h = omega arith
length-to_chars (suc fuel) zero n h = ground (arith, h)
length-to_chars (suc fuel) (suc j) n h = ground (
  arith,
  length-append (to_chars fuel (n / 10)) ((48 + n % 10) ∷ []),
  length-to_chars fuel j (n / 10),
  div_lt (suc j) n h,
)

atoi-digits : (cs : Bytes) → All IsDigit cs → atoi cs ≡ size_of_int (digits_value 0 cs % 2 ^ 32)
unfolding atoi digits_value
atoi-digits [] h = ground arith
atoi-digits (c ∷ cs) h = ground (arith, h.0)

-- atoi reads what to_string wrote, for a number below 2 ^ 31.
pub atoi-to_string : (n : ℕ) → n < 2 ^ 31 → atoi (to_string n) ≡ n
atoi-to_string n h =
    rw
      (atoi-digits (to_string n) (to_chars-All 20 n), digits_value-to_chars 20 n (omega (arith, h)))
      (ground (arith, h))
