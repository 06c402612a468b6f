-- ===== src/HexConvert.antt =====
-- include/hexconvert.h. A type of the template is its number of hexadecimal digits, twice its bytes.
use hm.Prelude.{
  ℕ, zero, suc, ◌+◌, ◌-◌, ◌*◌, ◌/◌, ◌%◌, ◌^◌, ◌≤◌, ◌<◌, [], ◌∷◌, ◌++◌, Bool, true, false, ltb, leb,
  ◌==◌, ◌&&◌, ◌||◌, not, length, if◌then◌else◌, ◌≡◌, refl, ◌∙◌, ap, ap₂, All, arith,
}
use native.Mathlib.Nat.{pow-le-pow_right, mod-eq_of_lt}
use hm.Bytes.{Bytes}

-- digits[index], in upper or lower case
unfoldable pub hex_digit : Bool → ℕ → ℕ
hex_digit upper index =
    if ltb index 10 then 48 + index else if upper then 55 + index else 87 + index

-- toHex: the digit of `(number >> 4 * i) & 0xF` goes to place `size - 1 - i`
unfoldable pub to_hex : Bool → ℕ → ℕ → Bytes
unfolding hex_digit
to_hex upper zero number = []
to_hex upper (suc size) number =
    to_hex upper size (number / 16) ++ (hex_digit upper (number % 16) ∷ [])

-- the switch of fromHex
unfoldable pub nibble : ℕ → ℕ
nibble c =
    if leb 48 c && leb c 57
    then c - 48
    else (if leb 65 c && leb c 70 then c - 55 else (if leb 97 c && leb c 102 then c - 87 else 0))

-- the loop of fromHex: T(val << 4) | nibble, where the low four bits are free
unfoldable pub from_hex_loop : ℕ → ℕ → Bytes → ℕ
unfolding nibble
from_hex_loop size val [] = val
from_hex_loop size val (c ∷ hex) = from_hex_loop size (val * 16 % 16 ^ size + nibble c) hex

-- fromHex
unfoldable pub from_hex : ℕ → Bytes → ℕ
unfolding from_hex_loop
from_hex size hex = from_hex_loop size 0 hex

-- the loop of fromHexBytes over an even number of digits
unfoldable pub from_hex_pairs : Bytes → Bytes
unfolding from_hex
from_hex_pairs (a ∷ b ∷ hex) = from_hex 2 (a ∷ b ∷ []) ∷ from_hex_pairs hex
from_hex_pairs hex = []

-- fromHexBytes into a buffer of `n` bytes
unfoldable pub from_hex_bytes : ℕ → Bytes → Bytes
unfolding from_hex_pairs
from_hex_bytes n hex =
    if not (length hex % 2 == 0) || ltb n (length hex / 2) then [] else from_hex_pairs hex

nibble-hex_digit : (upper : Bool) (d : ℕ) → d < 16 → nibble (hex_digit upper d) ≡ d
unfolding nibble hex_digit
nibble-hex_digit true d h = ground (arith, h)
nibble-hex_digit false d h = ground (arith, h)

from_hex_loop-snoc :
    (size val : ℕ) (hex : Bytes) (c : ℕ)
    → from_hex_loop size val (hex ++ (c ∷ []))
      ≡ from_hex_loop size val hex * 16 % 16 ^ size + nibble c
unfolding from_hex_loop
from_hex_loop-snoc size val [] c = refl
from_hex_loop-snoc size val (d ∷ hex) c =
    from_hex_loop-snoc size (val * 16 % 16 ^ size + nibble d) hex c

div_lt : (k n : ℕ) → n < 16 ^ suc k → n / 16 < 16 ^ k
div_lt k n h = let e : 16 ^ suc k ≡ 16 ^ k * 16 = omega arith in omega (arith, h, e)

from_hex_loop-to_hex :
    (upper : Bool) (size width number : ℕ)
    → number < 16 ^ width
    → width ≤ size
    → from_hex_loop size 0 (to_hex upper width number) ≡ number
unfolding from_hex_loop to_hex
from_hex_loop-to_hex upper size zero number h w = omega (arith, h)
from_hex_loop-to_hex upper size (suc width) number h w =
    let wide : 16 ^ suc width ≤ 16 ^ size = pow-le-pow_right (omega arith) w in
    let same : number / 16 * 16 % 16 ^ size ≡ number / 16 * 16 =
      mod-eq_of_lt (omega (arith, h, wide)) in
    from_hex_loop-snoc size 0 (to_hex upper width (number / 16)) (hex_digit upper (number % 16))
    ∙ rw
        (
          from_hex_loop-to_hex upper size width (number / 16) (div_lt width number h)
              (omega (arith, w)),
          same,
          nibble-hex_digit upper (number % 16) (omega arith),
        )
        (omega arith)

-- fromHex reads what toHex wrote of a number that the type holds, in either case.
pub from_hex-to_hex :
    (upper : Bool) (size number : ℕ)
    → number < 16 ^ size
    → from_hex size (to_hex upper size number) ≡ number
unfolding from_hex
from_hex-to_hex upper size number h = from_hex_loop-to_hex upper size size number h (omega arith)

fits : (m k n : ℕ) → m ≡ 2 * k → k ≤ n → (not (m % 2 == 0) || ltb n (m / 2)) ≡ false
fits m k n e l = ground (arith, e, l)

-- a byte string as toHex writes its bytes one after the other
unfoldable pub to_hex_all : Bool → Bytes → Bytes
unfolding to_hex
to_hex_all upper [] = []
to_hex_all upper (b ∷ bs) = to_hex upper 2 b ++ to_hex_all upper bs

length-to_hex_all : (upper : Bool) (bs : Bytes) → length (to_hex_all upper bs) ≡ 2 * length bs
unfolding to_hex_all
length-to_hex_all upper [] = omega arith
length-to_hex_all upper (b ∷ bs) = omega (arith, length-to_hex_all upper bs)

from_hex_pairs-to_hex_all :
    (upper : Bool) (bs : Bytes) → All (λ b. b < 256) bs → from_hex_pairs (to_hex_all upper bs) ≡ bs
unfolding to_hex_all from_hex_pairs
from_hex_pairs-to_hex_all upper [] h = refl
from_hex_pairs-to_hex_all upper (b ∷ bs) h =
    ap₂ (λ x xs. x ∷ xs) (from_hex-to_hex upper 2 b (omega (arith, h.0)))
      (from_hex_pairs-to_hex_all upper bs h.1)

-- fromHexBytes reads the bytes whose digits toHex wrote one after the other, in either case, into
-- any buffer that can hold them.
pub from_hex_bytes-to_hex_all :
    (upper : Bool) (n : ℕ) (bs : Bytes)
    → All (λ b. b < 256) bs
    → length bs ≤ n
    → from_hex_bytes n (to_hex_all upper bs) ≡ bs
unfolding from_hex_bytes
from_hex_bytes-to_hex_all upper n bs h l =
    ap (λ b. if b then [] else from_hex_pairs (to_hex_all upper bs))
      (fits (length (to_hex_all upper bs)) (length bs) n (length-to_hex_all upper bs) l)
    ∙ from_hex_pairs-to_hex_all upper bs h
