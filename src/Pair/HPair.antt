-- ===== src/Pair/HPair.antt =====
-- hm4/hpair.h with include/stringhash.h for uint64_t on a little-endian machine: the first eight
-- bytes of a key as a number, which the linked lists compare before the keys.
use native.Mathlib.Nat
use hm.Prelude.{
  ℕ, zero, suc, ◌+◌, ◌*◌, ◌%◌, ◌^◌, ◌<◌, ◌≤◌, [], ◌∷◌, Bool, true, Ordering, compare, drop, take,
  ◌==◌, ◌&&◌, if◌then◌else◌, ◌≡◌, refl, arith, All, then_cmp, ◌∙◌, ap, sym,
}
use hm.Bytes.{Bytes, memcmp_then_size, compare_bytes}
use hm.Bytes.Order.{split, memcmp_eq}
use hm.Pair.{Pair, is_key_valid}

-- StringHash::create: a big-endian number, filled with zeros behind the end of the string
unfoldable pub create_hash : ℕ → Bytes → ℕ
create_hash zero s = 0
create_hash (suc n) [] = 0
create_hash (suc n) (c ∷ s) = c * 256 ^ n + create_hash n s

-- HPair::SS::create
abbrev pub hkey_of : Bytes → ℕ
hkey_of s = create_hash 8 s

-- StringHash::compare with sizeCheck__: equal numbers decide if their last byte is zero
unfoldable pub hash_compare : ℕ → ℕ → Bool × Ordering
hash_compare a b = elim (compare a b) [
  | Ordering.lt ↦ (true, Ordering.lt)
  | Ordering.eq ↦ (a % 256 == 0 && b % 256 == 0, Ordering.eq)
  | Ordering.gt ↦ (true, Ordering.gt)
]

-- Pair::cmpX<8>; both keys have eight bytes at least
abbrev pub cmp_behind : Pair → Bytes → Ordering
cmp_behind p key = compare_bytes (drop 8 p.key) (drop 8 key)

-- HPair::cmp
unfoldable pub hpair_cmp : ℕ → Pair → ℕ → Bytes → Ordering
unfolding hash_compare
hpair_cmp src_hkey src_pair hkey key =
    let (ok, result) = hash_compare src_hkey hkey in if ok then result else cmp_behind src_pair key

-- ASCII without NUL
abbrev pub IsAscii : Bytes → Type 0
IsAscii = All (λ c. (0 < c) × (c < 128))

-- a valid key that is ASCII without NUL
abbrev pub IsAsciiKey : Bytes → Type 0
IsAsciiKey key = (is_key_valid key ≡ true) × IsAscii key

mul_step : (c d p : ℕ) → c < d → c * p + p ≤ d * p
mul_step c d p h =
    omega (arith, Nat.mul-le-mul_right {m = suc c} {n = d} p (omega arith), Nat.suc-mul c p)

-- one more digit before two numbers below `p`
digit :
    (c d p h k : ℕ)
    → h < p
    → k < p
    → compare (c * p + h) (d * p + k) ≡ then_cmp (compare c d) (compare h k)
digit c d p h k hp kp = ground (arith, mul_step c d p, mul_step d c p)

hash-lt : (n : ℕ) (s : Bytes) → IsAscii s → create_hash n s < 256 ^ n
unfolding create_hash
hash-lt zero s a = omega arith
hash-lt (suc n) [] a = rw (Nat.pow-suc 256 n) (omega (arith, hash-lt n [] tt))
hash-lt (suc n) (c ∷ s) a =
    rw (Nat.pow-suc 256 n)
      (omega (arith, hash-lt n s a.1, mul_step c 256 (256 ^ n) (omega (arith, a.0.1))))

pub hash-take :
    (n : ℕ) (a b : Bytes)
    → IsAscii a
    → IsAscii b
    → compare (create_hash n a) (create_hash n b) ≡ memcmp_then_size (take n a) (take n b)
unfolding create_hash
hash-take zero a b h k = refl
hash-take (suc n) [] [] h k = refl
hash-take (suc n) [] (d ∷ b) h k = ground (arith, hash-lt n b k.1, mul_step 0 d (256 ^ n))
hash-take (suc n) (c ∷ a) [] h k = ground (arith, hash-lt n a h.1, mul_step 0 c (256 ^ n))
hash-take (suc n) (c ∷ a) (d ∷ b) h k =
    digit c d (256 ^ n) (create_hash n a) (create_hash n b) (hash-lt n a h.1) (hash-lt n b k.1)
    ∙ ap (then_cmp (compare c d)) (hash-take n a b h.1 k.1)
    ∙ ground arith

-- eight bytes that are not zero do not end with a zero
pub drop-short : (s : Bytes) → IsAscii s → hkey_of s % 256 ≡ 0 → drop 8 s ≡ []
unfolding create_hash
drop-short [] a h = refl
drop-short (c1 ∷ []) a h = refl
drop-short (c1 ∷ c2 ∷ []) a h = refl
drop-short (c1 ∷ c2 ∷ c3 ∷ []) a h = refl
drop-short (c1 ∷ c2 ∷ c3 ∷ c4 ∷ []) a h = refl
drop-short (c1 ∷ c2 ∷ c3 ∷ c4 ∷ c5 ∷ []) a h = refl
drop-short (c1 ∷ c2 ∷ c3 ∷ c4 ∷ c5 ∷ c6 ∷ []) a h = refl
drop-short (c1 ∷ c2 ∷ c3 ∷ c4 ∷ c5 ∷ c6 ∷ c7 ∷ []) a h = refl
drop-short (c1 ∷ c2 ∷ c3 ∷ c4 ∷ c5 ∷ c6 ∷ c7 ∷ c8 ∷ s) a h =
    absurd (omega (arith, h, a.1.1.1.1.1.1.1.0))

pub compare_ascii : (a b : Bytes) → IsAscii a → IsAscii b → compare_bytes a b ≡ memcmp_then_size a b
unfolding compare_bytes
compare_ascii [] b h k = refl
compare_ascii (x ∷ a) [] h k = refl
compare_ascii (x ∷ a) (y ∷ b) h k = ground arith

IsAscii-drop : (n : ℕ) (s : Bytes) → IsAscii s → IsAscii (drop n s)
IsAscii-drop zero s a = a
IsAscii-drop (suc n) [] a = tt
IsAscii-drop (suc n) (c ∷ s) a = IsAscii-drop n s a.1

-- equal numbers are those of equal beginnings
pub take-hkey_of :
    (a b : Bytes) → IsAscii a → IsAscii b → hkey_of a ≡ hkey_of b → take 8 a ≡ take 8 b
take-hkey_of a b h k e =
    memcmp_eq (take 8 a) (take 8 b) (sym (hash-take 8 a b h k) ∙ ground (arith, e))

-- a smaller number in front is a smaller key
pub hkey_of-lt :
    (a b : Bytes) → IsAscii a → IsAscii b → hkey_of a < hkey_of b → compare_bytes a b ≡ Ordering.lt
hkey_of-lt a b h k l =
    compare_ascii a b h k ∙ split 8 a b ∙ rw (← hash-take 8 a b h k) (ground arith)

both_short :
    (a b : Bytes)
    → IsAscii a
    → IsAscii b
    → hkey_of a % 256 ≡ 0
    → hkey_of b % 256 ≡ 0
    → memcmp_then_size (drop 8 a) (drop 8 b) ≡ Ordering.eq
both_short a b h k p q = rw (drop-short a h p, drop-short b k q) refl

behind :
    (p : Pair) (key : Bytes)
    → IsAscii p.key
    → IsAscii key
    → cmp_behind p key ≡ memcmp_then_size (drop 8 p.key) (drop 8 key)
behind p key h k =
    compare_ascii (drop 8 p.key) (drop 8 key) (IsAscii-drop 8 p.key h) (IsAscii-drop 8 key k)

decide :
    (x y : ℕ) (o r : Ordering)
    → (x % 256 ≡ 0 → y % 256 ≡ 0 → r ≡ Ordering.eq)
    → o ≡ r
    → (let (ok, c) = hash_compare x y in if ok then c else o) ≡ then_cmp (compare x y) r
unfolding hash_compare
decide x y o r h e = ground arith

-- Of a pair and a key that are ASCII without NUL, the comparison of the first eight bytes as one
-- number, and of the rest where these do not decide, is the comparison of the two keys.
pub hpair_cmp-compare :
    (p : Pair) (key : Bytes)
    → IsAscii p.key
    → IsAscii key
    → hpair_cmp (hkey_of p.key) p (hkey_of key) key ≡ compare_bytes p.key key
unfolding hpair_cmp
hpair_cmp-compare p key h k =
    decide (hkey_of p.key) (hkey_of key) (cmp_behind p key)
      (memcmp_then_size (drop 8 p.key) (drop 8 key)) (both_short p.key key h k) (behind p key h k)
    ∙ ap (λ o. then_cmp o (memcmp_then_size (drop 8 p.key) (drop 8 key)))
        (hash-take 8 p.key key h k)
    ∙ sym (split 8 p.key key)
    ∙ sym (compare_ascii p.key key h k)
