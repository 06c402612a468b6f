-- ===== src/Lcp.antt =====
-- include/cmplcp.h: a comparison that also tells how long the common prefix is. The blocks of 1, 2, 4
-- and 8 bytes that cmpMain and cmpLong read find the first byte that differs; the model reads bytes.
use hm.Prelude.{
  ℕ, zero, suc, ◌+◌, ◌≤◌, ◌<◌, [], ◌∷◌, Ordering, compare, length, drop, min, ◌==◌, if◌then◌else◌,
  ◌≡◌, refl, arith,
}
use hm.Bytes.{Bytes, compare_bytes, memcmp, memcmp_then_size}

-- cmpMain, with bytes as uint8_t: both strings have at least `size` bytes
unfoldable pub cmp_main : ℕ → Bytes → Bytes → Ordering × ℕ
cmp_main zero a b = (Ordering.eq, 0)
cmp_main (suc size) (x ∷ a) (y ∷ b) =
    let (c, i) = cmp_main size a b in
    elim (compare x y) [
      | Ordering.lt ↦ (Ordering.lt, 0)
      | Ordering.eq ↦ (c, i + 1)
      | Ordering.gt ↦ (Ordering.gt, 0)
    ]
cmp_main (suc size) a b = (Ordering.eq, 0)

-- cmpLCP
unfoldable pub cmp_lcp : Bytes → Bytes → Ordering × ℕ
unfolding cmp_main
cmp_lcp a b =
    let size = min (length a) (length b) in
    if size == 0
    then (Ordering.eq, 0)
    else (let (c, i) = cmp_main size a b in
        elim c [
          | Ordering.lt ↦ (Ordering.lt, i)
          | Ordering.eq ↦ (compare (length a) (length b), size)
          | Ordering.gt ↦ (Ordering.gt, i)
        ])

-- cmpLCP from an offset; substr asks that it is not behind the end of either string
unfoldable pub cmp_lcp_from : Bytes → Bytes → ℕ → Ordering × ℕ
unfolding cmp_lcp
cmp_lcp_from a b start = cmp_lcp (drop start a) (drop start b)

cmp_main-memcmp :
    (size : ℕ) (a b : Bytes) → size ≡ min (length a) (length b) → (cmp_main size a b).0 ≡ memcmp a b
unfolding cmp_main
cmp_main-memcmp zero [] b h = refl
cmp_main-memcmp zero (x ∷ a) [] h = refl
cmp_main-memcmp zero (x ∷ a) (y ∷ b) h = absurd (omega (arith, h))
cmp_main-memcmp (suc size) [] b h = absurd (omega (arith, h))
cmp_main-memcmp (suc size) (x ∷ a) [] h = absurd (omega (arith, h))
cmp_main-memcmp (suc size) (x ∷ a) (y ∷ b) h = ground (arith, cmp_main-memcmp size a b)

-- Of two strings that are not empty, cmpLCP tells the order of memcmp and then of the sizes.
pub cmp_lcp-memcmp :
    (x : ℕ) (a : Bytes) (y : ℕ) (b : Bytes)
    → (cmp_lcp (x ∷ a) (y ∷ b)).0 ≡ memcmp_then_size (x ∷ a) (y ∷ b)
unfolding cmp_lcp
cmp_lcp-memcmp x a y b =
    ground (arith, cmp_main-memcmp (min (length (x ∷ a)) (length (y ∷ b))) (x ∷ a) (y ∷ b))

-- The two orders of keys agree on keys whose first bytes are below 128: `compare`, by which the
-- memory lists sort, and cmpLCP, by which the tables are searched.
pub cmp_lcp-compare :
    (x : ℕ) (a : Bytes) (y : ℕ) (b : Bytes)
    → x < 128
    → y < 128
    → (cmp_lcp (x ∷ a) (y ∷ b)).0 ≡ compare_bytes (x ∷ a) (y ∷ b)
unfolding compare_bytes
cmp_lcp-compare x a y b h k = ground (arith, cmp_lcp-memcmp x a y b)

-- They disagree wherever one first byte is below 128 and the other is not: `compare` takes the first
-- bytes for signed characters and cmpLCP for unsigned ones.
pub cmp_lcp-compare_signed :
    (x : ℕ) (a : Bytes) (y : ℕ) (b : Bytes)
    → x < 128
    → 128 ≤ y
    → y < 256
    → ((cmp_lcp (x ∷ a) (y ∷ b)).0 ≡ Ordering.lt) × (compare_bytes (x ∷ a) (y ∷ b) ≡ Ordering.gt)
unfolding compare_bytes
cmp_lcp-compare_signed x a y b h k l = ground (arith, cmp_lcp-memcmp x a y b)
