-- ===== src/CuckooFilter/Paired.antt =====
-- hashAltIndex of include/cuckoofilter.h leads back where the number of buckets is a power of two.
use Prim.Native.Nat.{bit_xor, bit_xor-bitwise, digits, differ}
use native.Mathlib.Nat.{mod-add-div', add-mul-mod_self_right, mod-eq_of_lt, mod-lt, mul_assoc}
use hm.Prelude.{ℕ, zero, suc, ◌+◌, ◌*◌, ◌/◌, ◌<◌, ◌≤◌, ◌%◌, ◌^◌, ◌≡◌, refl, ◌∙◌, ap, arith}
use hm.MurmurHash.{murmur_hash64a}
use hm.CuckooFilter.{hash_alt_index, memory_of}
use hm.CuckooFilter.Kept.{IsPaired}

-- the exclusive or of the lowest digits
abbrev low_xor : ℕ → ℕ → ℕ → ℕ
low_xor zero a b = 0
low_xor (suc k) a b = low_xor k (a / 2) (b / 2) * 2 + differ (a % 2) (b % 2)

mod_double : (q d m : ℕ) → d < 2 → 0 < m → (q * 2 + d) % (m * 2) ≡ q % m * 2 + d
mod_double q d m h p =
    let e : q * 2 + d ≡ (q % m * 2 + d) + q / m * (m * 2) =
      omega (arith, mod-add-div' q m, mul_assoc (q / m) m 2) in
    ap (λ t. t % (m * 2)) e
    ∙ add-mul-mod_self_right (q % m * 2 + d) (q / m) (m * 2)
    ∙ mod-eq_of_lt (omega (arith, mod-lt q p, h))

pub pow_pos : (k : ℕ) → 0 < 2 ^ k
pow_pos zero = omega arith
pow_pos (suc k) = omega (arith, pow_pos k)

mod_power : (q d k : ℕ) → d < 2 → (q * 2 + d) % 2 ^ suc k ≡ q % 2 ^ k * 2 + d
mod_power q d k h =
    let e : 2 ^ suc k ≡ 2 ^ k * 2 = omega arith in
    ap (λ t. (q * 2 + d) % t) e ∙ mod_double q d (2 ^ k) h (pow_pos k)

differ_digit : (a b : ℕ) → a < 2 → b < 2 → (differ a b < 2) × (differ (differ a b) b ≡ a)
differ_digit zero b h k = (k, differ_self b)
  where
    differ_self : (b : ℕ) → differ b b ≡ 0
    differ_self zero = refl
    differ_self (suc b) = differ_self b
differ_digit (suc zero) zero h k = (omega arith, refl)
differ_digit (suc zero) (suc zero) h k = (omega arith, refl)
differ_digit (suc zero) (suc (suc b)) h k = absurd (omega (arith, k))
differ_digit (suc (suc a)) b h k = absurd (omega (arith, h))

-- two times
low_xor_back : (k i h : ℕ) → i < 2 ^ k → low_xor k (low_xor k i h) h ≡ i
low_xor_back zero i h l = omega (arith, l)
low_xor_back (suc k) i h l =
    let (small, back) = differ_digit (i % 2) (h % 2) (omega arith) (omega arith) in
    let q = low_xor k (i / 2) (h / 2) in
    let d = differ (i % 2) (h % 2) in
    let half : (q * 2 + d) / 2 ≡ q = omega (arith, small) in
    let odd : (q * 2 + d) % 2 ≡ d = omega (arith, small) in
    let ih = low_xor_back k (i / 2) (h / 2) (omega (arith, l)) in
    let high : low_xor k ((q * 2 + d) / 2) (h / 2) ≡ i / 2 =
      ap (λ t. low_xor k t (h / 2)) half ∙ ih in
    let low : differ ((q * 2 + d) % 2) (h % 2) ≡ i % 2 = ap (λ t. differ t (h % 2)) odd ∙ back in
    omega (arith, high, low)

low_xor_zero : (k b : ℕ) → b % 2 ^ k ≡ low_xor k 0 b
low_xor_zero zero b = omega arith
low_xor_zero (suc k) b =
    let e : b ≡ b / 2 * 2 + b % 2 = omega arith in
    let ih = low_xor_zero k (b / 2) in
    ap (λ t. t % 2 ^ suc k) e
    ∙ mod_power (b / 2) (b % 2) k (omega arith)
    ∙ ap (λ t. t * 2 + b % 2) ih

digits-low_xor : (k n a b : ℕ) → a ≤ n → digits (λ b. b) differ n a b % 2 ^ k ≡ low_xor k a b
digits-low_xor zero n a b h = omega arith
digits-low_xor (suc k) zero zero b h = low_xor_zero (suc k) b
digits-low_xor (suc k) zero (suc a) b h = absurd (omega (arith, h))
digits-low_xor (suc k) (suc n) zero b h = low_xor_zero (suc k) b
digits-low_xor (suc k) (suc n) (suc a) b h =
    let small = (differ_digit (suc a % 2) (b % 2) (omega arith) (omega arith)).0 in
    mod_power (digits (λ b. b) differ n (suc a / 2) (b / 2)) (differ (suc a % 2) (b % 2)) k small
    ∙ ap (λ t. t * 2 + differ (suc a % 2) (b % 2))
        (digits-low_xor k n (suc a / 2) (b / 2) (omega (arith, h)))

xor-low_xor : (k a b : ℕ) → bit_xor a b % 2 ^ k ≡ low_xor k a b
xor-low_xor k a b =
    let e : bit_xor a b ≡ digits (λ b. b) differ a a b = λ i. bit_xor-bitwise a b i in
    ap (λ t. t % 2 ^ k) e ∙ digits-low_xor k a a b (omega arith)

-- Where the number of buckets is a power of two, the other bucket of the other bucket of any
-- fingerprint is the first one.
pub power-IsPaired : (fp_bytes slots k : ℕ) → IsPaired fp_bytes slots (2 ^ k)
unfolding hash_alt_index
power-IsPaired fp_bytes slots k i fp l =
    let h = murmur_hash64a (memory_of fp_bytes fp) in
    xor-low_xor k (bit_xor i h % 2 ^ k) h
    ∙ ap (λ t. low_xor k t h) (xor-low_xor k i h)
    ∙ low_xor_back k i h l
