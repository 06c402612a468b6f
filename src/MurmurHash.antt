-- ===== src/MurmurHash.antt =====
-- include/murmur_hash_64a.h on a little-endian machine, with the seed 0 that its callers leave.
use Prim.Native.Nat.{bit_xor}
use hm.Prelude.{ℕ, ◌+◌, ◌*◌, ◌/◌, ◌%◌, ◌^◌, [], ◌∷◌, length}
use hm.Bytes.{Bytes}

abbrev multiplier : ℕ
multiplier = 0xc6a4a7935bd1e995

times : ℕ → ℕ
times h = (h * multiplier) % 2 ^ 64

-- `h ^= h >> r`
shifted : ℕ → ℕ
shifted h = bit_xor h (h / 2 ^ 47)

-- the bytes of a number, the lowest first; those of an incomplete block are joined the same way
little_endian : Bytes → ℕ
little_endian [] = 0
little_endian (c ∷ s) = c + 256 * little_endian s

-- one round of the loop
mix : ℕ → ℕ → ℕ
unfolding times shifted
mix h k = times (bit_xor h (times (shifted (times k))))

-- the loop over blocks of eight bytes, and the bytes behind them
blocks : ℕ → Bytes → ℕ
unfolding mix little_endian times
blocks h [] = h
blocks h (c0 ∷ c1 ∷ c2 ∷ c3 ∷ c4 ∷ c5 ∷ c6 ∷ c7 ∷ s) =
    blocks (mix h (little_endian (c0 ∷ c1 ∷ c2 ∷ c3 ∷ c4 ∷ c5 ∷ c6 ∷ c7 ∷ []))) s
blocks h s = times (bit_xor h (little_endian s))

-- murmur_hash64a
unfoldable pub murmur_hash64a : Bytes → ℕ
unfolding blocks times shifted
murmur_hash64a s = shifted (times (shifted (blocks ((length s * multiplier) % 2 ^ 64) s)))
