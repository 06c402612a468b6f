-- ===== src/MyTime.antt =====
-- common/mytime.h: 64-bit time stamps, seconds in the high half and microseconds in the low half.
-- The clock is not a definition: functions that read it take the time `now` as an argument.
use hm.Prelude.{ℕ, ◌+◌, ◌-◌, ◌*◌, ◌/◌, ◌%◌, ◌^◌, ◌≤◌, Bool, true, ltb, if◌then◌else◌, ◌≡◌, arith}

abbrev pub uint32_mod : ℕ
uint32_mod = 2 ^ 32

abbrev pub uint64_max : ℕ
uint64_max = 2 ^ 64 - 1

-- sec << 32 | usec, where the halves do not overlap
abbrev pub to64_usec : ℕ → ℕ → ℕ
to64_usec sec usec = sec * 2 ^ 32 + usec

abbrev pub to64 : ℕ → ℕ
to64 sec = to64_usec sec 0

abbrev pub to32 : ℕ → ℕ
to32 timestamp = timestamp / 2 ^ 32 % 2 ^ 32

abbrev pub to_usec : ℕ → ℕ
to_usec timestamp = timestamp % 2 ^ 32

-- The sum saturates at the largest time stamp.
unfoldable pub add_time : ℕ → ℕ → ℕ
add_time date expiration =
    if ltb (uint64_max - date) (to64 expiration) then uint64_max else date + to64 expiration

unfoldable pub expired : ℕ → ℕ → ℕ → Bool
unfolding add_time
expired now date expiration = ltb (add_time date expiration) now

-- `add_time` is the exact sum, cut at the largest time stamp.
pub add_time_bounds :
    (date expiration : ℕ)
    → date ≤ uint64_max
    → (add_time date expiration ≤ uint64_max) × (date ≤ add_time date expiration)
unfolding add_time
add_time_bounds date expiration h = ground arith

-- What has expired stays expired.
pub expired_mono :
    (now later date expiration : ℕ)
    → now ≤ later
    → expired now date expiration ≡ true
    → expired later date expiration ≡ true
unfolding expired
expired_mono now later date expiration h e = ground arith
