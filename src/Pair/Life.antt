-- ===== src/Pair/Life.antt =====
-- When a pair counts as present: tombstones, expiry and the remaining life of hm4/pair.cc.
use hm.Prelude.{ℕ, ◌≤◌, true, false, not, ◌&&◌, ◌≡◌, arith}
use hm.Pair.{Pair, is_ok, is_tombstone, is_expired, is_system_pair}

-- A pair is OK exactly if it is neither a tombstone nor expired: `isOK` is the negation of the
-- union of `isTombstone` and `isExpired`.
pub is_ok-eq : (now : ℕ) (p : Pair) → is_ok now p ≡ (not (is_tombstone p) && not (is_expired now p))
unfolding is_ok is_expired
is_ok-eq now p = ground arith

-- Once a pair is not OK it never becomes OK again as the clock goes on.
pub is_ok_mono :
    (now later : ℕ) (p : Pair) → now ≤ later → is_ok now p ≡ false → is_ok later p ≡ false
unfolding is_ok
is_ok_mono now later p h e = ground arith

-- A system pair is a tombstone, so it is never OK.
pub system-is_ok : (now : ℕ) (p : Pair) → is_system_pair p ≡ true → is_ok now p ≡ false
unfolding is_ok is_system_pair
system-is_ok now p e = ground arith
