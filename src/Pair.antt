-- ===== src/Pair.antt =====
-- hm4/pair.h and hm4/pair.cc: a key/value pair with its time of creation and its expiry. Stored
-- integers are big endian in memory; the model keeps their values. Lengths are masked as stored.
pub mod HPair
pub mod Factory
pub mod Life
use hm.Prelude.{
  ℕ, ◌+◌, ◌-◌, ◌%◌, ◌^◌, ◌≤◌, ◌<◌, List, [], ◌∷◌, Bool, true, false, Ordering, compare, length,
  take, ltb, leb, ◌==◌, ◌&&◌, ◌||◌, not, if◌then◌else◌,
}
use hm.Bytes.{Bytes, compare_bytes, equals_bytes}
use hm.MyTime.{uint64_max, to64, to32, add_time, expired}

abbrev pub max_key_size : ℕ
max_key_size = 1023

abbrev pub max_val_size : ℕ
max_val_size = 2 ^ 28 - 1

abbrev pub expires_tombstone : ℕ
expires_tombstone = 2 ^ 32 - 1

pub record Pair : Type 0 where
  pub created : ℕ
  pub expires : ℕ
  pub key : Bytes
  pub val : Bytes

-- keylen and vallen keep 10 and 28 bits of the sizes.
abbrev pub stored_key : Bytes → Bytes
stored_key key = take (length key % 2 ^ 10) key

abbrev pub stored_val : Bytes → Bytes
stored_val val = take (length val % 2 ^ 28) val

-- prepareCreateTime: a given time in seconds, or the clock's
abbrev pub prepare_create_time : ℕ → ℕ → ℕ
prepare_create_time now created = if created == 0 then now else to64 created

-- prepareCreateTimeSimulate
abbrev pub prepare_create_time_simulate : ℕ → ℕ
prepare_create_time_simulate created = if created == 0 then uint64_max else to64 created

-- createInRawMemoryFull: all four fields are written
unfoldable pub create_full : ℕ → Bytes → Bytes → ℕ → ℕ → Pair
create_full now key val expires created = record {
  created = prepare_create_time now created;
  expires = expires;
  key = stored_key key;
  val = stored_val val;
}

-- createInRawMemoryFullVal: the key of the old pair stays
unfoldable pub create_full_val : ℕ → Pair → Bytes → ℕ → ℕ → Pair
create_full_val now pair val expires created = record {
  created = prepare_create_time now created;
  expires = expires;
  key = pair.key;
  val = stored_val val;
}

-- createInRawMemoryNone: the key and the value of the old pair stay
unfoldable pub create_none : ℕ → Pair → ℕ → ℕ → Pair
create_none now pair expires created = record {
  created = prepare_create_time now created;
  expires = expires;
  key = pair.key;
  val = pair.val;
}

-- createSystemPairInRawMemory
unfoldable pub create_system : Bytes → Pair
create_system key = record {
  created = 0;
  expires = expires_tombstone;
  key = stored_key key;
  val = [];
}

unfoldable pub is_key_empty : Pair → Bool
is_key_empty p = length p.key == 0

-- cmp: an empty key is CMP_NULLKEY, below every pair
unfoldable pub cmp : Pair → Bytes → Ordering
cmp p [] = Ordering.lt
cmp p (c ∷ key) = compare_bytes p.key (c ∷ key)

-- equals: nothing equals the empty key
unfoldable pub equals : Pair → Bytes → Bool
unfolding equals_bytes
equals p [] = false
equals p (c ∷ key) = equals_bytes p.key (c ∷ key)

-- cmpTime
abbrev pub cmp_time : Pair → Pair → Ordering
cmp_time p q = compare p.created q.created

-- isExpired_
unfoldable pub is_expired_ : ℕ → Pair → Bool
unfolding expired
is_expired_ now p = not (p.expires == 0) && expired now p.created p.expires

-- isExpired
unfoldable pub is_expired : ℕ → Pair → Bool
unfolding is_expired_
is_expired now p = if p.expires == expires_tombstone then true else is_expired_ now p

-- isTombstone
unfoldable pub is_tombstone : Pair → Bool
is_tombstone p = if p.expires == expires_tombstone then true else length p.val == 0

-- isSystemPair
unfoldable pub is_system_pair : Pair → Bool
is_system_pair p = p.expires == expires_tombstone && p.created == 0 && length p.val == 0

-- isOK
unfoldable pub is_ok : ℕ → Pair → Bool
unfolding is_tombstone is_expired_
is_ok now p = if is_tombstone p then false else if is_expired_ now p then false else true

-- getTTL
unfoldable pub get_ttl : ℕ → Pair → ℕ
unfolding add_time
get_ttl now p =
    if p.expires == 0
    then 0
    else (let end = add_time p.created p.expires in if ltb end now then 0 else to32 (end - now))

-- getExpiresAt: the sum is of 32 bits
unfoldable pub get_expires_at : Pair → ℕ
get_expires_at p = if p.expires == 0 then 0 else (to32 p.created + p.expires) % 2 ^ 32

-- bytes_: sizeof(Pair) is 20
abbrev pub bytes_of : ℕ → ℕ → ℕ
bytes_of key_len val_len = 20 + key_len + val_len

abbrev pub pair_bytes : Pair → ℕ
pair_bytes p = bytes_of (length p.key) (length p.val)

-- isKeyValid
abbrev pub is_key_valid : Bytes → Bool
is_key_valid key = ltb 0 (length key) && leb (length key) max_key_size

-- isValValid
abbrev pub is_val_valid : Bytes → Bool
is_val_valid val = leb (length val) max_val_size
