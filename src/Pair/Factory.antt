-- ===== src/Pair/Factory.antt =====
-- namespace PairFactory of hm4/pair.h: what a list is asked to insert.
use hm.Prelude.{ℕ, ◌%◌, ◌^◌, ◌≤◌, [], Bool, true, length, ◌&&◌, ◌≡◌, refl, arith, take_all}
use hm.Bytes.{Bytes}
use hm.Pair.{
  Pair, create_full, create_full_val, create_none, expires_tombstone, pair_bytes, bytes_of,
  is_key_valid, is_val_valid, stored_key, stored_val,
}

-- The virtual factories of pair_vfactory.h are not among them.
pub data Factory : Type 0 where
  normal : Bytes → Bytes → ℕ → ℕ → Factory
  expires : Bytes → Bytes → ℕ → ℕ → Factory
  tombstone : Bytes → ℕ → Factory
  clone : Pair → Factory

unfoldable pub get_key : Factory → Bytes
get_key (normal key val exp created) = key
get_key (expires key val exp created) = key
get_key (tombstone key created) = key
get_key (clone src) = src.key

-- A clone hands on the low 32 bits of its 64-bit time stamp: `(uint32_t) src->getCreated()`.
unfoldable pub get_created : Factory → ℕ
get_created (normal key val exp created) = created
get_created (expires key val exp created) = created
get_created (tombstone key created) = created
get_created (clone src) = src.created % 2 ^ 32

unfoldable pub factory_bytes : Factory → ℕ
factory_bytes (normal key val exp created) = bytes_of (length key) (length val)
factory_bytes (expires key val exp created) = bytes_of (length key) (length val)
factory_bytes (tombstone key created) = bytes_of (length key) 0
factory_bytes (clone src) = pair_bytes src

unfoldable pub valid : Factory → Bool
valid (normal key val exp created) = is_key_valid key && is_val_valid val
valid (expires key val exp created) = is_key_valid key && is_val_valid val
valid (tombstone key created) = is_key_valid key
valid (clone src) = true

-- createHint: overwrite a pair in place
unfoldable pub create_hint : ℕ → Factory → Pair → Pair
unfolding create_full_val create_none
create_hint now (normal key val exp created) pair = create_full_val now pair val exp created
create_hint now (expires key val exp created) pair = create_none now pair exp created
create_hint now (tombstone key created) pair = create_none now pair expires_tombstone created
create_hint now (clone src) pair = src

-- create: fill fresh memory
unfoldable pub create : ℕ → Factory → Pair
unfolding create_full
create now (normal key val exp created) = create_full now key val exp created
create now (expires key val exp created) = create_full now key val exp created
create now (tombstone key created) = create_full now key [] 0 created
create now (clone src) = src

-- A factory that can be used: it is valid, and a clone has a source with a valid key and value.
abbrev pub IsUsable : Factory → Type 0
IsUsable (clone src) = (is_key_valid src.key ≡ true) × (is_val_valid src.val ≡ true)
IsUsable f = valid f ≡ true

pub stored_key_lem : (key : Bytes) → is_key_valid key ≡ true → stored_key key ≡ key
stored_key_lem key h = take_all (length key % 2 ^ 10) key (ground arith)

stored_val_lem : (val : Bytes) → is_val_valid val ≡ true → stored_val val ≡ val
stored_val_lem val h = take_all (length val % 2 ^ 28) val (ground arith)

pub valid-IsUsable : (f : Factory) → IsUsable f → valid f ≡ true
unfolding valid
valid-IsUsable (normal key val exp created) u = u
valid-IsUsable (expires key val exp created) u = u
valid-IsUsable (tombstone key created) u = u
valid-IsUsable (clone src) u = refl

pub get_key-IsUsable : (f : Factory) → IsUsable f → is_key_valid (get_key f) ≡ true
unfolding valid get_key
get_key-IsUsable (normal key val exp created) u = ground arith
get_key-IsUsable (expires key val exp created) u = ground arith
get_key-IsUsable (tombstone key created) u = u
get_key-IsUsable (clone src) u = u.0

-- A fresh pair has the factory's key, untruncated.
pub key-create : (now : ℕ) (f : Factory) → IsUsable f → (create now f).key ≡ get_key f
unfolding create get_key valid
key-create now (normal key val exp created) u = stored_key_lem key (ground arith)
key-create now (expires key val exp created) u = stored_key_lem key (ground arith)
key-create now (tombstone key created) u = stored_key_lem key u
key-create now (clone src) u = refl

-- A pair overwritten in place keeps its key, if that is the factory's.
pub key-create_hint :
    (now : ℕ) (f : Factory) (p : Pair) → p.key ≡ get_key f → (create_hint now f p).key ≡ get_key f
unfolding create_hint get_key
key-create_hint now (normal key val exp created) p e = e
key-create_hint now (expires key val exp created) p e = e
key-create_hint now (tombstone key created) p e = e
key-create_hint now (clone src) p e = refl

-- The memory that a usable factory asks for is what the fresh pair takes.
pub bytes-create :
    (now : ℕ) (f : Factory) → IsUsable f → pair_bytes (create now f) ≡ factory_bytes f
unfolding create factory_bytes valid
bytes-create now (normal key val exp created) u =
    ground (arith, stored_key_lem key, stored_val_lem val)
bytes-create now (expires key val exp created) u =
    ground (arith, stored_key_lem key, stored_val_lem val)
bytes-create now (tombstone key created) u = ground (arith, stored_key_lem key)
bytes-create now (clone src) u = refl

-- No factory that can be used asks for more than a pair's largest size.
pub factory_bytes-le : (f : Factory) → IsUsable f → factory_bytes f ≤ 2 ^ 32
unfolding factory_bytes valid
factory_bytes-le (normal key val exp created) u = ground arith
factory_bytes-le (expires key val exp created) u = ground arith
factory_bytes-le (tombstone key created) u = ground arith
factory_bytes-le (clone src) u = ground arith

-- The pair that a usable factory makes can be cloned.
pub clone-create-IsUsable : (now : ℕ) (f : Factory) → IsUsable f → IsUsable (clone (create now f))
unfolding create valid
clone-create-IsUsable now (normal key val exp created) u =
    ground (arith, stored_key_lem key, stored_val_lem val)
clone-create-IsUsable now (expires key val exp created) u =
    ground (arith, stored_key_lem key, stored_val_lem val)
clone-create-IsUsable now (tombstone key created) u = ground (arith, stored_key_lem key)
clone-create-IsUsable now (clone src) u = u

pub get_key-clone : (p : Pair) → get_key (clone p) ≡ p.key
unfolding get_key
get_key-clone p = refl

pub create-clone : (now : ℕ) (p : Pair) → create now (clone p) ≡ p
unfolding create
create-clone now p = refl

pub bytes-clone : (p : Pair) → factory_bytes (clone p) ≡ pair_bytes p
unfolding factory_bytes
bytes-clone p = refl
