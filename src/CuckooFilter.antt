-- ===== src/CuckooFilter.antt =====
-- include/cuckoofilter.h over include/murmur_hash_mixer.h: the filter of fingerprints with two buckets
-- for each. The table is a list of buckets, and a fingerprint is kept as a number, which the code
-- swaps to big-endian.
pub mod Failed
pub mod Bucket
pub mod Kept
pub mod Removed
pub mod Stream
pub mod Paired
pub mod Negatives
use Prim.Native.Nat.{bit_xor}
use hm.Prelude.{
  ℕ, zero, suc, ◌+◌, ◌-◌, ◌*◌, ◌/◌, ◌%◌, ◌^◌, List, [], ◌∷◌, Bool, true, false, ◌&&◌, ◌||◌, Option,
  none, some, ◌==◌, if◌then◌else◌, get_or, set, replicate,
}
use hm.Bytes.{Bytes}
use hm.MurmurHash.{murmur_hash64a}

-- murmur_hash_mixer64, with the seed 0
unfoldable pub murmur_hash_mixer64 : ℕ → ℕ
murmur_hash_mixer64 x =
    let a = bit_xor x (x / 2 ^ 33) in
    let b = (a * 0xff51afd7ed558ccd) % 2 ^ 64 in
    let c = bit_xor b (b / 2 ^ 33) in
    let d = (c * 0xc4ceb9fe1a85ec53) % 2 ^ 64 in bit_xor d (d / 2 ^ 33)

-- murmur_hash_mixer64_nz, with the seed 0
unfoldable pub murmur_hash_mixer64_nz : ℕ → ℕ
unfolding murmur_hash_mixer64
murmur_hash_mixer64_nz x =
    let result = murmur_hash_mixer64 x in
    if result == 0 then murmur_hash_mixer64 0xdeedbeefabbab0ba else result

-- the bytes of an integer in memory, on a little-endian machine
unfoldable pub memory_of : ℕ → ℕ → Bytes
memory_of zero x = []
memory_of (suc n) x = (x % 256) ∷ memory_of n (x / 256)

abbrev pub Bucket : Type 0
Bucket = List ℕ

abbrev pub Table : Type 0
Table = List Bucket

-- tryInsert__; `none` is false, and the bucket is as it was
unfoldable pub try_insert : Bool → ℕ → Bucket → Option Bucket
try_insert initial fp [] = none
try_insert initial fp (x ∷ b) =
    let rest = try_insert initial fp b in
    if initial && (x == fp)
    then some (x ∷ b)
    else (if x == 0 then some (fp ∷ b) else elim rest [ none ↦ none | some r ↦ some (x ∷ r) ])

-- tryFind__; the slot that the pointer points to
unfoldable pub try_find : ℕ → Bucket → Option ℕ
try_find fp [] = none
try_find fp (x ∷ b) =
    let rest = try_find fp b in
    if x == fp then some 0 else elim rest [ none ↦ none | some i ↦ some (suc i) ]

pub record RollBack : Type 0 where
  pub index : ℕ
  pub fp : ℕ
  pub slot : ℕ

-- ix
abbrev pub ix : Table → ℕ → Bucket
ix table index = get_or table index []

-- `*ix(table, index, slot) = fp`
unfoldable pub put : Table → ℕ → ℕ → ℕ → Table
put table index slot fp = set table index (set (ix table index) slot fp)

-- the loop behind the kicks; the last kick comes first
unfoldable pub roll_back : Table → List RollBack → Table
unfolding put
roll_back table [] = table
roll_back table (r ∷ rs) = roll_back (put table r.index r.slot r.fp) rs

-- the table with the bucket that took the fingerprint, or else what follows
unfoldable pub settle : Table → ℕ → Option Bucket → Table × Bool → Table × Bool
settle table index (some b) more = (set table index b, true)
settle table index none more = more

-- the table without the fingerprint that was found, or else what follows
unfoldable pub take_out : Table → ℕ → Option ℕ → Table × Bool → Table × Bool
unfolding put
take_out table index (some slot) more = (put table index slot 0, true)
take_out table index none more = more

abbrev pub is_found : Option ℕ → Bool
is_found none = false
is_found (some slot) = true

abbrev pub max_kicks : ℕ
max_kicks = 256

module _ (fp_bytes slots size : ℕ) where
  -- clear
  unfoldable pub clear : Table
  clear = replicate size (replicate slots 0)

  -- createFP__
  unfoldable pub create_fp : ℕ → ℕ
  create_fp hash = if (hash % 2 ^ (8 * fp_bytes)) == 0 then 1 else hash % 2 ^ (8 * fp_bytes)

  -- hashAltIndex
  unfoldable pub hash_alt_index : ℕ → ℕ → ℕ
  unfolding memory_of murmur_hash64a
  hash_alt_index index fp = bit_xor index (murmur_hash64a (memory_of fp_bytes fp)) % size

  -- rand__
  unfoldable pub rand : ℕ → ℕ → ℕ
  unfolding murmur_hash_mixer64_nz
  rand fp iteration = murmur_hash_mixer64_nz (bit_xor fp iteration) % slots

  -- the loop of kicks, and what follows it
  unfoldable pub kick : ℕ → ℕ → Table → ℕ → ℕ → List RollBack → Table × Bool
  unfolding try_insert settle put roll_back hash_alt_index rand
  kick zero i table fp index rollback = (roll_back table rollback, false)
  kick (suc left) i table fp index rollback =
      let slot = rand fp i in
      let old = get_or (ix table index) slot 0 in
      let kicked = put table index slot fp in
      let next = hash_alt_index index old in
      let note : RollBack = record { index = index; fp = old; slot = slot } in
      let more = kick left (suc i) kicked old next (note ∷ rollback) in
      settle kicked next (try_insert false old (ix kicked next)) more

  -- insert
  unfoldable pub insert : Table → Bytes → Table × Bool
  unfolding try_insert settle create_fp hash_alt_index kick murmur_hash64a
  insert table s =
      let hash = murmur_hash64a s in
      let fpo = create_fp hash in
      let index1 = hash % size in
      let index2 = hash_alt_index index1 fpo in
      settle table index1 (try_insert true fpo (ix table index1)) (
        settle table index2 (try_insert true fpo (ix table index2))
          (kick max_kicks 0 table fpo index1 []))

  -- remove
  unfoldable pub remove : Table → Bytes → Table × Bool
  unfolding try_find take_out create_fp hash_alt_index murmur_hash64a
  remove table s =
      let hash = murmur_hash64a s in
      let fp = create_fp hash in
      let index1 = hash % size in
      let index2 = hash_alt_index index1 fp in
      take_out table index1 (try_find fp (ix table index1))
        (take_out table index2 (try_find fp (ix table index2)) (table, false))

  -- lookup
  unfoldable pub lookup : Table → Bytes → Bool
  unfolding try_find create_fp hash_alt_index murmur_hash64a
  lookup table s =
      let hash = murmur_hash64a s in
      let fp = create_fp hash in
      let index1 = hash % size in
      let index2 = hash_alt_index index1 fp in
      is_found (try_find fp (ix table index1)) || is_found (try_find fp (ix table index2))
