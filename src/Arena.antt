-- ===== src/Arena.antt =====
-- myallocator/arenaallocator.h: a bump allocator over one buffer. An address is an offset in it.
use hm.Prelude.{
  ℕ, ◌+◌, ◌-◌, ◌*◌, ◌/◌, ◌%◌, ◌^◌, ◌≤◌, add64, sub64, Bool, ltb, if◌then◌else◌, Option, none, some,
  ◌≡◌, arith,
}

pub record Arena : Type 0 where
  pub size : ℕ
  pub pos : ℕ

-- align__<8>: (n + 7) & ~7
abbrev pub align : ℕ → ℕ
align n = add64 n 7 / 8 * 8

-- xallocate. The position stays aligned when there is no room.
unfoldable pub xallocate : Arena → ℕ → Option ℕ × Arena
xallocate a size =
    let pos = align a.pos in
    if ltb a.size (add64 pos size)
    then (none, record a { pos = pos })
    else (some pos, record a { pos = add64 pos size })

-- xallocateAll
unfoldable pub xallocate_all : Arena → (ℕ × ℕ) × Arena
xallocate_all a =
    let pos = align a.pos in ((pos, a.size - pos), record a { pos = add64 pos (a.size - pos) })

-- owns
unfoldable pub owns : Arena → ℕ → Bool
owns a p = ltb p a.size

unfoldable pub reset : Arena → Arena
reset a = record a { pos = 0 }

-- getFreeMemory: the size_t difference wraps
abbrev pub get_free_memory : Arena → ℕ
get_free_memory a = sub64 a.size a.pos

-- The buffer is a whole number of words, smaller than half the address space.
pub record IsValid (a : Arena) : Type 0 where
  pub small : a.size ≤ 2 ^ 63
  pub whole : a.size % 8 ≡ 0
  pub within : a.pos ≤ a.size

-- In a valid arena, what xallocate hands out for a size of at most 2 ^ 32 is aligned, lies in
-- the buffer, and starts behind everything that was handed out before, and the position is its
-- end.
pub xallocate_lem :
    (a : Arena) (size p : ℕ)
    → IsValid a
    → size ≤ 2 ^ 32
    → (xallocate a size).0 ≡ some p
    → (p % 8 ≡ 0) × (a.pos ≤ p) × (p + size ≤ a.size) × ((xallocate a size).1.pos ≡ p + size)
unfolding xallocate
xallocate_lem a size p v small h = ground arith

pub size-xallocate : (a : Arena) (size : ℕ) → (xallocate a size).1.size ≡ a.size
unfolding xallocate
size-xallocate a size = ground arith

pub xallocate-IsValid :
    (a : Arena) (size : ℕ) → IsValid a → size ≤ 2 ^ 32 → IsValid (xallocate a size).1
unfolding xallocate
xallocate-IsValid a size v small = ground arith

-- In a valid arena an allocation of at most 2 ^ 32 bytes succeeds, with eight bytes to spare for
-- the alignment.
pub xallocate_room :
    (a : Arena) (size : ℕ)
    → IsValid a
    → size ≤ 2 ^ 32
    → size + 8 ≤ get_free_memory a
    → (p : ℕ) × ((xallocate a size).0 ≡ some p)
unfolding xallocate
xallocate_room a size v small room = (align a.pos, ground arith)
