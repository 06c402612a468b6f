-- ===== src/MemList.antt =====
-- What the layers above ask of a memory list: the template parameter `List` of hm4/flushlist.h,
-- hm4/binloglist.h and hm4/multi. Its laws are what the theorems of a list show of it.
pub mod Vector
pub mod Linked
use hm.Prelude.{
  ℕ, ◌+◌, ◌≤◌, List, [], Bool, true, false, Option, none, some, ◌≡◌, ◌≢◌, ◌⊎◌, arith, if◌then◌else◌,
  All,
}
use hm.Bytes.{Bytes}
use hm.Pair.{Pair, is_key_valid}
use hm.Pair.Factory.{Factory, get_key, factory_bytes, create, create_hint, IsUsable}
use hm.IList.{
  InsertResult, Status, error_no_memory, result_inserted, result_deleted, result_skip_deleted,
}
use hm.Arena
use hm.Arena.{Arena, get_free_memory, reset}
use hm.VectorList.Sorted.{IsSorted, same_key, lookup}
use hm.VectorList.Contents.{after}

-- a pair that a factory made
abbrev pub IsMade : ℕ → Factory → Pair → Type 0
IsMade now f p = (p ≡ create now f) ⊎ ((old : Pair) × (p ≡ create_hint now f old))

pub record MemList (L : Type 0) : Type 1 where
  -- the keys that the list keeps in the order of `compare`
  pub Admits : Bytes → Type 0
  -- and the keys that are in it
  pub Stores : Bytes → Type 0
  pub IsValid : L → Type 0
  pub pairs : L → List Pair
  pub arena : L → Arena
  -- INTERNAL_NODE_SIZE
  pub node_size : ℕ
  pub get_pair : L → Bytes → Option Pair
  pub insert_f : ℕ → L → Factory → L × InsertResult
  pub erase : L → Bytes → L × InsertResult
  pub clear : L → L
  pub admits-valid : (key : Bytes) → Admits key → is_key_valid key ≡ true
  pub stored : (l : L) → IsValid l → All (λ p. Stores p.key) (pairs l)
  pub sorted : (l : L) → IsValid l → IsSorted (pairs l)
  pub arena_valid : (l : L) → IsValid l → Arena.IsValid (arena l)
  pub node_small : node_size ≤ 528
  pub get_pair-lookup :
      (l : L) (key : Bytes) → IsValid l → Admits key → get_pair l key ≡ lookup (pairs l) key
  pub insert_f-IsValid :
      (now : ℕ) (l : L) (f : Factory)
      → IsValid l
      → IsUsable f
      → Admits (get_key f)
      → IsValid (insert_f now l f).0
  pub insert_f-after :
      (now : ℕ) (l : L) (f : Factory) (j : Bytes)
      → IsValid l
      → IsUsable f
      → Admits (get_key f)
      → lookup (pairs (insert_f now l f).0) j
        ≡ after (get_key f) (insert_f now l f).1.pair (pairs l) j
  pub insert_f-key :
      (now : ℕ) (l : L) (f : Factory) (p : Pair)
      → IsValid l
      → IsUsable f
      → Admits (get_key f)
      → (insert_f now l f).1.pair ≡ some p
      → p.key ≡ get_key f
  -- the pair reported is one that the factory made, fresh or over another
  pub insert_f-made :
      (now : ℕ) (l : L) (f : Factory) (p : Pair)
      → IsValid l
      → IsUsable f
      → Admits (get_key f)
      → (insert_f now l f).1.pair ≡ some p
      → IsMade now f p
  -- the arena keeps its size
  pub insert_f-size :
      (now : ℕ) (l : L) (f : Factory) → (arena (insert_f now l f).0).size ≡ (arena l).size
  -- "The list guarantee, no changes on the list are done, if ERROR_NO_MEMORY"
  pub insert_f-unchanged :
      (now : ℕ) (l : L) (f : Factory)
      → IsValid l
      → IsUsable f
      → Admits (get_key f)
      → (insert_f now l f).1.status ≡ error_no_memory
      → pairs (insert_f now l f).0 ≡ pairs l
  -- into an empty list with room enough a pair is inserted
  pub insert_f-fresh :
      (now : ℕ) (l : L) (f : Factory)
      → IsValid l
      → IsUsable f
      → Admits (get_key f)
      → pairs l ≡ []
      → factory_bytes f + node_size + 16 ≤ get_free_memory (arena l)
      → (insert_f now l f).1 ≡ result_inserted (create now f)
  pub erase-IsValid : (l : L) (key : Bytes) → IsValid l → Admits key → IsValid (erase l key).0
  pub erase-after :
      (l : L) (key j : Bytes)
      → IsValid l
      → Admits key
      → lookup (pairs (erase l key).0) j ≡ (if same_key key j then none else lookup (pairs l) j)
  pub erase-result :
      (l : L) (key : Bytes)
      → IsValid l
      → Admits key
      → (erase l key).1
        ≡ elim (lookup (pairs l) key) [ none ↦ result_skip_deleted | some p ↦ result_deleted ]
  pub clear-IsValid : (l : L) → IsValid l → IsValid (clear l)
  pub clear-pairs : (l : L) → pairs (clear l) ≡ []
  pub clear-arena : (l : L) → arena (clear l) ≡ reset (arena l)
