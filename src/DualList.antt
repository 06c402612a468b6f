-- ===== src/DualList.antt =====
-- erase___ of hm4/multi/duallist.h over the flush list and the tables behind it, for each kind of
-- erasure.
pub mod Hidden
use hm.Prelude.{ℕ, List, [], ◌∷◌}
use hm.Bytes.{Bytes}
use hm.Pair.Factory.{Factory, tombstone}
use hm.IList.{InsertResult}
use hm.MemList.{MemList}
use hm.FlushList.{FlushList, insert_f}

-- DualListEraseType, less NONE, for which there is no erasure
pub data EraseType : Type 0 where
  erase_normal : EraseType
  erase_tombstone : EraseType
  erase_smart_tombstone : EraseType

module _ {L : Type 0} (m : MemList L) where
  -- SingleList::erase___, which the flush list has: from the memory list alone
  unfoldable pub erase_single : FlushList L → Bytes → FlushList L × InsertResult
  erase_single db key = let (list, r) = m.erase db.list key in (record db { list = list }, r)

  -- insertTS
  unfoldable pub insert_ts : ℕ → FlushList L → Bytes → FlushList L × InsertResult
  unfolding insert_f
  insert_ts now db key = insert_f m now db (tombstone key 0)

  -- DualList::erase___
  unfoldable pub erase : EraseType → ℕ → FlushList L → Bytes → FlushList L × InsertResult
  unfolding erase_single insert_ts
  erase erase_normal now db key = erase_single db key
  erase erase_tombstone now db key = insert_ts now db key
  erase erase_smart_tombstone now db key = elim db.tables [
    | [] ↦ erase_single db key
    | ◌∷◌ t ts ↦ insert_ts now db key
  ]
