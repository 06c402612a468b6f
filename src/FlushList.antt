-- ===== src/FlushList.antt =====
-- hm4/flushlist.h and flushlistbase.h over a memory list, with the directory of tables that a flush
-- writes to and that the loader of hm4/listloader opens again, read as one list by
-- hm4/multi/duallist.h and collectionlist.h.
pub mod Reads
pub mod Flush
pub mod Writes
pub mod Insert
pub mod Made
use hm.Prelude.{
  ℕ, ◌+◌, ◌≤◌, List, [], ◌∷◌, Bool, true, false, Option, none, some, ltb, if◌then◌else◌, add64,
}
use hm.Bytes.{Bytes}
use hm.Pair.{Pair}
use hm.Pair.Factory.{Factory, factory_bytes, valid, create, clone}
use hm.IList.{InsertResult, Status, error_no_memory, result_error_invalid}
use hm.Arena.{get_free_memory}
use hm.Disk.FileBuilder.{DiskTable, build, keep}
use hm.Disk.DiskTable.{Search, get_pair_best}
use hm.MemList.{MemList}

pub record FlushList (L : Type 0) : Type 0 where
  pub list : L
  pub tables : List DiskTable
  pub version : ℕ

abbrev pub safe_margin : ℕ
safe_margin = 1024

-- The loader keeps the tables by their newest pair, the latest first. Where two are as late,
-- std::sort leaves open which comes first; here the table that was there does.
unfoldable pub place : DiskTable → List DiskTable → List DiskTable
place t [] = t ∷ []
place t (u ∷ us) = if ltb u.created_max t.created_max then t ∷ u ∷ us else u ∷ place t us

-- CollectionList::getPair___
unfoldable pub tables_get_pair : Search → List DiskTable → Bytes → Option Pair → Option Pair
tables_get_pair search [] key best = best
tables_get_pair search (t ∷ ts) key best =
    tables_get_pair search ts key (get_pair_best search t key best)

-- The flusher writes no table for an empty list.
unfoldable pub saved : ℕ → List Pair → List DiskTable → List DiskTable
unfolding place
saved now [] tables = tables
saved now (p ∷ ps) tables = place (build now keep (p ∷ ps)) tables

-- the statuses by which insertF goes on to flush
unfoldable pub is_no_memory : Status → Bool
is_no_memory error_no_memory = true
is_no_memory _ = false

module _ {L : Type 0} (m : MemList L) where
  -- DiskFileAllocatorPredicate
  unfoldable pub predicate : L → ℕ → Bool
  predicate list bytes =
      ltb (get_free_memory (m.arena list)) (bytes + m.node_size + safe_margin + 8)

  -- flush: save, clear, have the loader refresh, count
  unfoldable pub flush : ℕ → FlushList L → FlushList L
  unfolding saved
  flush now db = record {
    list = m.clear db.list;
    tables = saved now (m.pairs db.list) db.tables;
    version = add64 db.version 1;
  }

  -- insertF_: the memory list's insertF
  pub insert_f_ : ℕ → FlushList L → Factory → FlushList L × InsertResult
  insert_f_ now db f = let (list, r) = m.insert_f now db.list f in (record db { list = list }, r)

  -- insertF_create_flush_clone_insert: the pair is made first, since it may refer to the list
  pub create_flush_clone_insert : ℕ → FlushList L → Factory → FlushList L × InsertResult
  unfolding flush insert_f_
  create_flush_clone_insert now db f = insert_f_ now (flush now db) (clone (create now f))

  -- insertF
  unfoldable pub insert_f : ℕ → FlushList L → Factory → FlushList L × InsertResult
  unfolding predicate insert_f_ is_no_memory create_flush_clone_insert
  insert_f now db f =
      if valid f
      then (if predicate db.list (factory_bytes f)
          then create_flush_clone_insert now db f
          else (let (db', r) = insert_f_ now db f in
              if is_no_memory r.status then create_flush_clone_insert now db' f else (db', r)))
      else (db, result_error_invalid)

  -- DualList::getPair___, the memory list before the tables
  unfoldable pub get_pair : Search → FlushList L → Bytes → Option Pair
  unfolding tables_get_pair
  get_pair search db key = tables_get_pair search db.tables key (m.get_pair db.list key)
