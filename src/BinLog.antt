-- ===== src/BinLog.antt =====
-- hm4/binloglist.h over a memory list, with the log that hm4/binlogger/diskfilebinlogger.h writes, and
-- hm4/binlogreplay.h. The log is the sequence of pairs handed to the file's builder.
pub mod Sync
pub mod Replay
use hm.Prelude.{ℕ, List, [], ◌∷◌, ◌++◌, Bool, true, false, Option, none, some, if◌then◌else◌}
use hm.Bytes.{Bytes}
use hm.Pair.{Pair, create_full, is_key_empty}
use hm.Pair.Factory.{Factory, clone}
use hm.IList.{InsertResult, Status, deleted}
use hm.MemList.{MemList}

pub record BinLogList (L : Type 0) : Type 0 where
  pub list : L
  pub log : List Pair

-- makePairTombstone of hm4/ilist/makepair.h
unfoldable pub make_pair_tombstone : ℕ → Bytes → Pair
unfolding create_full
make_pair_tombstone now key = create_full now key [] 0 0

-- operator() of the logger
abbrev pub append : List Pair → Pair → List Pair
append log p = log ++ (p ∷ [])

-- the logging of a result's pair, where there is one
unfoldable pub append_pair : List Pair → Option Pair → List Pair
append_pair log none = log
append_pair log (some p) = append log p

unfoldable pub is_deleted : Status → Bool
is_deleted deleted = true
is_deleted _ = false

module _ {L : Type 0} (m : MemList L) where
  -- insertF
  unfoldable pub insert_f : ℕ → BinLogList L → Factory → BinLogList L × InsertResult
  unfolding append_pair
  insert_f now db f =
      let (list, r) = m.insert_f now db.list f in
      (record { list = list; log = append_pair db.log r.pair }, r)

  -- erase___
  unfoldable pub erase : ℕ → BinLogList L → Bytes → BinLogList L × InsertResult
  unfolding append_pair make_pair_tombstone is_deleted
  erase now db key =
      let (list, r) = m.erase db.list key in
      (
        record {
          list = list;
          log =
              if is_deleted r.status
              then append db.log (make_pair_tombstone now key)
              else append_pair db.log r.pair;
        },
        r,
      )

  -- clear: of the list, then of the log
  unfoldable pub clear : BinLogList L → BinLogList L
  clear db = record { list = m.clear db.list; log = [] }

  -- binlogFileReplay: each pair with a key is inserted as a clone
  unfoldable pub replay : ℕ → L → List Pair → L
  unfolding is_key_empty
  replay now list [] = list
  replay now list (p ∷ ps) =
      replay now (if is_key_empty p then list else (m.insert_f now list (clone p)).0) ps
