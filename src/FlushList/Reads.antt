-- ===== src/FlushList/Reads.antt =====
-- What a read through the memory list and the tables returns.
use hm.Prelude.{List, [], ◌∷◌, Option, none, ◌≡◌, refl, sym, ◌∙◌, All, ap}
use hm.Bytes.{Bytes}
use hm.Pair.{Pair}
use hm.IList.{get_newest_pair}
use hm.Disk.FileBuilder.{DiskTable}
use hm.Disk.DiskTable.{Search, IsSearch, IsTable, get_pair_best-newest}
use hm.VectorList.Sorted.{lookup}
use hm.MemList.{MemList}
use hm.Multi.Newest.{newest_of, newest-none}
use hm.FlushList.{FlushList, get_pair, tables_get_pair}

-- what each table holds for a key
abbrev pub in_tables : List DiskTable → Bytes → List (Option Pair)
in_tables [] key = []
in_tables (t ∷ ts) key = lookup t.pairs key ∷ in_tables ts key

tables_get_pair-newest_of :
    (Stores Admits : Bytes → Type 0) (search : Search) (ts : List DiskTable) (key : Bytes)
    (best : Option Pair)
    → IsSearch Stores Admits search
    → All (IsTable Stores) ts
    → Admits key
    → tables_get_pair search ts key best ≡ newest_of best (in_tables ts key)
unfolding tables_get_pair newest_of
tables_get_pair-newest_of Stores Admits search [] key best s v k = refl
tables_get_pair-newest_of Stores Admits search (t ∷ ts) key best s v k =
    rw (get_pair_best-newest Stores Admits search t key best s v.0 k) (
      tables_get_pair-newest_of Stores Admits search ts key
        (get_newest_pair (lookup t.pairs key) best) s v.1 k)

module _ {L : Type 0} (m : MemList L) where
  pub record IsValid (db : FlushList L) : Type 0 where
    pub list : m.IsValid db.list
    pub tables : All (IsTable m.Stores) db.tables

  -- what the memory list and then each table hold for a key
  abbrev pub found : FlushList L → Bytes → List (Option Pair)
  found db key = lookup (m.pairs db.list) key ∷ in_tables db.tables key

  -- For a valid flush list and a search that is exact on the tables and keys of the list: a read of a key
  -- that the list admits joins what the memory list and all tables hold for it, and the searches that are skipped do
  -- not matter.
  pub get_pair-newest_of :
      (search : Search) (db : FlushList L) (key : Bytes)
      → IsSearch m.Stores m.Admits search
      → IsValid db
      → m.Admits key
      → get_pair m search db key ≡ newest_of none (found db key)
  unfolding get_pair newest_of
  get_pair-newest_of search db key s v k =
      let mine = lookup (m.pairs db.list) key in
      rw (m.get_pair-lookup db.list key v.list k) (
        tables_get_pair-newest_of m.Stores m.Admits search db.tables key mine s v.tables k
        ∙ ap (λ b. newest_of b (in_tables db.tables key)) (sym (newest-none mine)))
