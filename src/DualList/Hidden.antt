-- ===== src/DualList/Hidden.antt =====
-- What a read returns of a key that was erased through hm4/multi/duallist.h.
use hm.Prelude.{ℕ, ◌∷◌, false, none, some, ◌≡◌, inl, inr, refl, ap, ◌∙◌, arith, All}
use hm.Bytes.{Bytes}
use hm.Bytes.Order.{compare_refl}
use hm.Pair.{Pair, is_ok, is_tombstone, create_full, create_none}
use hm.Pair.Factory.{tombstone, get_key, valid, create, create_hint, IsUsable}
use hm.IList.{get_pair_ptr, get_newest_pair}
use hm.Disk.DiskTable.{Search, IsSearch}
use hm.VectorList.Sorted.{lookup}
use hm.MemList.{MemList, IsMade}
use hm.Multi.Newest.{newest_of, Older}
use hm.FlushList.{FlushList, get_pair}
use hm.FlushList.Reads.{IsValid, found, in_tables, get_pair-newest_of}
use hm.FlushList.Insert.{get_pair-insert_f_self}
use hm.FlushList.Made.{insert_f-IsMade}
use hm.DualList.{erase_normal, erase_tombstone, erase, erase_single, insert_ts}

-- a pair made by a tombstone is none that reads show
tombstone-is_ok :
    (now later : ℕ) (key : Bytes) (p : Pair)
    → IsMade now (tombstone key 0) p
    → is_ok later p ≡ false
unfolding create create_hint create_full create_none is_ok is_tombstone
tombstone-is_ok now later key p (inl e) = rw e (ground arith)
tombstone-is_ok now later key p (inr (old, e)) = rw e (ground arith)

module _ {L : Type 0} (m : MemList L) (now : ℕ) (find : Search)
    (exact : IsSearch m.Stores m.Admits find) (db : FlushList L) (key : Bytes) (v : IsValid m db)
    (k : m.Admits key) where
  usable : IsUsable (tombstone key 0)
  unfolding valid
  usable = m.admits-valid key k

  -- For a valid flush list and a search that is exact on the tables and keys of the list: after an
  -- erasure of a key that the list admits, by a tombstone that is newer than all that the memory
  -- list and the tables held for the key, no read shows the key, at any later time, be there a flush
  -- on the way or not.
  pub get_pair_ptr-erase :
      (later : ℕ) (p : Pair)
      → (erase m erase_tombstone now db key).1.pair ≡ some p
      → All (Older p) (found m db key)
      → get_pair_ptr later (get_pair m find (erase m erase_tombstone now db key).0 key) ≡ none
  unfolding erase insert_ts get_pair_ptr get_key
  get_pair_ptr-erase later p e o =
      let r = get_pair-insert_f_self m now db (tombstone key 0) v usable k find exact p e o in
      let made = insert_f-IsMade m now find exact (tombstone key 0) usable k p db v e in
      let dead = tombstone-is_ok now later key p made in rw (r, dead) refl

  -- For a valid flush list and a search that is exact on the tables and keys of the list: after a
  -- normal erasure of a key that the list admits, a read of the key returns the newest pair that
  -- the tables hold for it, so that what was flushed before comes back.
  pub get_pair-erase_normal :
      get_pair m find (erase m erase_normal now db key).0 key
      ≡ newest_of none (in_tables db.tables key)
  unfolding erase erase_single newest_of get_newest_pair
  get_pair-erase_normal =
      let v' : IsValid m (erase_single m db key).0 = record {
        list = m.erase-IsValid db.list key v.list k;
        tables = v.tables;
      } in
      let gone : lookup (m.pairs (m.erase db.list key).0) key ≡ none =
        m.erase-after db.list key key v.list k ∙ ground (arith, compare_refl key) in
      get_pair-newest_of m find (erase_single m db key).0 key exact v' k
      ∙ ap (λ o. newest_of none (o ∷ in_tables db.tables key)) gone
