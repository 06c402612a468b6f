-- ===== src/FlushList/Writes.antt =====
-- insertF of hm4/flushlistbase.h: what readers see after it, and that it does not run out of memory.
use hm.Prelude.{
  ℕ, ◌+◌, ◌≤◌, List, [], ◌∷◌, false, Option, none, some, ◌≡◌, inl, inr, refl, sym, ◌∙◌, arith, All,
  ap,
}
use hm.Bytes.{Bytes}
use hm.Bytes.Order.{compare_refl}
use hm.Pair.{Pair}
use hm.Pair.Factory.{
  Factory, get_key, factory_bytes, create, clone, IsUsable, key-create, bytes-create,
  clone-create-IsUsable, get_key-clone, create-clone, bytes-clone,
}
use hm.IList.{result_inserted}
use hm.Arena.{reset}
use hm.Disk.DiskTable.{Search, IsSearch}
use hm.VectorList.Sorted.{lookup, same_key}
use hm.VectorList.Contents.{after}
use hm.MemList.{MemList}
use hm.Multi.Newest.{newest_of_unique, NoTies, Older, Dominates}
use hm.FlushList.{FlushList, get_pair, flush, insert_f_, create_flush_clone_insert}
use hm.FlushList.Reads.{IsValid, found, in_tables, get_pair-newest_of}
use hm.FlushList.Flush.{flush-IsValid, get_pair-flush, All-flush}

Older-Dominates : (p : Pair) (os : List (Option Pair)) → All (Older p) os → Dominates p os
Older-Dominates p [] h = tt
Older-Dominates p (o ∷ os) h = (inr h.0, Older-Dominates p os h.1)

after_self : (key : Bytes) (p : Pair) (ps : List Pair) → after key (some p) ps key ≡ some p
after_self key p ps = ground (arith, compare_refl key)

module _ {L : Type 0} (m : MemList L) (now : ℕ) (find : Search)
    (exact : IsSearch m.Stores m.Admits find) where
  -- a step of the memory list alone
  module _ (db : FlushList L) (f : Factory) (v : IsValid m db) (u : IsUsable f)
      (a : m.Admits (get_key f)) where
    pub insert_f_-IsValid : IsValid m (insert_f_ m now db f).0
    unfolding insert_f_
    insert_f_-IsValid = record {
      list = m.insert_f-IsValid now db.list f v.list u a;
      tables = v.tables;
    }

    found-insert_f_ :
        (j : Bytes)
        → found m (insert_f_ m now db f).0 j
          ≡ after (get_key f) (insert_f_ m now db f).1.pair (m.pairs db.list) j
            ∷ in_tables db.tables j
    unfolding insert_f_
    found-insert_f_ j =
        ap (λ o. o ∷ in_tables db.tables j) (m.insert_f-after now db.list f j v.list u a)

    after-other :
        (j : Bytes) (r : Option Pair)
        → same_key (get_key f) j ≡ false
        → after (get_key f) r (m.pairs db.list) j ≡ lookup (m.pairs db.list) j
    after-other j none h = refl
    after-other j (some p) h = rw h

    pub insert_f_-other :
        (j : Bytes)
        → m.Admits j
        → same_key (get_key f) j ≡ false
        → get_pair m find (insert_f_ m now db f).0 j ≡ get_pair m find db j
    insert_f_-other j k h =
        get_pair-newest_of m find (insert_f_ m now db f).0 j exact insert_f_-IsValid k
        ∙ rw (found-insert_f_ j, after-other j (insert_f_ m now db f).1.pair h)
            (sym (get_pair-newest_of m find db j exact v k))

    pub insert_f_-new :
        (p : Pair)
        → (insert_f_ m now db f).1.pair ≡ some p
        → All (Older p) (in_tables db.tables (get_key f))
        → get_pair m find (insert_f_ m now db f).0 (get_key f) ≡ some p
    insert_f_-new p e o =
        get_pair-newest_of m find (insert_f_ m now db f).0 (get_key f) exact insert_f_-IsValid a
        ∙ rw (found-insert_f_ (get_key f), e, after_self (get_key f) p (m.pairs db.list))
            (newest_of_unique p (some p ∷ in_tables db.tables (get_key f))
              (inl refl, Older-Dominates p (in_tables db.tables (get_key f)) o) (inl refl))

  -- flush first, then insert a clone of the pair
  module _ (db : FlushList L) (f : Factory) (v : IsValid m db) (u : IsUsable f)
      (a : m.Admits (get_key f)) where
    pub made_key : get_key (clone (create now f)) ≡ get_key f
    made_key = get_key-clone (create now f) ∙ key-create now f u

    pub after_flush-IsValid : IsValid m (create_flush_clone_insert m now db f).0
    unfolding create_flush_clone_insert
    after_flush-IsValid =
        insert_f_-IsValid (flush m now db) (clone (create now f)) (flush-IsValid m now db v)
          (clone-create-IsUsable now f u) (rw made_key a)

    pub after_flush-other :
        (j : Bytes)
        → m.Admits j
        → NoTies (found m db j)
        → same_key (get_key f) j ≡ false
        → get_pair m find (create_flush_clone_insert m now db f).0 j ≡ get_pair m find db j
    unfolding create_flush_clone_insert
    after_flush-other j k t h =
        insert_f_-other (flush m now db) (clone (create now f)) (flush-IsValid m now db v)
          (clone-create-IsUsable now f u) (rw made_key a) j k (rw made_key h)
        ∙ get_pair-flush m now db v find j exact k t

    pub after_flush-new :
        (p : Pair)
        → (create_flush_clone_insert m now db f).1.pair ≡ some p
        → All (Older p) (found m db (get_key f))
        → get_pair m find (create_flush_clone_insert m now db f).0 (get_key f) ≡ some p
    unfolding create_flush_clone_insert
    after_flush-new p e o = rw made_key at (
        insert_f_-new (flush m now db) (clone (create now f)) (flush-IsValid m now db v)
          (clone-create-IsUsable now f u) (rw made_key a) p e
          (rw made_key (All-flush m now db v (Older p) (get_key f) tt o).1))

    -- with an arena of this size the clone has room
    pub after_flush-fits :
        factory_bytes f + m.node_size + 16 ≤ (m.arena db.list).size
        → (create_flush_clone_insert m now db f).1 ≡ result_inserted (create now f)
    unfolding create_flush_clone_insert insert_f_ flush reset
    after_flush-fits room =
        let w = m.arena_valid db.list v.list in
        m.insert_f-fresh now (m.clear db.list) (clone (create now f))
          (m.clear-IsValid db.list v.list) (clone-create-IsUsable now f u) (rw made_key a)
          (m.clear-pairs db.list)
          (rw (m.clear-arena, bytes-clone (create now f), bytes-create now f u)
            (omega (arith, w.small)))
        ∙ ap result_inserted (create-clone now (create now f))
