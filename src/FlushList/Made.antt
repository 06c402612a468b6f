-- ===== src/FlushList/Made.antt =====
-- insertF of hm4/flushlistbase.h reports a pair that its factory made, on all paths.
use hm.Prelude.{ℕ, some, ◌≡◌, inl, inr}
use hm.Pair.{Pair}
use hm.Pair.Factory.{
  Factory, clone, get_key, create, create_hint, IsUsable, valid-IsUsable, clone-create-IsUsable,
}
use hm.MemList.{MemList, IsMade}
use hm.FlushList.{FlushList, insert_f, insert_f_, flush, create_flush_clone_insert}
use hm.FlushList.Reads.{IsValid}
use hm.FlushList.Flush.{flush-IsValid}
use hm.FlushList.Writes.{insert_f_-IsValid, made_key}
use hm.Disk.DiskTable.{Search, IsSearch}
use hm.FlushList.Insert.{flushed, direct, retried, route}

-- a clone of a pair that was made is that pair
clone-IsMade :
    (now : ℕ) (f : Factory) (p : Pair) → IsMade now (clone (create now f)) p → IsMade now f p
unfolding create create_hint
clone-IsMade now f p (inl e) = inl e
clone-IsMade now f p (inr (old, e)) = inl e

module _ {L : Type 0} (m : MemList L) (now : ℕ) (find : Search)
    (exact : IsSearch m.Stores m.Admits find) (f : Factory) (u : IsUsable f)
    (a : m.Admits (get_key f)) (p : Pair) where
  insert_f_-IsMade :
      (db : FlushList L) → IsValid m db → (insert_f_ m now db f).1.pair ≡ some p → IsMade now f p
  unfolding insert_f_
  insert_f_-IsMade db v e = m.insert_f-made now db.list f p v.list u a e

  after_flush-IsMade :
      (db : FlushList L)
      → IsValid m db
      → (create_flush_clone_insert m now db f).1.pair ≡ some p
      → IsMade now f p
  unfolding create_flush_clone_insert insert_f_
  after_flush-IsMade db v e = clone-IsMade now f p (
      m.insert_f-made now (flush m now db).list (clone (create now f)) p
        (flush-IsValid m now db v).list (clone-create-IsUsable now f u)
        (rw (made_key m now find exact db f v u a) a) e)

  pub insert_f-IsMade :
      (db : FlushList L) → IsValid m db → (insert_f m now db f).1.pair ≡ some p → IsMade now f p
  insert_f-IsMade db v e = elim (route m now db f (valid-IsUsable f u)) [
    | flushed r ↦ after_flush-IsMade db v (rw r at e)
    | direct w n r ↦ insert_f_-IsMade db v (rw r at e)
    | retried n r ↦
        after_flush-IsMade (insert_f_ m now db f).0 (insert_f_-IsValid m now find exact db f v u a)
          (rw r at e)
  ]
