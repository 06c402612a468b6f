-- ===== src/FlushList/Insert.antt =====
-- insertF of hm4/flushlistbase.h on all its paths: directly, after a flush, or again after a flush.
use hm.Prelude.{
  ℕ, ◌+◌, ◌≤◌, ◌∷◌, true, false, none, some, ◌≡◌, ◌≢◌, refl, sym, ◌∙◌, arith, All, ap, Bool-cases,
  inl, inr, subst, ◌⊎◌,
}
use hm.Bytes.{Bytes}
use hm.Pair.{Pair}
use hm.Pair.Factory.{Factory, get_key, factory_bytes, create, valid, IsUsable, valid-IsUsable}
use hm.IList.{InsertResult, Status, error_no_memory, result_inserted}
use hm.Disk.DiskTable.{Search, IsSearch}
use hm.VectorList.Sorted.{lookup, same_key}
use hm.MemList.{MemList}
use hm.Multi.Newest.{newest_of, NoTies, Older}
use hm.FlushList.{
  FlushList, get_pair, predicate, insert_f_, insert_f, create_flush_clone_insert, is_no_memory,
}
use hm.FlushList.Reads.{IsValid, found, in_tables, get_pair-newest_of}
use hm.FlushList.Writes.{
  insert_f_-IsValid, insert_f_-other, insert_f_-new, after_flush-IsValid, after_flush-other,
  after_flush-new, after_flush-fits,
}

no_memory_lem : (s : Status) → is_no_memory s ≡ true → s ≡ error_no_memory
unfolding is_no_memory
no_memory_lem error_no_memory h = refl
no_memory_lem s h = ground arith

not_no_memory_lem : (s : Status) → is_no_memory s ≡ false → s ≢ error_no_memory
unfolding is_no_memory
not_no_memory_lem s h = ground arith

inserted-ne : {r : InsertResult} {p : Pair} → r ≡ result_inserted p → r.status ≢ error_no_memory
inserted-ne e h = let no = rw e at h in absurd (cc)

module _ {L : Type 0} (m : MemList L) (now : ℕ) (db : FlushList L) (f : Factory) where
  -- the ways that insertF takes for a valid factory
  pub data Route : Type 0 where
    flushed : insert_f m now db f ≡ create_flush_clone_insert m now db f → Route
    direct :
        predicate m db.list (factory_bytes f) ≡ false
        → is_no_memory (insert_f_ m now db f).1.status ≡ false
        → insert_f m now db f ≡ insert_f_ m now db f
        → Route
    retried :
        is_no_memory (insert_f_ m now db f).1.status ≡ true
        → insert_f m now db f ≡ create_flush_clone_insert m now (insert_f_ m now db f).0 f
        → Route

  pub route : valid f ≡ true → Route
  route ok = elim (Bool-cases (predicate m db.list (factory_bytes f))) [
    | inl p ↦ flushed (unfold insert_f in rw (ok, p))
    | inr n ↦ elim (Bool-cases (is_no_memory (insert_f_ m now db f).1.status)) [
      | inl e ↦ retried e (unfold insert_f in rw (ok, n, e))
      | inr e ↦ direct n e (unfold insert_f in rw (ok, n, e))
    ]
  ]

  module _ (v : IsValid m db) (u : IsUsable f) (a : m.Admits (get_key f)) where
    -- after the list ran out of memory it holds what it held
    same_pairs :
        is_no_memory (insert_f_ m now db f).1.status ≡ true
        → m.pairs (insert_f_ m now db f).0.list ≡ m.pairs db.list
    unfolding insert_f_
    same_pairs e =
        m.insert_f-unchanged now db.list f v.list u a
          (no_memory_lem (m.insert_f now db.list f).1.status e)

    same_found :
        (j : Bytes)
        → is_no_memory (insert_f_ m now db f).1.status ≡ true
        → found m (insert_f_ m now db f).0 j ≡ found m db j
    unfolding insert_f_
    same_found j e = ap (λ ps. lookup ps j ∷ in_tables db.tables j) (same_pairs e)

    module _ (find : Search) (exact : IsSearch m.Stores m.Admits find) where
      same_reads :
          (j : Bytes)
          → m.Admits j
          → is_no_memory (insert_f_ m now db f).1.status ≡ true
          → get_pair m find (insert_f_ m now db f).0 j ≡ get_pair m find db j
      same_reads j k e =
          get_pair-newest_of m find (insert_f_ m now db f).0 j exact
            (insert_f_-IsValid m now find exact db f v u a) k
          ∙ ap (newest_of none) (same_found j e)
          ∙ sym (get_pair-newest_of m find db j exact v k)

      -- For a valid flush list, a usable factory whose key the list
      -- admits, and a search that is exact on the tables and keys of the list:
      -- insertF keeps the invariant, whichever path it takes.
      pub insert_f-IsValid : IsValid m (insert_f m now db f).0
      insert_f-IsValid = elim (route (valid-IsUsable f u)) [
        | flushed e ↦ rw e (after_flush-IsValid m now find exact db f v u a)
        | direct w n e ↦ rw e (insert_f_-IsValid m now find exact db f v u a)
        | retried n e ↦ rw e (
            after_flush-IsValid m now find exact (insert_f_ m now db f).0 f
              (insert_f_-IsValid m now find exact db f v u a) u a)
      ]

      -- For a valid flush list, a usable factory whose key the list
      -- admits, and a search that is exact on the tables and keys of the list:
      -- insertF of one key changes no read of another key that the list admits and of which no two different pairs
      -- were created at the same time, be there a flush on the way or not.
      pub get_pair-insert_f_other :
          (j : Bytes)
          → m.Admits j
          → NoTies (found m db j)
          → same_key (get_key f) j ≡ false
          → get_pair m find (insert_f m now db f).0 j ≡ get_pair m find db j
      get_pair-insert_f_other j k t h = elim (route (valid-IsUsable f u)) [
        | flushed e ↦ rw e (after_flush-other m now find exact db f v u a j k t h)
        | direct w n e ↦ rw e (insert_f_-other m now find exact db f v u a j k h)
        | retried n e ↦ rw e (
            after_flush-other m now find exact (insert_f_ m now db f).0 f
              (insert_f_-IsValid m now find exact db f v u a) u a j k
              (subst (λ x. NoTies x) (sym (same_found j n)) t) h
            ∙ same_reads j k n)
      ]

      -- For a valid flush list, a usable factory whose key the list
      -- admits, and a search that is exact on the tables and keys of the list:
      -- the pair that insertF reports is what the next read of its key returns, if it is newer
      -- than all that the memory list and the tables held for that key.
      pub get_pair-insert_f_self :
          (p : Pair)
          → (insert_f m now db f).1.pair ≡ some p
          → All (Older p) (found m db (get_key f))
          → get_pair m find (insert_f m now db f).0 (get_key f) ≡ some p
      get_pair-insert_f_self p r o = elim (route (valid-IsUsable f u)) [
        | flushed e ↦ rw e (after_flush-new m now find exact db f v u a p (rw e at r) o)
        | direct w n e ↦ rw e (insert_f_-new m now find exact db f v u a p (rw e at r) o.1)
        | retried n e ↦ rw e (
            after_flush-new m now find exact (insert_f_ m now db f).0 f
              (insert_f_-IsValid m now find exact db f v u a) u a p (rw e at r)
              (subst (λ x. All (Older p) x) (sym (same_found (get_key f) n)) o))
      ]

      -- For a valid flush list, a usable factory whose key the list
      -- admits, and a search that is exact on the tables and keys of the list:
      -- with an arena that can hold the pair, its node and 16 bytes more, insertF never reports
      -- ERROR_NO_MEMORY; and where the list is full before, by the predicate or because its own insertF
      -- reports ERROR_NO_MEMORY, insertF reports the pair that the factory makes as inserted.
      pub insert_f-ne-no_memory :
          factory_bytes f + m.node_size + 16 ≤ (m.arena db.list).size
          → ((insert_f m now db f).1.status ≢ error_no_memory)
            × ((predicate m db.list (factory_bytes f) ≡ true)
                  ⊎ (is_no_memory (insert_f_ m now db f).1.status ≡ true)
                → (insert_f m now db f).1 ≡ result_inserted (create now f))
      unfolding insert_f_
      insert_f-ne-no_memory room = elim (route (valid-IsUsable f u)) [
        | flushed e ↦
            let fits = ap (λ out. out.1) e ∙ after_flush-fits m now find exact db f v u a room in
            (inserted-ne fits, λ full. fits)
        | direct w n e ↦ (
          rw e (not_no_memory_lem (insert_f_ m now db f).1.status n),
          λ full. elim full [
            | inl y ↦ absurd (let no : true ≡ false = sym y ∙ w in cc)
            | inr y ↦ absurd (let no : true ≡ false = sym y ∙ n in cc)
          ],
        )
        | retried n e ↦
            let fits =
              ap (λ out. out.1) e
              ∙ after_flush-fits m now find exact (insert_f_ m now db f).0 f
                  (insert_f_-IsValid m now find exact db f v u a) u a
                  (subst (λ n. factory_bytes f + m.node_size + 16 ≤ n)
                    (sym (m.insert_f-size now db.list f)) room) in
            (inserted-ne fits, λ full. fits)
      ]
