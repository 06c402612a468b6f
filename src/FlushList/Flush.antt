-- ===== src/FlushList/Flush.antt =====
-- flush of hm4/flushlist.h moves the memory list's pairs to a table, and readers see no difference.
use hm.Prelude.{
  ℕ, List, [], ◌∷◌, Option, none, some, ◌≡◌, ◌⊎◌, inl, inr, refl, sym, ◌∙◌, All, Bool-cases, ltb,
}
use hm.Bytes.{Bytes}
use hm.Pair.{Pair}
use hm.Disk.FileBuilder.{DiskTable, build, keep, pairs-build-keep, build-max}
use hm.Disk.DiskTable.{Search, IsSearch, IsTable}
use hm.VectorList.Sorted.{IsSorted, lookup}
use hm.MemList.{MemList}
use hm.Multi.Newest.{
  newest_of, newest_of_lem, newest_of_unique, newest_of-All, Has, NoTies, NoTies-Dominates,
  IsNewest-Has, Older,
}
use hm.FlushList.{FlushList, get_pair, flush, place, saved}
use hm.FlushList.Reads.{IsValid, found, in_tables, get_pair-newest_of}

module _ (P : Option Pair → Type 0) (key : Bytes) where
  All-place :
      (t : DiskTable) (ts : List DiskTable)
      → P (lookup t.pairs key)
      → All P (in_tables ts key)
      → All P (in_tables (place t ts) key)
  unfolding place
  All-place t [] h hs = (h, tt)
  All-place t (u ∷ us) h hs = elim (Bool-cases (ltb u.created_max t.created_max)) [
    | inl e ↦ rw (e, place) (h, hs)
    | inr e ↦ rw (e, place) (hs.0, All-place t us h hs.1)
  ]

  -- what holds of all that the list and the tables hold for a key holds after they were saved
  All-saved :
      (now : ℕ) (ps : List Pair) (ts : List DiskTable)
      → P (lookup ps key)
      → All P (in_tables ts key)
      → All P (in_tables (saved now ps ts) key)
  unfolding saved
  All-saved now [] ts h hs = hs
  All-saved now (p ∷ ps) ts h hs = All-place (build now keep (p ∷ ps)) ts (rw pairs-build-keep h) hs

module _ (p : Pair) (key : Bytes) where
  Has-place :
      (t : DiskTable) (ts : List DiskTable)
      → (lookup t.pairs key ≡ some p) ⊎ Has p (in_tables ts key)
      → Has p (in_tables (place t ts) key)
  unfolding place
  Has-place t [] h = h
  Has-place t (u ∷ us) h = elim (Bool-cases (ltb u.created_max t.created_max)) [
    | inl e ↦ rw (e, place) h
    | inr e ↦
        rw (e, place)
          (elim h [
            | inl a ↦ inr (Has-place t us (inl a))
            | inr b ↦ elim b [ inl c ↦ inl c | inr d ↦ inr (Has-place t us (inr d)) ]
          ])
  ]

  Has-saved :
      (now : ℕ) (ps : List Pair) (ts : List DiskTable)
      → (lookup ps key ≡ some p) ⊎ Has p (in_tables ts key)
      → Has p (in_tables (saved now ps ts) key)
  unfolding saved lookup
  Has-saved now [] ts h = elim h [ inl e ↦ absurd (cc) | inr b ↦ b ]
  Has-saved now (q ∷ ps) ts h = Has-place (build now keep (q ∷ ps)) ts (rw pairs-build-keep h)

module _ (P : DiskTable → Type 0) where
  tables-place : (t : DiskTable) (ts : List DiskTable) → P t → All P ts → All P (place t ts)
  unfolding place
  tables-place t [] h hs = (h, tt)
  tables-place t (u ∷ us) h hs = elim (Bool-cases (ltb u.created_max t.created_max)) [
    | inl e ↦ rw (e, place) (h, hs)
    | inr e ↦ rw (e, place) (hs.0, tables-place t us h hs.1)
  ]

module _ (Stores : Bytes → Type 0) where
  IsTable-build :
      (now : ℕ) (ps : List Pair)
      → IsSorted ps
      → All (λ p. Stores p.key) ps
      → IsTable Stores (build now keep ps)
  IsTable-build now ps s h = record {
    sorted = rw pairs-build-keep s;
    stored = rw pairs-build-keep h;
    newest = build-max now keep ps;
  }

  IsTable-saved :
      (now : ℕ) (ps : List Pair) (ts : List DiskTable)
      → IsSorted ps
      → All (λ p. Stores p.key) ps
      → All (IsTable Stores) ts
      → All (IsTable Stores) (saved now ps ts)
  unfolding saved
  IsTable-saved now [] ts s h v = v
  IsTable-saved now (p ∷ ps) ts s h v =
      tables-place (IsTable Stores) (build now keep (p ∷ ps)) ts (IsTable-build now (p ∷ ps) s h) v

module _ {L : Type 0} (m : MemList L) (now : ℕ) (db : FlushList L) (v : IsValid m db) where
  pub flush-IsValid : IsValid m (flush m now db)
  unfolding flush
  flush-IsValid = record {
    list = m.clear-IsValid db.list v.list;
    tables =
        IsTable-saved m.Stores now (m.pairs db.list) db.tables (m.sorted db.list v.list)
          (m.stored db.list v.list) v.tables;
  }

  pub All-flush :
      (P : Option Pair → Type 0) (key : Bytes)
      → P none
      → All P (found m db key)
      → All P (found m (flush m now db) key)
  unfolding flush lookup
  All-flush P key n h =
      rw m.clear-pairs (n, All-saved P key now (m.pairs db.list) db.tables h.0 h.1)

  Has-flush :
      (p : Pair) (key : Bytes) → Has p (found m db key) → Has p (found m (flush m now db) key)
  unfolding flush
  Has-flush p key h = inr (Has-saved p key now (m.pairs db.list) db.tables h)

  joined :
      (key : Bytes)
      → NoTies (found m db key)
      → newest_of none (found m (flush m now db) key) ≡ newest_of none (found m db key)
  joined key t = elim (newest_of_lem (found m db key)) [
    | inl h ↦
        newest_of-All (found m (flush m now db) key) (All-flush (λ o. o ≡ none) key refl h.1)
        ∙ sym h.0
    | inr (p, e, n) ↦
        newest_of_unique p (found m (flush m now db) key)
          (All-flush (λ o. (o ≡ some p) ⊎ Older p o) key (inr tt)
            (NoTies-Dominates p (found m db key) t n))
          (Has-flush p key (IsNewest-Has p (found m db key) n))
        ∙ sym e
  ]

  -- For a valid flush list and a search that is exact on the tables and keys of the list: a flush changes no read
  -- of a key that the list admits and of which no two different pairs were created at the same time.
  pub get_pair-flush :
      (find : Search) (key : Bytes)
      → IsSearch m.Stores m.Admits find
      → m.Admits key
      → NoTies (found m db key)
      → get_pair m find (flush m now db) key ≡ get_pair m find db key
  get_pair-flush find key s k t =
      get_pair-newest_of m find (flush m now db) key s flush-IsValid k
      ∙ joined key t
      ∙ sym (get_pair-newest_of m find db key s v k)
