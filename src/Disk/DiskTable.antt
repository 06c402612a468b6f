-- ===== src/Disk/DiskTable.antt =====
-- getPair___ of hm4/disk/disklist.cc. `search` stands for `ra_find_` in exact mode, the search for a
-- key by binary search, hot line, hash index or B-tree.
use hm.Prelude.{
  ◌≤◌, List, [], ◌∷◌, Option, none, some, ltb, if◌then◌else◌, ◌≡◌, arith, All, Option-cases, inl,
  inr, Bool-cases, subst,
}
use hm.Bytes.{Bytes}
use hm.Pair.{Pair}
use hm.IList.{get_newest_pair}
use hm.Disk.FileBuilder.{DiskTable}
use hm.VectorList.Sorted.{IsSorted, lookup, same_key}

-- a search for a key in a table
abbrev pub Search : Type 0
Search = DiskTable → Bytes → Option Pair

-- A search that finds exactly what an ascending table holds: in tables of keys of one kind, for
-- keys of one kind.
pub record IsSearch (Stores Admits : Bytes → Type 0) (search : Search) : Type 0 where
  pub exact :
      (t : DiskTable) (key : Bytes)
      → IsSorted t.pairs
      → All (λ p. Stores p.key) t.pairs
      → Admits key
      → search t key ≡ lookup t.pairs key

-- The pairs ascend, their keys are of the kind, and the header's time is not before theirs.
pub record IsTable (Stores : Bytes → Type 0) (t : DiskTable) : Type 0 where
  pub sorted : IsSorted t.pairs
  pub stored : All (λ p. Stores p.key) t.pairs
  pub newest : All (λ p. p.created ≤ t.created_max) t.pairs

-- getPair___ with the best pair so far: a table that has nothing newer is not searched
unfoldable pub get_pair_best : Search → DiskTable → Bytes → Option Pair → Option Pair
get_pair_best search t key none = search t key
get_pair_best search t key (some best) =
    if ltb t.created_max best.created then some best else get_newest_pair (search t key) (some best)

pub lookup-All :
    (P : Pair → Type 0) (ps : List Pair) (key : Bytes) (p : Pair)
    → All P ps
    → lookup ps key ≡ some p
    → P p
unfolding lookup
lookup-All P [] key p h e = absurd (cc)
lookup-All P (q ∷ ps) key p h e = elim (Bool-cases (same_key q.key key)) [
  | inl t ↦ let same : q ≡ p = ground arith in subst P same h.0
  | inr t ↦ lookup-All P ps key p h.1 (ground arith)
]

-- A table's search may be skipped where the best pair so far is newer than the header's time: for a
-- table whose pairs are no newer than that, and a search that is exact
-- for its keys and for the key, the result is the newest of
-- what the table holds for the key and of the best pair so far.
pub get_pair_best-newest :
    (Stores Admits : Bytes → Type 0) (search : Search) (t : DiskTable) (key : Bytes)
    (best : Option Pair)
    → IsSearch Stores Admits search
    → IsTable Stores t
    → Admits key
    → get_pair_best search t key best ≡ get_newest_pair (lookup t.pairs key) best
unfolding get_pair_best get_newest_pair
get_pair_best-newest Stores Admits search t key none s v k =
    elim (Option-cases (lookup t.pairs key)) [
      | inl e ↦ rw (s.exact t key v.sorted v.stored k, e)
      | inr (p, e) ↦ rw (s.exact t key v.sorted v.stored k, e)
    ]
get_pair_best-newest Stores Admits search t key (some b) s v k =
    elim (Option-cases (lookup t.pairs key)) [
      | inl e ↦ ground (arith, s.exact t key v.sorted v.stored k)
      | inr (p, e) ↦ ground (
        arith,
        s.exact t key v.sorted v.stored k,
        lookup-All (λ p. p.created ≤ t.created_max) t.pairs key p v.newest e,
      )
    ]
