-- ===== src/Disk/FileBuilder.antt =====
-- hm4/disk/filebuilder.h and filebuilder.cc: the pairs of a new table, in order, and its header.
-- The index, line and hash files, which repeat keys and positions of the data, are not modelled.
use hm.Prelude.{ℕ, ◌≤◌, List, [], ◌∷◌, ltb, ◌==◌, if◌then◌else◌, add64, ◌≡◌, refl, arith, All}
use hm.MyTime.{uint64_max}
use hm.Pair.{Pair, is_ok, is_tombstone}

pub data TombstoneOptions : Type 0 where
  remove keep : TombstoneOptions

-- FileMetaBuilder, and what it writes to the header
pub record FileMeta : Type 0 where
  pub min_created : ℕ
  pub max_created : ℕ
  pub count : ℕ
  pub tombstones : ℕ

abbrev pub meta_start : FileMeta
meta_start = record { min_created = uint64_max; max_created = 0; count = 0; tombstones = 0 }

-- FileMetaBuilder::operator()
unfoldable pub meta_add : FileMeta → Pair → FileMeta
unfolding is_tombstone
meta_add m p = record {
  min_created = if ltb p.created m.min_created then p.created else m.min_created;
  max_created = if ltb m.max_created p.created then p.created else m.max_created;
  count = add64 m.count 1;
  tombstones = if is_tombstone p then add64 m.tombstones 1 else m.tombstones;
}

unfoldable pub meta_all : FileMeta → List Pair → FileMeta
unfolding meta_add
meta_all m [] = m
meta_all m (p ∷ ps) = meta_all (meta_add m p) ps

-- fixMin; fixMax changes nothing, since its limit is its fallback
unfoldable pub fix_min : ℕ → ℕ
fix_min v = if v == uint64_max then 0 else v

-- A table on the disk: its pairs and its header.
pub record DiskTable : Type 0 where
  pub pairs : List Pair
  pub created_min : ℕ
  pub created_max : ℕ
  pub count : ℕ
  pub tombstones : ℕ

-- std::copy_if
unfoldable pub copy_ok : ℕ → List Pair → List Pair
copy_ok now [] = []
copy_ok now (p ∷ ps) = let more = copy_ok now ps in if is_ok now p then p ∷ more else more

-- copy: invalid pairs are kept as tombstones, or left out
unfoldable pub copied : ℕ → TombstoneOptions → List Pair → List Pair
unfolding copy_ok
copied now keep ps = ps
copied now remove ps = copy_ok now ps

-- build
unfoldable pub build : ℕ → TombstoneOptions → List Pair → DiskTable
unfolding copied meta_all fix_min
build now options ps =
    let kept = copied now options ps in
    let m = meta_all meta_start kept in
    record {
      pairs = kept;
      created_min = fix_min m.min_created;
      created_max = m.max_created;
      count = m.count;
      tombstones = m.tombstones;
    }

meta_all-max :
    (m : FileMeta) (ps : List Pair)
    → (m.max_created ≤ (meta_all m ps).max_created)
      × All (λ p. p.created ≤ (meta_all m ps).max_created) ps
unfolding meta_all
meta_all-max m [] = (omega arith, tt)
meta_all-max m (p ∷ ps) = let (r, rs) = meta_all-max (meta_add m p) ps in (grow r, (grow_at r, rs))
  where
    grow :
        (meta_add m p).max_created ≤ (meta_all (meta_add m p) ps).max_created
        → m.max_created ≤ (meta_all (meta_add m p) ps).max_created
    grow h = ground arith

    grow_at :
        (meta_add m p).max_created ≤ (meta_all (meta_add m p) ps).max_created
        → p.created ≤ (meta_all (meta_add m p) ps).max_created
    grow_at h = ground arith

-- No pair of a table that was built is younger than its header says.
pub build-max :
    (now : ℕ) (options : TombstoneOptions) (ps : List Pair)
    → All (λ p. p.created ≤ (build now options ps).created_max) (build now options ps).pairs
unfolding build
build-max now options ps = (meta_all-max meta_start (copied now options ps)).1

pub pairs-build-keep : (now : ℕ) (ps : List Pair) → (build now keep ps).pairs ≡ ps
unfolding build
pairs-build-keep now ps = refl
