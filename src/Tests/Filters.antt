-- ===== src/Tests/Filters.antt =====
-- The cuckoo filter.
use hm.Prelude.{List, [], ◌∷◌, true, false, ◌≡◌, ◌≢◌, refl, arith, All, map, ◌^◌}
use hm.Bytes.{Bytes}
use hm.MurmurHash.{murmur_hash64a}
use hm.CuckooFilter.{Table, insert, remove, lookup, create_fp, clear}
use hm.CuckooFilter.Bucket.{IsTable}
use hm.CuckooFilter.Failed.{insert-unchanged}
use hm.CuckooFilter.Removed.{TakesOne}
use hm.CuckooFilter.Stream.{run, remove-lookup, found-run}

-- a bucket of one slot that is taken
abbrev crowded : Table
crowded = (5 ∷ []) ∷ []

abbrev some_key : Bytes
some_key = 97 ∷ 98 ∷ []

insert-crowded : (insert 1 1 1 crowded some_key).1 ≡ false
unfolding insert
insert-crowded = refl

insert-unchanged_example : (insert 1 1 1 crowded some_key).0 ≡ crowded
insert-unchanged_example = insert-unchanged 1 1 1 crowded some_key insert-crowded

-- eaaa, eaba and so on
abbrev added : List Bytes
added =
    map (λ c. 101 ∷ 97 ∷ c ∷ 97 ∷ [])
      (97 ∷ 98 ∷ 99 ∷ 100 ∷ 101 ∷ 102 ∷ 103 ∷ 104 ∷ 105 ∷ 106 ∷ 107 ∷ [])

found-run_example :
    let (table, inserted) = run 1 4 (2 ^ 2) (clear 1 4 (2 ^ 2)) added in
    All (λ s. lookup 1 4 (2 ^ 2) table s ≡ true) inserted
found-run_example = found-run 1 4 2 added (omega arith)

-- the first bucket holds the fingerprint of ab
abbrev two_buckets : Table
two_buckets = (0 ∷ 248 ∷ []) ∷ (9 ∷ 0 ∷ []) ∷ []

two_buckets-IsTable : IsTable 2 2 two_buckets
two_buckets-IsTable = record { buckets = refl; full = (refl, (refl, tt)) }

remove-lookup_example :
    ((remove 1 2 2 two_buckets some_key).1 ≡ lookup 1 2 2 two_buckets some_key)
    × TakesOne
        (create_fp 1 2 2 (murmur_hash64a some_key))
        two_buckets
        (remove 1 2 2 two_buckets some_key)
    × ((r : Bytes)
        → create_fp 1 2 2 (murmur_hash64a r) ≢ create_fp 1 2 2 (murmur_hash64a some_key)
        → lookup 1 2 2 two_buckets r ≡ true
        → lookup 1 2 2 (remove 1 2 2 two_buckets some_key).0 r ≡ true)
remove-lookup_example = remove-lookup 1 2 2 two_buckets some_key (omega arith) two_buckets-IsTable

removed : (remove 1 2 2 two_buckets some_key).0 ≡ (0 ∷ 0 ∷ []) ∷ (9 ∷ 0 ∷ []) ∷ []
unfolding remove
removed = refl

-- Three buckets: each insertion reports true, and a string is lost.
inserted-three : (run 1 4 3 (clear 1 4 3) added).1 ≡ added
unfolding insert clear
inserted-three = refl

lost-three : lookup 1 4 3 (run 1 4 3 (clear 1 4 3) added).0 (101 ∷ 97 ∷ 106 ∷ 97 ∷ []) ≡ false
unfolding insert clear lookup
lost-three = refl
