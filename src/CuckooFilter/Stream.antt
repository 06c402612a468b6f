-- ===== src/CuckooFilter/Stream.antt =====
-- Sequences of insertions into a new filter of include/cuckoofilter.h, and removals.
use hm.Prelude.{
  ℕ, zero, suc, ◌<◌, ◌%◌, ◌^◌, List, [], ◌∷◌, Bool, true, false, ◌||◌, Option, none, some, All, ◌≡◌,
  ◌≢◌, refl, sym, ◌∙◌, ap, subst, arith, inl, inr, ◌==◌, length, get_or, length-replicate,
  replicate, if◌then◌else◌, Bool-cases, Option-cases,
}
use hm.Bytes.{Bytes}
use hm.MurmurHash.{murmur_hash64a}
use hm.CuckooFilter.{
  Bucket, Table, ix, try_find, is_found, take_out, hash_alt_index, insert, remove, lookup,
  create_fp, clear,
}
use hm.CuckooFilter.Bucket.{In, IsTable}
use hm.CuckooFilter.Failed.{insert-unchanged}
use hm.CuckooFilter.Kept.{IsPaired, alt_below, put-In}
use hm.CuckooFilter.Negatives.{create_fp-nonzero, lookup-Held, lookup-insert}
use hm.CuckooFilter.Removed.{TakesOne, take_out-TakesOne}
use hm.CuckooFilter.Paired.{pow_pos, power-IsPaired}

-- the slot that is found has the fingerprint
find-get : (fp : ℕ) (b : Bucket) (slot : ℕ) → try_find fp b ≡ some slot → get_or b slot 0 ≡ fp
unfolding try_find
find-get fp [] slot h = absurd (cc)
find-get fp (x ∷ b) slot h = elim (Bool-cases (x == fp)) [
  | inl e ↦
      let first : 0 ≡ slot = ground (arith, e, h) in
      subst (λ i. get_or (x ∷ b) i 0 ≡ fp) first (ground (arith, e))
  | inr e ↦ elim (Option-cases (try_find fp b)) [
    | inl n ↦ absurd (ground (arith, e, n, h))
    | inr (i, n) ↦
        let behind : suc i ≡ slot = ground (arith, e, n, h) in
        subst (λ j. get_or (x ∷ b) j 0 ≡ fp) behind (find-get fp b i n)
  ]
]

take_out-found :
    (table : Table) (index : ℕ) (o : Option ℕ) (more : Table × Bool)
    → (take_out table index o more).1 ≡ (is_found o || more.1)
unfolding take_out
take_out-found table index none more = refl
take_out-found table index (some slot) more = refl

-- a removal keeps the other fingerprints
take_out-In :
    (table : Table) (index fp g j : ℕ) (o : Option ℕ) (more : Table × Bool)
    → index < length table
    → try_find fp (ix table index) ≡ o
    → g ≢ fp
    → In g (ix table j)
    → In g (ix more.0 j)
    → In g (ix (take_out table index o more).0 j)
unfolding take_out
take_out-In table index fp g j none more h e n m k = k
take_out-In table index fp g j (some slot) more h e n m k =
    elim (put-In table index slot 0 g j h m) [
      | inl o ↦ o
      | inr (d, o) ↦ absurd (n (sym o ∙ find-get fp (ix table index) slot e))
    ]

module _ (fp_bytes slots size : ℕ) where
  -- A removal from a table of its shape reports whether the string was found; where it was, it leaves
  -- one copy less of the string's fingerprint in the table and as many as before of any other; where it was
  -- not, it leaves the table as it was; and what was found before and has another fingerprint is found after.
  pub remove-lookup :
      (table : Table) (s : Bytes)
      → 0 < size
      → IsTable slots size table
      → ((remove fp_bytes slots size table s).1 ≡ lookup fp_bytes slots size table s)
        × TakesOne
            (create_fp fp_bytes slots size (murmur_hash64a s))
            table
            (remove fp_bytes slots size table s)
        × ((r : Bytes)
            → create_fp fp_bytes slots size (murmur_hash64a r)
              ≢ create_fp fp_bytes slots size (murmur_hash64a s)
            → lookup fp_bytes slots size table r ≡ true
            → lookup fp_bytes slots size (remove fp_bytes slots size table s).0 r ≡ true)
  unfolding remove lookup
  remove-lookup table s z t =
      let fp = create_fp fp_bytes slots size (murmur_hash64a s) in
      let fp_nonzero = create_fp-nonzero fp_bytes slots size (murmur_hash64a s) in
      let index1 = murmur_hash64a s % size in
      let index2 = hash_alt_index fp_bytes slots size index1 fp in
      let o1 = try_find fp (ix table index1) in
      let o2 = try_find fp (ix table index2) in
      let below : index1 < length table = omega (arith, t.buckets, z) in
      let below2 : index2 < length table =
        omega (arith, t.buckets, alt_below fp_bytes slots size index1 fp z) in
      let keep : (g j : ℕ)
          → g ≢ fp
          → In g (ix table j)
          → In g (ix (remove fp_bytes slots size table s).0 j) =
        λ g j n m.
          take_out-In table index1 fp g j o1 (take_out table index2 o2 (table, false)) below refl n
            m (take_out-In table index2 fp g j o2 (table, false) below2 refl n m m) in
      (
        take_out-found table index1 o1 (take_out table index2 o2 (table, false))
            ∙ ap (λ b. is_found o1 || b)
                (take_out-found table index2 o2 (table, false) ∙ or_false (is_found o2)),
        take_out-TakesOne table index1 fp o1 (take_out table index2 o2 (table, false)) fp_nonzero
            (λ slot e. find-get fp (ix table index1) slot e)
            (take_out-TakesOne table index2 fp o2 (table, false) fp_nonzero
              (λ slot e. find-get fp (ix table index2) slot e) (λ e. absurd (cc), λ e. refl)),
        λ r n h.
            let g = create_fp fp_bytes slots size (murmur_hash64a r) in
            (lookup-Held fp_bytes slots size (remove fp_bytes slots size table s).0 r).1
              (elim ((lookup-Held fp_bytes slots size table r).0 h) [
                | inl m ↦ inl (keep g (murmur_hash64a r % size) n m)
                | inr m ↦
                    inr
                      (keep g (hash_alt_index fp_bytes slots size (murmur_hash64a r % size) g) n m)
              ]),
      )
    where
      or_false : (b : Bool) → (b || false) ≡ b
      or_false true = refl
      or_false false = refl

  -- the table after insertions, and the strings whose insertion reported true
  abbrev pub run : Table → List Bytes → Table × List Bytes
  run table [] = (table, [])
  run table (s ∷ ss) =
      let r = insert fp_bytes slots size table s in
      let rest = run r.0 ss in (rest.0, if r.1 then s ∷ rest.1 else rest.1)

  run-found :
      (table : Table) (ss : List Bytes)
      → IsPaired fp_bytes slots size
      → 0 < slots
      → 0 < size
      → IsTable slots size table
      → ((r : Bytes)
          → lookup fp_bytes slots size table r ≡ true
          → lookup fp_bytes slots size (run table ss).0 r ≡ true)
        × All (λ s. lookup fp_bytes slots size (run table ss).0 s ≡ true) (run table ss).1
  run-found table [] p k z t = (λ r h. h, tt)
  run-found table (s ∷ ss) p k z t =
      let r = insert fp_bytes slots size table s in
      elim (Bool-cases r.1) [
        | inl e ↦
            let (t', own, keep) = lookup-insert fp_bytes slots size table s p k z t e in
            let (later, all) = run-found r.0 ss p k z t' in
            rw e (λ q h. later q (keep q h), (later s own, all))
        | inr e ↦
            let same : table ≡ r.0 = sym (insert-unchanged fp_bytes slots size table s e) in
            let (later, all) = run-found r.0 ss p k z (subst (IsTable slots size) same t) in
            rw e (λ q h. later q (subst (λ u. lookup fp_bytes slots size u q ≡ true) same h), all)
      ]

  clear-IsTable : IsTable slots size (clear fp_bytes slots size)
  unfolding clear
  clear-IsTable = record {
    buckets = length-replicate size (replicate slots 0);
    full = full_of size;
  }
    where
      full_of : (n : ℕ) → All (λ b. length b ≡ slots) (replicate n (replicate {A = ℕ} slots 0))
      full_of zero = tt
      full_of (suc n) = (length-replicate {A = ℕ} slots 0, full_of n)

-- After any insertions into a new filter whose number of buckets is a power of two, every string whose
-- insertion reported true is found.
pub found-run :
    (fp_bytes slots k : ℕ) (ss : List Bytes)
    → 0 < slots
    → let (table, inserted) = run fp_bytes slots (2 ^ k) (clear fp_bytes slots (2 ^ k)) ss in
      All (λ s. lookup fp_bytes slots (2 ^ k) table s ≡ true) inserted
found-run fp_bytes slots k ss h =
    (run-found fp_bytes slots (2 ^ k) (clear fp_bytes slots (2 ^ k)) ss
      (power-IsPaired fp_bytes slots k) h (pow_pos k) (clear-IsTable fp_bytes slots (2 ^ k))).1
