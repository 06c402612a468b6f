-- ===== src/CuckooFilter/Negatives.antt =====
-- include/cuckoofilter.h has no false negatives, if the other bucket of the other bucket of a fingerprint
-- is the first one.
use hm.Prelude.{
  ℕ, [], ◌*◌, ◌<◌, ◌%◌, ◌^◌, Bool, true, false, ◌||◌, ◌≡◌, ◌≢◌, ◌↔◌, refl, ◌∙◌, ap, arith, ◌⊎◌, inl,
  inr, ◌==◌, Bool-cases,
}
use hm.Bytes.{Bytes}
use hm.MurmurHash.{murmur_hash64a}
use hm.CuckooFilter.{
  Table, ix, try_insert, try_find, is_found, settle, hash_alt_index, kick, insert, lookup,
  create_fp, max_kicks,
}
use hm.CuckooFilter.Bucket.{find-In, IsTable}
use hm.CuckooFilter.Kept.{IsPaired, Held, Waits, Good, settle-Good, alt_below, taken, kick-Good}

or-true : (a b : Bool) → (a || b) ≡ true ↔ ((a ≡ true) ⊎ (b ≡ true))
or-true true b = (λ h. inl refl, λ h. refl)
or-true false b = (λ h. inr h, λ h. elim h [ inl e ↦ absurd (cc) | inr e ↦ e ])

module _ (fp_bytes slots size : ℕ) where
  pub create_fp-nonzero : (hash : ℕ) → create_fp fp_bytes slots size hash ≢ 0
  unfolding create_fp
  create_fp-nonzero hash h = elim (Bool-cases ((hash % 2 ^ (8 * fp_bytes)) == 0)) [
    | inl e ↦ absurd (ground (arith, e, h))
    | inr e ↦ absurd (ground (arith, e, h))
  ]

  pub lookup-Held :
      (table : Table) (s : Bytes)
      → lookup fp_bytes slots size table s ≡ true
        ↔ Held fp_bytes slots size table
            (create_fp fp_bytes slots size (murmur_hash64a s))
            (murmur_hash64a s % size)
  unfolding lookup
  lookup-Held table s =
      let fp = create_fp fp_bytes slots size (murmur_hash64a s) in
      let index1 = murmur_hash64a s % size in
      let index2 = hash_alt_index fp_bytes slots size index1 fp in
      let either =
        or-true (is_found (try_find fp (ix table index1)))
          (is_found (try_find fp (ix table index2))) in
      let first = find-In fp (ix table index1) in
      let second = find-In fp (ix table index2) in
      (
        λ h. elim (either.0 h) [ inl e ↦ inl (first.0 e) | inr e ↦ inr (second.0 e) ],
        λ h. either.1 (elim h [ inl m ↦ inl (first.1 m) | inr m ↦ inr (second.1 m) ]),
      )

  -- what is held, or is to be held, is held after an insertion that reports true
  insert-Good :
      (g j : ℕ) (table : Table) (s : Bytes)
      → IsPaired fp_bytes slots size
      → 0 < slots
      → 0 < size
      → IsTable slots size table
      → j < size
      → g ≢ 0
      → (Held fp_bytes slots size table g j
          ⊎ ((g ≡ create_fp fp_bytes slots size (murmur_hash64a s))
              × (j ≡ murmur_hash64a s % size)))
      → Good fp_bytes slots size g j (insert fp_bytes slots size table s)
  unfolding insert
  insert-Good g j table s pair k z t l n w =
      let fpo = create_fp fp_bytes slots size (murmur_hash64a s) in
      let index1 = murmur_hash64a s % size in
      let index2 = hash_alt_index fp_bytes slots size index1 fpo in
      let below : index1 < size = omega (arith, z) in
      let kicks = kick fp_bytes slots size max_kicks 0 table fpo index1 [] in
      let w1 : Waits fp_bytes slots size g j table fpo index1 = elim w [
        | inl m ↦ inl m
        | inr (e, f) ↦ inr (e, inl f)
      ] in
      let w2 : Waits fp_bytes slots size g j table fpo index2 = elim w [
        | inl m ↦ inl m
        | inr (e, f) ↦ inr (
          e,
          inr (
              ap (λ i. hash_alt_index fp_bytes slots size i g) f
              ∙ ap (hash_alt_index fp_bytes slots size index1) e),
        )
      ] in
      settle-Good fp_bytes slots size g j table index1 (try_insert true fpo (ix table index1))
        (settle table index2 (try_insert true fpo (ix table index2)) kicks)
        (λ b e. taken fp_bytes slots size true g j table fpo index1 b t below n w1 e)
        (settle-Good fp_bytes slots size g j table index2 (try_insert true fpo (ix table index2))
          kicks
          (λ b e.
            taken fp_bytes slots size true g j table fpo index2 b t
              (alt_below fp_bytes slots size index1 fpo z) n w2 e)
          (kick-Good fp_bytes slots size g j max_kicks 0 table fpo index1 [] pair k z t below l n
            w1))

  -- If the other bucket of the other bucket of any fingerprint is the first one, an insertion into
  -- a table of that shape that reports true leaves a table of that shape in which the inserted
  -- string is found, and every string that was found before.
  pub lookup-insert :
      (table : Table) (s : Bytes)
      → IsPaired fp_bytes slots size
      → 0 < slots
      → 0 < size
      → IsTable slots size table
      → (insert fp_bytes slots size table s).1 ≡ true
      → let new = (insert fp_bytes slots size table s).0 in
        IsTable slots size new
        × (lookup fp_bytes slots size new s ≡ true)
        × ((r : Bytes)
            → lookup fp_bytes slots size table r ≡ true
            → lookup fp_bytes slots size new r ≡ true)
  lookup-insert table s pair k z t yes_inserted =
      let new = (insert fp_bytes slots size table s).0 in
      let fp = λ (x : Bytes). create_fp fp_bytes slots size (murmur_hash64a x) in
      let small : (x : Bytes) → murmur_hash64a x % size < size = λ x. omega (arith, z) in
      let own =
        insert-Good (fp s) (murmur_hash64a s % size) table s pair k z t (small s)
          (create_fp-nonzero (murmur_hash64a s)) (inr (refl, refl)) yes_inserted in
      (
        own.0,
        (lookup-Held new s).1 own.1,
        λ r h.
            (lookup-Held new r).1
              (insert-Good (fp r) (murmur_hash64a r % size) table s pair k z t (small r)
                (create_fp-nonzero (murmur_hash64a r)) (inl ((lookup-Held table r).0 h))
                yes_inserted).1,
      )
