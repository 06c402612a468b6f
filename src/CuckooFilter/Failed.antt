-- ===== src/CuckooFilter/Failed.antt =====
-- An insertion of include/cuckoofilter.h that fails leaves the table as it was.
use hm.Prelude.{
  ℕ, zero, suc, List, [], ◌∷◌, Bool, true, false, Option, none, some, ◌≡◌, refl, ◌∙◌, ap, get_or,
  set, ◌%◌,
}
use hm.Bytes.{Bytes}
use hm.CuckooFilter.{
  Table, Bucket, RollBack, settle, ix, put, roll_back, try_insert, hash_alt_index, rand, kick,
  insert, max_kicks, create_fp,
}
use hm.MurmurHash.{murmur_hash64a}

-- a write over a write, with what was there first
set_back {ℓ} :
    {A : Type ℓ} (xs : List A) (i : ℕ) (v d : A) → set (set xs i v) i (get_or xs i d) ≡ xs
set_back [] i v d = refl
set_back (x ∷ xs) zero v d = refl
set_back (x ∷ xs) (suc i) v d = ap (λ t. x ∷ t) (set_back xs i v d)

set-set {ℓ} : {A : Type ℓ} (xs : List A) (i : ℕ) (v w : A) → set (set xs i v) i w ≡ set xs i w
set-set [] i v w = refl
set-set (x ∷ xs) zero v w = refl
set-set (x ∷ xs) (suc i) v w = ap (λ t. x ∷ t) (set-set xs i v w)

-- a bucket that is written and written back
put_back :
    (table : Table) (index slot fp : ℕ)
    → put (put table index slot fp) index slot (get_or (ix table index) slot 0) ≡ table
unfolding put
put_back [] index slot fp = refl
put_back (b ∷ table) zero slot fp = ap (λ t. t ∷ table) (set_back b slot fp 0)
put_back (b ∷ table) (suc index) slot fp = ap (λ t. b ∷ t) (put_back table index slot fp)

settle-false :
    (table : Table) (index : ℕ) (o : Option Bucket) (more : Table × Bool) (r : Table)
    → (more.1 ≡ false → more.0 ≡ r)
    → (settle table index o more).1 ≡ false
    → (settle table index o more).0 ≡ r
unfolding settle
settle-false table index (some b) more r f h = absurd (cc)
settle-false table index none more r f h = f h

module _ (fp_bytes slots size : ℕ) where
  kick-false :
      (left i : ℕ) (table : Table) (fp index : ℕ) (rollback : List RollBack)
      → (kick fp_bytes slots size left i table fp index rollback).1 ≡ false
      → (kick fp_bytes slots size left i table fp index rollback).0 ≡ roll_back table rollback
  unfolding kick roll_back
  kick-false zero i table fp index rollback h = refl
  kick-false (suc left) i table fp index rollback h =
      let slot = rand fp_bytes slots size fp i in
      let old = get_or (ix table index) slot 0 in
      let kicked = put table index slot fp in
      let next = hash_alt_index fp_bytes slots size index old in
      let note : RollBack = record { index = index; fp = old; slot = slot } in
      settle-false kicked next (try_insert false old (ix kicked next))
        (kick fp_bytes slots size left (suc i) kicked old next (note ∷ rollback))
        (roll_back table rollback)
        (λ e.
          kick-false left (suc i) kicked old next (note ∷ rollback) e
          ∙ ap (λ t. roll_back t rollback) (put_back table index slot fp))
        h

  -- An insertion that reports false leaves the table as it was.
  pub insert-unchanged :
      (table : Table) (s : Bytes)
      → (insert fp_bytes slots size table s).1 ≡ false
      → (insert fp_bytes slots size table s).0 ≡ table
  unfolding insert
  insert-unchanged table s h =
      let fpo = create_fp fp_bytes slots size (murmur_hash64a s) in
      let index1 = murmur_hash64a s % size in
      let index2 = hash_alt_index fp_bytes slots size index1 fpo in
      settle-false table index1 (try_insert true fpo (ix table index1))
        (settle table index2 (try_insert true fpo (ix table index2))
          (kick fp_bytes slots size max_kicks 0 table fpo index1 []))
        table
        (settle-false table index2 (try_insert true fpo (ix table index2))
          (kick fp_bytes slots size max_kicks 0 table fpo index1 []) table
          (kick-false max_kicks 0 table fpo index1 []))
        h
