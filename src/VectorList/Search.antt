-- ===== src/VectorList/Search.antt =====
-- The vector's binary search finds what one pass over its keys finds.
use hm.Prelude.{
  ℕ, zero, suc, ◌+◌, ◌<◌, List, [], ◌∷◌, true, Ordering, length, ◌≡◌, ◌≢◌, refl, ◌∙◌, arith,
  Ordering-cases, is_lt, is_eq, is_gt,
}
use hm.Bytes.{Bytes, compare_bytes}
use hm.Bytes.Order.{compare_trans, compare_eq}
use hm.Pair.{Pair, cmp, is_key_valid}
use hm.BinarySearch.{linear_search}
use hm.BinarySearch.Agree.{IsAscending, binary_search-linear}
use hm.VectorList.{VectorList, cmp_at, search, get_pair}
use hm.VectorList.Sorted.{IsSorted, Above, scan, lookup, scan-lookup, lt-gt}

pub cmp_of_valid :
    (p : Pair) (key : Bytes) → is_key_valid key ≡ true → cmp p key ≡ compare_bytes p.key key
unfolding cmp
cmp_of_valid p [] h = ground arith
cmp_of_valid p (c ∷ cs) h = refl

module _ (key : Bytes) (nonempty : is_key_valid key ≡ true) where
  -- all pairs behind one that is not below the key are above it
  up-Above :
      (a : Bytes) (ps : List Pair) (j : ℕ)
      → Above a ps
      → compare_bytes a key ≢ Ordering.lt
      → j < length ps
      → cmp_at ps key j ≡ Ordering.gt
  up-Above a [] j h k l = absurd (omega arith)
  up-Above a (p ∷ ps) zero h k l = ground (
    arith,
    cmp_of_valid p key nonempty,
    lt-gt a p.key,
    compare_trans a p.key key,
    compare_eq p.key key,
  )
  up-Above a (p ∷ ps) (suc j) h k l = up-Above a ps j h.1 k (omega arith)

  pub up_lem :
      (ps : List Pair) (i j : ℕ)
      → IsSorted ps
      → i < j
      → j < length ps
      → cmp_at ps key i ≢ Ordering.lt
      → cmp_at ps key j ≡ Ordering.gt
  up_lem [] i j s p q h = absurd (omega arith)
  up_lem (x ∷ ps) i zero s p q h = absurd (omega arith)
  up_lem (x ∷ ps) zero (suc j) s p q h =
      up-Above x.key ps j s.0 (λ e. h (cmp_of_valid x key nonempty ∙ e)) (omega arith)
  up_lem (x ∷ ps) (suc i) (suc j) s p q h = up_lem ps i j s.1 (omega arith) (omega arith) h

  pub ascending : (ps : List Pair) → IsSorted ps → IsAscending (cmp_at ps key) (length ps)
  ascending ps s = record {
    up = λ i j p q h. up_lem ps i j s p q h;
    down = λ i j p q h. elim (Ordering-cases (cmp_at ps key i)) [
      | is_lt e ↦ e
      | is_eq e ↦ absurd (h (up_lem ps i j s p q (λ l. cc)))
      | is_gt e ↦ absurd (h (up_lem ps i j s p q (λ l. cc)))
    ];
  }

  linear_shift :
      (comp : ℕ → Ordering) (first count : ℕ)
      → let r = linear_search (λ i. comp (suc i)) first count in
        linear_search comp (suc first) count ≡ record { found = r.found; it = suc r.it }
  unfolding linear_search
  linear_shift comp first zero = refl
  linear_shift comp first (suc count) =
      let z : suc first + 1 ≡ suc (first + 1) = omega arith in
      let c : suc first ≡ suc first = refl in ground (arith, linear_shift comp (first + 1) count)

  pub linear-scan : (ps : List Pair) → linear_search (cmp_at ps key) 0 (length ps) ≡ scan ps key
  unfolding linear_search scan
  linear-scan [] = refl
  linear-scan (p ∷ ps) =
      let z : ◌≡◌ {A = ℕ} (0 + 1) 1 = refl in
      ground (
        arith,
        cmp_of_valid p key nonempty,
        linear_shift (cmp_at (p ∷ ps) key) 0 (length ps),
        linear-scan ps,
      )

  pub search-scan : (ps : List Pair) → IsSorted ps → search ps key ≡ scan ps key
  unfolding search
  search-scan ps s =
      binary_search-linear (cmp_at ps key) (length ps) (ascending ps s) ∙ linear-scan ps

  -- On a sorted vector and for a valid key getPair___ returns the pair with that key, and
  -- nothing exactly if there is none.
  pub get_pair-lookup : (l : VectorList) → IsSorted l.vec → get_pair l key ≡ lookup l.vec key
  unfolding get_pair
  get_pair-lookup l s = rw (search-scan l.vec s, scan-lookup l.vec key s)
