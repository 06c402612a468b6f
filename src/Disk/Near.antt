-- ===== src/Disk/Near.antt =====
-- The range of a search by hm4/disk/disklist.cc: the pairs in it share with the key what its bounds do.
use hm.Prelude.{
  ℕ, zero, suc, ◌+◌, ◌≤◌, ◌<◌, List, [], ◌∷◌, true, Ordering, some, length, take, get_elem?, min,
  All, subst, ◌⊎◌, inl, inr, ◌≡◌, refl, sym, ◌∙◌, arith,
}
use hm.Bytes.{Bytes, memcmp_then_size, compare_bytes}
use hm.Pair.{Pair, is_key_valid}
use hm.Pair.HPair.{IsAsciiKey, compare_ascii}
use hm.VectorList.{cmp_at}
use hm.VectorList.Sorted.{IsSorted}
use hm.VectorList.Search.{cmp_of_valid}
use hm.Disk.Search.{pair_cmp_lcp}
use hm.Disk.Common.{take_le, longer, between, pair_cmp_lcp-memcmp}

abbrev pub AllAscii : List Pair → Type 0
AllAscii = All (λ p. IsAsciiKey p.key)

pub All-at :
    (P : Pair → Type 0) (ps : List Pair) (i : ℕ) (p : Pair)
    → get_elem? ps i ≡ some p
    → All P ps
    → P p
All-at P [] i p e h = absurd (cc)
All-at P (q ∷ ps) zero p e h = subst P (ground arith) h.0
All-at P (q ∷ ps) (suc i) p e h = All-at P ps i p e h.1

pub some-at : (ps : List Pair) (i : ℕ) → i < length ps → (p : Pair) × (get_elem? ps i ≡ some p)
some-at [] i h = absurd (omega arith)
some-at (q ∷ ps) zero h = (q, refl)
some-at (q ∷ ps) (suc i) h = some-at ps i (omega arith)

pub sorted-at :
    (ps : List Pair) (i j : ℕ) (p q : Pair)
    → IsSorted ps
    → i < j
    → get_elem? ps i ≡ some p
    → get_elem? ps j ≡ some q
    → compare_bytes p.key q.key ≡ Ordering.lt
sorted-at [] i j p q s h e g = absurd (cc)
sorted-at (x ∷ ps) i zero p q s h e g = absurd (omega arith)
sorted-at (x ∷ ps) zero (suc j) p q s h e g =
    let same : x ≡ p = ground arith in
    subst (λ r. compare_bytes r.key q.key ≡ Ordering.lt) same
      (All-at (λ r. compare_bytes x.key r.key ≡ Ordering.lt) ps j q g s.0)
sorted-at (x ∷ ps) (suc i) (suc j) p q s h e g = sorted-at ps i j p q s.1 (omega arith) e g

positive : (key : Bytes) → is_key_valid key ≡ true → 0 < length key
positive key h = ground arith

module _ (ps : List Pair) (key : Bytes) (s : IsSorted ps) (as_ : AllAscii ps)
    (k : IsAsciiKey key) where
  -- a string below the key and below all pairs from `start` on, with `n` bytes of the key
  abbrev pub Low : ℕ → ℕ → Type 0
  Low n start =
      (n ≡ 0)
      ⊎ ((b : Bytes) × (take n b ≡ take n key)
          × (memcmp_then_size b key ≡ Ordering.lt)
          × ((i : ℕ) (p : Pair)
              → start ≤ i
              → get_elem? ps i ≡ some p
              → memcmp_then_size b p.key ≡ Ordering.lt))

  -- one above the key and above all pairs before `end`
  abbrev pub High : ℕ → ℕ → Type 0
  High n end =
      (n ≡ 0)
      ⊎ ((b : Bytes) × (take n b ≡ take n key)
          × ((i : ℕ) (p : Pair)
              → i < end
              → get_elem? ps i ≡ some p
              → memcmp_then_size p.key b ≡ Ordering.lt))

  pub ascii-at : (i : ℕ) (p : Pair) → get_elem? ps i ≡ some p → IsAsciiKey p.key
  ascii-at i p e = All-at (λ r. IsAsciiKey r.key) ps i p e as_

  pub record IsNear (n : ℕ) (p : Pair) : Type 0 where
    pub shared : take n p.key ≡ take n key
    pub inside : n < length p.key
    pub within : n < length key

  IsNear-zero : (n i : ℕ) (p : Pair) → get_elem? ps i ≡ some p → n ≡ 0 → IsNear n p
  IsNear-zero n i p e z = rw z (record {
    shared = refl;
    inside = positive p.key (ascii-at i p e).0;
    within = positive key k.0;
  })

  -- what the comparison of a pair in the range skips is common to the pair and the key
  pub near :
      (l r start end i : ℕ) (p : Pair)
      → Low r start
      → High l end
      → start ≤ i
      → i < end
      → get_elem? ps i ≡ some p
      → IsNear (min l r) p
  near l r start end i p (inl z) hi h h' e = IsNear-zero (min l r) i p e (omega arith)
  near l r start end i p lo (inl z) h h' e = IsNear-zero (min l r) i p e (omega arith)
  near l r start end i p (inr (a, sa, below, la)) (inr (b, sb, hb)) h h' e =
      let n = min l r in
      let ta = take_le n r a key (omega arith) sa in
      let tb = take_le n l b key (omega arith) sb in
      let tp = between n a p.key b (ta ∙ sym tb) (la i p h e) (hb i p h' e) ∙ tb in
      record {
        shared = tp;
        inside = longer n a p.key (ta ∙ sym tp) (la i p h e);
        within = longer n a key ta below;
      }

  -- the comparison of a near pair is that of the whole keys
  pub true-cmp :
      (n i : ℕ) (p : Pair)
      → IsNear n p
      → get_elem? ps i ≡ some p
      → (pair_cmp_lcp p key n).0 ≡ cmp_at ps key i
  true-cmp n i p h e =
      (pair_cmp_lcp-memcmp p key n h.shared h.inside h.within).0
      ∙ sym (compare_ascii p.key key (ascii-at i p e).1 k.1)
      ∙ sym (cmp_of_valid p key k.0)
      ∙ rw (cmp_at, e) refl

  pub memcmp-at :
      (n i : ℕ) (p : Pair)
      → IsNear n p
      → get_elem? ps i ≡ some p
      → cmp_at ps key i ≡ memcmp_then_size p.key key
  memcmp-at n i p h e =
      sym (true-cmp n i p h e) ∙ (pair_cmp_lcp-memcmp p key n h.shared h.inside h.within).0

  ordered-at :
      (i j : ℕ) (p q : Pair)
      → i < j
      → get_elem? ps i ≡ some p
      → get_elem? ps j ≡ some q
      → memcmp_then_size p.key q.key ≡ Ordering.lt
  ordered-at i j p q h e g =
      sym (compare_ascii p.key q.key (ascii-at i p e).1 (ascii-at j q g).1)
      ∙ sorted-at ps i j p q s h e g

  -- a pair below the key bounds what comes behind it, one above it what comes before
  pub Low-next :
      (n i : ℕ) (p : Pair)
      → IsNear n p
      → get_elem? ps i ≡ some p
      → cmp_at ps key i ≡ Ordering.lt
      → Low (n + (pair_cmp_lcp p key n).1) (i + 1)
  Low-next n i p h e c = inr (
    p.key,
    (pair_cmp_lcp-memcmp p key n h.shared h.inside h.within).1,
    sym (memcmp-at n i p h e) ∙ c,
    λ j q l g. ordered-at i j p q (omega arith) e g,
  )

  pub High-next :
      (n i : ℕ) (p : Pair)
      → IsNear n p
      → get_elem? ps i ≡ some p
      → High (n + (pair_cmp_lcp p key n).1) i
  High-next n i p h e = inr (
    p.key,
    (pair_cmp_lcp-memcmp p key n h.shared h.inside h.within).1,
    λ j q l g. ordered-at j i q p l g e,
  )
