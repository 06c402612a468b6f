-- ===== src/Disk/HotLine/Parts.antt =====
-- The pairs of a table before, in and behind the part that a node of the hot line points to.
use hm.Prelude.{
  ℕ, zero, suc, ◌+◌, ◌-◌, ◌≤◌, ◌<◌, List, [], ◌∷◌, Bool, true, false, Ordering, some, length,
  get_elem?, ltb, ◌≡◌, refl, sym, ap, ◌∙◌, arith, Bool-cases, inl, inr,
}
use hm.Bytes.{Bytes, compare_bytes}
use hm.Pair.{Pair}
use hm.Pair.HPair.{hkey_of, hkey_of-lt, IsAsciiKey}
use hm.BinarySearch.{linear_search}
use hm.BinarySearch.Agree.{linear_skip, linear_hit}
use hm.VectorList.{cmp_at}
use hm.VectorList.Sorted.{IsSorted, scan, lt-gt}
use hm.VectorList.Search.{cmp_of_valid, linear-scan}
use hm.Disk.Near.{AllAscii, All-at, some-at}
use hm.Disk.HotLine.Nodes.{leading, before, up_to}

pub leading-true :
    (t : Pair → Bool) (ps : List Pair) (i : ℕ) (p : Pair)
    → i < leading t ps
    → get_elem? ps i ≡ some p
    → t p ≡ true
unfolding leading
leading-true t [] i p l e = absurd (cc)
leading-true t (q ∷ ps) zero p l e =
    let same : q ≡ p = ground arith in ap t (sym same) ∙ ground (arith, l)
leading-true t (q ∷ ps) (suc i) p l e = leading-true t ps i p (ground (arith, l)) e

pub leading-false :
    (t : Pair → Bool) (ps : List Pair) (p : Pair)
    → get_elem? ps (leading t ps) ≡ some p
    → t p ≡ false
unfolding leading
leading-false t [] p e = absurd (cc)
leading-false t (q ∷ ps) p e = elim (Bool-cases (t q)) [
  | inl y ↦ leading-false t ps p (rw y at e)
  | inr n ↦
      let f : some q ≡ some p = rw n at e in
      let same : q ≡ p = ground (arith, f) in ap t (sym same) ∙ n
]

pub leading-le : (t : Pair → Bool) (ps : List Pair) → leading t ps ≤ length ps
unfolding leading
leading-le t [] = omega arith
leading-le t (q ∷ ps) = ground (arith, leading-le t ps)

module _ (ps : List Pair) (key : Bytes) (s : IsSorted ps) (as_ : AllAscii ps)
    (k : IsAsciiKey key) where
  abbrev pub first : ℕ
  first = before (hkey_of key) ps

  abbrev pub last : ℕ
  last = up_to (hkey_of key) ps

  pub cmp-at :
      (i : ℕ) (p : Pair) → get_elem? ps i ≡ some p → cmp_at ps key i ≡ compare_bytes p.key key
  cmp-at i p e = rw (cmp_at, e) (cmp_of_valid p key k.0)

  pub below-first : (i : ℕ) → i < first → cmp_at ps key i ≡ Ordering.lt
  below-first i l =
      let (p, e) =
        some-at ps i (omega (arith, l, leading-le (λ p. ltb (hkey_of p.key) (hkey_of key)) ps)) in
      let t = leading-true (λ p. ltb (hkey_of p.key) (hkey_of key)) ps i p l e in
      cmp-at i p e
      ∙ hkey_of-lt p.key key (All-at (λ p. IsAsciiKey p.key) ps i p e as_).1 k.1 (ground (arith, t))

  -- the pass over the pairs begins at the first that is not in front of the part
  pub scan-first : scan ps key ≡ linear_search (cmp_at ps key) first (length ps - first)
  scan-first =
      let z : 0 + first ≡ first = omega arith in
      sym (linear-scan key k.0 ps)
      ∙ linear_skip (cmp_at ps key) first 0 (length ps - first) (length ps)
          (omega (arith, leading-le (λ p. ltb (hkey_of p.key) (hkey_of key)) ps))
          (λ i a b. below-first i (omega (arith, b)))
      ∙ ap (λ i. linear_search (cmp_at ps key) i (length ps - first)) z

  -- a pair behind the part is above the key
  pub above-at :
      (i : ℕ) (p : Pair)
      → get_elem? ps i ≡ some p
      → hkey_of key < hkey_of p.key
      → cmp_at ps key i ≡ Ordering.gt
  above-at i p e l =
      cmp-at i p e
      ∙ lt-gt key p.key (hkey_of-lt key p.key k.1 (All-at (λ p. IsAsciiKey p.key) ps i p e as_).1 l)

  -- what the pass finds, told from the first pair that is not in front of the part
  pub scan-behind : first ≡ length ps → scan ps key ≡ record { found = false; it = length ps }
  unfolding linear_search
  scan-behind e =
      let z : length ps - first ≡ 0 = omega (arith, e) in
      scan-first
      ∙ ap (linear_search (cmp_at ps key) first) z
      ∙ ap (λ i. record { found = false; it = i }) e

  pub scan-above :
      first < length ps
      → cmp_at ps key first ≡ Ordering.gt
      → scan ps key ≡ record { found = false; it = first }
  unfolding linear_search
  scan-above l c =
      let z : length ps - first ≡ suc (length ps - first - 1) = omega (arith, l) in
      scan-first ∙ ap (linear_search (cmp_at ps key) first) z ∙ rw (linear_search, c) refl

  pub scan-hit :
      first < length ps
      → cmp_at ps key first ≡ Ordering.eq
      → scan ps key ≡ record { found = true; it = first }
  scan-hit l c =
      scan-first ∙ linear_hit (cmp_at ps key) first (length ps - first) (omega (arith, l)) c
