-- ===== src/LinkList/Divergence.antt =====
-- Keys that the linked list of hm4/linklist.cc, by hm4/hpair.h, orders in another way than the vector list
-- and the tables.
use hm.Prelude.{
  ℕ, zero, suc, ◌+◌, ◌*◌, ◌%◌, ◌^◌, ◌≤◌, ◌<◌, [], ◌∷◌, ◌++◌, Ordering, length, take, drop, ◌≡◌, ◌≢◌,
  if◌then◌else◌, refl, sym, ap, subst, ◌∙◌, arith, take-append, drop-append,
}
use hm.Bytes.{Bytes, compare_bytes, memcmp_then_size}
use hm.Pair.{Pair}
use hm.Pair.HPair.{create_hash, hkey_of, hpair_cmp, hash_compare, IsAscii, drop-short, cmp_behind}
use hm.Lcp.{cmp_lcp, cmp_lcp-memcmp, cmp_lcp-compare_signed}
use hm.Disk.Common.{behind_prefix}

create_hash-append : (n : ℕ) (s t : Bytes) → length s ≡ n → create_hash n (s ++ t) ≡ create_hash n s
unfolding create_hash
create_hash-append zero s t h = refl
create_hash-append (suc n) [] t h = absurd (omega (arith, h))
create_hash-append (suc n) (c ∷ s) t h =
    ap (λ k. c * 256 ^ n + k) (create_hash-append n s t (omega (arith, h)))

IsAscii-append : (s t : Bytes) → IsAscii s → IsAscii t → IsAscii (s ++ t)
IsAscii-append [] t h k = k
IsAscii-append (c ∷ s) t h k = (h.0, IsAscii-append s t h.1 k)

-- eight bytes that are not zero make a number whose last byte is not zero
hkey_of-full : (s : Bytes) → length s ≡ 8 → IsAscii s → hkey_of s % 256 ≢ 0
hkey_of-full s l a e =
    let t : Bytes = s ++ (1 ∷ []) in
    let d : drop 8 t ≡ 1 ∷ [] = subst (λ n. drop n t ≡ 1 ∷ []) l (drop-append s (1 ∷ [])) in
    let z : drop 8 t ≡ [] =
      drop-short t (IsAscii-append s (1 ∷ []) a ((omega arith, omega arith), tt))
        (ap (λ h. h % 256) (create_hash-append 8 s (1 ∷ []) l) ∙ e) in
    absurd (let no : 1 ∷ [] ≡ [] = sym d ∙ z in cc)

undecided :
    (x : ℕ)
    → x % 256 ≢ 0
    → (o : Ordering) → (let (ok, c) = hash_compare x x in if ok then c else o) ≡ o
unfolding hash_compare
undecided x h o = ground (arith, h)

-- equal numbers that do not decide leave the rests to compare
hpair_cmp-undecided :
    (x : ℕ) (p : Pair) (key : Bytes) → x % 256 ≢ 0 → hpair_cmp x p x key ≡ cmp_behind p key
unfolding hpair_cmp
hpair_cmp-undecided x p key h = undecided x h (cmp_behind p key)

same_first :
    (s a b : Bytes)
    → 0 < length s
    → (compare_bytes (s ++ a) (s ++ b) ≡ memcmp_then_size (s ++ a) (s ++ b))
      × ((cmp_lcp (s ++ a) (s ++ b)).0 ≡ memcmp_then_size (s ++ a) (s ++ b))
unfolding compare_bytes
same_first [] a b h = absurd (omega (arith, h))
same_first (c ∷ s) a b h = (ground arith, cmp_lcp-memcmp c (s ++ a) c (s ++ b))

module _ (s : Bytes) (l : length s ≡ 8) where
  drop_prefix : (t : Bytes) → drop 8 (s ++ t) ≡ t
  drop_prefix t = subst (λ n. drop n (s ++ t) ≡ t) l (drop-append s t)

  take_prefix : (t : Bytes) → take 8 (s ++ t) ≡ s
  take_prefix t = subst (λ n. take n (s ++ t) ≡ s) l (take-append s t)

  memcmp-prefix : (t u : Bytes) → memcmp_then_size (s ++ t) (s ++ u) ≡ memcmp_then_size t u
  memcmp-prefix t u =
      behind_prefix 8 (s ++ t) (s ++ u) (take_prefix t ∙ sym (take_prefix u))
      ∙ rw (drop_prefix t, drop_prefix u) refl

  rests : (p : Pair) (t u : Bytes) → p.key ≡ s ++ t → cmp_behind p (s ++ u) ≡ compare_bytes t u
  rests p t u e = rw (e, drop_prefix t, drop_prefix u) refl

  hpair_cmp-prefix :
      (p : Pair) (t u : Bytes)
      → IsAscii s
      → p.key ≡ s ++ t
      → hpair_cmp (hkey_of p.key) p (hkey_of (s ++ u)) (s ++ u) ≡ compare_bytes t u
  hpair_cmp-prefix p t u a e =
      let h : hkey_of p.key ≡ hkey_of s = ap hkey_of e ∙ create_hash-append 8 s t l in
      rw (h, create_hash-append 8 s u l)
        (hpair_cmp-undecided (hkey_of s) p (s ++ u) (hkey_of-full s l a) ∙ rests p t u e)

  -- Where a pair and a key have the same first eight bytes, which are ASCII without NUL, and then a
  -- byte below 128 in the pair and one that is not in the key, the linked list takes the pair to be
  -- above the key, and the vector list and the tables take it to be below.
  pub hpair_cmp-compare_signed :
      (p : Pair) (x : ℕ) (a : Bytes) (y : ℕ) (b : Bytes)
      → IsAscii s
      → p.key ≡ s ++ (x ∷ a)
      → x < 128
      → 128 ≤ y
      → y < 256
      → (hpair_cmp (hkey_of p.key) p (hkey_of (s ++ (y ∷ b))) (s ++ (y ∷ b)) ≡ Ordering.gt)
        × (compare_bytes p.key (s ++ (y ∷ b)) ≡ Ordering.lt)
        × ((cmp_lcp p.key (s ++ (y ∷ b))).0 ≡ Ordering.lt)
  hpair_cmp-compare_signed p x a y b ascii e h k n =
      let (below, above) = cmp_lcp-compare_signed x a y b h k n in
      let same = same_first s (x ∷ a) (y ∷ b) (omega (arith, l)) in
      let order : memcmp_then_size (s ++ (x ∷ a)) (s ++ (y ∷ b)) ≡ Ordering.lt =
        memcmp-prefix (x ∷ a) (y ∷ b) ∙ sym (cmp_lcp-memcmp x a y b) ∙ below in
      (
        hpair_cmp-prefix p (x ∷ a) (y ∷ b) ascii e ∙ above,
        rw e (same.0 ∙ order),
        rw e (same.1 ∙ order),
      )
