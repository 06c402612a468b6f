-- ===== src/Disk/HotLine/Long.antt =====
-- The search for a long key within the part of the table that its node points to.
use hm.Prelude.{
  ℕ, zero, suc, ◌≤◌, ◌<◌, List, [], ◌∷◌, ◌++◌, Ordering, some, length, get_elem?, take, drop, ltb,
  leb, ◌≡◌, ◌≢◌, refl, sym, ap, subst, ◌∙◌, arith, All, then_cmp, Ordering-cases, is_lt, is_eq,
  is_gt, compare, inr, length-take, take-append, drop-append,
}
use hm.Bytes.{Bytes, memcmp_then_size}
use hm.Bytes.Order.{split}
use hm.Pair.{Pair}
use hm.Pair.HPair.{hkey_of, hash-take, take-hkey_of, IsAscii, IsAsciiKey}
use hm.VectorList.Sorted.{IsSorted}
use hm.Disk.Common.{take-take, drop_end, behind_prefix}
use hm.Disk.Near.{AllAscii, All-at, some-at, sorted-at, Low, High}
use hm.Disk.HotLine.Nodes.{hkey_of-le}
use hm.Disk.HotLine.Parts.{leading-true, leading-false, first, last}

-- the empty string is below all others
below_others : (a : Bytes) → a ≢ [] → memcmp_then_size [] a ≡ Ordering.lt
below_others [] h = absurd (h refl)
below_others (x ∷ a) h = ground arith

-- ASCII strings are below a byte that is not
below_high : (a : Bytes) → IsAscii a → memcmp_then_size a (128 ∷ []) ≡ Ordering.lt
below_high [] h = ground arith
below_high (x ∷ a) h = ground (arith, h.0)

IsAscii-drop_part : (n : ℕ) (a : Bytes) → IsAscii a → IsAscii (drop n a)
IsAscii-drop_part zero a h = h
IsAscii-drop_part (suc n) [] h = tt
IsAscii-drop_part (suc n) (x ∷ a) h = IsAscii-drop_part n a h.1

pub take-drop : (n : ℕ) (a : Bytes) → drop n a ≡ [] → take n a ≡ a
take-drop zero a h = sym h
take-drop (suc n) [] h = refl
take-drop (suc n) (x ∷ a) h = ap (λ t. x ∷ t) (take-drop n a h)

-- a string is below every longer one that begins with it
prefix_below :
    (n : ℕ) (t a : Bytes)
    → take n t ≡ take n a
    → drop n t ≡ []
    → drop n a ≢ []
    → memcmp_then_size t a ≡ Ordering.lt
prefix_below n t a e d h =
    behind_prefix n t a e ∙ ap (λ x. memcmp_then_size x (drop n a)) d ∙ below_others (drop n a) h

pub inside : (ps : List Pair) (i : ℕ) (p : Pair) → get_elem? ps i ≡ some p → i < length ps
inside [] i p e = absurd (cc)
inside (q ∷ ps) zero p e = omega arith
inside (q ∷ ps) (suc i) p e = omega (arith, inside ps i p e)

module _ (ps : List Pair) (key : Bytes) (s : IsSorted ps) (as_ : AllAscii ps) (k : IsAsciiKey key)
    (long : 8 < length key) (whole : All (λ p. p.key ≢ take 8 key) ps) where
  ascii : (i : ℕ) (p : Pair) → get_elem? ps i ≡ some p → IsAscii p.key
  ascii i p e = (All-at (λ p. IsAsciiKey p.key) ps i p e as_).1

  eight : length (take 8 key) ≡ 8
  eight = omega (arith, length-take 8 key)

  nothing_behind : drop 8 (take 8 key) ≡ []
  nothing_behind = drop_end 8 (take 8 key) (omega (arith, eight))

  same_head : take 8 (take 8 key) ≡ take 8 key
  same_head = take-take 8 8 key (omega arith)

  -- the beginning of the key is below it, and below all pairs with that beginning or a larger one
  head-key : memcmp_then_size (take 8 key) key ≡ Ordering.lt
  head-key =
      prefix_below 8 (take 8 key) key same_head nothing_behind
        (λ e. omega (arith, long, eight, ap length (take-drop 8 key e)))

  head-pair :
      (i : ℕ) (p : Pair)
      → get_elem? ps i ≡ some p
      → hkey_of key ≤ hkey_of p.key
      → memcmp_then_size (take 8 key) p.key ≡ Ordering.lt
  head-pair i p e l = elim (Ordering-cases (compare (hkey_of key) (hkey_of p.key))) [
    | is_lt c ↦
        split 8 (take 8 key) p.key
        ∙ ap (λ o. then_cmp o (memcmp_then_size (drop 8 (take 8 key)) (drop 8 p.key)))
            (ap (λ t. memcmp_then_size t (take 8 p.key)) same_head
              ∙ sym (hash-take 8 key p.key k.1 (ascii i p e))
              ∙ c)
    | is_eq c ↦
        let t = take-hkey_of key p.key k.1 (ascii i p e) (ground arith) in
        prefix_below 8 (take 8 key) p.key (same_head ∙ t) nothing_behind
          (λ d. All-at (λ p. p.key ≢ take 8 key) ps i p e whole (sym (take-drop 8 p.key d) ∙ sym t))
    | is_gt c ↦ absurd (ground (arith, l))
  ]

  -- the beginning with a byte behind it that is not ASCII is above all pairs with it or a smaller one
  high_key : Bytes
  high_key = take 8 key ++ (128 ∷ [])

  take-high_key : take 8 high_key ≡ take 8 key
  unfolding high_key
  take-high_key =
      subst (λ n. take n (take 8 key ++ (128 ∷ [])) ≡ take 8 key) eight
        (take-append (take 8 key) (128 ∷ []))

  drop-high_key : drop 8 high_key ≡ 128 ∷ []
  unfolding high_key
  drop-high_key =
      subst (λ n. drop n (take 8 key ++ (128 ∷ [])) ≡ 128 ∷ []) eight
        (drop-append (take 8 key) (128 ∷ []))

  pair-head :
      (i : ℕ) (p : Pair)
      → get_elem? ps i ≡ some p
      → hkey_of p.key ≤ hkey_of key
      → memcmp_then_size p.key high_key ≡ Ordering.lt
  pair-head i p e l = elim (Ordering-cases (compare (hkey_of p.key) (hkey_of key))) [
    | is_lt c ↦
        split 8 p.key high_key
        ∙ ap (λ o. then_cmp o (memcmp_then_size (drop 8 p.key) (drop 8 high_key)))
            (ap (memcmp_then_size (take 8 p.key)) take-high_key
              ∙ sym (hash-take 8 p.key key (ascii i p e) k.1)
              ∙ c)
    | is_eq c ↦
        let t = take-hkey_of p.key key (ascii i p e) k.1 (ground arith) in
        behind_prefix 8 p.key high_key (t ∙ sym take-high_key)
        ∙ ap (memcmp_then_size (drop 8 p.key)) drop-high_key
        ∙ below_high (drop 8 p.key) (IsAscii-drop_part 8 p.key (ascii i p e))
    | is_gt c ↦ absurd (ground (arith, l))
  ]

  from_first :
      (i : ℕ) (p : Pair)
      → first ps key s as_ k ≤ i
      → get_elem? ps i ≡ some p
      → hkey_of key ≤ hkey_of p.key
  from_first i p l e =
      let n = first ps key s as_ k in
      let (q, g) = some-at ps n (omega (arith, l, inside ps i p e)) in
      let f = leading-false (λ p. ltb (hkey_of p.key) (hkey_of key)) ps q g in
      let least : hkey_of key ≤ hkey_of q.key = ground (arith, f) in
      elim (Ordering-cases (compare n i)) [
        | is_lt c ↦ omega (
          arith,
          least,
          hkey_of-le q.key p.key (ascii n q g) (ascii i p e)
              (sorted-at ps n i q p s (ground arith) g e),
        )
        | is_eq c ↦
            let same : n ≡ i = ground arith in
            let f : some q ≡ some p = sym g ∙ ap (get_elem? ps) same ∙ e in ground (arith, f, least)
        | is_gt c ↦ absurd (ground (arith, l))
      ]

  pub low : Low ps key s as_ k 8 (first ps key s as_ k)
  low = inr (take 8 key, same_head, head-key, λ i p l e. head-pair i p e (from_first i p l e))

  pub high : High ps key s as_ k 8 (last ps key s as_ k)
  high = inr (
    high_key,
    take-high_key,
    λ i p l e.
        pair-head i p e
          (ground (arith, leading-true (λ p. leb (hkey_of p.key) (hkey_of key)) ps i p l e)),
  )
