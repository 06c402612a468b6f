-- ===== src/Disk/Common.antt =====
-- What the comparison of tails of include/cmplcp.h tells, for keys with a known common prefix.
use hm.Prelude.{
  ℕ, zero, suc, ◌+◌, ◌≤◌, ◌<◌, [], ◌∷◌, Ordering, length, take, drop, min, ◌≡◌, ◌≢◌, ◌++◌, ◌⊎◌, inl,
  inr, refl, sym, ap, ap₂, ◌∙◌, arith,
}
use hm.Bytes.{Bytes, memcmp_then_size}
use hm.Bytes.Order.{split, memcmp_refl, memcmp_swap, memcmp_eq}
use hm.Lcp.{cmp_main, cmp_lcp, cmp_lcp_from, cmp_lcp-memcmp}
use hm.Pair.{Pair}
use hm.Disk.Search.{pair_cmp_lcp}

pub take-take : (m n : ℕ) (a : Bytes) → m ≤ n → take m (take n a) ≡ take m a
take-take zero n a h = refl
take-take (suc m) zero a h = absurd (omega arith)
take-take (suc m) (suc n) [] h = refl
take-take (suc m) (suc n) (x ∷ a) h = ap (λ t. x ∷ t) (take-take m n a (omega arith))

-- a shorter prefix is common too
pub take_le : (m n : ℕ) (a b : Bytes) → m ≤ n → take n a ≡ take n b → take m a ≡ take m b
take_le m n a b h e = sym (take-take m n a h) ∙ ap (take m) e ∙ take-take m n b h

take_nil : (i : ℕ) → take {A = ℕ} i [] ≡ []
take_nil zero = refl
take_nil (suc i) = refl

take_add : (n i : ℕ) (a : Bytes) → take (n + i) a ≡ take n a ++ take i (drop n a)
take_add zero i a = let z : 0 + i ≡ i = omega arith in rw z refl
take_add (suc n) i [] = let z : suc n + i ≡ suc (n + i) = omega arith in rw (z, take_nil i) refl
take_add (suc n) i (x ∷ a) =
    let z : suc n + i ≡ suc (n + i) = omega arith in rw z (ap (λ t. x ∷ t) (take_add n i a))

pub take_more :
    (n i : ℕ) (a b : Bytes)
    → take n a ≡ take n b
    → take i (drop n a) ≡ take i (drop n b)
    → take (n + i) a ≡ take (n + i) b
take_more n i a b h k = take_add n i a ∙ ap₂ (λ s t. s ++ t) h k ∙ sym (take_add n i b)

pub drop_end : (n : ℕ) (a : Bytes) → length a ≤ n → drop n a ≡ []
drop_end zero [] h = refl
drop_end zero (x ∷ a) h = absurd (omega arith)
drop_end (suc n) [] h = refl
drop_end (suc n) (x ∷ a) h = drop_end n a (omega arith)

length-drop_pos : (n : ℕ) (a : Bytes) → n < length a → 0 < length (drop n a)
length-drop_pos zero a h = h
length-drop_pos (suc n) [] h = absurd (omega arith)
length-drop_pos (suc n) (x ∷ a) h = length-drop_pos n a (omega arith)

not_below_nil : (a : Bytes) → memcmp_then_size a [] ≢ Ordering.lt
not_below_nil [] h = absurd (ground arith)
not_below_nil (x ∷ a) h = absurd (ground arith)

-- strings with a common prefix compare as what is behind it
pub behind_prefix :
    (n : ℕ) (a b : Bytes)
    → take n a ≡ take n b
    → memcmp_then_size a b ≡ memcmp_then_size (drop n a) (drop n b)
behind_prefix n a b e = split n a b ∙ rw (e, memcmp_refl (take n b)) refl

lt-or : (m n : ℕ) → (m < n) ⊎ (n ≤ m)
lt-or m n = ground arith

-- a string above one with the same prefix does not end there
pub longer :
    (n : ℕ) (a b : Bytes) → take n a ≡ take n b → memcmp_then_size a b ≡ Ordering.lt → n < length b
longer n a b e h = elim (lt-or n (length b)) [
  | inl l ↦ l
  | inr g ↦ absurd (
      not_below_nil (drop n a)
        (ap (memcmp_then_size (drop n a)) (sym (drop_end n b g)) ∙ sym (behind_prefix n a b e) ∙ h))
]

-- what is between two strings with a common prefix has it as well
pub between :
    (n : ℕ) (a p b : Bytes)
    → take n a ≡ take n b
    → memcmp_then_size a p ≡ Ordering.lt
    → memcmp_then_size p b ≡ Ordering.lt
    → take n p ≡ take n b
between n a p b e h k = memcmp_eq (take n p) (take n b) (
    ground (
      arith,
      split n a p,
      split n p b,
      memcmp_swap (take n p) (take n b),
      ap (λ t. memcmp_then_size t (take n p)) e,
    ))

prefix-cmp_main : (size : ℕ) (a b : Bytes) → let i = (cmp_main size a b).1 in take i a ≡ take i b
unfolding cmp_main
prefix-cmp_main zero a b = refl
prefix-cmp_main (suc size) [] b = refl
prefix-cmp_main (suc size) (x ∷ a) [] = refl
prefix-cmp_main (suc size) (x ∷ a) (y ∷ b) =
    let i = (cmp_main size a b).1 in
    let z : i + 1 ≡ suc i = omega arith in
    let more : x ≡ y → take (suc i) (x ∷ a) ≡ take (suc i) (y ∷ b) =
      λ e. ap₂ (λ s t. s ∷ t) e (prefix-cmp_main size a b) in
    ground (arith, z, more)

-- where nothing differs, all that was compared is common
same-cmp_main :
    (size : ℕ) (a b : Bytes)
    → size ≤ length a
    → size ≤ length b
    → (cmp_main size a b).0 ≡ Ordering.eq
    → take size a ≡ take size b
unfolding cmp_main
same-cmp_main zero a b h k e = refl
same-cmp_main (suc size) [] b h k e = absurd (omega arith)
same-cmp_main (suc size) (x ∷ a) [] h k e = absurd (omega arith)
same-cmp_main (suc size) (x ∷ a) (y ∷ b) h k e =
    ap₂ (λ s t. s ∷ t) (ground arith)
      (same-cmp_main size a b (omega arith) (omega arith) (ground arith))

prefix-cmp_lcp : (a b : Bytes) → let i = (cmp_lcp a b).1 in take i a ≡ take i b
unfolding cmp_lcp
prefix-cmp_lcp a b =
    let m = min (length a) (length b) in ground (arith, prefix-cmp_main m a b, same-cmp_main m a b)

cmp_lcp-tails : (a b : Bytes) → 0 < length a → 0 < length b → (cmp_lcp a b).0 ≡ memcmp_then_size a b
cmp_lcp-tails [] b h k = absurd (omega arith)
cmp_lcp-tails (x ∷ a) [] h k = absurd (omega arith)
cmp_lcp-tails (x ∷ a) (y ∷ b) h k = cmp_lcp-memcmp x a y b

-- what the comparison of a pair with the key tells, where their first `n` bytes are common and
-- neither ends there
pub pair_cmp_lcp-memcmp :
    (p : Pair) (key : Bytes) (n : ℕ)
    → take n p.key ≡ take n key
    → n < length p.key
    → n < length key
    → ((pair_cmp_lcp p key n).0 ≡ memcmp_then_size p.key key)
      × (take (n + (pair_cmp_lcp p key n).1) p.key ≡ take (n + (pair_cmp_lcp p key n).1) key)
unfolding pair_cmp_lcp cmp_lcp_from
pair_cmp_lcp-memcmp p [] n e h k = absurd (omega arith)
pair_cmp_lcp-memcmp p (c ∷ key) n e h k = (
  cmp_lcp-tails (drop n p.key) (drop n (c ∷ key)) (length-drop_pos n p.key h)
        (length-drop_pos n (c ∷ key) k)
      ∙ sym (behind_prefix n p.key (c ∷ key) e),
  take_more n (cmp_lcp (drop n p.key) (drop n (c ∷ key))).1 p.key (c ∷ key) e
      (prefix-cmp_lcp (drop n p.key) (drop n (c ∷ key))),
)
