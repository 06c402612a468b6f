-- ===== src/Bytes/Order.antt =====
-- `compare` of include/mystring.h is a strict total order on byte strings.
use hm.Prelude.{
  ℕ, zero, suc, [], ◌∷◌, take, drop, then_cmp, Ordering, compare, ◌≡◌, refl, arith, ap, swap, ◌∙◌,
  sym,
}
use hm.Bytes.{Bytes, char_rank, memcmp_then_size, compare_bytes}

-- Plain lexicographic order, the description that `compare` is held to.
abbrev lex : Bytes → Bytes → Ordering
lex [] [] = Ordering.eq
lex [] (b ∷ bs) = Ordering.lt
lex (a ∷ as_) [] = Ordering.gt
lex (a ∷ as_) (b ∷ bs) = elim (compare a b) [
  | Ordering.lt ↦ Ordering.lt
  | Ordering.eq ↦ lex as_ bs
  | Ordering.gt ↦ Ordering.gt
]

-- A string with its first character replaced by its rank as a signed char.
abbrev rank : Bytes → Bytes
rank [] = []
rank (c ∷ cs) = char_rank c ∷ cs

memcmp-lex : (a b : Bytes) → memcmp_then_size a b ≡ lex a b
memcmp-lex [] [] = refl
memcmp-lex [] (b ∷ bs) = ground arith
memcmp-lex (a ∷ as_) [] = ground arith
memcmp-lex (a ∷ as_) (b ∷ bs) = ground (arith, memcmp-lex as_ bs)

pub compare-lex : (a b : Bytes) → compare_bytes a b ≡ lex (rank a) (rank b)
unfolding compare_bytes
compare-lex [] [] = refl
compare-lex [] (b ∷ bs) = ground arith
compare-lex (a ∷ as_) [] = ground arith
compare-lex (a ∷ as_) (b ∷ bs) = ground (arith, memcmp-lex as_ bs)

lex_refl : (a : Bytes) → lex a a ≡ Ordering.eq
lex_refl [] = refl
lex_refl (a ∷ as_) = ground (arith, lex_refl as_)

lex-swap : (a b : Bytes) → lex b a ≡ swap (lex a b)
lex-swap [] [] = refl
lex-swap [] (b ∷ bs) = refl
lex-swap (a ∷ as_) [] = refl
lex-swap (a ∷ as_) (b ∷ bs) = ground (arith, lex-swap as_ bs)

lex_eq : (a b : Bytes) → lex a b ≡ Ordering.eq → a ≡ b
lex_eq [] [] h = refl
lex_eq [] (b ∷ bs) h = ground arith
lex_eq (a ∷ as_) [] h = ground arith
lex_eq (a ∷ as_) (b ∷ bs) h = ground (arith, lex_eq as_ bs)

lex_trans : (a b c : Bytes) → lex a b ≡ Ordering.lt → lex b c ≡ Ordering.lt → lex a c ≡ Ordering.lt
lex_trans [] [] c h k = ground arith
lex_trans [] (b ∷ bs) [] h k = ground arith
lex_trans [] (b ∷ bs) (c ∷ cs) h k = refl
lex_trans (a ∷ as_) [] c h k = ground arith
lex_trans (a ∷ as_) (b ∷ bs) [] h k = ground arith
lex_trans (a ∷ as_) (b ∷ bs) (c ∷ cs) h k = ground (arith, lex_trans as_ bs cs)

char_rank_injective : (a b : ℕ) → char_rank a ≡ char_rank b → a ≡ b
char_rank_injective a b h = ground arith

rank_injective : (a b : Bytes) → rank a ≡ rank b → a ≡ b
rank_injective [] [] h = refl
rank_injective [] (b ∷ bs) h = ground arith
rank_injective (a ∷ as_) [] h = ground arith
rank_injective (a ∷ as_) (b ∷ bs) h = ground (arith, char_rank_injective a b)

-- the same of the order of unsigned bytes
pub memcmp_refl : (a : Bytes) → memcmp_then_size a a ≡ Ordering.eq
memcmp_refl a = memcmp-lex a a ∙ lex_refl a

pub memcmp_swap : (a b : Bytes) → memcmp_then_size b a ≡ swap (memcmp_then_size a b)
memcmp_swap a b = memcmp-lex b a ∙ lex-swap a b ∙ ap swap (sym (memcmp-lex a b))

pub memcmp_eq : (a b : Bytes) → memcmp_then_size a b ≡ Ordering.eq → a ≡ b
memcmp_eq a b h = lex_eq a b (sym (memcmp-lex a b) ∙ h)

pub memcmp_trans :
    (a b c : Bytes)
    → memcmp_then_size a b ≡ Ordering.lt
    → memcmp_then_size b c ≡ Ordering.lt
    → memcmp_then_size a c ≡ Ordering.lt
memcmp_trans a b c h k =
    memcmp-lex a c ∙ lex_trans a b c (sym (memcmp-lex a b) ∙ h) (sym (memcmp-lex b c) ∙ k)

pub compare_refl : (a : Bytes) → compare_bytes a a ≡ Ordering.eq
compare_refl a = compare-lex a a ∙ lex_refl (rank a)

pub compare_swap : (a b : Bytes) → compare_bytes b a ≡ swap (compare_bytes a b)
compare_swap a b = compare-lex b a ∙ lex-swap (rank a) (rank b) ∙ ap swap (sym (compare-lex a b))

-- Two keys that compare as equal are equal.
pub compare_eq : (a b : Bytes) → compare_bytes a b ≡ Ordering.eq → a ≡ b
compare_eq a b h = rank_injective a b (lex_eq (rank a) (rank b) (sym (compare-lex a b) ∙ h))

-- The order of keys is transitive.
pub compare_trans :
    (a b c : Bytes)
    → compare_bytes a b ≡ Ordering.lt
    → compare_bytes b c ≡ Ordering.lt
    → compare_bytes a c ≡ Ordering.lt
compare_trans a b c h k =
    compare-lex a c
    ∙ lex_trans (rank a) (rank b) (rank c) (sym (compare-lex a b) ∙ h) (sym (compare-lex b c) ∙ k)

-- The order of two strings is that of their first parts, and then that of the rests.
pub split :
    (n : ℕ) (a b : Bytes)
    → memcmp_then_size a b
      ≡ then_cmp (memcmp_then_size (take n a) (take n b)) (memcmp_then_size (drop n a) (drop n b))
split zero a b = refl
split (suc n) [] [] = refl
split (suc n) [] (d ∷ b) = ground arith
split (suc n) (c ∷ a) [] = ground arith
split (suc n) (c ∷ a) (d ∷ b) = ground (arith, split n a b)
