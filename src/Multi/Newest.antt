-- ===== src/Multi/Newest.antt =====
-- getNewestPair_ of hm4/ilist.h, which joins what the lists of an LSM tree find for a key.
use hm.Prelude.{
  ◌≤◌, ◌<◌, Option, none, some, List, [], ◌∷◌, ◌≡◌, refl, arith, All, ◌⊎◌, inl, inr, ap,
}
use native.Mathlib.Decide.{dec_lt}
use hm.Pair.{Pair}
use hm.IList.{get_newest_pair}

-- Nothing newer than `p` is in `o`.
abbrev pub NotNewer : Pair → Option Pair → Type 0
NotNewer p none = Unit
NotNewer p (some q) = q.created ≤ p.created

-- Everything in `o` is older than `p`.
abbrev pub Older : Pair → Option Pair → Type 0
Older p none = Unit
Older p (some q) = q.created < p.created

pub newest-none : (o : Option Pair) → get_newest_pair o none ≡ o
unfolding get_newest_pair
newest-none none = refl
newest-none (some p) = refl

-- The choice of the newer of two pairs, or of none, is associative, so that the lists of a tree may be
-- joined in any grouping.
pub newest_assoc :
    (a b c : Option Pair)
    → get_newest_pair a (get_newest_pair b c) ≡ get_newest_pair (get_newest_pair a b) c
unfolding get_newest_pair
newest_assoc none b c = refl
newest_assoc (some p) none c = refl
newest_assoc (some p) (some q) none = ground arith
newest_assoc (some p) (some q) (some r) = ground arith

-- What the lists found, from the first to the last, joined as getPair___ does it.
unfoldable pub newest_of : Option Pair → List (Option Pair) → Option Pair
newest_of best [] = best
newest_of best (o ∷ os) = newest_of (get_newest_pair o best) os

-- `p` is in `os`, everything before it is older, and nothing after it is newer.
pub data IsNewest (p : Pair) : List (Option Pair) → Type 0 where
  here : {os : List (Option Pair)} → All (NotNewer p) os → IsNewest p (some p ∷ os)
  there :
      {o : Option Pair} {os : List (Option Pair)} → Older p o → IsNewest p os → IsNewest p (o ∷ os)

not_newer : (p q : Pair) → ¬ (p.created < q.created) → get_newest_pair (some q) (some p) ≡ some p
unfolding get_newest_pair
not_newer p q h = ground arith

is_newer : (p q : Pair) → p.created < q.created → get_newest_pair (some q) (some p) ≡ some q
unfolding get_newest_pair
is_newer p q h = ground arith

-- The best pair so far stays, or a newer one of the list is the result.
newest_of-cases :
    (best : Pair) (os : List (Option Pair))
    → ((newest_of (some best) os ≡ some best) × All (NotNewer best) os)
      ⊎ ((p : Pair) × (newest_of (some best) os ≡ some p)
          × (best.created < p.created)
          × IsNewest p os)
unfolding newest_of get_newest_pair
newest_of-cases best [] = inl (refl, tt)
newest_of-cases best (none ∷ os) = elim (newest_of-cases best os) [
  | inl h ↦ inl (h.0, (tt, h.1))
  | inr (p, e, l, n) ↦ inr (p, e, l, there tt n)
]
newest_of-cases best (some q ∷ os) = elim (dec_lt best.created q.created) [
  | no h ↦
      rw (not_newer best q h, newest_of)
        (elim (newest_of-cases best os) [
          | inl k ↦ inl (k.0, (omega arith, k.1))
          | inr (p, e, l, n) ↦ inr (p, e, l, there (omega arith) n)
        ])
  | yes h ↦
      rw (is_newer best q h, newest_of)
        (elim (newest_of-cases q os) [
          | inl k ↦ inr (q, k.0, h, here k.1)
          | inr (p, e, l, n) ↦ inr (p, e, omega arith, there l n)
        ])
]

-- What the join returns is the newest of what the lists found, the earliest of those that are as
-- old; and it returns nothing only where no list found anything.
pub newest_of_lem :
    (os : List (Option Pair))
    → ((newest_of none os ≡ none) × All (λ o. o ≡ none) os)
      ⊎ ((p : Pair) × (newest_of none os ≡ some p) × IsNewest p os)
unfolding newest_of get_newest_pair
newest_of_lem [] = inl (refl, tt)
newest_of_lem (none ∷ os) = elim (newest_of_lem os) [
  | inl h ↦ inl (h.0, (refl, h.1))
  | inr (p, e, n) ↦ inr (p, e, there tt n)
]
newest_of_lem (some q ∷ os) = elim (newest_of-cases q os) [
  | inl h ↦ inr (q, h.0, here h.1)
  | inr (p, e, l, n) ↦ inr (p, e, there l n)
]

-- `p` is in `os`.
abbrev pub Has : Pair → List (Option Pair) → Type 0
Has p [] = ⊥
Has p (o ∷ os) = (o ≡ some p) ⊎ Has p os

-- Everything in `os` is `p`, or older.
abbrev pub Dominates : Pair → List (Option Pair) → Type 0
Dominates p = All (λ o. (o ≡ some p) ⊎ Older p o)

newest_of-stays :
    (p : Pair) (os : List (Option Pair)) → Dominates p os → newest_of (some p) os ≡ some p
unfolding newest_of get_newest_pair
newest_of-stays p [] h = refl
newest_of-stays p (none ∷ os) h = newest_of-stays p os h.1
newest_of-stays p (some q ∷ os) h = elim h.0 [
  | inl e ↦ ground (arith, newest_of-stays p os h.1)
  | inr l ↦ ground (arith, newest_of-stays p os h.1)
]

newest_of-reaches :
    (p : Pair) (best : Option Pair) (os : List (Option Pair))
    → Older p best
    → Dominates p os
    → Has p os
    → newest_of best os ≡ some p
unfolding newest_of get_newest_pair
newest_of-reaches p best [] l h m = absurd m
newest_of-reaches p none (none ∷ os) l h m = elim m [
  | inl e ↦ absurd (cc)
  | inr n ↦ newest_of-reaches p none os tt h.1 n
]
newest_of-reaches p (some b) (none ∷ os) l h m = elim m [
  | inl e ↦ absurd (cc)
  | inr n ↦ newest_of-reaches p (some b) os l h.1 n
]
newest_of-reaches p none (some q ∷ os) l h m = elim h.0 [
  | inl e ↦ rw (e) (newest_of-stays p os h.1)
  | inr o ↦ elim m [
    | inl e ↦ rw (e) (newest_of-stays p os h.1)
    | inr n ↦ newest_of-reaches p (some q) os o h.1 n
  ]
]
newest_of-reaches p (some b) (some q ∷ os) l h m = elim h.0 [
  | inl e ↦ ground (arith, newest_of-stays p os h.1)
  | inr o ↦ elim m [
    | inl e ↦ ground (arith, newest_of-stays p os h.1)
    | inr n ↦
        ground
          (arith, newest_of-reaches p (some q) os o h.1 n, newest_of-reaches p (some b) os l h.1 n)
  ]
]

-- Where one pair is newer than every other, the order in which the lists are asked does not matter.
pub newest_of_unique :
    (p : Pair) (os : List (Option Pair)) → Dominates p os → Has p os → newest_of none os ≡ some p
newest_of_unique p os h m = newest_of-reaches p none os tt h m

pub newest_of-All : (os : List (Option Pair)) → All (λ o. o ≡ none) os → newest_of none os ≡ none
unfolding newest_of get_newest_pair
newest_of-All [] h = refl
newest_of-All (o ∷ os) h = rw h.0 (newest_of-All os h.1)

-- No two different pairs of `os` were created at the same time.
abbrev pub NoTies : List (Option Pair) → Type 0
NoTies os = (p q : Pair) → Has p os → Has q os → p.created ≡ q.created → p ≡ q

pub IsNewest-Has : (p : Pair) (os : List (Option Pair)) → IsNewest p os → Has p os
IsNewest-Has p os (here h) = inl refl
IsNewest-Has p os (there {os = rest} l n) = inr (IsNewest-Has p rest n)

NotNewer-Dominates :
    (p : Pair) (os : List (Option Pair))
    → ((q : Pair) → Has q os → q.created ≡ p.created → q ≡ p)
    → All (NotNewer p) os
    → Dominates p os
NotNewer-Dominates p [] t h = tt
NotNewer-Dominates p (none ∷ os) t h = (inr tt, NotNewer-Dominates p os (λ q m. t q (inr m)) h.1)
NotNewer-Dominates p (some q ∷ os) t h = elim (dec_lt q.created p.created) [
  | yes l ↦ (inr l, NotNewer-Dominates p os (λ r m. t r (inr m)) h.1)
  | no l ↦ (
    inl (ap some (t q (inl refl) (omega arith))),
    NotNewer-Dominates p os (λ r m. t r (inr m)) h.1,
  )
]

IsNewest-Dominates :
    (p : Pair) (os : List (Option Pair))
    → ((q : Pair) → Has q os → q.created ≡ p.created → q ≡ p)
    → IsNewest p os
    → Dominates p os
IsNewest-Dominates p os t (here {os = rest} h) =
    (inl refl, NotNewer-Dominates p rest (λ q m. t q (inr m)) h)
IsNewest-Dominates p os t (there {os = rest} l n) =
    (inr l, IsNewest-Dominates p rest (λ q m. t q (inr m)) n)

-- Without ties, the newest pair is newer than every other.
pub NoTies-Dominates :
    (p : Pair) (os : List (Option Pair)) → NoTies os → IsNewest p os → Dominates p os
NoTies-Dominates p os t n = IsNewest-Dominates p os (λ q m e. t q p m (IsNewest-Has p os n) e) n
