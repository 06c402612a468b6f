-- ===== src/VectorList/Sorted.antt =====
-- Strictly ascending lists of pairs, and the reference operations on them.
use hm.Prelude.{
  ℕ, zero, suc, ◌+◌, List, [], ◌∷◌, Bool, true, false, Ordering, Option, none, some, length,
  get_elem?, set, insert_at, erase_at, All, ◌≡◌, refl, arith, Ordering-cases, is_lt, is_eq, is_gt,
  if◌then◌else◌,
}
use hm.Bytes.{Bytes, compare_bytes}
use hm.Bytes.Order.{compare_refl, compare_swap, compare_eq, compare_trans}
use hm.Pair.{Pair, pair_bytes}
use hm.BinarySearch.{SearchResult}

-- every key is above `key`
abbrev pub Above : Bytes → List Pair → Type 0
Above key = All (λ p. compare_bytes key p.key ≡ Ordering.lt)

abbrev pub IsSorted : List Pair → Type 0
IsSorted [] = Unit
IsSorted (p ∷ ps) = Above p.key ps × IsSorted ps

abbrev pub same_key : Bytes → Bytes → Bool
same_key a b = elim (compare_bytes a b) [ Ordering.eq ↦ true | _ ↦ false ]

-- The pair with the given key, in a list in any order.
unfoldable pub lookup : List Pair → Bytes → Option Pair
lookup [] key = none
lookup (p ∷ ps) key = if same_key p.key key then some p else lookup ps key

-- One pass over the keys: where a key stands, or would stand.
unfoldable pub scan : List Pair → Bytes → SearchResult
scan [] key = record { found = false; it = 0 }
scan (p ∷ ps) key =
    let r = scan ps key in
    elim (compare_bytes p.key key) [
      | Ordering.lt ↦ record { found = r.found; it = suc r.it }
      | Ordering.eq ↦ record { found = true; it = 0 }
      | Ordering.gt ↦ record { found = false; it = 0 }
    ]

unfoldable pub total_bytes : List Pair → ℕ
total_bytes [] = 0
total_bytes (p ∷ ps) = pair_bytes p + total_bytes ps

pub Above-trans :
    (a b : Bytes) (ps : List Pair) → compare_bytes a b ≡ Ordering.lt → Above b ps → Above a ps
Above-trans a b [] h k = tt
Above-trans a b (p ∷ ps) h k = (compare_trans a b p.key h k.0, Above-trans a b ps h k.1)

-- A key below all others is not there.
pub lookup-Above : (key : Bytes) (ps : List Pair) → Above key ps → lookup ps key ≡ none
unfolding lookup
lookup-Above key [] h = refl
lookup-Above key (p ∷ ps) h = ground (arith, compare_swap key p.key, lookup-Above key ps)

-- the order of two keys, from either side
pub gt-lt : (a b : Bytes) → compare_bytes a b ≡ Ordering.gt → compare_bytes b a ≡ Ordering.lt
gt-lt a b h = ground (arith, compare_swap a b)

pub lt-gt : (a b : Bytes) → compare_bytes a b ≡ Ordering.lt → compare_bytes b a ≡ Ordering.gt
lt-gt a b h = ground (arith, compare_swap a b)

-- What is found by the pass is what the list has.
pub scan-lookup :
    (ps : List Pair) (key : Bytes)
    → IsSorted ps
    → lookup ps key ≡ (if (scan ps key).found then get_elem? ps (scan ps key).it else none)
unfolding lookup scan
scan-lookup [] key s = refl
scan-lookup (p ∷ ps) key s =
    ground
      (arith, scan-lookup ps key, gt-lt p.key key, Above-trans key p.key ps, lookup-Above key ps)

module _ (new : Pair) where
  Above-set :
      (a : Bytes) (ps : List Pair) (i : ℕ)
      → compare_bytes a new.key ≡ Ordering.lt
      → Above a ps
      → Above a (set ps i new)
  Above-set a [] i h k = tt
  Above-set a (p ∷ ps) zero h k = (h, k.1)
  Above-set a (p ∷ ps) (suc i) h k = (k.0, Above-set a ps i h k.1)

  Above-insert_at :
      (a : Bytes) (ps : List Pair) (i : ℕ)
      → compare_bytes a new.key ≡ Ordering.lt
      → Above a ps
      → Above a (insert_at ps i new)
  Above-insert_at a [] zero h k = (h, tt)
  Above-insert_at a [] (suc i) h k = (h, tt)
  Above-insert_at a (p ∷ ps) zero h k = (h, k)
  Above-insert_at a (p ∷ ps) (suc i) h k = (k.0, Above-insert_at a ps i h k.1)

  pub set-IsSorted :
      (ps : List Pair) (key : Bytes)
      → new.key ≡ key
      → (scan ps key).found ≡ true
      → IsSorted ps
      → IsSorted (set ps (scan ps key).it new)
  unfolding scan
  set-IsSorted [] key e h s = tt
  set-IsSorted (p ∷ ps) key e h s = elim (Ordering-cases (compare_bytes p.key key)) [
    | is_lt c ↦
        rw (c, scan)
          (
            Above-set p.key ps (scan ps key).it (rw e c) s.0,
            set-IsSorted ps key e (ground arith) s.1,
          )
    | is_eq c ↦ rw (c, scan, e, ← compare_eq p.key key c) s
    | is_gt c ↦ ground arith
  ]

  pub insert_at-IsSorted :
      (ps : List Pair) (key : Bytes)
      → new.key ≡ key
      → (scan ps key).found ≡ false
      → IsSorted ps
      → IsSorted (insert_at ps (scan ps key).it new)
  unfolding scan
  insert_at-IsSorted [] key e h s = (tt, tt)
  insert_at-IsSorted (p ∷ ps) key e h s = elim (Ordering-cases (compare_bytes p.key key)) [
    | is_lt c ↦
        rw (c, scan)
          (
            Above-insert_at p.key ps (scan ps key).it (rw e c) s.0,
            insert_at-IsSorted ps key e (ground arith) s.1,
          )
    | is_eq c ↦ ground arith
    | is_gt c ↦
        let l : compare_bytes new.key p.key ≡ Ordering.lt = rw e (gt-lt p.key key c) in
        rw (c, scan) ((l, Above-trans new.key p.key ps l s.0), s)
  ]

  -- A write into the slot of its key changes the pair of that key alone.
  pub lookup-set :
      (ps : List Pair) (key j : Bytes)
      → new.key ≡ key
      → (scan ps key).found ≡ true
      → lookup (set ps (scan ps key).it new) j ≡ (if same_key key j then some new else lookup ps j)
  unfolding scan lookup
  lookup-set [] key j e h = ground arith
  lookup-set (p ∷ ps) key j e h = ground (
    arith,
    lookup-set ps key j e,
    compare_eq p.key key,
    compare_eq p.key j,
    compare_eq key j,
    compare_refl key,
  )

  -- So does a pair put where its key would stand.
  pub lookup-insert_at :
      (ps : List Pair) (key j : Bytes)
      → new.key ≡ key
      → (scan ps key).found ≡ false
      → lookup (insert_at ps (scan ps key).it new) j
        ≡ (if same_key key j then some new else lookup ps j)
  unfolding scan lookup
  lookup-insert_at [] key j e h = ground arith
  lookup-insert_at (p ∷ ps) key j e h =
      ground
        (arith, lookup-insert_at ps key j e, compare_eq p.key j, compare_eq key j, compare_refl key)

Above-erase_at : (a : Bytes) (ps : List Pair) (i : ℕ) → Above a ps → Above a (erase_at ps i)
Above-erase_at a [] i k = tt
Above-erase_at a (p ∷ ps) zero k = k.1
Above-erase_at a (p ∷ ps) (suc i) k = (k.0, Above-erase_at a ps i k.1)

pub erase_at-IsSorted : (ps : List Pair) (i : ℕ) → IsSorted ps → IsSorted (erase_at ps i)
erase_at-IsSorted [] i s = tt
erase_at-IsSorted (p ∷ ps) zero s = s.1
erase_at-IsSorted (p ∷ ps) (suc i) s = (Above-erase_at p.key ps i s.0, erase_at-IsSorted ps i s.1)

pub lookup-erase_at :
    (ps : List Pair) (key j : Bytes)
    → IsSorted ps
    → (scan ps key).found ≡ true
    → lookup (erase_at ps (scan ps key).it) j ≡ (if same_key key j then none else lookup ps j)
unfolding scan lookup
lookup-erase_at [] key j s h = ground arith
lookup-erase_at (p ∷ ps) key j s h = ground (
  arith,
  lookup-erase_at ps key j s.1,
  compare_eq p.key key,
  compare_eq p.key j,
  compare_eq key j,
  compare_refl key,
  lookup-Above p.key ps,
)

pub total-set :
    (ps : List Pair) (i : ℕ) (old new : Pair)
    → get_elem? ps i ≡ some old
    → total_bytes (set ps i new) + pair_bytes old ≡ total_bytes ps + pair_bytes new
unfolding total_bytes
total-set [] i old new h = cc
total-set (p ∷ ps) zero old new h = ground arith
total-set (p ∷ ps) (suc i) old new h = omega (arith, total-set ps i old new h)

pub total-insert_at :
    (ps : List Pair) (i : ℕ) (new : Pair)
    → (total_bytes (insert_at ps i new) ≡ pair_bytes new + total_bytes ps)
      × (length (insert_at ps i new) ≡ length ps + 1)
unfolding total_bytes
total-insert_at [] zero new = omega arith
total-insert_at [] (suc i) new = omega arith
total-insert_at (p ∷ ps) zero new = omega arith
total-insert_at (p ∷ ps) (suc i) new = omega (arith, total-insert_at ps i new)

pub total-erase_at :
    (ps : List Pair) (i : ℕ) (old : Pair)
    → get_elem? ps i ≡ some old
    → (total_bytes (erase_at ps i) + pair_bytes old ≡ total_bytes ps)
      × (length (erase_at ps i) + 1 ≡ length ps)
unfolding total_bytes
total-erase_at [] i old h = cc
total-erase_at (p ∷ ps) zero old h = ground arith
total-erase_at (p ∷ ps) (suc i) old h = omega (arith, total-erase_at ps i old h)
