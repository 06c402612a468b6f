-- ===== src/LinkList/View.antt =====
-- The chain of hm4/linklist.cc seen as a vector of pairs: what its walks find in it.
use hm.Prelude.{
  ℕ, zero, suc, ◌+◌, List, [], ◌∷◌, true, false, Ordering, Option, none, some, set, insert_at,
  erase_at, get_elem?, leb, subst, if◌then◌else◌, ◌≡◌, refl, ap, arith, All,
}
use hm.Bytes.{Bytes, compare_bytes}
use hm.Pair.{Pair}
use hm.Pair.HPair.{hkey_of, hpair_cmp, hkey_of-lt, hpair_cmp-compare, IsAscii, IsAsciiKey}
use hm.BinarySearch.{SearchResult}
use hm.VectorList.{VectorList}
use hm.VectorList.Sorted.{scan, lookup, IsSorted, gt-lt, Above-trans, lookup-Above}
use hm.LinkList.{Node, LinkList, locate, find_, get_data}

-- the pairs of a chain
abbrev pub pairs_of : List Node → List Pair
pairs_of [] = []
pairs_of (node ∷ next) = node.pair ∷ pairs_of next

-- the vector list with the same pairs, counters and arena
abbrev pub view : LinkList → VectorList
view l = record { vec = pairs_of l.head; lc = l.lc; arena = l.arena }

-- a node has the number of its pair's key, which is ASCII
abbrev pub IsNode : Node → Type 0
IsNode n = (n.hkey ≡ hkey_of n.pair.key) × IsAsciiKey n.pair.key

abbrev pub node_at : List Node → SearchResult → Option Node
node_at ns r = if r.found then get_elem? ns r.it else none

pub pairs_of-set :
    (ns : List Node) (i : ℕ) (n : Node) → pairs_of (set ns i n) ≡ set (pairs_of ns) i n.pair
pairs_of-set [] i n = refl
pairs_of-set (x ∷ ns) zero n = refl
pairs_of-set (x ∷ ns) (suc i) n = ap (λ ps. x.pair ∷ ps) (pairs_of-set ns i n)

pub pairs_of-insert_at :
    (ns : List Node) (i : ℕ) (n : Node)
    → pairs_of (insert_at ns i n) ≡ insert_at (pairs_of ns) i n.pair
pairs_of-insert_at ns zero n = refl
pairs_of-insert_at [] (suc i) n = refl
pairs_of-insert_at (x ∷ ns) (suc i) n = ap (λ ps. x.pair ∷ ps) (pairs_of-insert_at ns i n)

pub pairs_of-erase_at :
    (ns : List Node) (i : ℕ) → pairs_of (erase_at ns i) ≡ erase_at (pairs_of ns) i
pairs_of-erase_at [] i = refl
pairs_of-erase_at (x ∷ ns) zero = refl
pairs_of-erase_at (x ∷ ns) (suc i) = ap (λ ps. x.pair ∷ ps) (pairs_of-erase_at ns i)

pub get_elem-pairs_of :
    (ns : List Node) (i : ℕ) (n : Node)
    → get_elem? ns i ≡ some n
    → get_elem? (pairs_of ns) i ≡ some n.pair
get_elem-pairs_of [] i n e = absurd (cc)
get_elem-pairs_of (x ∷ ns) zero n e = ground arith
get_elem-pairs_of (x ∷ ns) (suc i) n e = get_elem-pairs_of ns i n e

module _ (P : Node → Type 0) where
  pub All-set : (ns : List Node) (i : ℕ) (n : Node) → P n → All P ns → All P (set ns i n)
  All-set [] i n h hs = tt
  All-set (x ∷ ns) zero n h hs = (h, hs.1)
  All-set (x ∷ ns) (suc i) n h hs = (hs.0, All-set ns i n h hs.1)

  pub All-insert_at :
      (ns : List Node) (i : ℕ) (n : Node) → P n → All P ns → All P (insert_at ns i n)
  All-insert_at ns zero n h hs = (h, hs)
  All-insert_at [] (suc i) n h hs = (h, tt)
  All-insert_at (x ∷ ns) (suc i) n h hs = (hs.0, All-insert_at ns i n h hs.1)

  pub All-erase_at : (ns : List Node) (i : ℕ) → All P ns → All P (erase_at ns i)
  All-erase_at [] i hs = tt
  All-erase_at (x ∷ ns) zero hs = hs.1
  All-erase_at (x ∷ ns) (suc i) hs = (hs.0, All-erase_at ns i hs.1)

  pub All-get_elem : (ns : List Node) (i : ℕ) (n : Node) → get_elem? ns i ≡ some n → All P ns → P n
  All-get_elem [] i n e hs = absurd (cc)
  All-get_elem (x ∷ ns) zero n e hs = subst P (ground arith) hs.0
  All-get_elem (x ∷ ns) (suc i) n e hs = All-get_elem ns i n e hs.1

-- the keys of the chain's pairs are ASCII
pub stored-pairs_of : (ns : List Node) → All IsNode ns → All (λ p. IsAsciiKey p.key) (pairs_of ns)
stored-pairs_of [] v = tt
stored-pairs_of (n ∷ ns) v = (v.0.1, stored-pairs_of ns v.1)

module _ (key : Bytes) (ascii : IsAscii key) where
  -- the comparison behind the test of the numbers is the comparison of the keys
  node_compare :
      (n : Node)
      → IsNode n
      → hpair_cmp n.hkey n.pair (hkey_of key) key ≡ compare_bytes n.pair.key key
  node_compare n v = rw v.0 (hpair_cmp-compare n.pair key v.1.1 ascii)

  node_below :
      (n : Node)
      → IsNode n
      → leb (hkey_of key) n.hkey ≡ false
      → compare_bytes n.pair.key key ≡ Ordering.lt
  node_below n v h = hkey_of-lt n.pair.key key v.1.1 ascii (ground (arith, v.0))

  pub locate-scan :
      (ns : List Node) (j : ℕ)
      → All IsNode ns
      → let r = scan (pairs_of ns) key in
        locate ns (hkey_of key) key j ≡ record { prev = j + r.it; node = node_at ns r }
  unfolding locate scan
  locate-scan [] j v = ground arith
  locate-scan (n ∷ ns) j v =
      ground (arith, node_compare n v.0, node_below n v.0, locate-scan ns (j + 1) v.1)

  pub find_-lookup :
      (ns : List Node)
      → All IsNode ns
      → IsSorted (pairs_of ns)
      → get_data (find_ true ns (hkey_of key) key) ≡ lookup (pairs_of ns) key
  unfolding find_ lookup get_data
  find_-lookup [] v s = refl
  find_-lookup (n ∷ ns) v s = ground (
    arith,
    node_compare n v.0,
    node_below n v.0,
    find_-lookup ns v.1 s.1,
    gt-lt n.pair.key key,
    Above-trans key n.pair.key (pairs_of ns),
    lookup-Above key (pairs_of ns),
  )
