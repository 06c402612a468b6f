-- ===== src/LinkList/Agree.antt =====
-- Every operation of hm4/linklist.cc is that of hm4/vectorlist.cc on the same pairs.
use hm.Prelude.{
  ℕ, zero, suc, List, [], ◌∷◌, true, false, Option, none, some, get_elem?, ◌≡◌, refl, sym, ap, ◌∙◌,
  arith, All, Bool-cases, inl, inr,
}
use hm.Bytes.{Bytes}
use hm.Pair.{Pair, is_key_valid}
use hm.Pair.HPair.{hkey_of, IsAscii}
use hm.Pair.Factory.{Factory, get_key, get_created, factory_bytes, create, create_hint}
use hm.IList.{InsertResult, is_valid_for_replace, can_insert_hint}
use hm.Arena.{Arena, xallocate}
use hm.VectorList
use hm.VectorList.{VectorList}
use hm.VectorList.Sorted.{scan, lookup}
use hm.VectorList.Search.{search-scan, get_pair-lookup}
use hm.VectorList.Contents
use hm.VectorList.Contents.{Wrote, scan-found, insert_f_found, add-Wrote}
use hm.LinkList.{
  Node, LinkList, locate, get_pair, overwrite, replace, add, link, erase, internal_node_size,
}
use hm.LinkList.View.{
  pairs_of, view, IsNode, node_at, pairs_of-set, pairs_of-insert_at, pairs_of-erase_at,
  get_elem-pairs_of, All-erase_at, locate-scan, find_-lookup,
}

-- The pairs are a valid vector list, and every node has the number of its key.
pub record IsValid (l : LinkList) : Type 0 where
  pub vec : Contents.IsValid (view l)
  pub nodes : All IsNode l.head

-- the list and the result of an operation, the list seen as a vector list
abbrev pub view_of : LinkList × InsertResult → VectorList × InsertResult
view_of out = (view out.0, out.1)

-- the memory for the node behind that for the pair
unfoldable pub node_room : Option ℕ × Arena → Option ℕ × Arena
node_room (none, arena) = (none, arena)
node_room (some p, arena) = xallocate arena internal_node_size

get_node :
    (ns : List Node) (i : ℕ) (p : Pair)
    → get_elem? (pairs_of ns) i ≡ some p
    → (n : Node) × (get_elem? ns i ≡ some n) × (n.pair ≡ p)
get_node [] i p e = absurd (cc)
get_node (n ∷ ns) zero p e = (n, refl, ground arith)
get_node (n ∷ ns) (suc i) p e = get_node ns i p e

replace-view :
    (now : ℕ) (l : LinkList) (f : Factory) (i : ℕ) (old : Pair) (a : Option ℕ × Arena)
    → view_of (replace now l f i old a) ≡ VectorList.replace now (view l) f i old a
unfolding replace VectorList.replace
replace-view now l f i old (none, arena) = refl
replace-view now l f i old (some p, arena) =
    rw (pairs_of-set l.head i (record { hkey = hkey_of (get_key f); pair = create now f })) refl

pub overwrite-view :
    (now : ℕ) (l : LinkList) (f : Factory) (i : ℕ) (n : Node)
    → view_of (overwrite now l f i n) ≡ VectorList.overwrite now (view l) f i (some n.pair)
unfolding overwrite VectorList.overwrite
overwrite-view now l f i n = elim (Bool-cases (is_valid_for_replace (get_created f) n.pair)) [
  | inr older ↦ rw older refl
  | inl newer ↦ rw newer (elim (Bool-cases (can_insert_hint n.pair f)) [
    | inl fits ↦
        rw (fits, pairs_of-set l.head i (record n { pair = create_hint now f n.pair })) refl
    | inr no_room ↦ rw no_room (replace-view now l f i n.pair (xallocate l.arena (factory_bytes f)))
  ])
]

link-view :
    (now : ℕ) (l : LinkList) (f : Factory) (i : ℕ) (a : Option ℕ × Arena)
    → view_of (link now l f i a) ≡ VectorList.add true now (view l) f i a
unfolding link VectorList.add
link-view now l f i (none, arena) = refl
link-view now l f i (some p, arena) =
    rw (pairs_of-insert_at l.head i (record { hkey = hkey_of (get_key f); pair = create now f }))
      refl

pub add-view :
    (now : ℕ) (l : LinkList) (f : Factory) (i : ℕ) (a : Option ℕ × Arena)
    → view_of (add now l f i a) ≡ VectorList.add true now (view l) f i (node_room a)
unfolding add VectorList.add node_room
add-view now l f i (none, arena) = refl
add-view now l f i (some p, arena) = link-view now l f i (xallocate arena internal_node_size)

pub located :
    (l : LinkList) (key : Bytes)
    → IsAscii key
    → All IsNode l.head
    → let r = scan (pairs_of l.head) key in
      locate l.head (hkey_of key) key 0 ≡ record { prev = r.it; node = node_at l.head r }
located l key a v =
    locate-scan key a l.head 0 v
    ∙ ap (λ i. record { prev = i; node = node_at l.head (scan (pairs_of l.head) key) })
        (omega arith)

-- where the pass finds a key, there is a node with that key
pub found_node :
    (ns : List Node) (key : Bytes)
    → (scan (pairs_of ns) key).found ≡ true
    → (n : Node) × (get_elem? ns (scan (pairs_of ns) key).it ≡ some n) × (n.pair.key ≡ key)
found_node ns key e =
    let (old, g, same) = scan-found (pairs_of ns) key e in
    let (n, at, k) = get_node ns (scan (pairs_of ns) key).it old g in
    (n, at, ap (λ (p : Pair). p.key) k ∙ same)

module _ (l : LinkList) (key : Bytes) (v : IsValid l) (k : is_key_valid key ≡ true)
    (a : IsAscii key) where
  pub get_pair-scanned : get_pair l key ≡ lookup (pairs_of l.head) key
  unfolding get_pair
  get_pair-scanned = find_-lookup key a l.head v.nodes v.vec.sorted

  -- A read of a valid linked list for a valid ASCII key is the read of the vector list with the
  -- same pairs.
  pub get_pair-view : get_pair l key ≡ VectorList.get_pair (view l) key
  get_pair-view = get_pair-scanned ∙ sym (get_pair-lookup key k (view l) v.vec.sorted)

  erase-missing :
      (scan (pairs_of l.head) key).found ≡ false
      → view_of (erase l key) ≡ VectorList.erase (view l) key
  unfolding erase VectorList.erase
  erase-missing e =
      rw (erase, located l key a v.nodes, search-scan key k (pairs_of l.head) v.vec.sorted, e) refl

  erase-found :
      (n : Node)
      → (scan (pairs_of l.head) key).found ≡ true
      → get_elem? l.head (scan (pairs_of l.head) key).it ≡ some n
      → view_of (erase l key) ≡ VectorList.erase (view l) key
  unfolding erase VectorList.erase VectorList.drop_at
  erase-found n e g =
      rw
        (
          erase,
          located l key a v.nodes,
          search-scan key k (pairs_of l.head) v.vec.sorted,
          e,
          g,
          get_elem-pairs_of l.head (scan (pairs_of l.head) key).it n g,
          located l key a v.nodes,
          pairs_of-erase_at l.head (scan (pairs_of l.head) key).it,
        )
        refl

  pub erase-view : view_of (erase l key) ≡ VectorList.erase (view l) key
  erase-view = elim (Bool-cases (scan (pairs_of l.head) key).found) [
    | inr e ↦ erase-missing e
    | inl e ↦ let (n, at, same) = found_node l.head key e in erase-found n e at
  ]

  pub nodes-erase : All IsNode (erase l key).0.head
  unfolding erase
  nodes-erase =
      ground (arith, All-erase_at IsNode l.head (locate l.head (hkey_of key) key 0).prev v.nodes)
